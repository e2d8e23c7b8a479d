-- ===== src/Morse/Process/Heard.antt =====
-- What the two threads show for a recording.
use losangeles_lakers.Base.{
  ℕ, ◌≤◌, ◌≡◌, refl, List, ◌∷◌, ◌++◌, arith, length, map, All, ok, length-append,
}
use losangeles_lakers.Morse.Encode.Spec.{encoding}
use losangeles_lakers.Morse.Decode.{code_size}
use losangeles_lakers.Morse.Judge.{test_limits}
use losangeles_lakers.Morse.Judge.Signal.{Burst, frames, IsKeyed, judged}
use losangeles_lakers.Morse.Judge.Rounds.{IsIdle}
use losangeles_lakers.Morse.RoundTrip.{heard}
use losangeles_lakers.Morse.RoundTrip.Received.{received_text, drop_last}
use losangeles_lakers.Morse.RoundTrip.Hearing.{inverse_translate-judge}
use losangeles_lakers.Morse.Process.{
  test_count, energy, shown, recognise, morse_process_test_thread,
}
use losangeles_lakers.Morse.Process.Windows.{test_windows, fill_rows-test}

-- `morse_process_test` shows the text of a recording of at least 100 bytes with 61 bytes of memory
-- behind it: where the energies of its windows are those of idle frames and a keyed signal whose
-- codes are those of a text without the last space, take at most 198 cells, and what is received
-- for the text fits `code`, the thread returns with what is received for each character, whatever
-- the variables of the decision held before.
pub morse_process_test_thread-heard :
    (wav behind idle : List ℕ) (b : Burst) (bs : List Burst) (m n : ℕ) (cs : List ℕ)
    → 100 ≤ length wav
    → 61 ≤ length behind
    → map energy (test_windows (length wav) (wav ++ behind) 0 (test_count (length wav)))
      ≡ idle ++ frames (b ∷ bs)
    → All IsIdle idle
    → All (IsKeyed test_limits) (b ∷ bs)
    → judged test_limits (b ∷ bs) ≡ drop_last (encoding cs)
    → length (drop_last (encoding cs)) ≤ 198
    → length (received_text cs) ≤ code_size
    → morse_process_test_thread 1 wav behind m n ≡ ok (shown (heard (received_text cs)))
unfolding morse_process_test_thread recognise
morse_process_test_thread-heard wav behind idle b bs m n cs long room energies quiet keyed codes_of
      short fits =
    let (s, decides, hears) =
      inverse_translate-judge test_limits idle b bs m n cs (omega arith) (omega arith) quiet keyed
        codes_of short fits in
    rw
      (
        fill_rows-test (length wav) (wav ++ behind) 0 (test_count (length wav)) long
            (omega (arith, length-append wav behind)) (omega arith),
        energies,
        decides,
        hears,
      )
      refl
