-- ===== src/Morse/Process/Tests.antt =====
-- The two threads on small recordings.
use losangeles_lakers.Base.{ℕ, ◌≡◌, refl, List, [], ◌++◌, replicate, ok, arith}
use losangeles_lakers.Base.Text.{codes}
use losangeles_lakers.Morse.Encode.{find_case}
use losangeles_lakers.Morse.Encode.Spec.{encoding, code_of}
use losangeles_lakers.Morse.Judge.{test_limits}
use losangeles_lakers.Morse.Judge.Signal.{Burst, IsKeyed, judged, mark_of, gap_of}
use losangeles_lakers.Morse.RoundTrip.{heard}
use losangeles_lakers.Morse.RoundTrip.Received.{received, received_text}
use losangeles_lakers.Morse.Process.{energy, test_count, shown, morse_process_test_thread}
use losangeles_lakers.Morse.Process.Heard.{morse_process_test_thread-heard}

-- `E`: five loud frames behind the 60 bytes of the header, and quiet ones.
abbrev e_recording : List ℕ
e_recording = replicate 60 0 ++ replicate 500 255 ++ replicate 140 0

abbrev e_signal : Burst
e_signal = record { sound = replicate 5 6502500; silence = replicate 3 0 }

e_signal-IsKeyed : IsKeyed test_limits e_signal
e_signal-IsKeyed = omega arith

morse_process_test_thread-heard_example :
    morse_process_test_thread 1 e_recording (replicate 61 0) 7 7 ≡ ok (shown (heard (codes "E")))
unfolding judged mark_of gap_of encoding code_of find_case received_text received energy test_count
morse_process_test_thread-heard_example =
    morse_process_test_thread-heard e_recording (replicate 61 0) [] e_signal [] 7 7 (codes "E")
      (omega arith) (omega arith) refl (omega arith) (e_signal-IsKeyed, tt) refl (omega arith)
      (omega arith)
