-- ===== src/Morse/Process.antt =====
-- `morse_process_once_thread` and `morse_process_test_thread` of
-- ls2kdev_record/applications/morse/morse_decode.c: the division of a recording into frames, their
-- energies, the decision and the display.
pub mod Windows
pub mod Heard
mod Tests
use losangeles_lakers.Base.{
  ℕ, zero, suc, ◌+◌, ◌-◌, ◌*◌, ◌/◌, List, [], ◌∷◌, ◌++◌, ◌==◌, leb, ltb, if◌then◌else◌, Option,
  none, some, length, drop, replicate, map, Result, ok, fault, bad_read, bad_size, ◌>>=◌, store,
}
use losangeles_lakers.Morse.Decode.{Decoder, inverse_translate}
use losangeles_lakers.Morse.Judge.{Limits, judge, once_limits, test_limits}

-- What the two threads write into their loops: the frame's length, the distance of the frames, what
-- lies before the first sample, and what is made of a sample.
pub record Framing : Type 0 where
  pub wlen : ℕ
  pub inc : ℕ
  pub offset : ℕ
  pub sample : ℕ → ℕ

abbrev pub once_framing : Framing
once_framing = record { wlen = 200; inc = 100; offset = 0; sample = λ x. if leb x 6 then 0 else x }

abbrev pub test_framing : Framing
test_framing = record { wlen = 100; inc = 100; offset = 60; sample = λ x. x }

-- `fn`; the divisions of C round towards zero, and `flen` is at least 1 in the second.
unfoldable pub once_count : ℕ → ℕ
once_count flen = if ltb flen 200 then (if ltb 100 flen then 1 else 0) else (flen - 200) / 100 + 1

unfoldable pub test_count : ℕ → ℕ
test_count flen = (flen - 100) / 100 + 2

module _ (framing : Framing) where
  open framing use {wlen, inc, offset, sample}

  -- The loop over one row of `arr`, from cell `j` on; `memory` begins at `fbuffer[inc * i + k]`.
  unfoldable pub fill_row : ℕ → ℕ → List ℕ → List ℕ → Result (List ℕ)
  fill_row zero j memory row = ok row
  fill_row (suc rounds) j [] row = fault bad_read
  fill_row (suc rounds) j (x ∷ memory) row =
      store row j (sample x) >>= fill_row rounds (j + 1) memory

  -- The rounds of the inner loop: `wlen` in each row but the last, where `j_len` counts as well.
  unfoldable pub row_rounds : ℕ → ℕ → ℕ → ℕ
  row_rounds flen fn zero = flen + 1 - (fn - 1) * inc
  row_rounds flen fn (suc left) = wlen

  -- The rows from `i` on, of which `left` are left.
  unfoldable pub fill_rows : ℕ → ℕ → List ℕ → ℕ → ℕ → Result (List (List ℕ))
  fill_rows flen fn memory i zero = ok []
  fill_rows flen fn memory i (suc left) =
      fill_row (row_rounds flen fn left) 0 (drop (inc * i + offset) memory) (replicate wlen 0)
      >>= λ row. fill_rows flen fn memory (i + 1) left >>= λ rows. ok (row ∷ rows)

-- `En[i] += arr[i][j] * arr[i][j]` over a row; 200 bytes do not reach the bound of an `int`.
unfoldable pub energy : List ℕ → ℕ
energy [] = 0
energy (x ∷ row) = x * x + energy row

-- How a thread ends: with its usage line, or with what `inverse_translate` leaves.
pub data Shown : Type 0 where
  usage : Shown
  shown : Decoder → Shown

-- The energies, the decision and the display.
unfoldable pub recognise : Limits → ℕ → ℕ → List (List ℕ) → Result Shown
recognise limits m n rows =
    judge limits m n (map energy rows) >>= λ s. inverse_translate s.jud >>= λ d. ok (shown d)

-- `file` is what the file holds, where it opens; `m` and `n` are the variables of the decision
-- before they are set.
unfoldable pub morse_process_once_thread : ℕ → Option (List ℕ) → ℕ → ℕ → Result Shown
morse_process_once_thread argc file m n =
    if argc == 2
    then elim file [
      | none ↦ fault bad_read
      | some fbuffer ↦
          let fn = once_count (length fbuffer) in
          if fn == 0
          then fault bad_size
          else (fill_rows once_framing (length fbuffer) fn fbuffer 0 fn
              >>= recognise once_limits m n)
    ]
    else ok usage

-- `wav` is the array of the recording, and `behind` the memory behind it.
unfoldable pub morse_process_test_thread : ℕ → List ℕ → List ℕ → ℕ → ℕ → Result Shown
morse_process_test_thread argc wav behind m n =
    if argc == 1
    then (fill_rows test_framing (length wav) (test_count (length wav)) (wav ++ behind) 0
          (test_count (length wav))
        >>= recognise test_limits m n)
    else ok usage
