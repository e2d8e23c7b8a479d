-- ===== src/Morse/Process/Windows.antt =====
-- The frames as windows of the recording.
use losangeles_lakers.Base.{
  ℕ, zero, suc, ◌+◌, ◌-◌, ◌*◌, ◌/◌, ◌≤◌, ◌<◌, ◌≡◌, refl, ap, ◌∙◌, sym, List, [], ◌∷◌, ◌++◌, ◌==◌,
  leb, ltb, ltb-true, ltb-false, ◌≢◌, ◌⊎◌, inl, inr, Fault, ◌||◌, ◌%◌, if◌then◌else◌, arith, length,
  take, drop, replicate, map, append_assoc, append-nil, length-append, length-drop, ok, fault,
  bad_read, bad_write, store-append, store_at_end,
}
use mathlib.Core.Path.{ap₂}
use native.Mathlib.Decide.{dec_lt}
use losangeles_lakers.Morse.Process.{
  Framing, once_framing, test_framing, once_count, test_count, fill_row, fill_rows, row_rounds,
}

module _ (framing : Framing) where
  open framing use {wlen, inc, offset, sample}

  -- One round with a cell left.
  fill_step :
      (rounds x : ℕ) (memory w : List ℕ) (r : ℕ)
      → fill_row framing (suc rounds) (length w) (x ∷ memory) (w ++ replicate (suc r) 0)
        ≡ fill_row framing rounds
            (length (w ++ (sample x ∷ [])))
            memory
            ((w ++ (sample x ∷ [])) ++ replicate r 0)
  unfolding fill_row
  fill_step rounds x memory w r = rw (store-append w 0 (replicate r 0) (sample x)) next
    where
      next :
          fill_row framing rounds (length w + 1) memory (w ++ (sample x ∷ replicate r 0))
          ≡ fill_row framing rounds
              (length (w ++ (sample x ∷ [])))
              memory
              ((w ++ (sample x ∷ [])) ++ replicate r 0)
      next = rw (append_assoc, length-append) refl

  -- A row that holds `w` and has `r` cleared cells left.
  pub fill_row-fits :
      (rounds : ℕ) (memory w : List ℕ) (r : ℕ)
      → rounds ≤ length memory
      → rounds ≤ r
      → fill_row framing rounds (length w) memory (w ++ replicate r 0)
        ≡ ok ((w ++ map sample (take rounds memory)) ++ replicate (r - rounds) 0)
  fill_row-fits zero memory w r long fits =
      unfold fill_row in rw append-nil (ap (λ k. ok (w ++ replicate k 0)) (omega arith))
  fill_row-fits (suc rounds) [] w r long fits = absurd (omega arith)
  fill_row-fits (suc rounds) (x ∷ memory) w zero long fits = absurd (omega arith)
  fill_row-fits (suc rounds) (x ∷ memory) w (suc r) long fits =
      fill_step rounds x memory w r
      ∙ fill_row-fits rounds memory (w ++ (sample x ∷ [])) r (omega arith) (omega arith)
      ∙ ap₂ (λ v k. ok (v ++ replicate k 0))
          (append_assoc w (sample x ∷ []) (map sample (take rounds memory))) (omega arith)

  -- More rounds than the row has cells, or than the memory has.
  pub fill_row-overflows :
      (rounds : ℕ) (memory w : List ℕ) (r : ℕ)
      → r < rounds
      → r < length memory
      → fill_row framing rounds (length w) memory (w ++ replicate r 0) ≡ fault bad_write
  fill_row-overflows zero memory w r over long = absurd (omega arith)
  fill_row-overflows (suc rounds) [] w r over long = absurd (omega arith)
  fill_row-overflows (suc rounds) (x ∷ memory) w zero over long =
      unfold fill_row in rw (append-nil, store_at_end w (sample x)) refl
  fill_row-overflows (suc rounds) (x ∷ memory) w (suc r) over long =
      fill_step rounds x memory w r
      ∙ fill_row-overflows rounds memory (w ++ (sample x ∷ [])) r (omega arith) (omega arith)

  pub fill_row-short :
      (rounds : ℕ) (memory w : List ℕ) (r : ℕ)
      → length memory < rounds
      → length memory ≤ r
      → fill_row framing rounds (length w) memory (w ++ replicate r 0) ≡ fault bad_read
  fill_row-short zero memory w r over fits = absurd (omega arith)
  fill_row-short (suc rounds) [] w r over fits = unfold fill_row in refl
  fill_row-short (suc rounds) (x ∷ memory) w zero over fits = absurd (omega arith)
  fill_row-short (suc rounds) (x ∷ memory) w (suc r) over fits =
      fill_step rounds x memory w r
      ∙ fill_row-short rounds memory (w ++ (sample x ∷ [])) r (omega arith) (omega arith)

map-same : (xs : List ℕ) → map (λ x. x) xs ≡ xs
map-same [] = refl
map-same (x ∷ xs) = ap (λ l. x ∷ l) (map-same xs)

-- Row `i` of the test: the 100 cells from 60 + 100 * i on; in the last, where none is left, those
-- that remain of the recording's length and one more, and then zeros.
abbrev pub test_window : ℕ → List ℕ → ℕ → ℕ → List ℕ
test_window flen memory i zero =
    take (flen % 100 + 1) (drop (100 * i + 60) memory) ++ replicate (99 - flen % 100) 0
test_window flen memory i (suc left) = take 100 (drop (100 * i + 60) memory)

abbrev pub test_windows : ℕ → List ℕ → ℕ → ℕ → List (List ℕ)
test_windows flen memory i zero = []
test_windows flen memory i (suc left) =
    test_window flen memory i left ∷ test_windows flen memory (i + 1) left

test_row :
    (flen : ℕ) (memory : List ℕ) (i left : ℕ)
    → 100 ≤ flen
    → flen + 61 ≤ length memory
    → i + suc left ≡ test_count flen
    → fill_row test_framing
        (row_rounds test_framing flen (test_count flen) left)
        0
        (drop (100 * i + 60) memory)
        (replicate 100 0)
      ≡ ok (test_window flen memory i left)
unfolding row_rounds test_count
test_row flen memory i zero long room at =
    let rounds : flen + 1 - ((flen - 100) / 100 + 2 - 1) * 100 ≡ flen % 100 + 1 = omega arith in
    ap (λ k. fill_row test_framing k 0 (drop (100 * i + 60) memory) (replicate 100 0)) rounds
    ∙ fill_row-fits test_framing (flen % 100 + 1) (drop (100 * i + 60) memory) [] 100
        (omega (arith, length-drop (100 * i + 60) memory)) (omega arith)
    ∙ ap₂ (λ v k. ok (v ++ replicate k 0))
        (map-same (take (flen % 100 + 1) (drop (100 * i + 60) memory))) (omega arith)
test_row flen memory i (suc left) long room at =
    fill_row-fits test_framing 100 (drop (100 * i + 60) memory) [] 100
      (omega (arith, length-drop (100 * i + 60) memory)) (omega arith)
    ∙ ap ok (append-nil _ ∙ map-same (take 100 (drop (100 * i + 60) memory)))

-- All rows of the test.
pub fill_rows-test :
    (flen : ℕ) (memory : List ℕ) (i left : ℕ)
    → 100 ≤ flen
    → flen + 61 ≤ length memory
    → i + left ≡ test_count flen
    → fill_rows test_framing flen (test_count flen) memory i left
      ≡ ok (test_windows flen memory i left)
unfolding fill_rows
fill_rows-test flen memory i zero long room at = refl
fill_rows-test flen memory i (suc left) long room at =
    rw
      (
        test_row flen memory i left long room at,
        fill_rows-test flen memory (i + 1) left long room (omega arith),
      )
      refl

pub once_count_lem :
    (flen : ℕ)
    → 100 < flen
    → ((flen < 200) × (once_count flen ≡ 1))
      ⊎ ((200 ≤ flen) × (100 * once_count flen + 100 ≤ flen) × (flen < 100 * once_count flen + 200))
unfolding once_count
once_count_lem flen long = elim (dec_lt flen 200) [
  | yes h ↦ inl (h, rw (ltb-true flen 200 h, ltb-true 100 flen long) refl)
  | no h ↦
      let off = ltb-false flen 200 (omega arith) in
      inr (omega arith, rw off (omega arith), rw off (omega arith))
]

-- The fault of the last row: it reads past the file where it is not longer than a frame, and writes
-- past the row otherwise.
abbrev pub last_fault : ℕ → Fault
last_fault flen = if ltb flen 200 || flen % 100 == 0 then bad_read else bad_write

last_read : (flen : ℕ) → (flen < 200) ⊎ (flen % 100 ≡ 0) → last_fault flen ≡ bad_read
last_read flen h = ground arith

last_write : (flen : ℕ) → 200 ≤ flen → flen % 100 ≢ 0 → last_fault flen ≡ bad_write
last_write flen h k = ground arith

once_last :
    (fbuffer : List ℕ) (i : ℕ)
    → 100 < length fbuffer
    → i + 1 ≡ once_count (length fbuffer)
    → fill_row once_framing
        (row_rounds once_framing (length fbuffer) (once_count (length fbuffer)) 0)
        0
        (drop (100 * i + 0) fbuffer)
        (replicate 200 0)
      ≡ fault (last_fault (length fbuffer))
unfolding row_rounds
once_last fbuffer i long at =
    let flen = length fbuffer in
    let rounds : flen + 1 - (once_count flen - 1) * 100 ≡ flen + 1 - 100 * i = omega arith in
    let rest = length-drop (100 * i + 0) fbuffer in
    let count = once_count_lem flen long in
    rw rounds (elim (dec_lt 200 (flen - 100 * i)) [
      | yes h ↦
          fill_row-overflows once_framing (flen + 1 - 100 * i) (drop (100 * i + 0) fbuffer) [] 200
            (omega arith) (omega arith)
          ∙ ap fault (sym (last_write flen (omega arith) (omega arith)))
      | no h ↦
          fill_row-short once_framing (flen + 1 - 100 * i) (drop (100 * i + 0) fbuffer) [] 200
            (omega arith) (omega arith)
          ∙ ap fault (sym (last_read flen (omega arith)))
    ])

-- The rows of `morse_process_once`: those before the last are filled, and the last is not.
-- A row before the last one is 200 bytes of the file, those up to 6 as silence.
pub fill_row-once :
    (fbuffer : List ℕ) (i : ℕ)
    → 100 < length fbuffer
    → i + 1 < once_count (length fbuffer)
    → fill_row once_framing 200 0 (drop (100 * i) fbuffer) (replicate 200 0)
      ≡ ok (map (λ x. if leb x 6 then 0 else x) (take 200 (drop (100 * i) fbuffer)))
fill_row-once fbuffer i long early =
    fill_row-fits once_framing 200 (drop (100 * i) fbuffer) [] 200
      (omega (arith, length-drop (100 * i) fbuffer, once_count_lem (length fbuffer) long))
      (omega arith)
    ∙ ap ok (append-nil _)

pub fill_rows-once :
    (fbuffer : List ℕ) (i left : ℕ)
    → 100 < length fbuffer
    → i + suc left ≡ once_count (length fbuffer)
    → fill_rows once_framing (length fbuffer) (once_count (length fbuffer)) fbuffer i (suc left)
      ≡ fault (last_fault (length fbuffer))
unfolding fill_rows row_rounds
fill_rows-once fbuffer i zero long at = rw (once_last fbuffer i long at) refl
fill_rows-once fbuffer i (suc left) long at =
    let row =
      fill_row-fits once_framing 200 (drop (100 * i + 0) fbuffer) [] 200
        (omega (arith, length-drop (100 * i + 0) fbuffer, once_count_lem (length fbuffer) long))
        (omega arith) in
    rw (row, fill_rows-once fbuffer (i + 1) left long (omega arith)) refl
