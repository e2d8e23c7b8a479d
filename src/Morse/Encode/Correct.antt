-- ===== src/Morse/Encode/Correct.antt =====
-- `translate` against its meaning: what it leaves in the array, and when it writes past it.
use losangeles_lakers.Base.{
  ℕ, zero, suc, ◌+◌, ◌-◌, ◌≤◌, ◌<◌, ◌≡◌, refl, ap, ◌∙◌, sym, true, false, List, [], ◌∷◌, ◌++◌,
  Option, none, some, ◌==◌, replicate, length, take, arith, append_assoc, append-nil, Result, ok,
  fault, bad_write, ◌>>=◌, store-append, store_at_end, length-append,
}
use native.Mathlib.Decide.{dec_lt}
use losangeles_lakers.Base.Text.{codes}
use losangeles_lakers.Morse.Encode.{
  Encoder, find_case, copy_table, clear, end_line, translate_char, translate_loop, translate,
  morse_code_size, text_size,
}
use losangeles_lakers.Morse.Encode.Cases.{Case, switch}
use losangeles_lakers.Morse.Encode.Spec.{
  shown_of_case, shown, no_zero, copied_of_case, copied_of, copied, copied_of-no_zero, before_zero,
  has_zero, before_zero-split,
}

-- An encoder that has written `w` into an array with `r` cleared cells left, and shown `s`.
abbrev pub wrote : List ℕ → ℕ → List ℕ → Encoder
wrote w r s = record { morse_code = w ++ replicate r 0; j = length w; console = s }

wrote_next :
    (w : List ℕ) (r x : ℕ) (s : List ℕ)
    → record { morse_code = w ++ (x ∷ replicate r 0); j = length w + 1; console = s }
      ≡ wrote (w ++ (x ∷ [])) r s
wrote_next w r x s = rw (append_assoc, length-append) refl

copy_step :
    (x : ℕ) (memory w : List ℕ) (r : ℕ) (s : List ℕ)
    → (x == 0) ≡ false
    → copy_table (x ∷ memory) (wrote w (suc r) s) ≡ copy_table memory (wrote (w ++ (x ∷ [])) r s)
unfolding copy_table
copy_step x memory w r s h =
    rw (h, store-append w 0 (replicate r 0) x) (ap (copy_table memory) (wrote_next w r x s))

pub no_zero-head : (x : ℕ) (t : List ℕ) → no_zero (x ∷ t) ≡ true → (x == 0) ≡ false
no_zero-head x t h = ground arith

pub no_zero-tail : (x : ℕ) (t : List ℕ) → no_zero (x ∷ t) ≡ true → no_zero t ≡ true
no_zero-tail x t h = ground arith

-- A table that fits, with a zero behind it, is copied whole.
copy_table-fits :
    (t rest w : List ℕ) (r : ℕ) (s : List ℕ)
    → no_zero t ≡ true
    → length t ≤ r
    → copy_table (t ++ (0 ∷ rest)) (wrote w r s) ≡ ok (wrote (w ++ t) (r - length t) s)
copy_table-fits [] rest w r s h fits =
    unfold copy_table in rw append-nil (ap (λ k. ok (wrote w k s)) (omega arith))
copy_table-fits (x ∷ t) rest w zero s h fits = absurd (omega arith)
copy_table-fits (x ∷ t) rest w (suc r) s h fits =
    copy_step x (t ++ (0 ∷ rest)) w r s (no_zero-head x t h)
    ∙ copy_table-fits t rest (w ++ (x ∷ [])) r s (no_zero-tail x t h) (omega arith)
    ∙ rw (append_assoc w (x ∷ []) t) (ap (λ k. ok (wrote (w ++ (x ∷ t)) k s)) (omega arith))

-- A table that does not fit faults.
copy_table-overflows :
    (t rest w : List ℕ) (r : ℕ) (s : List ℕ)
    → no_zero t ≡ true
    → r < length t
    → copy_table (t ++ (0 ∷ rest)) (wrote w r s) ≡ fault bad_write
copy_table-overflows [] rest w r s h over = absurd (omega arith)
copy_table-overflows (x ∷ t) rest w zero s h over =
    unfold copy_table in rw (no_zero-head x t h, append-nil, store_at_end w x)
copy_table-overflows (x ∷ t) rest w (suc r) s h over =
    copy_step x (t ++ (0 ∷ rest)) w r s (no_zero-head x t h)
    ∙ copy_table-overflows t rest (w ++ (x ∷ [])) r s (no_zero-tail x t h) (omega arith)

-- A zero cell lies somewhere behind every table.
abbrev pub EndsTables : (ℕ → List ℕ) → Type 0
EndsTables after = (c : ℕ) → has_zero (after c) ≡ true

-- The array holds the cells copied for the characters `cs` and then zeros, `j` is their number, and
-- the console shows the dots and dashes of the same characters.
abbrev pub translated : (ℕ → List ℕ) → List ℕ → Encoder
translated after cs = record {
  morse_code = copied after cs ++ replicate (morse_code_size - length (copied after cs)) 0;
  j = length (copied after cs);
  console = (codes "对应的摩尔斯码为：" ++ shown cs) ++ codes "\n";
}

module _ (after : ℕ → List ℕ) (ends : EndsTables after) where
  translate_char-fits :
      (c : ℕ) (w : List ℕ) (r : ℕ) (s : List ℕ)
      → length (copied_of after c) ≤ r
      → translate_char after c (wrote w r s)
        ≡ ok (
            wrote
              (w ++ copied_of after c)
              (r - length (copied_of after c))
              (s ++ shown_of_case (find_case c switch)))
  unfolding translate_char copied_of
  translate_char-fits c w r s fits = go (find_case c switch) (copied_of-no_zero after c) fits
    where
      go :
          (o : Option Case)
          → no_zero (copied_of_case (after c) o) ≡ true
          → length (copied_of_case (after c) o) ≤ r
          → ◌≡◌ {A = Result Encoder}
              (elim o [
                | none ↦ ok (wrote w r s)
                | some k ↦ copy_table (k.table ++ after c) (wrote w r (s ++ k.printed))
              ])
              (ok (
                wrote
                  (w ++ copied_of_case (after c) o)
                  (r - length (copied_of_case (after c) o))
                  (s ++ shown_of_case o)))
      go none h f = rw (append-nil, append-nil) (ap (λ k. ok (wrote w k s)) (omega arith))
      go (some k) h f =
          let (rest, splits) = before_zero-split (after c) (ends c) in
          ap (λ l. copy_table l (wrote w r (s ++ k.printed)))
            (ap (λ l. k.table ++ l) splits
              ∙ sym (append_assoc k.table (before_zero (after c)) (0 ∷ rest)))
          ∙ (copy_table-fits (k.table ++ before_zero (after c)) rest w r (s ++ k.printed) h f)

  translate_char-overflows :
      (c : ℕ) (w : List ℕ) (r : ℕ) (s : List ℕ)
      → r < length (copied_of after c)
      → translate_char after c (wrote w r s) ≡ fault bad_write
  unfolding translate_char copied_of
  translate_char-overflows c w r s over = go (find_case c switch) (copied_of-no_zero after c) over
    where
      go :
          (o : Option Case)
          → no_zero (copied_of_case (after c) o) ≡ true
          → r < length (copied_of_case (after c) o)
          → ◌≡◌ {A = Result Encoder}
              (elim o [
                | none ↦ ok (wrote w r s)
                | some k ↦ copy_table (k.table ++ after c) (wrote w r (s ++ k.printed))
              ])
              (fault bad_write)
      go none h f = absurd (omega arith)
      go (some k) h f =
          let (rest, splits) = before_zero-split (after c) (ends c) in
          ap (λ l. copy_table l (wrote w r (s ++ k.printed)))
            (ap (λ l. k.table ++ l) splits
              ∙ sym (append_assoc k.table (before_zero (after c)) (0 ∷ rest)))
          ∙ (copy_table-overflows (k.table ++ before_zero (after c)) rest w r (s ++ k.printed) h f)

  translate_loop-fits :
      (n : ℕ) (a w : List ℕ) (r : ℕ) (s : List ℕ)
      → n ≤ length a
      → length (copied after (take n a)) ≤ r
      → translate_loop after n a (wrote w r s)
        ≡ ok (
            wrote
              (w ++ copied after (take n a))
              (r - length (copied after (take n a)))
              (s ++ shown (take n a)))
  unfolding translate_loop copied shown
  translate_loop-fits zero a w r s long fits =
      rw (append-nil, append-nil) (ap (λ k. ok (wrote w k s)) (omega arith))
  translate_loop-fits (suc n) [] w r s long fits = absurd (omega arith)
  translate_loop-fits (suc n) (c ∷ a) w r s long fits =
      let total = length-append (copied_of after c) (copied after (take n a)) in
      let w' = w ++ copied_of after c in
      let s' = s ++ shown_of_case (find_case c switch) in
      ap (λ m. m >>= translate_loop after n a) (translate_char-fits c w r s (omega arith))
      ∙ translate_loop-fits n a w' (r - length (copied_of after c)) s' (omega arith) (omega arith)
      ∙ rw
          (
            append_assoc w (copied_of after c) (copied after (take n a)),
            append_assoc s (shown_of_case (find_case c switch)) (shown (take n a)),
          )
          (ap
            (λ k. ok (
              wrote (w ++ (copied_of after c ++ copied after (take n a))) k
                (s ++ (shown_of_case (find_case c switch) ++ shown (take n a)))))
            (omega arith))

  translate_loop-overflows :
      (n : ℕ) (a w : List ℕ) (r : ℕ) (s : List ℕ)
      → r < length (copied after (take n a))
      → translate_loop after n a (wrote w r s) ≡ fault bad_write
  unfolding translate_loop copied
  translate_loop-overflows zero a w r s over = absurd (omega arith)
  translate_loop-overflows (suc n) [] w r s over = absurd (omega arith)
  translate_loop-overflows (suc n) (c ∷ a) w r s over =
      elim (dec_lt r (length (copied_of after c))) [
        | yes now ↦ rw (translate_char-overflows c w r s now)
        | no later ↦
            let total = length-append (copied_of after c) (copied after (take n a)) in
            ap (λ m. m >>= translate_loop after n a) (translate_char-fits c w r s (omega arith))
            ∙ translate_loop-overflows n a (w ++ copied_of after c) (r - length (copied_of after c))
                (s ++ shown_of_case (find_case c switch)) (omega arith)
      ]

  -- Where a zero cell lies somewhere behind every table, the text holds 31 bytes at least and what
  -- is copied for the first 31 fits 200 cells, `translate` returns: the array holds for each of
  -- these characters the codes of its table and the cells behind the table up to the first zero,
  -- and then zeros, `j` is the number of cells copied, and the console shows the dots and dashes of
  -- the same characters.
  pub translate-encoding :
      (a : List ℕ)
      → text_size ≤ length a
      → length (copied after (take text_size a)) ≤ morse_code_size
      → translate after a ≡ ok (translated after (take text_size a))
  unfolding translate clear
  translate-encoding a long fits =
      ap (λ m. m >>= end_line)
        (translate_loop-fits text_size a [] morse_code_size (codes "对应的摩尔斯码为：") long fits)

  -- Where a zero cell lies somewhere behind every table, and the codes of the first 31 bytes with
  -- the cells behind their tables up to the first zero do not fit 200 cells, `translate` writes
  -- past the end of `morse_code`.
  pub translate_overflow :
      (a : List ℕ)
      → morse_code_size < length (copied after (take text_size a))
      → translate after a ≡ fault bad_write
  unfolding translate clear
  translate_overflow a over =
      ap (λ m. m >>= end_line)
        (translate_loop-overflows text_size a [] morse_code_size (codes "对应的摩尔斯码为：") over)
