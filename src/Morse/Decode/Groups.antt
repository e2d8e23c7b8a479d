-- ===== src/Morse/Decode/Groups.antt =====
-- How `inverse_translate` goes through a message group by group.
use losangeles_lakers.Base.{
  ℕ, zero, suc, ◌+◌, ◌-◌, ◌≤◌, ◌<◌, ltb, ltb-true, Bool-cases, inl, inr, ◌≡◌, refl, ap, ◌∙◌, Bool,
  true, false, ◌&&◌, not, List, [], ◌∷◌, ◌++◌, ◌==◌, ◌||◌, replicate, length, arith, append_assoc,
  append-nil, ok, store-append, length-append,
}
use losangeles_lakers.Morse.Code.{zifu_kong}
use losangeles_lakers.Morse.Decode.{
  Decoder, group_start, kind, scan, emit, decode_loop, finsh, jud_size,
}
use losangeles_lakers.Morse.Decode.Match.{decode}

-- A decoder that has stored `w` and has `r` cells of `code` left; the console shows the same.
abbrev pub stored : List ℕ → ℕ → List ℕ → Decoder
stored w r s = record { code = w ++ replicate r 0x7e; j = length w; console = s ++ w }

stored_next :
    (w : List ℕ) (r x : ℕ) (s : List ℕ)
    → record {
      code = w ++ (x ∷ replicate r 0x7e);
      j = length w + 1;
      console = (s ++ w) ++ (x ∷ []);
    }
      ≡ stored (w ++ (x ∷ [])) r s
stored_next w r x s = rw (append_assoc, length-append) (rw append_assoc refl)

-- Characters that fit are stored behind those before them.
pub emit-stored :
    (xs w : List ℕ) (r : ℕ) (s : List ℕ)
    → length xs ≤ r
    → emit xs (stored w r s) ≡ ok (stored (w ++ xs) (r - length xs) s)
unfolding emit
emit-stored [] w r s fits = rw (append-nil w) (ap (λ k. ok (stored w k s)) (omega arith))
emit-stored (x ∷ xs) w zero s fits = absurd (omega arith)
emit-stored (x ∷ xs) w (suc r) s fits = rw (store-append w 0x7e (replicate r 0x7e) x) (
    ap (emit xs) (stored_next w r x s)
    ∙ emit-stored xs (w ++ (x ∷ [])) r s (omega arith)
    ∙ rw (append_assoc w (x ∷ []) xs) (ap (λ k. ok (stored (w ++ (x ∷ xs)) k s)) (omega arith)))

-- Neither a space between characters nor the end of the message.
abbrev pub is_symbol : ℕ → Bool
is_symbol x = not (x == zifu_kong || x == finsh)

abbrev pub all_symbols : List ℕ → Bool
all_symbols [] = true
all_symbols (x ∷ g) = is_symbol x && all_symbols g

-- A group of at most as many symbols as there is room is read up to what ends it.
pub scan-group :
    (g : List ℕ) (room t : ℕ) (rest : List ℕ)
    → all_symbols g ≡ true
    → length g ≤ room
    → is_symbol t ≡ false
    → scan room (g ++ (t ∷ rest)) ≡ ok (g, t ∷ rest)
unfolding scan
scan-group [] zero t rest h fits e = ground arith
scan-group [] (suc room) t rest h fits e = ground arith
scan-group (x ∷ g) zero t rest h fits e = absurd (omega arith)
scan-group (x ∷ g) (suc room) t rest h fits e = ground (arith, scan-group g room t rest)

-- One round at a group: its characters are stored, and the loop goes on at what ends the group.
pub loop-group :
    (fuel i x : ℕ) (g : List ℕ) (t : ℕ) (rest w : List ℕ) (r : ℕ) (s : List ℕ)
    → i < jud_size
    → kind x ≡ group_start
    → all_symbols g ≡ true
    → length g ≤ 7
    → is_symbol t ≡ false
    → length (decode g) ≤ r
    → decode_loop (suc fuel) i (x ∷ (g ++ (t ∷ rest))) (stored w r s)
      ≡ decode_loop fuel
          (i + 1 + length g)
          (t ∷ rest)
          (stored (w ++ decode g) (r - length (decode g)) s)
unfolding decode_loop
loop-group fuel i x g t rest w r s inside k h short e fits =
    rw (decode_loop, ltb-true i jud_size inside, k, scan-group g 7 t rest h short e)
      (rw (emit-stored (decode g) w r s fits) refl)

-- At the end of the message the loop returns.
pub loop_end :
    (fuel i : ℕ) (rest : List ℕ) (d : Decoder) → decode_loop (suc fuel) i (finsh ∷ rest) d ≡ ok d
unfolding decode_loop kind
loop_end fuel i rest d = elim (Bool-cases (ltb i jud_size)) [
  | inl inside ↦ rw (decode_loop, inside) refl
  | inr outside ↦ rw (decode_loop, outside) refl
]
