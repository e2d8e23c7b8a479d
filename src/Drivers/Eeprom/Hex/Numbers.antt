-- ===== src/Drivers/Eeprom/Hex/Numbers.antt =====
-- What `gethex` reads.
use losangeles_lakers.Base.{
  ℕ, zero, suc, ◌+◌, ◌-◌, ◌*◌, ◌%◌, ◌^◌, ◌<◌, ◌≤◌, ◌≡◌, refl, ap, ◌∙◌, bit_or, List, [], ◌∷◌,
  Option, none, some, ◌/◌, ltb, if◌then◌else◌, ==_cases, inl, inr, length, take, arith, Result, ok,
}
use losangeles_lakers.Base.Bits.Fields.{bit_or-shifted}
use losangeles_lakers.Drivers.Eeprom.Hex.{digit_of, hex_loop, gethex}

-- The digits of a text, where every character of it is one.
abbrev pub cons_digit : Option ℕ → Option (List ℕ) → Option (List ℕ)
cons_digit (some d) (some ds) = some (d ∷ ds)
cons_digit _ _ = none

abbrev pub digits_of : List ℕ → Option (List ℕ)
digits_of [] = some []
digits_of (c ∷ cs) = cons_digit (digit_of c) (digits_of cs)

-- The number that digits stand for, behind those of `high`.
abbrev pub number : ℕ → List ℕ → ℕ
number high [] = high
number high (d ∷ ds) = number (high * 16 + d) ds

abbrev pub number_from : ℕ → Option (List ℕ) → Option ℕ
number_from high none = none
number_from high (some ds) = some (number high ds % 2 ^ 64)

digit_of-lt : (c d : ℕ) → digit_of c ≡ some d → d < 16
unfolding digit_of
digit_of-lt c d h = ground arith

digit_of-zero : digit_of 0 ≡ none
unfolding digit_of
digit_of-zero = refl

shift-digit :
    (high d : ℕ) → d < 16 → bit_or (high % 2 ^ 64 * 2 ^ 4 % 2 ^ 64) d ≡ (high * 16 + d) % 2 ^ 64
shift-digit high d h =
    let cut : high % 2 ^ 64 * 2 ^ 4 % 2 ^ 64 ≡ high % 2 ^ 60 * 2 ^ 4 = omega arith in
    rw (cut, bit_or-shifted 4 (high % 2 ^ 60) d h) (omega arith)

number_from-digit :
    (high d : ℕ) (o : Option (List ℕ))
    → number_from (high * 16 + d) o ≡ number_from high (cons_digit (some d) o)
number_from-digit high d none = refl
number_from-digit high d (some ds) = refl

-- One character that is no zero byte, from what is known of those behind it.
hex_loop-digit :
    (n c : ℕ) (p : List ℕ) (high : ℕ) (o : Option ℕ)
    → digit_of c ≡ o
    → ((h : ℕ) → hex_loop n p (h % 2 ^ 64) ≡ ok (number_from h (digits_of (take n p))))
    → ◌≡◌ {A = Result (Option ℕ)}
        (elim o [
          | none ↦ ok none
          | some digit ↦ hex_loop n p (bit_or (high % 2 ^ 64 * 2 ^ 4 % 2 ^ 64) digit)
        ])
        (ok (number_from high (cons_digit o (digits_of (take n p)))))
hex_loop-digit n c p high none e later = refl
hex_loop-digit n c p high (some d) e later =
    ap (hex_loop n p) (shift-digit high d (digit_of-lt c d e))
    ∙ later (high * 16 + d)
    ∙ ap ok (number_from-digit high d (digits_of (take n p)))

hex_loop-number :
    (n : ℕ) (p : List ℕ) (high : ℕ)
    → n ≤ length p
    → hex_loop n p (high % 2 ^ 64) ≡ ok (number_from high (digits_of (take n p)))
unfolding hex_loop
hex_loop-number zero p high h = refl
hex_loop-number (suc n) [] high h = absurd (omega arith)
hex_loop-number (suc n) (c ∷ p) high h = elim (==_cases c 0) [
  | inl e ↦ rw (e, digit_of-zero) refl
  | inr not_end ↦
      rw not_end
        (hex_loop-digit n c p high (digit_of c) refl (λ h'. hex_loop-number n p h' (omega arith)))
]

-- What `gethex` returns and stores: the number that the characters stand for, to 32 digits, where
-- each of them is a hexadecimal digit, and otherwise 0, and what was there before.
abbrev pub read_number : ℕ → Option (List ℕ) → ℕ × ℕ
read_number old none = (0, old)
read_number old (some ds) = (1, number 0 ds % 2 ^ 32)

-- On any text of `n` characters at least, and whatever they are, `gethex` agrees with its
-- description: the number of the first `n` characters to 32 digits and 1, where all of them are
-- hexadecimal digits, and otherwise 0 and the old value.
pub gethex-read_number :
    (old n : ℕ) (p : List ℕ)
    → n ≤ length p
    → gethex old p n ≡ ok (read_number old (digits_of (take n p)))
unfolding gethex
gethex-read_number old n p h = rw (hex_loop-number n p 0 h) (go (digits_of (take n p)))
  where
    go :
        (o : Option (List ℕ))
        → ◌≡◌ {A = Result (ℕ × ℕ)}
            (elim (number_from 0 o) [ none ↦ ok (0, old) | some v ↦ ok (1, v % 2 ^ 32) ])
            (ok (read_number old o))
    go none = refl
    go (some ds) = ap (λ k. ok (1, k)) (omega arith)

-- The text of a byte, with small letters.
abbrev pub letter : ℕ → ℕ
letter d = if ltb d 10 then b'0' + d else b'a' + (d - 10)

digit_of-letter : (d : ℕ) → d < 16 → digit_of (letter d) ≡ some d
unfolding digit_of
digit_of-letter d h = ground arith

-- The two digits of a byte, read back.
pub gethex-byte :
    (old b : ℕ) (rest : List ℕ)
    → b < 256
    → gethex old (letter (b / 16) ∷ letter (b % 16) ∷ rest) 2 ≡ ok (1, b)
gethex-byte old b rest h =
    gethex-read_number old 2 (letter (b / 16) ∷ letter (b % 16) ∷ rest) (omega arith)
    ∙ rw (digit_of-letter (b / 16) (omega arith), digit_of-letter (b % 16) (omega arith))
        (ap (λ k. ok (1, k)) (omega arith))
