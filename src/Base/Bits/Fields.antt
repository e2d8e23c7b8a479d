-- ===== src/Base/Bits/Fields.antt =====
-- Fields of a word: masks of low digits, disjoint fields under `|`, and words with equal digits.
use Prim.Native.Nat.{ℕ, zero, suc, ◌+◌, ◌-◌, ◌*◌, ◌/◌, ◌%◌, ◌^◌, ◌≤◌, ◌<◌, bit_and, bit_or}
use mathlib.Core.Path.{◌≡◌, refl, ap, ◌∙◌}
use native.Mathlib.Nat.{pow-suc, one-le-pow, div-add-mod, add-mul-mod_self_right, mod-eq_of_lt}
use native.Mathlib.Omega.{arith}
use losangeles_lakers.Base.Bits.{bit, bit-or, or_digit, and_digit}

or_zero : (n a : ℕ) → a ≤ n → bit_or a 0 ≡ a
or_zero zero a h = let e : a ≡ 0 = omega arith in rw e
or_zero (suc n) zero h = refl
or_zero (suc n) (suc a) h = omega (arith, or_digit (suc a) 0, or_zero n (suc a / 2) (omega arith))

and_zero : (n a : ℕ) → a ≤ n → bit_and a 0 ≡ 0
and_zero zero a h = let e : a ≡ 0 = omega arith in rw e
and_zero (suc n) zero h = refl
and_zero (suc n) (suc a) h =
    omega (arith, and_digit (suc a) 0, and_zero n (suc a / 2) (omega arith))

-- `q << k | r` where `r` fits in `k` digits.
pub bit_or-shifted : (k q r : ℕ) → r < 2 ^ k → bit_or (q * 2 ^ k) r ≡ q * 2 ^ k + r
bit_or-shifted zero q r fits =
    let none : r ≡ 0 = omega arith in
    let one : q * 2 ^ 0 ≡ q = omega arith in rw (none, one, or_zero q q (omega arith)) (omega arith)
bit_or-shifted (suc k) q r fits =
    let doubled = ap (λ (t : ℕ). q * t) (pow-suc 2 k) in
    let half : q * 2 ^ suc k / 2 ≡ q * 2 ^ k = omega (arith, doubled) in
    let lower = rw half at (or_digit (q * 2 ^ suc k) r) in
    omega (arith, doubled, lower, bit_or-shifted k q (r / 2) (omega (arith, pow-suc 2 k)))

mod_twice : (a k : ℕ) → a % 2 ^ suc k ≡ a / 2 % 2 ^ k * 2 + a % 2
mod_twice a k =
    let p = 2 ^ k in
    let b = a / 2 in
    let low = b % p * 2 + a % 2 in
    let whole : a ≡ low + b / p * (p * 2) = omega (arith, div-add-mod b p) in
    let small : b % p < p = omega (arith, one-le-pow k 2) in
    let fits : low < p * 2 = omega arith in
    rw (pow-suc 2 k) (
      ap (λ (t : ℕ). t % (p * 2)) whole
      ∙ add-mul-mod_self_right low (b / p) (p * 2)
      ∙ mod-eq_of_lt fits)

-- `a & ((1 << k) - 1)`
pub bit_and-low_mask : (k a : ℕ) → bit_and a (2 ^ k - 1) ≡ a % 2 ^ k
bit_and-low_mask zero a = rw (and_zero a a (omega arith)) (omega arith)
bit_and-low_mask (suc k) a =
    let half : (2 ^ suc k - 1) / 2 ≡ 2 ^ k - 1 = omega (arith, pow-suc 2 k, one-le-pow k 2) in
    let upper = rw half at (and_digit a (2 ^ suc k - 1)) in
    let split : a % 2 ^ suc k ≡ a / 2 % 2 ^ k * 2 + a % 2 = mod_twice a k in
    omega (arith, pow-suc 2 k, one-le-pow k 2, upper, split, bit_and-low_mask k (a / 2))

-- Words with the same digits are equal.
bit-ext_below : (n a b : ℕ) → a ≤ n → b ≤ n → ((i : ℕ) → bit a i ≡ bit b i) → a ≡ b
unfolding bit
bit-ext_below zero a b p q h = omega arith
bit-ext_below (suc n) a b p q h =
    omega (arith, h 0, bit-ext_below n (a / 2) (b / 2) (omega arith) (omega arith) (λ i. h (suc i)))

pub bit-ext : (a b : ℕ) → ((i : ℕ) → bit a i ≡ bit b i) → a ≡ b
bit-ext a b h = bit-ext_below (a + b) a b (omega arith) (omega arith) h

-- `a & (1 << k)` is the digit in its place.
pub bit_and-pow : (k a : ℕ) → bit_and a (2 ^ k) ≡ bit a k * 2 ^ k
unfolding bit
bit_and-pow zero a = omega (arith, and_digit a 1, and_zero (a / 2) (a / 2) (omega arith))
bit_and-pow (suc k) a =
    let half : 2 ^ suc k / 2 ≡ 2 ^ k = omega (arith, pow-suc 2 k) in
    let upper = rw half at (and_digit a (2 ^ suc k)) in
    omega (
      arith,
      pow-suc 2 k,
      upper,
      bit_and-pow k (a / 2),
      ap (λ (t : ℕ). bit (a / 2) k * t) (pow-suc 2 k),
    )

pub bit_or_comm : (a b : ℕ) → bit_or a b ≡ bit_or b a
bit_or_comm a b =
    bit-ext (bit_or a b) (bit_or b a) (λ i. rw (bit-or a b i, bit-or b a i) (omega arith))

-- A mask of digits from `k` on sees none of the lower ones.
pub bit_and-high :
    (k x m r : ℕ) → r < 2 ^ k → bit_and (x * 2 ^ k + r) (m * 2 ^ k) ≡ bit_and x m * 2 ^ k
bit_and-high zero x m r h =
    let none : x * 2 ^ 0 + r ≡ x = omega arith in
    let one : m * 2 ^ 0 ≡ m = omega arith in rw (none, one) (omega arith)
bit_and-high (suc k) x m r h =
    let whole = ap (λ (t : ℕ). x * t) (pow-suc 2 k) in
    let mask = ap (λ (t : ℕ). m * t) (pow-suc 2 k) in
    let half : (x * 2 ^ suc k + r) / 2 ≡ x * 2 ^ k + r / 2 = omega (arith, whole) in
    let mask_half : m * 2 ^ suc k / 2 ≡ m * 2 ^ k = omega (arith, mask) in
    let upper = rw (half, mask_half) at (and_digit (x * 2 ^ suc k + r) (m * 2 ^ suc k)) in
    let both = ap (λ (t : ℕ). bit_and x m * t) (pow-suc 2 k) in
    omega (arith, upper, whole, mask, both, bit_and-high k x m (r / 2) (omega (arith, pow-suc 2 k)))
