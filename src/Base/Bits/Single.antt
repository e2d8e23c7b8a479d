-- ===== src/Base/Bits/Single.antt =====
-- One digit of a word set or cleared.
use Prim.Native.Nat.{ℕ, zero, suc, ◌/◌, ◌%◌, ◌^◌, ◌-◌, ◌≤◌, ◌<◌, bit_and, bit_or}
use mathlib.Core.Path.{◌≡◌, refl, sym, ◌∙◌}
use mathlib.Core.Bool.{false}
use native.Mathlib.Nat.{pow-suc, one-le-pow, pow-le-pow_right}
use native.Mathlib.Omega.{arith}
use native.Mathlib.Decide.{dec_lt}
use losangeles_lakers.Base.Tests.{◌==◌, if◌then◌else◌}
use losangeles_lakers.Base.Bits.{
  bit, bit-or, bit-and, bit-pow, bit-lt_two, bit-zero, complement, bit-complement,
}
use losangeles_lakers.Base.Bits.Fields.{bit-ext, bit_and-low_mask}

pub pow-lt_pow : (k w : ℕ) → k < w → 2 ^ k < 2 ^ w
pow-lt_pow k w h =
    omega (arith, pow-le-pow_right {n = 2} (omega arith) h, pow-suc 2 k, one-le-pow k 2)

-- No digit above the word.
pub bit-above : (x w i : ℕ) → x < 2 ^ w → w ≤ i → bit x i ≡ 0
unfolding bit
bit-above x zero i h k = let e : x ≡ 0 = omega arith in rw e (bit-zero i)
bit-above x (suc w) zero h k = absurd (omega arith)
bit-above x (suc w) (suc i) h k = bit-above (x / 2) w i (omega (arith, pow-suc 2 w)) (omega arith)

pub bit-set_one : (x k i : ℕ) → bit (bit_or x (2 ^ k)) i ≡ (if i == k then 1 else bit x i)
bit-set_one x k i = bit-or x (2 ^ k) i ∙ rw (bit-pow k i) (ground (arith, bit-lt_two x i))

pub bit-clear_one :
    (w x k i : ℕ)
    → x < 2 ^ w
    → k < w
    → bit (bit_and x (complement w (2 ^ k))) i ≡ (if i == k then 0 else bit x i)
bit-clear_one w x k i fits h = elim (dec_lt i w) [
  | yes low ↦
      bit-and x (complement w (2 ^ k)) i
      ∙ rw (bit-complement w (2 ^ k) i (pow-lt_pow k w h) low, bit-pow k i)
          (ground (arith, bit-lt_two x i))
  | no high ↦
      bit-and x (complement w (2 ^ k)) i ∙ rw (bit-above x w i fits (omega arith)) (ground arith)
]

-- The only digit cleared.
pub bit_and-cleared : (w k : ℕ) → k < w → bit_and (2 ^ k) (complement w (2 ^ k)) ≡ 0
bit_and-cleared w k h = bit-ext (bit_and (2 ^ k) (complement w (2 ^ k))) 0 (λ i.
    bit-clear_one w (2 ^ k) k i (pow-lt_pow k w h) h ∙ rw (bit-pow k i, bit-zero i) (ground arith))

-- Another digit below the width stays.
pub bit-keep :
    (w x k i : ℕ)
    → k < w
    → i < w
    → (i == k) ≡ false
    → bit (bit_and x (complement w (2 ^ k))) i ≡ bit x i
bit-keep w x k i h low other =
    bit-and x (complement w (2 ^ k)) i
    ∙ rw (bit-complement w (2 ^ k) i (pow-lt_pow k w h) low, bit-pow k i, other)
        (omega (arith, bit-lt_two x i))

-- A word cut to its width keeps the digits below it.
pub bit-mod : (x w i : ℕ) → i < w → bit (x % 2 ^ w) i ≡ bit x i
bit-mod x w i h =
    let ones : bit (2 ^ w - 1) i ≡ 1 =
      let whole : 2 ^ w - 1 ≡ complement w 0 = omega arith in
      rw (whole, bit-complement w 0 i (omega (arith, one-le-pow w 2)) h, bit-zero i) refl in
    rw (sym (bit_and-low_mask w x), bit-and x (2 ^ w - 1) i, ones) (omega (arith, bit-lt_two x i))

-- A digit below the width cleared, whatever stands above it.
pub bit-cleared :
    (w x k i : ℕ)
    → k < w
    → i < w
    → bit (bit_and x (complement w (2 ^ k))) i ≡ (if i == k then 0 else bit x i)
bit-cleared w x k i h low =
    bit-and x (complement w (2 ^ k)) i
    ∙ rw (bit-complement w (2 ^ k) i (pow-lt_pow k w h) low, bit-pow k i)
        (ground (arith, bit-lt_two x i))
