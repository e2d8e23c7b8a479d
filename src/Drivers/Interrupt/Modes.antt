-- ===== src/Drivers/Interrupt/Modes.antt =====
-- The trigger mode of an interrupt.
use losangeles_lakers.Base.{
  ℕ, zero, suc, ◌-◌, ◌*◌, ◌<◌, ◌≡◌, refl, ◌∙◌, ◌^◌, ◌%◌, ◌==◌, ltb, ltb-true, ltb-false,
  if◌then◌else◌, bit_or, max, arith,
}
use native.Mathlib.Decide.{dec_lt}
use losangeles_lakers.Base.Bits.{bit, bit-or, bit-pow, bit-zero}
use losangeles_lakers.Drivers.Interrupt.{
  Interrupts, Liointc, Mode, mode_bits, rising, falling, high_level, low_level, other_mode,
  set_mode_bits, liointc_set_irq_mode,
}

-- The controller of an interrupt.
abbrev pub lio_of : {H P : Type 0} → ℕ → Interrupts H P → Liointc
lio_of irq s = if ltb irq 32 then s.lio0 else s.lio1

abbrev pub other_lio : {H P : Type 0} → ℕ → Interrupts H P → Liointc
other_lio irq s = if ltb irq 32 then s.lio1 else s.lio0

-- The digit `k` turned on where `on` is 1, and every digit kept otherwise.
abbrev pub turned_on : ℕ → ℕ → ℕ → ℕ → ℕ
turned_on on k i old = if i == k then max old on else old

bit-turned_on : (x on k i : ℕ) → on < 2 → bit (bit_or x (on * 2 ^ k)) i ≡ turned_on on k i (bit x i)
bit-turned_on x zero k i h =
    let none : 0 * 2 ^ k ≡ 0 = omega arith in
    bit-or x (0 * 2 ^ k) i ∙ rw (none, bit-zero i) (ground arith)
bit-turned_on x (suc zero) k i h =
    let one : 1 * 2 ^ k ≡ 2 ^ k = omega arith in
    bit-or x (1 * 2 ^ k) i ∙ rw (one, bit-pow k i) (ground arith)
bit-turned_on x (suc (suc on)) k i h = absurd (omega arith)

-- What a mode asks of the polarity and of the edge register: a falling edge and a high level turn
-- the polarity on, both edges are edges, and a mode that is none of the four turns both on.
abbrev pub inverts : Mode → ℕ
inverts rising = 0
inverts falling = 1
inverts high_level = 1
inverts low_level = 0
inverts other_mode = 1

abbrev pub at_edge : Mode → ℕ
at_edge rising = 1
at_edge falling = 1
at_edge high_level = 0
at_edge low_level = 0
at_edge other_mode = 1

mode_bits_lem : (mode : Mode) → mode_bits mode ≡ (inverts mode, at_edge mode)
unfolding mode_bits
mode_bits_lem rising = refl
mode_bits_lem falling = refl
mode_bits_lem high_level = refl
mode_bits_lem low_level = refl
mode_bits_lem other_mode = refl

mode-digits : (mode : Mode) → (inverts mode < 2) × (at_edge mode < 2)
mode-digits rising = omega arith
mode-digits falling = omega arith
mode-digits high_level = omega arith
mode-digits low_level = omega arith
mode-digits other_mode = omega arith

-- The two registers of `c'` are those of `c` with the digit `k` turned on as the mode asks, and
-- nothing else differs.
abbrev pub TurnedOn : Mode → ℕ → Liointc → Liointc → Type 0
TurnedOn mode k c c' =
    ((i : ℕ) → bit c'.pol i ≡ turned_on (inverts mode) k i (bit c.pol i))
    × ((i : ℕ) → bit c'.edge i ≡ turned_on (at_edge mode) k i (bit c.edge i))
    × (record c' { pol = c.pol; edge = c.edge } ≡ c)

set_mode_bits-TurnedOn :
    (k : ℕ) (mode : Mode) (c : Liointc) → TurnedOn mode k c (set_mode_bits k mode c)
unfolding set_mode_bits
set_mode_bits-TurnedOn k mode c =
    let (p, e) = mode-digits mode in
    (
      λ i. rw (mode_bits_lem mode) (bit-turned_on c.pol (inverts mode) k i p),
      λ i. rw (mode_bits_lem mode) (bit-turned_on c.edge (at_edge mode) k i e),
      refl,
    )

-- Setting the mode of an interrupt below 64 turns on, in the registers of its controller, the digit
-- of the interrupt as the mode asks: that of the polarity for a falling edge, a high level and an
-- unknown mode, that of the edge for both edges and an unknown mode. Every other digit, the other
-- registers, the other controller and the table are as before; a digit that an earlier mode set
-- stays set whatever the mode.
pub liointc_set_irq_mode-TurnedOn :
    {H P : Type 0} (s : Interrupts H P) (irq : ℕ) (mode : Mode)
    → irq < 64
    → TurnedOn mode (irq % 32) (lio_of irq s) (lio_of irq (liointc_set_irq_mode irq mode s))
      × (other_lio irq (liointc_set_irq_mode irq mode s) ≡ other_lio irq s)
      × (record (liointc_set_irq_mode irq mode s) { lio0 = s.lio0; lio1 = s.lio1 } ≡ s)
unfolding liointc_set_irq_mode
liointc_set_irq_mode-TurnedOn s irq mode small = elim (dec_lt irq 32) [
  | yes low ↦
      let whole : irq % 32 ≡ irq = omega arith in
      rw (ltb-true irq 32 low, whole) (set_mode_bits-TurnedOn irq mode s.lio0, refl, refl)
  | no high ↦
      let rest : irq % 32 ≡ irq - 32 = omega arith in
      let off = ltb-false irq 32 (omega arith) in
      rw (off, rest) (set_mode_bits-TurnedOn (irq - 32) mode s.lio1, refl, refl)
]
