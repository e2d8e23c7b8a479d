-- ===== src/Drivers/Gpio/Pins.antt =====
-- The registers pin by pin.
use losangeles_lakers.Base.{
  ℕ, zero, suc, ◌*◌, ◌<◌, ◌≡◌, refl, ◌∙◌, ◌^◌, ◌==◌, ==_false, if◌then◌else◌, arith,
}
use native.Mathlib.Nat.{one-le-pow}
use losangeles_lakers.Base.Bits.{bit, bit-lt_two}
use losangeles_lakers.Base.Bits.Fields.{bit_and-pow}
use losangeles_lakers.Base.Bits.Single.{bit-set_one, bit-clear_one}
use losangeles_lakers.Base.Int.{pos}
use losangeles_lakers.Drivers.Gpio.{
  LoongsonGpio, PinMode, output, input, input_pullup, input_pulldown, output_od, other_pin_mode,
  loongson_pin_mode, loongson_pin_write, loongson_pin_read,
}

-- The direction that a mode asks for: 1 is input, 0 output, and an unknown mode keeps the old one.
abbrev pub direction : PinMode → ℕ → ℕ
direction output old = 0
direction output_od old = 0
direction other_pin_mode old = old
direction _ old = 1

-- For every mode of a pin below 64, and a direction register of 64 digits, the digit of the pin
-- becomes the direction that the mode asks for, and the digit of every other pin stays.
pub loongson_pin_mode-direction :
    (pin i : ℕ) (mode : PinMode) (g : LoongsonGpio)
    → pin < 64
    → g.gpio0_oen < 2 ^ 64
    → bit (loongson_pin_mode pin mode g).gpio0_oen i
      ≡ (if i == pin then direction mode (bit g.gpio0_oen i) else bit g.gpio0_oen i)
unfolding loongson_pin_mode
loongson_pin_mode-direction pin i output g h fits = bit-clear_one 64 g.gpio0_oen pin i fits h
loongson_pin_mode-direction pin i input g h fits = bit-set_one g.gpio0_oen pin i
loongson_pin_mode-direction pin i input_pullup g h fits = bit-set_one g.gpio0_oen pin i
loongson_pin_mode-direction pin i input_pulldown g h fits = bit-set_one g.gpio0_oen pin i
loongson_pin_mode-direction pin i output_od g h fits = bit-clear_one 64 g.gpio0_oen pin i fits h
loongson_pin_mode-direction pin i other_pin_mode g h fits = ground arith

digit : (b p : ℕ) → 0 < p → b < 2 → (if b * p == 0 then 0 else 1) ≡ b
digit zero p h k = let e : 0 * p ≡ 0 = omega arith in rw e refl
digit (suc zero) p h k = let e : 1 * p ≡ p = omega arith in rw e (ground arith)
digit (suc (suc b)) p h k = absurd (omega arith)

pin_read-bit : (pin : ℕ) (g : LoongsonGpio) → loongson_pin_read pin g ≡ bit g.gpio0_i pin
unfolding loongson_pin_read
pin_read-bit pin g = rw (bit_and-pow pin g.gpio0_i) (
    digit (bit g.gpio0_i pin) (2 ^ pin) (one-le-pow pin 2 (omega arith)) (bit-lt_two g.gpio0_i pin))

-- The input register showing the output register.
abbrev pub looped : LoongsonGpio → LoongsonGpio
looped g = record g { gpio0_i = g.gpio0_o }

-- A pin written and then read, where the input register shows the output register, a word of 64
-- digits: a pin below 64 reads 0 after a zero was written to it and 1 after any other value, and every other pin reads
-- what it read before.
pub loongson_pin_read-write :
    (pin i value : ℕ) (g : LoongsonGpio)
    → pin < 64
    → g.gpio0_o < 2 ^ 64
    → loongson_pin_read i (looped (loongson_pin_write (pos pin) value g))
      ≡ (if i == pin then (if value == 0 then 0 else 1) else loongson_pin_read i (looped g))
unfolding loongson_pin_write
loongson_pin_read-write pin i zero g h fits =
    pin_read-bit i (looped (loongson_pin_write (pos pin) zero g))
    ∙ bit-clear_one 64 g.gpio0_o pin i fits h
    ∙ rw (pin_read-bit i (looped g)) refl
loongson_pin_read-write pin i (suc value) g h fits =
    pin_read-bit i (looped (loongson_pin_write (pos pin) (suc value) g))
    ∙ bit-set_one g.gpio0_o pin i
    ∙ rw (pin_read-bit i (looped g), ==_false (suc value) 0 (omega arith)) refl
