-- ===== src/Drivers/Gpio.antt =====
-- ls2kdev_record/drivers/drv_gpio.c: the pins and their interrupts.
pub mod Pins
pub mod Callbacks
mod Tests
use losangeles_lakers.Base.{
  ℕ, zero, suc, ◌+◌, ◌/◌, ◌%◌, ◌^◌, bit_and, bit_or, List, [], ◌∷◌, ◌++◌, ◌==◌, ltb, if◌then◌else◌,
  Option, none, some, Result, ok, stuck, ◌>>=◌, load, store,
}
use losangeles_lakers.Base.Bits.{complement}
use losangeles_lakers.Base.Int.{ℤ, pos, negsuc}
use losangeles_lakers.Drivers.Interrupt.{Interrupts, Mode, liointc_set_irq_mode}

-- `struct loongson_gpio` without its reserved registers.
pub record LoongsonGpio : Type 0 where
  pub gpio0_oen : ℕ
  pub gpio0_o : ℕ
  pub gpio0_i : ℕ
  pub gpio0_inten : ℕ

-- `PIN_MODE_*`, and any other value.
pub data PinMode : Type 0 where
  output input input_pullup input_pulldown output_od other_pin_mode : PinMode

-- `x |= m` and `x &= ~m` on `rt_uint64_t`, with `m = (rt_uint64_t)1 << pin`.
abbrev pub set_pin : ℕ → ℕ → ℕ
set_pin x pin = bit_or x (2 ^ pin)

abbrev pub clear_pin : ℕ → ℕ → ℕ
clear_pin x pin = bit_and x (complement 64 (2 ^ pin))

unfoldable pub loongson_pin_mode : ℕ → PinMode → LoongsonGpio → LoongsonGpio
loongson_pin_mode pin output g = record g { gpio0_oen = clear_pin g.gpio0_oen pin }
loongson_pin_mode pin input g = record g { gpio0_oen = set_pin g.gpio0_oen pin }
loongson_pin_mode pin input_pullup g = record g { gpio0_oen = set_pin g.gpio0_oen pin }
loongson_pin_mode pin input_pulldown g = record g { gpio0_oen = set_pin g.gpio0_oen pin }
loongson_pin_mode pin output_od g = record g { gpio0_oen = clear_pin g.gpio0_oen pin }
loongson_pin_mode pin other_pin_mode g = g

unfoldable pub loongson_pin_write : ℤ → ℕ → LoongsonGpio → LoongsonGpio
loongson_pin_write (negsuc pin) value g = g
loongson_pin_write (pos pin) zero g = record g { gpio0_o = clear_pin g.gpio0_o pin }
loongson_pin_write (pos pin) (suc value) g = record g { gpio0_o = set_pin g.gpio0_o pin }

-- `!!(GPIO0_I & (1 << pin))`
unfoldable pub loongson_pin_read : ℕ → LoongsonGpio → ℕ
loongson_pin_read pin g = if bit_and g.gpio0_i (2 ^ pin) == 0 then 0 else 1

-- `struct gpio_irq_def`; `none` is the null pointer, and the type that detaching leaves.
pub record GpioIrqDef (H P : Type 0) : Type 0 where
  pub irq_arg : List (Option P)
  pub irq_cb : List (Option H)
  pub irq_type : List (Option Mode)
  pub state : List ℕ

-- The row of the table that a pin's callback is kept in.
unfoldable pub row_index : ℕ → ℕ
row_index pin = if ltb pin 4 then pin else if ltb pin 32 then 5 else 6

-- The pin that the handler begins with.
unfoldable pub first_pin : ℕ → ℕ
first_pin irq =
    if irq == 60
    then 0
    else if irq == 61
    then 1
    else if irq == 62
    then 2
    else if irq == 63
    then 3
    else if irq == 58
    then 4
    else 32

-- The callbacks and their arguments, those of the interrupt table included, are the programs'.
module _ {H P : Type 0} where
  unfoldable pub loongson_pin_attach_irq :
      {H' P' : Type 0}
      → ℕ
      → Mode
      → Option H
      → Option P
      → List (GpioIrqDef H P)
      → LoongsonGpio
      → Interrupts H' P'
      → Result (List (GpioIrqDef H P) × LoongsonGpio × Interrupts H' P')
  loongson_pin_attach_irq pin mode hdr args tbl g s = load tbl (row_index pin) >>= λ def.
      store def.irq_cb pin hdr >>= λ cbs. store def.irq_arg pin args >>= λ irq_args.
      store def.irq_type pin (some mode) >>= λ types.
      store tbl (row_index pin)
        (record { irq_arg = irq_args; irq_cb = cbs; irq_type = types; state = def.state })
      >>= λ tbl'. ok (
        tbl',
        record g { gpio0_inten = set_pin g.gpio0_inten pin },
        liointc_set_irq_mode (row_index pin) mode s,
      )

  unfoldable pub loongson_pin_detach_irq :
      ℕ → List (GpioIrqDef H P) → Result (List (GpioIrqDef H P))
  loongson_pin_detach_irq pin tbl = load tbl (row_index pin) >>= λ def.
      store def.irq_cb pin none >>= λ cbs. store def.irq_arg pin none >>= λ irq_args.
      store def.irq_type pin none >>= λ types. store def.state pin 0 >>= λ states.
      store tbl (row_index pin)
        (record { irq_arg = irq_args; irq_cb = cbs; irq_type = types; state = states })

  unfoldable pub loongson_pin_irq_enable :
      ℕ → ℕ → List (GpioIrqDef H P) → Result (List (GpioIrqDef H P))
  loongson_pin_irq_enable pin enabled tbl = load tbl (row_index pin) >>= λ def.
      store def.state pin (if enabled == 0 then 0 else 1) >>= λ states.
      store tbl (row_index pin) (record def { state = states })

  -- What a pin whose digit is set calls.
  unfoldable pub call_of : GpioIrqDef H P → ℕ → Result (List (H × Option P))
  call_of def pin = load def.irq_cb pin >>= λ cb. elim cb [
    | none ↦ ok []
    | some h ↦ load def.state pin >>= λ on.
        load def.irq_arg pin >>= λ arg. ok (if on == 0 then [] else (h, arg) ∷ [])
  ]

  -- `while (value)`; fuel for the rounds, of which a value of 32 digits has 32 at most.
  unfoldable pub pin_loop : ℕ → GpioIrqDef H P → ℕ → ℕ → Result (List (H × Option P))
  pin_loop fuel def pin zero = ok []
  pin_loop zero def pin (suc value) = stuck
  pin_loop (suc fuel) def pin (suc value) =
      (if suc value % 2 == 1 then call_of def pin else ok []) >>= λ now.
      pin_loop fuel def (pin + 1) (suc value / 2) >>= λ later. ok (now ++ later)

  -- `value` is not initialised: it is what the variable holds.
  unfoldable pub gpio_irq_handler : ℕ → ℕ → GpioIrqDef H P → Result (List (H × Option P))
  gpio_irq_handler value irq def = pin_loop 32 def (first_pin irq) value

-- The table's row that `loongson_pin_init` installs for an interrupt.
unfoldable pub installed_row : ℕ → Option ℕ
installed_row irq =
    if irq == 60
    then some 0
    else if irq == 61
    then some 1
    else if irq == 62
    then some 2
    else if irq == 63
    then some 3
    else if irq == 58
    then some 4
    else if irq == 59
    then some 5
    else none
