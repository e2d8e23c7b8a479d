-- ===== src/Drivers/Gpio/Callbacks.antt =====
-- The callbacks of the pins.
use losangeles_lakers.Base.{
  ℕ, zero, suc, ◌+◌, ◌<◌, ◌≤◌, ◌≡◌, refl, ap, ◌==◌, ltb-true, ltb-false, ==_false, List, [], ◌∷◌,
  Option, some, false, arith, length, ok, fault, bad_write, ◌>>=◌, load, store, load_ok, store_ok,
  store_outside,
}
use losangeles_lakers.Drivers.Interrupt.{Interrupts, Mode, liointc_set_irq_mode}
use losangeles_lakers.Drivers.Gpio.{
  LoongsonGpio, GpioIrqDef, row_index, loongson_pin_attach_irq, loongson_pin_irq_enable, call_of,
  pin_loop, gpio_irq_handler, first_pin, installed_row, set_pin,
}

load-store_other :
    {A : Type 0} (xs : List A) (i k : ℕ) (v : A)
    → i < length xs
    → (i == k) ≡ false
    → (ys : List A) × (store xs i v ≡ ok ys) × (load ys k ≡ load xs k)
load-store_other [] i k v h other = absurd (omega arith)
load-store_other (x ∷ xs) zero zero v h other = absurd (ground arith)
load-store_other (x ∷ xs) zero (suc k) v h other = (v ∷ xs, refl, refl)
load-store_other (x ∷ xs) (suc i) zero v h other =
    let (ys, stores, r, l) = store_ok xs i v (omega arith) in (x ∷ ys, rw stores refl, refl)
load-store_other (x ∷ xs) (suc i) (suc k) v h other =
    let (ys, stores, same) = load-store_other xs i k v (omega arith) (ground arith) in
    (x ∷ ys, rw stores refl, same)

first_pin-low : (pin : ℕ) → pin < 4 → first_pin (60 + pin) ≡ pin
unfolding first_pin
first_pin-low pin h = ground arith

module _ {H P : Type 0} where
  -- A row of the table with 32 cells in each of its arrays.
  abbrev pub IsRow : GpioIrqDef H P → Type 0
  IsRow def =
      (length def.irq_cb ≡ 32)
      × (length def.irq_arg ≡ 32)
      × (length def.irq_type ≡ 32)
      × (length def.state ≡ 32)

  abbrev pub IsTable : List (GpioIrqDef H P) → Type 0
  IsTable tbl =
      (length tbl ≡ 64) × ((i : ℕ) (def : GpioIrqDef H P) → load tbl i ≡ ok def → IsRow def)

  -- The rows have 32 cells, so that attaching a callback to a pin from 32 on writes past the end of
  -- the row's array.
  pub loongson_pin_attach_irq-high :
      {H' P' : Type 0} (pin : ℕ) (mode : Mode) (hdr : Option H) (args : Option P)
      (tbl : List (GpioIrqDef H P)) (g : LoongsonGpio) (s : Interrupts H' P')
      → IsTable tbl
      → 32 ≤ pin
      → loongson_pin_attach_irq pin mode hdr args tbl g s ≡ fault bad_write
  unfolding loongson_pin_attach_irq row_index
  loongson_pin_attach_irq-high pin mode hdr args tbl g s table high =
      let (def, reads) = load_ok tbl 6 (omega (arith, table.0)) in
      let (cbs, irq_args, types, states) = table.1 6 def reads in
      rw
        (
          ltb-false pin 4 (omega arith),
          ltb-false pin 32 high,
          reads,
          store_outside def.irq_cb pin hdr (omega arith),
        )
        refl

  -- A pin from 4 to 31, on a table of 64 rows of 32 cells: attaching a callback returns, but row 4,
  -- which is installed for the interrupt of these pins, makes the calls that it made before.
  pub gpio_irq_handler-attached :
      {H' P' : Type 0} (pin value : ℕ) (mode : Mode) (hdr : Option H) (args : Option P)
      (tbl : List (GpioIrqDef H P)) (g : LoongsonGpio) (s : Interrupts H' P')
      → IsTable tbl
      → 4 ≤ pin
      → pin < 32
      → (tbl' : List (GpioIrqDef H P)) × (g' : LoongsonGpio) × (s' : Interrupts H' P')
        × (loongson_pin_attach_irq pin mode hdr args tbl g s ≡ ok (tbl', g', s'))
        × (installed_row 58 ≡ some 4)
        × ((load tbl' 4 >>= gpio_irq_handler value 58) ≡ (load tbl 4 >>= gpio_irq_handler value 58))
  unfolding loongson_pin_attach_irq row_index installed_row
  gpio_irq_handler-attached pin value mode hdr args tbl g s table low high =
      let (def, reads) = load_ok tbl 5 (omega (arith, table.0)) in
      let (cb, arg, type, state) = table.1 5 def reads in
      let (cbs, w1, r1, l1) = store_ok def.irq_cb pin hdr (omega arith) in
      let (irq_args, w2, r2, l2) = store_ok def.irq_arg pin args (omega arith) in
      let (types, w3, r3, l3) = store_ok def.irq_type pin (some mode) (omega arith) in
      let new : GpioIrqDef H P = record {
        irq_arg = irq_args;
        irq_cb = cbs;
        irq_type = types;
        state = def.state;
      } in
      let (tbl', w4, same) = load-store_other tbl 5 4 new (omega (arith, table.0)) refl in
      (
        tbl',
        record g { gpio0_inten = set_pin g.gpio0_inten pin },
        liointc_set_irq_mode 5 mode s,
        rw (ltb-false pin 4 low, ltb-true pin 32 high, reads, w1, w2, w3, w4) refl,
        refl,
        ap (λ r. r >>= gpio_irq_handler value 58) same,
      )

  call_of-set :
      (def : GpioIrqDef H P) (pin : ℕ) (h : H) (a : Option P)
      → load def.irq_cb pin ≡ ok (some h)
      → load def.state pin ≡ ok 1
      → load def.irq_arg pin ≡ ok a
      → call_of def pin ≡ ok ((h, a) ∷ [])
  unfolding call_of
  call_of-set def pin h a r1 r5 r2 = rw r1 (rw r5 (rw r2 refl))

  -- A pin below 4: after a callback is attached to it and the pin is enabled, on a table of 64 rows
  -- of 32 cells, the handler of the pin's interrupt on the installed row, where its variable `value`
  -- holds 1, calls this callback with its argument, and nothing else.
  pub gpio_irq_handler-enabled :
      {H' P' : Type 0} (pin enabled : ℕ) (mode : Mode) (hdr : H) (args : Option P)
      (tbl : List (GpioIrqDef H P)) (g : LoongsonGpio) (s : Interrupts H' P')
      → IsTable tbl
      → pin < 4
      → 0 < enabled
      → (tbl' : List (GpioIrqDef H P)) × (tbl'' : List (GpioIrqDef H P)) × (g' : LoongsonGpio)
        × (s' : Interrupts H' P') × (loongson_pin_attach_irq pin mode (some hdr) args tbl g s
            ≡ ok (tbl', g', s'))
        × (loongson_pin_irq_enable pin enabled tbl' ≡ ok tbl'')
        × ((load tbl'' pin >>= gpio_irq_handler 1 (60 + pin)) ≡ ok ((hdr, args) ∷ []))
  unfolding loongson_pin_attach_irq loongson_pin_irq_enable row_index gpio_irq_handler pin_loop
  gpio_irq_handler-enabled pin enabled mode hdr args tbl g s table low on =
      let here = ltb-true pin 4 low in
      let (def, reads) = load_ok tbl pin (omega (arith, table.0)) in
      let (cb, arg, type, state) = table.1 pin def reads in
      let (cbs, w1, r1, l1) = store_ok def.irq_cb pin (some hdr) (omega arith) in
      let (irq_args, w2, r2, l2) = store_ok def.irq_arg pin args (omega arith) in
      let (types, w3, r3, l3) = store_ok def.irq_type pin (some mode) (omega arith) in
      let new : GpioIrqDef H P = record {
        irq_arg = irq_args;
        irq_cb = cbs;
        irq_type = types;
        state = def.state;
      } in
      let (tbl', w4, r4, l4) = store_ok tbl pin new (omega (arith, table.0)) in
      let (states, w5, r5, l5) = store_ok def.state pin 1 (omega arith) in
      let newer : GpioIrqDef H P = record {
        irq_arg = irq_args;
        irq_cb = cbs;
        irq_type = types;
        state = states;
      } in
      let (tbl'', w6, r6, l6) = store_ok tbl' pin newer (omega (arith, table.0)) in
      (
        tbl',
        tbl'',
        record g { gpio0_inten = set_pin g.gpio0_inten pin },
        liointc_set_irq_mode pin mode s,
        rw (here, reads, w1, w2, w3, w4) refl,
        rw (here, r4, ==_false enabled 0 (omega arith), w5, w6) refl,
        rw (r6, first_pin-low pin low, call_of-set newer pin hdr args r1 r5 r2) refl,
      )
