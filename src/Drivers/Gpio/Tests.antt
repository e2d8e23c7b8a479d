-- ===== src/Drivers/Gpio/Tests.antt =====
-- The pins at concrete registers and tables.
use losangeles_lakers.Base.{
  ℕ, zero, suc, ◌≡◌, refl, subst, List, [], ◌∷◌, none, some, replicate, ok, ◌>>=◌, load, arith,
}
use losangeles_lakers.Base.Int.{pos}
use losangeles_lakers.Drivers.Interrupt.{Interrupts, falling}
use losangeles_lakers.Drivers.Gpio.{
  LoongsonGpio, GpioIrqDef, loongson_pin_write, loongson_pin_read, loongson_pin_attach_irq,
  loongson_pin_irq_enable, gpio_irq_handler, installed_row,
}
use losangeles_lakers.Drivers.Gpio.Pins.{looped, loongson_pin_read-write}
use losangeles_lakers.Drivers.Gpio.Callbacks.{
  IsRow, IsTable, gpio_irq_handler-attached, gpio_irq_handler-enabled,
}

abbrev pins : LoongsonGpio
pins = record { gpio0_oen = 0xff; gpio0_o = 0; gpio0_i = 0; gpio0_inten = 0 }

loongson_pin_read-write_example :
    loongson_pin_read 5 (looped (loongson_pin_write (pos 5) 1 pins)) ≡ 1
loongson_pin_read-write_example = loongson_pin_read-write 5 5 1 pins (omega arith) (omega arith)

-- Callbacks and arguments as numbers.
abbrev empty_row : GpioIrqDef ℕ ℕ
empty_row = record {
  irq_arg = replicate 32 none;
  irq_cb = replicate 32 none;
  irq_type = replicate 32 none;
  state = replicate 32 0;
}

abbrev empty_table : List (GpioIrqDef ℕ ℕ)
empty_table = replicate 64 empty_row

load-replicate :
    {A : Type 0} (n : ℕ) (x : A) (i : ℕ) (y : A) → load (replicate n x) i ≡ ok y → x ≡ y
load-replicate zero x i y e = cc
load-replicate (suc n) x zero y e = cc
load-replicate (suc n) x (suc i) y e = load-replicate n x i y e

empty_table-IsTable : IsTable empty_table
empty_table-IsTable = (
  refl,
  λ i def e. subst (λ d. IsRow d) (load-replicate 64 empty_row i def e) (refl, refl, refl, refl),
)

abbrev idle : Interrupts ℕ ℕ
idle = record {
  irq_handle_table = [];
  lio0 = record { route = []; pol = 0; edge = 0; enable = 0; disable = 0 };
  lio1 = record { route = []; pol = 0; edge = 0; enable = 0; disable = 0 };
  unmasked = [];
}

gpio_irq_handler-attached_example :
    (tbl' : List (GpioIrqDef ℕ ℕ)) × (g' : LoongsonGpio) × (s' : Interrupts ℕ ℕ)
    × (loongson_pin_attach_irq 10 falling (some 7) (some 8) empty_table pins idle
        ≡ ok (tbl', g', s'))
    × (installed_row 58 ≡ some 4)
    × ((load tbl' 4 >>= gpio_irq_handler 0x40 58)
        ≡ (load empty_table 4 >>= gpio_irq_handler 0x40 58))
gpio_irq_handler-attached_example =
    gpio_irq_handler-attached 10 0x40 falling (some 7) (some 8) empty_table pins idle
      empty_table-IsTable (omega arith) (omega arith)

gpio_irq_handler-enabled_example :
    (tbl' : List (GpioIrqDef ℕ ℕ)) × (tbl'' : List (GpioIrqDef ℕ ℕ)) × (g' : LoongsonGpio)
    × (s' : Interrupts ℕ ℕ) × (loongson_pin_attach_irq 2 falling
          (some 7)
          (some 8)
          empty_table
          pins
          idle
        ≡ ok (tbl', g', s'))
    × (loongson_pin_irq_enable 2 1 tbl' ≡ ok tbl'')
    × ((load tbl'' 2 >>= gpio_irq_handler 1 62) ≡ ok ((7, some 8) ∷ []))
gpio_irq_handler-enabled_example =
    gpio_irq_handler-enabled 2 1 falling 7 (some 8) empty_table pins idle empty_table-IsTable
      (omega arith) (omega arith)
