-- ===== src/Drivers/Interrupt.antt =====
-- drivers/interrupt.c of both applications, which are the same: the two interrupt controllers, the
-- table of handlers and the dispatch.
pub mod Dispatch
pub mod Modes
use losangeles_lakers.Base.{
  ℕ, zero, suc, ◌+◌, ◌-◌, ◌*◌, ◌^◌, bit_and, bit_or, List, [], ◌∷◌, ◌==◌, ltb, leb, Bool, true,
  if◌then◌else◌, Option, none, some, replicate, Result, ok, stuck, ◌>>=◌, load, store,
}
use losangeles_lakers.Base.Bits.{complement}
use losangeles_lakers.Base.Int.{ℤ, pos, negsuc}

-- The registers of one controller: the routes, the polarities, the edges, and what was last written
-- to the enable and to the disable register.
pub record Liointc : Type 0 where
  pub route : List ℕ
  pub pol : ℕ
  pub edge : ℕ
  pub enable : ℕ
  pub disable : ℕ

abbrev pub max_intr : ℕ
max_intr = 64

-- `PIN_IRQ_MODE_*`, and any other value.
pub data Mode : Type 0 where
  rising falling high_level low_level other_mode : Mode

-- What is shifted into the polarity and into the edge register.
unfoldable pub mode_bits : Mode → ℕ × ℕ
mode_bits rising = (0, 1)
mode_bits falling = (1, 1)
mode_bits high_level = (1, 0)
mode_bits low_level = (0, 0)
mode_bits other_mode = (1, 1)

unfoldable pub set_mode_bits : ℕ → Mode → Liointc → Liointc
set_mode_bits shift mode c = record c {
  pol = bit_or c.pol ((mode_bits mode).0 * 2 ^ shift);
  edge = bit_or c.edge ((mode_bits mode).1 * 2 ^ shift);
}

-- `LIOINTC_COREx_INTy(0, y)` in all 32 routes, everything disabled, all level triggered and low.
unfoldable pub liointc_reset : ℕ → Liointc → Liointc
liointc_reset y c = record c {
  route = replicate 32 (bit_or 1 (2 ^ (y + 4)));
  disable = 0xffffffff;
  pol = 0;
  edge = 0;
}

-- `struct rt_irq_desc`, without the fields of `RT_USING_INTERRUPT_INFO`.
pub record RtIrqDesc (H P : Type 0) : Type 0 where
  pub handler : H
  pub param : P

-- The table, the two controllers and the processor lines that were unmasked.
pub record Interrupts (H P : Type 0) : Type 0 where
  pub irq_handle_table : List (RtIrqDesc H P)
  pub lio0 : Liointc
  pub lio1 : Liointc
  pub unmasked : List ℕ

-- A call of a handler: the handler, the vector and the parameter.
pub record Call (H P : Type 0) : Type 0 where
  pub irq_func : H
  pub irq : ℕ
  pub irq_param : P

-- Handlers and their parameters are the other drivers'; `unhandled` is `rt_hw_interrupt_handler`,
-- `no_param` the null pointer, and `ffs` is `__rt_ffs`.
module _ {H P : Type 0} where
  unfoldable pub liointc_set_irq_mode : ℕ → Mode → Interrupts H P → Interrupts H P
  liointc_set_irq_mode irq mode s =
      if ltb irq 32
      then record s { lio0 = set_mode_bits irq mode s.lio0 }
      else record s { lio1 = set_mode_bits (irq - 32) mode s.lio1 }

  unfoldable pub rt_hw_interrupt_init : H → P → Interrupts H P → Interrupts H P
  rt_hw_interrupt_init unhandled no_param s = record s {
    irq_handle_table = replicate max_intr (record { handler = unhandled; param = no_param });
    lio0 = liointc_reset 0 s.lio0;
    lio1 = liointc_reset 1 s.lio1;
  }

  -- `mips_unmask_cpu_irq`, behind the test of the vector.
  unfoldable pub unmask_cpu : Bool → Interrupts H P → Interrupts H P
  unmask_cpu low s = record s { unmasked = (if low then 2 else 3) ∷ s.unmasked }

  -- The old handler, and the new state.
  unfoldable pub rt_hw_interrupt_install :
      ℤ → H → P → Interrupts H P → Result (Option H × Interrupts H P)
  rt_hw_interrupt_install (negsuc v) h p s = ok (none, unmask_cpu true s)
  rt_hw_interrupt_install (pos v) h p s =
      if ltb v max_intr
      then (load s.irq_handle_table v >>= λ old.
          store s.irq_handle_table v (record { handler = h; param = p }) >>= λ table.
          ok (some old.handler, unmask_cpu (leb v 32) (record s { irq_handle_table = table })))
      else ok (none, unmask_cpu (leb v 32) s)

  module _ (ffs : ℕ → ℕ) where
    -- `while (tmp)`; fuel for the rounds, `stuck` where it runs out.
    unfoldable pub isr_loop : ℕ → List (RtIrqDesc H P) → ℕ → ℕ → ℕ → Result (List (Call H P))
    isr_loop fuel table isr irq_base zero = ok []
    isr_loop zero table isr irq_base (suc tmp) = stuck
    isr_loop (suc fuel) table isr irq_base (suc tmp) =
        let intx = ffs isr - 1 in
        load table (intx + irq_base) >>= λ desc.
        isr_loop fuel table isr irq_base (bit_and (suc tmp) (complement 32 (2 ^ intx))) >>= λ calls.
        ok (
          record { irq_func = desc.handler; irq = intx + irq_base; irq_param = desc.param } ∷ calls)

    -- `liointc_isr` and its two callers; `isr0` and `isr1` are what the status registers read, and
    -- 7 is the timer's line, whose handler is not here.
    unfoldable pub rt_do_mips_cpu_irq :
        ℕ → ℕ → ℕ → ℕ → Interrupts H P → Result (List (Call H P) × Interrupts H P)
    rt_do_mips_cpu_irq fuel ip isr0 isr1 s =
        if ip == 2
        then (isr_loop fuel s.irq_handle_table isr0 0 isr0 >>= λ calls.
            ok (calls, record s { lio0 = record s.lio0 { enable = isr0 } }))
        else if ip == 3
        then (isr_loop fuel s.irq_handle_table isr1 32 isr1 >>= λ calls.
            ok (calls, record s { lio1 = record s.lio1 { enable = isr1 } }))
        else ok ([], s)

  unfoldable pub rt_hw_interrupt_umask : ℕ → Interrupts H P → Interrupts H P
  rt_hw_interrupt_umask irq s =
      if ltb irq 32
      then record s { lio0 = record s.lio0 { enable = 2 ^ irq } }
      else if ltb irq 64
      then record s { lio1 = record s.lio1 { enable = 2 ^ (irq - 32) } }
      else s

  unfoldable pub rt_hw_interrupt_mask : ℕ → Interrupts H P → Interrupts H P
  rt_hw_interrupt_mask irq s =
      if ltb irq 32
      then record s { lio0 = record s.lio0 { disable = 2 ^ irq } }
      else if ltb irq 64
      then record s { lio1 = record s.lio1 { disable = 2 ^ (irq - 32) } }
      else s
