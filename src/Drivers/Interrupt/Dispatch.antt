-- ===== src/Drivers/Interrupt/Dispatch.antt =====
-- One pending interrupt, and several.
use losangeles_lakers.Base.{
  ℕ, zero, suc, ◌+◌, ◌-◌, ◌≤◌, ◌<◌, ◌≡◌, refl, ◌∙◌, ◌^◌, bit_and, List, [], ◌∷◌, ◌==◌, leb, ltb,
  ltb-true, ltb-false, if◌then◌else◌, some, arith, length, ok, stuck, ◌>>=◌, load, load_ok,
  store_ok, ==_cases, inl, inr, ◌⊎◌, ◌%◌, false,
}
use losangeles_lakers.Base.Bits.{bit, bit-pow, bit-zero, complement}
use losangeles_lakers.Base.Bits.Single.{pow-lt_pow, bit-above, bit-keep, bit_and-cleared}
use native.Mathlib.Decide.{dec_lt}
use native.Mathlib.Nat.{one-le-pow}
use losangeles_lakers.Base.Int.{pos}
use losangeles_lakers.Drivers.Interrupt.{
  RtIrqDesc, Interrupts, isr_loop, rt_do_mips_cpu_irq, rt_hw_interrupt_install, max_intr,
  unmask_cpu,
}

-- `__rt_ffs` on a word of 32 digits: one more than the place of the lowest digit that is set.
abbrev pub FindsFirst : (ℕ → ℕ) → Type 0
FindsFirst ffs =
    (x : ℕ)
    → 0 < x
    → x < 2 ^ 32
    → (i : ℕ) × (ffs x ≡ i + 1) × (bit x i ≡ 1) × ((j : ℕ) → j < i → bit x j ≡ 0)

pending : (x i : ℕ) → bit x i ≡ 1 → 0 < x
pending zero i one = absurd (omega (arith, bit-zero i))
pending (suc x) i one = omega arith

-- A digit that is set lies in the word.
in_word : (x i : ℕ) → x < 2 ^ 32 → bit x i ≡ 1 → i < 32
in_word x i fits one = elim (dec_lt i 32) [
  | yes h ↦ h
  | no h ↦ absurd (omega (arith, bit-above x 32 i fits (omega arith)))
]

module _ (ffs : ℕ → ℕ) (finds : FindsFirst ffs) where
  finds-pow : (k : ℕ) → 0 < 2 ^ k → k < 32 → ffs (2 ^ k) - 1 ≡ k
  finds-pow k h small =
      let (i, e, one, rest) = finds (2 ^ k) h (pow-lt_pow k 32 small) in
      let at : i ≡ k = ground (arith, bit-pow k i) in omega arith

  module _ {H P : Type 0} (table : List (RtIrqDesc H P)) where
    isr_step :
        (fuel isr base tmp : ℕ) (desc : RtIrqDesc H P)
        → 0 < tmp
        → load table (ffs isr - 1 + base) ≡ ok desc
        → isr_loop ffs (suc fuel) table isr base tmp ≡ (
            isr_loop ffs fuel table isr base (bit_and tmp (complement 32 (2 ^ (ffs isr - 1))))
            >>= λ calls. ok (
                record { irq_func = desc.handler; irq = ffs isr - 1 + base; irq_param = desc.param }
                ∷ calls))
    unfolding isr_loop
    isr_step fuel isr base zero desc h e = absurd (omega arith)
    isr_step fuel isr base (suc tmp) desc h e = rw e refl

    -- A single pending digit is handled in one round.
    pub isr_loop-one :
        (fuel k base : ℕ) (desc : RtIrqDesc H P)
        → k < 32
        → load table (k + base) ≡ ok desc
        → isr_loop ffs (suc fuel) table (2 ^ k) base (2 ^ k)
          ≡ ok (record { irq_func = desc.handler; irq = k + base; irq_param = desc.param } ∷ [])
    isr_loop-one fuel k base desc small e =
        let positive = one-le-pow k 2 (omega arith) in
        let at = finds-pow k positive small in
        let here : load table (ffs (2 ^ k) - 1 + base) ≡ ok desc = rw at e in
        isr_step fuel (2 ^ k) base (2 ^ k) desc positive here
        ∙ rw (at, bit_and-cleared 32 k small) (unfold isr_loop in refl)

    -- The lowest digit is cleared again and again, and the digit `j` stays.
    isr_loop-two :
        (fuel isr base j tmp : ℕ)
        → ffs isr - 1 < 32
        → 32 + base ≤ length table
        → j < 32
        → (j == ffs isr - 1) ≡ false
        → bit tmp j ≡ 1
        → isr_loop ffs fuel table isr base tmp ≡ stuck
    isr_loop-two zero isr base j zero low room small other one = absurd (omega (arith, bit-zero j))
    isr_loop-two zero isr base j (suc tmp) low room small other one = unfold isr_loop in refl
    isr_loop-two (suc fuel) isr base j tmp low room small other one =
        let (desc, e) = load_ok table (ffs isr - 1 + base) (omega arith) in
        let stays = bit-keep 32 tmp (ffs isr - 1) j low small other ∙ one in
        isr_step fuel isr base tmp desc (pending tmp j one) e
        ∙ rw
            (isr_loop-two fuel isr base j (bit_and tmp (complement 32 (2 ^ (ffs isr - 1)))) low room
              small other stays)
            refl

  -- With `ffs` finding the lowest digit and a table of 64 entries, where the status of a controller
  -- has two digits set, the dispatch never ends: no number of rounds is enough, for either line.
  pub rt_do_mips_cpu_irq-endless :
      {H P : Type 0} (s : Interrupts H P) (fuel ip isr i j : ℕ)
      → length s.irq_handle_table ≡ max_intr
      → (ip ≡ 2) ⊎ (ip ≡ 3)
      → isr < 2 ^ 32
      → i < j
      → bit isr i ≡ 1
      → bit isr j ≡ 1
      → rt_do_mips_cpu_irq ffs fuel ip isr isr s ≡ stuck
  unfolding rt_do_mips_cpu_irq
  rt_do_mips_cpu_irq-endless s fuel ip isr i j size line fits order one one' =
      let (f, e, low, below) = finds isr (pending isr i one) fits in
      let small = in_word isr f fits low in
      let small' = in_word isr j fits one' in
      let not_lowest : (j == ffs isr - 1) ≡ false = elim (==_cases j (ffs isr - 1)) [
        | inl here ↦ absurd (omega (arith, below i (omega arith)))
        | inr there ↦ there
      ] in
      let endless = λ (base : ℕ) (room : 32 + base ≤ length s.irq_handle_table).
        isr_loop-two s.irq_handle_table fuel isr base j isr (omega arith) room small' not_lowest
          one' in
      elim line [
        | inl l ↦ rw (l, endless 0 (omega arith)) refl
        | inr l ↦ rw (l, endless 32 (omega arith)) refl
      ]

  -- An installed handler is called: with `ffs` finding the lowest digit and a table of 64 entries,
  -- after the handler is installed for a vector below 64, a status with the vector's digit alone, on
  -- the vector's line, makes the dispatch return with one call, of this handler with the vector and
  -- its parameter, and writes the status to the enable register.
  pub rt_do_mips_cpu_irq-installed :
      {H P : Type 0} (s : Interrupts H P) (fuel v : ℕ) (h : H) (p : P)
      → length s.irq_handle_table ≡ max_intr
      → v < 64
      → (old : H) × (s' : Interrupts H P) × (s'' : Interrupts H P) × (rt_hw_interrupt_install
            (pos v)
            h
            p
            s
          ≡ ok (some old, s'))
        × (rt_do_mips_cpu_irq ffs
              (suc fuel)
              (if ltb v 32 then 2 else 3)
              (2 ^ (v % 32))
              (2 ^ (v % 32))
              s'
            ≡ ok (record { irq_func = h; irq = v; irq_param = p } ∷ [], s''))
        × ((if ltb v 32 then s''.lio0.enable else s''.lio1.enable) ≡ 2 ^ (v % 32))
  unfolding rt_do_mips_cpu_irq rt_hw_interrupt_install unmask_cpu
  rt_do_mips_cpu_irq-installed {H = H} {P = P} s fuel v h p size small =
      let desc : RtIrqDesc H P = record { handler = h; param = p } in
      let (old, reads) = load_ok s.irq_handle_table v (omega arith) in
      let (table, stores, loads, size') = store_ok s.irq_handle_table v desc (omega arith) in
      let s' : Interrupts H P = unmask_cpu (leb v 32) (record s { irq_handle_table = table }) in
      let installs = ltb-true v max_intr small in
      elim (dec_lt v 32) [
        | yes low ↦
            let whole : v % 32 ≡ v = omega arith in
            let base : v + 0 ≡ v = omega arith in
            let runs = isr_loop-one table fuel v 0 desc low (rw base loads) in
            (
              old.handler,
              s',
              record s' { lio0 = record s'.lio0 { enable = 2 ^ v } },
              rw (installs, reads, stores) refl,
              rw (ltb-true v 32 low, whole, runs, base) refl,
              rw (ltb-true v 32 low, whole) refl,
            )
        | no high ↦
            let rest : v % 32 ≡ v - 32 = omega arith in
            let base : v - 32 + 32 ≡ v = omega arith in
            let runs = isr_loop-one table fuel (v - 32) 32 desc (omega arith) (rw base loads) in
            (
              old.handler,
              s',
              record s' { lio1 = record s'.lio1 { enable = 2 ^ (v - 32) } },
              rw (installs, reads, stores) refl,
              rw (ltb-false v 32 (omega arith), rest, runs, base) refl,
              rw (ltb-false v 32 (omega arith), rest) refl,
            )
      ]
