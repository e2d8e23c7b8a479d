-- ===== src/Drivers/Uart/Lines.antt =====
-- Text from one serial port to another, and the interrupts of the two ports.
use losangeles_lakers.Base.{
  ℕ, zero, suc, ◌+◌, ◌%◌, ◌^◌, ◌≡◌, refl, ◌∙◌, arith, true, false, List, [], ◌∷◌, ◌++◌, map, length,
  All, ok, load, put, store-put, length-put, load-put, load-put_other, load_ok,
}
use losangeles_lakers.Base.Int.{ℤ, pos, negsuc}
use losangeles_lakers.Base.Io.{pure, ◌>>◌, ◌>>=◌}
use losangeles_lakers.Drivers.Interrupt.{
  Interrupts, RtIrqDesc, rt_do_mips_cpu_irq, rt_hw_interrupt_install, unmask_cpu, max_intr,
}
use losangeles_lakers.Drivers.Interrupt.Dispatch.{FindsFirst, isr_loop-one}
use losangeles_lakers.Drivers.Uart.{
  UartWrite, uart_dat, Io, is_transmit_empty, wait_empty, ls2k_uart_putc, is_ready, ls2k_uart_getc,
  rt_hw_uart_init,
}

-- A character, and the statuses that are read until there is room for it.
pub record Wait : Type 0 where
  pub char : ℕ
  pub busy : List ℕ
  pub ready : ℕ

pub record IsWait (w : Wait) : Type 0 where
  pub waits : All (λ s. is_transmit_empty s ≡ false) w.busy
  pub over : is_transmit_empty w.ready ≡ true

unfoldable pub statuses : List Wait → List ℕ → List ℕ
statuses [] rest = rest
statuses (w ∷ ws) rest = w.busy ++ (w.ready ∷ statuses ws rest)

-- The calls that send a text, and those that ask for some bytes.
unfoldable pub puts : List ℕ → Io (Unit {0})
puts [] = pure tt
puts (c ∷ cs) = ls2k_uart_putc c >> puts cs

unfoldable pub gets : ℕ → Io (List ℤ)
gets zero = pure []
gets (suc k) = ls2k_uart_getc >>= λ c. gets k >>= λ cs. pure (c ∷ cs)

-- The wire: each byte that is written is read behind a status that tells of it.
unfoldable pub wire : ℕ → ℕ → List UartWrite → List ℕ
wire full idle [] = idle ∷ []
wire full idle (uart_dat b ∷ ws) = full ∷ b ∷ wire full idle ws
wire full idle (w ∷ ws) = wire full idle ws

abbrev pub bytes_of : List Wait → List UartWrite
bytes_of ws = map (λ (w : Wait). uart_dat (w.char % 2 ^ 8)) ws

wait_empty-done :
    (busy : List ℕ) (done : ℕ) (rest : List ℕ)
    → All (λ s. is_transmit_empty s ≡ false) busy
    → is_transmit_empty done ≡ true
    → wait_empty (busy ++ (done ∷ rest)) ≡ ok (tt, [], rest)
unfolding wait_empty
wait_empty-done [] done rest waits over = rw over refl
wait_empty-done (s ∷ busy) done rest waits over =
    rw waits.0 (wait_empty-done busy done rest waits.1 over)

puts-sent :
    (ws : List Wait) (rest : List ℕ)
    → All IsWait ws
    → puts (map (λ (w : Wait). w.char) ws) (statuses ws rest) ≡ ok (tt, bytes_of ws, rest)
unfolding puts statuses ls2k_uart_putc
puts-sent [] rest h = refl
puts-sent (w ∷ ws) rest (here, h) =
    rw (wait_empty-done w.busy w.ready (statuses ws rest) here.waits here.over, puts-sent ws rest h)
      refl

gets-wire :
    (full idle : ℕ) (ws : List Wait)
    → is_ready full ≡ true
    → is_ready idle ≡ false
    → gets (length ws + 1) (wire full idle (bytes_of ws))
      ≡ ok (map (λ (w : Wait). pos (w.char % 2 ^ 8)) ws ++ (negsuc 0 ∷ []), [], [])
unfolding gets wire ls2k_uart_getc
gets-wire full idle [] yes_full no_idle = rw no_idle refl
gets-wire full idle (w ∷ ws) yes_full no_idle =
    let more : length (w ∷ ws) + 1 ≡ suc (length ws + 1) = omega arith in
    rw (more, yes_full, gets-wire full idle ws yes_full no_idle) refl

-- Statuses of the line that come to tell of room before each character, whatever their number:
-- the calls of `ls2k_uart_putc` on a text write its bytes in order and nothing else, and read no
-- status behind the last of these. On a port that reads these bytes, each behind a status that
-- tells of it, as many calls of `ls2k_uart_getc` as there are bytes return them in order, and one
-- more returns -1.
pub ls2k_uart_getc-putc :
    (ws : List Wait) (rest : List ℕ) (full idle : ℕ)
    → All IsWait ws
    → is_ready full ≡ true
    → is_ready idle ≡ false
    → (sent : List UartWrite) × (puts (map (λ (w : Wait). w.char) ws) (statuses ws rest)
        ≡ ok (tt, sent, rest))
      × (gets (length ws + 1) (wire full idle sent)
          ≡ ok (map (λ (w : Wait). pos (w.char % 2 ^ 8)) ws ++ (negsuc 0 ∷ []), [], []))
ls2k_uart_getc-putc ws rest full idle h yes_full no_idle =
    (bytes_of ws, puts-sent ws rest h, gets-wire full idle ws yes_full no_idle)

module _ (ffs : ℕ → ℕ) (finds : FindsFirst ffs) where
  -- With `ffs` finding the lowest digit and a table of 64 entries, after `rt_hw_uart_init`: a
  -- status with the digit of the first ports alone makes the dispatch return with one call, of the
  -- handler with the first device, and one with the digit of the second ports alone with one call,
  -- of the handler with the second device.
  pub rt_hw_uart_init-dispatched :
      {H P : Type 0} (s : Interrupts H P) (fuel : ℕ) (h : H) (serial serial4 : P)
      → length s.irq_handle_table ≡ max_intr
      → (s' : Interrupts H P) × (first : Interrupts H P) × (second : Interrupts H P)
        × (rt_hw_uart_init h serial serial4 s ≡ ok s')
        × (rt_do_mips_cpu_irq ffs (suc fuel) 2 (2 ^ 0) (2 ^ 0) s'
            ≡ ok (record { irq_func = h; irq = 0; irq_param = serial } ∷ [], first))
        × (rt_do_mips_cpu_irq ffs (suc fuel) 2 (2 ^ 1) (2 ^ 1) s'
            ≡ ok (record { irq_func = h; irq = 1; irq_param = serial4 } ∷ [], second))
  unfolding rt_hw_uart_init rt_hw_interrupt_install rt_do_mips_cpu_irq unmask_cpu
  rt_hw_uart_init-dispatched {H = H} {P = P} s fuel h serial serial4 size =
      let t = s.irq_handle_table in
      let d : RtIrqDesc H P = record { handler = h; param = serial } in
      let d4 : RtIrqDesc H P = record { handler = h; param = serial4 } in
      let one = put t 0 d in
      let table = put one 1 d4 in
      let (old, reads) = load_ok t 0 (omega (arith, size)) in
      let size1 : length one ≡ max_intr = length-put t 0 d ∙ size in
      let (old4, reads4) = load_ok one 1 (omega (arith, size1)) in
      let loads : load table (0 + 0) ≡ ok d =
        load-put_other one 1 d4 0 (λ e. absurd (omega arith))
        ∙ load-put t 0 d (omega (arith, size)) in
      let loads4 : load table (1 + 0) ≡ ok d4 = load-put one 1 d4 (omega (arith, size1)) in
      let s' : Interrupts H P = record s {
        irq_handle_table = table;
        unmasked = 2 ∷ 2 ∷ s.unmasked;
      } in
      let runs = isr_loop-one ffs finds table fuel 0 0 d (omega arith) loads in
      let runs4 = isr_loop-one ffs finds table fuel 1 0 d4 (omega arith) loads4 in
      (
        s',
        record s' { lio0 = record s'.lio0 { enable = 2 ^ 0 } },
        record s' { lio0 = record s'.lio0 { enable = 2 ^ 1 } },
        rw
            (
              reads,
              store-put t 0 d (omega (arith, size)),
              reads4,
              store-put one 1 d4 (omega (arith, size1)),
            )
            refl,
        rw runs refl,
        rw runs4 refl,
      )
