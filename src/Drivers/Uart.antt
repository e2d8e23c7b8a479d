-- ===== src/Drivers/Uart.antt =====
-- The serial ports of ls2kdev_record/drivers/drv_uart.c, of which the player has the first one:
-- what is written to the registers of a port is recorded, and the values of its registers that are
-- read are given in order.
pub mod Lines
mod Tests
use losangeles_lakers.Base.{
  ℕ, ◌%◌, ◌^◌, bit_and, bit_or, Bool, true, false, not, ◌==◌, ◌||◌, if◌then◌else◌, List, [], ◌∷◌,
  Result, ok, stuck, zero, suc,
}
use losangeles_lakers.Base.Int.{ℤ, pos, negsuc}
use losangeles_lakers.Base.Io.{Action, pure, emit, reply, ◌>>◌, ◌>>=◌}
use losangeles_lakers.Base
use losangeles_lakers.Drivers.Interrupt.{
  Interrupts, rt_hw_interrupt_install, rt_hw_interrupt_mask, rt_hw_interrupt_umask,
}

-- A byte written to a register.
pub data UartWrite : Type 0 where
  uart_dat uart_ier uart_fcr uart_lcr uart_mcr uart_lsr uart_msr : ℕ → UartWrite

abbrev pub Io : Type 0 → Type 0
Io A = Action (List ℕ) UartWrite A

unfoldable pub ls2k_uart_configure : Io (Unit {0})
ls2k_uart_configure = do
  emit (uart_ier 0)
  emit (uart_fcr 0xc1)
  emit (uart_lcr 0x3)
  emit (uart_mcr 0x3)
  emit (uart_lsr 0x60)
  emit (uart_msr 0xb0)

-- `uart_is_transmit_empty` on the status of the line.
unfoldable pub is_transmit_empty : ℕ → Bool
is_transmit_empty status = not (bit_and status 0x60 == 0)

-- The wait for it.
unfoldable pub wait_empty : Io (Unit {0})
wait_empty [] = stuck
wait_empty (s ∷ rs) = if is_transmit_empty s then ok (tt, [], rs) else wait_empty rs

unfoldable pub ls2k_uart_putc : ℕ → Io ℤ
ls2k_uart_putc c = do wait_empty; emit (uart_dat (c % 2 ^ 8)); pure (pos 1)

-- `LSR_RXRDY & UART_LSR(uart_dev->base)`
unfoldable pub is_ready : ℕ → Bool
is_ready status = not (bit_and 0x1 status == 0)

unfoldable pub ls2k_uart_getc : Io ℤ
ls2k_uart_getc = do
  status ← reply
  if is_ready status then (reply >>= λ c. pure (pos c)) else pure (negsuc 0)

-- Whether the system is told of received bytes.
unfoldable pub uart_irq_handler : Io Bool
uart_irq_handler = do iir ← reply; pure (not (bit_and 0xc iir == 0) || not (bit_and 0x4 iir == 0))

-- `RT_DEVICE_CTRL_CLR_INT`, `RT_DEVICE_CTRL_SET_INT`, and any other command.
pub data UartCommand : Type 0 where
  clr_int set_int other_command : UartCommand

abbrev pub ls2k_uart_0_1_2_3_irq : ℕ
ls2k_uart_0_1_2_3_irq = 0

abbrev pub ls2k_uart_4_5_6_7_irq : ℕ
ls2k_uart_4_5_6_7_irq = 1

module _ {H P : Type 0} where
  -- `ier` is the register that enables interrupts of the port.
  unfoldable pub ls2k_uart_control : UartCommand → ℕ → ℕ → Interrupts H P → ℕ × Interrupts H P
  ls2k_uart_control clr_int irq ier s = (ier, rt_hw_interrupt_mask irq s)
  ls2k_uart_control set_int irq ier s = (bit_or ier 0x5, rt_hw_interrupt_umask irq s)
  ls2k_uart_control other_command irq ier s = (ier, s)

  -- The handler, and the two devices that it is called with.
  unfoldable pub rt_hw_uart_init : H → P → P → Interrupts H P → Result (Interrupts H P)
  rt_hw_uart_init handler serial serial4 s =
      Base.◌>>=◌ (rt_hw_interrupt_install (pos ls2k_uart_0_1_2_3_irq) handler serial s) (λ r.
        Base.◌>>=◌ (rt_hw_interrupt_install (pos ls2k_uart_4_5_6_7_irq) handler serial4 r.1)
          (λ r'. ok (r'.1)))
