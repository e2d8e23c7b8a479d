-- ===== src/Drivers/Uart/Tests.antt =====
-- A text of two characters between two ports.
use losangeles_lakers.Base.{◌≡◌, refl, ◌+◌, true, false, List, [], ◌∷◌, length, All, ok}
use losangeles_lakers.Base.Int.{pos, negsuc}
use losangeles_lakers.Drivers.Uart.{UartWrite, is_transmit_empty, is_ready}
use losangeles_lakers.Drivers.Uart.Lines.{
  Wait, IsWait, statuses, puts, gets, wire, ls2k_uart_getc-putc,
}

-- The second one waits for two statuses.
abbrev two_chars : List Wait
two_chars =
    record { char = 0x48; busy = []; ready = 0x60 }
    ∷ record { char = 0x69; busy = 0 ∷ 1 ∷ []; ready = 0x20 }
    ∷ []

two_chars-IsWait : All IsWait two_chars
unfolding is_transmit_empty
two_chars-IsWait =
    (record { waits = tt; over = refl }, (record { waits = (refl, (refl, tt)); over = refl }, tt))

full-is_ready : is_ready 0x61 ≡ true
unfolding is_ready
full-is_ready = refl

idle-is_ready : is_ready 0x60 ≡ false
unfolding is_ready
idle-is_ready = refl

ls2k_uart_getc-putc_example :
    (sent : List UartWrite) × (puts (0x48 ∷ 0x69 ∷ []) (statuses two_chars (7 ∷ []))
      ≡ ok (tt, sent, 7 ∷ []))
    × (gets (length two_chars + 1) (wire 0x61 0x60 sent)
        ≡ ok (pos 0x48 ∷ pos 0x69 ∷ negsuc 0 ∷ [], [], []))
ls2k_uart_getc-putc_example =
    ls2k_uart_getc-putc two_chars (7 ∷ []) 0x61 0x60 two_chars-IsWait full-is_ready idle-is_ready
