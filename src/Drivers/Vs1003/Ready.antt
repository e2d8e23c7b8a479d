-- ===== src/Drivers/Vs1003/Ready.antt =====
-- A sequence of calls of the codec's driver ends where the codec is ready.
use losangeles_lakers.Base.{
  ℕ, ◌+◌, ◌*◌, ◌/◌, ◌%◌, ◌^◌, ◌≤◌, bit_and, bit_or, ◌≡◌, refl, List, [], ◌∷◌, All, length, ok,
  arith,
}
use losangeles_lakers.Base.Io.{emit, pure}
use losangeles_lakers.Drivers.Gpio.{PinMode, input, output}
use losangeles_lakers.Drivers.Spi.{
  SpiEvent, softcs, spsr, sper, spcr, param, param2, rt_pin_mode, rt_pin_write, rt_thread_mdelay,
  Bus, spi_init, spi_set_cs, spi_set_csn, cs_value,
}
use losangeles_lakers.Drivers.Vs1003.{
  x_dreq, x_cs, x_dcs, x_reset, control_mode_on, data_mode_on, control_mode_off, data_mode_off,
  read_register, write_register, vs1003_reset, vs1003_set_volume, vs1003_play_mode_init,
  vs1003_record_mode_init, vs_read_command, vs_write_command, sdi_send_buffer,
}
use losangeles_lakers.Drivers.Vs1003.Sci
use losangeles_lakers.Drivers.Vs1003.Ends.{
  IsReady, Ends, Any, Ends-then, Ends-at_once, Ends-within, await-Ends, byte-Ends, send_loop-Ends,
}
use losangeles_lakers.Drivers.Vs1003.Calls.{
  play, record_, Call, reset, read, write, volume, send, init, run_start, run_call, run_calls,
}

-- The replies that a call reads at most, from a codec that is ready.
abbrev pub reads_of : Call → ℕ
reads_of reset = 0
reads_of (read reg) = 9
reads_of (write reg value) = 9
reads_of (volume vol) = 9
reads_of (send data' len) = len * 3
reads_of (init play) = 65
reads_of (init record_) = 54

abbrev pub all_reads : List Call → ℕ
all_reads [] = 0
all_reads (c ∷ cs) = reads_of c + all_reads cs

-- A buffer holds the bytes that are sent from it.
abbrev pub IsHeld : Call → Type 0
IsHeld (send data' len) = len ≤ length data'
IsHeld _ = Unit

emit-Ends : (e : SpiEvent) → Ends (emit e) 0 Any
emit-Ends e = Ends-at_once (emit e) tt (λ w. e ∷ []) (λ s. s) tt (λ w. refl)

cs-Ends : (Ends (spi_set_cs x_cs 1) 0 Any) × (Ends (spi_set_cs x_dcs 1) 0 Any)
unfolding spi_set_cs
cs-Ends = (
  Ends-at_once _ tt (λ w. softcs (cs_value w.soft_cs x_cs 1) ∷ []) (λ s. cs_value s x_cs 1) tt
      (λ w. refl),
  Ends-at_once _ tt (λ w. softcs (cs_value w.soft_cs x_dcs 1) ∷ []) (λ s. cs_value s x_dcs 1) tt
      (λ w. refl),
)

csn-Ends : (v : ℕ) → Ends (spi_set_csn v) 0 Any
unfolding spi_set_csn
csn-Ends v = Ends-at_once _ tt (λ w. softcs v ∷ []) (λ s. v) tt (λ w. refl)

on-Ends : (Ends control_mode_on 0 Any) × (Ends data_mode_on 0 Any)
unfolding control_mode_on data_mode_on spi_set_cs
on-Ends = (
  Ends-at_once _ tt
      (λ w.
        softcs (cs_value w.soft_cs x_cs 0)
        ∷ softcs (cs_value (cs_value w.soft_cs x_cs 0) x_dcs 1)
        ∷ [])
      (λ s. cs_value (cs_value s x_cs 0) x_dcs 1) tt (λ w. refl),
  Ends-at_once _ tt
      (λ w.
        softcs (cs_value w.soft_cs x_cs 1)
        ∷ softcs (cs_value (cs_value w.soft_cs x_cs 1) x_dcs 0)
        ∷ [])
      (λ s. cs_value (cs_value s x_cs 1) x_dcs 0) tt (λ w. refl),
)

delay-Ends : (ms : ℕ) → Ends (emit (rt_thread_mdelay ms)) 0 Any
delay-Ends ms = emit-Ends (rt_thread_mdelay ms)

pin_write-Ends : (pin value : ℕ) → Ends (emit (rt_pin_write pin value)) 0 Any
pin_write-Ends pin value = emit-Ends (rt_pin_write pin value)

pin_mode-Ends : (pin : ℕ) (mode : PinMode) → Ends (emit (rt_pin_mode pin mode)) 0 Any
pin_mode-Ends pin mode = emit-Ends (rt_pin_mode pin mode)

spi_init-Ends : (spre_spr copl cpha : ℕ) → Ends (spi_init spre_spr copl cpha) 0 Any
unfolding spi_init
spi_init-Ends spre_spr copl cpha =
    Ends-then _ _ (emit-Ends (spsr (bit_or 0xc0 (bit_and spre_spr 3)))) (λ _ _.
      Ends-then _ _ (emit-Ends (param 0x40)) (λ _ _. Ends-then _ _ (emit-Ends (param2 0x01)) (λ _ _.
        Ends-then _ _ (emit-Ends (sper (bit_and spre_spr 12 / 2 ^ 2))) (λ _ _.
          Ends-then _ _
            (emit-Ends (spcr (bit_or (bit_or 0x50 (copl * 2 ^ 3)) (cpha * 2 ^ 2) % 2 ^ 8)))
            (λ _ _. Ends-at_once _ tt (λ w. softcs 0xff ∷ []) (λ s. 0xff) tt (λ w. refl))))))

pure-Ends : {A : Type 0} (a : A) → Ends (pure a) 0 Any
pure-Ends a = Ends-at_once _ a (λ w. []) (λ s. s) tt (λ w. refl)

read_register-Ends : (reg : ℕ) → Ends (read_register reg) 9 Any
unfolding read_register control_mode_off
read_register-Ends reg = Ends-then _ _ await-Ends (λ _ _. Ends-then _ _ on-Ends.0 (λ _ _.
    Ends-then _ _ (byte-Ends vs_read_command) (λ _ _. Ends-then _ _ (byte-Ends reg) (λ _ _.
      Ends-then _ _ (byte-Ends 0xff) (λ _ _.
        Ends-then _ _ (byte-Ends 0xff)
          (λ _ _. Ends-then _ _ (csn-Ends 0xff) (λ _ _. pure-Ends _)))))))

write_register-Ends : (reg value : ℕ) → Ends (write_register reg value) 9 Any
unfolding write_register control_mode_off
write_register-Ends reg value = Ends-then _ _ on-Ends.0 (λ _ _.
    Ends-then _ _ (byte-Ends vs_write_command) (λ _ _. Ends-then _ _ (byte-Ends reg) (λ _ _.
      Ends-then _ _ (byte-Ends (value / 2 ^ 8)) (λ _ _.
        Ends-then _ _ (byte-Ends (bit_and value 0xff))
          (λ _ _. Ends-then _ _ await-Ends (λ _ _. csn-Ends 0xff))))))

sdi_send_buffer-Ends :
    (data' : List ℕ) (len : ℕ) → len ≤ length data' → Ends (sdi_send_buffer data' len) (len * 3) Any
unfolding sdi_send_buffer data_mode_off
sdi_send_buffer-Ends data' len h =
    Ends-within _
      (Ends-then _ _ on-Ends.1 (λ _ _.
        Ends-then _ _ (send_loop-Ends len len data' (omega arith) h) (λ _ _. csn-Ends 0xff)))
      (omega arith)

play_mode-Ends : Ends vs1003_play_mode_init 65 Any
unfolding vs1003_play_mode_init
play_mode-Ends = Ends-then _ _ (pin_mode-Ends x_reset output) (λ _ _.
    Ends-then _ _ (pin_write-Ends x_reset 0) (λ _ _. Ends-then _ _ cs-Ends.0 (λ _ _.
      Ends-then _ _ cs-Ends.1 (λ _ _. Ends-then _ _ (pin_mode-Ends x_dreq input) (λ _ _.
        Ends-then _ _ (delay-Ends 1) (λ _ _. Ends-then _ _ (spi_init-Ends 0b1011 0 0) (λ _ _.
          Ends-then _ _ (pin_write-Ends x_reset 1) (λ _ _.
            Ends-then _ _ (write_register-Ends Sci.vol 0xffff) (λ _ _.
              Ends-then _ _ (write_register-Ends Sci.audata 10) (λ _ _.
                Ends-then _ _ (delay-Ends 100) (λ _ _.
                  Ends-then _ _ (write_register-Ends Sci.vol 0xfefe) (λ _ _.
                    Ends-then _ _ (write_register-Ends Sci.audata 44101) (λ _ _.
                      Ends-then _ _ (write_register-Ends Sci.vol 0x2020) (λ _ _.
                        Ends-then _ _ (write_register-Ends Sci.mode (bit_or (2 ^ 11) (2 ^ 2)))
                          (λ _ _. Ends-then _ _ (delay-Ends 1) (λ _ _.
                            Ends-then _ _ await-Ends (λ _ _.
                              Ends-then _ _ (write_register-Ends Sci.clockf 0xb800) (λ _ _.
                                Ends-then _ _ (delay-Ends 1) (λ _ _.
                                  Ends-then _ _ await-Ends
                                    (λ _ _. spi_init-Ends 0b1000 0 0))))))))))))))))))))

record_mode-Ends : Ends vs1003_record_mode_init 54 Any
unfolding vs1003_record_mode_init
record_mode-Ends = Ends-then _ _ (pin_mode-Ends x_reset output) (λ _ _.
    Ends-then _ _ (pin_mode-Ends x_dreq input) (λ _ _.
      Ends-then _ _ (pin_write-Ends x_reset 0) (λ _ _.
        Ends-then _ _ (spi_init-Ends 0b1000 0 0) (λ _ _. Ends-then _ _ (csn-Ends 0xff) (λ _ _.
          Ends-then _ _ (pin_write-Ends x_reset 1) (λ _ _.
            Ends-then _ _ (write_register-Ends Sci.bass 0) (λ _ _.
              Ends-then _ _ (write_register-Ends Sci.clockf 0x4430) (λ _ _.
                Ends-then _ _ (delay-Ends 10) (λ _ _.
                  Ends-then _ _ (write_register-Ends Sci.aictrl0 12) (λ _ _.
                    Ends-then _ _ (delay-Ends 10) (λ _ _.
                      Ends-then _ _ (write_register-Ends Sci.aictrl1 1024) (λ _ _.
                        Ends-then _ _ (delay-Ends 10) (λ _ _.
                          Ends-then _ _ (write_register-Ends Sci.mode 0x3804) (λ _ _.
                            Ends-then _ _ (delay-Ends 10)
                              (λ _ _. write_register-Ends Sci.vol 0xfefe)))))))))))))))

reset-Ends : Ends vs1003_reset 0 Any
unfolding vs1003_reset
reset-Ends =
    Ends-then _ _ (Ends-then _ _ (pin_write-Ends x_reset 0) (λ _ _. delay-Ends 1))
      (λ _ _. pin_write-Ends x_reset 1)

run_call-Ends : (c : Call) → IsHeld c → Ends (run_call c) (reads_of c) Any
unfolding run_call run_start vs1003_set_volume
run_call-Ends reset h = reset-Ends
run_call-Ends (read reg) h = Ends-then _ _ (read_register-Ends reg) (λ _ _. pure-Ends tt)
run_call-Ends (write reg value) h = write_register-Ends reg value
run_call-Ends (volume vol) h = write_register-Ends Sci.vol (bit_or (vol * 2 ^ 8 % 2 ^ 16) vol)
run_call-Ends (send data' len) h = sdi_send_buffer-Ends data' len h
run_call-Ends (init play) h = play_mode-Ends
run_call-Ends (init record_) h = record_mode-Ends

run_calls-Ends : (cs : List Call) → All IsHeld cs → Ends (run_calls cs) (all_reads cs) Any
unfolding run_calls
run_calls-Ends [] h = pure-Ends tt
run_calls-Ends (c ∷ cs) h = Ends-then _ _ (run_call-Ends c h.0) (λ _ _. run_calls-Ends cs h.1)

-- Replies that are all ready and as many as `all_reads` counts, and buffers that hold what is sent
-- from them: every sequence of calls ends.
pub run_calls-ends :
    (cs : List Call) (w : Bus)
    → All IsHeld cs
    → All IsReady w.replies
    → all_reads cs ≤ length w.replies
    → (es : List SpiEvent) × (w' : Bus) × (run_calls cs w ≡ ok (tt, es, w'))
run_calls-ends cs w h r l =
    let (a, es, w', e, q, r', l') = (run_calls-Ends cs h).run w r l in (es, w', e)
