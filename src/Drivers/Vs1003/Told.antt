-- ===== src/Drivers/Vs1003/Told.antt =====
-- What the codec is told by a sequence of calls of its driver.
use losangeles_lakers.Base.{
  ℕ, ◌+◌, ◌*◌, ◌/◌, ◌%◌, ◌^◌, ◌<◌, bit_or, ◌≡◌, refl, List, [], ◌∷◌, ◌++◌, take, ok, arith, All,
}
use losangeles_lakers.Base.Bits.Fields.{bit_or-shifted, bit_and-low_mask}
use losangeles_lakers.Base.Io.{emit}
use losangeles_lakers.Drivers.Gpio.{PinMode, input, output}
use losangeles_lakers.Drivers.Spi.{
  SpiEvent, rt_pin_mode, rt_pin_write, rt_thread_mdelay, Bus, spi_init, spi_set_cs,
}
use losangeles_lakers.Drivers.Vs1003.{
  sdi_send_buffer, x_dreq, x_cs, x_dcs, x_reset, write_register, vs1003_reset, vs1003_set_volume,
  vs1003_play_mode_init, vs1003_record_mode_init,
}
use losangeles_lakers.Drivers.Vs1003.Sci
use losangeles_lakers.Drivers.Vs1003.Bytes.{byte_of, sent, Sends, Just, Sends-Just, Sends-weaken}
use losangeles_lakers.Drivers.Vs1003.Sent.{
  Whole, await-Sends, csn-Sends, read_register-Sends, write_register-Sends, sdi_send_buffer-Sends,
}
use losangeles_lakers.Drivers.Vs1003.Calls.{
  Start, play, record_, Call, reset, read, write, volume, send, init, run_start, run_call,
  run_calls,
}

-- A register of the codec set to a word: the command, the register, the high byte and the low one.
abbrev pub frame : ℕ × ℕ → List ℕ
frame (reg, value) = 2 ∷ reg ∷ value / 256 ∷ value % 256 ∷ []

abbrev pub frames : List (ℕ × ℕ) → List ℕ
frames [] = []
frames (s ∷ ss) = frame s ++ frames ss

-- The registers that a start sets.
abbrev pub settings : Start → List (ℕ × ℕ)
settings play =
    (11, 65535) ∷ (5, 10) ∷ (11, 65278) ∷ (5, 44101) ∷ (11, 8224) ∷ (0, 2052) ∷ (3, 47104) ∷ []
settings record_ = (2, 0) ∷ (3, 17456) ∷ (12, 12) ∷ (13, 1024) ∷ (0, 14340) ∷ (11, 65278) ∷ []

abbrev pub told : Call → List ℕ
told reset = []
told (read reg) = 3 ∷ reg ∷ 255 ∷ 255 ∷ []
told (write reg value) = frame (reg, value)
told (volume vol) = 2 ∷ 11 ∷ vol ∷ vol ∷ []
told (send data' len) = take len data'
told (init s) = frames (settings s)

abbrev pub all_told : List Call → List ℕ
all_told [] = []
all_told (c ∷ cs) = told c ++ all_told cs

-- `vol` is a `uint8_t`.
abbrev pub IsCall : Call → Type 0
IsCall (volume vol) = vol < 256
IsCall _ = Unit

write_register-frame :
    (reg value : ℕ) → Sends (write_register reg value) (Just (frame (reg, value)))
write_register-frame reg value = rw (bit_and-low_mask 8 value) at (write_register-Sends reg value)

set_volume-Sends : (vol : ℕ) → vol < 256 → Sends (vs1003_set_volume vol) (Just (told (volume vol)))
unfolding vs1003_set_volume
set_volume-Sends vol h =
    let value : bit_or (vol * 2 ^ 8 % 2 ^ 16) vol ≡ vol * 256 + vol =
      let small : vol * 2 ^ 8 % 2 ^ 16 ≡ vol * 2 ^ 8 = omega arith in
      rw (small, bit_or-shifted 8 vol vol h) refl in
    let high : (vol * 256 + vol) / 256 ≡ vol = omega arith in
    let low : (vol * 256 + vol) % 256 ≡ vol = omega arith in
    rw value (rw (high, low) at (write_register-frame 11 (vol * 256 + vol)))

-- Steps that send nothing.
delay-Sends : (ms : ℕ) → Sends (emit (rt_thread_mdelay ms)) (Just [])
unfolding byte_of
delay-Sends ms = record { run = λ w. refl }

pin_write-Sends : (pin value : ℕ) → Sends (emit (rt_pin_write pin value)) (Just [])
unfolding byte_of
pin_write-Sends pin value = record { run = λ w. refl }

pin_mode-Sends : (pin : ℕ) (mode : PinMode) → Sends (emit (rt_pin_mode pin mode)) (Just [])
unfolding byte_of
pin_mode-Sends pin mode = record { run = λ w. refl }

cs-Sends : (Sends (spi_set_cs x_cs 1) (Just [])) × (Sends (spi_set_cs x_dcs 1) (Just []))
unfolding spi_set_cs byte_of
cs-Sends = (record { run = λ w. refl }, record { run = λ w. refl })

spi_init-Sends : (spre_spr copl cpha : ℕ) → Sends (spi_init spre_spr copl cpha) (Just [])
unfolding spi_init byte_of
spi_init-Sends spre_spr copl cpha = record { run = λ w. refl }

play_mode-Sends : Sends vs1003_play_mode_init (Just (frames (settings play)))
unfolding vs1003_play_mode_init
play_mode-Sends = Sends-Just _ _ (pin_mode-Sends x_reset output) (λ _.
    Sends-Just _ _ (pin_write-Sends x_reset 0) (λ _. Sends-Just _ _ cs-Sends.0 (λ _.
      Sends-Just _ _ cs-Sends.1 (λ _. Sends-Just _ _ (pin_mode-Sends x_dreq input) (λ _.
        Sends-Just _ _ (delay-Sends 1) (λ _. Sends-Just _ _ (spi_init-Sends 0b1011 0 0) (λ _.
          Sends-Just _ _ (pin_write-Sends x_reset 1) (λ _.
            Sends-Just _ _ (write_register-frame Sci.vol 0xffff) (λ _.
              Sends-Just _ _ (write_register-frame Sci.audata 10) (λ _.
                Sends-Just _ _ (delay-Sends 100) (λ _.
                  Sends-Just _ _ (write_register-frame Sci.vol 0xfefe) (λ _.
                    Sends-Just _ _ (write_register-frame Sci.audata 44101) (λ _.
                      Sends-Just _ _ (write_register-frame Sci.vol 0x2020) (λ _.
                        Sends-Just _ _ (write_register-frame Sci.mode (bit_or (2 ^ 11) (2 ^ 2)))
                          (λ _. Sends-Just _ _ (delay-Sends 1) (λ _.
                            Sends-Just _ _ await-Sends (λ _.
                              Sends-Just _ _ (write_register-frame Sci.clockf 0xb800) (λ _.
                                Sends-Just _ _ (delay-Sends 1) (λ _.
                                  Sends-Just _ _ await-Sends
                                    (λ _. spi_init-Sends 0b1000 0 0))))))))))))))))))))

record_mode-Sends : Sends vs1003_record_mode_init (Just (frames (settings record_)))
unfolding vs1003_record_mode_init
record_mode-Sends = Sends-Just _ _ (pin_mode-Sends x_reset output) (λ _.
    Sends-Just _ _ (pin_mode-Sends x_dreq input) (λ _.
      Sends-Just _ _ (pin_write-Sends x_reset 0) (λ _.
        Sends-Just _ _ (spi_init-Sends 0b1000 0 0) (λ _. Sends-Just _ _ (csn-Sends 0xff) (λ _.
          Sends-Just _ _ (pin_write-Sends x_reset 1) (λ _.
            Sends-Just _ _ (write_register-frame Sci.bass 0) (λ _.
              Sends-Just _ _ (write_register-frame Sci.clockf 0x4430) (λ _.
                Sends-Just _ _ (delay-Sends 10) (λ _.
                  Sends-Just _ _ (write_register-frame Sci.aictrl0 12) (λ _.
                    Sends-Just _ _ (delay-Sends 10) (λ _.
                      Sends-Just _ _ (write_register-frame Sci.aictrl1 1024) (λ _.
                        Sends-Just _ _ (delay-Sends 10) (λ _.
                          Sends-Just _ _ (write_register-frame Sci.mode 0x3804) (λ _.
                            Sends-Just _ _ (delay-Sends 10)
                              (λ _. write_register-frame Sci.vol 0xfefe)))))))))))))))

reset-Sends : Sends vs1003_reset (Just [])
unfolding vs1003_reset
reset-Sends =
    Sends-Just _ _ (Sends-Just _ _ (pin_write-Sends x_reset 0) (λ _. delay-Sends 1))
      (λ _. pin_write-Sends x_reset 1)

run_start-Sends : (s : Start) → Sends (run_start s) (Just (frames (settings s)))
unfolding run_start
run_start-Sends play = play_mode-Sends
run_start-Sends record_ = record_mode-Sends

run_call-Sends : (c : Call) → IsCall c → Sends (run_call c) (Just (told c))
unfolding run_call
run_call-Sends reset h = reset-Sends
run_call-Sends (read reg) h =
    Sends-Just _ _ (read_register-Sends reg) (λ _. record { run = λ w. refl })
run_call-Sends (write reg value) h = write_register-frame reg value
run_call-Sends (volume vol) h = set_volume-Sends vol h
run_call-Sends (send data' len) h =
    Sends-weaken {R = Whole len data'} {Q = Just (take len data')} (sdi_send_buffer data' len)
      (sdi_send_buffer-Sends data' len) (λ a xs p. p.0)
run_call-Sends (init s) h = run_start-Sends s

run_calls-Sends : (cs : List Call) → All IsCall cs → Sends (run_calls cs) (Just (all_told cs))
unfolding run_calls
run_calls-Sends [] h = record { run = λ w. refl }
run_calls-Sends (c ∷ cs) h = Sends-Just _ _ (run_call-Sends c h.0) (λ _. run_calls-Sends cs h.1)

-- Whatever the bus and its replies, calls that end have sent what they are to tell the codec, in
-- order and nothing else: a register that is set its command, its number and the word with the high
-- byte first, the volume the same byte for both sides, a buffer its first `len` bytes, and a start
-- the list of the registers that it sets.
pub run_calls-told :
    (cs : List Call) (w w' : Bus) (es : List SpiEvent)
    → All IsCall cs
    → run_calls cs w ≡ ok (tt, es, w')
    → sent es ≡ all_told cs
run_calls-told cs w w' es h e = rw e at ((run_calls-Sends cs h).run w)
