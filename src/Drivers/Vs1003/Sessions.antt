-- ===== src/Drivers/Vs1003/Sessions.antt =====
-- Sequences of calls of the codec's driver, and the protocol of its two selects.
use losangeles_lakers.Drivers.Vs1003.Sci
use losangeles_lakers.Base.{
  ◌*◌, ◌%◌, some, false, ℕ, ◌*◌, ◌/◌, ◌%◌, ◌^◌, bit_and, bit_or, ◌≡◌, refl, List, [], ◌∷◌, ok,
}
use losangeles_lakers.Base.Io.{◌>>◌, emit}
use losangeles_lakers.Drivers.Gpio.{PinMode, input, output}
use losangeles_lakers.Drivers.Spi.{
  SpiEvent, rt_pin_mode, rt_pin_write, rt_thread_mdelay, Io, spi_init, spi_set_csn, spsr, sper,
  spcr, param, param2,
}
use losangeles_lakers.Drivers.Vs1003.{
  x_reset, x_dreq, x_cs, x_dcs, await_data_request, vs1003_play_mode_init, vs1003_record_mode_init,
  vs1003_set_volume,
}
use losangeles_lakers.Drivers.Vs1003.Line.{is_active, Line, watch, watch_all, Follows, Follows-then}
use losangeles_lakers.Drivers.Vs1003.Steps.{
  IsIdle, Follows-emit, Follows-await, Follows-xcs, Follows-xdcs, Follows-csn,
}
use losangeles_lakers.Drivers.Spi.{Bus}
use losangeles_lakers.Drivers.Vs1003.Calls.{
  Start, play, record_, Call, reset, read, write, volume, send, init, run_start, run_call,
  run_calls,
}
use losangeles_lakers.Drivers.Vs1003.Protocol.{
  read_register-Follows, write_register-Follows, vs1003_reset-Follows, sdi_send_buffer-Follows,
  Follows-pure,
}

-- Every line.
abbrev AnyLine : Line → Type 0
AnyLine l = Unit

pin_write-Follows :
    (P : Line → Type 0) (pin value : ℕ) → Follows P (emit (rt_pin_write pin value)) (λ _. P)
unfolding watch
pin_write-Follows P pin value = Follows-emit P (rt_pin_write pin value) (λ l. refl)

delay-Follows : (P : Line → Type 0) (ms : ℕ) → Follows P (emit (rt_thread_mdelay ms)) (λ _. P)
unfolding watch
delay-Follows P ms = Follows-emit P (rt_thread_mdelay ms) (λ l. refl)

pin_mode-Follows :
    (P : Line → Type 0) (pin : ℕ) (mode : PinMode)
    → Follows P (emit (rt_pin_mode pin mode)) (λ _. P)
unfolding watch
pin_mode-Follows P pin mode = Follows-emit P (rt_pin_mode pin mode) (λ l. refl)

spi_init-Follows :
    (P : Line → Type 0) (spre_spr copl cpha : ℕ)
    → Follows P (spi_init spre_spr copl cpha) (λ _. IsIdle)
unfolding spi_init watch spi_set_csn
spi_init-Follows P spre_spr copl cpha =
    Follows-then _ _ (Follows-emit P (spsr (bit_or 0xc0 (bit_and spre_spr 3))) (λ l. refl)) (λ _.
      Follows-then _ _ (Follows-emit P (param 0x40) (λ l. refl)) (λ _.
        Follows-then _ _ (Follows-emit P (param2 0x01) (λ l. refl)) (λ _.
          Follows-then _ _ (Follows-emit P (sper (bit_and spre_spr 12 / 2 ^ 2)) (λ l. refl)) (λ _.
            Follows-then _ _
              (Follows-emit P (spcr (bit_or (bit_or 0x50 (copl * 2 ^ 3)) (cpha * 2 ^ 2) % 2 ^ 8))
                (λ l. refl))
              (λ _. Follows-csn P)))))

await-Follows : Follows IsIdle await_data_request (λ _. IsIdle)
await-Follows = Follows-await IsIdle IsIdle (λ s r p. p)

play_mode-Follows : Follows AnyLine vs1003_play_mode_init (λ _. IsIdle)
unfolding vs1003_play_mode_init
play_mode-Follows = Follows-then _ _ (pin_mode-Follows AnyLine x_reset output) (λ _.
    Follows-then _ _ (pin_write-Follows AnyLine x_reset 0) (λ _.
      Follows-then _ _ (Follows-xcs AnyLine) (λ _. Follows-then _ _ Follows-xdcs (λ _.
        Follows-then _ _ (pin_mode-Follows IsIdle x_dreq input) (λ _.
          Follows-then _ _ (delay-Follows IsIdle 1) (λ _.
            Follows-then _ _ (spi_init-Follows IsIdle 0b1011 0 0) (λ _.
              Follows-then _ _ (pin_write-Follows IsIdle x_reset 1) (λ _.
                Follows-then _ _ (write_register-Follows Sci.vol 0xffff) (λ _.
                  Follows-then _ _ (write_register-Follows Sci.audata 10) (λ _.
                    Follows-then _ _ (delay-Follows IsIdle 100) (λ _.
                      Follows-then _ _ (write_register-Follows Sci.vol 0xfefe) (λ _.
                        Follows-then _ _ (write_register-Follows Sci.audata 44101) (λ _.
                          Follows-then _ _ (write_register-Follows Sci.vol 0x2020) (λ _.
                            Follows-then _ _
                              (write_register-Follows Sci.mode (bit_or (2 ^ 11) (2 ^ 2)))
                              (λ _. Follows-then _ _ (delay-Follows IsIdle 1) (λ _.
                                Follows-then _ _ await-Follows (λ _.
                                  Follows-then _ _ (write_register-Follows Sci.clockf 0xb800) (λ _.
                                    Follows-then _ _ (delay-Follows IsIdle 1) (λ _.
                                      Follows-then _ _ await-Follows
                                        (λ _. spi_init-Follows IsIdle 0b1000 0 0))))))))))))))))))))

record_mode-Follows : Follows AnyLine vs1003_record_mode_init (λ _. IsIdle)
unfolding vs1003_record_mode_init
record_mode-Follows = Follows-then _ _ (pin_mode-Follows AnyLine x_reset output) (λ _.
    Follows-then _ _ (pin_mode-Follows AnyLine x_dreq input) (λ _.
      Follows-then _ _ (pin_write-Follows AnyLine x_reset 0) (λ _.
        Follows-then _ _ (spi_init-Follows AnyLine 0b1000 0 0) (λ _.
          Follows-then _ _ (Follows-csn IsIdle) (λ _.
            Follows-then _ _ (pin_write-Follows IsIdle x_reset 1) (λ _.
              Follows-then _ _ (write_register-Follows Sci.bass 0) (λ _.
                Follows-then _ _ (write_register-Follows Sci.clockf 0x4430) (λ _.
                  Follows-then _ _ (delay-Follows IsIdle 10) (λ _.
                    Follows-then _ _ (write_register-Follows Sci.aictrl0 12) (λ _.
                      Follows-then _ _ (delay-Follows IsIdle 10) (λ _.
                        Follows-then _ _ (write_register-Follows Sci.aictrl1 1024) (λ _.
                          Follows-then _ _ (delay-Follows IsIdle 10) (λ _.
                            Follows-then _ _ (write_register-Follows Sci.mode 0x3804) (λ _.
                              Follows-then _ _ (delay-Follows IsIdle 10)
                                (λ _. write_register-Follows Sci.vol 0xfefe)))))))))))))))

run_start-Follows : (s : Start) → Follows AnyLine (run_start s) (λ _. IsIdle)
unfolding run_start
run_start-Follows play = play_mode-Follows
run_start-Follows record_ = record_mode-Follows

Follows-sooner :
    {A : Type 0} {P R : Line → Type 0} {Q : A → Line → Type 0} (m : Io A)
    → Follows P m Q
    → ((l : Line) → R l → P l)
    → Follows R m Q
Follows-sooner m h k = record {
  run = λ w r p. h.run w r (k (record { selects = w.soft_cs; room = r }) p);
}

run_call-Follows : (c : Call) → Follows IsIdle (run_call c) (λ _. IsIdle)
unfolding run_call vs1003_set_volume
run_call-Follows reset = vs1003_reset-Follows
run_call-Follows (read reg) =
    Follows-then _ _ (read_register-Follows reg) (λ _. Follows-pure IsIdle tt)
run_call-Follows (write reg value) = write_register-Follows reg value
run_call-Follows (volume vol) = write_register-Follows Sci.vol (bit_or (vol * 2 ^ 8 % 2 ^ 16) vol)
run_call-Follows (send data' len) = sdi_send_buffer-Follows data' len
run_call-Follows (init s) = Follows-sooner (run_start s) (run_start-Follows s) (λ l p. tt)

run_calls-Follows : (cs : List Call) → Follows IsIdle (run_calls cs) (λ _. IsIdle)
unfolding run_calls
run_calls-Follows [] = Follows-pure IsIdle tt
run_calls-Follows (c ∷ cs) = Follows-then _ _ (run_call-Follows c) (λ _. run_calls-Follows cs)

-- Whatever the bus and its replies: a start of the driver and any calls behind it that end keep to
-- the protocol of the two selects. The selects are never both active, each byte goes to one of them,
-- and no more than 32 bytes of data are sent behind a data request that was seen since the codec was
-- selected for data. At the end no select is active.
pub run_calls-protocol :
    (s : Start) (cs : List Call) (w w' : Bus) (room : ℕ) (es : List SpiEvent)
    → (run_start s >> run_calls cs) w ≡ ok (tt, es, w')
    → (room' : ℕ) × (watch_all es (some (record { selects = w.soft_cs; room = room }))
        ≡ some (record { selects = w'.soft_cs; room = room' }))
      × (is_active x_cs w'.soft_cs ≡ false)
      × (is_active x_dcs w'.soft_cs ≡ false)
run_calls-protocol s cs w w' room es e =
    let h = (Follows-then _ _ (run_start-Follows s) (λ _. run_calls-Follows cs)).run w room tt in
    let (r, f, q) = rw e at h in (r, f, q.0, q.1)
