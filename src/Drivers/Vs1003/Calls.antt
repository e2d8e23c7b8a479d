-- ===== src/Drivers/Vs1003/Calls.antt =====
-- What the program calls of the codec's driver, and sequences of these calls.
use losangeles_lakers.Base.{ℕ, List, [], ◌∷◌}
use losangeles_lakers.Base.Io.{◌>>=◌, ◌>>◌, pure}
use losangeles_lakers.Drivers.Spi.{Io}
use losangeles_lakers.Drivers.Vs1003.{
  read_register, write_register, sdi_send_buffer, vs1003_reset, vs1003_play_mode_init,
  vs1003_record_mode_init, vs1003_set_volume,
}

pub data Start : Type 0 where
  play record_ : Start

pub data Call : Type 0 where
  reset : Call
  read : ℕ → Call
  write : ℕ → ℕ → Call
  volume : ℕ → Call
  send : List ℕ → ℕ → Call
  init : Start → Call

unfoldable pub run_start : Start → Io (Unit {0})
run_start play = vs1003_play_mode_init
run_start record_ = vs1003_record_mode_init

unfoldable pub run_call : Call → Io (Unit {0})
run_call reset = vs1003_reset
run_call (read reg) = read_register reg >>= λ _. pure tt
run_call (write reg value) = write_register reg value
run_call (volume vol) = vs1003_set_volume vol
run_call (send data' len) = sdi_send_buffer data' len
run_call (init s) = run_start s

unfoldable pub run_calls : List Call → Io (Unit {0})
run_calls [] = pure tt
run_calls (c ∷ cs) = run_call c >> run_calls cs
