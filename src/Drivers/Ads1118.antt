-- ===== src/Drivers/Ads1118.antt =====
-- ls2kdev_record/applications/ads1118/ads1118.c: the converter behind the SPI controller.
pub mod Value
mod Tests
use losangeles_lakers.Base.{
  ℕ, zero, suc, ◌+◌, ◌*◌, ◌%◌, ◌^◌, bit_or, List, [], ◌∷◌, leb, ◌==◌, if◌then◌else◌, Result, ok,
  fault, stuck, load,
}
use losangeles_lakers.Base.Io.{◌>>=◌, ◌>>◌, pure, emit, lift}
use losangeles_lakers.Drivers.Spi.{
  rt_thread_mdelay, Io, spi_init, spi_set_csn, spi_write_for_response,
}

-- The fields of the configuration.
pub record Bits : Type 0 where
  pub reserved : ℕ
  pub no_operation : ℕ
  pub pull_up : ℕ
  pub sensor_mode : ℕ
  pub rate : ℕ
  pub operating_mode : ℕ
  pub pga : ℕ
  pub mux : ℕ
  pub single_start : ℕ

-- `configRegister.byte.lsb` and `configRegister.byte.msb`: the first field is the lowest.
unfoldable pub lsb : Bits → ℕ
lsb b = b.reserved + b.no_operation * 2 + b.pull_up * 2 ^ 3 + b.sensor_mode * 2 ^ 4 + b.rate * 2 ^ 5

unfoldable pub msb : Bits → ℕ
msb b = b.operating_mode + b.pga * 2 + b.mux * 2 ^ 4 + b.single_start * 2 ^ 7

abbrev pub adc_mode : ℕ
adc_mode = 0

abbrev pub default_bits : Bits
default_bits = record {
  reserved = 1;
  no_operation = 0b01;
  pull_up = 1;
  sensor_mode = adc_mode;
  rate = 0b000;
  operating_mode = 1;
  pga = 0b111;
  mux = 0b000;
  single_start = 1;
}

abbrev pub conv_time : List ℕ
conv_time = 125 ∷ 63 ∷ 32 ∷ 16 ∷ 8 ∷ 4 ∷ 3 ∷ 2 ∷ []

-- `configRegister` and `lastSensorMode`.
pub record Ads1118 : Type 0 where
  pub config_register : Bits
  pub last_sensor_mode : ℕ

unfoldable pub ads1118_begin : Ads1118 → Io Ads1118
ads1118_begin s = do
  spi_set_csn 0xff
  spi_init 0xb 0x0 0x1
  pure (record s { config_register = default_bits })

unfoldable pub ads1118_set_sampling_rate : ℕ → Ads1118 → Ads1118
ads1118_set_sampling_rate sampling_rate s = record s {
  config_register = record s.config_register { rate = sampling_rate % 2 ^ 3 };
}

unfoldable pub ads1118_set_full_scale_range : ℕ → Ads1118 → Ads1118
ads1118_set_full_scale_range fsr s = record s {
  config_register = record s.config_register { pga = fsr % 2 ^ 3 };
}

unfoldable pub ads1118_set_input_selected : ℕ → Ads1118 → Ads1118
ads1118_set_input_selected input s = record s {
  config_register = record s.config_register { mux = input % 2 ^ 3 };
}

unfoldable pub set_operating_mode : ℕ → Ads1118 → Ads1118
set_operating_mode mode s = record s {
  config_register = record s.config_register { operating_mode = mode };
}

unfoldable pub ads1118_set_continuous_mode : Ads1118 → Ads1118
ads1118_set_continuous_mode s = set_operating_mode 0 s

unfoldable pub ads1118_set_single_shot_mode : Ads1118 → Ads1118
ads1118_set_single_shot_mode s = set_operating_mode 1 s

-- The two functions for the resistor write the operating mode.
unfoldable pub ads1118_disable_pullup : Ads1118 → Ads1118
ads1118_disable_pullup s = set_operating_mode 0 s

unfoldable pub ads1118_enable_pullup : Ads1118 → Ads1118
ads1118_enable_pullup s = set_operating_mode 1 s

-- `for (...) rt_thread_mdelay(1);`
unfoldable pub delay_loop : ℕ → Io (Unit {0})
delay_loop zero = pure tt
delay_loop (suc n) = emit (rt_thread_mdelay 1) >> delay_loop n

-- One round of the loop: the bytes `dataMSB` and `dataLSB`.
unfoldable pub read_round : Bits → Io (ℕ × ℕ)
read_round b = do
  spi_set_csn 0xbf
  data_msb ← spi_write_for_response (msb b)
  data_lsb ← spi_write_for_response (lsb b)
  spi_write_for_response (msb b)
  spi_write_for_response (lsb b)
  spi_set_csn 0xff
  time ← lift (load conv_time b.rate)
  delay_loop time
  pure (data_msb, data_lsb)

-- `do { ... count++; } while (count <= 1);`, with a bound on the rounds.
unfoldable pub round_loop : ℕ → ℕ → Bits → Io (ℕ × ℕ)
round_loop zero count b = lift stuck
round_loop (suc rounds) count b = do
  bytes ← read_round b
  if leb (count + 1) 1 then round_loop rounds (count + 1) b else pure bytes

-- `count` starts with 0 or 1, so that two rounds are enough.
unfoldable pub ads1118_get_adc_value : ℕ → Ads1118 → Io (ℕ × Ads1118)
ads1118_get_adc_value inputs s =
    let known = s.last_sensor_mode == adc_mode in
    let count = if known then 1 else 0 in
    let kept =
      if known then s.config_register else record s.config_register { sensor_mode = adc_mode } in
    let b : Bits = record kept { mux = inputs % 2 ^ 3 } in
    round_loop 2 count b >>= λ (data_msb, data_lsb).
    pure (bit_or (data_msb * 2 ^ 8) data_lsb, record s { config_register = b })
