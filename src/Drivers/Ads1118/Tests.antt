-- ===== src/Drivers/Ads1118/Tests.antt =====
-- A read of the converter with concrete answers.
use losangeles_lakers.Base.{ℕ, ◌≡◌, refl, [], ◌∷◌, ◌++◌, ◌/◌, ◌%◌, ok, arith}
use losangeles_lakers.Drivers.Spi.Transfer.{Echo, IsEcho}
use losangeles_lakers.Drivers.Ads1118.{Ads1118, default_bits, msb, ads1118_get_adc_value}
use losangeles_lakers.Drivers.Ads1118.Value.{
  Round, IsRound, round_replies, round_events, asking, ads1118_get_adc_value-rounds,
}

abbrev echo : ℕ → Echo
echo answer = record { empty = 1 ∷ []; there = 0; answer = answer }

echo-IsEcho : (answer : ℕ) → IsEcho (echo answer)
echo-IsEcho answer = record { waits = (refl, tt); over = refl }

abbrev round : ℕ → ℕ → Round
round high low = record { first = echo high; second = echo low; third = echo 0; fourth = echo 0 }

round-IsRound : (high low : ℕ) → IsRound (round high low)
round-IsRound high low = record {
  first_echo = echo-IsEcho high;
  second_echo = echo-IsEcho low;
  third_echo = echo-IsEcho 0;
  fourth_echo = echo-IsEcho 0;
}

-- As the program starts.
abbrev fresh : Ads1118
fresh = record { config_register = default_bits; last_sensor_mode = 3 }

ads1118_get_adc_value-rounds_example :
    (ads1118_get_adc_value 4 fresh (record {
      soft_cs = 0xff;
      replies = round_replies (round 1 2) ++ (round_replies (round 0x12 0x34) ++ []);
    })
      ≡ ok (
        (0x1234, record fresh { config_register = asking 4 default_bits }),
        round_events (asking 4 default_bits) 125 ++ round_events (asking 4 default_bits) 125,
        record { soft_cs = 0xff; replies = [] },
      ))
    × (msb (asking 4 default_bits) / 16 % 8 ≡ 4)
ads1118_get_adc_value-rounds_example =
    ads1118_get_adc_value-rounds 4 125 fresh (round 1 2) (round 0x12 0x34) 0xff [] refl
      (omega arith) (omega arith) refl (round-IsRound 1 2) (round-IsRound 0x12 0x34)
