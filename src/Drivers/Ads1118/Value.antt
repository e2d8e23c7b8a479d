-- ===== src/Drivers/Ads1118/Value.antt =====
-- A value of the converter.
use losangeles_lakers.Base.{
  ℕ, zero, suc, ◌+◌, ◌*◌, ◌/◌, ◌%◌, ◌<◌, ◌≡◌, refl, false, ◌==◌, List, ◌∷◌, ◌++◌, append-nil,
  append_assoc, replicate, load, ok, arith,
}
use losangeles_lakers.Base.Bits.Fields.{bit_or-shifted}
use losangeles_lakers.Drivers.Spi.{SpiEvent, softcs, txfifo, rt_thread_mdelay, Bus, spi_set_csn}
use losangeles_lakers.Drivers.Spi.Transfer.{Echo, IsEcho, echo_replies, spi_write_for_response-echo}
use losangeles_lakers.Drivers.Ads1118.{
  Bits, lsb, msb, conv_time, adc_mode, Ads1118, delay_loop, read_round, round_loop,
  ads1118_get_adc_value,
}

-- What the converter answers in a round: the two bytes of the value, and two more.
pub record Round : Type 0 where
  pub first : Echo
  pub second : Echo
  pub third : Echo
  pub fourth : Echo

pub record IsRound (t : Round) : Type 0 where
  pub first_echo : IsEcho t.first
  pub second_echo : IsEcho t.second
  pub third_echo : IsEcho t.third
  pub fourth_echo : IsEcho t.fourth

abbrev pub round_replies : Round → List ℕ
round_replies t =
    echo_replies t.first
    ++ (echo_replies t.second ++ (echo_replies t.third ++ echo_replies t.fourth))

-- The configuration sent twice between the selects, and the time of a conversion.
abbrev pub round_events : Bits → ℕ → List SpiEvent
round_events b time =
    softcs 0xbf
    ∷ txfifo (msb b)
    ∷ txfifo (lsb b)
    ∷ txfifo (msb b)
    ∷ txfifo (lsb b)
    ∷ softcs 0xff
    ∷ replicate time (rt_thread_mdelay 1)

delay_loop-delays :
    (n : ℕ) (w : Bus) → delay_loop n w ≡ ok (tt, replicate n (rt_thread_mdelay 1), w)
unfolding delay_loop
delay_loop-delays zero w = refl
delay_loop-delays (suc n) w = rw (delay_loop-delays n w) refl

read_round-answers :
    (b : Bits) (time : ℕ) (t : Round) (cs : ℕ) (rest : List ℕ)
    → load conv_time b.rate ≡ ok time
    → IsRound t
    → read_round b (record { soft_cs = cs; replies = round_replies t ++ rest })
      ≡ ok (
        (t.first.answer % 256, t.second.answer % 256),
        round_events b time,
        record { soft_cs = 0xff; replies = rest },
      )
unfolding read_round spi_set_csn
read_round-answers b time t cs rest e h =
    let last = echo_replies t.fourth ++ rest in
    let more = echo_replies t.third ++ last in
    rw
      (
        append_assoc (echo_replies t.first)
            (echo_replies t.second ++ (echo_replies t.third ++ echo_replies t.fourth)) rest,
        append_assoc (echo_replies t.second) (echo_replies t.third ++ echo_replies t.fourth) rest,
        append_assoc (echo_replies t.third) (echo_replies t.fourth) rest,
        spi_write_for_response-echo (msb b) t.first 0xbf (echo_replies t.second ++ more)
            h.first_echo,
        spi_write_for_response-echo (lsb b) t.second 0xbf more h.second_echo,
        spi_write_for_response-echo (msb b) t.third 0xbf last h.third_echo,
        spi_write_for_response-echo (lsb b) t.fourth 0xbf rest h.fourth_echo,
        e,
        delay_loop-delays time (record { soft_cs = 0xff; replies = rest }),
        append-nil,
      )
      refl

-- The configuration that asks for the inputs.
abbrev pub asking : ℕ → Bits → Bits
asking inputs b = record b { sensor_mode = adc_mode; mux = inputs % 8 }

-- A converter that was last read in another mode, with fields that fit their places, and a device
-- that answers: a read of its value takes two rounds, sends in both the configuration that asks for
-- these inputs, in three digits of its high byte, and returns the word of the second round, the high
-- byte first. The mode that it was last read in stays what it was.
pub ads1118_get_adc_value-rounds :
    (inputs time : ℕ) (s : Ads1118) (t u : Round) (cs : ℕ) (rest : List ℕ)
    → (s.last_sensor_mode == adc_mode) ≡ false
    → s.config_register.operating_mode < 2
    → s.config_register.pga < 8
    → load conv_time s.config_register.rate ≡ ok time
    → IsRound t
    → IsRound u
    → (ads1118_get_adc_value inputs s
          (record { soft_cs = cs; replies = round_replies t ++ (round_replies u ++ rest) })
        ≡ ok (
          (
            (u.first.answer % 256) * 256 + u.second.answer % 256,
            record s { config_register = asking inputs s.config_register },
          ),
          round_events (asking inputs s.config_register) time
              ++ round_events (asking inputs s.config_register) time,
          record { soft_cs = 0xff; replies = rest },
        ))
      × (msb (asking inputs s.config_register) / 16 % 8 ≡ inputs % 8)
unfolding ads1118_get_adc_value round_loop msb
ads1118_get_adc_value-rounds inputs time s t u cs rest k small pga e ht hu =
    let b = asking inputs s.config_register in
    let word = bit_or-shifted 8 (u.first.answer % 256) (u.second.answer % 256) (omega arith) in
    (
      rw
          (
            k,
            read_round-answers b time t cs (round_replies u ++ rest) e ht,
            read_round-answers b time u 0xff rest e hu,
            word,
          )
          (simp append-nil),
      omega arith,
    )
