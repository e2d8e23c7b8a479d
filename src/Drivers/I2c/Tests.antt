-- ===== src/Drivers/I2c/Tests.antt =====
-- The messages of the I2C bus with concrete replies.
use losangeles_lakers.Base.{◌≡◌, refl, List, replicate, [], ◌∷◌, ◌++◌, bit_or, ok, arith}
use losangeles_lakers.Drivers.Port.{cr_start, cr_write}
use losangeles_lakers.Drivers.Port.Turns.{Turn, Stop, replies_of, stop_replies, stops}
use losangeles_lakers.Drivers.Port.Replies.{
  taken, refused, stopped, given, taken-IsAnswer, refused-IsAnswer, stopped-IsStop, given-IsTurn,
}
use losangeles_lakers.Drivers.Eeprom.Exchange.{all_replies, sent_byte}
use losangeles_lakers.Drivers.Eeprom.Pages.{reads}
use losangeles_lakers.Drivers.I2c.{i2c_read, i2c_write, i2c_m_rd, read_messages, write_messages}
use losangeles_lakers.Drivers.I2c.Lost.{lost_replies, attempts, AllLost, i2c_read-lost}
use losangeles_lakers.Drivers.I2c.Answered.{written, i2c_read-answered}

abbrev six : List (Turn × Stop)
six = replicate 6 (refused, stopped)

six-AllLost : AllLost six
six-AllLost =
    let one = refused-IsAnswer in
    let st = stopped-IsStop in (one, st, (one, st, (one, st, (one, st, (one, st, (one, st, tt))))))

i2c_read-lost_example :
    (i2c_read 0xa0 0x102 2 (5 ∷ []) 1 (lost_replies six ++ [])
      ≡ ok ((0, read_messages 0xa0 0x102 2 (5 ∷ []) 1), attempts 0xa0 six, []))
    × (i2c_write 0xa0 0x102 2 (5 ∷ []) 1 (lost_replies six ++ [])
        ≡ ok ((0, write_messages 0xa0 0x102 2 (5 ∷ []) 1), attempts 0xa0 six, []))
i2c_read-lost_example = i2c_read-lost 0xa0 0x102 2 1 (5 ∷ []) six [] refl six-AllLost

i2c_read-answered_example :
    i2c_read 0xa0 0x102 2 (0 ∷ 0 ∷ 9 ∷ []) 2 (
      replies_of taken
      ++ (all_replies (taken ∷ taken ∷ [])
          ++ (replies_of taken
              ++ (all_replies (given ∷ given ∷ []) ++ (stop_replies stopped ++ [])))))
    ≡ ok (
      (
        0,
        record { addr = 0xa0; flags = 0; len = 2; buf = 2 ∷ 1 ∷ 0 ∷ 0 ∷ [] }
            ∷ record { addr = 0xa0; flags = i2c_m_rd; len = 2; buf = 0x5a ∷ 0x5a ∷ 9 ∷ [] }
            ∷ [],
      ),
      sent_byte 0xa0 (bit_or cr_start cr_write)
          ++ (written (2 ∷ 1 ∷ [])
              ++ (sent_byte 0xa0 (bit_or cr_start cr_write)
                  ++ (reads (given ∷ given ∷ []) ++ stops stopped))),
      [],
    )
i2c_read-answered_example =
    i2c_read-answered 0xa0 0x102 (0 ∷ 0 ∷ []) (9 ∷ []) taken taken (taken ∷ taken ∷ [])
      (given ∷ given ∷ []) stopped [] (omega arith) (omega arith) taken-IsAnswer
      (taken-IsAnswer, (taken-IsAnswer, tt)) taken-IsAnswer refl (given-IsTurn, (given-IsTurn, tt))
      stopped-IsStop
