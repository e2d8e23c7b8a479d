-- ===== src/Drivers/Eeprom/Tests.antt =====
-- The EEPROM with concrete replies.
use losangeles_lakers.Base.{
  ◌≡◌, refl, [], ◌∷◌, ◌++◌, some, bit_or, replicate, ok, fault, bad_write, arith,
}
use losangeles_lakers.Base.Text.{codes}
use losangeles_lakers.Drivers.Port.{cr_start, cr_write}
use losangeles_lakers.Drivers.Port.Turns.{replies_of, stop_replies, stops}
use losangeles_lakers.Drivers.Port.Replies.{
  taken, refused, stopped, given, taken-IsAnswer, refused-IsAnswer, stopped-IsStop, given-IsTurn,
}
use losangeles_lakers.Drivers.Eeprom.{ls2k_eeprom_write_page, ls2k_eeprom_read_seq}
use losangeles_lakers.Drivers.Eeprom.Exchange.{all_replies, sent_byte, sent_bytes}
use losangeles_lakers.Drivers.Eeprom.Pages.{
  addressed, reads, ls2k_eeprom_write_page-lost, ls2k_eeprom_read_seq-turns,
}
use losangeles_lakers.Drivers.Eeprom.Hex.{gethex, digit_of}
use losangeles_lakers.Drivers.Eeprom.Hex.Numbers.{gethex-read_number}
use losangeles_lakers.Drivers.Eeprom.Hex.Command.{cmd_eeprom_write, bytes_at}
use losangeles_lakers.Drivers.Eeprom.Hex.Written.{cmd_eeprom_write-bytes, cmd_eeprom_write_overflow}

ls2k_eeprom_write_page-lost_example :
    ls2k_eeprom_write_page 7 (1 ∷ 2 ∷ 3 ∷ []) 3 (
      replies_of taken
      ++ (replies_of taken
          ++ (all_replies (taken ∷ []) ++ (replies_of refused ++ (stop_replies stopped ++ [])))))
    ≡ ok (0, addressed 7 ++ (sent_bytes (1 ∷ []) ++ (sent_byte 2 cr_write ++ stops stopped)), [])
ls2k_eeprom_write_page-lost_example =
    ls2k_eeprom_write_page-lost 7 (1 ∷ []) (3 ∷ []) 2 1 taken taken (taken ∷ []) refused stopped []
      taken-IsAnswer taken-IsAnswer refl (taken-IsAnswer, tt) refused-IsAnswer stopped-IsStop

ls2k_eeprom_read_seq-turns_example :
    ls2k_eeprom_read_seq 7 (0 ∷ 0 ∷ 9 ∷ []) 2 (
      replies_of taken
      ++ (replies_of taken
          ++ (replies_of taken
              ++ (all_replies (given ∷ given ∷ []) ++ (stop_replies stopped ++ [])))))
    ≡ ok (
      (2, 0x5a ∷ 0x5a ∷ 9 ∷ []),
      addressed 7
          ++ (sent_byte 0xa1 (bit_or cr_start cr_write)
              ++ (reads (given ∷ given ∷ []) ++ stops stopped)),
      [],
    )
ls2k_eeprom_read_seq-turns_example =
    ls2k_eeprom_read_seq-turns 7 (0 ∷ 0 ∷ []) (9 ∷ []) taken taken taken (given ∷ given ∷ [])
      stopped [] taken-IsAnswer taken-IsAnswer taken-IsAnswer refl
      (given-IsTurn, (given-IsTurn, tt)) stopped-IsStop

gethex-read_number_example : gethex 5 (codes "3Fx") 2 ≡ ok (1, 0x3f)
unfolding digit_of
gethex-read_number_example = gethex-read_number 5 2 (codes "3Fx") (omega arith)

cmd_eeprom_write-bytes_example :
    cmd_eeprom_write 0xa0 (some (codes "00 11 af")) 77 (replicate 32 9) (
      replies_of taken
      ++ (replies_of taken
          ++ (all_replies (taken ∷ taken ∷ taken ∷ []) ++ (stop_replies stopped ++ []))))
    ≡ ok (
      bytes_at 0xa0 (0 ∷ 0x11 ∷ 0xaf ∷ []),
      addressed 0xa0 ++ (sent_bytes (0 ∷ 0x11 ∷ 0xaf ∷ []) ++ stops stopped),
      [],
    )
cmd_eeprom_write-bytes_example =
    cmd_eeprom_write-bytes 0xa0 77 0 (0x11 ∷ 0xaf ∷ []) (replicate 3 9) (replicate 29 9) taken taken
      (taken ∷ taken ∷ taken ∷ []) stopped [] (omega arith) refl taken-IsAnswer taken-IsAnswer refl
      (taken-IsAnswer, (taken-IsAnswer, (taken-IsAnswer, tt))) stopped-IsStop

cmd_eeprom_write_overflow_example :
    cmd_eeprom_write 0xa0 (some (replicate 97 b'0')) 0 (replicate 32 0) [] ≡ fault bad_write
cmd_eeprom_write_overflow_example =
    cmd_eeprom_write_overflow 0xa0 0 (replicate 97 b'0') (replicate 32 0) [] refl (omega arith)
