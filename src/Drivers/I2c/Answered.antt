-- ===== src/Drivers/I2c/Answered.antt =====
-- A chip that acknowledges its address.
use losangeles_lakers.Base.{
  ℕ, zero, suc, ◌%◌, ◌^◌, ◌<◌, ◌≤◌, bit_or, ◌≡◌, refl, List, [], ◌∷◌, ◌++◌, append-nil,
  append_assoc, take, length, ok, true, arith,
}
use losangeles_lakers.Drivers.Port.{Write, cr_start, cr_write}
use losangeles_lakers.Drivers.Port.Turns.{
  Turn, IsAnswer, replies_of, Stop, IsStop, stop_replies, stops, ls2k_i2c_stop-stops,
}
use losangeles_lakers.Drivers.Eeprom.Exchange.{sent_byte, wait-turn, all_replies, AllAnswer}
use losangeles_lakers.Drivers.Eeprom.Pages.{bytes_of, AllTurn, reads, read_bytes-turns}
use losangeles_lakers.Drivers.I2c.{
  attempt, start_loop, ls2k_i2c_start, ls2k_i2c_read, ls2k_i2c_write, transfer_loop, i2c_transfer,
  i2c_read, addr_bytes, i2c_m_rd,
}

-- Bytes that are written as they are.
abbrev pub written : List ℕ → List Write
written [] = []
written (b ∷ bs) = sent_byte b cr_write ++ written bs

start_loop-acked :
    (retry addr : ℕ) (t : Turn) (rest : List ℕ)
    → IsAnswer true t
    → start_loop retry addr (replies_of t ++ rest)
      ≡ ok (1, sent_byte addr (bit_or cr_start cr_write), rest)
unfolding start_loop attempt
start_loop-acked zero addr t rest h = rw (wait-turn t rest h.turn, h.bit) refl
start_loop-acked (suc retry) addr t rest h = rw (wait-turn t rest h.turn, h.bit) refl

ls2k_i2c_write-acked :
    (buf : List ℕ) (ts : List Turn) (rest : List ℕ)
    → length ts ≤ length buf
    → AllAnswer ts
    → ls2k_i2c_write buf (length ts) (all_replies ts ++ rest)
      ≡ ok (tt, written (take (length ts) buf), rest)
unfolding ls2k_i2c_write
ls2k_i2c_write-acked buf [] rest l h = refl
ls2k_i2c_write-acked [] (t ∷ ts) rest l h = absurd (omega arith)
ls2k_i2c_write-acked (b ∷ buf) (t ∷ ts) rest l h =
    rw
      (
        append_assoc (replies_of t) (all_replies ts) rest,
        wait-turn t (all_replies ts ++ rest) h.0.turn,
        h.0.bit,
        ls2k_i2c_write-acked buf ts rest (omega arith) h.1,
      )
      refl

-- A chip that acknowledges its address twice and the bytes of the data address, of which there are
-- four at most, and fewer than 65536 bytes asked for: `i2c_read` returns 0 with the bytes that the chip gave in order in front of the
-- buffer, and the rest of the buffer as it was. It has written the address behind a start, the data
-- address with the lowest byte first, the same address behind a start again, without the digit that
-- asks for a read, a read command for each byte, and the stop.
pub i2c_read-answered :
    (chip addr : ℕ) (old more : List ℕ) (a b : Turn) (ads ts : List Turn) (st : Stop)
    (rest : List ℕ)
    → length ads ≤ 4
    → length ts < 2 ^ 16
    → IsAnswer true a
    → AllAnswer ads
    → IsAnswer true b
    → length ts ≡ length old
    → AllTurn ts
    → IsStop st
    → i2c_read chip addr (length ads) (old ++ more) (length ts) (
        replies_of a
        ++ (all_replies ads ++ (replies_of b ++ (all_replies ts ++ (stop_replies st ++ rest)))))
      ≡ ok (
        (
          0,
          record { addr = chip; flags = 0; len = length ads; buf = addr_bytes addr }
              ∷ record { addr = chip; flags = i2c_m_rd; len = length ts; buf = bytes_of ts ++ more }
              ∷ [],
        ),
        sent_byte (chip % 256) (bit_or cr_start cr_write)
            ++ (written (take (length ads) (addr_bytes addr))
                ++ (sent_byte (chip % 256) (bit_or cr_start cr_write) ++ (reads ts ++ stops st))),
        rest,
      )
unfolding i2c_read i2c_transfer transfer_loop ls2k_i2c_start ls2k_i2c_read
i2c_read-answered chip addr old more a b ads ts st rest l short ha hads hb e hts hst =
    let left = all_replies ts ++ (stop_replies st ++ rest) in
    let few : length ads % 2 ^ 16 ≡ length ads = omega arith in
    let whole : length ts % 2 ^ 16 ≡ length ts = omega arith in
    rw
      (
        few,
        whole,
        start_loop-acked 5 (chip % 256) a (all_replies ads ++ (replies_of b ++ left)) ha,
        ls2k_i2c_write-acked (addr_bytes addr) ads (replies_of b ++ left) l hads,
        start_loop-acked 5 (chip % 256) b left hb,
        read_bytes-turns ts [] old more (stop_replies st ++ rest) e hts,
        ls2k_i2c_stop-stops st rest hst,
      )
      (simp (append-nil, append_assoc))
