-- ===== src/Drivers/Eeprom/Pages.antt =====
-- Pages written to the EEPROM and read from it.
use losangeles_lakers.Base.{
  ℕ, suc, ◌+◌, ◌%◌, ◌≡◌, refl, sym, true, false, List, [], ◌∷◌, ◌++◌, append_assoc, append-nil,
  bit_or, length, ok, arith, store-append, ==_false, length-append, ◌==◌, if◌then◌else◌,
}
use losangeles_lakers.Drivers.Port.{Write, cr, cr_start, cr_read, cr_write, cr_ack}
use losangeles_lakers.Drivers.Port.Turns.{
  Turn, IsTurn, IsAnswer, replies_of, Stop, IsStop, stop_replies, stops, ls2k_i2c_stop-stops,
}
use losangeles_lakers.Drivers.Eeprom.{
  i2c_send_addr, ls2k_eeprom_write_page, ls2k_eeprom_read_rand, ls2k_eeprom_read_cur,
  ls2k_eeprom_read_seq, i2c_read_seq_cur, read_bytes,
}
use losangeles_lakers.Drivers.Eeprom.Exchange.{
  all_replies, AllAnswer, sent_byte, sent_bytes, i2c_tx_byte-acked, write_bytes-acked,
  write_bytes-lost, wait-turn,
}

-- The address of the chip, to write to, behind a start, and the address in it.
abbrev pub addressed : ℕ → List Write
addressed data_addr =
    sent_byte 0xa0 (bit_or cr_start cr_write) ++ sent_byte (data_addr % 256) cr_write

i2c_send_addr-acked :
    (data_addr : ℕ) (a d : Turn) (rest : List ℕ)
    → IsAnswer true a
    → IsAnswer true d
    → i2c_send_addr data_addr (replies_of a ++ (replies_of d ++ rest))
      ≡ ok (1, addressed data_addr, rest)
unfolding i2c_send_addr
i2c_send_addr-acked data_addr a d rest h k =
    rw
      (
        i2c_tx_byte-acked 0xa0 (bit_or cr_start cr_write) a (replies_of d ++ rest) h,
        i2c_tx_byte-acked (data_addr % 256) cr_write d rest k,
      )
      refl

-- A device that acknowledges every byte: a page write returns the number of its bytes, and has
-- written the addresses, then each byte in order and then the stop, and nothing else.
pub ls2k_eeprom_write_page-acked :
    (data_addr : ℕ) (bytes more : List ℕ) (a d : Turn) (ts : List Turn) (st : Stop) (rest : List ℕ)
    → IsAnswer true a
    → IsAnswer true d
    → length ts ≡ length bytes
    → AllAnswer ts
    → IsStop st
    → ls2k_eeprom_write_page data_addr
        (bytes ++ more)
        (length bytes)
        (replies_of a ++ (replies_of d ++ (all_replies ts ++ (stop_replies st ++ rest))))
      ≡ ok (length bytes, addressed data_addr ++ (sent_bytes bytes ++ stops st), rest)
unfolding ls2k_eeprom_write_page
ls2k_eeprom_write_page-acked data_addr bytes more a d ts st rest h k e l m =
    rw
      (
        i2c_send_addr-acked data_addr a d (all_replies ts ++ (stop_replies st ++ rest)) h k,
        write_bytes-acked bytes more ts (stop_replies st ++ rest) e l,
        ls2k_i2c_stop-stops st rest m,
        append-nil,
      )
      refl

-- A device that does not acknowledge the byte behind the first ones: the page write returns 0, and
-- has written the addresses, the bytes up to this one and the stop, and no byte that follows.
pub ls2k_eeprom_write_page-lost :
    (data_addr : ℕ) (bytes more : List ℕ) (lost left : ℕ) (a d : Turn) (ts : List Turn) (t : Turn)
    (st : Stop) (rest : List ℕ)
    → IsAnswer true a
    → IsAnswer true d
    → length ts ≡ length bytes
    → AllAnswer ts
    → IsAnswer false t
    → IsStop st
    → ls2k_eeprom_write_page data_addr (bytes ++ (lost ∷ more)) (length bytes + suc left) (
        replies_of a
        ++ (replies_of d ++ (all_replies ts ++ (replies_of t ++ (stop_replies st ++ rest)))))
      ≡ ok (
        0,
        addressed data_addr ++ (sent_bytes bytes ++ (sent_byte (lost % 256) cr_write ++ stops st)),
        rest,
      )
unfolding ls2k_eeprom_write_page
ls2k_eeprom_write_page-lost data_addr bytes more lost left a d ts t st rest h k e l n m =
    rw
      (
        i2c_send_addr-acked data_addr a d
            (all_replies ts ++ (replies_of t ++ (stop_replies st ++ rest))) h k,
        write_bytes-lost bytes more lost left ts t st rest e l n m,
        append-nil,
      )
      refl

-- Of a turn in which a byte is read, the last reply is the byte.
abbrev pub bytes_of : List Turn → List ℕ
bytes_of [] = []
bytes_of (t ∷ ts) = t.ack ∷ bytes_of ts

abbrev pub AllTurn : List Turn → Type 0
AllTurn [] = Unit
AllTurn (t ∷ ts) = IsTurn t × AllTurn ts

-- The commands of a sequential read: the last byte is not acknowledged.
abbrev pub reads : List Turn → List Write
reads [] = []
reads (t ∷ []) = cr (bit_or cr_read cr_ack) ∷ []
reads (t ∷ t' ∷ ts) = cr cr_read ∷ reads (t' ∷ ts)

reads-next :
    (t : Turn) (ts : List Turn)
    → reads (t ∷ ts) ≡ cr (if length ts == 0 then bit_or cr_read cr_ack else cr_read) ∷ reads ts
reads-next t [] = refl
reads-next t (t' ∷ ts) = rw (==_false (suc (length ts)) 0 (omega arith)) refl

pub read_bytes-turns :
    (ts : List Turn) (w old more rest : List ℕ)
    → length ts ≡ length old
    → AllTurn ts
    → read_bytes (length ts) (length w) (w ++ (old ++ more)) (all_replies ts ++ rest)
      ≡ ok (w ++ (bytes_of ts ++ more), reads ts, rest)
unfolding read_bytes
read_bytes-turns [] w [] more rest e h = refl
read_bytes-turns [] w (o ∷ old) more rest e h = absurd (omega arith)
read_bytes-turns (t ∷ ts) w [] more rest e h = absurd (omega arith)
read_bytes-turns (t ∷ ts) w (o ∷ old) more rest e h =
    let room : w ++ (t.ack ∷ (old ++ more)) ≡ (w ++ (t.ack ∷ [])) ++ (old ++ more) =
      sym (append_assoc w (t.ack ∷ []) (old ++ more)) in
    let next : length w + 1 ≡ length (w ++ (t.ack ∷ [])) =
      omega (arith, length-append w (t.ack ∷ [])) in
    rw
      (
        append_assoc (replies_of t) (all_replies ts) rest,
        wait-turn t (all_replies ts ++ rest) h.0,
        store-append w o (old ++ more) t.ack,
        room,
        next,
        read_bytes-turns ts (w ++ (t.ack ∷ [])) old more rest (omega arith) h.1,
        reads-next t ts,
        append_assoc w (t.ack ∷ []) (bytes_of ts ++ more),
      )
      refl

-- A device that acknowledges its addresses: a sequential read into an array with room returns the
-- number of bytes asked for, with the bytes that the device gave in order in front of the array and
-- the rest of it as it was, and has written the addresses, a read command for each byte, of which
-- the last alone has the acknowledge digit, and the stop.
pub ls2k_eeprom_read_seq-turns :
    (data_addr : ℕ) (old more : List ℕ) (a d r : Turn) (ts : List Turn) (st : Stop) (rest : List ℕ)
    → IsAnswer true a
    → IsAnswer true d
    → IsAnswer true r
    → length ts ≡ length old
    → AllTurn ts
    → IsStop st
    → ls2k_eeprom_read_seq data_addr (old ++ more) (length ts) (
        replies_of a
        ++ (replies_of d ++ (replies_of r ++ (all_replies ts ++ (stop_replies st ++ rest)))))
      ≡ ok (
        (length ts, bytes_of ts ++ more),
        addressed data_addr
            ++ (sent_byte 0xa1 (bit_or cr_start cr_write) ++ (reads ts ++ stops st)),
        rest,
      )
unfolding ls2k_eeprom_read_seq i2c_read_seq_cur
ls2k_eeprom_read_seq-turns data_addr old more a d r ts st rest h k l e m n =
    rw
      (
        i2c_send_addr-acked data_addr a d
            (replies_of r ++ (all_replies ts ++ (stop_replies st ++ rest))) h k,
        i2c_tx_byte-acked 0xa1 (bit_or cr_start cr_write) r
            (all_replies ts ++ (stop_replies st ++ rest)) l,
        read_bytes-turns ts [] old more (stop_replies st ++ rest) e m,
        ls2k_i2c_stop-stops st rest n,
        append-nil,
      )
      refl

-- A device that acknowledges its addresses and gives a byte: the random read stores the byte and
-- has written the whole exchange, but returns 0, which its callers take for an error.
pub ls2k_eeprom_read_rand-zero :
    (data_addr old : ℕ) (a d r t : Turn) (st : Stop) (rest : List ℕ)
    → IsAnswer true a
    → IsAnswer true d
    → IsAnswer true r
    → IsTurn t
    → IsStop st
    → ls2k_eeprom_read_rand data_addr old (
        replies_of a
        ++ (replies_of d ++ (replies_of r ++ (replies_of t ++ (stop_replies st ++ rest)))))
      ≡ ok (
        (0, t.ack),
        addressed data_addr
            ++ (sent_byte 0xa1 (bit_or cr_start cr_write) ++ (cr cr_read ∷ stops st)),
        rest,
      )
unfolding ls2k_eeprom_read_rand ls2k_eeprom_read_cur
ls2k_eeprom_read_rand-zero data_addr old a d r t st rest h k l m n =
    rw
      (
        i2c_send_addr-acked data_addr a d
            (replies_of r ++ (replies_of t ++ (stop_replies st ++ rest))) h k,
        i2c_tx_byte-acked 0xa1 (bit_or cr_start cr_write) r
            (replies_of t ++ (stop_replies st ++ rest)) l,
        wait-turn t (stop_replies st ++ rest) m,
        ls2k_i2c_stop-stops st rest n,
      )
      (simp append-nil)
