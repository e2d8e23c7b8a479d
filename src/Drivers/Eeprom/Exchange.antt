-- ===== src/Drivers/Eeprom/Exchange.antt =====
-- One byte sent to the EEPROM, and several.
use losangeles_lakers.Base.{
  ℕ, suc, ◌%◌, ◌≡◌, refl, true, false, List, [], ◌∷◌, ◌++◌, append_assoc, append-nil, none, some,
  length, ok, arith, ◌+◌,
}
use losangeles_lakers.Base.Int.{pos, negsuc}
use losangeles_lakers.Drivers.Port.{Write, txr, cr, cr_write, wait_tip}
use losangeles_lakers.Drivers.Port.Turns.{
  Turn, IsTurn, IsAnswer, replies_of, Stop, IsStop, stop_replies, stops, wait_tip-done,
  ls2k_i2c_stop-stops,
}
use losangeles_lakers.Drivers.Eeprom.{i2c_tx_byte, write_bytes}

-- Turns one after the other.
abbrev pub all_replies : List Turn → List ℕ
all_replies [] = []
all_replies (t ∷ ts) = replies_of t ++ all_replies ts

abbrev pub AllAnswer : List Turn → Type 0
AllAnswer [] = Unit
AllAnswer (t ∷ ts) = IsAnswer true t × AllAnswer ts

-- A byte and its command.
abbrev pub sent_byte : ℕ → ℕ → List Write
sent_byte b opt = txr b ∷ cr opt ∷ []

pub wait-turn :
    (t : Turn) (rest : List ℕ)
    → IsTurn t
    → wait_tip (replies_of t ++ rest) ≡ ok (tt, [], t.ack ∷ rest)
wait-turn t rest h =
    rw (append_assoc t.busy (t.done ∷ t.ack ∷ []) rest)
      (wait_tip-done t.busy t.done (t.ack ∷ rest) h.waits h.over)

pub i2c_tx_byte-acked :
    (b opt : ℕ) (t : Turn) (rest : List ℕ)
    → IsAnswer true t
    → i2c_tx_byte b opt (replies_of t ++ rest) ≡ ok (pos 0, sent_byte b opt, rest)
unfolding i2c_tx_byte
i2c_tx_byte-acked b opt t rest h = rw (wait-turn t rest h.turn, h.bit) refl

pub i2c_tx_byte-lost :
    (b opt : ℕ) (t : Turn) (st : Stop) (rest : List ℕ)
    → IsAnswer false t
    → IsStop st
    → i2c_tx_byte b opt (replies_of t ++ (stop_replies st ++ rest))
      ≡ ok (negsuc 0, sent_byte b opt ++ stops st, rest)
unfolding i2c_tx_byte
i2c_tx_byte-lost b opt t st rest h k =
    rw
      (
        wait-turn t (stop_replies st ++ rest) h.turn,
        h.bit,
        ls2k_i2c_stop-stops st rest k,
        append-nil,
      )
      refl

-- Bytes, each with the write command.
abbrev pub sent_bytes : List ℕ → List Write
sent_bytes [] = []
sent_bytes (b ∷ bs) = sent_byte (b % 256) cr_write ++ sent_bytes bs

pub write_bytes-acked :
    (bytes more : List ℕ) (ts : List Turn) (rest : List ℕ)
    → length ts ≡ length bytes
    → AllAnswer ts
    → write_bytes (length bytes) (bytes ++ more) (all_replies ts ++ rest)
      ≡ ok (some tt, sent_bytes bytes, rest)
unfolding write_bytes
write_bytes-acked [] more [] rest e h = refl
write_bytes-acked [] more (t ∷ ts) rest e h = absurd (omega arith)
write_bytes-acked (b ∷ bytes) more [] rest e h = absurd (omega arith)
write_bytes-acked (b ∷ bytes) more (t ∷ ts) rest e h =
    rw
      (
        append_assoc (replies_of t) (all_replies ts) rest,
        i2c_tx_byte-acked (b % 256) cr_write t (all_replies ts ++ rest) h.0,
        write_bytes-acked bytes more ts rest (omega arith) h.1,
      )
      refl

-- The byte behind `bytes` is not acknowledged.
pub write_bytes-lost :
    (bytes more : List ℕ) (lost left : ℕ) (ts : List Turn) (t : Turn) (st : Stop) (rest : List ℕ)
    → length ts ≡ length bytes
    → AllAnswer ts
    → IsAnswer false t
    → IsStop st
    → write_bytes
        (length bytes + suc left)
        (bytes ++ (lost ∷ more))
        (all_replies ts ++ (replies_of t ++ (stop_replies st ++ rest)))
      ≡ ok (none, sent_bytes bytes ++ (sent_byte (lost % 256) cr_write ++ stops st), rest)
unfolding write_bytes
write_bytes-lost [] more lost left [] t st rest e h k l =
    let z : 0 + suc left ≡ suc left = omega arith in
    rw (z, i2c_tx_byte-lost (lost % 256) cr_write t st rest k l, append-nil) refl
write_bytes-lost [] more lost left (t' ∷ ts) t st rest e h k l = absurd (omega arith)
write_bytes-lost (b ∷ bytes) more lost left [] t st rest e h k l = absurd (omega arith)
write_bytes-lost (b ∷ bytes) more lost left (t' ∷ ts) t st rest e h k l =
    let z : suc (length bytes) + suc left ≡ suc (length bytes + suc left) = omega arith in
    rw
      (
        z,
        append_assoc (replies_of t') (all_replies ts) (replies_of t ++ (stop_replies st ++ rest)),
        i2c_tx_byte-acked (b % 256) cr_write t'
            (all_replies ts ++ (replies_of t ++ (stop_replies st ++ rest))) h.0,
        write_bytes-lost bytes more lost left ts t st rest (omega arith) h.1 k l,
      )
      refl
