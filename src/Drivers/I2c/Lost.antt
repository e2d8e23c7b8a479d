-- ===== src/Drivers/I2c/Lost.antt =====
-- A chip that does not acknowledge its address.
use losangeles_lakers.Base.{
  ℕ, zero, suc, ◌%◌, bit_or, ◌≡◌, refl, List, [], ◌∷◌, ◌++◌, append-nil, append_assoc, length, ok,
  false, arith,
}
use losangeles_lakers.Base.Io.{pure}
use losangeles_lakers.Drivers.Port.{Write, cr_start, cr_write, Io}
use losangeles_lakers.Drivers.Port.Turns.{
  Turn, IsAnswer, replies_of, Stop, IsStop, stop_replies, stops, ls2k_i2c_stop-stops,
}
use losangeles_lakers.Drivers.Eeprom.Exchange.{sent_byte, wait-turn}
use losangeles_lakers.Drivers.I2c.{
  attempt, start_loop, ls2k_i2c_start, transfer_loop, i2c_transfer, i2c_read, i2c_write,
  read_messages, write_messages,
}

-- Attempts, each with the stop behind it.
abbrev pub lost_replies : List (Turn × Stop) → List ℕ
lost_replies [] = []
lost_replies ((t, st) ∷ xs) = replies_of t ++ (stop_replies st ++ lost_replies xs)

abbrev pub AllLost : List (Turn × Stop) → Type 0
AllLost [] = Unit
AllLost ((t, st) ∷ xs) = IsAnswer false t × IsStop st × AllLost xs

-- What is written in them: the address behind a start, and the stops.
abbrev pub attempts : ℕ → List (Turn × Stop) → List Write
attempts addr [] = []
attempts addr ((t, st) ∷ xs) =
    sent_byte addr (bit_or cr_start cr_write) ++ (stops st ++ attempts addr xs)

attempt-lost :
    (addr : ℕ) (lost : Io ℕ) (t : Turn) (st : Stop) (n : ℕ) (es : List Write) (rest rest' : List ℕ)
    → IsAnswer false t
    → IsStop st
    → lost rest ≡ ok (n, es, rest')
    → attempt addr lost (replies_of t ++ (stop_replies st ++ rest))
      ≡ ok (n, sent_byte addr (bit_or cr_start cr_write) ++ (stops st ++ es), rest')
unfolding attempt
attempt-lost addr lost t st n es rest rest' h k e =
    rw (wait-turn t (stop_replies st ++ rest) h.turn, h.bit, ls2k_i2c_stop-stops st rest k, e) refl

start_loop-lost :
    (retry addr : ℕ) (xs : List (Turn × Stop)) (rest : List ℕ)
    → length xs ≡ suc retry
    → AllLost xs
    → start_loop retry addr (lost_replies xs ++ rest) ≡ ok (0, attempts addr xs, rest)
unfolding start_loop
start_loop-lost retry addr [] rest e h = absurd (omega arith)
start_loop-lost zero addr ((t, st) ∷ []) rest e h =
    rw
      (
        append_assoc (replies_of t) (stop_replies st ++ []) rest,
        append_assoc (stop_replies st) [] rest,
      )
      (attempt-lost addr (pure 0) t st 0 [] rest rest h.0 h.1 refl)
start_loop-lost zero addr (x ∷ y ∷ xs) rest e h = absurd (omega arith)
start_loop-lost (suc retry) addr ((t, st) ∷ xs) rest e h =
    rw
      (
        append_assoc (replies_of t) (stop_replies st ++ lost_replies xs) rest,
        append_assoc (stop_replies st) (lost_replies xs) rest,
      )
      (attempt-lost addr (start_loop retry addr) t st 0 (attempts addr xs) (lost_replies xs ++ rest)
        rest h.0 h.1 (start_loop-lost retry addr xs rest (omega arith) h.2))

-- A chip that acknowledges none of six attempts: `i2c_read` and `i2c_write` address it six times, with
-- a stop behind each attempt, and send and read nothing else. They leave the buffer as it was, and
-- return 0, as they do where they succeed.
pub i2c_read-lost :
    (chip addr alen len : ℕ) (buffer : List ℕ) (xs : List (Turn × Stop)) (rest : List ℕ)
    → length xs ≡ 6
    → AllLost xs
    → (i2c_read chip addr alen buffer len (lost_replies xs ++ rest)
        ≡ ok ((0, read_messages chip addr alen buffer len), attempts (chip % 256) xs, rest))
      × (i2c_write chip addr alen buffer len (lost_replies xs ++ rest)
          ≡ ok ((0, write_messages chip addr alen buffer len), attempts (chip % 256) xs, rest))
unfolding i2c_read i2c_write i2c_transfer transfer_loop ls2k_i2c_start
i2c_read-lost chip addr alen len buffer xs rest e h =
    let lost = start_loop-lost 5 (chip % 256) xs rest e h in
    (rw lost (simp append-nil), rw lost (simp append-nil))
