-- ===== src/Drivers/Spi/Transfer.antt =====
-- A message on the bus.
use losangeles_lakers.Base.{
  ℕ, suc, ◌+◌, ◌%◌, bit_and, ◌≡◌, refl, true, false, ◌==◌, Option, none, some, List, [], ◌∷◌, ◌++◌,
  append_assoc, All, length, map, replicate, ok, arith, store-append, length-append, take, ltb-true,
  ◌≤◌, ◌<◌, sym,
}
use losangeles_lakers.Drivers.Spi.{
  softcs, txfifo, cs_value, next_byte, put_byte, wait_echo, spi_write_for_response, xfer_loop, xfer,
  spi_set_cs,
}

-- What is read while a byte is exchanged: the statuses before the answer is there, the one that
-- shows it, and the answer.
pub record Echo : Type 0 where
  pub empty : List ℕ
  pub there : ℕ
  pub answer : ℕ

abbrev pub echo_replies : Echo → List ℕ
echo_replies t = t.empty ++ (t.there ∷ t.answer ∷ [])

pub record IsEcho (t : Echo) : Type 0 where
  pub waits : All (λ s. (bit_and s 1 == 0) ≡ false) t.empty
  pub over : (bit_and t.there 1 == 0) ≡ true

abbrev pub all_echoes : List Echo → List ℕ
all_echoes [] = []
all_echoes (t ∷ ts) = echo_replies t ++ all_echoes ts

abbrev pub AllEcho : List Echo → Type 0
AllEcho [] = Unit
AllEcho (t ∷ ts) = IsEcho t × AllEcho ts

abbrev pub answers : List Echo → List ℕ
answers [] = []
answers (t ∷ ts) = t.answer % 256 ∷ answers ts

wait_echo-over :
    (empty : List ℕ) (there : ℕ) (rest : List ℕ)
    → All (λ s. (bit_and s 1 == 0) ≡ false) empty
    → (bit_and there 1 == 0) ≡ true
    → wait_echo (empty ++ (there ∷ rest)) ≡ ok (tt, [], rest)
unfolding wait_echo
wait_echo-over [] there rest h e = rw e refl
wait_echo-over (s ∷ empty) there rest h e = rw h.0 (wait_echo-over empty there rest h.1 e)

pub spi_write_for_response-echo :
    (b : ℕ) (t : Echo) (cs : ℕ) (rest : List ℕ)
    → IsEcho t
    → spi_write_for_response b (record { soft_cs = cs; replies = echo_replies t ++ rest })
      ≡ ok (t.answer % 256, txfifo b ∷ [], record { soft_cs = cs; replies = rest })
unfolding spi_write_for_response
spi_write_for_response-echo b t cs rest h =
    rw
      (
        append_assoc t.empty (t.there ∷ t.answer ∷ []) rest,
        wait_echo-over t.empty t.there (t.answer ∷ rest) h.waits h.over,
      )
      refl

-- The first `n` bytes of a buffer, and 0xff without one.
abbrev pub bytes_of : Option (List ℕ) → ℕ → List ℕ
bytes_of none n = replicate n 0xff
bytes_of (some bs) n = take n bs

abbrev pub IsLong : Option (List ℕ) → ℕ → Type 0
IsLong none n = Unit
IsLong (some bs) n = n ≤ length bs

-- The next byte of a buffer that holds one more.
next_byte-IsLong :
    (send_buf : Option (List ℕ)) (n : ℕ)
    → IsLong send_buf (suc n)
    → (b : ℕ) × (send_buf' : Option (List ℕ)) × (next_byte send_buf ≡ ok (b, send_buf'))
      × IsLong send_buf' n
      × (bytes_of send_buf (suc n) ≡ b ∷ bytes_of send_buf' n)
next_byte-IsLong none n h = (0xff, none, refl, tt, refl)
next_byte-IsLong (some []) n h = absurd (omega arith)
next_byte-IsLong (some (b ∷ bs)) n h = (b, some bs, refl, omega arith, refl)

put_byte-append :
    (done room : List ℕ) (o r : ℕ)
    → put_byte (some (done ++ (o ∷ room))) (length done) r ≡ ok (some (done ++ (r ∷ room)))
unfolding put_byte
put_byte-append done room o r = rw (put_byte, store-append done o room r) refl

xfer_loop-echoes :
    (ts : List Echo) (send_buf : Option (List ℕ)) (done room more : List ℕ) (cs : ℕ) (rest : List ℕ)
    → IsLong send_buf (length ts)
    → length ts ≡ length room
    → AllEcho ts
    → xfer_loop
        (length ts)
        (length done)
        send_buf
        (some (done ++ (room ++ more)))
        (record { soft_cs = cs; replies = all_echoes ts ++ rest })
      ≡ ok (
        some (done ++ (answers ts ++ more)),
        map txfifo (bytes_of send_buf (length ts)),
        record { soft_cs = cs; replies = rest },
      )
unfolding xfer_loop
xfer_loop-echoes [] none done [] more cs rest l e h = refl
xfer_loop-echoes [] (some bs) done [] more cs rest l e h = refl
xfer_loop-echoes [] send_buf done (o ∷ room) more cs rest l e h = absurd (omega arith)
xfer_loop-echoes (t ∷ ts) send_buf done [] more cs rest l e h = absurd (omega arith)
xfer_loop-echoes (t ∷ ts) send_buf done (o ∷ room) more cs rest l e h =
    let r = t.answer % 256 in
    let (b, send_buf', next, long, front) = next_byte-IsLong send_buf (length ts) l in
    let moved : done ++ (r ∷ (room ++ more)) ≡ (done ++ (r ∷ [])) ++ (room ++ more) =
      sym (append_assoc done (r ∷ []) (room ++ more)) in
    let place : length done + 1 ≡ length (done ++ (r ∷ [])) =
      omega (arith, length-append done (r ∷ [])) in
    rw
      (
        next,
        append_assoc (echo_replies t) (all_echoes ts) rest,
        spi_write_for_response-echo b t cs (all_echoes ts ++ rest) h.0,
        put_byte-append done (room ++ more) o r,
        moved,
        place,
        xfer_loop-echoes ts send_buf' (done ++ (r ∷ [])) room more cs rest long (omega arith) h.1,
        front,
        append_assoc done (r ∷ []) (answers ts ++ more),
      )
      refl

-- One of the four selects, and a device that answers every byte: a message that takes and releases
-- the select returns its length, with the answers in order in front of the receive buffer and the
-- rest of it as it was. It has set the select low, sent the bytes of its send buffer, or 0xff for
-- each where it has none, and set the select high.
pub xfer-exchange :
    (cs : ℕ) (ts : List Echo) (send_buf : Option (List ℕ)) (room more : List ℕ) (val : ℕ)
    (rest : List ℕ)
    → cs < 4
    → IsLong send_buf (length ts)
    → length ts ≡ length room
    → AllEcho ts
    → xfer cs
        (record {
          length = length ts;
          send_buf = send_buf;
          recv_buf = some (room ++ more);
          cs_take = true;
          cs_release = true;
        })
        (record { soft_cs = val; replies = all_echoes ts ++ rest })
      ≡ ok (
        (length ts, some (answers ts ++ more)),
        softcs (cs_value val cs 0)
            ∷ (map txfifo (bytes_of send_buf (length ts))
                ++ (softcs (cs_value (cs_value val cs 0) cs 1) ∷ [])),
        record { soft_cs = cs_value (cs_value val cs 0) cs 1; replies = rest },
      )
unfolding xfer spi_set_cs
xfer-exchange cs ts send_buf room more val rest low l e h =
    rw (ltb-true cs 4 low, xfer_loop-echoes ts send_buf [] room more (cs_value val cs 0) rest l e h)
      refl
