-- ===== src/Drivers/Vs1003/Sent.antt =====
-- The bytes that each call of the codec's driver sends.
use losangeles_lakers.Base.{
  ℕ, zero, suc, ◌-◌, ◌/◌, ◌^◌, ◌≤◌, min, bit_and, ◌≡◌, refl, List, [], ◌∷◌, append-nil, take, drop,
  length, length-drop, take-split, ok, arith, ==_cases, inl, inr,
}
use losangeles_lakers.Base.Io.{and_then, ◌>>◌, emit}
use losangeles_lakers.Drivers.Spi.{
  txfifo, rt_pin_read, Bus, with_replies, wait_echo, get_rxfifo, spi_write_for_response, spi_set_cs,
  spi_set_csn,
}
use losangeles_lakers.Drivers.Vs1003.{
  x_dreq, await_loop, await_data_request, control_mode_on, control_mode_off, data_mode_on,
  data_mode_off, read_register, write_register, vs_read_command, vs_write_command, send_chunk,
  send_loop, sdi_send_buffer, vs1003_chunk_size,
}
use losangeles_lakers.Drivers.Vs1003.Steps.{with_replies-behind}
use losangeles_lakers.Drivers.Vs1003.Bytes.{
  byte_of, Output, Sends, Just, Sends-then, Sends-Just, Sends-weaken, Output-behind,
}

await_loop-Output : (w : Bus) (rs : List ℕ) → Output (Just []) (with_replies w (await_loop rs))
unfolding await_loop byte_of
await_loop-Output w [] = tt
await_loop-Output w (v ∷ rs) = elim (==_cases v 0) [
  | inl e ↦
      rw (e, with_replies-behind w (rt_pin_read x_dreq 0 ∷ []) (await_loop rs))
        (Output-behind (Just []) (rt_pin_read x_dreq 0 ∷ []) (with_replies w (await_loop rs))
          (await_loop-Output w rs))
  | inr e ↦ rw e refl
]

pub await-Sends : Sends await_data_request (Just [])
unfolding await_data_request
await-Sends = record { run = λ w. await_loop-Output w w.replies }

wait_echo-Output :
    (w : Bus) (rs : List ℕ) → Output (Just []) (with_replies w ((wait_echo >> get_rxfifo) rs))
unfolding wait_echo
wait_echo-Output w [] = tt
wait_echo-Output w (s ∷ rs) = elim (==_cases (bit_and s 1) 0) [
  | inl e ↦ rw e (got rs)
  | inr e ↦ rw e (wait_echo-Output w rs)
]
  where
    got :
        (ts : List ℕ)
        → Output (Just []) (with_replies w (and_then (ok (tt, [], ts)) (λ _. get_rxfifo)))
    got [] = tt
    got (t ∷ ts) = refl

pub spi_write_for_response-Sends : (b : ℕ) → Sends (spi_write_for_response b) (Just (b ∷ []))
unfolding spi_write_for_response byte_of
spi_write_for_response-Sends b =
    Sends-Just (emit (txfifo b)) _ (record { run = λ w. refl })
      (λ _. record { run = λ w. wait_echo-Output w w.replies })

on-Sends : (Sends control_mode_on (Just [])) × (Sends data_mode_on (Just []))
unfolding control_mode_on data_mode_on spi_set_cs byte_of
on-Sends = (record { run = λ w. refl }, record { run = λ w. refl })

pub csn-Sends : (v : ℕ) → Sends (spi_set_csn v) (Just [])
unfolding spi_set_csn byte_of
csn-Sends v = record { run = λ w. refl }

pub read_register-Sends :
    (reg : ℕ) → Sends (read_register reg) (Just (vs_read_command ∷ reg ∷ 0xff ∷ 0xff ∷ []))
unfolding read_register control_mode_off
read_register-Sends reg = Sends-Just _ _ await-Sends (λ _. Sends-Just _ _ on-Sends.0 (λ _.
    Sends-Just _ _ (spi_write_for_response-Sends vs_read_command) (λ _.
      Sends-Just _ _ (spi_write_for_response-Sends reg) (λ _.
        Sends-Just _ _ (spi_write_for_response-Sends 0xff) (λ _.
          Sends-Just _ _ (spi_write_for_response-Sends 0xff)
            (λ _. Sends-Just _ _ (csn-Sends 0xff) (λ _. record { run = λ w. refl })))))))

pub write_register-Sends :
    (reg value : ℕ)
    → Sends
        (write_register reg value)
        (Just (vs_write_command ∷ reg ∷ value / 2 ^ 8 ∷ bit_and value 0xff ∷ []))
unfolding write_register control_mode_off
write_register-Sends reg value = Sends-Just _ _ on-Sends.0 (λ _.
    Sends-Just _ _ (spi_write_for_response-Sends vs_write_command) (λ _.
      Sends-Just _ _ (spi_write_for_response-Sends reg) (λ _.
        Sends-Just _ _ (spi_write_for_response-Sends (value / 2 ^ 8)) (λ _.
          Sends-Just _ _ (spi_write_for_response-Sends (bit_and value 0xff))
            (λ _. Sends-Just _ _ await-Sends (λ _. csn-Sends 0xff))))))

-- `n` bytes of an array, and the rest of it.
abbrev Chunk : ℕ → List ℕ → List ℕ → List ℕ → Type 0
Chunk n data' rest xs = (xs ≡ take n data') × (rest ≡ drop n data') × (n ≤ length data')

send_chunk-Sends : (n : ℕ) (data' : List ℕ) → Sends (send_chunk n data') (Chunk n data')
unfolding send_chunk
send_chunk-Sends zero data' = record { run = λ w. (refl, refl, omega arith) }
send_chunk-Sends (suc n) [] = record { run = λ w. tt }
send_chunk-Sends (suc n) (b ∷ data') = Sends-then _ _ (spi_write_for_response-Sends b) (λ a xs e.
    Sends-weaken {R = Chunk n data'} (send_chunk n data') (send_chunk-Sends n data')
      (λ rest ys (f, g, h). (rw (e, f) refl, g, omega arith)))

-- The first bytes of an array that holds them all.
abbrev pub Whole : ℕ → List ℕ → Unit {0} → List ℕ → Type 0
Whole len data' u xs = (xs ≡ take len data') × (len ≤ length data')

send_loop-Sends :
    (rounds len : ℕ) (data' : List ℕ) → Sends (send_loop rounds data' len) (Whole len data')
unfolding send_loop
send_loop-Sends rounds zero data' = record { run = λ w. (refl, omega arith) }
send_loop-Sends zero (suc l) data' = record { run = λ w. tt }
send_loop-Sends (suc rounds) (suc l) data' =
    let chunk = min (suc l) vs1003_chunk_size in
    let within : chunk ≤ suc l = omega arith in
    Sends-then _ _ await-Sends (λ _ xs e.
      Sends-then _ _ (send_chunk-Sends chunk data') (λ rest ys (f, g, h).
        Sends-weaken {R = Whole (suc l - chunk) rest} (send_loop rounds rest (suc l - chunk))
          (send_loop-Sends rounds (suc l - chunk) rest)
          (λ u zs (p, q). (
            rw (e, f, p, g) (take-split chunk (suc l) data' within),
            omega (arith, rw g at q, h, length-drop chunk data'),
          ))))

pub sdi_send_buffer-Sends :
    (data' : List ℕ) (len : ℕ) → Sends (sdi_send_buffer data' len) (Whole len data')
unfolding sdi_send_buffer data_mode_off
sdi_send_buffer-Sends data' len = Sends-then _ _ on-Sends.1 (λ _ xs e.
    Sends-then _ _ (send_loop-Sends len len data') (λ u ys (f, h).
      Sends-weaken {R = Just []} (spi_set_csn 0xff) (csn-Sends 0xff)
        (λ v zs g. (rw (e, f, g, append-nil) refl, h))))
