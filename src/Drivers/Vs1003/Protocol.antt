-- ===== src/Drivers/Vs1003/Protocol.antt =====
-- Every operation of the driver keeps to the protocol of the two selects.
use losangeles_lakers.Base.{
  ℕ, zero, suc, ◌+◌, ◌-◌, ◌/◌, ◌^◌, min, bit_and, ◌≡◌, refl, List, [], ◌∷◌, arith,
}
use losangeles_lakers.Base.Io.{pure}
use losangeles_lakers.Drivers.Spi.{rt_pin_write, rt_thread_mdelay}
use losangeles_lakers.Drivers.Vs1003.{
  x_reset, control_mode_off, data_mode_on, data_mode_off, read_register, write_register,
  vs_read_command, vs_write_command, send_chunk, send_loop, sdi_send_buffer, vs1003_reset,
  vs1003_chunk_size,
}
use losangeles_lakers.Drivers.Vs1003.Line.{
  Line, watch, watch_all, Follows, Follows-then, Follows-weaken,
}
use losangeles_lakers.Drivers.Vs1003.Steps.{
  IsIdle, IsCommand, IsData, Follows-emit, Follows-await, Follows-IsCommand, Follows-IsData,
  Follows-control_mode_on, Follows-data_mode_on, Follows-csn,
}

pub Follows-pure : {A : Type 0} (P : Line → Type 0) (a : A) → Follows P (pure a) (λ _. P)
unfolding watch_all
Follows-pure P a = record { run = λ w r p. (r, refl, p) }

pub read_register-Follows : (reg : ℕ) → Follows IsIdle (read_register reg) (λ _. IsIdle)
unfolding read_register control_mode_off
read_register-Follows reg = Follows-then _ _ (Follows-await IsIdle IsIdle (λ s r p. p)) (λ _.
    Follows-then _ _ Follows-control_mode_on (λ _.
      Follows-then _ _ (Follows-IsCommand vs_read_command) (λ _.
        Follows-then _ _ (Follows-IsCommand reg) (λ _.
          Follows-then _ _ (Follows-IsCommand 0xff) (λ _.
            Follows-then _ _ (Follows-IsCommand 0xff)
              (λ _. Follows-then _ _ (Follows-csn IsCommand) (λ _. Follows-pure IsIdle _)))))))

pub write_register-Follows :
    (reg value : ℕ) → Follows IsIdle (write_register reg value) (λ _. IsIdle)
unfolding write_register control_mode_off
write_register-Follows reg value = Follows-then _ _ Follows-control_mode_on (λ _.
    Follows-then _ _ (Follows-IsCommand vs_write_command) (λ _.
      Follows-then _ _ (Follows-IsCommand reg) (λ _.
        Follows-then _ _ (Follows-IsCommand (value / 2 ^ 8)) (λ _.
          Follows-then _ _ (Follows-IsCommand (bit_and value 0xff)) (λ _.
            Follows-then _ _ (Follows-await IsCommand IsCommand (λ s r p. p))
              (λ _. Follows-csn IsCommand))))))

pub vs1003_reset-Follows : Follows IsIdle vs1003_reset (λ _. IsIdle)
unfolding vs1003_reset watch
vs1003_reset-Follows =
    Follows-then _ _
      (Follows-then _ _ (Follows-emit IsIdle (rt_pin_write x_reset 0) (λ l. refl))
        (λ _. Follows-emit IsIdle (rt_thread_mdelay 1) (λ l. refl)))
      (λ _. Follows-emit IsIdle (rt_pin_write x_reset 1) (λ l. refl))

-- A chunk for which there is room.
send_chunk-Follows :
    (n room : ℕ) (data' : List ℕ)
    → Follows (IsData (n + room)) (send_chunk n data') (λ _. IsData room)
unfolding send_chunk watch_all
send_chunk-Follows zero room data' =
    let z : 0 + room ≡ room = omega arith in rw z (Follows-pure (IsData room) data')
send_chunk-Follows (suc n) room [] = record { run = λ w r p. tt }
send_chunk-Follows (suc n) room (b ∷ data') =
    let z : suc n + room ≡ suc (n + room) = omega arith in
    rw z (Follows-then _ _ (Follows-IsData (n + room) b) (λ _. send_chunk-Follows n room data'))

-- Data, whatever the room.
abbrev IsSending : Line → Type 0
IsSending l = (n : ℕ) × IsData n l

send_loop-Follows :
    (rounds len : ℕ) (data' : List ℕ)
    → Follows IsSending (send_loop rounds data' len) (λ _. IsSending)
unfolding send_loop watch_all
send_loop-Follows rounds zero data' = Follows-pure IsSending tt
send_loop-Follows zero (suc l) data' = record { run = λ w r p. tt }
send_loop-Follows (suc rounds) (suc l) data' =
    let chunk = min (suc l) vs1003_chunk_size in
    let room : chunk + (32 - chunk) ≡ 32 = omega arith in
    Follows-then _ _ (Follows-await IsSending (IsData 32) (λ s r (n, p). (p.0, p.1, refl))) (λ _.
      Follows-then _ _
        (Follows-weaken {R = λ _. IsData (32 - chunk)} {Q = λ _. IsSending} (send_chunk chunk data')
          (rw room at (send_chunk-Follows chunk (32 - chunk) data')) (λ a l p. (32 - chunk, p)))
        (λ data''. send_loop-Follows rounds (suc l - chunk) data''))

pub sdi_send_buffer-Follows :
    (data' : List ℕ) (len : ℕ) → Follows IsIdle (sdi_send_buffer data' len) (λ _. IsIdle)
unfolding sdi_send_buffer data_mode_off
sdi_send_buffer-Follows data' len =
    Follows-then _ _
      (Follows-weaken {R = λ _. IsData 0} {Q = λ _. IsSending} data_mode_on Follows-data_mode_on
        (λ a l p. (0, p)))
      (λ _. Follows-then _ _ (send_loop-Follows len len data') (λ _. Follows-csn IsSending))
