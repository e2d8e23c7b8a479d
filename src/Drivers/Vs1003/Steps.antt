-- ===== src/Drivers/Vs1003/Steps.antt =====
-- The single steps of the driver on the two selects.
use losangeles_lakers.Base.{
  ℕ, suc, ◌+◌, ◌-◌, ◌≡◌, refl, true, false, ◌&&◌, ◌==◌, if◌then◌else◌, some, List, [], ◌∷◌, Result,
  ok, fault, stuck, arith, ltb-true, ◌<◌, ==_cases, ==_false, inl, inr, bit_and,
}
use losangeles_lakers.Base.Bits.{bit}
use losangeles_lakers.Base.Io.{behind, and_then, ◌>>◌, emit}
use losangeles_lakers.Drivers.Spi.{
  SpiEvent, softcs, txfifo, rt_pin_read, Bus, Io, with_replies, wait_echo, get_rxfifo,
  spi_write_for_response, cs_value, spi_set_cs, spi_set_csn,
}
use losangeles_lakers.Drivers.Spi.Select.{bit-cs_value}
use losangeles_lakers.Drivers.Vs1003.{
  x_dreq, x_cs, x_dcs, await_loop, await_data_request, control_mode_on, data_mode_on,
}
use losangeles_lakers.Drivers.Vs1003.Line.{
  is_active, Line, watch, watch_byte, watch_all, Outcome, Follows, Follows-then, Outcome-behind,
}

abbrev pub IsIdle : Line → Type 0
IsIdle l = (is_active x_cs l.selects ≡ false) × (is_active x_dcs l.selects ≡ false)

abbrev pub IsCommand : Line → Type 0
IsCommand l = (is_active x_cs l.selects ≡ true) × (is_active x_dcs l.selects ≡ false)

-- Data, with room for `n` bytes.
abbrev pub IsData : ℕ → Line → Type 0
IsData n l = (is_active x_cs l.selects ≡ false) × (is_active x_dcs l.selects ≡ true) × (l.room ≡ n)

-- An event that is neither a byte nor a change of the selects, nor a read of a pin.
pub Follows-emit :
    (P : Line → Type 0) (e : SpiEvent)
    → ((l : Line) → watch e l ≡ some l)
    → Follows P (emit e) (λ _. P)
unfolding watch_all
Follows-emit P e h = record { run = λ w r p. (r, h (record { selects = w.soft_cs; room = r }), p) }

pub with_replies-behind :
    {A : Type 0} (w : Bus) (es : List SpiEvent) (x : Result (A × List SpiEvent × List ℕ))
    → with_replies w (behind es x) ≡ behind es (with_replies w x)
with_replies-behind w es (ok y) = refl
with_replies-behind w es (fault e) = refl
with_replies-behind w es stuck = refl

await_loop-Outcome :
    (Q : Line → Type 0) (w : Bus) (rs : List ℕ) (r : ℕ)
    → Q (record { selects = w.soft_cs; room = 32 })
    → Outcome (λ _. Q) (record { selects = w.soft_cs; room = r }) (with_replies w (await_loop rs))
unfolding await_loop watch watch_all
await_loop-Outcome Q w [] r q = tt
await_loop-Outcome Q w (v ∷ rs) r q = elim (==_cases v 0) [
  | inl e ↦
      rw (e, with_replies-behind w (rt_pin_read x_dreq 0 ∷ []) (await_loop rs))
        (Outcome-behind (λ _. Q) (rt_pin_read x_dreq 0 ∷ [])
          (record { selects = w.soft_cs; room = r }) (record { selects = w.soft_cs; room = r })
          (with_replies w (await_loop rs)) refl (await_loop-Outcome Q w rs r q))
  | inr e ↦ rw e (32, rw e refl, q)
]

-- Waiting announces room for a chunk.
pub Follows-await :
    (P Q : Line → Type 0)
    → ((s r : ℕ) → P (record { selects = s; room = r }) → Q (record { selects = s; room = 32 }))
    → Follows P await_data_request (λ _. Q)
unfolding await_data_request
Follows-await P Q h = record { run = λ w r p. await_loop-Outcome Q w w.replies r (h w.soft_cs r p) }

wait_echo-Outcome :
    (Q : Line → Type 0) (w : Bus) (rs : List ℕ) (r : ℕ)
    → Q (record { selects = w.soft_cs; room = r })
    → Outcome
        (λ _. Q)
        (record { selects = w.soft_cs; room = r })
        (with_replies w ((wait_echo >> get_rxfifo) rs))
unfolding wait_echo watch_all
wait_echo-Outcome Q w [] r q = tt
wait_echo-Outcome Q w (s ∷ rs) r q = elim (==_cases (bit_and s 1) 0) [
  | inl e ↦ rw e (got rs)
  | inr e ↦ rw e (wait_echo-Outcome Q w rs r q)
]
  where
    got :
        (ts : List ℕ)
        → Outcome
            (λ _. Q)
            (record { selects = w.soft_cs; room = r })
            (with_replies w (and_then (ok (tt, [], ts)) (λ _. get_rxfifo)))
    got [] = tt
    got (t ∷ ts) = (r, refl, q)

-- A byte that the watcher lets pass.
Follows-byte :
    (P Q : Line → Type 0) (b : ℕ)
    → ((l : Line)
        → P l
        → (r : ℕ) × (watch_byte l ≡ some (record l { room = r })) × Q (record l { room = r }))
    → Follows P (spi_write_for_response b) (λ _. Q)
unfolding spi_write_for_response watch watch_all
Follows-byte P Q b h = record { run = go }
  where
    go :
        (w : Bus) (r : ℕ)
        → P (record { selects = w.soft_cs; room = r })
        → Outcome (λ _. Q) (record { selects = w.soft_cs; room = r }) (spi_write_for_response b w)
    go w r p =
        let (r', e, q) = h (record { selects = w.soft_cs; room = r }) p in
        Outcome-behind (λ _. Q) (txfifo b ∷ []) (record { selects = w.soft_cs; room = r })
          (record { selects = w.soft_cs; room = r' }) _ e (wait_echo-Outcome Q w w.replies r' q)

pub Follows-IsCommand : (b : ℕ) → Follows IsCommand (spi_write_for_response b) (λ _. IsCommand)
unfolding watch_byte
Follows-IsCommand b = Follows-byte IsCommand IsCommand b (λ l p. (l.room, rw (p.0, p.1) refl, p))

pub Follows-IsData : (n b : ℕ) → Follows (IsData (suc n)) (spi_write_for_response b) (λ _. IsData n)
unfolding watch_byte
Follows-IsData n b =
    let z : (suc n == 0) ≡ false = ==_false (suc n) 0 (λ e. omega arith) in
    let k : suc n - 1 ≡ n = omega arith in
    Follows-byte (IsData (suc n)) (IsData n) b
      (λ l p. (n, rw (p.0, p.1, p.2, z, k) refl, (p.0, p.1, refl)))

-- A write of the selects after which they are not both active.
Follows-softcs :
    (P Q : Line → Type 0) (m : Io (Unit {0})) (v : ℕ → ℕ)
    → ((w : Bus) → m w ≡ ok (tt, softcs (v w.soft_cs) ∷ [], record w { soft_cs = v w.soft_cs }))
    → ((s r : ℕ)
        → P (record { selects = s; room = r })
        → ((is_active x_cs (v s) && is_active x_dcs (v s)) ≡ false)
          × Q (record { selects = v s; room = 0 }))
    → Follows P m (λ _. Q)
unfolding watch watch_all
Follows-softcs P Q m v e h = record {
  run = λ w r p. let (apart, q) = h w.soft_cs r p in rw (e w) (0, rw apart refl, q);
}

-- One of the selects set: it is active at the level 0, and the others are as they were.
is_active-cs_value :
    (s cs new_status k : ℕ)
    → cs < 4
    → k < 4
    → is_active k (cs_value s cs new_status) ≡ (if k == cs then new_status == 0 else is_active k s)
unfolding is_active
is_active-cs_value s cs new_status k h low = ground (
  arith,
  bit-cs_value s cs new_status k h (omega arith),
  bit-cs_value s cs new_status (4 + k) h (omega arith),
)

Follows-cs :
    (P Q : Line → Type 0) (cs new_status : ℕ)
    → cs < 4
    → ((s r : ℕ)
        → P (record { selects = s; room = r })
        → ((is_active x_cs (cs_value s cs new_status) && is_active x_dcs (cs_value s cs new_status))
            ≡ false)
          × Q (record { selects = cs_value s cs new_status; room = 0 }))
    → Follows P (spi_set_cs cs new_status) (λ _. Q)
unfolding spi_set_cs
Follows-cs P Q cs new_status low h =
    Follows-softcs P Q (spi_set_cs cs new_status) (λ s. cs_value s cs new_status)
      (λ w. rw (ltb-true cs 4 low) refl) h

pub Follows-control_mode_on : Follows IsIdle control_mode_on (λ _. IsCommand)
unfolding control_mode_on
Follows-control_mode_on =
    Follows-then (spi_set_cs x_cs 0) (λ _. spi_set_cs x_dcs 1)
      (Follows-cs IsIdle IsCommand x_cs 0 (omega arith) (λ s r p.
        rw
          (
            is_active-cs_value s 2 0 2 (omega arith) (omega arith),
            is_active-cs_value s 2 0 1 (omega arith) (omega arith),
            p.1,
          )
          (refl, (refl, refl))))
      (λ _. Follows-cs IsCommand IsCommand x_dcs 1 (omega arith) (λ s r p.
        rw
          (
            is_active-cs_value s 1 1 2 (omega arith) (omega arith),
            is_active-cs_value s 1 1 1 (omega arith) (omega arith),
            p.0,
          )
          (refl, (refl, refl))))

pub Follows-data_mode_on : Follows IsIdle data_mode_on (λ _. IsData 0)
unfolding data_mode_on
Follows-data_mode_on =
    Follows-then (spi_set_cs x_cs 1) (λ _. spi_set_cs x_dcs 0)
      (Follows-cs IsIdle IsIdle x_cs 1 (omega arith) (λ s r p.
        rw
          (
            is_active-cs_value s 2 1 2 (omega arith) (omega arith),
            is_active-cs_value s 2 1 1 (omega arith) (omega arith),
            p.1,
          )
          (refl, (refl, refl))))
      (λ _. Follows-cs IsIdle (IsData 0) x_dcs 0 (omega arith) (λ s r p.
        rw
          (
            is_active-cs_value s 1 0 2 (omega arith) (omega arith),
            is_active-cs_value s 1 0 1 (omega arith) (omega arith),
            p.0,
          )
          (refl, (refl, refl, refl))))

-- `xCs` switched off, and then `xDcs`.
pub Follows-xcs :
    (P : Line → Type 0) → Follows P (spi_set_cs x_cs 1) (λ _ l. is_active x_cs l.selects ≡ false)
Follows-xcs P =
    Follows-cs P (λ l. is_active x_cs l.selects ≡ false) x_cs 1 (omega arith)
      (λ s r p. rw (is_active-cs_value s 2 1 2 (omega arith) (omega arith)) (refl, refl))

pub Follows-xdcs :
    Follows (λ l. is_active x_cs l.selects ≡ false) (spi_set_cs x_dcs 1) (λ _. IsIdle)
Follows-xdcs =
    Follows-cs (λ l. is_active x_cs l.selects ≡ false) IsIdle x_dcs 1 (omega arith)
      (λ s r p.
        rw
          (
            is_active-cs_value s 1 1 2 (omega arith) (omega arith),
            is_active-cs_value s 1 1 1 (omega arith) (omega arith),
            p,
          )
          (refl, (refl, refl)))

pub Follows-csn : (P : Line → Type 0) → Follows P (spi_set_csn 0xff) (λ _. IsIdle)
unfolding spi_set_csn is_active bit
Follows-csn P =
    Follows-softcs P IsIdle (spi_set_csn 0xff) (λ _. 0xff) (λ w. refl)
      (λ s r p. (refl, (refl, refl)))
