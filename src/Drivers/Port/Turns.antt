-- ===== src/Drivers/Port/Turns.antt =====
-- What a device replies while the controller sends it a byte or stops.
use losangeles_lakers.Base.{
  ℕ, ◌≡◌, refl, Bool, true, false, List, [], ◌∷◌, ◌++◌, All, replicate, length, ok,
}
use losangeles_lakers.Drivers.Port.{
  Write, cr, cr_stop, no_tip, not_busy, acked, wait_tip, ls2k_i2c_stop,
}

-- The statuses read while a byte is on the wire, the first status after it, and the one in which
-- its acknowledgement is tested.
pub record Turn : Type 0 where
  pub busy : List ℕ
  pub done : ℕ
  pub ack : ℕ

pub record IsTurn (t : Turn) : Type 0 where
  pub waits : All (λ s. no_tip s ≡ false) t.busy
  pub over : no_tip t.done ≡ true

abbrev pub replies_of : Turn → List ℕ
replies_of t = t.busy ++ (t.done ∷ t.ack ∷ [])

-- The device answers every byte, and acknowledges it or not.
pub record IsAnswer (answer : Bool) (t : Turn) : Type 0 where
  pub turn : IsTurn t
  pub bit : acked t.ack ≡ answer

-- The statuses that a stop reads: two for each attempt, of which the second tells when it is over.
pub record Stop : Type 0 where
  pub again : List (ℕ × ℕ)
  pub first : ℕ
  pub last : ℕ

pub record IsStop (s : Stop) : Type 0 where
  pub waits : All (λ (r, b). not_busy b ≡ false) s.again
  pub over : not_busy s.last ≡ true

abbrev pub pairs : List (ℕ × ℕ) → List ℕ
pairs [] = []
pairs ((r, b) ∷ xs) = r ∷ b ∷ pairs xs

abbrev pub stop_replies : Stop → List ℕ
stop_replies s = pairs s.again ++ (s.first ∷ s.last ∷ [])

-- The stop commands that it takes.
abbrev pub stops : Stop → List Write
stops s = replicate (length s.again) (cr cr_stop) ++ (cr cr_stop ∷ [])

pub wait_tip-done :
    (busy : List ℕ) (done : ℕ) (rest : List ℕ)
    → All (λ s. no_tip s ≡ false) busy
    → no_tip done ≡ true
    → wait_tip (busy ++ (done ∷ rest)) ≡ ok (tt, [], rest)
unfolding wait_tip
wait_tip-done [] done rest waits over = rw over refl
wait_tip-done (s ∷ busy) done rest waits over =
    rw waits.0 (wait_tip-done busy done rest waits.1 over)

pub ls2k_i2c_stop-stops :
    (s : Stop) (rest : List ℕ)
    → IsStop s
    → ls2k_i2c_stop (stop_replies s ++ rest) ≡ ok (tt, stops s, rest)
unfolding ls2k_i2c_stop
ls2k_i2c_stop-stops s rest h = go s.again h.waits
  where
    go :
        (again : List (ℕ × ℕ))
        → All (λ (r, b). not_busy b ≡ false) again
        → ls2k_i2c_stop ((pairs again ++ (s.first ∷ s.last ∷ [])) ++ rest)
          ≡ ok (tt, replicate (length again) (cr cr_stop) ++ (cr cr_stop ∷ []), rest)
    go [] waits = rw h.over refl
    go ((r, b) ∷ again) waits = rw (waits.0, go again waits.1) refl
