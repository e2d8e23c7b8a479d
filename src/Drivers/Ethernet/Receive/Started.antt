-- ===== src/Drivers/Ethernet/Receive/Started.antt =====
-- A receiver that was started, and what it hands over from then on.
use losangeles_lakers.Base.{
  ℕ, zero, suc, ◌<◌, ◌≡◌, refl, ◌==◌, ==_false, ==_suc, map, List, ok, load, arith,
}
use losangeles_lakers.Drivers.Ethernet.Receive.{rx_desc_init_ring}
use losangeles_lakers.Drivers.Ethernet.Receive.Listens.{listening}
use losangeles_lakers.Drivers.Ethernet.Receive.Turns.{Line, Listens}
use losangeles_lakers.Drivers.Ethernet.Receive.{rx_init_descs}

pub load-rx_init_descs :
    (n k : ℕ) → k < n → load (rx_init_descs n) k ≡ ok (rx_desc_init_ring (suc k == n))
unfolding rx_init_descs
load-rx_init_descs zero k h = absurd (omega arith)
load-rx_init_descs (suc zero) zero h = refl
load-rx_init_descs (suc zero) (suc k) h = absurd (omega arith)
load-rx_init_descs (suc (suc n)) zero h = rw (==_false 1 (suc (suc n)) (omega arith)) refl
load-rx_init_descs (suc (suc n)) (suc k) h =
    rw (==_suc (suc k) (suc n)) (load-rx_init_descs (suc n) k (omega arith))

-- The line of buffers in which nothing was heard.
abbrev pub silent : List ℕ → Line
silent skbs = record { place = 0; slots = map listening skbs }
