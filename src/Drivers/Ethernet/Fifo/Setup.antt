-- ===== src/Drivers/Ethernet/Fifo/Setup.antt =====
-- The queue that is set up holds no frame, and from there on the ring does what the queue does.
use losangeles_lakers.Base.{
  ℕ, zero, suc, ◌^◌, ◌<◌, ◌≡◌, refl, ap, ◌==◌, arith, none, List, [], length, ok, load, ==_false,
  ==_suc, ==_false,
}
use losangeles_lakers.Drivers.Ethernet.{setup_tx_desc_queue, init_descs, Queue}
use losangeles_lakers.Drivers.Ethernet.Slots.{desc_of}
use losangeles_lakers.Drivers.Ethernet.Ring.{}
use losangeles_lakers.Drivers.Ethernet.Fifo.{wrap, Fifo}
use losangeles_lakers.Drivers.Ethernet.Fifo.{Op, run, fifo_run, AllAllowed}
use losangeles_lakers.Drivers.Ethernet.Fifo.Holds.{Holds}
use losangeles_lakers.Drivers.Ethernet.Fifo.Refinement.{run-Holds}

load-init_descs : (n k : ℕ) → k < n → load (init_descs n) k ≡ ok (desc_of (suc k == n) none)
unfolding init_descs desc_of
load-init_descs zero k h = absurd (omega arith)
load-init_descs (suc zero) zero h = refl
load-init_descs (suc zero) (suc k) h = absurd (omega arith)
load-init_descs (suc (suc n)) zero h = rw (==_false 1 (suc (suc n)) (omega arith)) refl
load-init_descs (suc (suc n)) (suc k) h =
    rw (==_suc (suc k) (suc n)) (load-init_descs (suc n) k (omega arith))

length-init_descs : (n : ℕ) → length (init_descs n) ≡ n
unfolding init_descs
length-init_descs zero = refl
length-init_descs (suc zero) = refl
length-init_descs (suc (suc n)) = ap suc (length-init_descs (suc n))

abbrev pub no_frames : Fifo
no_frames = record { first = 0; waiting = [] }

pub setup-Holds :
    (size addr : ℕ)
    → 0 < size
    → size < 2 ^ 31
    → Holds size no_frames (setup_tx_desc_queue addr size)
unfolding setup_tx_desc_queue
setup-Holds size addr cell small =
    let zeroth : 0 ≡ wrap size 0 0 = ground arith in
    record {
      cells = length-init_descs size;
      small = small;
      bounded = omega arith;
      inside = cell;
      busy = refl;
      busy_desc = refl;
      next = zeroth;
      next_desc = zeroth;
      count = refl;
      loads = λ k below.
          let same : wrap size 0 k ≡ k = ground arith in rw same (load-init_descs size k below);
      frames = λ k e is. absurd cc;
    }

-- A ring of 1 to 2 ^ 31 - 1 descriptors that was set up, and any sequence of calls of `set_tx_qptr`
-- with frames that fit, of calls of `get_tx_qptr`, and of the device's work on frames that it was
-- given, in any order: no access leaves the ring, each call answers as the same operation on a
-- queue of at most that many frames does, with the same place in the ring, and the count of the
-- busy descriptors is the length of the queue.
pub tx_ring-fifo :
    (size addr : ℕ) (ops : List Op)
    → 0 < size
    → size < 2 ^ 31
    → AllAllowed size addr ops no_frames
    → (q : Queue) × (run ops (setup_tx_desc_queue addr size)
        ≡ ok ((fifo_run size ops no_frames).0, q))
      × (q.busy_count ≡ length (fifo_run size ops no_frames).1.waiting)
unfolding setup_tx_desc_queue
tx_ring-fifo size addr ops cell small allowed =
    let (q, runs, held) =
      run-Holds size ops no_frames (setup_tx_desc_queue addr size)
        (setup-Holds size addr cell small) allowed in
    (q, runs, held.count)
