-- ===== src/Drivers/Ethernet/Send/Drained.antt =====
-- The frames that a call takes out of the queue, and what it counts of them.
use losangeles_lakers.Base.{ℕ, zero, suc, ◌<◌, ◌≡◌, refl, arith, List, [], ◌∷◌, length, ok}
use losangeles_lakers.Drivers.Ethernet.{Queue, Done}
use losangeles_lakers.Drivers.Ethernet.Slots.{Sent, given, done}
use losangeles_lakers.Drivers.Ethernet.Fifo.{Fifo, wrap, take_done}
use losangeles_lakers.Drivers.Ethernet.Fifo.Holds.{Holds}
use losangeles_lakers.Drivers.Ethernet.Fifo.Calls.{get_tx_qptr-Holds}
use losangeles_lakers.Drivers.Ethernet.Send.{Stats, account, collide, reclaim_all}

-- The oldest frames, as long as the device is done with them, and the queue without them.
unfoldable pub drained : ℕ → ℕ → List Sent → List Done × Fifo
drained size first (done f st ∷ es) =
    let r = drained size (wrap size first 1) es in
    (record { index = first; status = st; frame = f } ∷ r.0, r.1)
drained size first es = ([], record { first = first; waiting = es })

-- Every status is counted once, and then the last one again.
unfoldable pub tally : ℕ → List Done → Stats → Stats
tally status [] s = collide status s
tally status (d ∷ ds) s = tally d.status ds (collide d.status (account d s))

pub reclaim_all-drained :
    (size first fuel status : ℕ) (es : List Sent) (s : Stats) (q : Queue)
    → Holds size (record { first = first; waiting = es }) q
    → length es < fuel
    → (q' : Queue) × (reclaim_all fuel status s q
        ≡ ok (tally status (drained size first es).0 s, q'))
      × Holds size (drained size first es).1 q'
unfolding reclaim_all drained tally take_done
reclaim_all-drained size first zero status es s q h enough = absurd (omega arith)
reclaim_all-drained size first (suc fuel) status [] s q h enough =
    let (q', gets, kept, same) = get_tx_qptr-Holds size first [] q h in rw gets (q', refl, kept)
reclaim_all-drained size first (suc fuel) status (given f ∷ es) s q h enough =
    let (q', gets, kept, same) = get_tx_qptr-Holds size first (given f ∷ es) q h in
    rw gets (q', refl, kept)
reclaim_all-drained size first (suc fuel) status (done f st ∷ es) s q h enough =
    let (q', gets, kept, same) = get_tx_qptr-Holds size first (done f st ∷ es) q h in
    let d : Done = record { index = first; status = st; frame = f } in
    let (q2, runs, held) =
      reclaim_all-drained size (wrap size first 1) fuel st es (collide st (account d s)) q' kept
        (omega arith) in
    rw (gets, runs) (q2, refl, held)
