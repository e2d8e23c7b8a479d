-- ===== src/Drivers/Ethernet/Fifo/Refinement.antt =====
-- The calls on the ring answer as those on the queue do.
use native.Mathlib.Decide.{dec_lt}
use losangeles_lakers.Base.{
  ℕ, zero, suc, ◌<◌, ◌≡◌, refl, ◌∙◌, Bool, ◌==◌, arith, some, List, [], ◌∷◌, length, get_elem?, ok,
  load, put, store-put, ltb-true, ltb-false,
}
use losangeles_lakers.Drivers.Ethernet.{Queue, Frame}
use losangeles_lakers.Drivers.Ethernet.Slots.{given, done, desc_of, IsFrame}
use losangeles_lakers.Drivers.Ethernet.Ring.{}
use losangeles_lakers.Drivers.Ethernet.Fifo.{wrap, wrap_lt, Fifo, complete}
use losangeles_lakers.Drivers.Ethernet.Fifo.{
  Op, post, finish, reclaim, step, run, fifo_step, fifo_run, Allowed, AllAllowed,
}
use losangeles_lakers.Drivers.Ethernet.Fifo.Holds.{Holds}
use losangeles_lakers.Drivers.Ethernet.Fifo.Advance.{finish-kept}
use losangeles_lakers.Drivers.Ethernet.Fifo.Calls.{
  set_tx_qptr-room, set_tx_qptr-full, get_tx_qptr-Holds,
}

Follows : ℕ → ℕ → Op → Fifo → Queue → Type 0
Follows size addr op s q =
    (q' : Queue) × (step op q ≡ ok ((fifo_step size op s).0, q'))
    × Holds size (fifo_step size op s).1 q'
    × (q'.addr ≡ addr)

get_elem?_lt : {A : Type 0} (es : List A) (k : ℕ) (e : A) → get_elem? es k ≡ some e → k < length es
get_elem?_lt [] k e is = absurd cc
get_elem?_lt (x ∷ es) zero e is = omega arith
get_elem?_lt (x ∷ es) (suc k) e is = omega (arith, get_elem?_lt es k e is)

given-finished :
    (last : Bool) (f : Frame) (st : ℕ)
    → record (desc_of last (some (given f))) { status = st } ≡ desc_of last (some (done f st))
unfolding desc_of
given-finished last f st = refl

post-Follows :
    (size : ℕ) (s : Fifo) (q : Queue) (f : Frame)
    → Holds size s q
    → IsFrame q.addr f
    → Follows size q.addr (post f) s q
unfolding Follows step fifo_step
post-Follows size s q f h fits =
    let n = length s.waiting in
    elim (dec_lt n size) [
      | yes room ↦
          let (q', sets, kept, same) = set_tx_qptr-room size s q f h fits room in
          rw (ltb-true n size room, sets) (q', refl, kept, same)
      | no full ↦
          let all : n ≡ size = omega (arith, h.bounded) in
          rw (ltb-false n size (omega arith), set_tx_qptr-full size s q f h all) (q, refl, h, refl)
    ]

complete-ok :
    (q : Queue) (p st : ℕ) (last : Bool) (f : Frame)
    → load q.desc p ≡ ok (desc_of last (some (given f)))
    → p < length q.desc
    → complete p st q ≡ ok (record q { desc = put q.desc p (desc_of last (some (done f st))) })
unfolding complete
complete-ok q p st last f loads below =
    rw (loads, given-finished last f st, store-put q.desc p (desc_of last (some (done f st))) below)
      refl

finish-Follows :
    (size : ℕ) (s : Fifo) (q : Queue) (k st : ℕ)
    → Holds size s q
    → Allowed size q.addr (finish k st) s
    → Follows size q.addr (finish k st) s q
unfolding Follows step fifo_step Allowed
finish-Follows size s q k st h (f, is, status) =
    let small : k < size = omega (arith, get_elem?_lt s.waiting k (given f) is, h.bounded) in
    let p = wrap size s.first k in
    let last = suc p == size in
    let loads : load q.desc p ≡ ok (desc_of last (some (given f))) = h.loads k small ∙ rw is refl in
    let below : p < length q.desc =
      omega (arith, h.cells, wrap_lt size s.first k h.inside (omega arith)) in
    let place : wrap (length q.desc) q.busy k ≡ p = rw (h.cells, h.busy) in
    rw (place, complete-ok q p st last f loads below)
      (
        record q { desc = put q.desc p (desc_of last (some (done f st))) },
        refl,
        finish-kept size s q k st f h small is status,
        refl,
      )

reclaim-Follows :
    (size : ℕ) (s : Fifo) (q : Queue) → Holds size s q → Follows size q.addr reclaim s q
unfolding Follows step fifo_step
reclaim-Follows size s q h =
    let (q', gets, kept, same) = get_tx_qptr-Holds size s.first s.waiting q h in
    rw gets (q', refl, kept, same)

step-Follows :
    (size : ℕ) (op : Op) (s : Fifo) (q : Queue)
    → Holds size s q
    → Allowed size q.addr op s
    → Follows size q.addr op s q
unfolding Allowed
step-Follows size (post f) s q h allowed = post-Follows size s q f h allowed
step-Follows size (finish k st) s q h allowed = finish-Follows size s q k st h allowed
step-Follows size reclaim s q h allowed = reclaim-Follows size s q h

pub run-Holds :
    (size : ℕ) (ops : List Op) (s : Fifo) (q : Queue)
    → Holds size s q
    → AllAllowed size q.addr ops s
    → (q' : Queue) × (run ops q ≡ ok ((fifo_run size ops s).0, q'))
      × Holds size (fifo_run size ops s).1 q'
unfolding run fifo_run AllAllowed Follows
run-Holds size [] s q h allowed = (q, refl, h)
run-Holds size (op ∷ ops) s q h (here, rest) =
    let (q1, steps, kept, same) = step-Follows size op s q h here in
    let (q2, runs, held) = run-Holds size ops (fifo_step size op s).1 q1 kept (rw same rest) in
    rw (steps, runs) (q2, refl, held)
