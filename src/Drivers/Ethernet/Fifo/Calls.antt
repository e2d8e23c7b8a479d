-- ===== src/Drivers/Ethernet/Fifo/Calls.antt =====
-- The calls on a ring that holds a queue: what they answer, and what the ring holds then.
use losangeles_lakers.Base.{
  ℕ, zero, suc, ◌<◌, ◌≡◌, refl, sym, ◌∙◌, false, ◌==◌, arith, none, some, List, [], ◌∷◌, ◌++◌,
  length, get_elem?, ok, load,
}
use losangeles_lakers.Drivers.Ethernet.{Queue, Frame, set_tx_qptr, get_tx_qptr}
use losangeles_lakers.Drivers.Ethernet.Slots.{Sent, given, done, desc_of, IsFrame}
use losangeles_lakers.Drivers.Ethernet.Ring.{
  posted, reclaimed, set_tx_qptr-free, set_tx_qptr-taken, get_tx_qptr-done, get_tx_qptr-given,
  get_tx_qptr-free,
}
use losangeles_lakers.Drivers.Ethernet.Fifo.{wrap, wrap_lt, Fifo, take_done}
use losangeles_lakers.Drivers.Ethernet.Fifo.Holds.{
  IsSent, Holds, get_elem?-beyond, post-kept, not_free,
}
use losangeles_lakers.Drivers.Ethernet.Fifo.Advance.{reclaim-kept}

-- An entry is there.
get_elem?_ok :
    {A : Type 0} (es : List A) (k : ℕ) → k < length es → (e : A) × (get_elem? es k ≡ some e)
get_elem?_ok [] k h = absurd (omega arith)
get_elem?_ok (e ∷ es) zero h = (e, refl)
get_elem?_ok (e ∷ es) (suc k) h = get_elem?_ok es k (omega arith)

-- The descriptor behind the last frame: a free one, or that of the oldest frame.
pub next_free :
    (size : ℕ) (s : Fifo) (q : Queue)
    → Holds size s q
    → length s.waiting < size
    → load q.desc q.next_desc
      ≡ ok (desc_of (suc (wrap size s.first (length s.waiting)) == size) none)
next_free size s q h room =
    let n = length s.waiting in
    rw h.next_desc (h.loads n room ∙ rw (get_elem?-beyond s.waiting n (omega arith)) refl)

pub next_full :
    (size : ℕ) (s : Fifo) (q : Queue) (e : Sent)
    → Holds size s q
    → length s.waiting ≡ size
    → get_elem? s.waiting 0 ≡ some e
    → load q.desc q.next_desc ≡ ok (desc_of (suc (wrap size s.first 0) == size) (some e))
next_full size s q e h full is =
    let inside = h.inside in
    let back : wrap size s.first (length s.waiting) ≡ wrap size s.first 0 = ground arith in
    rw (h.next_desc, back) (h.loads 0 (omega arith) ∙ rw is refl)

pub set_tx_qptr-room :
    (size : ℕ) (s : Fifo) (q : Queue) (f : Frame)
    → Holds size s q
    → IsFrame q.addr f
    → length s.waiting < size
    → (q' : Queue) × (set_tx_qptr f false q ≡ ok (some (wrap size s.first (length s.waiting)), q'))
      × Holds size (record s { waiting = s.waiting ++ (given f ∷ []) }) q'
      × (q'.addr ≡ q.addr)
set_tx_qptr-room size s q f h fits room =
    let n = length s.waiting in
    let last = suc (wrap size s.first n) == size in
    let below : q.next_desc < length q.desc =
      omega (arith, h.next_desc, h.cells, wrap_lt size s.first n h.inside h.bounded) in
    (
      posted f last q,
      set_tx_qptr-free f q last fits (next_free size s q h room) below ∙ rw h.next refl,
      post-kept size s q f h fits room,
      refl,
    )

pub set_tx_qptr-full :
    (size : ℕ) (s : Fifo) (q : Queue) (f : Frame)
    → Holds size s q
    → length s.waiting ≡ size
    → set_tx_qptr f false q ≡ ok (none, q)
set_tx_qptr-full size s q f h full =
    let (e, is) = get_elem?_ok s.waiting 0 (omega (arith, h.inside)) in
    let last = suc (wrap size s.first 0) == size in
    set_tx_qptr-taken f q last e (not_free q.addr last e (h.frames 0 e is))
      (next_full size s q e h full is)

oldest_loads :
    (size first : ℕ) (es : List Sent) (q : Queue)
    → Holds size (record { first = first; waiting = es }) q
    → (load q.desc q.busy_desc ≡ ok (desc_of (suc first == size) (get_elem? es 0)))
      × (q.busy_desc < length q.desc)
oldest_loads size first es q h =
    let zeroth : wrap size first 0 ≡ first = let inside = h.inside in ground arith in
    (
      rw (h.busy_desc, sym zeroth) (h.loads 0 (omega (arith, h.inside))),
      omega (arith, h.cells, h.busy_desc, h.inside),
    )

pub get_tx_qptr-Holds :
    (size first : ℕ) (es : List Sent) (q : Queue)
    → Holds size (record { first = first; waiting = es }) q
    → (q' : Queue) × (get_tx_qptr q ≡ ok ((take_done size first es).0, q'))
      × Holds size (take_done size first es).1 q'
      × (q'.addr ≡ q.addr)
unfolding take_done IsSent
get_tx_qptr-Holds size first [] q h =
    let (loads, below) = oldest_loads size first [] q h in
    (q, get_tx_qptr-free q (suc first == size) loads, h, refl)
get_tx_qptr-Holds size first (given f ∷ es) q h =
    let (loads, below) = oldest_loads size first (given f ∷ es) q h in
    (q, get_tx_qptr-given f q (suc first == size) loads, h, refl)
get_tx_qptr-Holds size first (done f st ∷ es) q h =
    let (loads, below) = oldest_loads size first (done f st ∷ es) q h in
    let last = suc first == size in
    let zeroth : wrap size first 0 ≡ first = let inside = h.inside in ground arith in
    let (fits, status) = rw zeroth at (h.frames 0 (done f st) refl) in
    (
      reclaimed last q,
      get_tx_qptr-done f st q last fits status loads below ∙ rw h.busy refl,
      reclaim-kept size first (done f st) es q h,
      refl,
    )
