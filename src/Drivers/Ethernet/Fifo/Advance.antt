-- ===== src/Drivers/Ethernet/Fifo/Advance.antt =====
-- The ring still holds the queue when its oldest frame is taken out of it, and when the device has
-- worked on a frame.
use native.Mathlib.Decide.{dec_lt}
use losangeles_lakers.Base.{
  ℕ, zero, suc, ◌<◌, ◌≡◌, ◌≢◌, refl, sym, ap, ◌∙◌, ◌==◌, arith, Option, none, some, List, [], ◌∷◌,
  length, get_elem?, put, length-put, inl, inr, ==_cases,
}
use losangeles_lakers.Drivers.Ethernet.{DmaDesc, Queue, Frame}
use losangeles_lakers.Drivers.Ethernet.Slots.{Sent, given, done, desc_of, IsStatus}
use losangeles_lakers.Drivers.Ethernet.Ring.{reclaimed}
use losangeles_lakers.Drivers.Ethernet.Fifo.{
  wrap, wrap_lt, wrap_first, following-wrap, Fifo, finish_at,
}
use losangeles_lakers.Drivers.Ethernet.Fifo.Holds.{
  IsSent, Shows, Fits, Holds, get_elem?-beyond, put-Shows, put-Fits,
}

-- The oldest frame leaves: its descriptor is free, and is now the last one.
abbrev freed : List Sent → ℕ → Option Sent
freed es zero = none
freed es (suc k) = get_elem? es k

freed-other : (e : Sent) (es : List Sent) (k : ℕ) → k ≢ 0 → freed es k ≡ get_elem? (e ∷ es) k
freed-other e es zero h = absurd (h refl)
freed-other e es (suc k) h = refl

wrap_zero : (size first : ℕ) → first < size → wrap size first 0 ≡ first
wrap_zero size first h = ground arith

wrap_all : (size first : ℕ) → first < size → wrap size first size ≡ first
wrap_all size first h = ground arith

Shows-shift :
    (size first : ℕ) (xs : List DmaDesc) (es : List Sent)
    → first < size
    → length es < size
    → Shows size first xs (freed es)
    → Shows size (wrap size first 1) xs (get_elem? es)
Shows-shift size first xs es inside room shows k small = elim (==_cases (suc k) size) [
  | inl i ↦
      let back : wrap size (wrap size first 1) k ≡ wrap size first 0 =
        wrap_first size first k inside small
        ∙ ap (wrap size first) i
        ∙ wrap_all size first inside
        ∙ sym (wrap_zero size first inside) in
      rw (back, get_elem?-beyond es k (omega arith)) (shows 0 (omega arith))
  | inr i ↦ rw (wrap_first size first k inside small) (shows (suc k) (ground arith))
]

Fits-shift :
    (size first addr : ℕ) (e : Sent) (es : List Sent)
    → first < size
    → length es < size
    → Fits size first addr (get_elem? (e ∷ es))
    → Fits size (wrap size first 1) addr (get_elem? es)
Fits-shift size first addr e es inside room fits k x is = elim (dec_lt k size) [
  | yes small ↦ rw (wrap_first size first k inside small) (fits (suc k) x is)
  | no big ↦ let nothing : none ≡ some x = sym (get_elem?-beyond es k (omega arith)) ∙ is in cc
]

pub reclaim-kept :
    (size first : ℕ) (e : Sent) (es : List Sent) (q : Queue)
    → Holds size (record { first = first; waiting = e ∷ es }) q
    → Holds size
        (record { first = wrap size first 1; waiting = es })
        (reclaimed (suc first == size) q)
reclaim-kept size first e es q h =
    let n = length es in
    let d = desc_of (suc first == size) none in
    let zeroth = wrap_zero size first h.inside in
    let written : Shows size first (put q.desc first d) (freed es) = rw zeroth at (
      put-Shows size first q.desc (get_elem? (e ∷ es)) (freed es) 0 none h.cells h.inside
        (omega (arith, h.inside)) h.loads refl (freed-other e es)) in
    let room : length es < size = omega (arith, h.bounded) in
    let shown = Shows-shift size first (put q.desc first d) es h.inside room written in
    let next = following-wrap size first h.inside in
    record {
      cells = length-put q.desc q.busy_desc d ∙ h.cells;
      small = h.small;
      bounded = omega (arith, room);
      inside = wrap_lt size first 1 h.inside (omega (arith, h.inside));
      busy = rw h.busy next;
      busy_desc = rw h.busy_desc next;
      next = h.next ∙ sym (wrap_first size first n h.inside room);
      next_desc = h.next_desc ∙ sym (wrap_first size first n h.inside room);
      count = omega (arith, h.count, room, h.small);
      loads = rw h.busy_desc shown;
      frames = Fits-shift size first q.addr e es h.inside room h.frames;
    }

-- The device has worked on a frame.
finish_at-here :
    (k st : ℕ) (es : List Sent) (f : Frame)
    → get_elem? es k ≡ some (given f)
    → get_elem? (finish_at k st es) k ≡ some (done f st)
unfolding finish_at
finish_at-here k st [] f h = cc
finish_at-here zero st (given g ∷ es) f h = let same : g ≡ f = cc in rw same
finish_at-here zero st (done g t ∷ es) f h = cc
finish_at-here (suc k) st (e ∷ es) f h = finish_at-here k st es f h

finish_at-other :
    (k st : ℕ) (es : List Sent) (j : ℕ) → j ≢ k → get_elem? (finish_at k st es) j ≡ get_elem? es j
unfolding finish_at
finish_at-other k st [] j h = refl
finish_at-other zero st (given g ∷ es) zero h = absurd (h refl)
finish_at-other zero st (given g ∷ es) (suc j) h = refl
finish_at-other zero st (done g t ∷ es) j h = refl
finish_at-other (suc k) st (e ∷ es) zero h = refl
finish_at-other (suc k) st (e ∷ es) (suc j) h = finish_at-other k st es j (λ i. h (omega arith))

length-finish_at : (k st : ℕ) (es : List Sent) → length (finish_at k st es) ≡ length es
unfolding finish_at
length-finish_at k st [] = refl
length-finish_at zero st (given g ∷ es) = refl
length-finish_at zero st (done g t ∷ es) = refl
length-finish_at (suc k) st (e ∷ es) = ap suc (length-finish_at k st es)

pub finish-kept :
    (size : ℕ) (s : Fifo) (q : Queue) (k st : ℕ) (f : Frame)
    → Holds size s q
    → k < size
    → get_elem? s.waiting k ≡ some (given f)
    → IsStatus (suc (wrap size s.first k) == size) st
    → Holds size
        (record s { waiting = finish_at k st s.waiting })
        (record q {
          desc =
              put q.desc
                (wrap size s.first k)
                (desc_of (suc (wrap size s.first k) == size) (some (done f st)));
        })
unfolding IsSent
finish-kept size s q k st f h small is status =
    let es = finish_at k st s.waiting in
    let long = length-finish_at k st s.waiting in
    let d = desc_of (suc (wrap size s.first k) == size) (some (done f st)) in
    let here = finish_at-here k st s.waiting f is in
    let rest = finish_at-other k st s.waiting in
    record {
      cells = length-put q.desc (wrap size s.first k) d ∙ h.cells;
      small = h.small;
      bounded = omega (arith, long, h.bounded);
      inside = h.inside;
      busy = h.busy;
      busy_desc = h.busy_desc;
      next = rw long h.next;
      next_desc = rw long h.next_desc;
      count = h.count ∙ sym long;
      loads =
          put-Shows size s.first q.desc (get_elem? s.waiting) (get_elem? es) k (some (done f st))
            h.cells h.inside small h.loads here rest;
      frames =
          put-Fits size s.first q.addr (get_elem? s.waiting) (get_elem? es) k (done f st) h.frames
            here (h.frames k (given f) is, status) rest;
    }
