-- ===== src/Drivers/Ethernet/Fifo.antt =====
-- What the ring of descriptors is for: a queue of at most `size` frames, which the device works on
-- in its own time, and which leave the queue in order.
pub mod Holds
pub mod Advance
pub mod Calls
pub mod Refinement
pub mod Setup
use losangeles_lakers.Base.{
  ℕ, zero, suc, ◌+◌, ◌-◌, ◌*◌, ◌<◌, ◌≤◌, ◌≡◌, ◌≢◌, refl, Bool, true, false, ◌==◌, ltb,
  if◌then◌else◌, arith, Option, none, some, List, [], ◌∷◌, ◌++◌, length, get_elem?, ◌∙◌, Result, ok,
  load, store, ◌>>=◌,
}
use losangeles_lakers.Drivers.Ethernet.{
  DmaDesc, Queue, Frame, Done, following, set_tx_qptr, get_tx_qptr,
}
use losangeles_lakers.Drivers.Ethernet.Slots.{Sent, given, done, IsFrame, IsStatus}

-- The place `k` behind `first` in the ring.
abbrev pub wrap : ℕ → ℕ → ℕ → ℕ
wrap size first k = if ltb (first + k) size then first + k else first + k - size

-- A frame to send, the device's work on the frame `k` behind the oldest one, a look for a frame that
-- is done.
pub data Op : Type 0 where
  post : Frame → Op
  finish : ℕ → ℕ → Op
  reclaim : Op

pub data Out : Type 0 where
  sent : Option ℕ → Out
  worked : Out
  returned : Option Done → Out

-- On the ring.
unfoldable pub complete : ℕ → ℕ → Queue → Result Queue
complete place st q = do
  d ← load q.desc place
  desc' ← store q.desc place (record d { status = st })
  ok (record q { desc = desc' })

unfoldable pub step : Op → Queue → Result (Out × Queue)
step (post f) q = set_tx_qptr f false q >>= λ r. ok (sent r.0, r.1)
step (finish k st) q = complete (wrap (length q.desc) q.busy k) st q >>= λ q'. ok (worked, q')
step reclaim q = get_tx_qptr q >>= λ r. ok (returned r.0, r.1)

unfoldable pub run : List Op → Queue → Result (List Out × Queue)
run [] q = ok ([], q)
run (op ∷ ops) q = step op q >>= λ r. run ops r.1 >>= λ rs. ok (r.0 ∷ rs.0, rs.1)

-- On a list, with the place of its first frame.
pub record Fifo : Type 0 where
  pub first : ℕ
  pub waiting : List Sent

unfoldable pub finish_at : ℕ → ℕ → List Sent → List Sent
finish_at k st [] = []
finish_at zero st (given f ∷ es) = done f st ∷ es
finish_at zero st (done f old ∷ es) = done f old ∷ es
finish_at (suc k) st (e ∷ es) = e ∷ finish_at k st es

unfoldable pub take_done : ℕ → ℕ → List Sent → Option Done × Fifo
take_done size first (done f st ∷ es) = (
  some (record { index = first; status = st; frame = f }),
  record { first = wrap size first 1; waiting = es },
)
take_done size first es = (none, record { first = first; waiting = es })

unfoldable pub fifo_step : ℕ → Op → Fifo → Out × Fifo
fifo_step size (post f) s =
    if ltb (length s.waiting) size
    then (
      sent (some (wrap size s.first (length s.waiting))),
      record s { waiting = s.waiting ++ (given f ∷ []) },
    )
    else (sent none, s)
fifo_step size (finish k st) s = (worked, record s { waiting = finish_at k st s.waiting })
fifo_step size reclaim s = let r = take_done size s.first s.waiting in (returned r.0, r.1)

unfoldable pub fifo_run : ℕ → List Op → Fifo → List Out × Fifo
fifo_run size [] s = ([], s)
fifo_run size (op ∷ ops) s =
    let r = fifo_step size op s in let rs = fifo_run size ops r.1 in (r.0 ∷ rs.0, rs.1)

-- Frames that fit, and a device that finishes what it was given.
unfoldable pub Allowed : ℕ → ℕ → Op → Fifo → Type 0
Allowed size addr (post f) s = IsFrame addr f
Allowed size addr (finish k st) s =
    (f : Frame) × (get_elem? s.waiting k ≡ some (given f))
    × IsStatus (suc (wrap size s.first k) == size) st
Allowed size addr reclaim s = Unit

unfoldable pub AllAllowed : ℕ → ℕ → List Op → Fifo → Type 0
AllAllowed size addr [] s = Unit
AllAllowed size addr (op ∷ ops) s =
    Allowed size addr op s × AllAllowed size addr ops (fifo_step size op s).1

pub wrap_lt : (size b k : ℕ) → b < size → k ≤ size → wrap size b k < size
wrap_lt size b k h j = ground arith

pub wrap_apart : (size b k j : ℕ) → k < size → j < size → k ≢ j → wrap size b k ≢ wrap size b j
wrap_apart size b k j h i apart e = apart (ground arith)

following_if : (last : Bool) (i : ℕ) → following last i ≡ (if last then 0 else i + 1)
following_if true i = refl
following_if false i = refl

pub following-wrap : (size i : ℕ) → i < size → following (suc i == size) i ≡ wrap size i 1
following-wrap size i h = following_if (suc i == size) i ∙ ground arith

pub wrap_next :
    (size b n : ℕ) → b < size → n < size → wrap size (wrap size b n) 1 ≡ wrap size b (suc n)
wrap_next size b n h k = ground arith

pub wrap_first :
    (size b n : ℕ) → b < size → n < size → wrap size (wrap size b 1) n ≡ wrap size b (suc n)
wrap_first size b n h k = ground arith
