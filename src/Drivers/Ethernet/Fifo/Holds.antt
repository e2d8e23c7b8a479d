-- ===== src/Drivers/Ethernet/Fifo/Holds.antt =====
-- The ring holds the frames of the queue in its descriptors, from the oldest one on, and every call
-- keeps that.
use losangeles_lakers.Base.{
  ℕ, zero, suc, ◌^◌, ◌<◌, ◌≤◌, ◌≡◌, ◌≢◌, refl, sym, ap, ◌∙◌, Bool, false, ◌==◌, arith, Option, none,
  some, List, [], ◌∷◌, ◌++◌, length, get_elem?, ok, load, put, length-put, load-put, load-put_other,
  length-append, inl, inr, ==_cases,
}
use losangeles_lakers.Drivers.Ethernet.{is_desc_empty, DmaDesc, Queue, Frame, following}
use losangeles_lakers.Drivers.Ethernet.Slots.{
  Sent, given, done, desc_of, IsFrame, IsStatus, given-not_empty, done-not_empty,
}
use losangeles_lakers.Drivers.Ethernet.Ring.{posted}
use losangeles_lakers.Drivers.Ethernet.Fifo.{
  wrap, wrap_lt, wrap_apart, wrap_next, following-wrap, Fifo,
}

-- A frame that is rightly in the descriptor.
unfoldable pub IsSent : ℕ → Bool → Sent → Type 0
IsSent addr last (given f) = IsFrame addr f
IsSent addr last (done f st) = IsFrame addr f × IsStatus last st

-- What the descriptors hold, by their places behind the first one.
abbrev pub Shows : ℕ → ℕ → List DmaDesc → (ℕ → Option Sent) → Type 0
Shows size first desc at =
    (k : ℕ)
    → k < size
    → load desc (wrap size first k) ≡ ok (desc_of (suc (wrap size first k) == size) (at k))

-- What is in the descriptors fits them.
abbrev pub Fits : ℕ → ℕ → ℕ → (ℕ → Option Sent) → Type 0
Fits size first addr at =
    (k : ℕ) (e : Sent) → at k ≡ some e → IsSent addr (suc (wrap size first k) == size) e

pub record Holds (size : ℕ) (s : Fifo) (q : Queue) : Type 0 where
  pub cells : length q.desc ≡ size
  pub small : size < 2 ^ 31
  pub bounded : length s.waiting ≤ size
  pub inside : s.first < size
  pub busy : q.busy ≡ s.first
  pub busy_desc : q.busy_desc ≡ s.first
  pub next : q.next ≡ wrap size s.first (length s.waiting)
  pub next_desc : q.next_desc ≡ wrap size s.first (length s.waiting)
  pub count : q.busy_count ≡ length s.waiting
  pub loads : Shows size s.first q.desc (get_elem? s.waiting)
  pub frames : Fits size s.first q.addr (get_elem? s.waiting)

module _ {A : Type 0} where
  pub get_elem?-beyond : (es : List A) (k : ℕ) → length es ≤ k → get_elem? es k ≡ none
  get_elem?-beyond [] k h = refl
  get_elem?-beyond (e ∷ es) zero h = absurd (omega arith)
  get_elem?-beyond (e ∷ es) (suc k) h = get_elem?-beyond es k (omega arith)

  pub get_elem?-last : (es : List A) (e : A) → get_elem? (es ++ (e ∷ [])) (length es) ≡ some e
  get_elem?-last [] e = refl
  get_elem?-last (x ∷ es) e = get_elem?-last es e

  pub get_elem?-other :
      (es : List A) (e : A) (k : ℕ) → k ≢ length es → get_elem? (es ++ (e ∷ [])) k ≡ get_elem? es k
  get_elem?-other [] e zero h = absurd (h refl)
  get_elem?-other [] e (suc k) h = refl
  get_elem?-other (x ∷ es) e zero h = refl
  get_elem?-other (x ∷ es) e (suc k) h = get_elem?-other es e k (λ j. h (omega arith))

pub not_free :
    (addr : ℕ) (last : Bool) (e : Sent)
    → IsSent addr last e
    → is_desc_empty (desc_of last (some e)) ≡ false
unfolding IsSent
not_free addr last (given f) h = given-not_empty last f addr h
not_free addr last (done f st) h = done-not_empty last f st addr h.0

-- A descriptor is written.
pub put-Shows :
    (size first : ℕ) (xs : List DmaDesc) (at now : ℕ → Option Sent) (j : ℕ) (e : Option Sent)
    → length xs ≡ size
    → first < size
    → j < size
    → Shows size first xs at
    → now j ≡ e
    → ((k : ℕ) → k ≢ j → now k ≡ at k)
    → Shows size first
        (put xs (wrap size first j) (desc_of (suc (wrap size first j) == size) e))
        now
put-Shows size first xs at now j e cells inside below shows here same k small =
    let p = wrap size first j in
    let d = desc_of (suc p == size) e in
    elim (==_cases k j) [
      | inl i ↦
          rw (i, here) (load-put xs p d (omega (arith, wrap_lt size first j inside (omega arith))))
      | inr i ↦
          let apart : k ≢ j = ground arith in
          rw (same k apart) (
            load-put_other xs p d (wrap size first k) (wrap_apart size first k j small below apart)
            ∙ shows k small)
    ]

pub put-Fits :
    (size first addr : ℕ) (at now : ℕ → Option Sent) (j : ℕ) (e : Sent)
    → Fits size first addr at
    → now j ≡ some e
    → IsSent addr (suc (wrap size first j) == size) e
    → ((k : ℕ) → k ≢ j → now k ≡ at k)
    → Fits size first addr now
put-Fits size first addr at now j e fits here new same k x is = elim (==_cases k j) [
  | inl i ↦
      let same_place : some e ≡ some x = sym here ∙ ap now (sym i) ∙ is in
      let both : e ≡ x = cc in rw (i, sym both) new
  | inr i ↦ let apart : k ≢ j = ground arith in fits k x (sym (same k apart) ∙ is)
]

-- A frame is put into the free descriptor behind the last one.
pub post-kept :
    (size : ℕ) (s : Fifo) (q : Queue) (f : Frame)
    → Holds size s q
    → IsFrame q.addr f
    → length s.waiting < size
    → Holds size
        (record s { waiting = s.waiting ++ (given f ∷ []) })
        (posted f (suc (wrap size s.first (length s.waiting)) == size) q)
unfolding IsSent
post-kept size s q f h fits room =
    let n = length s.waiting in
    let place = wrap size s.first n in
    let last = suc place == size in
    let d = desc_of last (some (given f)) in
    let below : place < size = wrap_lt size s.first n h.inside h.bounded in
    let more : length (s.waiting ++ (given f ∷ [])) ≡ suc n =
      omega (arith, length-append s.waiting (given f ∷ [])) in
    let step : following last place ≡ wrap size s.first (suc n) =
      following-wrap size place below ∙ wrap_next size s.first n h.inside room in
    let loads : Shows size s.first (put q.desc place d) (get_elem? (s.waiting ++ (given f ∷ []))) =
      put-Shows size s.first q.desc (get_elem? s.waiting) (get_elem? (s.waiting ++ (given f ∷ [])))
        n (some (given f)) h.cells h.inside room h.loads (get_elem?-last s.waiting (given f))
        (get_elem?-other s.waiting (given f)) in
    let frames : Fits size s.first q.addr (get_elem? (s.waiting ++ (given f ∷ []))) =
      put-Fits size s.first q.addr (get_elem? s.waiting) (get_elem? (s.waiting ++ (given f ∷ []))) n
        (given f) h.frames (get_elem?-last s.waiting (given f)) fits
        (get_elem?-other s.waiting (given f)) in
    record {
      cells = length-put q.desc q.next_desc d ∙ h.cells;
      small = h.small;
      bounded = omega (arith, more);
      inside = h.inside;
      busy = h.busy;
      busy_desc = h.busy_desc;
      next = rw (h.next, more) step;
      next_desc = rw (h.next_desc, more) step;
      count = omega (arith, h.count, more, h.small);
      loads = rw h.next_desc loads;
      frames = frames;
    }
