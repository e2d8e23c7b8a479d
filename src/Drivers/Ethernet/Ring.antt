-- ===== src/Drivers/Ethernet/Ring.antt =====
-- One call on the ring of descriptors, by what the descriptor that it looks at is.
use losangeles_lakers.Base.{
  ℕ, ◌+◌, ◌-◌, ◌%◌, ◌^◌, ◌<◌, ◌≡◌, refl, Bool, false, none, some, length, ok, load, put, store-put,
  inl, inr, Bool-cases,
}
use losangeles_lakers.Drivers.Ethernet.{
  Queue, Frame, following, set_tx_qptr, get_tx_qptr, tx_desc_init_ring, give_to_dma,
  is_desc_owned_by_dma, is_desc_empty, fill_ring,
}
use losangeles_lakers.Drivers.Ethernet.Slots.{
  Sent, given, done, desc_of, IsFrame, IsStatus, free-tests, given-last, done-not_empty,
  given-owned, done-tests, done-frame,
}

-- The queue after a frame is put in, and after one is taken out.
abbrev pub posted : Frame → Bool → Queue → Queue
posted f last q = record q {
  desc = put q.desc q.next_desc (desc_of last (some (given f)));
  next = following last q.next;
  next_desc = following last q.next_desc;
  busy_count = (q.busy_count + 1) % 2 ^ 32;
}

abbrev pub reclaimed : Bool → Queue → Queue
reclaimed last q = record q {
  desc = put q.desc q.busy_desc (desc_of last none);
  busy = following last q.busy;
  busy_desc = following last q.busy_desc;
  busy_count = (q.busy_count + (2 ^ 32 - 1)) % 2 ^ 32;
}

-- What a free descriptor becomes, and what a done one holds and becomes.
free-filled :
    (f : Frame) (last : Bool)
    → give_to_dma false (fill_ring f (desc_of last none)) ≡ desc_of last (some (given f))
unfolding desc_of
free-filled f last = refl

done-status : (f : Frame) (st : ℕ) (last : Bool) → (desc_of last (some (done f st))).status ≡ st
unfolding desc_of
done-status f st last = refl

ring-free : (last : Bool) → tx_desc_init_ring last ≡ desc_of last none
unfolding desc_of
ring-free last = refl

pub set_tx_qptr-free :
    (f : Frame) (q : Queue) (last : Bool)
    → IsFrame q.addr f
    → load q.desc q.next_desc ≡ ok (desc_of last none)
    → q.next_desc < length q.desc
    → set_tx_qptr f false q ≡ ok (some q.next, posted f last q)
unfolding set_tx_qptr
set_tx_qptr-free f q last h loads inside =
    let (empty, unchained) = free-tests last in
    rw
      (
        loads,
        empty,
        unchained,
        free-filled f last,
        store-put q.desc q.next_desc (desc_of last (some (given f))) inside,
        given-last last f q h,
      )
      refl

pub set_tx_qptr-taken :
    (f : Frame) (q : Queue) (last : Bool) (e : Sent)
    → is_desc_empty (desc_of last (some e)) ≡ false
    → load q.desc q.next_desc ≡ ok (desc_of last (some e))
    → set_tx_qptr f false q ≡ ok (none, q)
unfolding set_tx_qptr
set_tx_qptr-taken f q last e full loads = rw (loads, full) refl

pub get_tx_qptr-done :
    (f : Frame) (st : ℕ) (q : Queue) (last : Bool)
    → IsFrame q.addr f
    → IsStatus last st
    → load q.desc q.busy_desc ≡ ok (desc_of last (some (done f st)))
    → q.busy_desc < length q.desc
    → get_tx_qptr q
      ≡ ok (some (record { index = q.busy; status = st; frame = f }), reclaimed last q)
unfolding get_tx_qptr
get_tx_qptr-done f st q last h k loads inside =
    let (owned, unchained, ends) = done-tests last f st q h k in
    rw
      (
        loads,
        owned,
        done-not_empty last f st q.addr h,
        unchained,
        ends,
        done-frame last f st q.addr h,
        done-status f st last,
        ring-free last,
        store-put q.desc q.busy_desc (desc_of last none) inside,
      )
      refl

pub get_tx_qptr-given :
    (f : Frame) (q : Queue) (last : Bool)
    → load q.desc q.busy_desc ≡ ok (desc_of last (some (given f)))
    → get_tx_qptr q ≡ ok (none, q)
unfolding get_tx_qptr
get_tx_qptr-given f q last loads = rw (loads, given-owned last f) refl

pub get_tx_qptr-free :
    (q : Queue) (last : Bool)
    → load q.desc q.busy_desc ≡ ok (desc_of last none)
    → get_tx_qptr q ≡ ok (none, q)
unfolding get_tx_qptr
get_tx_qptr-free q last loads =
    let (empty, unchained) = free-tests last in
    elim (Bool-cases (is_desc_owned_by_dma (desc_of last none))) [
      | inl owned ↦ rw (loads, owned) refl
      | inr free ↦ rw (loads, free, empty) refl
    ]
