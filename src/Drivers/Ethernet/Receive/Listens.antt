-- ===== src/Drivers/Ethernet/Receive/Listens.antt =====
-- The descriptors of a ring that receives: each has a buffer, in which a frame has been heard or not.
use losangeles_lakers.Base.{
  ℕ, ◌+◌, ◌-◌, ◌%◌, ◌^◌, ◌<◌, ◌≤◌, ◌≡◌, refl, Bool, true, false, ◌==◌, none, some, length, ok, load,
  put, store-put, arith,
}
use losangeles_lakers.Drivers.Ethernet.{
  DmaDesc, Queue, Frame, has, desc_own_by_dma, is_desc_owned_by_dma, is_desc_empty, fill_ring,
  sizes, following, frame_of,
}
use losangeles_lakers.Drivers.Ethernet.Receive.{
  rx_desc_init_ring, is_rx_desc_chained, is_last_rx_desc, listen, set_rx_qptr, get_rx_qptr,
  buffer_at, get_rx_desc_frame_length, rx_buf_size,
}

-- The address of the buffer, and the status of the frame in it.
pub data Buffer : Type 0 where
  listening : ℕ → Buffer
  heard : ℕ → ℕ → Buffer

abbrev pub buffer_of : (ℕ → ℕ) → ℕ → Frame
buffer_of map_single a = buffer_at (map_single a % 2 ^ 32) a

unfoldable pub rx_desc_of : (ℕ → ℕ) → Bool → Buffer → DmaDesc
rx_desc_of map_single last (listening a) =
    listen 0 (fill_ring (buffer_of map_single a) (rx_desc_init_ring last))
rx_desc_of map_single last (heard a st) =
    record (listen 0 (fill_ring (buffer_of map_single a) (rx_desc_init_ring last))) { status = st }

-- A buffer that is there, and a status that gives a frame back, which has its checksum and fits.
unfoldable pub IsBuffer : Buffer → Type 0
IsBuffer (listening a) = 0 < a
IsBuffer (heard a st) =
    (0 < a)
    × (has st desc_own_by_dma ≡ false)
    × (4 ≤ get_rx_desc_frame_length st)
    × (get_rx_desc_frame_length st ≤ rx_buf_size)

module _ (map_single : ℕ → ℕ) where
  free-tests :
      (last : Bool)
      → (is_desc_empty (rx_desc_init_ring last) ≡ true)
        × (is_rx_desc_chained (rx_desc_init_ring last) ≡ false)
  unfolding is_desc_empty is_rx_desc_chained rx_desc_init_ring
  free-tests true = (refl, refl)
  free-tests false = (refl, refl)

  free-listening :
      (last : Bool) (i a : ℕ)
      → listen i (fill_ring (buffer_of map_single a) (rx_desc_init_ring last))
        ≡ rx_desc_of map_single last (listening a)
  unfolding rx_desc_of listen
  free-listening last i a = let whole : i % 1 ≡ 0 = omega arith in rw whole refl

  listening-last :
      (last : Bool) (a : ℕ) (q : Queue)
      → (q.addr == 0) ≡ false
      → is_last_rx_desc q (rx_desc_of map_single last (listening a)) ≡ last
  unfolding rx_desc_of listen fill_ring rx_desc_init_ring buffer_at is_last_rx_desc sizes
  listening-last true a q h = refl
  listening-last false a q h = h

  pub listening-owned :
      (last : Bool) (a : ℕ) → is_desc_owned_by_dma (rx_desc_of map_single last (listening a)) ≡ true
  unfolding rx_desc_of listen is_desc_owned_by_dma
  listening-owned last a = refl

  heard-tests :
      (last : Bool) (a st : ℕ) (q : Queue)
      → (q.addr == 0) ≡ false
      → (is_desc_empty (rx_desc_of map_single last (heard a st)) ≡ false)
        × (is_rx_desc_chained (rx_desc_of map_single last (heard a st)) ≡ false)
        × (is_last_rx_desc q (rx_desc_of map_single last (heard a st)) ≡ last)
        × (frame_of (rx_desc_of map_single last (heard a st)) ≡ buffer_of map_single a)
  unfolding rx_desc_of listen fill_ring rx_desc_init_ring buffer_at is_last_rx_desc sizes
      is_desc_empty is_rx_desc_chained frame_of
  heard-tests true a st q h = (refl, refl, refl, refl)
  heard-tests false a st q h = (refl, refl, h, refl)

  heard-owned :
      (last : Bool) (a st : ℕ)
      → is_desc_owned_by_dma (rx_desc_of map_single last (heard a st)) ≡ has st desc_own_by_dma
  unfolding rx_desc_of is_desc_owned_by_dma
  heard-owned last a st = refl

  heard-status : (last : Bool) (a st : ℕ) → (rx_desc_of map_single last (heard a st)).status ≡ st
  unfolding rx_desc_of
  heard-status last a st = refl

  pub listening-heard :
      (last : Bool) (a st : ℕ)
      → record (rx_desc_of map_single last (listening a)) { status = st }
        ≡ rx_desc_of map_single last (heard a st)
  unfolding rx_desc_of
  listening-heard last a st = refl

  -- The two calls, on a free descriptor and on one that has heard a frame.
  pub set_rx_qptr-free :
      (a : ℕ) (q : Queue) (last : Bool)
      → (q.addr == 0) ≡ false
      → load q.desc q.next_desc ≡ ok (rx_desc_init_ring last)
      → q.next_desc < length q.desc
      → set_rx_qptr (buffer_of map_single a) q
        ≡ ok (
          some q.next,
          record q {
            desc = put q.desc q.next_desc (rx_desc_of map_single last (listening a));
            next = following last q.next;
            next_desc = following last q.next_desc;
            busy_count = (q.busy_count + 1) % 2 ^ 32;
          },
        )
  unfolding set_rx_qptr
  set_rx_qptr-free a q last h loads inside =
      let (empty, unchained) = free-tests last in
      rw
        (
          loads,
          empty,
          unchained,
          free-listening last q.next a,
          store-put q.desc q.next_desc (rx_desc_of map_single last (listening a)) inside,
          listening-last last a q h,
        )
        refl

  pub get_rx_qptr-heard :
      (a st : ℕ) (q : Queue) (last : Bool)
      → (q.addr == 0) ≡ false
      → has st desc_own_by_dma ≡ false
      → load q.desc q.busy_desc ≡ ok (rx_desc_of map_single last (heard a st))
      → q.busy_desc < length q.desc
      → get_rx_qptr q
        ≡ ok (
          some (record { index = q.busy; status = st; frame = buffer_of map_single a }),
          record q {
            desc = put q.desc q.busy_desc (rx_desc_init_ring last);
            busy = following last q.busy;
            busy_desc = following last q.busy_desc;
            busy_count = (q.busy_count + (2 ^ 32 - 1)) % 2 ^ 32;
          },
        )
  unfolding get_rx_qptr
  get_rx_qptr-heard a st q last h returned loads inside =
      let (full, unchained, ends, frame) = heard-tests last a st q h in
      rw
        (
          loads,
          heard-owned last a st,
          returned,
          full,
          unchained,
          ends,
          frame,
          heard-status last a st,
          store-put q.desc q.busy_desc (rx_desc_init_ring last) inside,
        )
        refl

  pub get_rx_qptr-listening :
      (a : ℕ) (q : Queue) (last : Bool)
      → load q.desc q.busy_desc ≡ ok (rx_desc_of map_single last (listening a))
      → get_rx_qptr q ≡ ok (none, q)
  unfolding get_rx_qptr
  get_rx_qptr-listening a q last loads = rw (loads, listening-owned last a) refl
