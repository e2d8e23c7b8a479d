-- ===== src/Drivers/Ethernet/Receive.antt =====
-- The queue of the frames that are received: the calls of
-- ls2kdev_record/drivers/net/synopGMAC_Dev.c on it, and of synopGMAC.c the loop of `eth_init` that
-- gives the device its buffers, and `rt_eth_rx`.
pub mod Listens
pub mod Turns
pub mod Received
pub mod Events
pub mod Filled
pub mod Started
pub mod Reset
mod Tests
use losangeles_lakers.Base.{
  ℕ, zero, suc, ◌+◌, ◌-◌, ◌/◌, ◌%◌, ◌^◌, bit_and, bit_or, Bool, true, false, not, ◌==◌, ◌&&◌, ◌||◌,
  ltb, leb, if◌then◌else◌, Option, none, some, List, [], ◌∷◌, ◌++◌, length, Result, ok, fault,
  stuck, bad_read, bad_write, load, store, ◌>>=◌, map,
}
use losangeles_lakers.Base.Bits.{complement}
use losangeles_lakers.Drivers.Ethernet.{
  DmaDesc, Queue, Frame, Done, has, desc_own_by_dma, is_desc_owned_by_dma, is_desc_empty,
  pointer_of, fill_chained, fill_ring, following, frame_of, init_descs,
}
use losangeles_lakers.Drivers.Ethernet.Send.{add, to_number}

abbrev pub rx_dis_int_compl : ℕ
rx_dis_int_compl = 0x80000000

abbrev pub rx_desc_end_of_ring : ℕ
rx_desc_end_of_ring = 0x8000

abbrev pub rx_desc_chain : ℕ
rx_desc_chain = 0x4000

abbrev pub desc_frame_length_mask : ℕ
desc_frame_length_mask = 0x3fff0000

abbrev pub modulo_interrupt : ℕ
modulo_interrupt = 1

abbrev pub receive_desc_size : ℕ
receive_desc_size = 36

abbrev pub rx_buf_size : ℕ
rx_buf_size = 14 + 4 + 1500 + 4 + 1000

unfoldable pub rx_desc_init_ring : Bool → DmaDesc
rx_desc_init_ring last_ring_desc = record {
  status = 0;
  length = if last_ring_desc then rx_desc_end_of_ring else 0;
  buffer1 = 0;
  buffer2 = 0;
  data1 = 0;
  data2 = 0;
}

unfoldable pub rx_desc_init_chain : DmaDesc → DmaDesc
rx_desc_init_chain d = record d { status = 0; length = rx_desc_chain; buffer1 = 0; data1 = 0 }

unfoldable pub is_rx_desc_chained : DmaDesc → Bool
is_rx_desc_chained d = has d.length rx_desc_chain

unfoldable pub is_last_rx_desc : Queue → DmaDesc → Bool
is_last_rx_desc q d = has d.length rx_desc_end_of_ring || (q.addr == d.data2)

-- The interrupt of the descriptor and its owner.
unfoldable pub listen : ℕ → DmaDesc → DmaDesc
listen index d = record d {
  length = if index % modulo_interrupt == 0 then d.length else bit_or d.length rx_dis_int_compl;
  status = desc_own_by_dma;
}

unfoldable pub set_rx_qptr : Frame → Queue → Result (Option ℕ × Queue)
set_rx_qptr f q = do
  d ← load q.desc q.next_desc
  if not (is_desc_empty d)
      then ok (none, q)
      else if is_rx_desc_chained d
      then (do
        let d' = listen q.next (fill_chained f d)
        p ← pointer_of q d'.data2
        desc' ← store q.desc q.next_desc d'
        ok (
          some q.next,
          record q {
            desc = desc';
            next = following (is_last_rx_desc q d') q.next;
            next_desc = p;
            busy_count = (q.busy_count + 1) % 2 ^ 32;
          },
        ))
      else (do
        let d' = listen q.next (fill_ring f d)
        desc' ← store q.desc q.next_desc d'
        ok (
          some q.next,
          record q {
            desc = desc';
            next = following (is_last_rx_desc q d') q.next;
            next_desc = following (is_last_rx_desc q d') q.next_desc;
            busy_count = (q.busy_count + 1) % 2 ^ 32;
          },
        ))

unfoldable pub get_rx_qptr : Queue → Result (Option Done × Queue)
get_rx_qptr q = do
  d ← load q.desc q.busy_desc
  if is_desc_owned_by_dma d || is_desc_empty d then ok (none, q) else (do
    let last = is_last_rx_desc q d
    let done : Done = record { index = q.busy; status = d.status; frame = frame_of d }
    p ← if is_rx_desc_chained d then pointer_of q d.data2 else ok (following last q.busy_desc)
    desc' ←
        store q.desc q.busy_desc
          (if is_rx_desc_chained d then rx_desc_init_chain d else rx_desc_init_ring last)
    ok (
      some done,
      record q {
        desc = desc';
        busy = following last q.busy;
        busy_desc = p;
        busy_count = (q.busy_count + (2 ^ 32 - 1)) % 2 ^ 32;
      },
    ))

unfoldable pub rx_init_descs : ℕ → List DmaDesc
rx_init_descs zero = []
rx_init_descs (suc zero) = rx_desc_init_ring true ∷ []
rx_init_descs (suc (suc n)) = rx_desc_init_ring false ∷ rx_init_descs (suc n)

unfoldable pub setup_rx_desc_queue : ℕ → ℕ → Queue
setup_rx_desc_queue addr no_of_desc = record {
  addr = addr;
  desc = rx_init_descs no_of_desc;
  next = 0;
  busy = 0;
  next_desc = 0;
  busy_desc = 0;
  busy_count = 0;
}

-- A buffer for the device.
unfoldable pub buffer_at : ℕ → ℕ → Frame
buffer_at dma_addr data1 = record {
  buffer1 = dma_addr;
  length1 = rx_buf_size;
  data1 = data1;
  buffer2 = 0;
  length2 = 0;
  data2 = 0;
}

-- The loop of `eth_init` on what `plat_alloc_memory` answers, with the memory that it gives back.
unfoldable pub give_buffers : (ℕ → ℕ) → List ℕ → Queue → Result (List ℕ × Queue)
give_buffers map_single [] q = stuck
give_buffers map_single (skb ∷ skbs) q =
    if skb == 0
    then ok ([], q)
    else set_rx_qptr (buffer_at (map_single skb % 2 ^ 32) skb) q >>= λ r. elim r.0 [
      | none ↦ ok (skb ∷ [], r.1)
      | some status ↦
          let rest = give_buffers map_single skbs r.1 in
          if ltb status (receive_desc_size - 1) then rest else ok ([], r.1)
    ]

-- The members of `net_device_stats` that receiving touches.
pub record RxStats : Type 0 where
  pub rx_errors : ℕ
  pub collisions : ℕ
  pub rx_crc_errors : ℕ
  pub rx_frame_errors : ℕ
  pub rx_length_errors : ℕ

pub record Receiver : Type 0 where
  pub sem_lock : ℕ
  pub queue : Queue
  pub stats : RxStats
  pub freed : List ℕ

unfoldable pub is_rx_desc_valid : ℕ → Bool
is_rx_desc_valid status = (bit_and status 0x8000 == 0) && (has status 0x200 && has status 0x100)

unfoldable pub get_rx_desc_frame_length : ℕ → ℕ
get_rx_desc_frame_length status = bit_and status desc_frame_length_mask / 2 ^ 16

unfoldable pub count_error : ℕ → RxStats → RxStats
count_error status s = record {
  rx_errors = add s.rx_errors 1;
  collisions = add s.collisions (to_number (has status 0x40));
  rx_crc_errors = add s.rx_crc_errors (to_number (has status 0x2));
  rx_frame_errors = add s.rx_frame_errors (to_number (has status 0x4));
  rx_length_errors = add s.rx_length_errors (to_number (has status 0x1000));
}

-- What a caller gets: nothing while it waits for the lock, no packet, or one with the bytes at an
-- address, of which there are `len`.
pub data Got : Type 0 where
  blocked : Got
  no_packet : Got
  packet_of : ℕ → ℕ → Got

-- `pbuf_alloc` and the copy; its parameter for the length has 16 digits.
unfoldable pub copy_packet : Bool → ℕ → ℕ → Result Got
copy_packet room data1 len =
    if not room
    then fault bad_read
    else if ltb (len % 2 ^ 16) len
    then fault bad_write
    else ok (packet_of data1 len)

-- The frame that is done, and its buffer given to the device again.
unfoldable pub take_frame : (ℕ → ℕ) → Bool → Done → Receiver → Result (Got × Receiver)
take_frame map_single room d n =
    let valid = is_rx_desc_valid d.status in
    let len = (get_rx_desc_frame_length d.status + (2 ^ 32 - 4)) % 2 ^ 32 in
    let dma_addr = if valid then map_single d.frame.data1 % 2 ^ 32 else d.frame.buffer1 in
    let stats' = if valid then n.stats else count_error d.status n.stats in
    (if valid then copy_packet room d.frame.data1 len else ok no_packet) >>= λ got.
    set_rx_qptr (buffer_at dma_addr d.frame.data1) n.queue >>= λ r. elim r.0 [
      | none ↦
          ok
            (got, record n { queue = r.1; stats = stats'; freed = n.freed ++ (d.frame.data1 ∷ []) })
      | some index ↦ ok (got, record n { queue = r.1; stats = stats' })
    ]

-- `room` is whether `pbuf_alloc` finds memory.
unfoldable pub rt_eth_rx : (ℕ → ℕ) → Bool → Bool → Receiver → Result (Got × Receiver)
rt_eth_rx map_single attached room n =
    if n.sem_lock == 0
    then ok (blocked, n)
    else if not attached
    then ok (no_packet, record n { sem_lock = n.sem_lock - 1 })
    else get_rx_qptr n.queue >>= λ r. elim r.0 [
      | none ↦ ok (no_packet, record n { queue = r.1 })
      | some d ↦
          if leb receive_desc_size d.index
          then stuck
          else if d.frame.data1 == 0
          then ok (no_packet, record n { queue = r.1 })
          else take_frame map_single room d (record n { queue = r.1 })
    ]

-- `synopGMAC_take_desc_ownership`, and `synopGMAC_take_desc_ownership_rx`.
unfoldable pub take_desc_ownership : DmaDesc → DmaDesc
take_desc_ownership d = record d { status = bit_and d.status (complement 32 desc_own_by_dma) }

-- A round with `i` and the pointer `desc`, and the pointer after it: in a ring it stays and the
-- descriptor is `desc + i`, in a chain it follows `data2`.
unfoldable pub take_one : ℕ → ℕ → Queue → Result (ℕ × Queue)
take_one i p q = do
  base ← pointer_of q p
  first ← load q.desc base
  if is_rx_desc_chained first
      then (do
        desc' ← store q.desc base (take_desc_ownership first)
        ok (first.data2, record q { desc = desc' }))
      else (do
        d ← load q.desc (base + i)
        desc' ← store q.desc (base + i) (take_desc_ownership d)
        ok (p, record q { desc = desc' }))

-- The rounds that are left.
unfoldable pub take_loop : ℕ → ℕ → ℕ → Queue → Result Queue
take_loop zero i p q = ok q
take_loop (suc rounds) i p q = take_one i p q >>= λ r. take_loop rounds (i + 1) r.0 r.1

unfoldable pub take_all : Queue → Result Queue
take_all q = take_loop (length q.desc) 0 q.addr q

-- The part of `synopGMAC_init_tx_rx_desc_queue` for one direction, with the descriptors that it
-- starts again with.
unfoldable pub init_desc_queue : (ℕ → List DmaDesc) → Queue → Queue
init_desc_queue descs q = record q { desc = descs (length q.desc); next = 0; busy = 0 }
