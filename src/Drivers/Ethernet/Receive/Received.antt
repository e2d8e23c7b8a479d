-- ===== src/Drivers/Ethernet/Receive/Received.antt =====
-- Calls of `rt_eth_rx` and the device's work, on the ring and on the line of its buffers.
use losangeles_lakers.Base.{
  ℕ, suc, ◌+◌, ◌-◌, ◌%◌, ◌^◌, ◌<◌, ◌≡◌, refl, sym, ◌∙◌, Bool, true, false, ◌==◌, ==_false, leb,
  if◌then◌else◌, length, ok, load, put, load-put, load_ok, length-put, arith,
}
use losangeles_lakers.Drivers.Ethernet.{Queue, following}
use losangeles_lakers.Drivers.Ethernet.Receive.{
  rx_desc_init_ring, is_rx_desc_valid, get_rx_desc_frame_length, receive_desc_size, Receiver,
  count_error, no_packet, packet_of, rt_eth_rx, buffer_at,
}
use losangeles_lakers.Drivers.Ethernet.Receive.Listens.{
  Buffer, listening, heard, rx_desc_of, IsBuffer, set_rx_qptr-free, get_rx_qptr-heard,
  get_rx_qptr-listening,
}
use losangeles_lakers.Drivers.Ethernet.Receive.Turns.{
  Line, turned, turn, Listens, took, again, again-Listens,
}

module _ (map_single : ℕ → ℕ) where
  -- A call that finds no frame, and one that finds a frame.
  call_idle :
      (last : Bool) (a : ℕ) (n : Receiver)
      → 0 < n.sem_lock
      → load n.queue.desc n.queue.busy_desc ≡ ok (rx_desc_of map_single last (listening a))
      → rt_eth_rx map_single true true n ≡ ok (no_packet, n)
  unfolding rt_eth_rx
  call_idle last a n lock loads =
      rw
        (==_false n.sem_lock 0 (omega arith), get_rx_qptr-listening map_single a n.queue last loads)
        refl

  call_heard :
      (last : Bool) (a st : ℕ) (n : Receiver)
      → 0 < n.sem_lock
      → IsBuffer (heard a st)
      → (n.queue.addr == 0) ≡ false
      → n.queue.busy < receive_desc_size
      → n.queue.next_desc ≡ n.queue.busy_desc
      → n.queue.busy_desc < length n.queue.desc
      → load n.queue.desc n.queue.busy_desc ≡ ok (rx_desc_of map_single last (heard a st))
      → rt_eth_rx map_single true true n
        ≡ ok (
          if is_rx_desc_valid st then packet_of a (get_rx_desc_frame_length st - 4) else no_packet,
          record n {
            queue = again map_single last a n.queue;
            stats = if is_rx_desc_valid st then n.stats else count_error st n.stats;
          },
        )
  unfolding rt_eth_rx again IsBuffer buffer_at
  call_heard last a st n lock (some_address, returned, low, high) located small same inside loads =
      let q = n.queue in
      let free = rx_desc_init_ring last in
      let taken : Queue = record q {
        desc = put q.desc q.busy_desc free;
        busy = following last q.busy;
        busy_desc = following last q.busy_desc;
        busy_count = (q.busy_count + (2 ^ 32 - 1)) % 2 ^ 32;
      } in
      let waiting : load taken.desc q.next_desc ≡ ok free =
        rw same (load-put q.desc q.busy_desc free inside) in
      let room : q.next_desc < length taken.desc =
        omega (arith, length-put q.desc q.busy_desc free) in
      let below : leb receive_desc_size q.busy ≡ false = ground arith in
      rw
        (
          ==_false n.sem_lock 0 (omega arith),
          get_rx_qptr-heard map_single a st q last located returned loads inside,
          below,
          ==_false a 0 (omega arith),
        )
        (took map_single a st q.busy q.next (record n { queue = taken }) (again map_single last a q)
          (some_address, returned, low, high)
          (set_rx_qptr-free map_single a taken last located waiting room))

  turn_of :
      (size : ℕ) (e : Buffer) (l : Line) (n : Receiver)
      → Listens map_single size l n.queue
      → 0 < n.sem_lock
      → load l.slots l.place ≡ ok e
      → (q' : Queue) × (rt_eth_rx map_single true true n
          ≡ ok (
            (turned (ok e) n.stats l).0,
            record n { queue = q'; stats = (turned (ok e) n.stats l).1 },
          ))
        × Listens map_single size (turned (ok e) n.stats l).2 q'
  unfolding turned
  turn_of size (listening a) l n h lock is = (
    n.queue,
    call_idle (suc l.place == size) a n lock (rw h.busy_desc (h.loads l.place (listening a) is)),
    h,
  )
  turn_of size (heard a st) l n h lock is = (
    again map_single (suc l.place == size) a n.queue,
    call_heard (suc l.place == size) a st n lock (h.buffers l.place (heard a st) is) h.located
        (omega (arith, h.busy, h.inside, h.small)) (h.next_desc ∙ sym h.busy_desc)
        (omega (arith, h.busy_desc, h.inside, h.cells))
        (rw h.busy_desc (h.loads l.place (heard a st) is)),
    again-Listens map_single size a st n.stats l n.queue h is,
  )

  pub rt_eth_rx-turn :
      (size : ℕ) (l : Line) (n : Receiver)
      → Listens map_single size l n.queue
      → 0 < n.sem_lock
      → (q' : Queue) × (rt_eth_rx map_single true true n
          ≡ ok ((turn n.stats l).0, record n { queue = q'; stats = (turn n.stats l).1 }))
        × Listens map_single size (turn n.stats l).2 q'
  rt_eth_rx-turn size l n h lock =
      let (e, is) = load_ok l.slots l.place (omega (arith, h.held, h.inside)) in
      rw is (turn_of size e l n h lock is)
