-- ===== src/Drivers/Ethernet/Receive/Reset.antt =====
-- The receiver behind `synopGMAC_init_tx_rx_desc_queue`, which `eth_rx_irq` calls on an error of the
-- bus.
use losangeles_lakers.Base.{
  ℕ, zero, suc, ◌<◌, ◌≡◌, refl, ap, ◌∙◌, Bool, true, false, ◌==◌, ==_false, List, length, ok, load,
  load_ok, put, store-put, load-put, load-put_other, length-put, ltb-false, Result, ◌>>=◌, ◌+◌, ◌-◌,
  ◌/◌, ◌≤◌, arith,
}
use losangeles_lakers.Drivers.Ethernet.{DmaDesc, Queue, pointer_of}
use losangeles_lakers.Drivers.Ethernet.Receive.{
  rx_desc_init_ring, get_rx_qptr, Receiver, no_packet, rt_eth_rx,
}
use losangeles_lakers.Drivers.Ethernet.Receive.{
  init_desc_queue, take_all, take_loop, take_one, take_desc_ownership, is_rx_desc_chained,
  rx_init_descs,
}
use losangeles_lakers.Drivers.Ethernet.Receive.Events.{events}
use losangeles_lakers.Drivers.Ethernet.Receive.Started.{load-rx_init_descs}
use losangeles_lakers.Drivers.Ethernet.Receive.Events.{ask, event}
use losangeles_lakers.Base.{replicate}
use losangeles_lakers.Drivers.Ethernet.{is_desc_owned_by_dma, is_desc_empty}

-- The descriptors are taken back, and set up again.
unfoldable pub recovered : Queue → Result Queue
recovered q = take_all q >>= λ q'. ok (init_desc_queue rx_init_descs q')

-- The first descriptor does not have the flag of a chain.
abbrev pub StartsRing : Queue → Type 0
StartsRing q = (d : DmaDesc) × (load q.desc 0 ≡ ok d) × (is_rx_desc_chained d ≡ false)

-- The queue of a ring that is set up again: its pointers and counts stay.
abbrev pub set_up_again : Queue → Queue
set_up_again q = record q { desc = rx_init_descs (length q.desc); next = 0; busy = 0 }

pointer_of-addr : (q : Queue) → pointer_of q q.addr ≡ ok 0
unfolding pointer_of
pointer_of-addr q =
    let zeros : (q.addr - q.addr) / 32 ≡ 0 = omega arith in
    rw (ltb-false q.addr q.addr (omega arith), zeros) refl

-- A store of a descriptor that is taken back keeps the first one outside a chain.
put-StartsRing :
    (q : Queue) (i : ℕ) (d : DmaDesc)
    → i < length q.desc
    → load q.desc i ≡ ok d
    → StartsRing q
    → StartsRing (record q { desc = put q.desc i (take_desc_ownership d) })
unfolding take_desc_ownership is_rx_desc_chained
put-StartsRing q zero d inside loads (first, at_first, ring) = (
  take_desc_ownership d,
  load-put q.desc 0 (take_desc_ownership d) inside,
  (let same : d ≡ first = cc in rw same ring),
)
put-StartsRing q (suc i) d inside loads (first, at_first, ring) = (
  first,
  load-put_other q.desc (suc i) (take_desc_ownership d) 0 (λ e. omega arith) ∙ at_first,
  ring,
)

take_loop-ring :
    (rounds i : ℕ) (q : Queue)
    → StartsRing q
    → i + rounds ≤ length q.desc
    → (ds : List DmaDesc) × (take_loop rounds i q.addr q ≡ ok (record q { desc = ds }))
      × (length ds ≡ length q.desc)
unfolding take_loop take_one
take_loop-ring zero i q starts room = (q.desc, refl, refl)
take_loop-ring (suc rounds) i q starts room =
    let inside : i < length q.desc = omega arith in
    let place : 0 + i ≡ i = omega arith in
    let (d, loads) = load_ok q.desc i inside in
    let size = length-put q.desc i (take_desc_ownership d) in
    let (ds, runs, same) =
      take_loop-ring rounds (i + 1) (record q { desc = put q.desc i (take_desc_ownership d) })
        (put-StartsRing q i d inside loads starts) (omega arith) in
    (
      ds,
      rw
          (
            pointer_of-addr q,
            starts.1,
            starts.2,
            place,
            loads,
            store-put q.desc i (take_desc_ownership d) inside,
          )
          runs,
      same ∙ size,
    )

recovered_lem : (q : Queue) → StartsRing q → recovered q ≡ ok (set_up_again q)
unfolding recovered take_all init_desc_queue
recovered_lem q starts =
    let (ds, runs, size) = take_loop-ring (length q.desc) 0 q starts (omega arith) in
    rw (runs, size) refl

length-rx_init_descs : (n : ℕ) → length (rx_init_descs n) ≡ n
unfolding rx_init_descs
length-rx_init_descs zero = refl
length-rx_init_descs (suc zero) = refl
length-rx_init_descs (suc (suc n)) = ap suc (length-rx_init_descs (suc n))

recovered_loads :
    (q : Queue) (k : ℕ)
    → k < length q.desc
    → load (set_up_again q).desc k ≡ ok (rx_desc_init_ring (suc k == length q.desc))
recovered_loads q k h = load-rx_init_descs (length q.desc) k h

ring-tests :
    (last : Bool)
    → (is_desc_owned_by_dma (rx_desc_init_ring last) ≡ false)
      × (is_desc_empty (rx_desc_init_ring last) ≡ true)
unfolding is_desc_owned_by_dma is_desc_empty rx_desc_init_ring
ring-tests true = (refl, refl)
ring-tests false = (refl, refl)

ask-recovered :
    (map_single : ℕ → ℕ) (q : Queue) (n : Receiver)
    → q.busy_desc < length q.desc
    → 0 < n.sem_lock
    → rt_eth_rx map_single true true (record n { queue = set_up_again q })
      ≡ ok (no_packet, record n { queue = set_up_again q })
unfolding rt_eth_rx get_rx_qptr
ask-recovered map_single q n inside lock =
    let last = suc q.busy_desc == length q.desc in
    let (free, empty) = ring-tests last in
    rw (==_false n.sem_lock 0 (omega arith), recovered_loads q q.busy_desc inside, free, empty) refl

events-set_up_again :
    (map_single : ℕ → ℕ) (q : Queue) (n : Receiver) (k : ℕ)
    → q.busy_desc < length q.desc
    → 0 < n.sem_lock
    → events map_single (replicate k ask) (record n { queue = set_up_again q })
      ≡ ok (replicate k no_packet, record n { queue = set_up_again q })
unfolding events event
events-set_up_again map_single q n zero inside lock = refl
events-set_up_again map_single q n (suc k) inside lock =
    let rest = events-set_up_again map_single q n k inside lock in
    rw (ask-recovered map_single q n inside lock, rest) refl

-- A ring whose pointer lies inside it and whose first descriptor does not have the flag of a chain,
-- whatever its descriptors hold otherwise: the recovery of `eth_rx_irq` takes all of them back and
-- returns, with the pointers and the count of the queue as they were. Behind it none of the
-- descriptors belongs to the device, and calls of `rt_eth_rx` with a free lock, however many, find
-- no packet and change nothing.
pub events-recovered :
    (map_single : ℕ → ℕ) (q : Queue) (n : Receiver) (k : ℕ)
    → q.busy_desc < length q.desc
    → StartsRing q
    → 0 < n.sem_lock
    → (q' : Queue) × (recovered q ≡ ok q')
      × (q'.next_desc ≡ q.next_desc)
      × (q'.busy_desc ≡ q.busy_desc)
      × (q'.busy_count ≡ q.busy_count)
      × (events map_single (replicate k ask) (record n { queue = q' })
          ≡ ok (replicate k no_packet, record n { queue = q' }))
      × ((i : ℕ)
          → i < length q.desc
          → (d : DmaDesc) × (load q'.desc i ≡ ok d) × (is_desc_owned_by_dma d ≡ false))
events-recovered map_single q n k inside starts lock = (
  set_up_again q,
  recovered_lem q starts,
  refl,
  refl,
  refl,
  events-set_up_again map_single q n k inside lock,
  λ i small. (
    rx_desc_init_ring (suc i == length q.desc),
    recovered_loads q i small,
    (ring-tests (suc i == length q.desc)).0,
  ),
)
