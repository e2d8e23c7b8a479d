-- ===== src/Drivers/Ethernet/Send/Lost.antt =====
-- The calls of `rt_eth_tx` that return without the lock's release.
use losangeles_lakers.Base.{
  ℕ, suc, ◌-◌, ◌<◌, ◌==◌, ==_false, ◌≡◌, refl, arith, Bool, true, false, some, [], ◌∷◌, ◌++◌,
  length, get_elem?, ok, inl, inr, ==_cases,
}
use losangeles_lakers.Base.Int.{negsuc}
use losangeles_lakers.Drivers.Ethernet.{Frame}
use losangeles_lakers.Drivers.Ethernet.Slots.{done, free-not_owned, done-tests}
use losangeles_lakers.Drivers.Ethernet.Fifo.{Fifo, wrap}
use losangeles_lakers.Drivers.Ethernet.Fifo.Holds.{Holds, IsSent}
use losangeles_lakers.Drivers.Ethernet.Fifo.Calls.{next_free, next_full, set_tx_qptr-full}
use losangeles_lakers.Drivers.Ethernet.Send.{Net, waits, returns, rt_eth_tx}
use losangeles_lakers.Drivers.Ethernet.Send.Lock.{packet}

-- Where a call finds that it cannot send.
pub data Fails : Bool → ℕ → ℕ → Fifo → Type 0 where
  detached : {pbuf size : ℕ} {s : Fifo} → Fails false pbuf size s
  no_memory : {size : ℕ} {s : Fifo} → length s.waiting < size → Fails true 0 size s
  full :
      {pbuf size : ℕ} {s : Fifo} (f : Frame) (st : ℕ)
      → length s.waiting ≡ size
      → get_elem? s.waiting 0 ≡ some (done f st)
      → Fails true pbuf size s

lock_waits :
    (n : Net)
    → n.sem_lock ≡ 0
    → (map_single : ℕ → ℕ) (attached : Bool) (pbuf tot_len status : ℕ)
    → rt_eth_tx map_single attached pbuf tot_len status n ≡ ok (waits, n)
unfolding rt_eth_tx
lock_waits n free map_single attached pbuf tot_len status = rw free refl

-- The state without the lock, and without the memory that a packet was copied to.
lost : Net → Net
lost n = record n { sem_lock = n.sem_lock - 1 }

lost_packet : ℕ → Net → Net
lost_packet pbuf n = record n {
  sem_lock = n.sem_lock - 1;
  stats = record (n.stats) { freed = n.stats.freed ++ (pbuf ∷ []) };
}

-- A ring that holds a queue and a free lock, where the interface is not attached, or there is room
-- but no memory for the packet, or there is no room and the oldest frame is done: `rt_eth_tx`
-- returns a value below 0 and leaves the queue as it was, and every later call of it waits for
-- ever.
pub rt_eth_tx-lock_lost :
    (map_single : ℕ → ℕ) (attached : Bool) (pbuf tot_len status size : ℕ) (s : Fifo) (n : Net)
    → Holds size s n.queue
    → n.sem_lock ≡ 1
    → Fails attached pbuf size s
    → (code : ℕ) × (n' : Net) × (rt_eth_tx map_single attached pbuf tot_len status n
        ≡ ok (returns (negsuc code), n'))
      × (n'.queue ≡ n.queue)
      × ((map' : ℕ → ℕ) (attached' : Bool) (pbuf' len' status' : ℕ)
          → rt_eth_tx map' attached' pbuf' len' status' n' ≡ ok (waits, n'))
unfolding rt_eth_tx IsSent lost lost_packet
rt_eth_tx-lock_lost map_single attached pbuf tot_len status size s n h lock detached =
    rw (==_false n.sem_lock 0 (omega arith))
      (0, lost n, refl, refl, lock_waits (lost n) (omega arith))
rt_eth_tx-lock_lost map_single attached pbuf tot_len status size s n h lock (no_memory room) =
    let last = suc (wrap size s.first (length s.waiting)) == size in
    rw (==_false n.sem_lock 0 (omega arith), next_free size s n.queue h room, free-not_owned last)
      (0, lost n, refl, refl, lock_waits (lost n) (omega arith))
rt_eth_tx-lock_lost map_single attached pbuf tot_len status size s n h lock (full f st all is) =
    let last = suc (wrap size s.first 0) == size in
    let (fits, good) = h.frames 0 (done f st) is in
    let (owned, unchained, ends) = done-tests last f st n.queue fits good in
    elim (==_cases pbuf 0) [
      | inl none_left ↦
          rw
            (
              ==_false n.sem_lock 0 (omega arith),
              next_full size s n.queue (done f st) h all is,
              owned,
              none_left,
            )
            (0, lost n, refl, refl, lock_waits (lost n) (omega arith))
      | inr some_left ↦
          rw
            (
              ==_false n.sem_lock 0 (omega arith),
              next_full size s n.queue (done f st) h all is,
              owned,
              some_left,
              set_tx_qptr-full size s n.queue (packet map_single pbuf tot_len) h all,
            )
            (15, lost_packet pbuf n, refl, refl, lock_waits (lost_packet pbuf n) (omega arith))
    ]
