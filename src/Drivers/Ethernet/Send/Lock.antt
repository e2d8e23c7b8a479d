-- ===== src/Drivers/Ethernet/Send/Lock.antt =====
-- A call of `rt_eth_tx` on a queue that has room for the frame, on one that has none, and what
-- becomes of the lock.
use losangeles_lakers.Base.{
  ℕ, suc, ◌+◌, ◌-◌, ◌%◌, ◌^◌, ◌<◌, ◌==◌, ==_false, ◌≡◌, refl, ◌∙◌, arith, true, some, [], ◌∷◌, ◌++◌,
  length, get_elem?, ok,
}
use losangeles_lakers.Base.Int.{pos}
use losangeles_lakers.Drivers.Ethernet.{Queue, Frame}
use losangeles_lakers.Drivers.Ethernet.Slots.{given, IsFrame, free-not_owned, given-owned}
use losangeles_lakers.Drivers.Ethernet.Fifo.{Fifo, wrap}
use losangeles_lakers.Drivers.Ethernet.Fifo.Holds.{Holds}
use losangeles_lakers.Drivers.Ethernet.Fifo.Calls.{next_free, next_full, set_tx_qptr-room}
use losangeles_lakers.Drivers.Ethernet.Send.{Net, returns, resume_and_reclaim, rt_eth_tx}
use losangeles_lakers.Drivers.Ethernet.Send.Report.{report, IsStats, tally-report}
use losangeles_lakers.Drivers.Ethernet.Send.Drained.{drained, tally, reclaim_all-drained}

-- The frame that is made of a packet.
abbrev pub packet : (ℕ → ℕ) → ℕ → ℕ → Frame
packet map_single pbuf tot_len = record {
  buffer1 = map_single pbuf % 2 ^ 32;
  length1 = tot_len;
  data1 = pbuf;
  buffer2 = 0;
  length2 = 0;
  data2 = 0;
}

resume-drained :
    (size status : ℕ) (s : Fifo) (n : Net)
    → Holds size s n.queue
    → (q' : Queue) × (resume_and_reclaim status n
        ≡ ok (
          returns (pos 0),
          record n {
            sem_lock = n.sem_lock + 1;
            queue = q';
            stats = tally status (drained size s.first s.waiting).0 n.stats;
            polls = n.polls + 1;
          },
        ))
      × Holds size (drained size s.first s.waiting).1 q'
unfolding resume_and_reclaim
resume-drained size status s n h =
    let (q', runs, held) =
      reclaim_all-drained size s.first (suc (length n.queue.desc)) status s.waiting n.stats n.queue
        h (omega (arith, h.cells, h.bounded)) in
    rw runs (q', refl, held)

-- A ring that holds a queue with room for a frame, a free lock, memory for the packet, statistics
-- of 64 digits, and a packet that fits a descriptor: `rt_eth_tx` returns 0 and leaves the lock free.
-- Behind the packet's frame in the queue, the oldest frames that are done are out of it, and the
-- memory of each that has an address is given back, in order. Of these frames, those without digit
-- 15 in the status are counted as sent, with their bytes, and the others as errors, as given up for
-- digit 8 or 9, and without a carrier for digit 10 or 11. The collisions in the statuses of all of
-- them are counted, those of the last one twice, and without a frame that is done those that the
-- place of the new frame would stand for.
pub rt_eth_tx-room :
    (map_single : ℕ → ℕ) (pbuf tot_len status size : ℕ) (s : Fifo) (n : Net)
    → Holds size s n.queue
    → 0 < n.sem_lock
    → length s.waiting < size
    → 0 < pbuf
    → IsStats n.stats
    → IsFrame n.queue.addr (packet map_single pbuf tot_len)
    → (q' : Queue) × (rt_eth_tx map_single true pbuf tot_len status n
        ≡ ok (
          returns (pos 0),
          record n {
            queue = q';
            stats =
                report
                  (wrap size s.first (length s.waiting))
                  (drained size s.first
                    (s.waiting ++ (given (packet map_single pbuf tot_len) ∷ []))).0
                  n.stats;
            polls = n.polls + 1;
          },
        ))
      × Holds size
          (drained size s.first (s.waiting ++ (given (packet map_single pbuf tot_len) ∷ []))).1
          q'
unfolding rt_eth_tx
rt_eth_tx-room map_single pbuf tot_len status size s n h lock room memory counted fits =
    let f = packet map_single pbuf tot_len in
    let place = wrap size s.first (length s.waiting) in
    let (q', sets, kept, same) = set_tx_qptr-room size s n.queue f h fits room in
    let (q2, runs, held) =
      resume-drained size place (record s { waiting = s.waiting ++ (given f ∷ []) })
        (record n { sem_lock = n.sem_lock - 1; queue = q' }) kept in
    let ds = (drained size s.first (s.waiting ++ (given f ∷ []))).0 in
    let back : n.sem_lock - 1 + 1 ≡ n.sem_lock = omega arith in
    rw
      (
        ==_false n.sem_lock 0 (omega arith),
        next_free size s n.queue h room,
        free-not_owned (suc place == size),
        ==_false pbuf 0 (omega arith),
        sets,
      )
      (q2, runs ∙ rw (back, tally-report place ds n.stats counted) refl, held)

-- A packet for which there is no room, while the device has the oldest frame: it is dropped, and the
-- caller is told that it is sent.
pub rt_eth_tx-dropped :
    (map_single : ℕ → ℕ) (pbuf tot_len status size : ℕ) (s : Fifo) (n : Net) (f : Frame)
    → Holds size s n.queue
    → 0 < n.sem_lock
    → length s.waiting ≡ size
    → get_elem? s.waiting 0 ≡ some (given f)
    → (q' : Queue) × (rt_eth_tx map_single true pbuf tot_len status n
        ≡ ok (
          returns (pos 0),
          record n {
            queue = q';
            stats = tally status (drained size s.first s.waiting).0 n.stats;
            polls = n.polls + 1;
          },
        ))
      × Holds size (drained size s.first s.waiting).1 q'
unfolding rt_eth_tx
rt_eth_tx-dropped map_single pbuf tot_len status size s n f h lock full is =
    let (q', runs, held) =
      resume-drained size status s (record n { sem_lock = n.sem_lock - 1 }) h in
    let back : n.sem_lock - 1 + 1 ≡ n.sem_lock = omega arith in
    rw
      (
        ==_false n.sem_lock 0 (omega arith),
        next_full size s n.queue (given f) h full is,
        given-owned (suc (wrap size s.first 0) == size) f,
      )
      (q', runs ∙ rw back refl, held)
