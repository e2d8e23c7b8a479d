-- ===== src/Drivers/Ethernet/Send.antt =====
-- `rt_eth_tx` of ls2kdev_record/drivers/net/synopGMAC.c, with the lock that it takes and the
-- statistics that it keeps.
pub mod Drained
pub mod Report
pub mod Lock
pub mod Lost
use losangeles_lakers.Base.{
  ℕ, zero, suc, ◌+◌, ◌-◌, ◌/◌, ◌%◌, ◌^◌, bit_and, Bool, true, false, not, ◌==◌, ◌||◌, ltb,
  if◌then◌else◌, Option, none, some, List, [], ◌∷◌, ◌++◌, length, Result, ok, stuck, load, ◌>>=◌,
}
use losangeles_lakers.Base.Int.{ℤ, pos, negsuc}
use losangeles_lakers.Drivers.Ethernet.{
  DmaDesc, Queue, Frame, Done, has, is_desc_owned_by_dma, set_tx_qptr, get_tx_qptr,
}

-- The members of `net_device_stats` that sending touches, each an `unsigned long`, and the memory
-- that is given back.
pub record Stats : Type 0 where
  pub tx_packets : ℕ
  pub tx_bytes : ℕ
  pub tx_errors : ℕ
  pub tx_aborted_errors : ℕ
  pub tx_carrier_errors : ℕ
  pub collisions : ℕ
  pub freed : List ℕ

-- `sem_lock`, the queue of the frames to send, and how often the device was told to look at it.
pub record Net : Type 0 where
  pub sem_lock : ℕ
  pub queue : Queue
  pub stats : Stats
  pub polls : ℕ

unfoldable pub is_desc_valid : ℕ → Bool
is_desc_valid status = bit_and status 0x8000 == 0

abbrev pub to_number : Bool → ℕ
to_number true = 1
to_number false = 0

unfoldable pub is_tx_aborted : ℕ → Bool
is_tx_aborted status = has status 0x200 || has status 0x100

unfoldable pub is_tx_carrier_error : ℕ → Bool
is_tx_carrier_error status = has status 0x800 || has status 0x400

unfoldable pub get_tx_collision_count : ℕ → ℕ
get_tx_collision_count status = bit_and status 0x78 / 2 ^ 3

abbrev pub add : ℕ → ℕ → ℕ
add a b = (a + b) % 2 ^ 64

-- A frame that is done, whose memory has an address.
unfoldable pub account : Done → Stats → Stats
account d s =
    if d.frame.data1 == 0
    then s
    else let free : Stats = record s { freed = s.freed ++ (d.frame.data1 ∷ []) } in
      if is_desc_valid d.status
      then record free {
        tx_bytes = add free.tx_bytes d.frame.length1;
        tx_packets = add free.tx_packets 1;
      }
      else record free {
        tx_errors = add free.tx_errors 1;
        tx_aborted_errors = add free.tx_aborted_errors (to_number (is_tx_aborted d.status));
        tx_carrier_errors = add free.tx_carrier_errors (to_number (is_tx_carrier_error d.status));
      }

unfoldable pub collide : ℕ → Stats → Stats
collide status s = record s { collisions = add s.collisions (get_tx_collision_count status) }

-- The loop over the frames that are done; `status` keeps its value when there is none.
unfoldable pub reclaim_all : ℕ → ℕ → Stats → Queue → Result (Stats × Queue)
reclaim_all zero status s q = stuck
reclaim_all (suc fuel) status s q = get_tx_qptr q >>= λ r. elim r.0 [
  | none ↦ ok (collide status s, r.1)
  | some d ↦ reclaim_all fuel d.status (collide d.status (account d s)) r.1
]

-- What a caller sees: it waits for the lock for ever, or gets a value.
pub data Reply : Type 0 where
  waits : Reply
  returns : ℤ → Reply

-- From the place where the frame is in the queue, or where it is not.
unfoldable pub resume_and_reclaim : ℕ → Net → Result (Reply × Net)
resume_and_reclaim status n =
    reclaim_all (suc (length n.queue.desc)) status n.stats n.queue >>= λ r. ok (
      returns (pos 0),
      record n { sem_lock = n.sem_lock + 1; queue = r.1; stats = r.0; polls = n.polls + 1 },
    )

-- `map_single` is `plat_dma_map_single`, `pbuf` what `plat_alloc_memory` answers, `tot_len` the length
-- of the packet, and `status` starts with what is in its memory.
unfoldable pub rt_eth_tx : (ℕ → ℕ) → Bool → ℕ → ℕ → ℕ → Net → Result (Reply × Net)
rt_eth_tx map_single attached pbuf tot_len status n = if n.sem_lock == 0 then ok (waits, n) else (do
  let locked : Net = record n { sem_lock = n.sem_lock - 1 }
  if not attached then ok (returns (negsuc 0), locked) else (do
    d ← load n.queue.desc n.queue.next_desc
    if is_desc_owned_by_dma d
        then resume_and_reclaim status locked
        else if pbuf == 0
        then ok (returns (negsuc 0), locked)
        else (do
          let f : Frame = record {
            buffer1 = map_single pbuf % 2 ^ 32;
            length1 = tot_len;
            data1 = pbuf;
            buffer2 = 0;
            length2 = 0;
            data2 = 0;
          }
          r ← set_tx_qptr f false n.queue
          elim r.0 [
            | none ↦ ok (
              returns (negsuc 15),
              record locked { stats = record (n.stats) { freed = n.stats.freed ++ (pbuf ∷ []) } },
            )
            | some index ↦ resume_and_reclaim index (record locked { queue = r.1 })
          ])))
