-- ===== src/Drivers/Ethernet/Tests.antt =====
-- The queue of frames on small rings.
use losangeles_lakers.Base.{
  ℕ, ◌+◌, ◌≡◌, refl, arith, Bool, true, false, none, some, List, [], ◌∷◌, length, ok, put,
}
use losangeles_lakers.Base.Int.{pos, negsuc}
use losangeles_lakers.Drivers.Ethernet.{Queue, Frame, setup_tx_desc_queue}
use losangeles_lakers.Drivers.Ethernet.Link.{
  Phy, Link, Watch, code, is_now, duplex_of, speed_of, watch, watch_one,
}
use losangeles_lakers.Drivers.Ethernet.Slots.{given, done, desc_of, IsFrame, IsStatus}
use losangeles_lakers.Drivers.Ethernet.Ring.{posted}
use losangeles_lakers.Drivers.Ethernet.Fifo.{
  Fifo, Op, post, finish, reclaim, sent, worked, returned, run, fifo_run, fifo_step, finish_at,
  take_done, Allowed, AllAllowed,
}
use losangeles_lakers.Drivers.Ethernet.Fifo.Holds.{Holds, post-kept}
use losangeles_lakers.Drivers.Ethernet.Fifo.Advance.{finish-kept}
use losangeles_lakers.Drivers.Ethernet.Fifo.Setup.{setup-Holds, no_frames, tx_ring-fifo}
use losangeles_lakers.Drivers.Ethernet.Send.{Stats, Net, waits, returns, rt_eth_tx}
use losangeles_lakers.Drivers.Ethernet.Send.Drained.{drained}
use losangeles_lakers.Base.Bits.{bit}
use losangeles_lakers.Drivers.Ethernet.Send.Lock.{packet, rt_eth_tx-room}
use losangeles_lakers.Drivers.Ethernet.Send.Lost.{full, rt_eth_tx-lock_lost}

abbrev map_single : ℕ → ℕ
map_single a = a + 0x10000000

abbrev one_frame : Frame
one_frame = packet map_single 0x5000 60

one_frame-IsFrame : IsFrame 0x9000 one_frame
one_frame-IsFrame = record {
  some_bytes = omega arith;
  fits1 = omega arith;
  fits2 = omega arith;
  apart = refl;
}

last-IsStatus : IsStatus true 0x200000
last-IsStatus = record { returned = refl; ring_end = refl; unchained = refl }

first-IsStatus : IsStatus false 0
first-IsStatus = record { returned = refl; ring_end = refl; unchained = refl }

-- Two frames on a ring of two, a third that has no room, and the first that comes back.
abbrev some_ops : List Op
some_ops =
    post one_frame ∷ post one_frame ∷ finish 0 0 ∷ post one_frame ∷ reclaim ∷ post one_frame ∷ []

ops_allowed : AllAllowed 2 0x9000 some_ops no_frames
unfolding AllAllowed Allowed fifo_step finish_at take_done
ops_allowed = (
  one_frame-IsFrame,
  (
    one_frame-IsFrame,
    ((one_frame, refl, first-IsStatus), (one_frame-IsFrame, (tt, (one_frame-IsFrame, tt)))),
  ),
)

some_answers :
    (fifo_run 2 some_ops no_frames).0
    ≡ sent (some 0)
      ∷ sent (some 1)
      ∷ worked
      ∷ sent none
      ∷ returned (some (record { index = 0; status = 0; frame = one_frame }))
      ∷ sent (some 0)
      ∷ []
unfolding fifo_run fifo_step finish_at take_done
some_answers = refl

tx_ring-fifo_example :
    (q : Queue) × (run some_ops (setup_tx_desc_queue 0x9000 2)
      ≡ ok ((fifo_run 2 some_ops no_frames).0, q))
    × (q.busy_count ≡ length (fifo_run 2 some_ops no_frames).1.waiting)
tx_ring-fifo_example = tx_ring-fifo 2 0x9000 some_ops (omega arith) (omega arith) ops_allowed

abbrev no_stats : Stats
no_stats = record {
  tx_packets = 0;
  tx_bytes = 0;
  tx_errors = 0;
  tx_aborted_errors = 0;
  tx_carrier_errors = 0;
  collisions = 0;
  freed = [];
}

abbrev net_with : Queue → Net
net_with q = record { sem_lock = 1; queue = q; stats = no_stats; polls = 0 }

-- A ring of two descriptors, of which the first has a frame that is done with two collisions.
abbrev half_ring : Queue
half_ring = posted one_frame false (setup_tx_desc_queue 0x9000 2)

abbrev half_done : Queue
half_done = record half_ring {
  desc = put half_ring.desc 0 (desc_of false (some (done one_frame 0x10)));
}

abbrev half_fifo : Fifo
half_fifo = record { first = 0; waiting = done one_frame 0x10 ∷ [] }

collided-IsStatus : IsStatus false 0x10
collided-IsStatus = record { returned = refl; ring_end = refl; unchained = refl }

half_done-Holds : Holds 2 half_fifo half_done
unfolding finish_at setup_tx_desc_queue
half_done-Holds =
    finish-kept 2 (record { first = 0; waiting = given one_frame ∷ [] }) half_ring 0 0x10 one_frame
      (post-kept 2 no_frames (setup_tx_desc_queue 0x9000 2) one_frame
        (setup-Holds 2 0x9000 (omega arith) (omega arith)) one_frame-IsFrame (omega arith))
      (omega arith) refl collided-IsStatus

-- The frame that is done is counted with its bytes, its collisions twice, and its memory is given
-- back.
rt_eth_tx-room_example :
    (q' : Queue) × (rt_eth_tx map_single true 0x5000 60 7 (net_with half_done)
      ≡ ok (
        returns (pos 0),
        record (net_with q') {
          stats = record no_stats {
            tx_packets = 1;
            tx_bytes = 60;
            collisions = 4;
            freed = 0x5000 ∷ [];
          };
          polls = 1;
        },
      ))
    × Holds 2 (record { first = 1; waiting = given one_frame ∷ [] }) q'
unfolding drained bit setup_tx_desc_queue
rt_eth_tx-room_example =
    rt_eth_tx-room map_single 0x5000 60 7 2 half_fifo (net_with half_done) half_done-Holds
      (omega arith) (omega arith) (omega arith) (omega arith) one_frame-IsFrame

-- A ring of one descriptor, whose frame is done.
abbrev posted_ring : Queue
posted_ring = posted one_frame true (setup_tx_desc_queue 0x9000 1)

abbrev done_ring : Queue
done_ring = record posted_ring {
  desc = put posted_ring.desc 0 (desc_of true (some (done one_frame 0x200000)));
}

abbrev done_fifo : Fifo
done_fifo = record { first = 0; waiting = done one_frame 0x200000 ∷ [] }

done_ring-Holds : Holds 1 done_fifo done_ring
unfolding finish_at setup_tx_desc_queue
done_ring-Holds =
    finish-kept 1 (record { first = 0; waiting = given one_frame ∷ [] }) posted_ring 0 0x200000
      one_frame
      (post-kept 1 no_frames (setup_tx_desc_queue 0x9000 1) one_frame
        (setup-Holds 1 0x9000 (omega arith) (omega arith)) one_frame-IsFrame (omega arith))
      (omega arith) refl last-IsStatus

rt_eth_tx-lock_lost_example :
    (code : ℕ) × (n' : Net) × (rt_eth_tx map_single true 0x6000 60 0 (net_with done_ring)
      ≡ ok (returns (negsuc code), n'))
    × (n'.queue ≡ done_ring)
    × ((map' : ℕ → ℕ) (attached' : Bool) (pbuf' len' status' : ℕ)
        → rt_eth_tx map' attached' pbuf' len' status' n' ≡ ok (waits, n'))
rt_eth_tx-lock_lost_example =
    rt_eth_tx-lock_lost map_single true 0x6000 60 0 1 done_fifo (net_with done_ring) done_ring-Holds
      refl (full one_frame 0x200000 refl refl)

-- No cable, a link of 1000 in both directions for two calls, and no cable again.
abbrev some_readings : List Phy
some_readings =
    record { link_ok = false; link_ok_again = false; duplex = 0; speed = 0 }
    ∷ record { link_ok = true; link_ok_again = true; duplex = 1; speed = 1000 }
    ∷ record { link_ok = true; link_ok_again = true; duplex = 1; speed = 1000 }
    ∷ record { link_ok = false; link_ok_again = false; duplex = 0; speed = 0 }
    ∷ []

abbrev no_link : Link
no_link = record { duplex_mode = 0; speed = 0; loop_back_mode = 0; link_state = 0; mac_inits = [] }

abbrev no_watch : Watch
no_watch = record { now = none; inits = [] }

one_init : (watch some_readings no_watch).inits ≡ (2, 3) ∷ []
unfolding watch watch_one is_now duplex_of speed_of
one_init = refl
