-- ===== src/Drivers/Ethernet/Receive/Tests.antt =====
-- A receiver that hears a frame, and one that was set up again.
use losangeles_lakers.Base.{
  ℕ, ◌+◌, ◌*◌, ◌^◌, ◌<◌, ◌≡◌, refl, arith, false, List, [], ◌∷◌, length, replicate, ok, load,
}
use losangeles_lakers.Drivers.Ethernet.{DmaDesc, Queue, is_desc_owned_by_dma}
use losangeles_lakers.Drivers.Ethernet.Receive.{
  Receiver, no_packet, packet_of, receive_desc_size, setup_rx_desc_queue, rx_init_descs,
  rx_desc_init_ring, is_rx_desc_chained, get_rx_desc_frame_length, is_rx_desc_valid,
}
use losangeles_lakers.Drivers.Ethernet.Receive.Turns.{Listens, turned}
use losangeles_lakers.Drivers.Ethernet.Receive.Events.{
  Event, deliver, ask, events, line_events, line_event, hear,
}
use losangeles_lakers.Drivers.Ethernet.Receive.Started.{silent}
use losangeles_lakers.Drivers.Ethernet.Receive.Reset.{recovered, events-recovered, StartsRing}

abbrev map_single : ℕ → ℕ
map_single a = a + 0x10000000

abbrev skbs : List ℕ
skbs = replicate receive_desc_size 0x7000

abbrev idle : Receiver
idle = record {
  sem_lock = 1;
  queue = setup_rx_desc_queue 0x8000 receive_desc_size;
  stats = record {
    rx_errors = 0;
    collisions = 0;
    rx_crc_errors = 0;
    rx_frame_errors = 0;
    rx_length_errors = 0;
  };
  freed = [];
}

-- A frame of 64 bytes and its checksum, in one descriptor.
abbrev one_status : ℕ
one_status = 68 * 2 ^ 16 + 0x300

abbrev some_events : List Event
some_events = ask ∷ deliver 0 one_status ∷ ask ∷ ask ∷ []

some_packets :
    (line_events some_events idle.stats (silent skbs)).0
    ≡ no_packet ∷ packet_of 0x7000 64 ∷ no_packet ∷ []
unfolding line_events line_event turned hear is_rx_desc_valid get_rx_desc_frame_length
some_packets = refl

ring_inside :
    (setup_rx_desc_queue 0x8000 receive_desc_size).busy_desc
    < length (setup_rx_desc_queue 0x8000 receive_desc_size).desc
unfolding setup_rx_desc_queue rx_init_descs
ring_inside = omega arith

-- The ring as it was set up: no descriptor has the flag of a chain.
abbrev some_ring : Queue
some_ring = setup_rx_desc_queue 0x8000 receive_desc_size

some_ring-StartsRing : StartsRing some_ring
unfolding setup_rx_desc_queue rx_init_descs rx_desc_init_ring is_rx_desc_chained
some_ring-StartsRing = (rx_desc_init_ring false, refl, refl)

events-recovered_example :
    (q' : Queue) × (recovered some_ring ≡ ok q')
    × (q'.next_desc ≡ some_ring.next_desc)
    × (q'.busy_desc ≡ some_ring.busy_desc)
    × (q'.busy_count ≡ some_ring.busy_count)
    × (events map_single (replicate 2 ask) (record idle { queue = q' })
        ≡ ok (replicate 2 no_packet, record idle { queue = q' }))
    × ((i : ℕ)
        → i < length some_ring.desc
        → (d : DmaDesc) × (load q'.desc i ≡ ok d) × (is_desc_owned_by_dma d ≡ false))
events-recovered_example =
    events-recovered map_single some_ring idle 2 ring_inside some_ring-StartsRing (omega arith)
