-- ===== src/Drivers/Ethernet.antt =====
-- The descriptors of ls2kdev_record/drivers/net/synopGMAC_Dev.c, which its header compiles with
-- `ENH_DESC`, and the queue of the frames that are to be sent.
pub mod Slots
pub mod Ring
pub mod Send
pub mod Receive
pub mod Link
mod Tests
pub mod Fifo
use losangeles_lakers.Base.{
  ℕ, zero, suc, ◌+◌, ◌-◌, ◌*◌, ◌/◌, ◌%◌, ◌^◌, bit_and, bit_or, Bool, true, false, ◌==◌, ◌&&◌, ◌||◌,
  not, ltb, if◌then◌else◌, Option, none, some, List, [], ◌∷◌, Result, ok, fault, bad_read, ◌>>=◌,
  load, store,
}
use losangeles_lakers.Base.Bits.{complement}

abbrev pub desc_own_by_dma : ℕ
desc_own_by_dma = 0x80000000

abbrev pub desc_tx_int_enable : ℕ
desc_tx_int_enable = 0x40000000

abbrev pub desc_tx_last : ℕ
desc_tx_last = 0x20000000

abbrev pub desc_tx_first : ℕ
desc_tx_first = 0x10000000

abbrev pub desc_tx_cis_mask : ℕ
desc_tx_cis_mask = 0x00c00000

abbrev pub desc_tx_cis_ipv4_hdr_cs : ℕ
desc_tx_cis_ipv4_hdr_cs = 0x00400000

abbrev pub desc_tx_cis_tcp_only_cs : ℕ
desc_tx_cis_tcp_only_cs = 0x00800000

abbrev pub tx_desc_end_of_ring : ℕ
tx_desc_end_of_ring = 0x00200000

abbrev pub tx_desc_chain : ℕ
tx_desc_chain = 0x00100000

abbrev pub desc_size1_mask : ℕ
desc_size1_mask = 0x00001fff

abbrev pub desc_size2_mask : ℕ
desc_size2_mask = 0x1fff0000

pub record DmaDesc : Type 0 where
  pub status : ℕ
  pub length : ℕ
  pub buffer1 : ℕ
  pub buffer2 : ℕ
  pub data1 : ℕ
  pub data2 : ℕ

-- The members of `synopGMACdevice` that belong to one direction. `addr` is the address of the first
-- descriptor, and a pointer to a descriptor is its place behind this one.
pub record Queue : Type 0 where
  pub addr : ℕ
  pub desc : List DmaDesc
  pub next : ℕ
  pub busy : ℕ
  pub next_desc : ℕ
  pub busy_desc : ℕ
  pub busy_count : ℕ

-- Two buffers: their addresses for the device, lengths and addresses for the processor.
pub record Frame : Type 0 where
  pub buffer1 : ℕ
  pub length1 : ℕ
  pub data1 : ℕ
  pub buffer2 : ℕ
  pub length2 : ℕ
  pub data2 : ℕ

-- `(status & flag) == flag`
abbrev pub has : ℕ → ℕ → Bool
has word flag = bit_and word flag == flag

unfoldable pub is_desc_owned_by_dma : DmaDesc → Bool
is_desc_owned_by_dma d = has d.status desc_own_by_dma

unfoldable pub is_desc_empty : DmaDesc → Bool
is_desc_empty d = (bit_and d.length desc_size1_mask == 0) && (bit_and d.length desc_size2_mask == 0)

unfoldable pub is_last_tx_desc : Queue → DmaDesc → Bool
is_last_tx_desc q d = has d.status tx_desc_end_of_ring || (q.addr == d.data2)

unfoldable pub is_tx_desc_chained : DmaDesc → Bool
is_tx_desc_chained d = has d.status tx_desc_chain

unfoldable pub tx_desc_init_ring : Bool → DmaDesc
tx_desc_init_ring last_ring_desc = record {
  status = if last_ring_desc then tx_desc_end_of_ring else 0;
  length = 0;
  buffer1 = 0;
  buffer2 = 0;
  data1 = 0;
  data2 = 0;
}

unfoldable pub tx_desc_init_chain : DmaDesc → DmaDesc
tx_desc_init_chain d = record d { status = tx_desc_chain; length = 0; buffer1 = 0; data1 = 0 }

-- `(DmaDesc *)desc->data2`, where it points behind the first descriptor; a descriptor has 32 bytes.
unfoldable pub pointer_of : Queue → ℕ → Result ℕ
pointer_of q data2 = if ltb data2 q.addr then fault bad_read else ok ((data2 - q.addr) / 32)

unfoldable pub tx_checksum_offload_ipv4hdr : DmaDesc → DmaDesc
tx_checksum_offload_ipv4hdr d = record d {
  status = bit_or (bit_and d.status (complement 32 desc_tx_cis_mask)) desc_tx_cis_ipv4_hdr_cs;
}

unfoldable pub tx_checksum_offload_tcponly : DmaDesc → DmaDesc
tx_checksum_offload_tcponly d = record d {
  status = bit_or (bit_and d.status (complement 32 desc_tx_cis_mask)) desc_tx_cis_tcp_only_cs;
}

-- The flags of a frame in one descriptor, the checksums, and the owner.
unfoldable pub give_to_dma : Bool → DmaDesc → DmaDesc
give_to_dma offload_needed d =
    let flagged : DmaDesc = record d {
      status = bit_or d.status (bit_or (bit_or desc_tx_first desc_tx_last) desc_tx_int_enable);
    } in
    let summed =
      if offload_needed
      then tx_checksum_offload_tcponly (tx_checksum_offload_ipv4hdr flagged)
      else flagged in
    record summed { status = bit_or summed.status desc_own_by_dma }

-- The lengths in their places.
unfoldable pub sizes : ℕ → ℕ → ℕ
sizes length1 length2 =
    bit_or (bit_and length1 desc_size1_mask) (bit_and (length2 * 2 ^ 16 % 2 ^ 32) desc_size2_mask)

-- The descriptor that a frame is put into, in a chain and in a ring.
unfoldable pub fill_chained : Frame → DmaDesc → DmaDesc
fill_chained f d = record d {
  length = bit_or d.length (bit_and f.length1 desc_size1_mask);
  buffer1 = f.buffer1;
  data1 = f.data1;
}

unfoldable pub fill_ring : Frame → DmaDesc → DmaDesc
fill_ring f d = record d {
  length = bit_or d.length (sizes f.length1 f.length2);
  buffer1 = f.buffer1;
  data1 = f.data1;
  buffer2 = f.buffer2;
  data2 = f.data2;
}

-- `last ? 0 : i + 1`
abbrev pub following : Bool → ℕ → ℕ
following true i = 0
following false i = i + 1

-- The index of the descriptor, or `none` for a negative result.
unfoldable pub set_tx_qptr : Frame → Bool → Queue → Result (Option ℕ × Queue)
set_tx_qptr f offload_needed q = do
  d ← load q.desc q.next_desc
  if not (is_desc_empty d)
      then ok (none, q)
      else if is_tx_desc_chained d
      then (do
        let d' = give_to_dma offload_needed (fill_chained f d)
        p ← pointer_of q d'.data2
        desc' ← store q.desc q.next_desc d'
        ok (
          some q.next,
          record q {
            desc = desc';
            next = following (is_last_tx_desc q d') q.next;
            next_desc = p;
            busy_count = (q.busy_count + 1) % 2 ^ 32;
          },
        ))
      else (do
        let d' = give_to_dma offload_needed (fill_ring f d)
        desc' ← store q.desc q.next_desc d'
        ok (
          some q.next,
          record q {
            desc = desc';
            next = following (is_last_tx_desc q d') q.next;
            next_desc = following (is_last_tx_desc q d') q.next_desc;
            busy_count = (q.busy_count + 1) % 2 ^ 32;
          },
        ))

-- What is read from a descriptor that is done.
pub record Done : Type 0 where
  pub index : ℕ
  pub status : ℕ
  pub frame : Frame

unfoldable pub frame_of : DmaDesc → Frame
frame_of d = record {
  buffer1 = d.buffer1;
  length1 = bit_and d.length desc_size1_mask;
  data1 = d.data1;
  buffer2 = d.buffer2;
  length2 = bit_and d.length desc_size2_mask / 2 ^ 16;
  data2 = d.data2;
}

unfoldable pub get_tx_qptr : Queue → Result (Option Done × Queue)
get_tx_qptr q = do
  d ← load q.desc q.busy_desc
  if is_desc_owned_by_dma d || is_desc_empty d then ok (none, q) else (do
    let last = is_last_tx_desc q d
    let done : Done = record { index = q.busy; status = d.status; frame = frame_of d }
    p ← if is_tx_desc_chained d then pointer_of q d.data2 else ok (following last q.busy_desc)
    desc' ←
        store q.desc q.busy_desc
          (if is_tx_desc_chained d then tx_desc_init_chain d else tx_desc_init_ring last)
    ok (
      some done,
      record q {
        desc = desc';
        busy = following last q.busy;
        busy_desc = p;
        busy_count = (q.busy_count + (2 ^ 32 - 1)) % 2 ^ 32;
      },
    ))

-- The queue that `synopGMAC_setup_tx_desc_queue` makes from memory at `addr`.
unfoldable pub init_descs : ℕ → List DmaDesc
init_descs zero = []
init_descs (suc zero) = tx_desc_init_ring true ∷ []
init_descs (suc (suc n)) = tx_desc_init_ring false ∷ init_descs (suc n)

unfoldable pub setup_tx_desc_queue : ℕ → ℕ → Queue
setup_tx_desc_queue addr no_of_desc = record {
  addr = addr;
  desc = init_descs no_of_desc;
  next = 0;
  busy = 0;
  next_desc = 0;
  busy_desc = 0;
  busy_count = 0;
}
