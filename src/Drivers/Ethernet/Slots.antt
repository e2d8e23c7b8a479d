-- ===== src/Drivers/Ethernet/Slots.antt =====
-- What a descriptor of the ring can be: free, given to the device, or done by it.
use losangeles_lakers.Base.{
  ℕ, ◌+◌, ◌*◌, ◌/◌, ◌%◌, ◌^◌, ◌<◌, bit_and, bit_or, ◌≡◌, refl, ◌∙◌, Option, none, some, Bool, true,
  false, ◌==◌, arith, ==_false,
}
use losangeles_lakers.Base.Bits.Fields.{bit_or-shifted, bit_or_comm, bit_and-low_mask, bit_and-high}
use losangeles_lakers.Drivers.Ethernet.{
  DmaDesc, Queue, Frame, has, desc_own_by_dma, tx_desc_end_of_ring, tx_desc_chain,
  is_desc_owned_by_dma, is_desc_empty, is_last_tx_desc, is_tx_desc_chained, tx_desc_init_ring,
  give_to_dma, fill_ring, frame_of, sizes,
}

-- A frame in the queue: the device has it, or has left its status.
pub data Sent : Type 0 where
  given : Frame → Sent
  done : Frame → ℕ → Sent

-- The descriptor, of which `last` says whether it ends the ring; `none` for a free one.
unfoldable pub desc_of : Bool → Option Sent → DmaDesc
desc_of last none = tx_desc_init_ring last
desc_of last (some (given f)) = give_to_dma false (fill_ring f (tx_desc_init_ring last))
desc_of last (some (done f st)) =
    record (give_to_dma false (fill_ring f (tx_desc_init_ring last))) { status = st }

-- A frame that fits a descriptor of the ring at `addr`.
pub record IsFrame (addr : ℕ) (f : Frame) : Type 0 where
  pub some_bytes : 0 < f.length1
  pub fits1 : f.length1 < 2 ^ 13
  pub fits2 : f.length2 < 2 ^ 13
  pub apart : (addr == f.data2) ≡ false

-- What the device leaves in a status: it gives the descriptor back, and keeps what it is told of the
-- ring.
pub record IsStatus (last : Bool) (st : ℕ) : Type 0 where
  pub returned : has st desc_own_by_dma ≡ false
  pub ring_end : has st tx_desc_end_of_ring ≡ last
  pub unchained : has st tx_desc_chain ≡ false

sizes-sum : (a b : ℕ) → a < 2 ^ 13 → b < 2 ^ 13 → sizes a b ≡ b * 2 ^ 16 + a
unfolding sizes
sizes-sum a b h k =
    let low : bit_and a 8191 ≡ a = omega (arith, bit_and-low_mask 13 a) in
    let shift : b * 2 ^ 16 % 2 ^ 32 ≡ b * 2 ^ 16 + 0 = omega arith in
    let high : bit_and b 8191 ≡ b = omega (arith, bit_and-low_mask 13 b) in
    rw (low, shift, bit_and-high 16 b 8191 0 (omega arith), high, bit_or_comm a (b * 2 ^ 16))
      (bit_or-shifted 16 b a (omega arith))

-- The length word of a frame, and the parts of it.
length-sizes : (a b : ℕ) → a < 2 ^ 13 → b < 2 ^ 13 → bit_or 0 (sizes a b) ≡ b * 2 ^ 16 + a
length-sizes a b h k =
    rw (sizes-sum a b h k) (omega (arith, bit_or-shifted 32 0 (b * 2 ^ 16 + a) (omega arith)))

low-sizes : (a b : ℕ) → a < 2 ^ 13 → b < 2 ^ 13 → bit_and (b * 2 ^ 16 + a) 8191 ≡ a
low-sizes a b h k = omega (arith, bit_and-low_mask 13 (b * 2 ^ 16 + a))

high-sizes : (a b : ℕ) → a < 2 ^ 13 → b < 2 ^ 13 → bit_and (b * 2 ^ 16 + a) 0x1fff0000 ≡ b * 2 ^ 16
high-sizes a b h k =
    let top : bit_and b 8191 ≡ b = omega (arith, bit_and-low_mask 13 b) in
    bit_and-high 16 b 8191 a (omega arith) ∙ rw top refl

-- The tests of a descriptor that is free, given to the device, and done.
pub free-tests :
    (last : Bool)
    → (is_desc_empty (desc_of last none) ≡ true) × (is_tx_desc_chained (desc_of last none) ≡ false)
unfolding desc_of is_desc_empty is_tx_desc_chained tx_desc_init_ring
free-tests true = (refl, refl)
free-tests false = (refl, refl)

pub free-not_owned : (last : Bool) → is_desc_owned_by_dma (desc_of last none) ≡ false
unfolding desc_of is_desc_owned_by_dma tx_desc_init_ring
free-not_owned true = refl
free-not_owned false = refl

not_empty :
    (f : Frame) (d : DmaDesc) (addr : ℕ)
    → IsFrame addr f
    → d.length ≡ bit_or 0 (sizes f.length1 f.length2)
    → is_desc_empty d ≡ false
unfolding is_desc_empty
not_empty f d addr h e =
    rw
      (
        e,
        length-sizes f.length1 f.length2 h.fits1 h.fits2,
        low-sizes f.length1 f.length2 h.fits1 h.fits2,
        ==_false f.length1 0 (omega (arith, h.some_bytes)),
      )
      refl

pub given-not_empty :
    (last : Bool) (f : Frame) (addr : ℕ)
    → IsFrame addr f
    → is_desc_empty (desc_of last (some (given f))) ≡ false
unfolding desc_of give_to_dma fill_ring tx_desc_init_ring
given-not_empty last f addr h = not_empty f (desc_of last (some (given f))) addr h refl

pub done-not_empty :
    (last : Bool) (f : Frame) (st addr : ℕ)
    → IsFrame addr f
    → is_desc_empty (desc_of last (some (done f st))) ≡ false
unfolding desc_of give_to_dma fill_ring tx_desc_init_ring
done-not_empty last f st addr h = not_empty f (desc_of last (some (done f st))) addr h refl

pub given-owned :
    (last : Bool) (f : Frame) → is_desc_owned_by_dma (desc_of last (some (given f))) ≡ true
unfolding desc_of give_to_dma fill_ring tx_desc_init_ring is_desc_owned_by_dma
given-owned true f = refl
given-owned false f = refl

pub given-last :
    (last : Bool) (f : Frame) (q : Queue)
    → IsFrame q.addr f
    → is_last_tx_desc q (desc_of last (some (given f))) ≡ last
unfolding desc_of give_to_dma fill_ring tx_desc_init_ring is_last_tx_desc
given-last true f q h = refl
given-last false f q h = h.apart

pub done-tests :
    (last : Bool) (f : Frame) (st : ℕ) (q : Queue)
    → IsFrame q.addr f
    → IsStatus last st
    → (is_desc_owned_by_dma (desc_of last (some (done f st))) ≡ false)
      × (is_tx_desc_chained (desc_of last (some (done f st))) ≡ false)
      × (is_last_tx_desc q (desc_of last (some (done f st))) ≡ last)
unfolding desc_of give_to_dma fill_ring tx_desc_init_ring is_desc_owned_by_dma is_tx_desc_chained
    is_last_tx_desc
done-tests true f st q h k = (k.returned, k.unchained, rw k.ring_end refl)
done-tests false f st q h k = (k.returned, k.unchained, rw (k.ring_end, h.apart) refl)

-- The frame is read back as it was put in.
pub done-frame :
    (last : Bool) (f : Frame) (st addr : ℕ)
    → IsFrame addr f
    → frame_of (desc_of last (some (done f st))) ≡ f
unfolding desc_of give_to_dma fill_ring tx_desc_init_ring frame_of
done-frame last f st addr h =
    let half : f.length2 * 2 ^ 16 / 2 ^ 16 ≡ f.length2 = omega arith in
    rw
      (
        length-sizes f.length1 f.length2 h.fits1 h.fits2,
        low-sizes f.length1 f.length2 h.fits1 h.fits2,
        high-sizes f.length1 f.length2 h.fits1 h.fits2,
        half,
      )
      refl
