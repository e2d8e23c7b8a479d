-- ===== src/Drivers/Ethernet/Receive/Turns.antt =====
-- The calls of `rt_eth_rx` go round the ring, and give each buffer to the device again.
use losangeles_lakers.Base.{
  ℕ, suc, ◌+◌, ◌-◌, ◌%◌, ◌^◌, ◌<◌, ◌≤◌, ◌≡◌, ◌≢◌, refl, sym, ap, ◌∙◌, Bool, true, false, ◌==◌,
  ==_cases, Bool-cases, inl, inr, ltb-false, if◌then◌else◌, some, List, length, Result, ok, load,
  put, load-put, load-put_other, length-put, arith,
}
use losangeles_lakers.Drivers.Ethernet.{DmaDesc, Queue, following}
use losangeles_lakers.Drivers.Ethernet.Fifo.{wrap, following-wrap, wrap_lt}
use losangeles_lakers.Drivers.Ethernet.Receive.{
  rx_desc_init_ring, set_rx_qptr, is_rx_desc_valid, get_rx_desc_frame_length, receive_desc_size,
  RxStats, Receiver, count_error, Got, no_packet, packet_of, copy_packet, take_frame, buffer_at,
}
use losangeles_lakers.Drivers.Ethernet.Receive.Listens.{
  Buffer, listening, heard, buffer_of, rx_desc_of, IsBuffer,
}

-- The buffers of the descriptors, and the one that is looked at next.
pub record Line : Type 0 where
  pub place : ℕ
  pub slots : List Buffer

-- What is received at a place: the bytes of a valid frame without its checksum, or an error that is
-- counted.
unfoldable pub turned : Result Buffer → RxStats → Line → Got × RxStats × Line
turned (ok (heard a st)) s l = (
  if is_rx_desc_valid st then packet_of a (get_rx_desc_frame_length st - 4) else no_packet,
  if is_rx_desc_valid st then s else count_error st s,
  record { place = wrap (length l.slots) l.place 1; slots = put l.slots l.place (listening a) },
)
turned e s l = (no_packet, s, l)

abbrev pub turn : RxStats → Line → Got × RxStats × Line
turn s l = turned (load l.slots l.place) s l

pub record Listens (map_single : ℕ → ℕ) (size : ℕ) (l : Line) (q : Queue) : Type 0 where
  pub cells : length q.desc ≡ size
  pub held : length l.slots ≡ size
  pub small : size ≤ receive_desc_size
  pub inside : l.place < size
  pub located : (q.addr == 0) ≡ false
  pub busy : q.busy ≡ l.place
  pub busy_desc : q.busy_desc ≡ l.place
  pub next : q.next ≡ l.place
  pub next_desc : q.next_desc ≡ l.place
  pub count : q.busy_count ≡ size
  pub loads :
      (k : ℕ) (e : Buffer)
      → load l.slots k ≡ ok e
      → load q.desc k ≡ ok (rx_desc_of map_single (suc k == size) e)
  pub buffers : (k : ℕ) (e : Buffer) → load l.slots k ≡ ok e → IsBuffer e

copied : (a len : ℕ) → len < 2 ^ 16 → copy_packet true a len ≡ ok (packet_of a len)
unfolding copy_packet
copied a len h =
    let same : len % 2 ^ 16 ≡ len = omega arith in rw (same, ltb-false len len (omega arith)) refl

-- A descriptor is written, and what is known of its buffer.
pub put-loads :
    (D : ℕ → Buffer → DmaDesc) (xs : List DmaDesc) (es : List Buffer) (j : ℕ) (new : Buffer)
    → j < length xs
    → j < length es
    → ((k : ℕ) (e : Buffer) → k ≢ j → load es k ≡ ok e → load xs k ≡ ok (D k e))
    → (k : ℕ) (e : Buffer) → load (put es j new) k ≡ ok e
    → load (put xs j (D j new)) k ≡ ok (D k e)
put-loads D xs es j new inside held loads k e at = elim (==_cases k j) [
  | inl i ↦
      let found : ok new ≡ ok e =
        sym (load-put es j new held) ∙ ap (load (put es j new)) (sym i) ∙ at in
      let same : new ≡ e = cc in rw (i, sym same) (load-put xs j (D j new) inside)
  | inr i ↦
      let apart : k ≢ j = ground arith in
      load-put_other xs j (D j new) k apart
      ∙ loads k e apart (sym (load-put_other es j new k apart) ∙ at)
]

pub put-buffers :
    (es : List Buffer) (j : ℕ) (new : Buffer)
    → j < length es
    → IsBuffer new
    → ((k : ℕ) (e : Buffer) → load es k ≡ ok e → IsBuffer e)
    → (k : ℕ) (e : Buffer) → load (put es j new) k ≡ ok e
    → IsBuffer e
put-buffers es j new held good buffers k e at = elim (==_cases k j) [
  | inl i ↦
      let found : ok new ≡ ok e =
        sym (load-put es j new held) ∙ ap (load (put es j new)) (sym i) ∙ at in
      let same : new ≡ e = cc in rw (sym same) good
  | inr i ↦
      let apart : k ≢ j = ground arith in buffers k e (sym (load-put_other es j new k apart) ∙ at)
]

module _ (map_single : ℕ → ℕ) where
  -- The frame that is done is taken, and its buffer put back.
  pub took :
      (a st b i : ℕ) (n : Receiver) (q' : Queue)
      → IsBuffer (heard a st)
      → set_rx_qptr (buffer_of map_single a) n.queue ≡ ok (some i, q')
      → take_frame map_single true
          (record { index = b; status = st; frame = buffer_of map_single a })
          n
        ≡ ok (
          if is_rx_desc_valid st then packet_of a (get_rx_desc_frame_length st - 4) else no_packet,
          record n {
            queue = q';
            stats = if is_rx_desc_valid st then n.stats else count_error st n.stats;
          },
        )
  unfolding take_frame IsBuffer buffer_at
  took a st b i n q' (some_address, returned, low, high) sets =
      let len = get_rx_desc_frame_length st in
      let bytes : (len + (2 ^ 32 - 4)) % 2 ^ 32 ≡ len - 4 = omega arith in
      elim (Bool-cases (is_rx_desc_valid st)) [
        | inl valid ↦ rw (bytes, valid, copied a (len - 4) (omega arith), sets, valid) refl
        | inr invalid ↦ rw (invalid, sets, invalid) refl
      ]

  unfoldable pub again : Bool → ℕ → Queue → Queue
  again last a q = record q {
    desc =
        put (put q.desc q.busy_desc (rx_desc_init_ring last)) q.next_desc
          (rx_desc_of map_single last (listening a));
    next = following last q.next;
    next_desc = following last q.next_desc;
    busy = following last q.busy;
    busy_desc = following last q.busy_desc;
    busy_count = ((q.busy_count + (2 ^ 32 - 1)) % 2 ^ 32 + 1) % 2 ^ 32;
  }

  pub again-Listens :
      (size a st : ℕ) (s : RxStats) (l : Line) (q : Queue)
      → Listens map_single size l q
      → load l.slots l.place ≡ ok (heard a st)
      → Listens map_single size (turned (ok (heard a st)) s l).2 (again (suc l.place == size) a q)
  unfolding turned again IsBuffer
  again-Listens size a st s l q h is =
      let b = l.place in
      let d = rx_desc_of map_single (suc b == size) (listening a) in
      let (some_address, returned, low, high) = h.buffers b (heard a st) is in
      let on : following (suc b == size) b ≡ wrap (length l.slots) b 1 =
        following-wrap size b h.inside ∙ ap (λ t. wrap t b 1) (sym h.held) in
      let first = put q.desc q.busy_desc (rx_desc_init_ring (suc b == size)) in
      let D : ℕ → Buffer → DmaDesc = λ k e. rx_desc_of map_single (suc k == size) e in
      let held : b < length l.slots = omega (arith, h.held, h.inside) in
      let room : b < length first = omega (
        arith,
        length-put q.desc q.busy_desc (rx_desc_init_ring (suc b == size)),
        h.cells,
        h.inside,
      ) in
      let rest : (k : ℕ) (e : Buffer) → k ≢ b → load l.slots k ≡ ok e → load first k ≡ ok (D k e) =
        λ k e apart at.
          rw h.busy_desc (
            load-put_other q.desc b (rx_desc_init_ring (suc b == size)) k apart ∙ h.loads k e at) in
      record {
        cells =
            length-put first q.next_desc d
            ∙ length-put q.desc q.busy_desc (rx_desc_init_ring (suc b == size))
            ∙ h.cells;
        held = length-put l.slots b (listening a) ∙ h.held;
        small = h.small;
        inside = rw h.held (wrap_lt size b 1 h.inside (omega (arith, h.inside)));
        located = h.located;
        busy = rw h.busy on;
        busy_desc = rw h.busy_desc on;
        next = rw h.next on;
        next_desc = rw h.next_desc on;
        count = omega (arith, h.count, h.small, h.inside);
        loads = rw h.next_desc (put-loads D first l.slots b (listening a) room held rest);
        buffers = put-buffers l.slots b (listening a) held some_address h.buffers;
      }
