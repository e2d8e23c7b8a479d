-- ===== src/Drivers/Ethernet/Receive/Events.antt =====
-- The device hears frames and the system asks for packets, in any order.
use losangeles_lakers.Base.{
  ℕ, zero, suc, ◌<◌, ◌≡◌, refl, ◌∙◌, true, ◌==◌, List, [], ◌∷◌, ◌++◌, length, Result, ok, load, put,
  store-put, length-put, arith, ◌>>=◌,
}
use losangeles_lakers.Drivers.Ethernet.{DmaDesc, Queue}
use losangeles_lakers.Drivers.Ethernet.Fifo.{complete}
use losangeles_lakers.Drivers.Ethernet.Receive.{RxStats, Receiver, Got, rt_eth_rx}
use losangeles_lakers.Drivers.Ethernet.Receive.Listens.{
  Buffer, listening, heard, rx_desc_of, IsBuffer, listening-heard,
}
use losangeles_lakers.Drivers.Ethernet.Receive.Turns.{Line, turn, Listens, put-loads, put-buffers}
use losangeles_lakers.Drivers.Ethernet.Receive.Received.{rt_eth_rx-turn}

-- The device writes the status of a frame at a place, or the system asks for a packet.
pub data Event : Type 0 where
  deliver : ℕ → ℕ → Event
  ask : Event

unfoldable pub event : (ℕ → ℕ) → Event → Receiver → Result (List Got × Receiver)
event map_single (deliver k st) n = complete k st n.queue >>= λ q. ok ([], record n { queue = q })
event map_single ask n = rt_eth_rx map_single true true n >>= λ r. ok (r.0 ∷ [], r.1)

unfoldable pub events : (ℕ → ℕ) → List Event → Receiver → Result (List Got × Receiver)
events map_single [] n = ok ([], n)
events map_single (e ∷ es) n =
    event map_single e n >>= λ r. events map_single es r.1 >>= λ rs. ok (r.0 ++ rs.0, rs.1)

-- The same on the line of the buffers.
unfoldable pub hear : Result Buffer → ℕ → ℕ → List Buffer → List Buffer
hear (ok (listening a)) k st es = put es k (heard a st)
hear e k st es = es

unfoldable pub line_event : Event → RxStats → Line → List Got × RxStats × Line
line_event (deliver k st) s l = ([], s, record l { slots = hear (load l.slots k) k st l.slots })
line_event ask s l = let r = turn s l in (r.0 ∷ [], r.1, r.2)

unfoldable pub line_events : List Event → RxStats → Line → List Got × RxStats × Line
line_events [] s l = ([], s, l)
line_events (e ∷ es) s l =
    let r = line_event e s l in let rs = line_events es r.1 r.2 in (r.0 ++ rs.0, rs.1, rs.2)

-- The device writes where it listens, and gives the descriptor back.
unfoldable pub Heard : Event → Line → Type 0
Heard (deliver k st) l = (a : ℕ) × (load l.slots k ≡ ok (listening a)) × IsBuffer (heard a st)
Heard ask l = Unit

unfoldable pub AllHeard : List Event → RxStats → Line → Type 0
AllHeard [] s l = Unit
AllHeard (e ∷ es) s l = let r = line_event e s l in Heard e l × AllHeard es r.1 r.2

pub load_lt : {A : Type 0} (es : List A) (k : ℕ) (e : A) → load es k ≡ ok e → k < length es
load_lt [] k e is = absurd cc
load_lt (x ∷ es) zero e is = omega arith
load_lt (x ∷ es) (suc k) e is = omega (arith, load_lt es k e is)

module _ (map_single : ℕ → ℕ) where
  delivered : (size k st a : ℕ) → Queue → Queue
  delivered size k st a q = record q {
    desc = put q.desc k (rx_desc_of map_single (suc k == size) (heard a st));
  }

  complete-listening :
      (size k st a : ℕ) (l : Line) (q : Queue)
      → Listens map_single size l q
      → load l.slots k ≡ ok (listening a)
      → complete k st q ≡ ok (delivered size k st a q)
  unfolding complete delivered
  complete-listening size k st a l q h is =
      let last = suc k == size in
      rw
        (
          h.loads k (listening a) is,
          listening-heard map_single last a st,
          store-put q.desc k (rx_desc_of map_single last (heard a st))
              (omega (arith, load_lt l.slots k (listening a) is, h.held, h.cells)),
        )
        refl

  deliver-Listens :
      (size k st a : ℕ) (l : Line) (q : Queue)
      → Listens map_single size l q
      → load l.slots k ≡ ok (listening a)
      → IsBuffer (heard a st)
      → Listens map_single size
          (record l { slots = put l.slots k (heard a st) })
          (delivered size k st a q)
  unfolding delivered
  deliver-Listens size k st a l q h is good =
      let D : ℕ → Buffer → DmaDesc = λ i e. rx_desc_of map_single (suc i == size) e in
      let held = load_lt l.slots k (listening a) is in
      record {
        cells = length-put q.desc k (D k (heard a st)) ∙ h.cells;
        held = length-put l.slots k (heard a st) ∙ h.held;
        small = h.small;
        inside = h.inside;
        located = h.located;
        busy = h.busy;
        busy_desc = h.busy_desc;
        next = h.next;
        next_desc = h.next_desc;
        count = h.count;
        loads =
            put-loads D q.desc l.slots k (heard a st) (omega (arith, held, h.held, h.cells)) held
              (λ i e apart at. h.loads i e at);
        buffers = put-buffers l.slots k (heard a st) held good h.buffers;
      }

  event-Listens :
      (size : ℕ) (e : Event) (l : Line) (n : Receiver)
      → Listens map_single size l n.queue
      → 0 < n.sem_lock
      → Heard e l
      → (q' : Queue) × (event map_single e n
          ≡ ok (
            (line_event e n.stats l).0,
            record n { queue = q'; stats = (line_event e n.stats l).1 },
          ))
        × Listens map_single size (line_event e n.stats l).2 q'
  unfolding event line_event Heard hear
  event-Listens size (deliver k st) l n h lock (a, is, good) =
      rw (complete-listening size k st a l n.queue h is, is)
        (delivered size k st a n.queue, refl, deliver-Listens size k st a l n.queue h is good)
  event-Listens size ask l n h lock tt =
      let (q', asks, kept) = rt_eth_rx-turn map_single size l n h lock in rw asks (q', refl, kept)

  pub events-Listens :
      (size : ℕ) (es : List Event) (l : Line) (n : Receiver)
      → Listens map_single size l n.queue
      → 0 < n.sem_lock
      → AllHeard es n.stats l
      → (q' : Queue) × (events map_single es n
          ≡ ok (
            (line_events es n.stats l).0,
            record n { queue = q'; stats = (line_events es n.stats l).1 },
          ))
        × Listens map_single size (line_events es n.stats l).2 q'
  unfolding events line_events AllHeard
  events-Listens size [] l n h lock all = (n.queue, refl, h)
  events-Listens size (e ∷ es) l n h lock (here, all) =
      let (q1, first, kept) = event-Listens size e l n h lock here in
      let r = line_event e n.stats l in
      let (q2, rest, held) =
        events-Listens size es r.2 (record n { queue = q1; stats = r.1 }) kept lock all in
      rw (first, rest) (q2, refl, held)
