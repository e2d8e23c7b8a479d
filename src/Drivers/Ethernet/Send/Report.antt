-- ===== src/Drivers/Ethernet/Send/Report.antt =====
-- What the statistics of the frames that a call of `rt_eth_tx` takes out of the queue must be.
use losangeles_lakers.Base.{
  ℕ, ◌+◌, ◌-◌, ◌*◌, ◌/◌, ◌%◌, ◌^◌, ◌<◌, ◌==◌, ◌≡◌, refl, ap, ◌∙◌, arith, bit_and, max, Bool, true,
  false, ◌||◌, if◌then◌else◌, List, [], ◌∷◌, ◌++◌, append-nil, append_assoc, Bool-cases, ◌⊎◌, zero,
  suc, ==_false, ==_iff, sym, inl, inr,
}
use mathlib.Core.Path.{ap₂}
use native.Mathlib.Decide.{dec_lt}
use native.Mathlib.Nat.{one-le-pow}
use losangeles_lakers.Base.Bits.{bit}
use losangeles_lakers.Base.Bits.Fields.{bit_and-pow, bit_and-high, bit_and-low_mask}
use losangeles_lakers.Drivers.Ethernet.{Done, has}
use losangeles_lakers.Drivers.Ethernet.Send.{
  Stats, account, collide, add, to_number, is_desc_valid, is_tx_aborted, is_tx_carrier_error,
  get_tx_collision_count,
}
use losangeles_lakers.Drivers.Ethernet.Send.Drained.{tally}

-- A number for each frame whose memory has an address, and their sum.
abbrev pub of_frame : (ℕ → ℕ → ℕ) → Done → ℕ
of_frame f d = if d.frame.data1 == 0 then 0 else f d.status d.frame.length1

abbrev pub total : (Done → ℕ) → List Done → ℕ
total f [] = 0
total f (d ∷ ds) = f d + total f ds

-- Digit 15 of the status is an error of the frame, 8 and 9 say that it was given up, 10 and 11 that
-- there was no carrier, and 3 to 6 are the number of collisions.
abbrev pub sent_well : ℕ → ℕ → ℕ
sent_well status len = 1 - bit status 15

abbrev pub bytes_sent : ℕ → ℕ → ℕ
bytes_sent status len = (1 - bit status 15) * len

abbrev pub failed : ℕ → ℕ → ℕ
failed status len = bit status 15

abbrev pub given_up : ℕ → ℕ → ℕ
given_up status len = bit status 15 * max (bit status 9) (bit status 8)

abbrev pub without_carrier : ℕ → ℕ → ℕ
without_carrier status len = bit status 15 * max (bit status 11) (bit status 10)

abbrev pub collisions_of : ℕ → ℕ
collisions_of status = status / 2 ^ 3 % 2 ^ 4

abbrev pub last_status : ℕ → List Done → ℕ
last_status status [] = status
last_status status (d ∷ ds) = last_status d.status ds

-- The addresses of the memory of the frames.
abbrev pub addresses : List Done → List ℕ
addresses [] = []
addresses (d ∷ ds) = if d.frame.data1 == 0 then addresses ds else d.frame.data1 ∷ addresses ds

-- The statistics behind the frames `ds`.
abbrev pub report : ℕ → List Done → Stats → Stats
report status ds s = record {
  tx_packets = add s.tx_packets (total (of_frame sent_well) ds);
  tx_bytes = add s.tx_bytes (total (of_frame bytes_sent) ds);
  tx_errors = add s.tx_errors (total (of_frame failed) ds);
  tx_aborted_errors = add s.tx_aborted_errors (total (of_frame given_up) ds);
  tx_carrier_errors = add s.tx_carrier_errors (total (of_frame without_carrier) ds);
  collisions =
      add s.collisions
        (total (λ d. collisions_of d.status) ds + collisions_of (last_status status ds));
  freed = s.freed ++ addresses ds;
}

-- The members are `unsigned long`.
abbrev pub IsStats : Stats → Type 0
IsStats s =
    (s.tx_packets < 2 ^ 64)
    × (s.tx_bytes < 2 ^ 64)
    × (s.tx_errors < 2 ^ 64)
    × (s.tx_aborted_errors < 2 ^ 64)
    × (s.tx_carrier_errors < 2 ^ 64)

add-add : (a x y : ℕ) → add (add a x) y ≡ add a (x + y)
add-add a x y = omega arith

add_zero : (a : ℕ) → a < 2 ^ 64 → add a 0 ≡ a
add_zero a h = omega arith

bit-cases : (a i : ℕ) → (bit a i ≡ 0) ⊎ (bit a i ≡ 1)
unfolding bit
bit-cases a zero = elim (dec_lt (a % 2) 1) [
  | yes low ↦ inl (omega arith)
  | no high ↦ inr (omega arith)
]
bit-cases a (suc i) = bit-cases (a / 2) i

-- The tests of the source against the digits.
has-bit : (status k : ℕ) → to_number (has status (2 ^ k)) ≡ bit status k
has-bit status k = elim (bit-cases status k) [
  | inl off ↦
      let none : bit_and status (2 ^ k) ≡ 0 = bit_and-pow k status ∙ rw off (omega arith) in
      rw (none, ==_false 0 (2 ^ k) (omega (arith, one-le-pow k 2)), off) refl
  | inr on ↦
      let whole : bit_and status (2 ^ k) ≡ 2 ^ k = bit_and-pow k status ∙ rw on (omega arith) in
      rw (whole, (==_iff (2 ^ k) (2 ^ k)).1 refl, on) refl
]

or_max : (a b : Bool) → to_number (a || b) ≡ max (to_number a) (to_number b)
or_max true true = refl
or_max true false = refl
or_max false true = refl
or_max false false = refl

is_tx_aborted-bits :
    (status : ℕ) → to_number (is_tx_aborted status) ≡ max (bit status 9) (bit status 8)
unfolding is_tx_aborted
is_tx_aborted-bits status =
    or_max (has status 0x200) (has status 0x100) ∙ ap₂ max (has-bit status 9) (has-bit status 8)

is_tx_carrier_error-bits :
    (status : ℕ) → to_number (is_tx_carrier_error status) ≡ max (bit status 11) (bit status 10)
unfolding is_tx_carrier_error
is_tx_carrier_error-bits status =
    or_max (has status 0x800) (has status 0x400) ∙ ap₂ max (has-bit status 11) (has-bit status 10)

is_desc_valid-bit : (status : ℕ) → is_desc_valid status ≡ (bit status 15 == 0)
unfolding is_desc_valid
is_desc_valid-bit status =
    let e : bit_and status 0x8000 ≡ bit status 15 * 2 ^ 15 = bit_and-pow 15 status in
    elim (bit-cases status 15) [ inl off ↦ rw (e, off) refl | inr on ↦ rw (e, on) refl ]

get_tx_collision_count-digits : (status : ℕ) → get_tx_collision_count status ≡ collisions_of status
unfolding get_tx_collision_count
get_tx_collision_count-digits status =
    let split : status / 2 ^ 3 * 2 ^ 3 + status % 2 ^ 3 ≡ status = omega arith in
    let low : bit_and (status / 2 ^ 3) 15 ≡ status / 2 ^ 3 % 2 ^ 4 =
      bit_and-low_mask 4 (status / 2 ^ 3) in
    let high : bit_and status 0x78 ≡ bit_and (status / 2 ^ 3) 15 * 2 ^ 3 =
      ap (λ (t : ℕ). bit_and t 0x78) (sym split)
      ∙ bit_and-high 3 (status / 2 ^ 3) 15 (status % 2 ^ 3) (omega arith) in
    ap (λ (t : ℕ). t / 2 ^ 3) (high ∙ ap (λ (t : ℕ). t * 2 ^ 3) low) ∙ omega arith

-- One frame.
account-report :
    (d : Done) (s : Stats)
    → IsStats s
    → account d s ≡ record {
      tx_packets = add s.tx_packets (of_frame sent_well d);
      tx_bytes = add s.tx_bytes (of_frame bytes_sent d);
      tx_errors = add s.tx_errors (of_frame failed d);
      tx_aborted_errors = add s.tx_aborted_errors (of_frame given_up d);
      tx_carrier_errors = add s.tx_carrier_errors (of_frame without_carrier d);
      collisions = s.collisions;
      freed = s.freed ++ addresses (d ∷ []);
    }
unfolding account
account-report d s (p, b, e, a, c) = elim (Bool-cases (d.frame.data1 == 0)) [
  | inl none ↦
      rw
        (
          none,
          add_zero s.tx_packets p,
          add_zero s.tx_bytes b,
          add_zero s.tx_errors e,
          add_zero s.tx_aborted_errors a,
          add_zero s.tx_carrier_errors c,
          append-nil s.freed,
        )
        refl
  | inr held ↦ elim (bit-cases d.status 15) [
    | inl well ↦
        let bytes : add s.tx_bytes d.frame.length1 ≡ add s.tx_bytes (1 * d.frame.length1) =
          omega arith in
        let fails = sym (add_zero s.tx_errors e) in
        let aborts : s.tx_aborted_errors
            ≡ add s.tx_aborted_errors (0 * max (bit d.status 9) (bit d.status 8)) =
          omega arith in
        let losses : s.tx_carrier_errors
            ≡ add s.tx_carrier_errors (0 * max (bit d.status 11) (bit d.status 10)) =
          omega arith in
        rw (held, is_desc_valid-bit d.status, well)
          (λ i. record {
            tx_packets = add s.tx_packets 1;
            tx_bytes = bytes i;
            tx_errors = fails i;
            tx_aborted_errors = aborts i;
            tx_carrier_errors = losses i;
            collisions = s.collisions;
            freed = s.freed ++ (d.frame.data1 ∷ []);
          })
    | inr bad ↦
        let packets = sym (add_zero s.tx_packets p) in
        let bytes : s.tx_bytes ≡ add s.tx_bytes (0 * d.frame.length1) = omega arith in
        let aborts : add s.tx_aborted_errors (to_number (is_tx_aborted d.status))
            ≡ add s.tx_aborted_errors (1 * max (bit d.status 9) (bit d.status 8)) =
          omega (arith, is_tx_aborted-bits d.status) in
        let losses : add s.tx_carrier_errors (to_number (is_tx_carrier_error d.status))
            ≡ add s.tx_carrier_errors (1 * max (bit d.status 11) (bit d.status 10)) =
          omega (arith, is_tx_carrier_error-bits d.status) in
        rw (held, is_desc_valid-bit d.status, bad)
          (λ i. record {
            tx_packets = packets i;
            tx_bytes = bytes i;
            tx_errors = add s.tx_errors 1;
            tx_aborted_errors = aborts i;
            tx_carrier_errors = losses i;
            collisions = s.collisions;
            freed = s.freed ++ (d.frame.data1 ∷ []);
          })
  ]
]

IsStats-account : (d : Done) (s : Stats) → IsStats s → IsStats (collide d.status (account d s))
unfolding collide
IsStats-account d s h = rw (account-report d s h) (omega arith)

addresses_cons :
    (d : Done) (ds : List Done) (l : List ℕ)
    → (l ++ addresses (d ∷ [])) ++ addresses ds ≡ l ++ addresses (d ∷ ds)
addresses_cons d ds l = elim (Bool-cases (d.frame.data1 == 0)) [
  | inl none ↦ rw (none, append-nil l) refl
  | inr held ↦ rw held (append_assoc l (d.frame.data1 ∷ []) (addresses ds))
]

-- The counting of the source, frame by frame, gives the report.
pub tally-report :
    (status : ℕ) (ds : List Done) (s : Stats) → IsStats s → tally status ds s ≡ report status ds s
unfolding tally collide
tally-report status [] s (p, b, e, a, c) =
    let hits : add s.collisions (get_tx_collision_count status)
        ≡ add s.collisions (0 + collisions_of status) =
      omega (arith, get_tx_collision_count-digits status) in
    (λ i. record {
      tx_packets = sym (add_zero s.tx_packets p) i;
      tx_bytes = sym (add_zero s.tx_bytes b) i;
      tx_errors = sym (add_zero s.tx_errors e) i;
      tx_aborted_errors = sym (add_zero s.tx_aborted_errors a) i;
      tx_carrier_errors = sym (add_zero s.tx_carrier_errors c) i;
      collisions = hits i;
      freed = sym (append-nil s.freed) i;
    })
tally-report status (d ∷ ds) s h =
    let rest = total (λ d'. collisions_of d'.status) ds in
    let last = collisions_of (last_status d.status ds) in
    let hits : add (add s.collisions (get_tx_collision_count d.status)) (rest + last)
        ≡ add s.collisions (collisions_of d.status + rest + last) =
      omega (arith, get_tx_collision_count-digits d.status) in
    tally-report d.status ds (collide d.status (account d s)) (IsStats-account d s h)
    ∙ ap (λ t. report d.status ds (collide d.status t)) (account-report d s h)
    ∙ (λ i. record {
      tx_packets = add-add s.tx_packets (of_frame sent_well d) (total (of_frame sent_well) ds) i;
      tx_bytes = add-add s.tx_bytes (of_frame bytes_sent d) (total (of_frame bytes_sent) ds) i;
      tx_errors = add-add s.tx_errors (of_frame failed d) (total (of_frame failed) ds) i;
      tx_aborted_errors =
          add-add s.tx_aborted_errors (of_frame given_up d) (total (of_frame given_up) ds) i;
      tx_carrier_errors =
          add-add s.tx_carrier_errors (of_frame without_carrier d)
            (total (of_frame without_carrier) ds) i;
      collisions = hits i;
      freed = addresses_cons d ds s.freed i;
    })
