-- ===== src/Drivers/Vs1003/Record/Taken.antt =====
-- What a recording that ends has taken.
use losangeles_lakers.Base.{
  ℕ, zero, suc, ◌+◌, ◌-◌, ◌*◌, ◌%◌, ◌^◌, ◌<◌, leb, ◌≡◌, refl, true, false, Bool, if◌then◌else◌,
  List, [], ◌∷◌, ◌++◌, All, length, length-append, drop, Result, ok, fault, stuck, arith,
}
use losangeles_lakers.Base.Int.{ℤ, pos, negsuc, dec_ℕ, to_u32}
use losangeles_lakers.Base.Io.{◌>>=◌, pure, lift}
use losangeles_lakers.Drivers.Spi.{SpiEvent, Bus, Io}
use losangeles_lakers.Drivers.Vs1003.{read_register, vs1003_record_mode_init, vs1003_reset}
use losangeles_lakers.Drivers.Vs1003.Sci
use losangeles_lakers.Drivers.Vs1003.Bytes.{Output, Sends, Sends-then}
use losangeles_lakers.Drivers.Vs1003.Record.{
  read_words, drain, record_round, record_loop, minus, write_header, bit_converter, twice, concat,
  vs1003_record,
}

-- The value alone, where the action ends.
abbrev Gives : {A : Type 0} → Io A → (A → Type 0) → Type 0
Gives m Q = Sends m (λ a xs. Q a)

Output-any : {A : Type 0} (x : Result (A × List SpiEvent × Bus)) → Output (λ a xs. Unit {0}) x
Output-any (ok y) = tt
Output-any (fault e) = tt
Output-any stuck = tt

Gives-any : {A : Type 0} (m : Io A) → Gives m (λ a. Unit {0})
Gives-any m = record { run = λ w. Output-any (m w) }

Gives-if :
    {A : Type 0} (Q : A → Type 0) (c : Bool) (m k : Io A)
    → Gives m Q
    → Gives k Q
    → Gives (if c then m else k) Q
Gives-if Q true m k h g = h
Gives-if Q false m k h g = g

Gives-then :
    {A B : Type 0} (R : A → Type 0) (Q : B → Type 0) (m : Io A) (f : A → Io B)
    → Gives m R
    → ((a : A) → R a → Gives (f a) Q)
    → Gives (m >>= f) Q
Gives-then R Q m f h k = Sends-then m f h (λ a xs r. k a r)

read_words-length : (n : ℕ) → Gives (read_words n) (λ db. length db ≡ n * 2)
unfolding read_words
read_words-length zero = record { run = λ w. refl }
read_words-length (suc n) =
    Gives-then _ _ _ _ (Gives-any (read_register Sci.hdat0))
      (λ w _. Gives-then _ _ _ _ (read_words-length n) (λ db e. record { run = λ w'. omega arith }))

-- A batch is 512 bytes.
abbrev pub IsBatch : List ℕ → Type 0
IsBatch db = length db ≡ 512

abbrev Batches : List (List ℕ) → Type 0
Batches dbs = All IsBatch dbs

All-append : (xs ys : List (List ℕ)) → Batches xs → Batches ys → Batches (xs ++ ys)
All-append [] ys h k = k
All-append (x ∷ xs) ys h k = (h.0, All-append xs ys h.1 k)

none-Batches : Gives (pure []) Batches
none-Batches = record { run = λ w. tt }

drain-Batches : (rounds t : ℕ) → Gives (drain rounds t) Batches
unfolding drain
drain-Batches zero t =
    Gives-if Batches (leb 256 t) (lift stuck) (pure []) (record { run = λ w. tt }) none-Batches
drain-Batches (suc rounds) t =
    Gives-if Batches (leb 256 t) _ (pure [])
      (Gives-if Batches (leb 896 t) (pure []) _ none-Batches (
        Gives-then _ _ _ _ (read_words-length 256) (λ db e.
          Gives-then _ _ _ _ (drain-Batches rounds (t - 256))
            (λ dbs h. record { run = λ w. (e, h) }))))
      none-Batches

minus-append : (len : ℤ) (a b : ℕ) → minus len (a + b) ≡ minus (minus len a) b
minus-append len zero b = let z : 0 + b ≡ b = omega arith in rw z refl
minus-append (pos n) (suc a) b =
    let z : suc a + b ≡ suc (a + b) = omega arith in rw z (minus-append (dec_ℕ n) a b)
minus-append (negsuc n) (suc a) b =
    let z : suc a + b ≡ suc (a + b) = omega arith in rw z (minus-append (negsuc (suc n)) a b)

-- The batches bring the counter to zero.
abbrev Counted : ℤ → List (List ℕ) → Type 0
Counted len dbs = Batches dbs × (minus len (length dbs) ≡ pos 0)

record_round-Counted :
    (len : ℤ) (loop : ℤ → Io (List (List ℕ)))
    → ((l : ℤ) → Gives (loop l) (Counted l))
    → Gives
        (record_round >>= λ dbs. loop (minus len (length dbs)) >>= λ rest. pure (dbs ++ rest))
        (Counted len)
unfolding record_round
record_round-Counted len loop h =
    Gives-then Batches _ _ _
      (Gives-then _ _ _ _ (Gives-any (read_register Sci.hdat1)) (λ t _. drain-Batches t t))
      (λ dbs b. Gives-then _ _ _ _ (h (minus len (length dbs))) (λ rest (c, e). record {
        run = λ w. (
          All-append dbs rest b c,
          rw (length-append dbs rest, minus-append len (length dbs) (length rest)) e,
        );
      }))

record_loop-Counted : (rounds : ℕ) (len : ℤ) → Gives (record_loop rounds len) (Counted len)
unfolding record_loop
record_loop-Counted rounds (pos zero) = record { run = λ w. (tt, refl) }
record_loop-Counted zero (pos (suc n)) = record { run = λ w. tt }
record_loop-Counted zero (negsuc n) = record { run = λ w. tt }
record_loop-Counted (suc rounds) (pos (suc n)) =
    record_round-Counted (pos (suc n)) (record_loop rounds) (record_loop-Counted rounds)
record_loop-Counted (suc rounds) (negsuc n) =
    record_round-Counted (negsuc n) (record_loop rounds) (record_loop-Counted rounds)

minus-zero : (len : ℤ) (k : ℕ) → minus len k ≡ pos 0 → len ≡ pos k
minus-zero len zero e = e
minus-zero (pos zero) (suc k) e = cc (minus-zero (negsuc 0) k e)
minus-zero (pos (suc n)) (suc k) e = let h : n ≡ k = cc (minus-zero (pos n) k e) in rw h refl
minus-zero (negsuc n) (suc k) e = cc (minus-zero (negsuc (suc n)) k e)

length-concat : (dbs : List (List ℕ)) → Batches dbs → length (concat dbs) ≡ length dbs * 512
length-concat [] h = refl
length-concat (db ∷ dbs) h =
    omega (arith, length-append db (concat dbs), length-concat dbs h.1, h.0)

-- The word that four bytes spell, the lowest first.
abbrev pub word_of : List ℕ → ℕ
word_of (a ∷ b ∷ c ∷ d ∷ xs) = a + b * 256 + c * 65536 + d * 16777216
word_of xs = 0

-- A file of `n` batches behind a header whose two lengths are right.
pub record IsRecording (n : ℕ) (file : List ℕ) : Type 0 where
  pub batches : List (List ℕ)
  pub taken : length batches ≡ n
  pub filled : All IsBatch batches
  pub behind_header : drop 60 file ≡ concat batches
  pub whole : length file ≡ 60 + n * 512
  pub riff_length : word_of (drop 4 file) + 8 ≡ length file
  pub data_length : word_of (drop 56 file) ≡ n * 512

-- `len` is below 2 ^ 22.
abbrev pub IsShort : ℤ → Type 0
IsShort (pos n) = n < 2 ^ 22
IsShort (negsuc n) = Unit

word_of-bit_converter : (d : ℕ) → d < 2 ^ 32 → word_of (bit_converter d) ≡ d
word_of-bit_converter d h = omega arith

recording :
    (n : ℕ) (dbs : List (List ℕ))
    → n < 2 ^ 22
    → Batches dbs
    → length dbs ≡ n
    → IsRecording n (write_header (to_u32 (twice (pos n))) 8000 ++ concat dbs)
unfolding write_header
recording n dbs h b e =
    let small : 2 * n % 2 ^ 32 ≡ 2 * n = omega arith in
    let riff : (2 * n * 256 + 52) % 2 ^ 32 ≡ 2 * n * 256 + 52 = omega arith in
    let size : 2 * n * 256 % 2 ^ 32 ≡ n * 512 = omega arith in
    let long : length (concat dbs) ≡ n * 512 = omega (arith, length-concat dbs b) in
    record {
      batches = dbs;
      taken = e;
      filled = b;
      behind_header = refl;
      whole = rw (long) (omega arith);
      riff_length =
          rw (small, riff, long)
            (omega (arith, word_of-bit_converter (2 * n * 256 + 52) (omega arith)));
      data_length = rw (small, size) (word_of-bit_converter (n * 512) (omega arith));
    }

abbrev Recorded : ℤ → List ℕ → Type 0
Recorded len file = (n : ℕ) × (len ≡ pos n) × IsRecording n file

Counted-Recorded :
    (len : ℤ) (dbs : List (List ℕ))
    → IsShort len
    → Counted len dbs
    → Recorded len (write_header (to_u32 (twice len)) 8000 ++ concat dbs)
Counted-Recorded (pos n) dbs h (b, e) =
    let k : length dbs ≡ n = cc (minus-zero (pos n) (length dbs) e) in
    (n, refl, recording n dbs h b k)
Counted-Recorded (negsuc n) dbs h (b, e) = cc (minus-zero (negsuc n) (length dbs) e)

record-Gives :
    (rounds : ℕ) (len : ℤ) → IsShort len → Gives (vs1003_record rounds len) (Recorded len)
unfolding vs1003_record
record-Gives rounds len h = Gives-then _ _ _ _ (Gives-any vs1003_record_mode_init) (λ _ _.
    Gives-then _ _ _ _ (record_loop-Counted rounds len) (λ dbs c.
      Gives-then _ _ _ _ (Gives-any vs1003_reset)
        (λ _ _. record { run = λ w'. Counted-Recorded len dbs h c })))

-- Whatever the codec replied, a recording of a `len` below 2 ^ 22 that ends has taken exactly `len`
-- batches of 512 bytes, so that `len` was not below zero, and its file is a header of 60 bytes with
-- the batches behind it, whose two lengths, of the file without its first eight bytes and of the
-- data, are right.
pub vs1003_record-taken :
    (rounds : ℕ) (len : ℤ) (w w' : Bus) (es : List SpiEvent) (file : List ℕ)
    → IsShort len
    → vs1003_record rounds len w ≡ ok (file, es, w')
    → (n : ℕ) × (len ≡ pos n) × IsRecording n file
vs1003_record-taken rounds len w w' es file h e = rw e at ((record-Gives rounds len h).run w)
