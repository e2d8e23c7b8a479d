-- ===== src/Drivers/Vs1003/Bytes.antt =====
-- The bytes that the driver sends to the codec, in order.
use losangeles_lakers.Base.{
  ℕ, ◌≡◌, refl, sym, List, [], ◌∷◌, ◌++◌, append_assoc, Result, ok, fault, stuck,
}
use losangeles_lakers.Base.Io.{behind, and_then, ◌>>=◌}
use losangeles_lakers.Drivers.Spi.{SpiEvent, txfifo, Bus, Io}

-- The bytes of the transfers.
unfoldable pub byte_of : SpiEvent → List ℕ
byte_of (txfifo b) = b ∷ []
byte_of _ = []

abbrev pub sent : List SpiEvent → List ℕ
sent [] = []
sent (e ∷ es) = byte_of e ++ sent es

sent-append : (es fs : List SpiEvent) → sent (es ++ fs) ≡ sent es ++ sent fs
sent-append [] fs = refl
sent-append (e ∷ es) fs =
    rw (sent-append es fs) (sym (append_assoc (byte_of e) (sent es) (sent fs)))

-- Where the action ends, its value and the bytes that it sent satisfy `Q`.
abbrev pub Output : {A : Type 0} → (A → List ℕ → Type 0) → Result (A × List SpiEvent × Bus) → Type 0
Output Q (ok (a, es, w)) = Q a (sent es)
Output Q (fault e) = Unit
Output Q stuck = Unit

pub record Sends {A : Type 0} (m : Io A) (Q : A → List ℕ → Type 0) : Type 0 where
  pub run : (w : Bus) → Output Q (m w)

pub Output-behind :
    {B : Type 0} (Q : B → List ℕ → Type 0) (es : List SpiEvent)
    (x : Result (B × List SpiEvent × Bus))
    → Output (λ b ys. Q b (sent es ++ ys)) x
    → Output Q (behind es x)
Output-behind Q es (ok (b, fs, w)) q = rw (sent-append es fs) q
Output-behind Q es (fault e) q = tt
Output-behind Q es stuck q = tt

Output-then :
    {A B : Type 0} (R : A → List ℕ → Type 0) (Q : B → List ℕ → Type 0)
    (x : Result (A × List SpiEvent × Bus)) (f : A → Io B)
    → Output R x
    → ((a : A) (xs : List ℕ) → R a xs → Sends (f a) (λ b ys. Q b (xs ++ ys)))
    → Output Q (and_then x f)
Output-then R Q (ok (a, es, w)) f q k = Output-behind Q es (f a w) ((k a (sent es) q).run w)
Output-then R Q (fault e) f q k = tt
Output-then R Q stuck f q k = tt

pub Sends-then :
    {A B : Type 0} {R : A → List ℕ → Type 0} {Q : B → List ℕ → Type 0} (m : Io A) (f : A → Io B)
    → Sends m R
    → ((a : A) (xs : List ℕ) → R a xs → Sends (f a) (λ b ys. Q b (xs ++ ys)))
    → Sends (m >>= f) Q
Sends-then {R = R} {Q = Q} m f h k = record { run = λ w. Output-then R Q (m w) f (h.run w) k }

-- The bytes alone.
abbrev pub Just : {A : Type 0} → List ℕ → A → List ℕ → Type 0
Just xs a ys = ys ≡ xs

Output-prefix :
    {B : Type 0} (xs ys zs : List ℕ) (x : Result (B × List SpiEvent × Bus))
    → zs ≡ xs
    → Output (Just ys) x
    → Output (λ b ys'. zs ++ ys' ≡ xs ++ ys) x
Output-prefix xs ys zs (ok y) e q = rw (e, q) refl
Output-prefix xs ys zs (fault x) e q = tt
Output-prefix xs ys zs stuck e q = tt

-- Known bytes before known bytes.
pub Sends-Just :
    {A B : Type 0} {xs ys : List ℕ} (m : Io A) (f : A → Io B)
    → Sends m (Just xs)
    → ((a : A) → Sends (f a) (Just ys))
    → Sends (m >>= f) (Just (xs ++ ys))
Sends-Just {xs = xs} {ys = ys} m f h k =
    Sends-then m f h
      (λ a zs e. record { run = λ w. Output-prefix xs ys zs (f a w) e ((k a).run w) })

Output-weaken :
    {A : Type 0} (R Q : A → List ℕ → Type 0) (x : Result (A × List SpiEvent × Bus))
    → Output R x
    → ((a : A) (xs : List ℕ) → R a xs → Q a xs)
    → Output Q x
Output-weaken R Q (ok (a, es, w)) q k = k a (sent es) q
Output-weaken R Q (fault e) q k = tt
Output-weaken R Q stuck q k = tt

pub Sends-weaken :
    {A : Type 0} {R Q : A → List ℕ → Type 0} (m : Io A)
    → Sends m R
    → ((a : A) (xs : List ℕ) → R a xs → Q a xs)
    → Sends m Q
Sends-weaken {R = R} {Q = Q} m h k = record { run = λ w. Output-weaken R Q (m w) (h.run w) k }
