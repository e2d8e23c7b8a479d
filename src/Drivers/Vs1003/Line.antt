-- ===== src/Drivers/Vs1003/Line.antt =====
-- The protocol of the codec's two selects, as a watcher over what the driver does, and the rules by
-- which the driver is shown to follow it.
use losangeles_lakers.Base.{
  ℕ, ◌+◌, ◌-◌, ◌≡◌, refl, ◌∙◌, Bool, ◌&&◌, not, ◌==◌, if◌then◌else◌, Option, none, some, List, [],
  ◌∷◌, ◌++◌, Result, ok, fault, stuck,
}
use losangeles_lakers.Base.Bits.{bit}
use losangeles_lakers.Base.Io.{behind, and_then, ◌>>=◌}
use losangeles_lakers.Drivers.Spi.{SpiEvent, softcs, txfifo, rt_pin_read, Bus, Io}
use losangeles_lakers.Drivers.Vs1003.{x_dreq, x_cs, x_dcs, vs1003_chunk_size}

-- A select is active where it is turned on and its level is low.
unfoldable pub is_active : ℕ → ℕ → Bool
is_active cs val = (bit val cs == 1) && (bit val (4 + cs) == 0)

-- The selects, and the bytes of data that the codec has announced room for since then.
pub record Line : Type 0 where
  pub selects : ℕ
  pub room : ℕ

-- A byte is a command where `xCs` alone is active, and data where `xDcs` alone is; data takes room.
unfoldable pub watch_byte : Line → Option Line
watch_byte l =
    if is_active x_cs l.selects
    then (if is_active x_dcs l.selects then none else some l)
    else if is_active x_dcs l.selects && not (l.room == 0)
    then some (record l { room = l.room - 1 })
    else none

-- `none` is a breach: both selects active, or a byte that is not for one of them or has no room.
unfoldable pub watch : SpiEvent → Line → Option Line
watch (softcs val) l =
    if is_active x_cs val && is_active x_dcs val
    then none
    else some (record { selects = val; room = 0 })
watch (txfifo b) l = watch_byte l
watch (rt_pin_read pin v) l =
    if (pin == x_dreq) && not (v == 0) then some (record l { room = vs1003_chunk_size }) else some l
watch _ l = some l

abbrev pub watch_next : SpiEvent → Option Line → Option Line
watch_next e none = none
watch_next e (some l) = watch e l

unfoldable pub watch_all : List SpiEvent → Option Line → Option Line
watch_all [] o = o
watch_all (e ∷ es) o = watch_all es (watch_next e o)

-- From a line with `P`, the action ends in a line with `Q` if it ends, and nothing on the way is a
-- breach.
abbrev pub Outcome :
    {A : Type 0} → (A → Line → Type 0) → Line → Result (A × List SpiEvent × Bus) → Type 0
Outcome Q l (ok (a, es, w)) =
    (r : ℕ) × (watch_all es (some l) ≡ some (record { selects = w.soft_cs; room = r }))
    × Q a (record { selects = w.soft_cs; room = r })
Outcome Q l (fault e) = Unit
Outcome Q l stuck = Unit

pub record Follows {A : Type 0} (P : Line → Type 0) (m : Io A) (Q : A → Line → Type 0)
    : Type 0 where
  pub run :
      (w : Bus) (r : ℕ)
      → P (record { selects = w.soft_cs; room = r })
      → Outcome Q (record { selects = w.soft_cs; room = r }) (m w)

watch_all-append :
    (es fs : List SpiEvent) (o : Option Line)
    → watch_all (es ++ fs) o ≡ watch_all fs (watch_all es o)
unfolding watch_all
watch_all-append [] fs o = refl
watch_all-append (e ∷ es) fs o = watch_all-append es fs (watch_next e o)

pub Outcome-behind :
    {B : Type 0} (Q : B → Line → Type 0) (es : List SpiEvent) (l l' : Line)
    (x : Result (B × List SpiEvent × Bus))
    → watch_all es (some l) ≡ some l'
    → Outcome Q l' x
    → Outcome Q l (behind es x)
Outcome-behind Q es l l' (ok (b, fs, w)) e (r, f, q) =
    (r, watch_all-append es fs (some l) ∙ rw (e, f) refl, q)
Outcome-behind Q es l l' (fault x) e h = tt
Outcome-behind Q es l l' stuck e h = tt

-- An outcome seen from the line that it starts on.
Outcome-then :
    {A B : Type 0} (R : A → Line → Type 0) (Q : B → Line → Type 0) (l : Line)
    (x : Result (A × List SpiEvent × Bus)) (f : A → Io B)
    → Outcome R l x
    → ((a : A) → Follows (R a) (f a) Q)
    → Outcome Q l (and_then x f)
Outcome-then R Q l (ok (a, es, w)) f (r, e, q) k =
    Outcome-behind Q es l (record { selects = w.soft_cs; room = r }) (f a w) e ((k a).run w r q)
Outcome-then R Q l (fault x) f h k = tt
Outcome-then R Q l stuck f h k = tt

-- One action behind another.
pub Follows-then :
    {A B : Type 0} {P : Line → Type 0} {R : A → Line → Type 0} {Q : B → Line → Type 0} (m : Io A)
    (f : A → Io B)
    → Follows P m R
    → ((a : A) → Follows (R a) (f a) Q)
    → Follows P (m >>= f) Q
Follows-then {R = R} {Q = Q} m f h k = record {
  run =
      λ w r p. Outcome-then R Q (record { selects = w.soft_cs; room = r }) (m w) f (h.run w r p) k;
}

Outcome-weaken :
    {A : Type 0} (R Q : A → Line → Type 0) (l : Line) (x : Result (A × List SpiEvent × Bus))
    → Outcome R l x
    → ((a : A) (l' : Line) → R a l' → Q a l')
    → Outcome Q l x
Outcome-weaken R Q l (ok (a, es, w)) (r, e, q) k =
    (r, e, k a (record { selects = w.soft_cs; room = r }) q)
Outcome-weaken R Q l (fault x) h k = tt
Outcome-weaken R Q l stuck h k = tt

pub Follows-weaken :
    {A : Type 0} {P : Line → Type 0} {R Q : A → Line → Type 0} (m : Io A)
    → Follows P m R
    → ((a : A) (l : Line) → R a l → Q a l)
    → Follows P m Q
Follows-weaken {R = R} {Q = Q} m h k = record {
  run =
      λ w r p. Outcome-weaken R Q (record { selects = w.soft_cs; room = r }) (m w) (h.run w r p) k;
}
