-- ===== src/Base/Io.antt =====
-- Code that reads and writes device registers: an action takes the state of the world, and gives a
-- value, what it has written in order, and the state that it leaves. It is `stuck` where it waits
-- for a reply that does not come.
use Prim.Native.Nat.{ℕ}
use mathlib.Core.List.{List, [], ◌∷◌, ◌++◌}
use losangeles_lakers.Base.Memory.{Result, ok, fault, stuck}

-- `W` is the state of the world, `E` what a write is recorded as.
abbrev pub Action : Type 0 → Type 0 → Type 0 → Type 0
Action W E A = W → Result (A × List E × W)

-- A second outcome behind a first one, whose writes come first.
abbrev pub behind : {E B W : Type 0} → List E → Result (B × List E × W) → Result (B × List E × W)
behind es (ok (b, fs, w)) = ok (b, es ++ fs, w)
behind es (fault e) = fault e
behind es stuck = stuck

abbrev pub and_then :
    {W E A B : Type 0} → Result (A × List E × W) → (A → Action W E B) → Result (B × List E × W)
and_then (ok (a, es, w)) f = behind es (f a w)
and_then (fault e) f = fault e
and_then stuck f = stuck

infixl 5 ◌>>=◌ ◌>>◌
abbrev pub ◌>>=◌ : {W E A B : Type 0} → Action W E A → (A → Action W E B) → Action W E B
◌>>=◌ m f w = and_then (m w) f

abbrev pub ◌>>◌ : {W E A B : Type 0} → Action W E A → Action W E B → Action W E B
m >> k = m >>= λ _. k

abbrev pub pure : {W E A : Type 0} → A → Action W E A
pure a w = ok (a, [], w)

-- A write.
abbrev pub emit : {W E : Type 0} → E → Action W E (Unit {0})
emit e w = ok (tt, e ∷ [], w)

-- A result that does not touch the world.
abbrev pub lift : {W E A : Type 0} → Result A → Action W E A
lift (ok a) w = ok (a, [], w)
lift (fault e) w = fault e
lift stuck w = stuck

-- A read of a register, where the world is the list of the replies that are to come.
abbrev pub reply : {E : Type 0} → Action (List ℕ) E ℕ
reply [] = stuck
reply (r ∷ rs) = ok (r, [], rs)
