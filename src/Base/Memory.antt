-- ===== src/Base/Memory.antt =====
-- The outcome of C code that may leave defined behaviour. `stuck` is no outcome of the program:
-- a loop of the model ran out of fuel.
use Prim.Native.Nat.{ℕ, zero, suc, ◌/◌, ◌<◌, ◌≤◌}
use native.Mathlib.Omega.{arith}
use mathlib.Core.Path.{◌≡◌, refl, ap}
use mathlib.Core.Logic.{◌≢◌}
use mathlib.Core.List.{List, [], ◌∷◌, ◌++◌}
use losangeles_lakers.Base.Lists.{length}

pub data Fault : Type 0 where
  bad_read bad_write bad_divide bad_size : Fault

pub data Result {ℓ} (A : Type ℓ) : Type ℓ where
  ok : A → Result A
  fault : Fault → Result A
  stuck : Result A

infixl 5 ◌>>=◌ ◌>>◌
abbrev pub ◌>>=◌ {ℓ κ} : {A : Type ℓ} {B : Type κ} → Result A → (A → Result B) → Result B
ok a >>= f = f a
fault e >>= f = fault e
stuck >>= f = stuck

abbrev pub ◌>>◌ {ℓ κ} : {A : Type ℓ} {B : Type κ} → Result A → Result B → Result B
m >> k = m >>= λ _. k

-- `a[i]` as a value and as the target of an assignment; the list is the array's memory.
abbrev pub load {ℓ} : {A : Type ℓ} → List A → ℕ → Result A
load [] i = fault bad_read
load (x ∷ xs) zero = ok x
load (x ∷ xs) (suc i) = load xs i

abbrev pub store {ℓ} : {A : Type ℓ} → List A → ℕ → A → Result (List A)
store [] i v = fault bad_write
store (x ∷ xs) zero v = ok (v ∷ xs)
store (x ∷ xs) (suc i) v = store xs i v >>= λ ys. ok (x ∷ ys)

-- `a / b` on `int`, for values that are not below zero.
abbrev pub divide : ℕ → ℕ → Result ℕ
divide a zero = fault bad_divide
divide a b = ok (a / b)

module _ {ℓ} {A : Type ℓ} where
  -- A store at the end of the part that is written, and one at the end of the array.
  pub store-append :
      (w : List A) (x : A) (z : List A) (v : A)
      → store (w ++ (x ∷ z)) (length w) v ≡ ok (w ++ (v ∷ z))
  store-append [] x z v = refl
  store-append (y ∷ w) x z v = rw (store-append w x z v)

  pub store_at_end : (w : List A) (v : A) → store w (length w) v ≡ fault bad_write
  store_at_end [] v = refl
  store_at_end (y ∷ w) v = rw (store_at_end w v)

  -- Accesses inside an array.
  pub load_ok : (xs : List A) (i : ℕ) → i < length xs → (x : A) × (load xs i ≡ ok x)
  load_ok [] i h = absurd (omega arith)
  load_ok (x ∷ xs) zero h = (x, refl)
  load_ok (x ∷ xs) (suc i) h = load_ok xs i (omega arith)

  pub store_ok :
      (xs : List A) (i : ℕ) (v : A)
      → i < length xs
      → (ys : List A) × (store xs i v ≡ ok ys) × (load ys i ≡ ok v) × (length ys ≡ length xs)
  store_ok [] i v h = absurd (omega arith)
  store_ok (x ∷ xs) zero v h = (v ∷ xs, refl, refl, refl)
  store_ok (x ∷ xs) (suc i) v h =
      let (ys, stores, loads, size) = store_ok xs i v (omega arith) in
      (x ∷ ys, ap (λ r. r >>= λ zs. ok (x ∷ zs)) stores, loads, ap suc size)

  pub store_outside : (xs : List A) (i : ℕ) (v : A) → length xs ≤ i → store xs i v ≡ fault bad_write
  store_outside [] i v h = refl
  store_outside (x ∷ xs) zero v h = absurd (omega arith)
  store_outside (x ∷ xs) (suc i) v h = rw (store_outside xs i v (omega arith)) refl

  -- The array after a store inside it, and what is loaded then.
  abbrev pub put : List A → ℕ → A → List A
  put [] i v = []
  put (x ∷ xs) zero v = v ∷ xs
  put (x ∷ xs) (suc i) v = x ∷ put xs i v

  pub store-put : (xs : List A) (i : ℕ) (v : A) → i < length xs → store xs i v ≡ ok (put xs i v)
  store-put [] i v h = absurd (omega arith)
  store-put (x ∷ xs) zero v h = refl
  store-put (x ∷ xs) (suc i) v h = rw (store-put xs i v (omega arith)) refl

  pub length-put : (xs : List A) (i : ℕ) (v : A) → length (put xs i v) ≡ length xs
  length-put [] i v = refl
  length-put (x ∷ xs) zero v = refl
  length-put (x ∷ xs) (suc i) v = ap suc (length-put xs i v)

  pub load-put : (xs : List A) (i : ℕ) (v : A) → i < length xs → load (put xs i v) i ≡ ok v
  load-put [] i v h = absurd (omega arith)
  load-put (x ∷ xs) zero v h = refl
  load-put (x ∷ xs) (suc i) v h = load-put xs i v (omega arith)

  pub load-put_other :
      (xs : List A) (i : ℕ) (v : A) (k : ℕ) → k ≢ i → load (put xs i v) k ≡ load xs k
  load-put_other [] i v k h = refl
  load-put_other (x ∷ xs) zero v zero h = absurd (h refl)
  load-put_other (x ∷ xs) zero v (suc k) h = refl
  load-put_other (x ∷ xs) (suc i) v zero h = refl
  load-put_other (x ∷ xs) (suc i) v (suc k) h = load-put_other xs i v k (λ e. h (omega arith))
