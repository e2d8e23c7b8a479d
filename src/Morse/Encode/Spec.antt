-- ===== src/Morse/Encode/Spec.antt =====
-- What `translate` means: the codes and the console text of a string, character by character.
use losangeles_lakers.Base.{
  ℕ, ◌≡◌, refl, Bool, true, ◌&&◌, not, List, [], ◌∷◌, ◌++◌, Option, none, some, ◌==◌, arith, false,
  ◌||◌, ap, ◌∙◌, ==_iff, Bool-cases, inl, inr, if◌then◌else◌, append_assoc, append-nil, All,
}
use losangeles_lakers.Morse.Encode.{find_case}
use losangeles_lakers.Morse.Encode.Cases.{Case, switch}

-- The codes that a character stands for, and what is printed for it: nothing outside the switch.
abbrev pub code_of_case : Option Case → List ℕ
code_of_case none = []
code_of_case (some k) = k.table

abbrev pub shown_of_case : Option Case → List ℕ
shown_of_case none = []
shown_of_case (some k) = k.printed

unfoldable pub code_of : ℕ → List ℕ
code_of c = code_of_case (find_case c switch)

unfoldable pub encoding : List ℕ → List ℕ
encoding [] = []
encoding (c ∷ cs) = code_of c ++ encoding cs

unfoldable pub shown : List ℕ → List ℕ
shown [] = []
shown (c ∷ cs) = shown_of_case (find_case c switch) ++ shown cs

-- What holds of every case holds of the one that is found.
abbrev pub all_cases : (Case → Bool) → List Case → Bool
all_cases p [] = true
all_cases p (k ∷ ks) = p k && all_cases p ks

pub find_case-all :
    (p : Case → Bool) (c : ℕ) (ks : List Case) {k : Case}
    → all_cases p ks ≡ true
    → find_case c ks ≡ some k
    → p k ≡ true
unfolding find_case
find_case-all p c [] h e = ground arith
find_case-all p c (k ∷ ks) {k = k'} h e = ground (arith, find_case-all p c ks {k = k'})

abbrev pub no_zero : List ℕ → Bool
no_zero [] = true
no_zero (x ∷ xs) = not (x == 0) && no_zero xs

-- No code in a table is zero, the value that ends the copying.
pub code_of-no_zero : (c : ℕ) → no_zero (code_of c) ≡ true
unfolding code_of
code_of-no_zero c = go (find_case c switch) refl
  where
    go : (o : Option Case) → find_case c switch ≡ o → no_zero (code_of_case o) ≡ true
    go none e = refl
    go (some k) e = find_case-all (λ k. no_zero k.table) c switch refl e

pub no_zero-append :
    (xs ys : List ℕ) → no_zero xs ≡ true → no_zero ys ≡ true → no_zero (xs ++ ys) ≡ true
no_zero-append [] ys h k = k
no_zero-append (x ∷ xs) ys h k = ground (arith, no_zero-append xs ys)

-- The cells of a memory up to its first zero, and whether it has one.
unfoldable pub before_zero : List ℕ → List ℕ
before_zero [] = []
before_zero (x ∷ xs) = if x == 0 then [] else x ∷ before_zero xs

unfoldable pub has_zero : List ℕ → Bool
has_zero [] = false
has_zero (x ∷ xs) = x == 0 || has_zero xs

pub before_zero-no_zero : (xs : List ℕ) → no_zero (before_zero xs) ≡ true
unfolding before_zero
before_zero-no_zero [] = refl
before_zero-no_zero (x ∷ xs) = elim (Bool-cases (x == 0)) [
  | inl z ↦ rw z refl
  | inr s ↦ rw (s, s) (before_zero-no_zero xs)
]

pub before_zero-split :
    (xs : List ℕ) → has_zero xs ≡ true → (rest : List ℕ) × (xs ≡ before_zero xs ++ (0 ∷ rest))
unfolding before_zero has_zero
before_zero-split [] h = cc
before_zero-split (x ∷ xs) h = elim (Bool-cases (x == 0)) [
  | inl z ↦ let e : x ≡ 0 = (==_iff x 0).0 z in (xs, rw (e) refl)
  | inr s ↦
      let (rest, splits) = before_zero-split xs (rw s at h) in (rest, rw s (ap (λ l. x ∷ l) splits))
]

pub has_zero_at_end : (xs : List ℕ) → has_zero (xs ++ (0 ∷ [])) ≡ true
unfolding has_zero
has_zero_at_end [] = refl
has_zero_at_end (x ∷ xs) = elim (Bool-cases (x == 0)) [
  | inl z ↦ rw z refl
  | inr s ↦ rw s (has_zero_at_end xs)
]

-- The cells that are copied for a character and for a text: those of its table, and those behind it
-- up to the first zero.
abbrev pub copied_of_case : List ℕ → Option Case → List ℕ
copied_of_case memory none = []
copied_of_case memory (some k) = k.table ++ before_zero memory

unfoldable pub copied_of : (ℕ → List ℕ) → ℕ → List ℕ
copied_of after c = copied_of_case (after c) (find_case c switch)

unfoldable pub copied : (ℕ → List ℕ) → List ℕ → List ℕ
copied after [] = []
copied after (c ∷ cs) = copied_of after c ++ copied after cs

pub copied_of-no_zero : (after : ℕ → List ℕ) (c : ℕ) → no_zero (copied_of after c) ≡ true
unfolding copied_of code_of
copied_of-no_zero after c = go (find_case c switch) (code_of-no_zero c)
  where
    go :
        (o : Option Case)
        → no_zero (code_of_case o) ≡ true
        → no_zero (copied_of_case (after c) o) ≡ true
    go none h = refl
    go (some k) h = no_zero-append k.table (before_zero (after c)) h (before_zero-no_zero (after c))

pub copied-no_zero : (after : ℕ → List ℕ) (cs : List ℕ) → no_zero (copied after cs) ≡ true
unfolding copied
copied-no_zero after [] = refl
copied-no_zero after (c ∷ cs) =
    no_zero-append (copied_of after c) (copied after cs) (copied_of-no_zero after c)
      (copied-no_zero after cs)

pub copied-append :
    (after : ℕ → List ℕ) (cs ds : List ℕ)
    → copied after (cs ++ ds) ≡ copied after cs ++ copied after ds
unfolding copied
copied-append after [] ds = refl
copied-append after (c ∷ cs) ds = simp (copied-append after cs ds, append_assoc)

-- Where a zero lies at once behind the tables of a text, its codes are copied and no more.
pub copied-encoding :
    (after : ℕ → List ℕ) (cs : List ℕ)
    → All (λ c. before_zero (after c) ≡ []) cs
    → copied after cs ≡ encoding cs
unfolding copied encoding
copied-encoding after [] h = refl
copied-encoding after (c ∷ cs) h =
    ap (λ l. l ++ copied after cs) exact ∙ ap (λ l. code_of c ++ l) (copied-encoding after cs h.1)
  where
    go : (o : Option Case) → copied_of_case (after c) o ≡ code_of_case o
    go none = refl
    go (some k) = rw (h.0) (append-nil k.table)

    exact : copied_of after c ≡ code_of c
    exact = unfold copied_of code_of in go (find_case c switch)
