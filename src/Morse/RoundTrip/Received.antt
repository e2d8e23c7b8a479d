-- ===== src/Morse/RoundTrip/Received.antt =====
-- What is received for each character that is sent.
use losangeles_lakers.Base.{
  ℕ, ◌≤◌, ◌≡◌, refl, ap, ◌∙◌, Bool, true, false, ◌&&◌, ◌||◌, List, [], ◌∷◌, ◌++◌, Option, none,
  some, ◌==◌, ==_iff, leb, if◌then◌else◌, length, arith, &&_true, leb_le, All, Bool-cases, inl, inr,
  ◌⊎◌,
}
use losangeles_lakers.Base.Text.{codes}
use losangeles_lakers.Morse.Code.{zifu_kong}
use losangeles_lakers.Morse.Encode.{find_case}
use losangeles_lakers.Morse.Encode.Cases.{Case, switch}
use losangeles_lakers.Morse.Encode.Spec.{
  copied, copied_of, code_of, code_of_case, find_case-all, all_cases,
}
use losangeles_lakers.Morse.Decode.Groups.{all_symbols}
use losangeles_lakers.Morse.Decode.Match.{decode, same}

abbrev pub contains : List ℕ → ℕ → Bool
contains [] c = false
contains (x ∷ xs) c = x == c || contains xs c

-- The characters that come back as they were sent.
unfoldable pub is_plain : ℕ → Bool
is_plain c = contains (codes " ABCDEFGHIJKLMNOPQRSTUVWXYZ0123456789=/($@") c

-- The characters of six symbols that come back with a `~` behind them.
unfoldable pub is_doubled : ℕ → Bool
is_doubled c = contains (codes ".:,;?'!-_\")") c

-- The character whose table is that of H.
unfoldable pub is_ampersand : ℕ → Bool
is_ampersand c = contains (codes "&") c

unfoldable pub received : ℕ → List ℕ
unfolding is_plain is_doubled is_ampersand
received c =
    if is_plain c
    then c ∷ []
    else if is_doubled c
    then c ∷ 0x7e ∷ []
    else if is_ampersand c
    then b'H' ∷ []
    else []

unfoldable pub received_text : List ℕ → List ℕ
received_text [] = []
received_text (c ∷ cs) = received c ++ received_text cs

abbrev pub drop_last : List ℕ → List ℕ
drop_last [] = []
drop_last (x ∷ []) = []
drop_last (x ∷ y ∷ xs) = x ∷ drop_last (y ∷ xs)

-- A case's table is a group of at most seven symbols with a space behind it, and the group is
-- decoded to what is received for the label.
case_check : Case → Bool
case_check k =
    same k.table (drop_last k.table ++ (zifu_kong ∷ []))
    && (all_symbols (drop_last k.table)
        && (leb (length (drop_last k.table)) 7
            && same (decode (drop_last k.table)) (received k.label)))

switch_check : all_cases case_check switch ≡ true
unfolding case_check decode received
switch_check = refl

same→eq : (xs ys : List ℕ) → same xs ys ≡ true → xs ≡ ys
same→eq [] [] h = refl
same→eq [] (y ∷ ys) h = cc
same→eq (x ∷ xs) [] h = cc
same→eq (x ∷ xs) (y ∷ ys) h = ground (arith, same→eq xs ys)

find_case-label : (c : ℕ) (ks : List Case) (k : Case) → find_case c ks ≡ some k → k.label ≡ c
unfolding find_case
find_case-label c [] k e = cc
find_case-label c (k' ∷ ks) k e = ground (arith, find_case-label c ks k)

-- Whether the switch has a case for the character.
unfoldable pub is_sent : ℕ → Bool
is_sent c = elim (find_case c switch) [ none ↦ false | some k ↦ true ]

all_found : List ℕ → Bool
all_found [] = true
all_found (x ∷ xs) = is_sent x && all_found xs

contains-found :
    (xs : List ℕ) (c : ℕ) → all_found xs ≡ true → is_sent c ≡ false → contains xs c ≡ false
unfolding all_found
contains-found [] c h e = refl
contains-found (x ∷ xs) c h e = elim (Bool-cases (x == c)) [
  | inl same_char ↦ let p = (==_iff x c).0 same_char in cc (ap is_sent p)
  | inr differs ↦ rw differs (contains-found xs c (ground arith) e)
]

-- A character outside the switch sends nothing, and nothing is received for it.
received-unknown : (c : ℕ) → find_case c switch ≡ none → received c ≡ []
unfolding received all_found is_sent find_case
received-unknown c e =
    rw
      (
        contains-found (codes " ABCDEFGHIJKLMNOPQRSTUVWXYZ0123456789=/($@") c refl unknown,
        contains-found (codes ".:,;?'!-_\")") c refl unknown,
        contains-found (codes "&") c refl unknown,
      )
      refl
  where
    unknown : is_sent c ≡ false
    unknown = rw (is_sent, e)

-- What is sent for a character of the switch: a group of symbols that decodes to what is received.
pub record Sent (c : ℕ) : Type 0 where
  pub group : List ℕ
  pub sends : code_of c ≡ group ++ (zifu_kong ∷ [])
  pub symbols : all_symbols group ≡ true
  pub short : length group ≤ 7
  pub decodes : decode group ≡ received c

pub code_of-received : (c : ℕ) → ((code_of c ≡ []) × (received c ≡ [])) ⊎ Sent c
unfolding code_of case_check
code_of-received c = go (find_case c switch) refl
  where
    go :
        (o : Option Case)
        → find_case c switch ≡ o
        → ((code_of_case o ≡ []) × (received c ≡ [])) ⊎ Sent c
    go none e = inl (refl, received-unknown c e)
    go (some k) e =
        let (table, rest) =
          &&_true (same k.table (drop_last k.table ++ (zifu_kong ∷ []))) _
            (find_case-all case_check c switch switch_check e) in
        let (symbols, rest') = &&_true (all_symbols (drop_last k.table)) _ rest in
        let (short, decodes) = &&_true (leb (length (drop_last k.table)) 7) _ rest' in
        inr (record {
          group = drop_last k.table;
          sends = ap code_of_case e ∙ same→eq _ _ table;
          symbols = symbols;
          short = leb_le _ _ short;
          decodes = same→eq _ _ decodes ∙ ap received (find_case-label c switch k e);
        })

Option-cases {ℓ} : {A : Type ℓ} (o : Option A) → (o ≡ none) ⊎ ((a : A) × (o ≡ some a))
Option-cases none = inl refl
Option-cases (some a) = inr (a, refl)

not_sent : (c : ℕ) → is_sent c ≡ false → find_case c switch ≡ none
unfolding is_sent
not_sent c h = elim (Option-cases (find_case c switch)) [
  | inl e ↦ e
  | inr (k, e) ↦ cc (rw (is_sent, e) at h)
]

-- Nothing is copied for characters outside the switch.
pub copied-silent :
    (after : ℕ → List ℕ) (cs : List ℕ) → All (λ c. is_sent c ≡ false) cs → copied after cs ≡ []
unfolding copied copied_of
copied-silent after [] h = refl
copied-silent after (c ∷ cs) h = rw (not_sent c h.0) (copied-silent after cs h.1)

-- Plain characters are received as they are.
pub received_text-plain :
    (cs ds : List ℕ)
    → All (λ c. is_plain c ≡ true) cs
    → received_text (cs ++ ds) ≡ cs ++ received_text ds
unfolding received_text
received_text-plain [] ds h = refl
received_text-plain (c ∷ cs) ds h = rw (received_plain, received_text-plain cs ds h.1) refl
  where
    received_plain : received c ≡ c ∷ []
    received_plain = unfold received in rw h.0 refl
