-- ===== src/Morse/RoundTrip/Hearing.antt =====
-- From the sound of a keyed text to the text: the decision, and then `inverse_translate`.
use losangeles_lakers.Base.{
  ℕ, zero, suc, ◌+◌, ◌-◌, ◌≤◌, ◌<◌, ◌≡◌, refl, ap, ◌∙◌, inl, inr, ◌⊎◌, List, [], ◌∷◌, ◌++◌,
  replicate, length, All, arith, append_assoc, append-nil, ok, length-append,
}
use losangeles_lakers.Base.Text.{codes}
use mathlib.Core.Path.{ap₂}
use losangeles_lakers.Morse.Code.{zifu_kong}
use losangeles_lakers.Morse.Encode.Spec.{code_of, encoding}
use losangeles_lakers.Morse.Decode.{
  kind, group_start, decode_loop, inverse_translate, cleared, start, finsh, code_size, jud_size,
}
use losangeles_lakers.Morse.Decode.Groups.{stored, loop-group, loop_end}
use losangeles_lakers.Morse.Judge.{Limits, Judge, judge}
use losangeles_lakers.Morse.Judge.Signal.{Burst, frames, IsKeyed, judged}
use losangeles_lakers.Morse.Judge.Correct.{judge-judged}
use losangeles_lakers.Morse.Judge.Rounds.{IsIdle}
use losangeles_lakers.Morse.RoundTrip.{decode_loop-encoding, heard}
use losangeles_lakers.Morse.RoundTrip.Received.{
  received, received_text, Sent, code_of-received, drop_last,
}

drop_last-append :
    (xs : List ℕ) (y : ℕ) (ys : List ℕ) → drop_last (xs ++ (y ∷ ys)) ≡ xs ++ drop_last (y ∷ ys)
drop_last-append [] y ys = refl
drop_last-append (x ∷ []) y ys = refl
drop_last-append (x ∷ x' ∷ xs) y ys = ap (λ l. x ∷ l) (drop_last-append (x' ∷ xs) y ys)

length-drop_last : (xs : List ℕ) → length xs ≤ length (drop_last xs) + 1
length-drop_last [] = omega arith
length-drop_last (x ∷ []) = omega arith
length-drop_last (x ∷ y ∷ xs) = omega (arith, length-drop_last (y ∷ xs))

List-cases : (xs : List ℕ) → (xs ≡ []) ⊎ ((y : ℕ) × (ys : List ℕ) × (xs ≡ y ∷ ys))
List-cases [] = inl refl
List-cases (y ∷ ys) = inr (y, ys, refl)

-- A text without codes is received as nothing.
received_text-nil : (cs : List ℕ) → encoding cs ≡ [] → received_text cs ≡ []
unfolding encoding received_text
received_text-nil [] h = refl
received_text-nil (c ∷ cs) h = elim (code_of-received c) [
  | inl (silent, lost) ↦ rw lost (received_text-nil cs (rw silent at h))
  | inr sent ↦ absurd (not_empty sent (ap length h))
]
  where
    not_empty : Sent c → ¬ (length (code_of c ++ encoding cs) ≡ 0)
    not_empty sent e = omega (
      arith,
      ap length sent.sends,
      length-append sent.group (zifu_kong ∷ []),
      length-append (code_of c) (encoding cs),
      e,
    )

-- One round at a character that is sent, with what stands behind its group.
loop-char :
    (fuel i x : ℕ) {c : ℕ} (t : ℕ) (rest w : List ℕ) (r : ℕ) (s : List ℕ) (sent : Sent c)
    → i < jud_size
    → kind x ≡ group_start
    → (t ≡ zifu_kong) ⊎ (t ≡ finsh)
    → length (received c) ≤ r
    → decode_loop (suc fuel) i (x ∷ (sent.group ++ (t ∷ rest))) (stored w r s)
      ≡ decode_loop fuel
          (i + 1 + length sent.group)
          (t ∷ rest)
          (stored (w ++ received c) (r - length (received c)) s)
loop-char fuel i x t rest w r s sent inside k end fits = rw (← sent.decodes) (
    loop-group fuel i x sent.group t rest w r s inside k sent.symbols sent.short (ground arith)
      (rw sent.decodes fits))

-- The codes of a text from a character that is sent on, without the last space.
body_last :
    {c : ℕ} (cs : List ℕ) (sent : Sent c)
    → encoding cs ≡ []
    → drop_last (code_of c ++ encoding cs) ≡ sent.group
body_last {c} cs sent e =
    ap drop_last (ap₂ ◌++◌ sent.sends e ∙ append-nil (sent.group ++ (zifu_kong ∷ [])))
    ∙ drop_last-append sent.group zifu_kong []
    ∙ append-nil sent.group

body_more :
    {c : ℕ} (cs rest : List ℕ) (sent : Sent c) (y : ℕ) (ys : List ℕ)
    → encoding cs ≡ y ∷ ys
    → drop_last (code_of c ++ encoding cs) ++ (finsh ∷ rest)
      ≡ sent.group ++ (zifu_kong ∷ (drop_last (encoding cs) ++ (finsh ∷ rest)))
body_more {c} cs rest sent y ys e =
    rw (e, drop_last-append (code_of c) y ys, sent.sends) (simp append_assoc)

code_of-pos : {c : ℕ} (sent : Sent c) → 0 < length (code_of c)
code_of-pos sent = rw sent.sends (omega (arith, length-append sent.group (zifu_kong ∷ [])))

length-code_of : {c : ℕ} (sent : Sent c) → length (code_of c) ≡ 1 + length sent.group
length-code_of sent = rw sent.sends (omega (arith, length-append sent.group (zifu_kong ∷ [])))

-- The loop over the codes of a text without the space behind its last character.
decode_loop-drop_last :
    (cs : List ℕ) (fuel i x : ℕ) (rest w : List ℕ) (r : ℕ) (s : List ℕ)
    → kind x ≡ group_start
    → i + length (encoding cs) < jud_size
    → suc (length (encoding cs)) < fuel
    → length (received_text cs) ≤ r
    → decode_loop fuel i (x ∷ (drop_last (encoding cs) ++ (finsh ∷ rest))) (stored w r s)
      ≡ ok (stored (w ++ received_text cs) (r - length (received_text cs)) s)
unfolding encoding received_text
decode_loop-drop_last [] fuel i x rest w r s k inside enough fits =
    decode_loop-encoding [] fuel i x rest w r s k inside enough fits
decode_loop-drop_last (c ∷ cs) zero i x rest w r s k inside enough fits = absurd (omega arith)
decode_loop-drop_last (c ∷ cs) (suc zero) i x rest w r s k inside enough fits = absurd (omega arith)
decode_loop-drop_last (c ∷ cs) (suc (suc fuel)) i x rest w r s k inside enough fits =
    let sends = length-append (code_of c) (encoding cs) in
    let total = length-append (received c) (received_text cs) in
    let enough' : suc (length (code_of c ++ encoding cs)) < suc (suc fuel) = enough in
    let fits' : length (received c ++ received_text cs) ≤ r = fits in
    let inside' : i + length (code_of c ++ encoding cs) < jud_size = inside in
    let r' = r - length (received c) in
    elim (code_of-received c) [
      | inl (silent, lost) ↦
          rw (silent, lost)
            (decode_loop-drop_last cs (suc (suc fuel)) i x rest w r s k (rw silent at inside)
              (rw silent at enough) (rw lost at fits))
      | inr sent ↦ elim (List-cases (encoding cs)) [
        | inl last ↦
            ap (λ l. decode_loop (suc (suc fuel)) i (x ∷ (l ++ (finsh ∷ rest))) (stored w r s))
              (body_last cs sent last)
            ∙ loop-char (suc fuel) i x finsh rest w r s sent (omega arith) k (inr refl)
                (omega arith)
            ∙ loop_end fuel (i + 1 + length sent.group) rest (stored (w ++ received c) r' s)
            ∙ rw (received_text-nil cs last, append-nil (received c)) refl
        | inr (y, ys, more) ↦
            ap (λ l. decode_loop (suc (suc fuel)) i (x ∷ l) (stored w r s))
              (body_more cs rest sent y ys more)
            ∙ loop-char (suc fuel) i x zifu_kong (drop_last (encoding cs) ++ (finsh ∷ rest)) w r s
                sent (omega arith) k (inl refl) (omega arith)
            ∙ decode_loop-drop_last cs (suc fuel) (i + 1 + length sent.group) zifu_kong rest
                (w ++ received c) r' s (unfold kind in refl) (omega (arith, length-code_of sent))
                (omega (arith, code_of-pos sent)) (omega arith)
            ∙ ap₂ (λ v n. ok (stored v n s)) (append_assoc w (received c) (received_text cs))
                (omega arith)
      ]
    ]

inverse_translate-drop_last :
    (cs rest : List ℕ)
    → length (drop_last (encoding cs)) ≤ 198
    → length (received_text cs) ≤ code_size
    → inverse_translate (start ∷ (drop_last (encoding cs) ++ (finsh ∷ rest)))
      ≡ ok (heard (received_text cs))
unfolding inverse_translate cleared
inverse_translate-drop_last cs rest short fits =
    let one = length-drop_last (encoding cs) in
    decode_loop-drop_last cs (suc jud_size) 0 start rest [] code_size (codes "识别出的字符串为：")
      (unfold kind in refl) (omega arith) (omega arith) fits

-- A keyed signal is heard: where its codes are those of a text `cs` without the last space, take
-- 198 cells at most, and what is received for `cs` fits `code`, the decision returns, and
-- `inverse_translate` on its array returns with exactly what is received for each character.
pub inverse_translate-judge :
    (limits : Limits) (idle : List ℕ) (b : Burst) (bs : List Burst) (m n : ℕ) (cs : List ℕ)
    → 0 < limits.dian_min
    → limits.zifu_over ≤ limits.ci_over
    → All IsIdle idle
    → All (IsKeyed limits) (b ∷ bs)
    → judged limits (b ∷ bs) ≡ drop_last (encoding cs)
    → length (drop_last (encoding cs)) ≤ 198
    → length (received_text cs) ≤ code_size
    → (s : Judge) × (judge limits m n (idle ++ frames (b ∷ bs)) ≡ ok s)
      × (inverse_translate s.jud ≡ ok (heard (received_text cs)))
inverse_translate-judge limits idle b bs m n cs pos order quiet keyed codes_of short fits =
    let (s, runs, jud) =
      judge-judged limits idle b bs m n pos order quiet keyed (rw codes_of (omega arith)) in
    (s, runs, ap inverse_translate (jud ∙ ended) ∙ inverse_translate-drop_last cs _ short fits)
  where
    ended :
        start
          ∷ (judged limits (b ∷ bs) ++ replicate (jud_size - 1 - length (judged limits (b ∷ bs))) 0)
        ≡ start
          ∷ (drop_last (encoding cs)
              ++ (finsh ∷ replicate (198 - length (drop_last (encoding cs))) 0))
    ended =
        let e : jud_size - 1 - length (drop_last (encoding cs))
            ≡ suc (198 - length (drop_last (encoding cs))) =
          omega arith in
        rw (codes_of, e) refl
