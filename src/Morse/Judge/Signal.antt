-- ===== src/Morse/Judge/Signal.antt =====
-- Keyed signals, and what the decision makes of them.
use losangeles_lakers.Base.{
  ℕ, zero, suc, ◌+◌, ◌-◌, ◌≤◌, ◌<◌, ◌≡◌, refl, ap, ◌∙◌, Bool, true, false, List, [], ◌∷◌, ◌++◌, ltb,
  leb, if◌then◌else◌, replicate, length, All, arith, append_assoc, append-nil, length-append,
  Result, ok, ◌>>=◌, store-append,
}
use mathlib.Core.Path.{ap₂}
use native.Mathlib.Decide.{dec_le, dec_lt}
use losangeles_lakers.Morse.Code.{dian, hua, zifu_kong, ci_kong}
use losangeles_lakers.Morse.Decode.{start}
use losangeles_lakers.Morse.Judge.{
  Limits, Level, Judge, threshold, push, push_mark, judge_mark, judge_gap,
}

-- A sound and the silence behind it, each as the energies of its frames.
pub record Burst : Type 0 where
  pub sound : List ℕ
  pub silence : List ℕ

abbrev pub frames : List Burst → List ℕ
frames [] = []
frames (b ∷ bs) = b.sound ++ (b.silence ++ frames bs)

abbrev pub IsLoud : ℕ → Type 0
IsLoud e = threshold < e

abbrev pub IsQuiet : ℕ → Type 0
IsQuiet e = e < threshold

module _ (limits : Limits) where
  open limits use {dian_min, hua_min, hua_max, zifu_over, ci_over}

  -- A sound of a length that is a dot or a dash, with silence behind it.
  pub record IsKeyed (b : Burst) : Type 0 where
    pub loud : All IsLoud b.sound
    pub quiet : All IsQuiet b.silence
    pub long : dian_min ≤ length b.sound
    pub bounded : length b.sound < hua_max
    pub ends : 0 < length b.silence

  unfoldable pub mark_of : ℕ → ℕ
  mark_of h = if ltb h hua_min then dian else hua

  unfoldable pub gap_of : ℕ → List ℕ
  gap_of l =
      if leb l zifu_over
      then []
      else if leb l ci_over
      then zifu_kong ∷ []
      else zifu_kong ∷ ci_kong ∷ zifu_kong ∷ []

  -- The codes of a signal, after its start mark: the last silence gives none.
  unfoldable pub judged : List Burst → List ℕ
  judged [] = []
  judged (b ∷ []) = mark_of (length b.sound) ∷ []
  judged (b ∷ b' ∷ bs) = mark_of (length b.sound) ∷ (gap_of (length b.silence) ++ judged (b' ∷ bs))

-- The local variables with the codes `w` in `jud` and `r` cells left.
abbrev pub noted : Level → Bool → ℕ → ℕ → List ℕ → ℕ → Judge
noted sta st m n w r = record {
  sta = sta;
  st = st;
  m = m;
  n = n;
  k = length w;
  jud = w ++ replicate r 0;
}

module _ (sta : Level) (st : Bool) (m n : ℕ) where
  push_lem :
      (x : ℕ) (w : List ℕ) (r : ℕ)
      → 0 < r
      → push x (noted sta st m n w r) ≡ ok (noted sta st m n (w ++ (x ∷ [])) (r - 1))
  push_lem x w zero h = absurd (omega arith)
  push_lem x w (suc r) h = unfold push in rw (store-append w 0 (replicate r 0) x) same
    where
      same :
          ◌≡◌ {A = Result Judge}
            (ok (record {
              sta = sta;
              st = st;
              m = m;
              n = n;
              k = length w + 1;
              jud = w ++ (x ∷ replicate r 0);
            }))
            (ok (noted sta st m n (w ++ (x ∷ [])) (suc r - 1)))
      same =
          let e : suc r - 1 ≡ r = omega arith in
          rw (e, append_assoc w (x ∷ []) (replicate r 0), length-append) refl

  push_three :
      (x y z : ℕ) (w : List ℕ) (r : ℕ)
      → 3 ≤ r
      → (push x (noted sta st m n w r) >>= push y >>= push z)
        ≡ ok (noted sta st m n (w ++ (x ∷ y ∷ z ∷ [])) (r - 3))
  push_three x y z w r h =
      ap (λ q. q >>= push y >>= push z) (push_lem x w r (omega arith))
      ∙ ap (λ q. q >>= push z) (push_lem y (w ++ (x ∷ [])) (r - 1) (omega arith))
      ∙ push_lem z ((w ++ (x ∷ [])) ++ (y ∷ [])) (r - 1 - 1) (omega arith)
      ∙ ap₂ (λ l k. ok (noted sta st m n l k)) (simp append_assoc) (omega arith)

module _ (limits : Limits) where
  open limits use {dian_min, hua_min, hua_max, zifu_over, ci_over}

  -- The three lengths of a silence.
  gap_none :
      (l : ℕ) (s : Judge)
      → zifu_over ≤ ci_over
      → l ≤ zifu_over
      → (judge_gap limits l s ≡ ok s) × (gap_of limits l ≡ [])
  unfolding judge_gap gap_of
  gap_none l s order h = (ground arith, ground arith)

  gap_zifu :
      (l : ℕ) (s : Judge)
      → zifu_over < l
      → l ≤ ci_over
      → (judge_gap limits l s ≡ push zifu_kong s) × (gap_of limits l ≡ zifu_kong ∷ [])
  unfolding judge_gap gap_of
  gap_zifu l s h k = (ground arith, ground arith)

  gap_ci :
      (l : ℕ) (s : Judge)
      → zifu_over ≤ ci_over
      → ci_over < l
      → (judge_gap limits l s ≡ (push zifu_kong s >>= push ci_kong >>= push zifu_kong))
        × (gap_of limits l ≡ zifu_kong ∷ ci_kong ∷ zifu_kong ∷ [])
  unfolding judge_gap gap_of
  gap_ci l s order h = (ground arith, ground arith)

  -- A silence writes the codes of its length.
  pub judge_gap_lem :
      (l : ℕ) (sta : Level) (st : Bool) (m n : ℕ) (w : List ℕ) (r : ℕ)
      → zifu_over ≤ ci_over
      → length (gap_of limits l) ≤ r
      → judge_gap limits l (noted sta st m n w r)
        ≡ ok (noted sta st m n (w ++ gap_of limits l) (r - length (gap_of limits l)))
  judge_gap_lem l sta st m n w r order fits = elim (dec_le l zifu_over) [
    | yes h ↦
        let (runs, codes) = gap_none l (noted sta st m n w r) order h in
        rw (runs, codes, append-nil w) (ap (λ k. ok (noted sta st m n w k)) (omega arith))
    | no h ↦ elim (dec_le l ci_over) [
      | yes k ↦
          let (runs, codes) = gap_zifu l (noted sta st m n w r) (omega arith) k in
          rw (runs, codes) (push_lem sta st m n zifu_kong w r (rw codes at fits))
      | no k ↦
          let (runs, codes) = gap_ci l (noted sta st m n w r) order (omega arith) in
          let fits' : 3 ≤ r = rw codes at fits in
          rw (runs, codes) (push_three sta st m n zifu_kong ci_kong zifu_kong w r fits')
    ]
  ]

  mark_dian :
      (h : ℕ) (s : Judge)
      → dian_min ≤ h
      → h < hua_min
      → (judge_mark limits h s ≡ push_mark dian s) × (mark_of limits h ≡ dian)
  unfolding judge_mark mark_of
  mark_dian h s lo hi = (ground arith, ground arith)

  mark_hua :
      (h : ℕ) (s : Judge)
      → hua_min ≤ h
      → h < hua_max
      → (judge_mark limits h s ≡ push_mark hua s) × (mark_of limits h ≡ hua)
  unfolding judge_mark mark_of
  mark_hua h s lo hi = (ground arith, ground arith)

  pub mark_cases :
      (h : ℕ) (s : Judge)
      → dian_min ≤ h
      → h < hua_max
      → judge_mark limits h s ≡ push_mark (mark_of limits h) s
  mark_cases h s lo hi = elim (dec_lt h hua_min) [
    | yes short ↦ let (runs, code) = mark_dian h s lo short in rw (runs, code)
    | no long ↦ let (runs, code) = mark_hua h s (omega arith) hi in rw (runs, code)
  ]

pub push_first_mark :
    (x : ℕ) (sta : Level) (m n r : ℕ)
    → 1 < r
    → push_mark x (noted sta false m n [] r) ≡ ok (noted sta true m n (start ∷ x ∷ []) (r - 2))
unfolding push_mark
push_first_mark x sta m n r fits =
    rw
      (
        push_lem sta false m n start [] r (omega arith),
        push_lem sta false m n x (start ∷ []) (r - 1) (omega arith),
      )
      (ap (λ k. ok (noted sta true m n (start ∷ x ∷ []) k)) (omega arith))

pub push_next_mark :
    (x : ℕ) (sta : Level) (m n : ℕ) (w : List ℕ) (r : ℕ)
    → 0 < r
    → push_mark x (noted sta true m n w r) ≡ ok (noted sta true m n (w ++ (x ∷ [])) (r - 1))
unfolding push_mark
push_next_mark x sta m n w r fits = push_lem sta true m n x w r fits
