-- ===== src/Morse/Judge/Correct.antt =====
-- The decision on a keyed signal: it writes the codes of the signal's marks and gaps.
use losangeles_lakers.Base.{
  ℕ, suc, ◌+◌, ◌-◌, ◌≤◌, ◌<◌, ◌≡◌, refl, ap, ◌∙◌, true, false, List, [], ◌∷◌, ◌++◌, replicate,
  length, All, arith, append_assoc, length-append, ok, ◌>>=◌,
}
use mathlib.Core.Path.{ap₂}
use losangeles_lakers.Morse.Decode.{start, jud_size}
use losangeles_lakers.Morse.Judge.{Limits, initial, high, low, Judge, judge_mark, judge_loop, judge}
use losangeles_lakers.Morse.Judge.Signal.{
  Burst, frames, IsKeyed, mark_of, gap_of, judged, noted, judge_gap_lem, mark_cases,
  push_first_mark, push_next_mark,
}
use losangeles_lakers.Morse.Judge.Rounds.{
  IsIdle, frame_idle, frame_first, frame_rise, hold, fall_then_quiet, loop_done,
}

module _ (limits : Limits) where
  open limits use {dian_min, hua_min, hua_max, zifu_over, ci_over}

  -- The mark of a sound of length `h` that ends at frame `f`, after the first one.
  next_mark :
      (h f m : ℕ) (w : List ℕ) (r : ℕ)
      → f - m ≡ h
      → dian_min ≤ h
      → h < hua_max
      → 0 < r
      → judge_mark limits (f - m) (noted high true m f w r)
        ≡ ok (noted high true m f (w ++ (mark_of limits h ∷ [])) (r - 1))
  next_mark h f m w r e lo hi fits =
      rw e (mark_cases limits h (noted high true m f w r) lo hi)
      ∙ push_next_mark (mark_of limits h) high m f w r fits

  first_mark :
      (h f m r : ℕ)
      → f - m ≡ h
      → dian_min ≤ h
      → h < hua_max
      → 1 < r
      → judge_mark limits (f - m) (noted high false m f [] r)
        ≡ ok (noted high true m f (start ∷ mark_of limits h ∷ []) (r - 2))
  first_mark h f m r e lo hi fits =
      rw e (mark_cases limits h (noted high false m f [] r) lo hi)
      ∙ push_first_mark (mark_of limits h) high m f r fits

  -- One burst behind a silence of length `l`.
  burst_lem :
      (l : ℕ) (sound silence rest : List ℕ) (i m n : ℕ) (w : List ℕ) (r : ℕ)
      → zifu_over ≤ ci_over
      → i - n ≡ l
      → 0 < dian_min
      → IsKeyed limits (record { sound = sound; silence = silence })
      → length (gap_of limits l) < r
      → judge_loop limits i (sound ++ (silence ++ rest)) (noted low true m n w r)
        ≡ judge_loop limits (i + length sound + length silence) rest (
            noted low true i
              (i + length sound)
              ((w ++ gap_of limits l) ++ (mark_of limits (length sound) ∷ []))
              (r - length (gap_of limits l) - 1))
  unfolding judge_loop
  burst_lem l [] silence rest i m n w r order e pos keyed fits = absurd (omega (arith, keyed.long))
  burst_lem l (x ∷ sound) silence rest i m n w r order e pos keyed fits =
      let w' = w ++ gap_of limits l in
      let r' = r - length (gap_of limits l) in
      let h = suc (length sound) in
      ap (λ s. s >>= judge_loop limits (i + 1) (sound ++ (silence ++ rest)))
        (frame_rise limits i x true m n w r w' r' keyed.loud.0
          (rw e (judge_gap_lem limits l low true i n w r order (omega arith))))
      ∙ fall_then_quiet limits sound silence rest (i + 1) true i n w'
          (w' ++ (mark_of limits h ∷ [])) r' (r' - 1) keyed.loud.1 keyed.quiet keyed.ends
          (next_mark h (i + 1 + length sound) i w' r' (omega arith) keyed.long keyed.bounded
            (omega arith))
      ∙ ap₂
          (λ k f.
            judge_loop limits k rest (noted low true i f (w' ++ (mark_of limits h ∷ [])) (r' - 1)))
          (omega arith) (omega arith)

  -- From a silence of length `l` on: the codes of that silence and of the bursts left.
  judge_from_low :
      (b : Burst) (bs : List Burst) (l i m n : ℕ) (w : List ℕ) (r : ℕ)
      → 0 < dian_min
      → zifu_over ≤ ci_over
      → i - n ≡ l
      → All (IsKeyed limits) (b ∷ bs)
      → length (gap_of limits l ++ judged limits (b ∷ bs)) ≤ r
      → (m' : ℕ) × (n' : ℕ) × (judge_loop limits i (frames (b ∷ bs)) (noted low true m n w r)
          ≡ ok (
              noted low true m' n'
                (w ++ (gap_of limits l ++ judged limits (b ∷ bs)))
                (r - length (gap_of limits l ++ judged limits (b ∷ bs)))))
  unfolding judged
  judge_from_low b [] l i m n w r pos order e keyed fits =
      let total = length-append (gap_of limits l) (mark_of limits (length b.sound) ∷ []) in
      (
        i,
        i + length b.sound,
        burst_lem l b.sound b.silence [] i m n w r order e pos keyed.0 (omega arith)
            ∙ unfold judge_loop in
              ap₂ (λ v k. ok (noted low true i (i + length b.sound) v k)) (append_assoc w _ _)
                (omega arith),
      )
  judge_from_low b (b' ∷ bs) l i m n w r pos order e keyed fits =
      let h = length b.sound in
      let mark = mark_of limits h in
      let tail = gap_of limits (length b.silence) ++ judged limits (b' ∷ bs) in
      let total = length-append (gap_of limits l) (mark ∷ tail) in
      let w' = (w ++ gap_of limits l) ++ (mark ∷ []) in
      let r' = r - length (gap_of limits l) - 1 in
      let (m', n', runs) =
        judge_from_low b' bs (length b.silence) (i + h + length b.silence) i (i + h) w' r' pos order
          (omega arith) keyed.1 (omega arith) in
      (
        m',
        n',
        burst_lem l b.sound b.silence (frames (b' ∷ bs)) i m n w r order e pos keyed.0 (omega arith)
            ∙ runs
            ∙ ap₂ (λ v k. ok (noted low true m' n' v k)) (simp append_assoc) (omega arith),
      )

  -- The first burst, behind frames that are idle.
  first_burst :
      (idle sound silence rest : List ℕ) (m n : ℕ) (r : ℕ)
      → 0 < dian_min
      → All IsIdle idle
      → IsKeyed limits (record { sound = sound; silence = silence })
      → 1 < r
      → judge_loop limits 0 (idle ++ (sound ++ (silence ++ rest))) (noted initial false m n [] r)
        ≡ judge_loop limits (length idle + length sound + length silence) rest (
            noted low true
              (length idle)
              (length idle + length sound)
              (start ∷ mark_of limits (length sound) ∷ [])
              (r - 2))
  unfolding judge_loop
  first_burst idle [] silence rest m n r pos quiet keyed fits = absurd (omega (arith, keyed.long))
  first_burst idle (x ∷ sound) silence rest m n r pos quiet keyed fits =
      let i = length idle in
      let h = suc (length sound) in
      let w' = start ∷ mark_of limits h ∷ [] in
      hold limits IsIdle (noted initial false m n [] r)
        (λ j e q. frame_idle limits j e false m n [] r q) idle ((x ∷ sound) ++ (silence ++ rest)) 0
        quiet
      ∙ ap
          (λ k.
            judge_loop limits k ((x ∷ sound) ++ (silence ++ rest)) (noted initial false m n [] r))
          (omega arith)
      ∙ ap (λ s. s >>= judge_loop limits (i + 1) (sound ++ (silence ++ rest)))
          (frame_first limits i x false m n [] r keyed.loud.0)
      ∙ fall_then_quiet limits sound silence rest (i + 1) false i n [] w' r (r - 2) keyed.loud.1
          keyed.quiet keyed.ends
          (first_mark h (i + 1 + length sound) i r (omega arith) keyed.long keyed.bounded fits)
      ∙ ap₂ (λ k f. judge_loop limits k rest (noted low true i f w' (r - 2))) (omega arith)
          (omega arith)

  -- A signal of keyed bursts behind idle frames, whose codes take 199 cells at most, is decided
  -- without a fault, whatever `m` and `n` held before: `jud` holds the start mark, the code of each
  -- sound and of each silence between two sounds, and then zeros.
  pub judge-judged :
      (idle : List ℕ) (b : Burst) (bs : List Burst) (m n : ℕ)
      → 0 < dian_min
      → zifu_over ≤ ci_over
      → All IsIdle idle
      → All (IsKeyed limits) (b ∷ bs)
      → length (judged limits (b ∷ bs)) < jud_size
      → (s : Judge) × (judge limits m n (idle ++ frames (b ∷ bs)) ≡ ok s)
        × (s.jud
            ≡ start
              ∷ (judged limits (b ∷ bs)
                  ++ replicate (jud_size - 1 - length (judged limits (b ∷ bs))) 0))
  unfolding judge judged
  judge-judged idle b [] m n pos order quiet keyed fits = (
    _,
    first_burst idle b.sound b.silence [] m n jud_size pos quiet keyed.0 (omega arith)
        ∙ loop_done limits _ _,
    refl,
  )
  judge-judged idle b (b' ∷ bs) m n pos order quiet keyed fits =
      let i = length idle in
      let h = length b.sound in
      let (m', n', runs) =
        judge_from_low b' bs (length b.silence) (i + h + length b.silence) i (i + h)
          (start ∷ mark_of limits h ∷ []) (jud_size - 2) pos order (omega arith) keyed.1
          (omega arith) in
      (
        _,
        first_burst idle b.sound b.silence (frames (b' ∷ bs)) m n jud_size pos quiet keyed.0
              (omega arith)
            ∙ runs,
        ap
            (λ k.
              start
              ∷ mark_of limits h
              ∷ ((gap_of limits (length b.silence) ++ judged limits (b' ∷ bs)) ++ replicate k 0))
            (omega arith),
      )
