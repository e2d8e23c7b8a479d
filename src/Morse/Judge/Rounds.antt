-- ===== src/Morse/Judge/Rounds.antt =====
-- The rounds of the decision, one frame or one burst at a time.
use losangeles_lakers.Base.{
  ℕ, ◌+◌, ◌-◌, ◌≤◌, ◌<◌, ◌≡◌, refl, ap, ◌∙◌, Bool, true, List, [], ◌∷◌, ◌++◌, ltb-true, ltb-false,
  length, All, arith, ok, ◌>>=◌,
}
use losangeles_lakers.Morse.Judge.{
  Limits, initial, high, low, Judge, threshold, judge_mark, judge_gap, when_initial, when_high,
  when_low, judge_frame, judge_loop,
}
use losangeles_lakers.Morse.Judge.Signal.{IsLoud, IsQuiet, noted}

abbrev pub IsIdle : ℕ → Type 0
IsIdle e = e ≤ threshold

module _ (limits : Limits) where
  open limits use {dian_min, hua_min, hua_max, zifu_over, ci_over}

  -- The six ways through a round.
  module _ (i e : ℕ) (st : Bool) (m n : ℕ) (w : List ℕ) (r : ℕ) where
    pub frame_idle :
        IsIdle e → judge_frame limits i e (noted initial st m n w r) ≡ ok (noted initial st m n w r)
    unfolding judge_frame when_initial when_high when_low
    frame_idle h = rw (ltb-false threshold e h) refl

    pub frame_first :
        IsLoud e → judge_frame limits i e (noted initial st m n w r) ≡ ok (noted high st i n w r)
    unfolding judge_frame when_initial when_high when_low
    frame_first h = rw (ltb-true threshold e h, ltb-false e threshold (omega arith)) refl

    pub frame_loud :
        IsLoud e → judge_frame limits i e (noted high st m n w r) ≡ ok (noted high st m n w r)
    unfolding judge_frame when_initial when_high when_low
    frame_loud h = rw (ltb-false e threshold (omega arith)) refl

    pub frame_quiet :
        IsQuiet e → judge_frame limits i e (noted low st m n w r) ≡ ok (noted low st m n w r)
    unfolding judge_frame when_initial when_high when_low
    frame_quiet h = rw (ltb-false threshold e (omega arith)) refl

    pub frame_fall :
        (w' : List ℕ) (r' : ℕ)
        → IsQuiet e
        → judge_mark limits (i - m) (noted high st m i w r) ≡ ok (noted high true m i w' r')
        → judge_frame limits i e (noted high st m n w r) ≡ ok (noted low true m i w' r')
    unfolding judge_frame when_initial when_high when_low
    frame_fall w' r' h marks =
        rw (ltb-true e threshold h, marks, ltb-false threshold e (omega arith)) refl

    pub frame_rise :
        (w' : List ℕ) (r' : ℕ)
        → IsLoud e
        → judge_gap limits (i - n) (noted low st i n w r) ≡ ok (noted low st i n w' r')
        → judge_frame limits i e (noted low st m n w r) ≡ ok (noted high st i n w' r')
    unfolding judge_frame when_initial when_high when_low
    frame_rise w' r' h gaps = rw (ltb-true threshold e h, gaps) refl

  pub loop_done : (i : ℕ) (s : Judge) → judge_loop limits i [] s ≡ ok s
  unfolding judge_loop
  loop_done i s = refl

  -- A run of frames that change nothing.
  pub hold :
      (P : ℕ → Type 0) (s : Judge)
      → ((i e : ℕ) → P e → judge_frame limits i e s ≡ ok s)
      → (es rest : List ℕ) (i : ℕ) → All P es
      → judge_loop limits i (es ++ rest) s ≡ judge_loop limits (i + length es) rest s
  unfolding judge_loop
  hold P s keep [] rest i h = ap (λ k. judge_loop limits k rest s) (omega arith)
  hold P s keep (e ∷ es) rest i h =
      ap (λ m. m >>= judge_loop limits (i + 1) (es ++ rest)) (keep i e h.0)
      ∙ hold P s keep es rest (i + 1) h.1
      ∙ ap (λ k. judge_loop limits k rest s) (omega arith)

  -- The rest of a sound that began at frame `m`, and the silence behind it.
  pub fall_then_quiet :
      (es qs rest : List ℕ) (i : ℕ) (st : Bool) (m n : ℕ) (w w' : List ℕ) (r r' : ℕ)
      → All IsLoud es
      → All IsQuiet qs
      → 0 < length qs
      → (let f = i + length es in
          judge_mark limits (f - m) (noted high st m f w r) ≡ ok (noted high true m f w' r'))
      → judge_loop limits i (es ++ (qs ++ rest)) (noted high st m n w r)
        ≡ judge_loop limits
            (i + length es + length qs)
            rest
            (noted low true m (i + length es) w' r')
  unfolding judge_loop
  fall_then_quiet es [] rest i st m n w w' r r' loud quiet some_quiet marks = absurd (omega arith)
  fall_then_quiet es (q ∷ qs) rest i st m n w w' r r' loud quiet some_quiet marks =
      hold IsLoud (noted high st m n w r) (λ j e h. frame_loud j e st m n w r h) es
        ((q ∷ qs) ++ rest) i loud
      ∙ ap (λ s. s >>= judge_loop limits (i + length es + 1) (qs ++ rest))
          (frame_fall (i + length es) q st m n w r w' r' quiet.0 marks)
      ∙ hold IsQuiet (noted low true m (i + length es) w' r')
          (λ j e h. frame_quiet j e true m (i + length es) w' r' h) qs rest (i + length es + 1)
          quiet.1
      ∙ ap (λ k. judge_loop limits k rest (noted low true m (i + length es) w' r')) (omega arith)
