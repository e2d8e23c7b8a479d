-- ===== src/Morse/Judge.antt =====
-- The decision part of `morse_process_once_thread` and `morse_process_test_thread`
-- (ls2kdev_record/applications/morse/morse_decode.c): frame energies to sound codes.
pub mod Signal
pub mod Rounds
pub mod Correct
use losangeles_lakers.Base.{
  ℕ, zero, suc, ◌+◌, ◌-◌, Bool, true, false, ◌&&◌, List, [], ◌∷◌, ltb, leb, if◌then◌else◌,
  replicate, Result, ok, ◌>>=◌, store,
}
use losangeles_lakers.Morse.Code.{dian, hua, zifu_kong, ci_kong}
use losangeles_lakers.Morse.Decode.{start, jud_size}

-- The energy threshold `T`.
abbrev pub threshold : ℕ
threshold = 1000000

-- The bounds, in frames, that the two threads write into their tests of `H` and `L`.
pub record Limits : Type 0 where
  pub dian_min : ℕ
  pub hua_min : ℕ
  pub hua_max : ℕ
  pub zifu_over : ℕ
  pub ci_over : ℕ

abbrev pub once_limits : Limits
once_limits = record { dian_min = 10; hua_min = 35; hua_max = 50; zifu_over = 6; ci_over = 15 }

abbrev pub test_limits : Limits
test_limits = record { dian_min = 3; hua_min = 10; hua_max = 20; zifu_over = 8; ci_over = 60 }

-- `sta`: 0, 1 and 2.
pub data Level : Type 0 where
  initial high low : Level

-- The local variables: `sta`, `st`, `m`, `n`, `k` and `jud`.
pub record Judge : Type 0 where
  pub sta : Level
  pub st : Bool
  pub m : ℕ
  pub n : ℕ
  pub k : ℕ
  pub jud : List ℕ

-- `jud[k] = x; k++;`
unfoldable pub push : ℕ → Judge → Result Judge
push x s = store s.jud s.k x >>= λ cells. ok (record s { jud = cells; k = s.k + 1 })

-- A mark of code `x`, with the start mark before the first.
unfoldable pub push_mark : ℕ → Judge → Result Judge
push_mark x s =
    if s.st
    then push x s
    else (push start s >>= λ s'. push x s' >>= λ s''. ok (record s'' { st = true }))

module _ (limits : Limits) where
  open limits use {dian_min, hua_min, hua_max, zifu_over, ci_over}

  unfoldable pub judge_mark : ℕ → Judge → Result Judge
  judge_mark h s =
      if leb dian_min h && ltb h hua_min
      then push_mark dian s
      else if leb hua_min h && ltb h hua_max
      then push_mark hua s
      else ok s

  unfoldable pub judge_gap : ℕ → Judge → Result Judge
  judge_gap l s =
      if ltb zifu_over l && leb l ci_over
      then push zifu_kong s
      else if ltb ci_over l
      then (push zifu_kong s >>= push ci_kong >>= push zifu_kong)
      else ok s

  -- The three `if (sta == …)` of a round, in order; the frame is `i` and its energy `e`.
  unfoldable pub when_initial : Level → ℕ → ℕ → Judge → Judge
  when_initial initial i e s = if ltb threshold e then record s { m = i; sta = high } else s
  when_initial _ i e s = s

  -- `H = n - m`, where `m` is an earlier frame.
  unfoldable pub when_high : Level → ℕ → ℕ → Judge → Result Judge
  when_high high i e s =
      if ltb e threshold
      then (judge_mark (i - s.m) (record s { n = i }) >>= λ s'. ok (record s' { sta = low }))
      else ok s
  when_high _ i e s = ok s

  unfoldable pub when_low : Level → ℕ → ℕ → Judge → Result Judge
  when_low low i e s =
      if ltb threshold e
      then (judge_gap (i - s.n) (record s { m = i }) >>= λ s'. ok (record s' { sta = high }))
      else ok s
  when_low _ i e s = ok s

  unfoldable pub judge_frame : ℕ → ℕ → Judge → Result Judge
  judge_frame i e s =
      let s' = when_initial s.sta i e s in
      when_high s'.sta i e s' >>= λ s''. when_low s''.sta i e s''

  -- The loop over the energies, from frame `i` on.
  unfoldable pub judge_loop : ℕ → List ℕ → Judge → Result Judge
  judge_loop i [] s = ok s
  judge_loop i (e ∷ es) s = judge_frame i e s >>= judge_loop (i + 1) es

  -- `m` and `n` are not initialised: they hold whatever they hold.
  unfoldable pub judge : ℕ → ℕ → List ℕ → Result Judge
  judge m n es =
      judge_loop 0 es
        (record { sta = initial; st = false; m = m; n = n; k = 0; jud = replicate jud_size 0 })
