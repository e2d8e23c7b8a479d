-- ===== src/Morse/Play/Rhythm.antt =====
-- What the player sounds: the rhythm of the codes, and where playing leaves the buzzer.
use losangeles_lakers.Base.{
  ℕ, suc, ◌*◌, ◌/◌, ◌%◌, ◌<◌, ◌≡◌, refl, ap, ◌∙◌, sym, Bool, true, false, List, [], ◌∷◌, ◌++◌, ◌==◌,
  ==_cases, inl, inr, ◌^◌, ◌||◌, if◌then◌else◌, Option, none, some, arith, append-nil, ok, fault,
  bad_read,
}
use mathlib.Core.Path.{ap₂}
use losangeles_lakers.Drivers.Pwm.{Configuration, set, enable, disable}
use losangeles_lakers.Drivers.Pwm.Line.{Line, drive}
use losangeles_lakers.Morse.Sound.{
  Event, pwm_set, pwm_enable, pwm_disable, mdelay, sound_set, pulse_of, sound_channel,
}
use losangeles_lakers.Morse.Encode.Spec.{no_zero}
use losangeles_lakers.Morse.Encode.Correct.{no_zero-head, no_zero-tail}
use losangeles_lakers.Morse.Play.{play_cell, play_loop, test_cell, test_loop}

abbrev configured : ℕ → ℕ → Configuration
configured period pulse = record { channel = sound_channel; period = period; pulse = pulse }

-- The output of the timer after an event.
abbrev pub next_line : Event → Line → Line
next_line (pwm_set p q) l = drive set (configured p q) l
next_line pwm_enable l = drive enable (configured 0 0) l
next_line pwm_disable l = drive disable (configured 0 0) l
next_line (mdelay ms) l = l

-- What is heard while a line stays as it is: the period and the low time, or nothing.
abbrev pub tone_of : Line → Option (ℕ × ℕ)
tone_of l = if l.on == 1 then some (l.period, l.low) else none

-- What is heard in each delay of a run of events.
abbrev pub sounded : Line → List Event → List (Option (ℕ × ℕ) × ℕ)
sounded l [] = []
sounded l (mdelay ms ∷ es) = (tone_of l, ms) ∷ sounded l es
sounded l (e ∷ es) = sounded (next_line e l) es

abbrev pub line_after : Line → List Event → Line
line_after l [] = l
line_after l (e ∷ es) = line_after (next_line e l) es

-- The tone of a frequency at half volume.
abbrev pub tone : ℕ → Option (ℕ × ℕ)
tone freq =
    if freq == 0
    then some (1000000, 0)
    else some (1000000000 / freq, pulse_of (1000000000 / freq) 50)

-- The rhythm of the codes: a dot lasts 200, a dash 600 and the pause behind each 200, the space
-- between characters 600 more and that between words 400 more, all divided by the speed.
abbrev pub rhythm : ℕ → ℕ → List ℕ → List (Option (ℕ × ℕ) × ℕ)
rhythm freq speed [] = []
rhythm freq speed (c ∷ cs) =
    (if c == 100
      then (tone freq, 200 / speed) ∷ (none, 200 / speed) ∷ []
      else if c == 300
      then (tone freq, 600 / speed) ∷ (none, 200 / speed) ∷ []
      else if c == 3000
      then (none, 600 / speed) ∷ []
      else if c == 7000
      then (none, 400 / speed) ∷ []
      else [])
    ++ rhythm freq speed cs

sounded-append :
    (l : Line) (es fs : List Event)
    → sounded l (es ++ fs) ≡ sounded l es ++ sounded (line_after l es) fs
sounded-append l [] fs = refl
sounded-append l (mdelay ms ∷ es) fs = ap (λ r. (tone_of l, ms) ∷ r) (sounded-append l es fs)
sounded-append l (pwm_set p q ∷ es) fs = sounded-append (next_line (pwm_set p q) l) es fs
sounded-append l (pwm_enable ∷ es) fs = sounded-append (next_line pwm_enable l) es fs
sounded-append l (pwm_disable ∷ es) fs = sounded-append (next_line pwm_disable l) es fs

line_after-append :
    (l : Line) (es fs : List Event) → line_after l (es ++ fs) ≡ line_after (line_after l es) fs
line_after-append l [] fs = refl
line_after-append l (e ∷ es) fs = line_after-append (next_line e l) es fs

ok-if :
    {A : Type 0} (a b d : Bool) (x y z w : A)
    → (if a then ok x else if b then ok y else if d then ok z else ok w)
      ≡ ok (if a then x else if b then y else if d then z else w)
ok-if true b d x y z w = refl
ok-if false true d x y z w = refl
ok-if false false true x y z w = refl
ok-if false false false x y z w = refl

play_cell-test_cell : (c : ℕ) → play_cell 3000 2 c ≡ ok (test_cell c)
unfolding play_cell test_cell
play_cell-test_cell c =
    let whole : c * 2 / 2 ≡ c = omega arith in
    rw whole (ok-if (c == 3000) (c == 7000) (c == 100 || c == 300) _ _ _ _)

-- The loop of `morse_play_test`, with its own constants, makes on any memory the calls that the
-- loop of `morse_play_once` makes at 3000 Hz and speed 2, and faults where that faults.
pub test_loop-play_loop : (cells : List ℕ) → test_loop cells ≡ play_loop 3000 2 cells
unfolding test_loop play_loop
test_loop-play_loop [] = refl
test_loop-play_loop (c ∷ cells) = rw (play_cell-test_cell c, test_loop-play_loop cells) refl

-- The tone is set by one call.
sound_set-tone :
    (freq : ℕ)
    → freq < 3500
    → (p : ℕ) × (q : ℕ) × (sound_set freq 50 ≡ pwm_set p q ∷ []) × (tone freq ≡ some (p, q))
unfolding sound_set
sound_set-tone freq h =
    let whole : freq % 2 ^ 16 ≡ freq = omega arith in
    elim (==_cases freq 0) [
      | inl e ↦ (1000000, 0, rw e refl, rw e refl)
      | inr other ↦ (
        1000000000 / freq,
        pulse_of (1000000000 / freq) 50,
        rw (whole, other) refl,
        rw other refl,
      )
    ]

-- The part of the rhythm that one cell makes.
cell_rhythm :
    (freq speed c : ℕ) (l : Line)
    → freq < 3500
    → (es : List Event) × (play_cell freq (suc speed) c ≡ ok es)
      × (sounded l es ++ [] ≡ rhythm freq (suc speed) (c ∷ []))
      × (l.on ≡ 0 → (line_after l es).on ≡ 0)
unfolding play_cell
cell_rhythm freq speed c l h =
    let (p, q, call, heard) = sound_set-tone freq h in
    elim (==_cases c 100) [
      | inl e ↦ (mark p q 200, rw (e, call) refl, rw (e, heard) refl, λ _. refl)
      | inr not_dot ↦ elim (==_cases c 300) [
        | inl e ↦ (mark p q 600, rw (e, call) refl, rw (e, heard) refl, λ _. refl)
        | inr not_dash ↦ elim (==_cases c 3000) [
          | inl e ↦ (space 600, rw e refl, rw e refl, λ _. refl)
          | inr not_space ↦ elim (==_cases c 7000) [
            | inl e ↦ (space 400, rw e refl, rw e refl, λ _. refl)
            | inr other ↦ (
              [],
              rw (not_dot, not_dash, not_space, other) refl,
              rw (not_dot, not_dash, not_space, other) refl,
              λ h. h,
            )
          ]
        ]
      ]
    ]
  where
    mark : ℕ → ℕ → ℕ → List Event
    mark p q ms =
        pwm_set p q
        ∷ pwm_enable
        ∷ mdelay (ms / suc speed)
        ∷ pwm_disable
        ∷ mdelay (200 / suc speed)
        ∷ []

    space : ℕ → List Event
    space ms = pwm_disable ∷ mdelay (ms / suc speed) ∷ []

rhythm-cons :
    (freq speed c : ℕ) (cs : List ℕ)
    → rhythm freq speed (c ∷ cs) ≡ rhythm freq speed (c ∷ []) ++ rhythm freq speed cs
rhythm-cons freq speed c cs = rw (append-nil) refl

-- The loop over cells that are not zero, up to the zero behind them.
pub play_loop-rhythm :
    (freq speed : ℕ) (cells rest : List ℕ) (l : Line)
    → freq < 3500
    → no_zero cells ≡ true
    → (es : List Event) × (play_loop freq (suc speed) (cells ++ (0 ∷ rest)) ≡ ok es)
      × (sounded l es ≡ rhythm freq (suc speed) cells)
      × (l.on ≡ 0 → (line_after l es).on ≡ 0)
unfolding play_loop
play_loop-rhythm freq speed [] rest l h nz = ([], refl, refl, λ off. off)
play_loop-rhythm freq speed (c ∷ cells) rest l h nz =
    let (now, plays, sounds, off) = cell_rhythm freq speed c l h in
    let (later, plays', sounds', off') =
      play_loop-rhythm freq speed cells rest (line_after l now) h (no_zero-tail c cells nz) in
    (
      now ++ later,
      rw (no_zero-head c cells nz, plays, plays') refl,
      sounded-append l now later
          ∙ ap₂ ◌++◌ (sym (append-nil (sounded l now)) ∙ sounds) sounds'
          ∙ sym (rhythm-cons freq (suc speed) c cells),
      λ start. rw (line_after-append l now later) (off' (off start)),
    )

-- The loop over cells of which none is zero runs off their end.
pub play_loop-unended :
    (freq speed : ℕ) (cells : List ℕ)
    → freq < 3500
    → no_zero cells ≡ true
    → play_loop freq (suc speed) cells ≡ fault bad_read
unfolding play_loop
play_loop-unended freq speed [] h nz = refl
play_loop-unended freq speed (c ∷ cells) h nz =
    let (now, plays, sounds, off) =
      cell_rhythm freq speed c (record { on = 0; period = 0; low = 0 }) h in
    rw
      (
        no_zero-head c cells nz,
        plays,
        play_loop-unended freq speed cells h (no_zero-tail c cells nz),
      )
      refl
