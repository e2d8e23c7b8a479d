-- ===== src/Morse/Play/Tests.antt =====
-- The player commands at concrete texts.
use losangeles_lakers.Base.{
  ℕ, ◌++◌, ◌≡◌, refl, List, [], ◌∷◌, none, some, replicate, ok, fault, bad_read, arith,
}
use losangeles_lakers.Base.Text.{codes}
use losangeles_lakers.Drivers.Pwm.Line.{Line}
use losangeles_lakers.Morse.Sound.{Event, pulse_of}
use losangeles_lakers.Morse.Encode.{find_case}
use losangeles_lakers.Morse.Encode.Spec.{copied, copied_of, before_zero}
use losangeles_lakers.Morse.Encode.Built.{built, built-EndsTables}
use losangeles_lakers.Morse.Encode.Correct.{translated}
use losangeles_lakers.Morse.Play.{read_line, morse_play_once, played}
use losangeles_lakers.Morse.Play.Rhythm.{sounded, line_after, rhythm}
use losangeles_lakers.Morse.Play.Once.{morse_play_once-rhythm, morse_play_once_unended}

abbrev silent : Line
silent = record { on = 0; period = 0; low = 0 }

-- A dot at 2000 Hz and twice the speed.
dot_sounds : rhythm 2000 2 (100 ∷ []) ≡ (some (500000, 250000), 100) ∷ (none, 100) ∷ []
unfolding pulse_of
dot_sounds = refl

morse_play_once-rhythm_example :
    (es : List Event) × (morse_play_once built 3 2000 2 (codes "HI DAD\n")
      ≡ ok (played (translated built (read_line (codes "HI DAD\n"))) es))
    × (sounded silent es ≡ rhythm 2000 2 (copied built (codes "HI DAD\n")))
    × (silent.on ≡ 0 → (line_after silent es).on ≡ 0)
unfolding copied copied_of find_case before_zero
morse_play_once-rhythm_example =
    morse_play_once-rhythm built built-EndsTables 2000 2 (codes "HI DAD\n") silent (omega arith)
      (omega arith) (omega arith) (omega arith)

-- 15 times 13 cells and 5.
abbrev full_line : List ℕ
full_line = replicate 15 b'$' ++ codes "B"

morse_play_once_unended_example : morse_play_once built 3 2000 2 (full_line) ≡ fault bad_read
unfolding copied copied_of find_case before_zero
morse_play_once_unended_example =
    morse_play_once_unended built built-EndsTables 2000 2 (full_line) (omega arith) (omega arith)
      (omega arith) (omega arith)
