-- ===== src/Morse/Play.antt =====
-- `morse_play_once` and `morse_play_test` of ls2kdev_play/applications/morse_encode.c.
pub mod Rhythm
pub mod Once
mod Tests
use losangeles_lakers.Base.{
  ℕ, zero, suc, ◌+◌, ◌-◌, ◌*◌, ◌/◌, List, [], ◌∷◌, ◌++◌, ◌==◌, ◌||◌, ltb, if◌then◌else◌, length,
  replicate, Result, ok, fault, bad_read, divide, ◌>>=◌,
}
use losangeles_lakers.Base.Text.{codes}
use losangeles_lakers.Morse.Encode.{Encoder, text_size, translate}
use losangeles_lakers.Morse.Sound.{Event, mdelay, sound_on, sound_off, sound_set}

-- One round of the loop of `morse_play_once`, whose cell is not zero.
unfoldable pub play_cell : ℕ → ℕ → ℕ → Result (List Event)
play_cell freq speed c =
    if c == 3000
    then (divide 600 speed >>= λ ms. ok (sound_off ++ (mdelay ms ∷ [])))
    else if c == 7000
    then (divide 400 speed >>= λ ms. ok (sound_off ++ (mdelay ms ∷ [])))
    else if c == 100 || c == 300
    then (divide (c * 2) speed >>= λ ms. divide 200 speed >>= λ pause.
        ok (sound_set freq 50 ++ sound_on ++ (mdelay ms ∷ []) ++ sound_off ++ (mdelay pause ∷ [])))
    else ok []

-- `while (morse_code[i] != NULL)`, from `morse_code[i]` on.
unfoldable pub play_loop : ℕ → ℕ → List ℕ → Result (List Event)
play_loop freq speed [] = fault bad_read
play_loop freq speed (c ∷ cells) =
    if c == 0
    then ok []
    else (play_cell freq speed c >>= λ now.
        play_loop freq speed cells >>= λ later. ok (now ++ later))

-- The same of `morse_play_test`.
unfoldable pub test_cell : ℕ → List Event
test_cell c =
    if c == 3000
    then sound_off ++ (mdelay 300 ∷ [])
    else if c == 7000
    then sound_off ++ (mdelay 200 ∷ [])
    else if c == 100 || c == 300
    then sound_set 3000 50 ++ sound_on ++ (mdelay c ∷ []) ++ sound_off ++ (mdelay 100 ∷ [])
    else []

unfoldable pub test_loop : List ℕ → Result (List Event)
test_loop [] = fault bad_read
test_loop (c ∷ cells) =
    if c == 0 then ok [] else (test_loop cells >>= λ later. ok (test_cell c ++ later))

-- How a command ends: with one of its two usage lines, or with what it translated and played.
pub data Outcome : Type 0 where
  usage_arguments usage_freq : Outcome
  played : Encoder → List Event → Outcome

-- `str` after `fgets(str, size, stdin)` has read `typed`, which is not longer than `size - 1`.
unfoldable pub read_line : List ℕ → List ℕ
read_line typed = typed ++ (0 ∷ replicate (text_size - length typed - 1) b'~')

module _ (after : ℕ → List ℕ) where
  -- `freq` and `speed` are the numbers that the arguments spell.
  unfoldable pub morse_play_once : ℕ → ℕ → ℕ → List ℕ → Result Outcome
  morse_play_once argc freq speed typed =
      if argc == 3
      then if ltb freq 3500
        then (translate after (read_line typed) >>= λ e.
            play_loop freq speed e.morse_code >>= λ events. ok (played e events))
        else ok usage_freq
      else ok usage_arguments

  -- `behind` is the memory behind the literal and its zero byte.
  unfoldable pub morse_play_test : List ℕ → Result Outcome
  morse_play_test behind =
      translate after (codes "WO AI LUO SHAN JI HU REN" ++ (0 ∷ behind)) >>= λ e.
      test_loop e.morse_code >>= λ events. ok (played e events)
