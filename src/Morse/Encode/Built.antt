-- ===== src/Morse/Encode/Built.antt =====
-- The memory behind the tables in ls2kdev_play/build/applications/morse_encode.o: some tables lie
-- at once behind another one, and padding with zeros lies behind the others.
use losangeles_lakers.Base.{ℕ, List, [], ◌∷◌, ◌++◌, ◌==◌, if◌then◌else◌}
use losangeles_lakers.Morse.Code.{
  morse_e, morse_h, morse_l, morse_p, morse_s, morse_t, morse_v, morse_x, morse_and,
}
use losangeles_lakers.Morse.Encode.Spec.{has_zero_at_end}
use losangeles_lakers.Morse.Encode.Correct.{EndsTables}

-- The tables that lie behind that of a character without padding between them.
abbrev pub behind : ℕ → List ℕ
behind c =
    if c == b'D'
    then morse_e
    else if c == b'G'
    then morse_h
    else if c == b'K'
    then morse_l
    else if c == b'O'
    then morse_p
    else if c == b'R'
    then morse_s ++ morse_t
    else if c == b'S'
    then morse_t
    else if c == b'U'
    then morse_v
    else if c == b'W'
    then morse_x
    else if c == b'$'
    then morse_and
    else []

-- The first zero behind them.
abbrev pub built : ℕ → List ℕ
built c = behind c ++ (0 ∷ [])

pub built-EndsTables : EndsTables built
built-EndsTables c = has_zero_at_end (behind c)
