-- ===== src/Morse/Play/Once.antt =====
-- What the two player commands do with a text.
use losangeles_lakers.Base.{
  ℕ, zero, suc, ◌-◌, ◌≤◌, ◌<◌, ◌≡◌, refl, ap, ◌∙◌, sym, false, List, ◌∷◌, ◌++◌, arith, length, take,
  replicate, All, append-nil, ok, fault, bad_read, length-append, length-replicate, ltb-true,
}
use losangeles_lakers.Base.Text.{codes}
use losangeles_lakers.Drivers.Pwm.Line.{Line}
use losangeles_lakers.Morse.Sound.{Event}
use losangeles_lakers.Morse.Encode.{translate, text_size, morse_code_size, find_case}
use losangeles_lakers.Morse.Encode.Spec.{copied, copied-append, copied-no_zero, copied_of}
use losangeles_lakers.Morse.Encode.Correct.{EndsTables, translated, translate-encoding}
use losangeles_lakers.Morse.RoundTrip.{take_all}
use losangeles_lakers.Morse.RoundTrip.Received.{is_sent, copied-silent}
use losangeles_lakers.Morse.Play.{read_line, morse_play_once, morse_play_test, played}
use losangeles_lakers.Morse.Play.Rhythm.{
  sounded, line_after, rhythm, play_loop-rhythm, play_loop-unended, test_loop-play_loop,
}

silent_fill : (n : ℕ) → All (λ c. is_sent c ≡ false) (replicate n b'~')
unfolding is_sent find_case
silent_fill zero = tt
silent_fill (suc n) = (refl, silent_fill n)

-- The zero byte and the `~` behind a line have no code.
copied-read_line :
    (after : ℕ → List ℕ) (typed : List ℕ) → copied after (read_line typed) ≡ copied after typed
unfolding read_line is_sent find_case
copied-read_line after typed =
    copied-append after typed (0 ∷ replicate (text_size - length typed - 1) b'~')
    ∙ ap (λ l. copied after typed ++ l)
        (copied-silent after (0 ∷ replicate (text_size - length typed - 1) b'~')
          (refl, silent_fill (text_size - length typed - 1)))
    ∙ append-nil (copied after typed)

-- A zero byte in a text has no code.
copied-null :
    (after : ℕ → List ℕ) (cs ds : List ℕ) → copied after (cs ++ (0 ∷ ds)) ≡ copied after (cs ++ ds)
unfolding copied copied_of find_case
copied-null after cs ds =
    copied-append after cs (0 ∷ ds)
    ∙ ap (λ l. copied after cs ++ l) refl
    ∙ sym (copied-append after cs ds)

-- The text of `morse_play_test`.
abbrev pub sample : List ℕ
sample = codes "WO AI LUO SHAN JI HU REN"

length-read_line :
    (typed : List ℕ) → length typed < text_size → length (read_line typed) ≡ text_size
unfolding read_line
length-read_line typed short = omega (
  arith,
  length-append typed (0 ∷ replicate (text_size - length typed - 1) b'~'),
  length-replicate {A = ℕ} (text_size - length typed - 1) b'~',
)

-- The array after a translation, with a cell left.
array-rest :
    (after : ℕ → List ℕ) (cs : List ℕ)
    → length (copied after cs) < morse_code_size
    → (translated after cs).morse_code
      ≡ copied after cs ++ (0 ∷ replicate (morse_code_size - length (copied after cs) - 1) 0)
array-rest after cs room =
    let e : morse_code_size - length (copied after cs)
        ≡ suc (morse_code_size - length (copied after cs) - 1) =
      omega arith in
    ap (λ n. copied after cs ++ replicate n 0) e

array-full :
    (after : ℕ → List ℕ) (cs : List ℕ)
    → length (copied after cs) ≡ morse_code_size
    → (translated after cs).morse_code ≡ copied after cs
array-full after cs full =
    let e : morse_code_size - length (copied after cs) ≡ 0 = omega arith in
    ap (λ n. copied after cs ++ replicate n 0) e ∙ append-nil (copied after cs)

module _ (after : ℕ → List ℕ) (ends : EndsTables after) where
  translate-line :
      (typed : List ℕ)
      → length typed < text_size
      → length (copied after typed) ≤ morse_code_size
      → translate after (read_line typed) ≡ ok (translated after (read_line typed))
  translate-line typed short fits =
      let whole = take_all (read_line typed) text_size (length-read_line typed short) in
      translate-encoding after ends (read_line typed) (omega (arith, length-read_line typed short))
        (rw (whole, copied-read_line after typed) fits)
      ∙ ap (λ l. ok (translated after l)) whole

  -- With a zero cell somewhere behind every table, at least 1 for the speed and less than 3500 for
  -- the frequency, `morse_play_once` plays a line of at most 30 bytes, where the codes of its
  -- characters, each with the cells behind its table up to the first zero, leave a cell of the
  -- array: the delays of its calls sound the rhythm of these codes and cells, whatever the timer
  -- put out before, and where it was off, it is off at the end.
  pub morse_play_once-rhythm :
      (freq speed : ℕ) (typed : List ℕ) (l : Line)
      → freq < 3500
      → 0 < speed
      → length typed < text_size
      → length (copied after typed) < morse_code_size
      → (es : List Event) × (morse_play_once after 3 freq speed typed
          ≡ ok (played (translated after (read_line typed)) es))
        × (sounded l es ≡ rhythm freq speed (copied after typed))
        × (l.on ≡ 0 → (line_after l es).on ≡ 0)
  unfolding morse_play_once
  morse_play_once-rhythm freq zero typed l low fast short room = absurd (omega arith)
  morse_play_once-rhythm freq (suc speed) typed l low fast short room =
      let same = copied-read_line after typed in
      let (es, plays, sounds, off) =
        play_loop-rhythm freq speed (copied after (read_line typed))
          (replicate (morse_code_size - length (copied after (read_line typed)) - 1) 0) l low
          (copied-no_zero after (read_line typed)) in
      (
        es,
        rw
            (
              ltb-true freq 3500 low,
              translate-line typed short (omega arith),
              array-rest after (read_line typed) (rw same room),
              plays,
            )
            refl,
        sounds ∙ ap (rhythm freq (suc speed)) same,
        off,
      )

  -- With a zero cell somewhere behind every table, at least 1 for the speed and less than 3500 for
  -- the frequency, and a line of at most 30 bytes whose codes, with the cells behind the tables up
  -- to the first zero, fill the 200 cells exactly, the playing loop of `morse_play_once` reads past
  -- the end of the array.
  pub morse_play_once_unended :
      (freq speed : ℕ) (typed : List ℕ)
      → freq < 3500
      → 0 < speed
      → length typed < text_size
      → length (copied after typed) ≡ morse_code_size
      → morse_play_once after 3 freq speed typed ≡ fault bad_read
  unfolding morse_play_once
  morse_play_once_unended freq zero typed low fast short full = absurd (omega arith)
  morse_play_once_unended freq (suc speed) typed low fast short full =
      rw
        (
          ltb-true freq 3500 low,
          translate-line typed short (omega arith),
          array-full after (read_line typed) (rw (copied-read_line after typed) full),
          play_loop-unended freq speed (copied after (read_line typed)) low
              (copied-no_zero after (read_line typed)),
        )
        refl

  -- With a zero cell somewhere behind every table, `morse_play_test` sounds at 3000 Hz and speed 2
  -- the rhythm of what is copied for its text and for the six bytes of memory behind the literal's
  -- zero byte, where that leaves a cell of the array, whatever the timer put out before; where it was off, it is off
  -- at the end.
  pub morse_play_test-rhythm :
      (behind : List ℕ) (l : Line)
      → 6 ≤ length behind
      → length (copied after (sample ++ take 6 behind)) < morse_code_size
      → (es : List Event) × (morse_play_test after behind
          ≡ ok (played (translated after (sample ++ (0 ∷ take 6 behind))) es))
        × (sounded l es ≡ rhythm 3000 2 (copied after (sample ++ take 6 behind)))
        × (l.on ≡ 0 → (line_after l es).on ≡ 0)
  unfolding morse_play_test
  morse_play_test-rhythm behind l long room =
      let cs = sample ++ (0 ∷ take 6 behind) in
      let same = copied-null after sample (take 6 behind) in
      let (es, plays, sounds, off) =
        play_loop-rhythm 3000 1 (copied after cs)
          (replicate (morse_code_size - length (copied after cs) - 1) 0) l (omega arith)
          (copied-no_zero after cs) in
      let text : translate after (sample ++ (0 ∷ behind)) ≡ ok (translated after cs) =
        translate-encoding after ends (sample ++ (0 ∷ behind)) (omega arith)
          (rw same (omega arith)) in
      (
        es,
        rw
            (
              text,
              test_loop-play_loop (translated after cs).morse_code,
              array-rest after cs (rw same room),
              plays,
            )
            refl,
        sounds ∙ ap (rhythm 3000 2) same,
        off,
      )
