-- ===== src/Morse/RoundTrip.antt =====
-- What the recorder's decoder makes of the codes of the player's encoder.
pub mod Received
pub mod Hearing
use losangeles_lakers.Base.{
  ℕ, zero, suc, ◌+◌, ◌-◌, ◌≤◌, ◌<◌, ◌≡◌, refl, ap, ◌∙◌, Bool, true, false, List, [], ◌∷◌, ◌++◌,
  replicate, length, take, arith, append_assoc, append-nil, Result, ok, length-append, All,
}
use losangeles_lakers.Base.Text.{codes}
use losangeles_lakers.Morse.Code.{zifu_kong}
use losangeles_lakers.Morse.Encode.{Encoder, translate, text_size, morse_code_size}
use losangeles_lakers.Morse.Encode.Spec.{
  code_of, encoding, before_zero, copied, copied-append, copied-encoding,
}
use losangeles_lakers.Morse.Encode.Correct.{EndsTables, translated, translate-encoding}
use losangeles_lakers.Morse.Decode.{
  Decoder, kind, group_start, decode_loop, inverse_translate, cleared, start, finsh, code_size,
  jud_size,
}
use losangeles_lakers.Morse.Decode.Groups.{stored, all_symbols, loop-group, loop_end}
use losangeles_lakers.Morse.Decode.Match.{decode}
use losangeles_lakers.Base.{inl, inr, sym}
use mathlib.Core.Path.{ap₂}
use Received.{
  received, received_text, Sent, is_plain, is_sent, code_of-received, copied-silent,
  received_text-plain,
}

-- The codes of a character that is sent, with what follows brought behind its space.
Sent-then :
    {c : ℕ} (cs rest : List ℕ) (sent : Sent c)
    → (code_of c ++ encoding cs) ++ (finsh ∷ rest)
      ≡ sent.group ++ (zifu_kong ∷ (encoding cs ++ (finsh ∷ rest)))
Sent-then {c} cs rest sent = rw sent.sends (simp append_assoc)

pub code_of-pos : {c : ℕ} (sent : Sent c) → 0 < length (code_of c)
code_of-pos sent = rw sent.sends (omega (arith, length-append sent.group (zifu_kong ∷ [])))

-- One round at a character that is sent.
loop-Sent :
    (fuel i x : ℕ) {c : ℕ} (cs rest w : List ℕ) (r : ℕ) (s : List ℕ) (sent : Sent c)
    → i < jud_size
    → kind x ≡ group_start
    → length (received c) ≤ r
    → decode_loop (suc fuel) i (x ∷ ((code_of c ++ encoding cs) ++ (finsh ∷ rest))) (stored w r s)
      ≡ decode_loop fuel
          (i + length (code_of c))
          (zifu_kong ∷ (encoding cs ++ (finsh ∷ rest)))
          (stored (w ++ received c) (r - length (received c)) s)
loop-Sent fuel i x {c} cs rest w r s sent inside k fits =
    ap (λ l. decode_loop (suc fuel) i (x ∷ l) (stored w r s)) (Sent-then cs rest sent)
    ∙ loop-group fuel i x sent.group zifu_kong (encoding cs ++ (finsh ∷ rest)) w r s inside k
        sent.symbols sent.short refl (rw sent.decodes fits)
    ∙ ap₂
        (λ n l.
          decode_loop fuel n (zifu_kong ∷ (encoding cs ++ (finsh ∷ rest)))
            (stored (w ++ l) (r - length l) s))
        moves sent.decodes
  where
    moves : i + 1 + length sent.group ≡ i + length (code_of c)
    moves = omega (arith, ap length sent.sends, length-append sent.group (zifu_kong ∷ []))

-- The loop over the codes of a text, from the mark before them to the end of the message.
pub decode_loop-encoding :
    (cs : List ℕ) (fuel i x : ℕ) (rest w : List ℕ) (r : ℕ) (s : List ℕ)
    → kind x ≡ group_start
    → i + length (encoding cs) < jud_size
    → suc (length (encoding cs)) < fuel
    → length (received_text cs) ≤ r
    → decode_loop fuel i (x ∷ (encoding cs ++ (finsh ∷ rest))) (stored w r s)
      ≡ ok (stored (w ++ received_text cs) (r - length (received_text cs)) s)
unfolding encoding received_text
decode_loop-encoding cs zero i x rest w r s k inside enough fits = absurd (omega arith)
decode_loop-encoding [] (suc zero) i x rest w r s k inside enough fits = absurd (omega arith)
decode_loop-encoding [] (suc (suc fuel)) i x rest w r s k inside enough fits =
    loop-group (suc fuel) i x [] finsh rest w r s (omega arith) k refl (omega arith) refl
      (unfold decode in omega arith)
    ∙ loop_end fuel (i + 1 + 0) rest _
    ∙ unfold decode in refl
decode_loop-encoding (c ∷ cs) (suc fuel) i x rest w r s k inside enough fits =
    elim (code_of-received c) [
      | inl (silent, lost) ↦
          rw (silent, lost)
            (decode_loop-encoding cs (suc fuel) i x rest w r s k (rw silent at inside)
              (rw silent at enough) (rw lost at fits))
      | inr sent ↦
          let fits' : length (received c ++ received_text cs) ≤ r = fits in
          let total = length-append (received c) (received_text cs) in
          let sends = length-append (code_of c) (encoding cs) in
          let enough' : suc (length (code_of c ++ encoding cs)) < suc fuel = enough in
          let inside' : i + length (code_of c ++ encoding cs) < jud_size = inside in
          loop-Sent fuel i x cs rest w r s sent (omega arith) k (omega arith)
          ∙ decode_loop-encoding cs fuel (i + length (code_of c)) zifu_kong rest (w ++ received c)
              (r - length (received c)) s (unfold kind in refl) (omega arith)
              (omega (arith, code_of-pos sent)) (omega arith)
          ∙ rw (append_assoc w (received c) (received_text cs))
              (ap (λ k. ok (stored (w ++ (received c ++ received_text cs)) k s)) (omega arith))
    ]

-- What the decoder leaves for the received characters `cs`.
abbrev pub heard : List ℕ → Decoder
heard cs = stored cs (code_size - length cs) (codes "识别出的字符串为：")

-- The codes of any text, behind a start mark and before an end mark, are decoded to what is
-- received for each of its characters, where the codes take at most 198 cells and what is received
-- fits the 31 characters of `code`: plain characters as they are, the marks of six symbols except `@` with a `~` behind them, `&` as `H`,
-- and nothing for a character without a code. The rest of `code` is `~`.
pub inverse_translate-encoding :
    (cs rest : List ℕ)
    → length (encoding cs) ≤ 198
    → length (received_text cs) ≤ code_size
    → inverse_translate (start ∷ (encoding cs ++ (finsh ∷ rest))) ≡ ok (heard (received_text cs))
unfolding inverse_translate cleared
inverse_translate-encoding cs rest short fits =
    decode_loop-encoding cs (suc jud_size) 0 start rest [] code_size (codes "识别出的字符串为：")
      (unfold kind in refl) (omega arith) (omega arith) fits

take-replicate : (n r : ℕ) → n ≤ r → take n (replicate {A = ℕ} r 0) ≡ replicate n 0
take-replicate zero r h = refl
take-replicate (suc n) zero h = absurd (omega arith)
take-replicate (suc n) (suc r) h = ap (λ l. 0 ∷ l) (take-replicate n r (omega arith))

-- The first cells of an array that ends in zeros.
take-append_zeros :
    (xs : List ℕ) (n r : ℕ)
    → length xs < n
    → n ≤ length xs + r
    → take n (xs ++ replicate r 0) ≡ xs ++ (0 ∷ replicate (n - length xs - 1) 0)
take-append_zeros xs zero r h k = absurd (omega arith)
take-append_zeros [] (suc n) r h k =
    take-replicate (suc n) r (omega arith) ∙ ap (λ m. 0 ∷ replicate m 0) (omega arith)
take-append_zeros (x ∷ xs) (suc n) r h k =
    ap (λ l. x ∷ l) (take-append_zeros xs n r (omega arith) (omega arith))
    ∙ ap (λ m. x ∷ (xs ++ (0 ∷ replicate m 0))) (omega arith)

-- The array that the decoder is given for the encoder's array: a start mark and 199 cells of it.
abbrev pub sent_over : Encoder → List ℕ
sent_over e = start ∷ take 199 e.morse_code

pub take_all : (xs : List ℕ) (n : ℕ) → length xs ≡ n → take n xs ≡ xs
take_all [] n h = take_nil n
  where
    take_nil : (n : ℕ) → take {A = ℕ} n [] ≡ []
    take_nil zero = refl
    take_nil (suc n) = refl
take_all (x ∷ xs) zero h = absurd (omega arith)
take_all (x ∷ xs) (suc n) h = ap (λ l. x ∷ l) (take_all xs n (omega arith))

-- A text of plain characters, in the first 31 bytes with only bytes that have no code behind it,
-- comes back: where a zero cell lies somewhere behind every table, and at once behind those of the
-- characters of the text, and the codes take at most 198 cells, `translate` returns, and `inverse_translate` on its array returns with `code` holding the text
-- and then `~`, `j` its length, and the text shown on the console.
pub inverse_translate-translate :
    (after : ℕ → List ℕ) (cs pad : List ℕ)
    → EndsTables after
    → All (λ c. before_zero (after c) ≡ []) cs
    → All (λ c. is_plain c ≡ true) cs
    → All (λ c. is_sent c ≡ false) pad
    → length (cs ++ pad) ≡ text_size
    → length (encoding cs) ≤ 198
    → (e : Encoder) × (translate after (cs ++ pad) ≡ ok e)
      × (inverse_translate (sent_over e) ≡ ok (heard cs))
inverse_translate-translate after cs pad ends exact plain silent whole fits = (
  translated after (cs ++ pad),
  translate-encoding after ends (cs ++ pad) (omega arith) (rw (whole_text, codes_of) (omega arith))
      ∙ ap (λ l. ok (translated after l)) whole_text,
  ap inverse_translate over
      ∙ inverse_translate-encoding cs _ fits (rw back (omega (arith, length-append cs pad)))
      ∙ ap (λ l. ok (heard l)) back,
)
  where
    whole_text : take text_size (cs ++ pad) ≡ cs ++ pad
    whole_text = take_all (cs ++ pad) text_size whole

    codes_of : copied after (cs ++ pad) ≡ encoding cs
    codes_of =
        copied-append after cs pad
        ∙ ap₂ ◌++◌ (copied-encoding after cs exact) (copied-silent after pad silent)
        ∙ append-nil (encoding cs)

    back : received_text cs ≡ cs
    back =
        ap received_text (sym (append-nil cs))
        ∙ received_text-plain cs [] plain
        ∙ unfold received_text in append-nil cs

    over :
        sent_over (translated after (cs ++ pad))
        ≡ start ∷ (encoding cs ++ (finsh ∷ replicate (199 - length (encoding cs) - 1) 0))
    over = rw codes_of (
        ap (λ l. start ∷ l)
          (take-append_zeros (encoding cs) 199 (morse_code_size - length (encoding cs))
            (omega arith) (omega arith)))
