-- ===== src/Morse/Tests.antt =====
-- Runs of the Morse modules on small inputs, and the theorems at concrete inputs.
use losangeles_lakers.Base.{
  ℕ, ◌≡◌, refl, List, [], ◌∷◌, ◌++◌, replicate, ok, fault, bad_write, arith,
}
use losangeles_lakers.Base.Text.{codes}
use losangeles_lakers.Morse.Code.{dian, hua, zifu_kong, ci_kong}
use losangeles_lakers.Morse.Decode.{
  inverse_translate, start, decode_loop, cleared, emit, scan, finsh, kind,
}
use losangeles_lakers.Morse.Decode.Match.{decode}
use losangeles_lakers.Morse.Encode.{Encoder, translate, find_case}
use losangeles_lakers.Morse.Encode.Spec.{encoding, code_of, copied, copied_of, before_zero}
use losangeles_lakers.Morse.Encode.Built.{built, built-EndsTables}
use losangeles_lakers.Morse.Encode.Correct.{translated, translate-encoding, translate_overflow}
use losangeles_lakers.Morse.Judge.{Judge, judge, test_limits}
use losangeles_lakers.Morse.Judge.Signal.{Burst, frames, IsKeyed, judged, mark_of, gap_of}
use losangeles_lakers.Morse.Judge.Correct.{judge-judged}
use losangeles_lakers.Morse.RoundTrip.{
  heard, sent_over, inverse_translate-encoding, inverse_translate-translate,
}
use losangeles_lakers.Morse.RoundTrip.Received.{received, received_text, is_sent, is_plain}
use losangeles_lakers.Morse.RoundTrip.Hearing.{inverse_translate-judge}

-- S, O, a space and E.
abbrev sos : List ℕ
sos =
    start ∷ dian ∷ dian ∷ dian ∷ zifu_kong ∷ hua ∷ hua ∷ hua ∷ zifu_kong ∷ ci_kong ∷ zifu_kong
    ∷ dian ∷ finsh ∷ []

sos_decodes :
    inverse_translate sos
    ≡ ok (record {
      code = codes "SO E" ++ replicate 27 0x7e;
      j = 4;
      console = codes "识别出的字符串为：SO E";
    })
unfolding inverse_translate decode_loop cleared emit scan decode kind
sos_decodes = refl

abbrev greeting : List ℕ
greeting = codes "HI MAN"

abbrev padding : List ℕ
padding = replicate 25 0x7e

-- The table of `E` lies at once behind that of `D`, so that this `D` is sent with an `E`.
abbrev late : List ℕ
late = codes "HI DAD"

copied-late : copied built late ≡ encoding (codes "HI DEADE")
unfolding copied copied_of encoding code_of find_case before_zero
copied-late = refl

translate-encoding_example :
    translate built (late ++ padding) ≡ ok (translated built (late ++ padding))
unfolding copied copied_of find_case before_zero
translate-encoding_example =
    translate-encoding built built-EndsTables (late ++ padding) (omega arith) (omega arith)

-- 31 dollar signs, with the table of `&` behind each, take 403 cells.
translate_overflow_example : translate built (replicate 31 b'$') ≡ fault bad_write
unfolding copied copied_of find_case before_zero
translate_overflow_example =
    translate_overflow built built-EndsTables (replicate 31 b'$') (omega arith)

inverse_translate-encoding_example :
    inverse_translate (start ∷ (encoding (codes "A.&B") ++ (finsh ∷ [])))
    ≡ ok (heard (codes "A.~HB"))
unfolding received_text received encoding code_of find_case
inverse_translate-encoding_example =
    inverse_translate-encoding (codes "A.&B") [] (omega arith) (omega arith)

inverse_translate-translate_example :
    (e : Encoder) × (translate built (greeting ++ padding) ≡ ok e)
    × (inverse_translate (sent_over e) ≡ ok (heard greeting))
unfolding encoding code_of find_case is_sent is_plain before_zero
inverse_translate-translate_example =
    inverse_translate-translate built greeting padding built-EndsTables (ground arith)
      (ground arith) (ground arith) refl (omega arith)

-- `ET` in the rhythm of `morse_process_test`: five loud frames, twelve quiet ones, twelve loud.
abbrev e_burst : Burst
e_burst = record { sound = replicate 5 2000000; silence = replicate 12 100 }

abbrev t_burst : Burst
t_burst = record { sound = replicate 12 2000000; silence = replicate 2 100 }

e_burst-IsKeyed : IsKeyed test_limits e_burst
e_burst-IsKeyed = omega arith

t_burst-IsKeyed : IsKeyed test_limits t_burst
t_burst-IsKeyed = omega arith

judge-judged_example :
    (s : Judge) × (judge test_limits 7 7 (0 ∷ frames (e_burst ∷ t_burst ∷ [])) ≡ ok s)
    × (s.jud ≡ start ∷ dian ∷ zifu_kong ∷ hua ∷ replicate 196 0)
unfolding judged mark_of gap_of
judge-judged_example =
    judge-judged test_limits (0 ∷ []) e_burst (t_burst ∷ []) 7 7 (omega arith) (omega arith)
      (omega arith) (e_burst-IsKeyed, (t_burst-IsKeyed, tt)) (omega arith)

inverse_translate-judge_example :
    (s : Judge) × (judge test_limits 7 7 (0 ∷ frames (e_burst ∷ t_burst ∷ [])) ≡ ok s)
    × (inverse_translate s.jud ≡ ok (heard (codes "ET")))
unfolding judged mark_of gap_of encoding code_of find_case received_text received
inverse_translate-judge_example =
    inverse_translate-judge test_limits (0 ∷ []) e_burst (t_burst ∷ []) 7 7 (codes "ET")
      (omega arith) (omega arith) (omega arith) (e_burst-IsKeyed, (t_burst-IsKeyed, tt)) refl
      (omega arith) (omega arith)
