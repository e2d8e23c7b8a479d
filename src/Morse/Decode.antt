-- ===== src/Morse/Decode.antt =====
-- `inverse_translate` of ls2kdev_record/applications/morse/morse_decode.c: sound codes to text.
pub mod Match
pub mod Groups
use losangeles_lakers.Base.{
  ℕ, zero, suc, ◌+◌, Bool, true, false, ltb, List, [], ◌∷◌, ◌++◌, ◌==◌, ◌||◌, if◌then◌else◌,
  replicate, length, Result, ok, fault, stuck, bad_read, bad_write, ◌>>=◌, store,
}
use losangeles_lakers.Base.Text.{codes}
use losangeles_lakers.Morse.Code.{zifu_kong}
use Match.{decode}

abbrev pub finsh : ℕ
finsh = 0

abbrev pub start : ℕ
start = 1

-- The global `code`, its index `j`, and what the console has shown.
pub record Decoder : Type 0 where
  pub code : List ℕ
  pub j : ℕ
  pub console : List ℕ

abbrev pub code_size : ℕ
code_size = 31

-- The length of `int a[200]`, the array that both process threads hand over.
abbrev pub jud_size : ℕ
jud_size = 200

-- The three cases of the outer `switch`.
pub data Kind : Type 0 where
  group_start finished other : Kind

unfoldable pub kind : ℕ → Kind
kind x =
    if x == start || x == zifu_kong then group_start else if x == finsh then finished else other

-- The inner `while`: the symbols up to the next space or end, and the memory from there on. The
-- list starts at `a[i + 1]`; the number is what `int c[7]` has left.
unfoldable pub scan : ℕ → List ℕ → Result (List ℕ × List ℕ)
scan room [] = fault bad_read
scan zero (x ∷ a) = if x == zifu_kong || x == finsh then ok ([], x ∷ a) else fault bad_write
scan (suc room) (x ∷ a) =
    if x == zifu_kong || x == finsh
    then ok ([], x ∷ a)
    else (scan room a >>= λ found. ok (x ∷ found.0, found.1))

-- `code[j] = x; j++; rt_kprintf(x)` for each character.
unfoldable pub emit : List ℕ → Decoder → Result Decoder
emit [] d = ok d
emit (x ∷ xs) d = store d.code d.j x >>= λ cells.
    emit xs (record d { code = cells; j = d.j + 1; console = d.console ++ (x ∷ []) })

-- `for (i = 0; i < 200; i++)`: the index `i` and the memory from `a[i]` on, with fuel for the
-- rounds. A group moves `i` to what ends it.
unfoldable pub decode_loop : ℕ → ℕ → List ℕ → Decoder → Result Decoder
decode_loop zero i a d = stuck
decode_loop (suc fuel) i [] d = if ltb i jud_size then fault bad_read else ok d
decode_loop (suc fuel) i (x ∷ a) d = elim (ltb i jud_size) [
  | true ↦ elim (kind x) [
    | group_start ↦ scan 7 a >>= λ found.
        emit (decode found.0) d >>= λ d'. decode_loop fuel (i + 1 + length found.0) found.1 d'
    | finished ↦ ok d
    | other ↦ decode_loop fuel (i + 1) a d
  ]
  | false ↦ ok d
]

unfoldable pub cleared : Decoder
cleared = record { code = replicate code_size 0x7e; j = 0; console = codes "识别出的字符串为：" }

unfoldable pub inverse_translate : List ℕ → Result Decoder
inverse_translate a = decode_loop (suc jud_size) 0 a cleared
