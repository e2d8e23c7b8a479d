-- ===== src/Morse/Encode.antt =====
-- `translate` of ls2kdev_play/applications/morse_encode.c: text to sound codes.
pub mod Cases
pub mod Spec
pub mod Correct
pub mod Built
use losangeles_lakers.Base.{
  ℕ, zero, suc, ◌+◌, List, [], ◌∷◌, ◌++◌, Option, none, some, ◌==◌, if◌then◌else◌, replicate,
  Result, ok, fault, bad_read, ◌>>=◌, store,
}
use losangeles_lakers.Base.Text.{codes}
use Cases.{Case, switch}

-- What `translate` works on: the global array, its index `j`, and what the console has shown.
pub record Encoder : Type 0 where
  pub morse_code : List ℕ
  pub j : ℕ
  pub console : List ℕ

abbrev pub morse_code_size : ℕ
morse_code_size = 200

abbrev pub text_size : ℕ
text_size = 31

-- The case that a character takes; `none` is `default`.
unfoldable pub find_case : ℕ → List Case → Option Case
find_case c [] = none
find_case c (k ∷ ks) = if k.label == c then some k else find_case c ks

-- `while (T[k] != NULL)`: the list is the memory from the table's first cell on.
unfoldable pub copy_table : List ℕ → Encoder → Result Encoder
copy_table [] e = fault bad_read
copy_table (x ∷ memory) e =
    if x == 0
    then ok e
    else (store e.morse_code e.j x >>= λ cells.
        copy_table memory (record e { morse_code = cells; j = e.j + 1 }))

unfoldable pub clear : Encoder
clear = record { morse_code = replicate morse_code_size 0; j = 0; console = codes "对应的摩尔斯码为：" }

-- The last `rt_kprintf` of `translate`.
abbrev pub end_line : Encoder → Result Encoder
end_line e = ok (record e { console = e.console ++ codes "\n" })

-- `after c` is the memory behind the table of the character `c`, which the linker lays out.
module _ (after : ℕ → List ℕ) where
  unfoldable pub translate_char : ℕ → Encoder → Result Encoder
  translate_char c e = elim (find_case c switch) [
    | none ↦ ok e
    | some k ↦ copy_table (k.table ++ after c) (record e { console = e.console ++ k.printed })
  ]

  -- The rounds that are left, and the text from `a[i]` on.
  unfoldable pub translate_loop : ℕ → List ℕ → Encoder → Result Encoder
  translate_loop zero a e = ok e
  translate_loop (suc rounds) [] e = fault bad_read
  translate_loop (suc rounds) (c ∷ a) e = translate_char c e >>= translate_loop rounds a

  unfoldable pub translate : List ℕ → Result Encoder
  translate a = translate_loop text_size a clear >>= end_line
