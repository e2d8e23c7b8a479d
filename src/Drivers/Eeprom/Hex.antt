-- ===== src/Drivers/Eeprom/Hex.antt =====
-- The numbers and commands of ls2kdev_record/drivers/eeprom.c that are given as text.
pub mod Numbers
pub mod Command
pub mod Written
use losangeles_lakers.Base.{
  ℕ, zero, suc, ◌+◌, ◌-◌, ◌*◌, ◌/◌, ◌%◌, ◌^◌, bit_or, List, [], ◌∷◌, Bool, ◌&&◌, ◌==◌, leb,
  if◌then◌else◌, Option, none, some, length, drop, replicate, Result, ok, fault, bad_read, ◌>>=◌,
  store,
}

-- The digit that a character stands for.
unfoldable pub digit_of : ℕ → Option ℕ
digit_of c =
    if leb b'0' c && leb c b'9'
    then some (c - b'0')
    else if leb b'a' c && leb c b'f'
    then some (c - b'a' + 10)
    else if leb b'A' c && leb c b'F'
    then some (c - b'A' + 10)
    else none

-- The loop over `n` characters from `*p` on; `none` is an early return of 0. `v` is 64 bits wide.
unfoldable pub hex_loop : ℕ → List ℕ → ℕ → Result (Option ℕ)
hex_loop zero p v = ok (some v)
hex_loop (suc n) [] v = fault bad_read
hex_loop (suc n) (c ∷ p) v = if c == 0 then ok none else elim (digit_of c) [
  | none ↦ ok none
  | some digit ↦ hex_loop n p (bit_or (v * 2 ^ 4 % 2 ^ 64) digit)
]

-- The result, and `*vp` after it, which is 32 bits wide.
unfoldable pub gethex : ℕ → List ℕ → ℕ → Result (ℕ × ℕ)
gethex vp p n = hex_loop n p 0 >>= λ r. elim r [ none ↦ ok (0, vp) | some v ↦ ok (1, v % 2 ^ 32) ]

-- The loop over the text `s` of `cmd_eeprom_write`: `left` more bytes to `buf[i]`; a group that is
-- no number leaves `v` as it was.
unfoldable pub parse_bytes : ℕ → ℕ → ℕ → List ℕ → List ℕ → Result (List ℕ)
parse_bytes zero i v s buf = ok buf
parse_bytes (suc left) i v s buf = gethex v s 2 >>= λ (r, v').
    store buf i (v' % 256) >>= λ buf'. parse_bytes left (i + 1) v' (drop 3 s) buf'
