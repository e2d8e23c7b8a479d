-- ===== src/Drivers/Eeprom/Hex/Written.antt =====
-- The command that writes the bytes of a text to the EEPROM.
use losangeles_lakers.Base.{
  ℕ, zero, suc, ◌+◌, ◌-◌, ◌*◌, ◌/◌, ◌%◌, ◌<◌, ◌≤◌, ◌≡◌, refl, ap, sym, true, List, [], ◌∷◌, ◌++◌,
  append_assoc, append-nil, some, length, take, drop, All, arith, ok, fault, bad_write,
  store-append, length-append, ==_iff, ◌==◌, length-drop, store_outside, store_ok,
}
use native.Mathlib.Decide.{dec_lt}
use losangeles_lakers.Drivers.Port.Turns.{
  Turn, IsAnswer, replies_of, Stop, IsStop, stop_replies, stops,
}
use losangeles_lakers.Drivers.Eeprom.Exchange.{all_replies, AllAnswer, sent_bytes}
use losangeles_lakers.Drivers.Eeprom.Pages.{addressed, ls2k_eeprom_write_page-acked}
use losangeles_lakers.Drivers.Eeprom.Hex.{gethex, parse_bytes}
use losangeles_lakers.Drivers.Eeprom.Hex.Command.{cmd_eeprom_write, bytes_at}
use losangeles_lakers.Drivers.Eeprom.Hex.Numbers.{letter, gethex-byte, gethex-read_number}

-- Bytes as text, two digits each, with a space between them.
abbrev pub page_text : List ℕ → List ℕ
page_text [] = []
page_text (b ∷ []) = letter (b / 16) ∷ letter (b % 16) ∷ []
page_text (b ∷ b' ∷ bs) = letter (b / 16) ∷ letter (b % 16) ∷ b' ' ∷ page_text (b' ∷ bs)

length-page_text : (b : ℕ) (bs : List ℕ) → length (page_text (b ∷ bs)) ≡ 3 * length bs + 2
length-page_text b [] = refl
length-page_text b (b' ∷ bs) = omega (arith, length-page_text b' bs)

parse_bytes-page_text :
    (b : ℕ) (bs w old more : List ℕ) (v : ℕ)
    → All (λ x. x < 256) (b ∷ bs)
    → length old ≡ length (b ∷ bs)
    → parse_bytes
        (length (b ∷ bs))
        (length w)
        v
        (page_text (b ∷ bs) ++ (0 ∷ []))
        (w ++ (old ++ more))
      ≡ ok (w ++ ((b ∷ bs) ++ more))
unfolding parse_bytes
parse_bytes-page_text b bs w [] more v h e = absurd (omega arith)
parse_bytes-page_text b [] w (o ∷ []) more v h e =
    let small : b % 256 ≡ b = omega arith in
    rw (gethex-byte v b (0 ∷ []) h.0, small, store-append w o more b) refl
parse_bytes-page_text b [] w (o ∷ o' ∷ old) more v h e = absurd (omega arith)
parse_bytes-page_text b (b' ∷ bs) w (o ∷ old) more v h e =
    let small : b % 256 ≡ b = omega arith in
    let room : w ++ (b ∷ (old ++ more)) ≡ (w ++ (b ∷ [])) ++ (old ++ more) =
      sym (append_assoc w (b ∷ []) (old ++ more)) in
    let next : length w + 1 ≡ length (w ++ (b ∷ [])) = omega (arith, length-append w (b ∷ [])) in
    rw
      (
        gethex-byte v b (b' ' ∷ (page_text (b' ∷ bs) ++ (0 ∷ []))) h.0,
        small,
        store-append w o (old ++ more) b,
        room,
        next,
        parse_bytes-page_text b' bs (w ++ (b ∷ [])) old more b h.1 (omega arith),
        append_assoc w (b ∷ []) ((b' ∷ bs) ++ more),
      )
      refl

take-length : (xs ys : List ℕ) → take (length xs) (xs ++ ys) ≡ xs
take-length [] ys = refl
take-length (x ∷ xs) ys = ap (λ l. x ∷ l) (take-length xs ys)

-- A text of bytes that fit the array, two digits each with a space between them, and a device that
-- acknowledges every byte: the command prints the address and these bytes, whatever its variables
-- held before, and has written the addresses, each of these bytes in order and the stop.
pub cmd_eeprom_write-bytes :
    (data_addr v b : ℕ) (bs old more : List ℕ) (a d : Turn) (ts : List Turn) (st : Stop)
    (rest : List ℕ)
    → All (λ x. x < 256) (b ∷ bs)
    → length old ≡ length (b ∷ bs)
    → IsAnswer true a
    → IsAnswer true d
    → length ts ≡ length (b ∷ bs)
    → AllAnswer ts
    → IsStop st
    → cmd_eeprom_write data_addr
        (some (page_text (b ∷ bs)))
        v
        (old ++ more)
        (replies_of a ++ (replies_of d ++ (all_replies ts ++ (stop_replies st ++ rest))))
      ≡ ok (
        bytes_at (data_addr % 256) (b ∷ bs),
        addressed (data_addr % 256) ++ (sent_bytes (b ∷ bs) ++ stops st),
        rest,
      )
unfolding cmd_eeprom_write
cmd_eeprom_write-bytes data_addr v b bs old more a d ts st rest h room k l e m n =
    let count : length (page_text (b ∷ bs)) / 3 + 1 ≡ length (b ∷ bs) =
      omega (arith, length-page_text b bs) in
    let all : (length (b ∷ bs) == length (b ∷ bs)) ≡ true =
      (==_iff (length (b ∷ bs)) (length (b ∷ bs))).1 refl in
    rw
      (
        count,
        parse_bytes-page_text b bs [] old more v h room,
        ls2k_eeprom_write_page-acked (data_addr % 256) (b ∷ bs) more a d ts st rest k l e m n,
        all,
        take-length (b ∷ bs) more,
      )
      (simp append-nil)

-- `gethex` of two characters returns wherever there are two.
gethex_ok : (old : ℕ) (p : List ℕ) → 2 ≤ length p → (r : ℕ) × (v : ℕ) × (gethex old p 2 ≡ ok (r, v))
gethex_ok old p h = (_, _, gethex-read_number old 2 p h)

parse_bytes_overflow :
    (left i v : ℕ) (s buf : List ℕ)
    → length buf < i + left
    → i ≤ length buf
    → 3 * (length buf - i) + 2 ≤ length s
    → parse_bytes left i v s buf ≡ fault bad_write
unfolding parse_bytes
parse_bytes_overflow zero i v s buf over inside long = absurd (omega arith)
parse_bytes_overflow (suc left) i v s buf over inside long =
    let (r, v', reads) = gethex_ok v s (omega arith) in
    elim (dec_lt i (length buf)) [
      | yes room ↦
          let (buf', stores, cell, size) = store_ok buf i (v' % 256) room in
          rw
            (
              reads,
              stores,
              parse_bytes_overflow left (i + 1) v' (drop 3 s) buf' (omega arith) (omega arith)
                  (omega (arith, length-drop 3 s)),
            )
            refl
      | no full ↦ rw (reads, store_outside buf i (v' % 256) (omega arith)) refl
    ]

-- A text of 97 characters at least, which is more than the 32 bytes of the command's array: the
-- command writes past the end of the array, whatever the characters are.
pub cmd_eeprom_write_overflow :
    (data_addr v : ℕ) (text buf replies : List ℕ)
    → length buf ≡ 32
    → 97 ≤ length text
    → cmd_eeprom_write data_addr (some text) v buf replies ≡ fault bad_write
unfolding cmd_eeprom_write
cmd_eeprom_write_overflow data_addr v text buf replies size long =
    rw
      (parse_bytes_overflow (length text / 3 + 1) 0 v (text ++ (0 ∷ [])) buf (omega arith)
        (omega arith) (omega (arith, length-append text (0 ∷ []))))
      refl
