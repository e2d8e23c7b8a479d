-- ===== src/Drivers/Vs1003/Record.antt =====
-- The command `vs1003_record` of ls2kdev_record/applications/vs1003/vs1003_example.c.
pub mod Taken
use losangeles_lakers.Base.{
  ℕ, zero, suc, ◌-◌, ◌/◌, ◌%◌, ◌^◌, leb, if◌then◌else◌, List, [], ◌∷◌, ◌++◌, length, ◌+◌, ◌*◌,
  stuck,
}
use losangeles_lakers.Base.Int.{ℤ, pos, negsuc, dec_ℕ, to_u32}
use losangeles_lakers.Base.Io.{◌>>=◌, ◌>>◌, pure, lift}
use losangeles_lakers.Drivers.Spi.{Io}
use losangeles_lakers.Drivers.Vs1003.{read_register, vs1003_record_mode_init, vs1003_reset}
use losangeles_lakers.Drivers.Vs1003.Sci

abbrev pub vs1003_adpcm_batch_size : ℕ
vs1003_adpcm_batch_size = 256

-- `db` from the cell of the word on, with `n` words to come.
unfoldable pub read_words : ℕ → Io (List ℕ)
read_words zero = pure []
read_words (suc n) = do
  w ← read_register Sci.hdat0
  db ← read_words n
  pure (w / 2 ^ 8 ∷ w % 2 ^ 8 ∷ db)

-- The inner loop, with a bound on its rounds: the batches that are handed on.
unfoldable pub drain : ℕ → ℕ → Io (List (List ℕ))
drain zero t = if leb vs1003_adpcm_batch_size t then lift stuck else pure []
drain (suc rounds) t =
    if leb vs1003_adpcm_batch_size t
    then (if leb 896 t then pure [] else (do
      db ← read_words vs1003_adpcm_batch_size
      dbs ← drain rounds (t - vs1003_adpcm_batch_size)
      pure (db ∷ dbs)))
    else pure []

-- One round of the outer loop. `t` rounds are more than enough for the inner one.
unfoldable pub record_round : Io (List (List ℕ))
record_round = read_register Sci.hdat1 >>= λ t. drain t t

-- `len--`, once for each batch.
abbrev pub minus : ℤ → ℕ → ℤ
minus len zero = len
minus (pos n) (suc k) = minus (dec_ℕ n) k
minus (negsuc n) (suc k) = minus (negsuc (suc n)) k

-- `while (len)`, with a bound on the rounds: the batches that are written to the file.
unfoldable pub record_loop : ℕ → ℤ → Io (List (List ℕ))
record_loop rounds (pos zero) = pure []
record_loop zero len = lift stuck
record_loop (suc rounds) len = do
  dbs ← record_round
  rest ← record_loop rounds (minus len (length dbs))
  pure (dbs ++ rest)

-- `bit_converter`: a word, the lowest byte first.
abbrev pub bit_converter : ℕ → List ℕ
bit_converter d = d % 256 ∷ d / 2 ^ 8 % 256 ∷ d / 2 ^ 16 % 256 ∷ d / 2 ^ 24 % 256 ∷ []

-- What is written of the header, whose other bytes are constant.
unfoldable pub write_header : ℕ → ℕ → List ℕ
write_header n fs =
    0x52 ∷ 0x49 ∷ 0x46 ∷ 0x46 ∷ []
    ++ bit_converter ((n * 256 + 52) % 2 ^ 32)
    ++ (0x57 ∷ 0x41 ∷ 0x56 ∷ 0x45 ∷ 0x66 ∷ 0x6d ∷ 0x74 ∷ 0x20 ∷ 0x14 ∷ 0x00 ∷ 0x00 ∷ 0x00 ∷ 0x11
        ∷ 0x00 ∷ 0x01 ∷ 0x00 ∷ [])
    ++ bit_converter fs
    ++ bit_converter (fs * 256 % 2 ^ 32 / 505)
    ++ (0x00 ∷ 0x01 ∷ 0x04 ∷ 0x00 ∷ 0x02 ∷ 0x00 ∷ 0xf9 ∷ 0x01 ∷ 0x66 ∷ 0x61 ∷ 0x63 ∷ 0x74 ∷ 0x04
        ∷ 0x00 ∷ 0x00 ∷ 0x00 ∷ [])
    ++ bit_converter (n * 505 % 2 ^ 32)
    ++ (0x64 ∷ 0x61 ∷ 0x74 ∷ 0x61 ∷ [])
    ++ bit_converter (n * 256 % 2 ^ 32)

abbrev pub twice : ℤ → ℤ
twice (pos n) = pos (2 * n)
twice (negsuc n) = negsuc (2 * n + 1)

abbrev pub concat : List (List ℕ) → List ℕ
concat [] = []
concat (db ∷ dbs) = db ++ concat dbs

-- The file, with `rounds` as the bound of the loop.
unfoldable pub vs1003_record : ℕ → ℤ → Io (List ℕ)
vs1003_record rounds len = do
  vs1003_record_mode_init
  dbs ← record_loop rounds len
  vs1003_reset
  pure (write_header (to_u32 (twice len)) 8000 ++ concat dbs)
