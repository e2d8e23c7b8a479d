-- ===== src/Drivers/Eeprom/Hex/Command.antt =====
-- `cmd_eeprom_write` of ls2kdev_record/drivers/eeprom.c.
use losangeles_lakers.Base.{
  ℕ, ◌+◌, ◌/◌, ◌%◌, List, [], ◌∷◌, ◌++◌, ◌==◌, if◌then◌else◌, Option, none, some, length, take,
}
use losangeles_lakers.Base.Io.{◌>>=◌, pure, lift}
use losangeles_lakers.Drivers.Port.{Io}
use losangeles_lakers.Drivers.Eeprom.{ls2k_eeprom_write_page}
use losangeles_lakers.Drivers.Eeprom.Hex.{parse_bytes}

-- What the command prints: how it is used, that there was an error, or what was written where.
pub data Printed : Type 0 where
  usage error : Printed
  bytes_at : ℕ → List ℕ → Printed

-- `text` is `av[2]`, without its zero byte; `v` and `buf` are what the variables hold before.
unfoldable pub cmd_eeprom_write : ℕ → Option (List ℕ) → ℕ → List ℕ → Io Printed
cmd_eeprom_write data_addr none v buf = pure usage
cmd_eeprom_write data_addr (some text) v buf = do
  let count = length text / 3 + 1
  buf' ← lift (parse_bytes count 0 v (text ++ (0 ∷ [])) buf)
  written ← ls2k_eeprom_write_page (data_addr % 256) buf' count
  if written == count then pure (bytes_at (data_addr % 256) (take count buf')) else pure error
