-- ===== src/Drivers/Eeprom.antt =====
-- ls2kdev_record/drivers/eeprom.c: the EEPROM behind the I2C controller.
pub mod Exchange
pub mod Pages
pub mod Hex
mod Tests
use losangeles_lakers.Base.{
  ℕ, zero, suc, ◌+◌, ◌-◌, ◌*◌, ◌/◌, ◌%◌, ◌^◌, bit_or, List, [], ◌∷◌, Bool, true, false, ◌&&◌, ◌==◌,
  leb, not, if◌then◌else◌, Option, none, some, length, drop, replicate, Result, ok, fault, bad_read,
  load, store,
}
use losangeles_lakers.Base.Int.{ℤ, pos, negsuc, is_negative}
use losangeles_lakers.Base.Io.{◌>>=◌, ◌>>◌, pure, emit, lift, reply}
use losangeles_lakers.Drivers.Port.{
  Write, prer_lo, prer_hi, ctr, txr, cr, cr_start, cr_read, cr_write, cr_ack, acked, Io, wait_tip,
  ls2k_i2c_stop,
}

abbrev pub cat24c16_addr : ℕ
cat24c16_addr = 0xa0

unfoldable pub i2c_init : Io (Unit {0})
i2c_init = emit (ctr 0) >> emit (prer_lo 0x71) >> emit (prer_hi 0x2) >> emit (ctr 0x80)

-- 0, or -1 where the byte is not acknowledged.
unfoldable pub i2c_tx_byte : ℕ → ℕ → Io ℤ
i2c_tx_byte byte opt = do
  emit (txr byte)
  emit (cr opt)
  wait_tip
  s ← reply
  if acked s then pure (pos 0) else ls2k_i2c_stop >> pure (negsuc 0)

unfoldable pub i2c_send_addr : ℕ → Io ℕ
i2c_send_addr data_addr = do
  r ← i2c_tx_byte cat24c16_addr (bit_or cr_start cr_write)
  if is_negative r
      then pure 0
      else (i2c_tx_byte (data_addr % 256) cr_write >>= λ r'.
          if is_negative r' then pure 0 else pure 1)

-- The loop of the page write over `count` more bytes from `buf[i]` on; `none` is the early return.
unfoldable pub write_bytes : ℕ → List ℕ → Io (Option (Unit {0}))
write_bytes zero buf = pure (some tt)
write_bytes (suc count) [] = lift (fault bad_read)
write_bytes (suc count) (b ∷ buf) = do
  r ← i2c_tx_byte (b % 256) cr_write
  if is_negative r then pure none else write_bytes count buf

unfoldable pub ls2k_eeprom_write_page : ℕ → List ℕ → ℕ → Io ℕ
ls2k_eeprom_write_page data_addr buf count = do
  sent ← i2c_send_addr data_addr
  if sent == 0
      then pure 0
      else (write_bytes count buf >>= λ r. elim r [
        | none ↦ pure 0
        | some _ ↦ ls2k_i2c_stop >> pure count
      ])

unfoldable pub ls2k_eeprom_write_byte : ℕ → ℕ → Io ℕ
ls2k_eeprom_write_byte data_addr byte = do
  sent ← i2c_send_addr data_addr
  if sent == 0
      then pure 0
      else (i2c_tx_byte (byte % 256) cr_write >>= λ r.
          if is_negative r then pure 0 else ls2k_i2c_stop >> pure 1)

-- The result, and `*buf` after it.
unfoldable pub ls2k_eeprom_read_cur : ℕ → Io (ℕ × ℕ)
ls2k_eeprom_read_cur old = do
  r ← i2c_tx_byte (bit_or cat24c16_addr 1) (bit_or cr_start cr_write)
  if is_negative r
      then pure (0, old)
      else (do emit (cr cr_read); wait_tip; b ← reply; ls2k_i2c_stop; pure (1, b))

-- Behind the test of `read_cur` stands a semicolon: the return is always taken.
unfoldable pub ls2k_eeprom_read_rand : ℕ → ℕ → Io (ℕ × ℕ)
ls2k_eeprom_read_rand data_addr old = do
  sent ← i2c_send_addr data_addr
  if sent == 0 then pure (0, old) else (ls2k_eeprom_read_cur old >>= λ (r, b). pure (0, b))

-- The loop of the sequential read: `left` more bytes from `buf[i]` on.
unfoldable pub read_bytes : ℕ → ℕ → List ℕ → Io (List ℕ)
read_bytes zero i buf = pure buf
read_bytes (suc left) i buf = do
  emit (cr (if left == 0 then bit_or cr_read cr_ack else cr_read))
  wait_tip
  b ← reply
  buf' ← lift (store buf i b)
  read_bytes left (i + 1) buf'

unfoldable pub i2c_read_seq_cur : List ℕ → ℕ → Io (ℕ × List ℕ)
i2c_read_seq_cur buf count = do
  r ← i2c_tx_byte (bit_or cat24c16_addr 1) (bit_or cr_start cr_write)
  if is_negative r
      then pure (0, buf)
      else (read_bytes count 0 buf >>= λ buf'. ls2k_i2c_stop >> pure (count, buf'))

unfoldable pub ls2k_eeprom_read_seq : ℕ → List ℕ → ℕ → Io (ℕ × List ℕ)
ls2k_eeprom_read_seq data_addr buf count = do
  sent ← i2c_send_addr data_addr
  if sent == 0 then pure (0, buf) else i2c_read_seq_cur buf count
