-- ===== src/Drivers/I2c.antt =====
-- ls2kdev_record/drivers/drv_i2c.c: messages on the I2C bus.
pub mod Lost
pub mod Answered
mod Tests
use losangeles_lakers.Base.{
  ℕ, zero, suc, ◌+◌, ◌/◌, ◌%◌, ◌^◌, bit_and, bit_or, List, [], ◌∷◌, Bool, true, false, ◌==◌, ◌&&◌,
  not, if◌then◌else◌, length, Result, ok, fault, bad_read, store,
}
use losangeles_lakers.Base.Io.{◌>>=◌, ◌>>◌, pure, emit, lift, reply}
use losangeles_lakers.Drivers.Port.{
  Write, prer_lo, prer_hi, ctr, txr, cr, cr_start, cr_read, cr_write, cr_ack, acked, Io, wait_tip,
  ls2k_i2c_stop,
}
use losangeles_lakers.Drivers.Eeprom.{read_bytes}

-- `m->flags & I2C_M_RD` and `m->flags & I2C_M_NOSTART`.
abbrev pub i2c_m_rd : ℕ
i2c_m_rd = 0x0001

abbrev pub i2c_m_nostart : ℕ
i2c_m_nostart = 0x4000

pub record I2cMsg : Type 0 where
  pub addr : ℕ
  pub flags : ℕ
  pub len : ℕ
  pub buf : List ℕ

-- The chip addressed once; `lost` is what follows where it does not acknowledge.
unfoldable pub attempt : ℕ → Io ℕ → Io ℕ
attempt addr lost = do
  emit (txr addr)
  emit (cr (bit_or cr_start cr_write))
  wait_tip
  s ← reply
  if acked s then pure 1 else (ls2k_i2c_stop >> lost)

-- `retry` attempts are left behind the first one.
unfoldable pub start_loop : ℕ → ℕ → Io ℕ
start_loop zero addr = attempt addr (pure 0)
start_loop (suc retry) addr = attempt addr (start_loop retry addr)

-- The flags are not looked at.
unfoldable pub ls2k_i2c_start : ℕ → ℕ → Io ℕ
ls2k_i2c_start dev_addr flags = start_loop 5 (dev_addr % 2 ^ 8)

-- `buf` after it; its result is not used. The loop is the one of eeprom.c.
unfoldable pub ls2k_i2c_read : List ℕ → ℕ → Io (List ℕ)
ls2k_i2c_read buf count = read_bytes count 0 buf

-- `count` more bytes from `buf[i]` on; the results, 0 or the number of bytes, are not used.
unfoldable pub ls2k_i2c_write : List ℕ → ℕ → Io (Unit {0})
ls2k_i2c_write buf zero = pure tt
ls2k_i2c_write [] (suc count) = lift (fault bad_read)
ls2k_i2c_write (b ∷ buf) (suc count) = do
  emit (txr b)
  emit (cr cr_write)
  wait_tip
  s ← reply
  if acked s then ls2k_i2c_write buf count else ls2k_i2c_stop

-- Whether all messages were sent, and the messages after it.
unfoldable pub transfer_loop : List I2cMsg → Io (Bool × List I2cMsg)
transfer_loop [] = pure (true, [])
transfer_loop (m ∷ ms) = do
  started ← if bit_and m.flags i2c_m_nostart == 0 then ls2k_i2c_start m.addr m.flags else pure 1
  if started == 0 then pure (false, m ∷ ms) else (do
    buf ←
        if bit_and m.flags i2c_m_rd == 0
        then (ls2k_i2c_write m.buf m.len >> pure m.buf)
        else ls2k_i2c_read m.buf m.len
    (all, ms') ← transfer_loop ms
    pure (all, record m { buf = buf } ∷ ms'))

unfoldable pub i2c_transfer : List I2cMsg → Io (ℕ × List I2cMsg)
i2c_transfer msgs = do
  (all, msgs') ← transfer_loop msgs
  if all then (ls2k_i2c_stop >> pure (length msgs, msgs')) else pure (0, msgs')

unfoldable pub ls2k_i2c_init : Io (Unit {0})
ls2k_i2c_init = emit (ctr 0) >> emit (prer_lo 0x71) >> emit (prer_hi 0x2) >> emit (ctr 0x80)

-- `(u8 *)&addr`, the lowest byte first.
abbrev pub addr_bytes : ℕ → List ℕ
addr_bytes addr = addr % 256 ∷ addr / 2 ^ 8 % 256 ∷ addr / 2 ^ 16 % 256 ∷ addr / 2 ^ 24 % 256 ∷ []

-- The lengths are converted to `u16`.
abbrev pub read_messages : ℕ → ℕ → ℕ → List ℕ → ℕ → List I2cMsg
read_messages chip addr alen buffer len =
    record { addr = chip; flags = 0; len = alen % 2 ^ 16; buf = addr_bytes addr }
    ∷ record { addr = chip; flags = i2c_m_rd; len = len % 2 ^ 16; buf = buffer }
    ∷ []

-- The result, and the messages after it, of which the second holds `buffer`.
unfoldable pub i2c_read : ℕ → ℕ → ℕ → List ℕ → ℕ → Io (ℕ × List I2cMsg)
i2c_read chip addr alen buffer len = do
  (n, msgs) ← i2c_transfer (read_messages chip addr alen buffer len)
  pure (0, msgs)

abbrev pub write_messages : ℕ → ℕ → ℕ → List ℕ → ℕ → List I2cMsg
write_messages chip addr alen buffer len =
    record { addr = chip; flags = 0; len = alen % 2 ^ 16; buf = addr_bytes addr }
    ∷ record { addr = chip; flags = i2c_m_nostart; len = len % 2 ^ 16; buf = buffer }
    ∷ []

unfoldable pub i2c_write : ℕ → ℕ → ℕ → List ℕ → ℕ → Io (ℕ × List I2cMsg)
i2c_write chip addr alen buffer len = do
  (n, msgs) ← i2c_transfer (write_messages chip addr alen buffer len)
  pure (0, msgs)
