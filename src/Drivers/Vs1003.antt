-- ===== src/Drivers/Vs1003.antt =====
-- ls2kdev_record/applications/vs1003/vs1003.c: the codec behind the SPI controller.
pub mod Sci
pub mod Line
pub mod Steps
pub mod Calls
pub mod Protocol
pub mod Sessions
pub mod Bytes
pub mod Sent
pub mod Told
pub mod Ends
pub mod Ready
pub mod Record
mod Tests
use losangeles_lakers.Base.{
  ℕ, zero, suc, ◌+◌, ◌-◌, ◌*◌, ◌/◌, ◌%◌, ◌^◌, bit_and, bit_or, min, ◌==◌, if◌then◌else◌, List, [],
  ◌∷◌, ok, fault, stuck, bad_read,
}
use losangeles_lakers.Base.Io.{Action, behind, ◌>>=◌, ◌>>◌, pure, emit, lift}
use losangeles_lakers.Drivers.Gpio.{output, input}
use losangeles_lakers.Drivers.Spi.{
  SpiEvent, rt_pin_mode, rt_pin_write, rt_pin_read, rt_thread_mdelay, Io, on_replies, spi_init,
  spi_set_csn, spi_set_cs, spi_write_for_response,
}

abbrev pub x_dreq : ℕ
x_dreq = 38

abbrev pub x_reset : ℕ
x_reset = 37

abbrev pub x_dcs : ℕ
x_dcs = 1

abbrev pub x_cs : ℕ
x_cs = 2

abbrev pub vs1003_chunk_size : ℕ
vs1003_chunk_size = 32

abbrev pub vs_write_command : ℕ
vs_write_command = 0x02

abbrev pub vs_read_command : ℕ
vs_read_command = 0x03

unfoldable pub control_mode_on : Io (Unit {0})
control_mode_on = spi_set_cs x_cs 0 >> spi_set_cs x_dcs 1

unfoldable pub control_mode_off : Io (Unit {0})
control_mode_off = spi_set_csn 0xff

unfoldable pub data_mode_on : Io (Unit {0})
data_mode_on = spi_set_cs x_cs 1 >> spi_set_cs x_dcs 0

unfoldable pub data_mode_off : Io (Unit {0})
data_mode_off = spi_set_csn 0xff

-- `while (!gpio_read(xDreq));`, where each read is recorded with the level that it gave.
unfoldable pub await_loop : Action (List ℕ) SpiEvent (Unit {0})
await_loop [] = stuck
await_loop (v ∷ rs) =
    behind (rt_pin_read x_dreq v ∷ []) (if v == 0 then await_loop rs else ok (tt, [], rs))

unfoldable pub await_data_request : Io (Unit {0})
await_data_request = on_replies await_loop

unfoldable pub vs1003_reset : Io (Unit {0})
vs1003_reset =
    emit (rt_pin_write x_reset 0) >> emit (rt_thread_mdelay 1) >> emit (rt_pin_write x_reset 1)

unfoldable pub read_register : ℕ → Io ℕ
read_register reg = do
  await_data_request
  control_mode_on
  spi_write_for_response vs_read_command
  spi_write_for_response reg
  response1 ← spi_write_for_response 0xff
  response2 ← spi_write_for_response 0xff
  control_mode_off
  pure (bit_or (response1 * 2 ^ 8) (bit_and response2 0xff))

-- `delay_us` counts down and does nothing else.
unfoldable pub write_register : ℕ → ℕ → Io (Unit {0})
write_register reg value = do
  control_mode_on
  spi_write_for_response vs_write_command
  spi_write_for_response reg
  spi_write_for_response (value / 2 ^ 8)
  spi_write_for_response (bit_and value 0xff)
  await_data_request
  control_mode_off

unfoldable pub vs1003_set_volume : ℕ → Io (Unit {0})
vs1003_set_volume vol = write_register Sci.vol (bit_or (vol * 2 ^ 8 % 2 ^ 16) vol)

-- `while (chunk_length--)`; the value is the pointer behind the last byte.
unfoldable pub send_chunk : ℕ → List ℕ → Io (List ℕ)
send_chunk zero data' = pure data'
send_chunk (suc chunk_length) [] = lift (fault bad_read)
send_chunk (suc chunk_length) (b ∷ data') =
    spi_write_for_response b >> send_chunk chunk_length data'

-- `while (len)`, with a bound on the rounds.
unfoldable pub send_loop : ℕ → List ℕ → ℕ → Io (Unit {0})
send_loop rounds data' zero = pure tt
send_loop zero data' (suc l) = lift stuck
send_loop (suc rounds) data' (suc l) = do
  await_data_request
  data'' ← send_chunk (min (suc l) vs1003_chunk_size) data'
  send_loop rounds data'' (suc l - min (suc l) vs1003_chunk_size)

-- A chunk has one byte at least, so that `len` rounds are enough.
unfoldable pub sdi_send_buffer : List ℕ → ℕ → Io (Unit {0})
sdi_send_buffer data' len = do data_mode_on; send_loop len data' len; data_mode_off

unfoldable pub vs1003_play_chunk : List ℕ → ℕ → Io (Unit {0})
vs1003_play_chunk data' len = sdi_send_buffer data' len

-- `_BV(SM_SDINEW) | _BV(SM_RESET)` is `1<<11 | 1<<2`.
unfoldable pub vs1003_play_mode_init : Io (Unit {0})
vs1003_play_mode_init = do
  emit (rt_pin_mode x_reset output)
  emit (rt_pin_write x_reset 0)
  spi_set_cs x_cs 1
  spi_set_cs x_dcs 1
  emit (rt_pin_mode x_dreq input)
  emit (rt_thread_mdelay 1)
  spi_init 0b1011 0 0
  emit (rt_pin_write x_reset 1)
  write_register Sci.vol 0xffff
  write_register Sci.audata 10
  emit (rt_thread_mdelay 100)
  write_register Sci.vol 0xfefe
  write_register Sci.audata 44101
  write_register Sci.vol 0x2020
  write_register Sci.mode (bit_or (2 ^ 11) (2 ^ 2))
  emit (rt_thread_mdelay 1)
  await_data_request
  write_register Sci.clockf 0xb800
  emit (rt_thread_mdelay 1)
  await_data_request
  spi_init 0b1000 0 0

unfoldable pub vs1003_record_mode_init : Io (Unit {0})
vs1003_record_mode_init = do
  emit (rt_pin_mode x_reset output)
  emit (rt_pin_mode x_dreq input)
  emit (rt_pin_write x_reset 0)
  spi_init 0b1000 0 0
  spi_set_csn 0xff
  emit (rt_pin_write x_reset 1)
  write_register Sci.bass 0
  write_register Sci.clockf 0x4430
  emit (rt_thread_mdelay 10)
  write_register Sci.aictrl0 12
  emit (rt_thread_mdelay 10)
  write_register Sci.aictrl1 1024
  emit (rt_thread_mdelay 10)
  write_register Sci.mode 0x3804
  emit (rt_thread_mdelay 10)
  write_register Sci.vol 0xfefe
