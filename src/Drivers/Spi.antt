-- ===== src/Drivers/Spi.antt =====
-- ls2kdev_record/drivers/drv_spi.c: the chip selects of the SPI controller, and the transfer of
-- bytes.
pub mod Select
pub mod Transfer
mod Tests
use losangeles_lakers.Base.{
  ℕ, zero, suc, ◌+◌, ◌*◌, ◌/◌, ◌%◌, ◌^◌, bit_and, bit_or, Bool, true, false, ◌==◌, ltb,
  if◌then◌else◌, not, Option, none, some, List, [], ◌∷◌, ◌++◌, Result, ok, fault, stuck, bad_read,
  store,
}
use losangeles_lakers.Base.Bits.{complement}
use losangeles_lakers.Base.Io.{Action, ◌>>=◌, ◌>>◌, pure, emit, lift, reply}
use losangeles_lakers.Drivers.Gpio.{PinMode, output}

-- What is done to the outside, in order: a byte written to a register of the controller, a call of
-- the pin functions, of which a read carries the level that it gave, and a delay.
pub data SpiEvent : Type 0 where
  spcr spsr txfifo sper param softcs param2 : ℕ → SpiEvent
  rt_pin_mode : ℕ → PinMode → SpiEvent
  rt_pin_write : ℕ → ℕ → SpiEvent
  rt_pin_read : ℕ → ℕ → SpiEvent
  rt_thread_mdelay : ℕ → SpiEvent

-- The register of the chip selects holds what was written to it last; `replies` are the values that
-- the reads of the other registers and of the pins are to give, in order.
pub record Bus : Type 0 where
  pub soft_cs : ℕ
  pub replies : List ℕ

abbrev pub Io : Type 0 → Type 0
Io A = Action Bus SpiEvent A

abbrev pub with_replies :
    {A : Type 0} → Bus → Result (A × List SpiEvent × List ℕ) → Result (A × List SpiEvent × Bus)
with_replies w (ok (a, es, rs)) = ok (a, es, record w { replies = rs })
with_replies w (fault e) = fault e
with_replies w stuck = stuck

-- An action that only reads.
abbrev pub on_replies : {A : Type 0} → Action (List ℕ) SpiEvent A → Io A
on_replies m w = with_replies w (m w.replies)

-- `GET_SPI(SOFTCS)` and `SET_SPI(SOFTCS, val)`.
abbrev pub get_softcs : Io ℕ
get_softcs w = ok (w.soft_cs, [], w)

abbrev pub set_softcs : ℕ → Io (Unit {0})
set_softcs val w = ok (tt, softcs val ∷ [], record w { soft_cs = val })

unfoldable pub spi_init : ℕ → ℕ → ℕ → Io (Unit {0})
spi_init spre_spr copl cpha = do
  emit (spsr (bit_or 0xc0 (bit_and spre_spr 3)))
  emit (param 0x40)
  emit (param2 0x01)
  emit (sper (bit_and spre_spr 12 / 2 ^ 2))
  emit (spcr (bit_or (bit_or 0x50 (copl * 2 ^ 3)) (cpha * 2 ^ 2) % 2 ^ 8))
  set_softcs 0xff

unfoldable pub spi_set_csn : ℕ → Io (Unit {0})
spi_set_csn val = set_softcs val

-- The value that turns the select `cs` on, at the level `new_status`.
unfoldable pub cs_value : ℕ → ℕ → ℕ → ℕ
cs_value val cs new_status =
    let on = bit_or val (2 ^ cs) % 2 ^ 8 in
    if new_status == 0
    then bit_and on (complement 8 (2 ^ (4 + cs)))
    else bit_or on (2 ^ (4 + cs)) % 2 ^ 8

unfoldable pub spi_set_cs : ℕ → ℕ → Io (Unit {0})
spi_set_cs cs new_status =
    if ltb cs 4
    then (get_softcs >>= λ val. set_softcs (cs_value val cs new_status))
    else (emit (rt_pin_mode cs output) >> emit (rt_pin_write cs new_status))

-- `while (GET_SPI(SPSR) & RFEMPTY);`
unfoldable pub wait_echo : Action (List ℕ) SpiEvent (Unit {0})
wait_echo [] = stuck
wait_echo (s ∷ rs) = if bit_and s 1 == 0 then ok (tt, [], rs) else wait_echo rs

-- `val = GET_SPI(RXFIFO)`
abbrev pub get_rxfifo : Action (List ℕ) SpiEvent ℕ
get_rxfifo = reply >>= λ r. pure (r % 2 ^ 8)

unfoldable pub spi_write_for_response : ℕ → Io ℕ
spi_write_for_response data' = emit (txfifo data') >> on_replies (wait_echo >> get_rxfifo)

-- `configuration->mode`, whose digits for the polarity and the phase are tested.
unfoldable pub configure : ℕ → ℕ → ℕ → Io (Unit {0})
configure rt_spi_cpol rt_spi_cpha mode =
    let cpol = if bit_and mode rt_spi_cpol == 0 then 0 else 1 in
    let cpha = if bit_and mode rt_spi_cpha == 0 then 0 else 1 in spi_init 0b1011 cpol cpha

pub record RtSpiMessage : Type 0 where
  pub length : ℕ
  pub send_buf : Option (List ℕ)
  pub recv_buf : Option (List ℕ)
  pub cs_take : Bool
  pub cs_release : Bool

-- `*send_ptr++`: the byte and the pointer behind it.
abbrev pub next_byte : Option (List ℕ) → Result (ℕ × Option (List ℕ))
next_byte none = ok (0xff, none)
next_byte (some []) = fault bad_read
next_byte (some (b ∷ bs)) = ok (b, some bs)

-- `*recv_ptr++ = r`
unfoldable pub put_byte : Option (List ℕ) → ℕ → ℕ → Result (Option (List ℕ))
put_byte none i r = ok none
put_byte (some buf) i r = elim (store buf i r) [
  | ok buf' ↦ ok (some buf')
  | fault e ↦ fault e
  | stuck ↦ stuck
]

-- The loop over `size` more bytes; `i` of them have been received.
unfoldable pub xfer_loop : ℕ → ℕ → Option (List ℕ) → Option (List ℕ) → Io (Option (List ℕ))
xfer_loop zero i send_ptr recv_buf = pure recv_buf
xfer_loop (suc size) i send_ptr recv_buf = do
  (data', send_ptr') ← lift (next_byte send_ptr)
  r ← spi_write_for_response data'
  recv_buf' ← lift (put_byte recv_buf i r)
  xfer_loop size (i + 1) send_ptr' recv_buf'

-- The result, and `recv_buf` after it; `cs` is the select of the device.
unfoldable pub xfer : ℕ → RtSpiMessage → Io (ℕ × Option (List ℕ))
xfer cs message = do
  if message.cs_take then spi_set_cs cs 0 else pure tt
  recv_buf ← xfer_loop message.length 0 message.send_buf message.recv_buf
  if message.cs_release then spi_set_cs cs 1 else pure tt
  pure (message.length, recv_buf)
