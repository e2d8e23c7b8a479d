-- ===== src/Drivers/Port.antt =====
-- The registers of the I2C controller, as ls2kdev_record/drivers/drv_i2c.c and eeprom.c use them:
-- what is written is recorded, and the values of the registers that are read are given in order.
pub mod Turns
pub mod Replies
use losangeles_lakers.Base.{ℕ, List, [], ◌∷◌, Bool, bit_and, ◌==◌, if◌then◌else◌, ok, stuck}
use losangeles_lakers.Base.Io.{Action, behind}

-- A byte written to a register: `txr` is the data register, `cr` the command register.
pub data Write : Type 0 where
  prer_lo prer_hi ctr txr cr : ℕ → Write

abbrev pub cr_start : ℕ
cr_start = 0x80

abbrev pub cr_stop : ℕ
cr_stop = 0x40

abbrev pub cr_read : ℕ
cr_read = 0x20

abbrev pub cr_write : ℕ
cr_write = 0x10

abbrev pub cr_ack : ℕ
cr_ack = 0x8

-- `status & SR_TIP`, `status & SR_BUSY`, `status & SR_NOACK`.
unfoldable pub no_tip : ℕ → Bool
no_tip s = bit_and s 0x2 == 0

unfoldable pub not_busy : ℕ → Bool
not_busy s = bit_and s 0x40 == 0

unfoldable pub acked : ℕ → Bool
acked s = bit_and s 0x80 == 0

-- What the two drivers do to the controller: the world is the replies that are to come.
abbrev pub Io : Type 0 → Type 0
Io A = Action (List ℕ) Write A

-- `while (inb(SR_REG) & SR_TIP);`
unfoldable pub wait_tip : Io (Unit {0})
wait_tip [] = stuck
wait_tip (s ∷ rs) = if no_tip s then ok (tt, [], rs) else wait_tip rs

-- `again: outb(CR_REG, CR_STOP); inb(SR_REG); while (inb(SR_REG) & SR_BUSY) goto again;`
unfoldable pub ls2k_i2c_stop : Io (Unit {0})
ls2k_i2c_stop [] = stuck
ls2k_i2c_stop (r ∷ []) = stuck
ls2k_i2c_stop (r ∷ s ∷ rs) =
    if not_busy s then ok (tt, cr cr_stop ∷ [], rs) else behind (cr cr_stop ∷ []) (ls2k_i2c_stop rs)
