-- ===== src/Drivers/Pwm.antt =====
-- ls2kdev_record/drivers/drv_pwm.c and ls2kdev_play/drivers/drv_pwm.c, which are the same: the
-- registers of the four timers and the control operation.
pub mod Line
use losangeles_lakers.Base.{
  ℕ, ◌+◌, ◌%◌, ◌*◌, ◌^◌, bit_and, bit_or, List, Result, ok, ◌>>=◌, load, store,
}
use losangeles_lakers.Base.Bits.{complement}

-- `struct loongson_pwm` without its padding.
pub record LoongsonPwm : Type 0 where
  pub low_buffer : ℕ
  pub full_buffer : ℕ
  pub ctrl : ℕ

-- The configuration word of the chip, and `priv`.
pub record Pwm : Type 0 where
  pub config0 : ℕ
  pub priv : List LoongsonPwm

abbrev pub ctrl_en : ℕ
ctrl_en = 1

-- `rt_err_t`.
pub data Code : Type 0 where
  eok enosys einval : Code

-- `cmd`.
pub data Cmd : Type 0 where
  enable disable set get other_cmd : Cmd

-- `struct rt_pwm_configuration`.
pub record Configuration : Type 0 where
  pub channel : ℕ
  pub period : ℕ
  pub pulse : ℕ

unfoldable pub loongson_pwm_enable : ℕ → Pwm → Result Pwm
loongson_pwm_enable channel d =
    let c = channel % 4 in
    load d.priv c >>= λ chip. store d.priv c (record chip { ctrl = ctrl_en }) >>= λ chips.
    ok (record d { config0 = bit_or d.config0 (2 ^ (12 + c)); priv = chips })

-- `chip->ctrl &= ~CTRL_EN`.
abbrev pub without_en : ℕ → ℕ
without_en ctrl = bit_and ctrl (complement 32 ctrl_en)

unfoldable pub loongson_pwm_disable : ℕ → Pwm → Result Pwm
loongson_pwm_disable channel d =
    let c = channel % 4 in
    load d.priv c >>= λ chip.
    store d.priv c (record chip { ctrl = without_en chip.ctrl }) >>= λ chips.
    ok (record d { priv = chips })

unfoldable pub loongson_pwm_set : ℕ → ℕ → ℕ → Pwm → Result Pwm
loongson_pwm_set channel period pulse d =
    let c = channel % 4 in
    load d.priv c >>= λ chip.
    store d.priv c (record chip {
      full_buffer = period;
      low_buffer = pulse;
      ctrl = bit_or (without_en chip.ctrl) ctrl_en;
    })
    >>= λ chips. ok (record d { priv = chips })

unfoldable pub loongson_pwm_ioctl : Cmd → Configuration → Pwm → Result (Code × Pwm)
loongson_pwm_ioctl enable cfg d = loongson_pwm_enable cfg.channel d >>= λ d'. ok (eok, d')
loongson_pwm_ioctl disable cfg d = loongson_pwm_disable cfg.channel d >>= λ d'. ok (eok, d')
loongson_pwm_ioctl set cfg d =
    loongson_pwm_set cfg.channel cfg.period cfg.pulse d >>= λ d'. ok (eok, d')
loongson_pwm_ioctl get cfg d = ok (enosys, d)
loongson_pwm_ioctl other_cmd cfg d = ok (einval, d)
