-- ===== src/Morse/Sound.antt =====
-- ls2kdev_play/applications/sound.c: the buzzer, as calls of the timer's interface.
use losangeles_lakers.Base.{ℕ, ◌+◌, ◌-◌, ◌*◌, ◌/◌, ◌%◌, ◌^◌, List, [], ◌∷◌, ◌==◌, if◌then◌else◌}

-- The calls that the player makes: `rt_pwm_set`, `rt_pwm_enable`, `rt_pwm_disable`, all on
-- `SOUND_PWM_CH_1`, and `rt_thread_mdelay`.
pub data Event : Type 0 where
  pwm_set : (period pulse : ℕ) → Event
  pwm_enable : Event
  pwm_disable : Event
  mdelay : ℕ → Event

-- `SOUND_PWM_CH_1`.
abbrev pub sound_channel : ℕ
sound_channel = 1

abbrev pub sound_on : List Event
sound_on = pwm_enable ∷ []

abbrev pub sound_off : List Event
sound_off = pwm_disable ∷ []

-- `period - period / 100 * volume` on `rt_uint32_t`.
unfoldable pub pulse_of : ℕ → ℕ → ℕ
pulse_of period volume = (2 ^ 32 + period - period / 100 * volume % 2 ^ 32) % 2 ^ 32

-- The arguments are cut to `rt_uint16_t` and `rt_uint8_t`.
unfoldable pub sound_set : ℕ → ℕ → List Event
sound_set freq volume =
    let f = freq % 2 ^ 16 in
    let v = volume % 2 ^ 8 in
    if f == 0
    then pwm_set 1000000 0 ∷ []
    else pwm_set (1000000000 / f) (pulse_of (1000000000 / f) v) ∷ []
