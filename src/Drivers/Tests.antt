-- ===== src/Drivers/Tests.antt =====
-- Runs of the drivers, and their theorems at concrete inputs.
use losangeles_lakers.Base.{
  ℕ, zero, suc, ◌+◌, ◌<◌, ◌^◌, ◌%◌, ◌/◌, ◌==◌, if◌then◌else◌, replicate, ==_cases, inl, inr,
}
use losangeles_lakers.Base.{some, stuck}
use native.Mathlib.Nat.{pow-suc}
use losangeles_lakers.Base.Bits.{bit}
use losangeles_lakers.Drivers.Interrupt.{
  Liointc, Interrupts, liointc_set_irq_mode, falling, rt_do_mips_cpu_irq, rt_hw_interrupt_install,
}
use losangeles_lakers.Drivers.Interrupt.Modes.{
  lio_of, other_lio, TurnedOn, liointc_set_irq_mode-TurnedOn,
}
use losangeles_lakers.Drivers.Interrupt.Dispatch.{
  FindsFirst, rt_do_mips_cpu_irq-endless, rt_do_mips_cpu_irq-installed,
}
use losangeles_lakers.Drivers.Uart.{rt_hw_uart_init}
use losangeles_lakers.Drivers.Uart.Lines.{rt_hw_uart_init-dispatched}
use losangeles_lakers.Drivers.Pwm.{LoongsonPwm, Pwm, Configuration, set, loongson_pwm_ioctl}
use losangeles_lakers.Drivers.Pwm.Line.{
  line_of, drive, code_of_cmd, change_at, loongson_pwm_ioctl-drive,
}
use losangeles_lakers.Base.{[], ◌∷◌, map, length, ok}
use losangeles_lakers.Base.{◌≡◌, refl, arith}
use losangeles_lakers.Base.Int.{pos}
use losangeles_lakers.Drivers.Rtc.{
  LoongsonRtc, Tm, localrtctime, mkrtctime, rt_rtc_ioctl, get_time, set_time,
}
use losangeles_lakers.Drivers.Rtc.Correct.{
  Fits, latched, localrtctime-mkrtctime, rt_rtc_ioctl-set_get,
}

-- 2020-12-07 21:45:59.
abbrev evening : Tm
evening = record {
  tm_sec = 59;
  tm_min = 45;
  tm_hour = 21;
  tm_mday = 7;
  tm_mon = pos 11;
  tm_year = 120;
}

evening-Fits : Fits evening
evening-Fits = record {
  sec = omega arith;
  min = omega arith;
  hour = omega arith;
  mday = omega arith;
  mon = (11, refl, omega arith);
  year = omega arith;
}

localrtctime-mkrtctime_example : localrtctime (mkrtctime 0xdeadbeef 7 evening) ≡ evening
localrtctime-mkrtctime_example = localrtctime-mkrtctime 0xdeadbeef 7 evening evening-Fits

-- Registers of a clock that was never set.
abbrev reset_clock : LoongsonRtc
reset_clock = record {
  sys_toywrite0 = 0;
  sys_toywrite1 = 0;
  sys_toyread0 = 0;
  sys_toyread1 = 0;
  sys_rtcread0 = 0;
}

-- A time as the clock's own members.
abbrev same_time : Tm → Tm
same_time tm = tm

rt_rtc_ioctl-set_get_example :
    rt_rtc_ioctl same_time same_time 5 6 get_time
      (latched (rt_rtc_ioctl same_time same_time 5 6 set_time reset_clock evening).0)
      evening
    ≡ (latched (rt_rtc_ioctl same_time same_time 5 6 set_time reset_clock evening).0, evening)
rt_rtc_ioctl-set_get_example =
    rt_rtc_ioctl-set_get same_time same_time 5 6 reset_clock evening evening evening-Fits

-- A timer that was never set.
abbrev reset_timer : LoongsonPwm
reset_timer = record { low_buffer = 0; full_buffer = 0; ctrl = 0 }

abbrev timers : Pwm
timers = record { config0 = 0; priv = reset_timer ∷ reset_timer ∷ reset_timer ∷ reset_timer ∷ [] }

abbrev buzz : Configuration
buzz = record { channel = 1; period = 1000; pulse = 500 }

loongson_pwm_ioctl-drive_example :
    (d' : Pwm) × (loongson_pwm_ioctl set buzz timers ≡ ok (code_of_cmd set, d'))
    × (map line_of d'.priv ≡ change_at 1 (drive set buzz) (map line_of timers.priv))
    × (length d'.priv ≡ 4)
loongson_pwm_ioctl-drive_example = loongson_pwm_ioctl-drive set buzz timers refl

-- A machine whose handlers are numbered.
abbrev reset_lio : Liointc
reset_lio = record { route = []; pol = 0; edge = 0; enable = 0; disable = 0 }

abbrev no_interrupts : Interrupts ℕ ℕ
no_interrupts = record {
  irq_handle_table = replicate 64 (record { handler = 0; param = 0 });
  lio0 = reset_lio;
  lio1 = reset_lio;
  unmasked = [];
}

liointc_set_irq_mode-TurnedOn_example :
    TurnedOn falling 28 reset_lio (lio_of 60 (liointc_set_irq_mode 60 falling no_interrupts))
    × (other_lio 60 (liointc_set_irq_mode 60 falling no_interrupts) ≡ reset_lio)
    × (record (liointc_set_irq_mode 60 falling no_interrupts) { lio0 = reset_lio; lio1 = reset_lio }
        ≡ no_interrupts)
liointc_set_irq_mode-TurnedOn_example =
    liointc_set_irq_mode-TurnedOn no_interrupts 60 falling (omega arith)

-- A count of the zero digits below the lowest one, for words of 32 digits.
abbrev first_one : ℕ → ℕ → ℕ
first_one zero x = 1
first_one (suc n) x = if x % 2 == 1 then 1 else first_one n (x / 2) + 1

none_below :
    (x i : ℕ)
    → x % 2 ≡ 0
    → ((j : ℕ) → j < i → bit (x / 2) j ≡ 0)
    → (j : ℕ) → j < suc i
    → bit x j ≡ 0
unfolding bit
none_below x i even below zero low = even
none_below x i even below (suc j) low = below j (omega arith)

first_one-finds :
    (n x : ℕ)
    → 0 < x
    → x < 2 ^ n
    → (i : ℕ) × (first_one n x ≡ i + 1) × (bit x i ≡ 1) × ((j : ℕ) → j < i → bit x j ≡ 0)
unfolding bit
first_one-finds zero x h k = absurd (omega arith)
first_one-finds (suc n) x h k = elim (==_cases (x % 2) 1) [
  | inl odd ↦ (0, rw odd refl, odd, λ j low. absurd (omega arith))
  | inr even ↦
      let (i, e, one, below) =
        first_one-finds n (x / 2) (ground arith) (omega (arith, pow-suc 2 n)) in
      (suc i, rw (even, e) (omega arith), one, none_below x i (ground arith) below)
]

first_one-FindsFirst : FindsFirst (first_one 32)
first_one-FindsFirst = first_one-finds 32

rt_do_mips_cpu_irq-endless_example :
    rt_do_mips_cpu_irq (first_one 32) 1000 2 0b101 0b101 no_interrupts ≡ stuck
unfolding bit
rt_do_mips_cpu_irq-endless_example =
    rt_do_mips_cpu_irq-endless (first_one 32) first_one-FindsFirst no_interrupts 1000 2 0b101 0 2
      refl (inl refl) (omega arith) (omega arith) refl refl

rt_do_mips_cpu_irq-installed_example :
    (old : ℕ) × (s' : Interrupts ℕ ℕ) × (s'' : Interrupts ℕ ℕ) × (rt_hw_interrupt_install
        (pos 58)
        5
        6
        no_interrupts
      ≡ ok (some old, s'))
    × (rt_do_mips_cpu_irq (first_one 32) 2 3 (2 ^ 26) (2 ^ 26) s'
        ≡ ok (record { irq_func = 5; irq = 58; irq_param = 6 } ∷ [], s''))
    × (s''.lio1.enable ≡ 2 ^ 26)
rt_do_mips_cpu_irq-installed_example =
    rt_do_mips_cpu_irq-installed (first_one 32) first_one-FindsFirst no_interrupts 1 58 5 6 refl
      (omega arith)

rt_hw_uart_init-dispatched_example :
    (s' : Interrupts ℕ ℕ) × (first : Interrupts ℕ ℕ) × (second : Interrupts ℕ ℕ) × (rt_hw_uart_init
        5 6 7 no_interrupts
      ≡ ok s')
    × (rt_do_mips_cpu_irq (first_one 32) 2 2 (2 ^ 0) (2 ^ 0) s'
        ≡ ok (record { irq_func = 5; irq = 0; irq_param = 6 } ∷ [], first))
    × (rt_do_mips_cpu_irq (first_one 32) 2 2 (2 ^ 1) (2 ^ 1) s'
        ≡ ok (record { irq_func = 5; irq = 1; irq_param = 7 } ∷ [], second))
rt_hw_uart_init-dispatched_example =
    rt_hw_uart_init-dispatched (first_one 32) first_one-FindsFirst no_interrupts 1 5 6 7 refl
