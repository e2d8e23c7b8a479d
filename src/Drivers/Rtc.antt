-- ===== src/Drivers/Rtc.antt =====
-- ls2kdev_record/drivers/drv_rtc.c: the clock's registers and the fields of `struct tm`.
pub mod Correct
use losangeles_lakers.Base.{ℕ, ◌+◌, ◌-◌, ◌*◌, ◌/◌, ◌%◌, ◌^◌, bit_and, bit_or, ltb, if◌then◌else◌}
use losangeles_lakers.Base.Int.{ℤ, pos, dec_ℕ, inc_ℤ, to_u32}

-- The registers that the driver reads and writes.
pub record LoongsonRtc : Type 0 where
  pub sys_toywrite0 : ℕ
  pub sys_toywrite1 : ℕ
  pub sys_toyread0 : ℕ
  pub sys_toyread1 : ℕ
  pub sys_rtcread0 : ℕ

pub record RtcTime : Type 0 where
  pub sys_toyread0 : ℕ
  pub sys_toyread1 : ℕ
  pub sys_rtcread0 : ℕ

-- The members of `struct tm` that the driver uses.
pub record Tm : Type 0 where
  pub tm_sec : ℕ
  pub tm_min : ℕ
  pub tm_hour : ℕ
  pub tm_mday : ℕ
  pub tm_mon : ℤ
  pub tm_year : ℕ

-- `BF(number, n, m)`: the bits between `n` and `m`, in whichever order they are given.
unfoldable pub bf : ℕ → ℕ → ℕ → ℕ
bf number n m =
    if ltb m n
    then bit_and (number / 2 ^ m) (2 ^ (n - m + 1) - 1)
    else bit_and (number / 2 ^ n) (2 ^ (m - n + 1) - 1)

unfoldable pub localrtctime : RtcTime → Tm
localrtctime rtctp = record {
  tm_sec = bf rtctp.sys_toyread0 9 4;
  tm_min = bf rtctp.sys_toyread0 15 10;
  tm_hour = bf rtctp.sys_toyread0 20 16;
  tm_mday = bf rtctp.sys_toyread0 21 25;
  tm_mon = dec_ℕ (bf rtctp.sys_toyread0 26 31);
  tm_year = rtctp.sys_toyread1;
}

-- `x <<= k; x |= v;` on a `uint32_t`.
unfoldable pub shift_in : ℕ → ℕ → ℕ → ℕ
shift_in x k v = bit_or (x * 2 ^ k % 2 ^ 32) v

-- `rtctm` is not initialised: `garbage` and `garbage'` are what its words hold.
unfoldable pub mkrtctime : ℕ → ℕ → Tm → RtcTime
mkrtctime garbage garbage' tm =
    let mon = shift_in garbage (31 - 26 + 1) (to_u32 (inc_ℤ tm.tm_mon)) in
    let mday = shift_in mon (25 - 21 + 1) tm.tm_mday in
    let hour = shift_in mday (20 - 16 + 1) tm.tm_hour in
    let min = shift_in hour (15 - 10 + 1) tm.tm_min in
    let sec = shift_in min (9 - 4 + 1) tm.tm_sec in
    record {
      sys_toyread0 = shift_in sec (3 - 0 + 1) 0;
      sys_toyread1 = tm.tm_year % 2 ^ 32;
      sys_rtcread0 = garbage';
    }

-- The commands of `rt_rtc_ioctl`.
pub data Command : Type 0 where
  get_time set_time get_alarm set_alarm other_command : Command

-- `mktime` and `localtime` are the C library's. The result is the registers and `*t`; the error
-- code is always `RT_EOK`.
module _ {Time : Type 0} (mktime : Tm → Time) (localtime : Time → Tm) where
  unfoldable pub rt_rtc_ioctl : ℕ → ℕ → Command → LoongsonRtc → Time → LoongsonRtc × Time
  rt_rtc_ioctl garbage garbage' cmd hw t =
      let now = localrtctime (record {
        sys_toyread0 = hw.sys_toyread0;
        sys_toyread1 = hw.sys_toyread1;
        sys_rtcread0 = hw.sys_rtcread0;
      }) in
      elim cmd [
        | get_time ↦ (hw, mktime now)
        | set_time ↦
            let time = localtime t in
            let tmptime = record now {
              tm_hour = time.tm_hour;
              tm_min = time.tm_min;
              tm_sec = time.tm_sec;
              tm_year = time.tm_year;
              tm_mon = time.tm_mon;
              tm_mday = time.tm_mday;
            } in
            let rtctm = mkrtctime garbage garbage' tmptime in
            (
              record hw { sys_toywrite0 = rtctm.sys_toyread0; sys_toywrite1 = rtctm.sys_toyread1 },
              t,
            )
        | _ ↦ (hw, t)
      ]
