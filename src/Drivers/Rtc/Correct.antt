-- ===== src/Drivers/Rtc/Correct.antt =====
-- Setting the clock and reading it.
use losangeles_lakers.Base.{
  ltb-true, ltb-false, All, ◌∷◌, [], ℕ, ◌+◌, ◌-◌, ◌*◌, ◌/◌, suc, ◌%◌, ◌^◌, ◌≤◌, ◌<◌, ◌≡◌, refl,
  arith, ◌∙◌, ap,
}
use losangeles_lakers.Base.Bits.Fields.{bit_or-shifted, bit_and-low_mask}
use losangeles_lakers.Base.Int.{pos, dec_ℕ, inc_ℤ, to_u32}
use losangeles_lakers.Drivers.Rtc.{
  LoongsonRtc, RtcTime, Tm, bf, localrtctime, shift_in, mkrtctime, rt_rtc_ioctl, get_time, set_time,
}

-- A date whose members fit their fields; `mon` is `tm_mon`.
pub record Fits (tm : Tm) : Type 0 where
  pub sec : tm.tm_sec < 64
  pub min : tm.tm_min < 64
  pub hour : tm.tm_hour < 32
  pub mday : tm.tm_mday < 32
  pub mon : (m : ℕ) × (tm.tm_mon ≡ pos m) × (m < 63)
  pub year : tm.tm_year < 2 ^ 32

-- A value shifted in below a word, modulo 2 ^ 32.
shift_in_six : (x v : ℕ) → v < 64 → shift_in x 6 v ≡ (x * 64 + v) % 2 ^ 32
unfolding shift_in
shift_in_six x v h =
    let cut : x * 2 ^ 6 % 2 ^ 32 ≡ x % 2 ^ 26 * 2 ^ 6 = omega arith in
    rw (cut, bit_or-shifted 6 (x % 2 ^ 26) v h) (omega arith)

shift_in_five : (x v : ℕ) → v < 32 → shift_in x 5 v ≡ (x * 32 + v) % 2 ^ 32
unfolding shift_in
shift_in_five x v h =
    let cut : x * 2 ^ 5 % 2 ^ 32 ≡ x % 2 ^ 27 * 2 ^ 5 = omega arith in
    rw (cut, bit_or-shifted 5 (x % 2 ^ 27) v h) (omega arith)

shift_in_tenths : (x : ℕ) → shift_in x 4 0 ≡ x * 16 % 2 ^ 32
unfolding shift_in
shift_in_tenths x =
    let cut : x * 2 ^ 4 % 2 ^ 32 ≡ x % 2 ^ 28 * 2 ^ 4 = omega arith in
    rw (cut, bit_or-shifted 4 (x % 2 ^ 28) 0 (omega arith)) (omega arith)

-- The word that holds the six fields.
abbrev packed : ℕ → ℕ → ℕ → ℕ → ℕ → ℕ
packed mon mday hour min sec =
    (mon + 1) * 2 ^ 26 + mday * 2 ^ 21 + hour * 2 ^ 16 + min * 2 ^ 10 + sec * 2 ^ 4

-- Six shifts in a row push out what the word held before.
shift_in-packed :
    (g mon mday hour min sec : ℕ)
    → mon < 63
    → mday < 32
    → hour < 32
    → min < 64
    → sec < 64
    → shift_in
        (shift_in
          (shift_in (shift_in (shift_in (shift_in g 6 (mon + 1)) 5 mday) 5 hour) 6 min)
          6
          sec)
        4
        0
      ≡ packed mon mday hour min sec
shift_in-packed g mon mday hour min sec a b c d e =
    let f1 = shift_in_six g (mon + 1) (omega arith) in
    let f2 = shift_in_five ((g * 64 + (mon + 1)) % 2 ^ 32) mday b in
    let x2 = g * 2048 + (mon + 1) * 32 + mday in
    let e2 : ((g * 64 + (mon + 1)) % 2 ^ 32 * 32 + mday) % 2 ^ 32 ≡ x2 % 2 ^ 32 = omega arith in
    let f3 = shift_in_five (x2 % 2 ^ 32) hour c in
    let x3 = x2 * 32 + hour in
    let e3 : (x2 % 2 ^ 32 * 32 + hour) % 2 ^ 32 ≡ x3 % 2 ^ 32 = omega arith in
    let f4 = shift_in_six (x3 % 2 ^ 32) min d in
    let x4 = x3 * 64 + min in
    let e4 : (x3 % 2 ^ 32 * 64 + min) % 2 ^ 32 ≡ x4 % 2 ^ 32 = omega arith in
    let f5 = shift_in_six (x4 % 2 ^ 32) sec e in
    let x5 = x4 * 64 + sec in
    let e5 : (x4 % 2 ^ 32 * 64 + sec) % 2 ^ 32 ≡ x5 % 2 ^ 32 = omega arith in
    let f6 = shift_in_tenths (x5 % 2 ^ 32) in
    let e6 : x5 % 2 ^ 32 * 16 % 2 ^ 32 ≡ packed mon mday hour min sec = omega arith in
    rw (f1, f2, e2, f3, e3, f4, e4, f5, e5, f6, e6) refl

to_u32-inc : (m : ℕ) → m < 63 → to_u32 (inc_ℤ (pos m)) ≡ m + 1
to_u32-inc m h = omega arith

mkrtctime-packed :
    (g g' : ℕ) (tm : Tm) (m : ℕ)
    → Fits tm
    → tm.tm_mon ≡ pos m
    → m < 63
    → (mkrtctime g g' tm).sys_toyread0 ≡ packed m tm.tm_mday tm.tm_hour tm.tm_min tm.tm_sec
unfolding mkrtctime
mkrtctime-packed g g' tm m fits e small =
    rw (e, to_u32-inc m small)
      (shift_in-packed g m tm.tm_mday tm.tm_hour tm.tm_min tm.tm_sec small fits.mday fits.hour
        fits.min fits.sec)

pub bf_field : (x n m : ℕ) → m < n → bf x n m ≡ x / 2 ^ m % 2 ^ (n - m + 1)
unfolding bf
bf_field x n m h = rw (ltb-true m n h, bit_and-low_mask)

pub bf_swapped : (x n m : ℕ) → n ≤ m → bf x n m ≡ x / 2 ^ n % 2 ^ (m - n + 1)
unfolding bf
bf_swapped x n m h = rw (ltb-false m n h, bit_and-low_mask)

field_values :
    (mon mday hour min sec : ℕ)
    → mon < 63
    → mday < 32
    → hour < 32
    → min < 64
    → sec < 64
    → All
        (λ (read, field). read ≡ field)
        ((bf (packed mon mday hour min sec) 9 4, sec)
          ∷ (bf (packed mon mday hour min sec) 15 10, min)
          ∷ (bf (packed mon mday hour min sec) 20 16, hour)
          ∷ (bf (packed mon mday hour min sec) 21 25, mday)
          ∷ (bf (packed mon mday hour min sec) 26 31, mon + 1)
          ∷ [])
field_values mon mday hour min sec a b c d e = (
  bf_field (packed mon mday hour min sec) 9 4 (omega arith) ∙ omega arith,
  (
    bf_field (packed mon mday hour min sec) 15 10 (omega arith) ∙ omega arith,
    (
      bf_field (packed mon mday hour min sec) 20 16 (omega arith) ∙ omega arith,
      (
        bf_swapped (packed mon mday hour min sec) 21 25 (omega arith) ∙ omega arith,
        (bf_swapped (packed mon mday hour min sec) 26 31 (omega arith) ∙ omega arith, tt),
      ),
    ),
  ),
)

dec_suc : (m : ℕ) → dec_ℕ (m + 1) ≡ pos m
dec_suc m = let e : m + 1 ≡ suc m = omega arith in rw e refl

from_fields :
    (r : RtcTime) (tm : Tm)
    → bf r.sys_toyread0 9 4 ≡ tm.tm_sec
    → bf r.sys_toyread0 15 10 ≡ tm.tm_min
    → bf r.sys_toyread0 20 16 ≡ tm.tm_hour
    → bf r.sys_toyread0 21 25 ≡ tm.tm_mday
    → dec_ℕ (bf r.sys_toyread0 26 31) ≡ tm.tm_mon
    → r.sys_toyread1 ≡ tm.tm_year
    → localrtctime r ≡ tm
unfolding localrtctime
from_fields r tm sec min hour mday mon year = λ i. record {
  tm_sec = sec i;
  tm_min = min i;
  tm_hour = hour i;
  tm_mday = mday i;
  tm_mon = mon i;
  tm_year = year i;
}

-- What `mkrtctime` packs, `localrtctime` unpacks, whatever the words of the variable that it
-- returns held before: all six members come back, for every date whose members fit their fields.
pub localrtctime-mkrtctime :
    (garbage garbage' : ℕ) (tm : Tm) → Fits tm → localrtctime (mkrtctime garbage garbage' tm) ≡ tm
localrtctime-mkrtctime garbage garbage' tm fits =
    let (m, e, small) = fits.mon in
    let word = mkrtctime-packed garbage garbage' tm m fits e small in
    let (sec, (min, (hour, (mday, (mon, end))))) =
      field_values m tm.tm_mday tm.tm_hour tm.tm_min tm.tm_sec small fits.mday fits.hour fits.min
        fits.sec in
    from_fields (mkrtctime garbage garbage' tm) tm (rw word sec) (rw word min) (rw word hour)
      (rw word mday) (rw (word, mon, e) (dec_suc m)) (unfold mkrtctime in omega (arith, fits.year))

-- Registers in which the clock shows what was written last.
abbrev pub latched : LoongsonRtc → LoongsonRtc
latched hw = record hw { sys_toyread0 = hw.sys_toywrite0; sys_toyread1 = hw.sys_toywrite1 }

module _ {Time : Type 0} (mktime : Tm → Time) (localtime : Time → Tm) where
  -- The clock set and then read: where the members of the time fit their fields and the clock
  -- shows what was written last, the set command and then the get command give `mktime` of the
  -- members that `localtime` gave, and the get command changes no register.
  pub rt_rtc_ioctl-set_get :
      (garbage garbage' : ℕ) (hw : LoongsonRtc) (t t' : Time)
      → Fits (localtime t)
      → rt_rtc_ioctl mktime localtime garbage garbage' get_time
          (latched (rt_rtc_ioctl mktime localtime garbage garbage' set_time hw t).0)
          t'
        ≡ (
          latched (rt_rtc_ioctl mktime localtime garbage garbage' set_time hw t).0,
          mktime (localtime t),
        )
  unfolding rt_rtc_ioctl localrtctime
  rt_rtc_ioctl-set_get garbage garbage' hw t t' fits =
      ap
        (λ tm.
          (latched (rt_rtc_ioctl mktime localtime garbage garbage' set_time hw t).0, mktime tm))
        (localrtctime-mkrtctime garbage garbage' (localtime t) fits)
