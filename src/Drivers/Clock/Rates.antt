-- ===== src/Drivers/Clock/Rates.antt =====
-- The rates for any contents of the registers.
use losangeles_lakers.Base.{
  ℕ, zero, suc, ◌*◌, ◌/◌, ◌%◌, ◌^◌, ◌≤◌, ◌||◌, ◌==◌, ◌≡◌, refl, if◌then◌else◌, Result, ok, fault,
  bad_divide, divide, ◌>>=◌, arith, ==_false,
}
use losangeles_lakers.Drivers.Rtc.{bf}
use losangeles_lakers.Drivers.Rtc.Correct.{bf_field, bf_swapped}
use losangeles_lakers.Drivers.Clock.{
  LoongsonPll, clk_get_cpu_rate, clk_get_ddr_rate, clk_get_apb_rate,
}

-- A divided and multiplied reference of 100 MHz, where no divider is zero.
abbrev pub rate : ℕ → ℕ → ℕ → Result ℕ
rate ref loopc out =
    if (ref == 0) || (out == 0) then fault bad_divide else ok (100 / ref * loopc / out)

divide-rate :
    (ref loopc out : ℕ) → (divide 100 ref >>= λ q. divide (q * loopc) out) ≡ rate ref loopc out
divide-rate zero loopc out = refl
divide-rate (suc ref) loopc zero = rw (==_false (suc ref) 0 (λ e. omega arith)) refl
divide-rate (suc ref) loopc (suc out) =
    rw (==_false (suc ref) 0 (λ e. omega arith), ==_false (suc out) 0 (λ e. omega arith)) refl

-- Any contents of the registers: the rates of the processor and of the memory are a fault where one
-- of their two dividers is zero, and otherwise the reference divided, multiplied and divided by the
-- fields, rounded down each time. The rate of the bus is between 15 and 125, and is the highest where
-- all three digits of its field are set.
pub clk_rates :
    (pll : LoongsonPll)
    → (clk_get_cpu_rate pll
        ≡ rate (pll.pll_sys_0 / 2 ^ 26 % 64) (pll.pll_sys_0 / 2 ^ 32 % 1024) (pll.pll_sys_1 % 64))
      × (clk_get_ddr_rate pll
          ≡ rate (pll.pll_ddr_0 / 2 ^ 26 % 64) (pll.pll_ddr_0 / 2 ^ 32 % 1024) (pll.pll_ddr_1 % 64))
      × (15 ≤ clk_get_apb_rate pll)
      × (clk_get_apb_rate pll ≤ 125)
      × ((clk_get_apb_rate pll == 125) ≡ (pll.freqscale / 2 ^ 20 % 8 == 7))
unfolding clk_get_cpu_rate clk_get_ddr_rate clk_get_apb_rate
clk_rates pll =
    let node : bf pll.pll_sys_1 5 0 ≡ pll.pll_sys_1 % 64 =
      omega (arith, bf_field pll.pll_sys_1 5 0 (omega arith)) in
    let ddr : bf pll.pll_ddr_1 0 5 ≡ pll.pll_ddr_1 % 64 =
      omega (arith, bf_swapped pll.pll_ddr_1 0 5 (omega arith)) in
    let scale = bf_field pll.freqscale 22 20 (omega arith) in
    (
      rw
          (
            bf_swapped pll.pll_sys_0 26 31 (omega arith),
            bf_swapped pll.pll_sys_0 32 41 (omega arith),
            node,
          )
          (divide-rate (pll.pll_sys_0 / 2 ^ 26 % 64) (pll.pll_sys_0 / 2 ^ 32 % 1024)
            (pll.pll_sys_1 % 64)),
      rw
          (
            bf_swapped pll.pll_ddr_0 26 31 (omega arith),
            bf_swapped pll.pll_ddr_0 32 41 (omega arith),
            ddr,
          )
          (divide-rate (pll.pll_ddr_0 / 2 ^ 26 % 64) (pll.pll_ddr_0 / 2 ^ 32 % 1024)
            (pll.pll_ddr_1 % 64)),
      omega (arith, scale),
      omega (arith, scale),
      rw scale (ground arith),
    )
