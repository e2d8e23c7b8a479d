-- ===== src/Drivers/Clock.antt =====
-- drivers/clk.c of both applications: the rates of the clocks, from the registers of the PLLs.
pub mod Rates
use losangeles_lakers.Base.{ℕ, ◌+◌, ◌*◌, ◌/◌, Result, ◌>>=◌, divide}
use losangeles_lakers.Drivers.Rtc.{bf}

-- The registers that are read.
pub record LoongsonPll : Type 0 where
  pub pll_sys_0 : ℕ
  pub pll_sys_1 : ℕ
  pub pll_ddr_0 : ℕ
  pub pll_ddr_1 : ℕ
  pub freqscale : ℕ

abbrev pub refclk : ℕ
refclk = 100

abbrev pub gmac_clock : ℕ
gmac_clock = 125

unfoldable pub clk_get_cpu_rate : LoongsonPll → Result ℕ
clk_get_cpu_rate pll =
    let l1_div_ref = bf pll.pll_sys_0 26 31 in
    let l1_div_loopc = bf pll.pll_sys_0 32 41 in
    let l2_div_out_node = bf pll.pll_sys_1 5 0 in
    divide refclk l1_div_ref >>= λ q. divide (q * l1_div_loopc) l2_div_out_node

unfoldable pub clk_get_ddr_rate : LoongsonPll → Result ℕ
clk_get_ddr_rate pll =
    let l1_div_ref = bf pll.pll_ddr_0 26 31 in
    let l1_div_loopc = bf pll.pll_ddr_0 32 41 in
    let l2_div_out_ddr = bf pll.pll_ddr_1 0 5 in
    divide refclk l1_div_ref >>= λ q. divide (q * l1_div_loopc) l2_div_out_ddr

unfoldable pub clk_get_apb_rate : LoongsonPll → ℕ
clk_get_apb_rate pll =
    let apb_freqscale = bf pll.freqscale 22 20 in gmac_clock * (apb_freqscale + 1) / 8
