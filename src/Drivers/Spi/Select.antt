-- ===== src/Drivers/Spi/Select.antt =====
-- What the chip selects are after one of them was set.
use losangeles_lakers.Base.{
  ℕ, ◌+◌, ◌%◌, ◌^◌, bit_or, ◌<◌, ◌≡◌, refl, ◌==◌, if◌then◌else◌, [], ◌∷◌, ok, arith, ltb-true,
}
use losangeles_lakers.Base.Bits.{bit}
use losangeles_lakers.Base.Bits.Single.{bit-mod, bit-cleared, bit-set_one}
use losangeles_lakers.Drivers.Spi.{Bus, softcs, cs_value, spi_set_cs}

-- The digits of the register: select `k` is turned on by digit `k`, and digit `4 + k` is its level.
pub bit-cs_value :
    (val cs new_status i : ℕ)
    → cs < 4
    → i < 8
    → bit (cs_value val cs new_status) i ≡ (
        if i == cs
        then 1
        else if i == 4 + cs
        then (if new_status == 0 then 0 else 1)
        else bit val i)
unfolding cs_value
bit-cs_value val cs new_status i h low = ground (
  arith,
  bit-mod (bit_or val (2 ^ cs)) 8 i low,
  bit-set_one val cs i,
  bit-cleared 8 (bit_or val (2 ^ cs) % 2 ^ 8) (4 + cs) i (omega arith) low,
  bit-mod (bit_or (bit_or val (2 ^ cs) % 2 ^ 8) (2 ^ (4 + cs))) 8 i low,
  bit-set_one (bit_or val (2 ^ cs) % 2 ^ 8) (4 + cs) i,
)

-- For each of the four selects and any level, `spi_set_cs` writes the register of the selects once:
-- the digit that turns the select on is set, the digit of its level is the level, and the other
-- digits are those that the register held.
pub spi_set_cs-register :
    (cs new_status : ℕ) (w : Bus)
    → cs < 4
    → (v : ℕ) × (spi_set_cs cs new_status w ≡ ok (tt, softcs v ∷ [], record w { soft_cs = v }))
      × ((i : ℕ)
          → i < 8
          → bit v i ≡ (
              if i == cs
              then 1
              else if i == 4 + cs
              then (if new_status == 0 then 0 else 1)
              else bit w.soft_cs i))
unfolding spi_set_cs
spi_set_cs-register cs new_status w h = (
  cs_value w.soft_cs cs new_status,
  rw (ltb-true cs 4 h) refl,
  λ i low. bit-cs_value w.soft_cs cs new_status i h low,
)
