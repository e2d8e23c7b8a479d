-- ===== src/Drivers/Ethernet/Link.antt =====
-- The watch over the cable: `synopGMAC_linux_cable_unplug_function`, which a timer calls, and
-- `synopGMAC_check_phy_init` of ls2kdev_record/drivers/net/synopGMAC.c.
use losangeles_lakers.Base.{
  ℕ, ◌+◌, ◌*◌, ◌^◌, ◌<◌, bit_or, ◌≡◌, Bool, false, not, ◌==◌, ◌&&◌, if◌then◌else◌, Option, none,
  some, List, [], ◌∷◌, ◌++◌,
}

-- The members of `synopGMACdevice` for the link, and the modes and speeds with which
-- `synopGMAC_mac_init` was called.
pub record Link : Type 0 where
  pub duplex_mode : ℕ
  pub speed : ℕ
  pub loop_back_mode : ℕ
  pub link_state : ℕ
  pub mac_inits : List (ℕ × ℕ)

-- What `mii_link_ok` answers, and answers again, and what `mii_ethtool_gset` sets.
pub record Phy : Type 0 where
  pub link_ok : Bool
  pub link_ok_again : Bool
  pub duplex : ℕ
  pub speed : ℕ

unfoldable pub duplex_of : ℕ → ℕ
duplex_of duplex = if duplex == 1 then 2 else 1

unfoldable pub speed_of : ℕ → ℕ
speed_of speed = if speed == 1000 then 3 else if speed == 100 then 2 else 1

unfoldable pub check_phy_init : Phy → Link → ℕ × Link
check_phy_init p n = if not p.link_ok_again then (0, record n { duplex_mode = 2; speed = 2 }) else (
  bit_or (speed_of p.speed) (duplex_of p.duplex * 2 ^ 4),
  record n { duplex_mode = duplex_of p.duplex; speed = speed_of p.speed },
)

unfoldable pub cable_unplug_function : Phy → Link → Link
cable_unplug_function p n =
    if not p.link_ok
    then record n { duplex_mode = 0; speed = 0; loop_back_mode = 0; link_state = 0 }
    else let r = check_phy_init p n in
      if r.1.link_state == r.0 then r.1 else record (r.1) {
        link_state = r.0;
        mac_inits = r.1.mac_inits ++ ((r.1.duplex_mode, r.1.speed) ∷ []);
      }

unfoldable pub ticks : List Phy → Link → Link
ticks [] n = n
ticks (p ∷ ps) n = ticks ps (cable_unplug_function p n)

-- The link that is known, if there is one, and the links that the controller was set up for.
pub record Watch : Type 0 where
  pub now : Option (ℕ × ℕ)
  pub inits : List (ℕ × ℕ)

unfoldable pub is_now : Option (ℕ × ℕ) → ℕ × ℕ → Bool
is_now none l = false
is_now (some k) l = (k.0 == l.0) && (k.1 == l.1)

unfoldable pub watch_one : Phy → Watch → Watch
watch_one p w =
    if not p.link_ok
    then record w { now = none }
    else let l : ℕ × ℕ = (duplex_of p.duplex, speed_of p.speed) in
      if is_now w.now l then w else record { now = some l; inits = w.inits ++ (l ∷ []) }

unfoldable pub watch : List Phy → Watch → Watch
watch [] w = w
watch (p ∷ ps) w = watch ps (watch_one p w)

-- `LinkState` for a link.
unfoldable pub code : Option (ℕ × ℕ) → ℕ
code none = 0
code (some l) = l.0 * 2 ^ 4 + l.1

unfoldable pub IsLink : Option (ℕ × ℕ) → Type 0
IsLink none = Unit
IsLink (some l) = (0 < l.1) × (l.1 < 2 ^ 4)

pub record Watches (w : Watch) (n : Link) : Type 0 where
  pub state : n.link_state ≡ code w.now
  pub inits : n.mac_inits ≡ w.inits
  pub link : IsLink w.now

-- The readings of one call agree.
unfoldable pub Steady : List Phy → Type 0
Steady [] = Unit
Steady (p ∷ ps) = (p.link_ok_again ≡ p.link_ok) × Steady ps
