-- ===== src/Param/Guard.antt =====
-- What the setters of the parameters keep.
use ttpoe.Common.{◌≤◌, ◌≡◌, ◌≢◌, ◌⊎◌, refl, Bool, true, false, ◌&&◌, Option, none, some, arith}
use ttpoe.Frame.{Bytes}
use ttpoe.Device.{Result, error, done}
use ttpoe.Param.{
  Strings, Settings, flag_of, valid_mac, param_target_mac_set, param_vci_set,
  param_target_use_gw_set, param_nhmac_set, param_encap_set,
}

-- The gateway and the IPv4 mode are not both on, and the channel of the target is a valid one.
abbrev pub Apart : Settings → Type 0
Apart p = ((p.target.gw && p.world.config.ipv4_encap) ≡ false) × (p.target.vc ≤ 2)

-- A setting that succeeds keeps the two modes apart, and one that fails changes nothing.
abbrev pub Guarded : Settings → Settings × Result → Type 0
Guarded p r = ((r.1 ≡ done 0) × Apart r.0) ⊎ ((r.1 ≢ done 0) × (r.0 ≡ p))

module _ (s : Strings) (val : Bytes) (p : Settings) where
  use_gw_cases :
      (o : Option Bool)
      → flag_of (s.kstrtoint val) ≡ o
      → Apart p
      → Guarded p (param_target_use_gw_set s val p)
  unfolding param_target_use_gw_set
  use_gw_cases none e h = ground (arith, e)
  use_gw_cases (some true) e h = ground (arith, e)
  use_gw_cases (some false) e h = ground (arith, e)

  encap_cases :
      (o : Option Bool)
      → flag_of (s.kstrtoint val) ≡ o
      → Apart p
      → Guarded p (param_encap_set s val p)
  unfolding param_encap_set
  encap_cases none e h = ground (arith, e)
  encap_cases (some true) e h = ground (arith, e)
  encap_cases (some false) e h = ground (arith, e)

  vci_keeps : Apart p → Guarded p (param_vci_set s val p)
  unfolding param_vci_set
  vci_keeps h = ground arith

  mac_cases :
      (r : Result) → (valid_mac s val).0 ≡ r → Apart p → Guarded p (param_target_mac_set s val p)
  unfolding param_target_mac_set
  mac_cases (error x) e h = ground (arith, e)
  mac_cases (done n) e h = ground (arith, e)

  nhmac_cases :
      (r : Result) → (valid_mac s val).0 ≡ r → Apart p → Guarded p (param_nhmac_set s val p)
  unfolding param_nhmac_set
  nhmac_cases (error x) e h = ground (arith, e)
  nhmac_cases (done n) e h = ground (arith, e)

  -- Let the gateway and the IPv4 mode not both be on, and the target's channel be at most 2. Each of the setters of the
  -- target's address, of the channel, of the gateway, of the next hop and of the IPv4 mode, for whatever text and whatever
  -- the kernel's functions read from it, either gives 0 and keeps both facts, or gives an error and changes nothing.
  pub setters-Guarded :
      Apart p
      → Guarded p (param_target_mac_set s val p)
        × Guarded p (param_vci_set s val p)
        × Guarded p (param_target_use_gw_set s val p)
        × Guarded p (param_nhmac_set s val p)
        × Guarded p (param_encap_set s val p)
  setters-Guarded h = (
    mac_cases (valid_mac s val).0 refl h,
    vci_keeps h,
    use_gw_cases (flag_of (s.kstrtoint val)) refl h,
    nhmac_cases (valid_mac s val).0 refl h,
    encap_cases (flag_of (s.kstrtoint val)) refl h,
  )
