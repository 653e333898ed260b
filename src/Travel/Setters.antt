-- ===== src/Travel/Setters.antt =====
-- The setters of the parameters that move no event.
use ttpoe.Common.{
  ℕ, inl, inr, Bool, true, false, Option, none, some, ltb, ◌||◌, ◌+◌, ◌-◌, ◌^◌, ◌%◌, Option-cases,
  not, arith, ◌==◌, if◌then◌else◌,
}
use ttpoe.World.{World, Config}
use ttpoe.Frame.{Bytes}
use ttpoe.Device.{Result, error, done, einval}
use ttpoe.Param.{
  Strings, IntRead, NetDev, Settings, with_config, no_int, negative, natural, param_target_mac_set,
  param_vci_set, param_target_use_gw_set, param_nhmac_set, param_encap_set,
}
use ttpoe.Param.Ipv4.{
  Readers, masked, chomped, param_scan_ipv4, scan_dev, settle_prefix, set_length, param_prefix_set,
  param_ipv4_dip_set, param_drop_pct_set, param_shutdown_set, param_wkstep_set,
}
use ttpoe.Travel.{Still}
use ttpoe.Travel.Quiet.{Still-refl, Still-trans}

-- Nothing moves from the state `p` to the state of the result `r`.
abbrev pub Quiet : Settings → Settings × Result → Type 0
Quiet p r = (z : ℕ) → Still z p.world r.0.world

module _ (s : Strings) (val : Bytes) (p : Settings) where
  pub target_mac-Quiet : Quiet p (param_target_mac_set s val p)
  unfolding param_target_mac_set
  target_mac-Quiet z = ground arith

  pub vci-Quiet : Quiet p (param_vci_set s val p)
  unfolding param_vci_set
  vci-Quiet z = ground arith

  pub use_gw-Quiet : Quiet p (param_target_use_gw_set s val p)
  unfolding param_target_use_gw_set
  use_gw-Quiet z = ground arith

  pub nhmac-Quiet : Quiet p (param_nhmac_set s val p)
  unfolding param_nhmac_set
  nhmac-Quiet z = ground arith

  pub encap-Quiet : Quiet p (param_encap_set s val p)
  unfolding param_encap_set
  encap-Quiet z = ground arith

  pub drop_pct-Quiet : Quiet p (param_drop_pct_set s val p)
  unfolding param_drop_pct_set
  drop_pct-Quiet z = ground arith

  pub shutdown-Quiet : Quiet p (param_shutdown_set s val p)
  unfolding param_shutdown_set
  shutdown-Quiet z = ground arith

  pub wkstep-Quiet : Quiet p (param_wkstep_set s val p)
  unfolding param_wkstep_set
  wkstep-Quiet z = ground arith

config-Still : (z : ℕ) (c : Config) (w : World) → Still z w (record w { config = c })
config-Still z c w = ground arith

scan_ipv4-Quiet : (d : NetDev) (p : Settings) → Quiet p (param_scan_ipv4 d p)
unfolding param_scan_ipv4
scan_ipv4-Quiet d p z = ground arith

-- A new address of the source first.
known-Quiet :
    (d : NetDev) (p q : Settings)
    → ((z : ℕ) → Still z p.world q.world)
    → Quiet p (param_scan_ipv4 d q)
known-Quiet d p q h z = Still-trans (h z) (scan_ipv4-Quiet d q z)

scan_dev-Quiet : (o : Option NetDev) (p : Settings) → Quiet p (scan_dev o p)
unfolding scan_dev
scan_dev-Quiet o p z = elim (Option-cases p.dev) [
  | inr (d, e) ↦ rw (e, scan_dev) (scan_ipv4-Quiet d p z)
  | inl e ↦ elim (Option-cases o) [
    | inl f ↦ rw (e, f, scan_dev) (Still-refl z p.world)
    | inr (d, f) ↦
        let c = record p.world.config { dev_addr = d.addr } in
        let q = record (with_config c p) { dev = some d; source_mac = d.addr } in
        rw (e, f, scan_dev) (known-Quiet d p q (λ x. config-Still x c p.world) z)
  ]
]

settle_prefix-Quiet : (o : Option NetDev) (p : Settings) → Quiet p (settle_prefix o p)
unfolding settle_prefix
settle_prefix-Quiet o p z =
    let c = p.world.config in
    let n = if c.ipv4_pfxlen == 0 then 8 else c.ipv4_pfxlen in
    let c1 = record c { ipv4_pfxlen = n; ipv4_prefix = masked n c.ipv4_prefix } in
    Still-trans (config-Still z c1 p.world) (scan_dev-Quiet o (with_config c1 p) z)

if-Quiet :
    (p : Settings) (b : Bool) (x y : Settings × Result)
    → Quiet p x
    → Quiet p y
    → Quiet p (if b then x else y)
if-Quiet p true x y g h = g
if-Quiet p false x y g h = h

set_length-Quiet : (o : Option NetDev) (r : IntRead) (p : Settings) → Quiet p (set_length o r p)
unfolding set_length
set_length-Quiet o (no_int e) p z = Still-refl z p.world
set_length-Quiet o (negative n) p z =
    config-Still z (record p.world.config { ipv4_pfxlen = (2 ^ 32 - n) % 2 ^ 32 }) p.world
set_length-Quiet o (natural n) p z =
    let c = record p.world.config { ipv4_pfxlen = n } in
    let q = with_config c p in
    if-Quiet p (ltb n 8 || ltb 32 n) (q, error einval) (settle_prefix o q)
      (λ x. config-Still x c p.world)
      (λ x. Still-trans (config-Still x c p.world) (settle_prefix-Quiet o q x)) z

-- The address that stands before the place `tail` of the text.
prefix_read-Quiet :
    (k : Readers) (o : Option NetDev) (t : Bytes) (p : Settings) (r : Option (ℕ × ℕ))
    → let c = p.world.config in
      let set : Settings × Result = elim r [
        | none ↦ (with_config (record c { ipv4_prefix = 0 }) p, error einval)
        | some (a, tail) ↦
            let p1 = with_config (record c { ipv4_prefix = a }) p in
            if t tail == 47
            then set_length o (k.kstrtoint_at t (tail + 1)) p1
            else if t tail == 0
            then settle_prefix o p1
            else (p1, error einval)
      ] in
      Quiet p set
prefix_read-Quiet k o t p none z =
    config-Still z (record p.world.config { ipv4_prefix = 0 }) p.world
prefix_read-Quiet k o t p (some (a, tail)) z =
    let c = record p.world.config { ipv4_prefix = a } in
    let q = with_config c p in
    let r = k.kstrtoint_at t (tail + 1) in
    let at : Quiet p (q, error einval) = λ x. config-Still x c p.world in
    if-Quiet p (t tail == 47) (set_length o r q)
      (if t tail == 0 then settle_prefix o q else (q, error einval))
      (λ x. Still-trans (at x) (set_length-Quiet o r q x))
      (if-Quiet p (t tail == 0) (settle_prefix o q) (q, error einval)
        (λ x. Still-trans (at x) (settle_prefix-Quiet o q x)) at)
      z

pub prefix-Quiet :
    (k : Readers) (o : Option NetDev) (val : Bytes) (p : Settings)
    → Quiet p (param_prefix_set k o val p)
unfolding param_prefix_set
prefix-Quiet k o val p =
    let same : Quiet p (p, error einval) = λ z. Still-refl z p.world in
    if-Quiet p (not p.named) (p, error einval) _ same
      (if-Quiet p (not p.world.config.ipv4_encap) (p, error einval) _ same
        (if-Quiet p (k.strcspn val == 0) (p, done 0) _ same
          (prefix_read-Quiet k o (chomped k val) p (k.in4_pton (chomped k val)))))

pub ipv4_dip-Quiet :
    (k : Readers) (val : Bytes) (p : Settings) → Quiet p (param_ipv4_dip_set k val p)
unfolding param_ipv4_dip_set
ipv4_dip-Quiet k val p z = ground arith
