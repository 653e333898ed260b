-- ===== src/Travel/Steering.antt =====
-- The moves of the setters: those that reach for the target send it an event, all the others move none.
use ttpoe.Common.{
  ℕ, inl, inr, refl, Bool, true, false, ◌&&◌, none, [], Option-cases, Bool-cases, ◌==◌,
  if◌then◌else◌,
}
use ttpoe.Fsm.{txq_ttp_open, txq_ttp_close}
use ttpoe.Frame.{Bytes, is_valid_ether_addr}
use ttpoe.Device.{Result, error, done, einval, noc_debug_tgt}
use ttpoe.Param.{
  Strings, Settings, with_ve, flag_of, debug_target_enable, param_target_mac_set,
  param_target_ve_set, param_vci_set, param_target_use_gw_set, param_nhmac_set, param_encap_set,
}
use ttpoe.Param.Ipv4.{
  Readers, param_prefix_set, param_ipv4_dip_set, force_close, aim_at, param_debug_target_set,
  param_drop_pct_set, param_shutdown_set, param_wkstep_set,
}
use ttpoe.Run.{
  Parameter, Reading, set_parameter, target_mac, valid, vci, use_gw, nhmac, encap, drop_pct,
  shutdown, wkstep, prefix, ipv4_dip, target,
}
use ttpoe.Travel.{Moves, still, also}
use ttpoe.Travel.Quiet.{Still-refl}
use ttpoe.Travel.Sending.{tgt-Still, Result-cases, noc_debug_tx-Moves}
use ttpoe.Travel.Setters.{
  Quiet, target_mac-Quiet, vci-Quiet, use_gw-Quiet, nhmac-Quiet, encap-Quiet, drop_pct-Quiet,
  shutdown-Quiet, wkstep-Quiet, prefix-Quiet, ipv4_dip-Quiet,
}

-- The events that a setter sends are put away.
abbrev pub Sends : Settings → Settings → Type 0
Sends p q = Moves [] p.world [] q.world

enable-Sends : (p : Settings) → Sends p (debug_target_enable p).0
unfolding debug_target_enable
enable-Sends p =
    let t = noc_debug_tgt p.target p.world in
    let m : Moves [] p.world [] t.0 = still [] p.world t.0 (λ z. tgt-Still z p.target p.world) in
    let n = noc_debug_tx-Moves 0 none 0 txq_ttp_open p.target [] t.0 (inl refl) in
    elim (Bool-cases (p.world.config.ipv4_encap && (p.world.config.ipv4_prefix == 0))) [
      | inl e ↦ rw (e, debug_target_enable) (still [] p.world p.world (λ z. Still-refl z p.world))
      | inr e ↦ elim (Result-cases t.1) [
        | inl (x, f) ↦ rw (e, f, debug_target_enable) m
        | inr (c, f) ↦ rw (e, f, debug_target_enable) (also m n)
      ]
    ]

force_close-Sends : (p : Settings) → Sends p (force_close p)
unfolding force_close
force_close-Sends p = elim (Bool-cases (is_valid_ether_addr p.target.mac)) [
  | inl e ↦
      rw (e, force_close) (noc_debug_tx-Moves 0 none 0 txq_ttp_close p.target [] p.world (inl refl))
  | inr e ↦ rw (e, force_close) (still [] p.world p.world (λ z. Still-refl z p.world))
]

Quiet-Sends : (p : Settings) (r : Settings × Result) → Quiet p r → Sends p r.0
Quiet-Sends p r h = still [] p.world r.0.world h

if-Sends :
    (p : Settings) (b : Bool) (x y : Settings × Result)
    → Sends p x.0
    → Sends p y.0
    → Sends p (if b then x else y).0
if-Sends p true x y g h = g
if-Sends p false x y g h = h

aim-Sends : (t : ℕ) (p : Settings) → Sends p (aim_at t p)
unfolding aim_at
aim-Sends t p = still [] p.world p.world (λ z. Still-refl z p.world)

-- The target invalid again where it was not reached.
settled-Sends :
    (p q : Settings) (rv : Result)
    → Sends p q
    → let r : Settings × Result = elim rv [
      | error e ↦ (with_ve false q, error e)
      | done n ↦ if n == 0 then (q, done 0) else (with_ve false q, done n)
    ] in
      Sends p r.0
settled-Sends p q (error e) m = m
settled-Sends p q (done n) m = if-Sends p (n == 0) (q, done 0) (with_ve false q, done n) m m

target_ve-Sends :
    (s : Strings) (val : Bytes) (p : Settings) → Sends p (param_target_ve_set s val p).0
unfolding param_target_ve_set
target_ve-Sends s val p =
    let on = with_ve true p in
    let same : (b : Result) → Sends p p = λ b. Quiet-Sends p (p, b) (λ z. Still-refl z p.world) in
    let m =
      settled-Sends p (debug_target_enable on).0 (debug_target_enable on).1 (enable-Sends on) in
    elim (Option-cases (flag_of (s.kstrtoint val))) [
      | inl e ↦ rw (e, param_target_ve_set) (same (error einval))
      | inr (b, e) ↦
          rw (e, param_target_ve_set)
            (if-Sends p p.target.ve _ _
              (if-Sends p b (p, done 0) (with_ve false p, done 0) (same (done 0)) (same (done 0)))
              (if-Sends p b _ (p, done 0) m (same (done 0))))
    ]

debug_target-Sends :
    (k : Readers) (val : Bytes) (p : Settings) → Sends p (param_debug_target_set k val p).0
unfolding param_debug_target_set
debug_target-Sends k val p =
    let same : Sends p p = Quiet-Sends p (p, error einval) (λ z. Still-refl z p.world) in
    elim (Bool-cases (p.world.config.ipv4_encap && (p.world.config.ipv4_prefix == 0))) [
      | inl e ↦ rw (e, param_debug_target_set) same
      | inr e ↦ elim (Result-cases (k.kstrtouint_hex val)) [
        | inl (x, f) ↦ rw (e, f, param_debug_target_set) same
        | inr (t, f) ↦
            let q = with_ve true (aim_at t p) in
            let m : Sends p (debug_target_enable q).0 = also (aim-Sends t p) (enable-Sends q) in
            rw (e, f, param_debug_target_set)
              (if-Sends p (t == 0) (force_close p, done 0) _ (force_close-Sends p)
                (if-Sends p (is_valid_ether_addr (aim_at t p).target.mac) _ _
                  (settled-Sends p (debug_target_enable q).0 (debug_target_enable q).1 m)
                  (aim-Sends t p)))
      ]
    ]

pub set_parameter-Sends :
    (a : Parameter) (k : Reading) (val : Bytes) (p : Settings) → Sends p (set_parameter a k val p).0
unfolding set_parameter
set_parameter-Sends target_mac k val p =
    Quiet-Sends p (param_target_mac_set k.strings val p) (target_mac-Quiet k.strings val p)
set_parameter-Sends valid k val p = target_ve-Sends k.strings val p
set_parameter-Sends vci k val p =
    Quiet-Sends p (param_vci_set k.strings val p) (vci-Quiet k.strings val p)
set_parameter-Sends use_gw k val p =
    Quiet-Sends p (param_target_use_gw_set k.strings val p) (use_gw-Quiet k.strings val p)
set_parameter-Sends nhmac k val p =
    Quiet-Sends p (param_nhmac_set k.strings val p) (nhmac-Quiet k.strings val p)
set_parameter-Sends encap k val p =
    Quiet-Sends p (param_encap_set k.strings val p) (encap-Quiet k.strings val p)
set_parameter-Sends drop_pct k val p =
    Quiet-Sends p (param_drop_pct_set k.strings val p) (drop_pct-Quiet k.strings val p)
set_parameter-Sends shutdown k val p =
    Quiet-Sends p (param_shutdown_set k.strings val p) (shutdown-Quiet k.strings val p)
set_parameter-Sends wkstep k val p =
    Quiet-Sends p (param_wkstep_set k.strings val p) (wkstep-Quiet k.strings val p)
set_parameter-Sends prefix k val p =
    Quiet-Sends p (param_prefix_set k.readers k.dev_get_by_name val p)
      (prefix-Quiet k.readers k.dev_get_by_name val p)
set_parameter-Sends ipv4_dip k val p =
    Quiet-Sends p (param_ipv4_dip_set k.readers val p) (ipv4_dip-Quiet k.readers val p)
set_parameter-Sends target k val p = debug_target-Sends k.readers val p
