-- ===== src/Param/Ipv4.antt =====
-- The parameters of the IPv4 mode, the target that is set by three bytes, and the single steps of the work queue
-- (modttpoe/param.c). An address is a number, its first byte the highest. A negative prefix length is kept as its bit pattern.
use Prim.Native.Nat.{bit_or}
use ttpoe.Common.{
  ℕ, ◌+◌, ◌-◌, ◌*◌, ◌/◌, ◌%◌, ◌^◌, true, false, ◌&&◌, ◌||◌, not, Option, none, some, List, [], ◌∷◌,
  ltb, ◌==◌, if◌then◌else◌, update,
}
use ttpoe.Fsm.{txq_ttp_close}
use ttpoe.Key.{tag_key_make}
use ttpoe.World.{World}
use ttpoe.World.Access.{with_stats, schedule_global}
use ttpoe.Frame.{Bytes, is_valid_ether_addr}
use ttpoe.Buffer.{host_part}
use ttpoe.Device.{einval, eaddrnotavail, enodev, enonet, Result, error, done, oui_mac, noc_debug_tx}
use ttpoe.Param.{
  Strings, IntRead, no_int, negative, natural, NetDev, Settings, with_ve, with_config,
  debug_target_enable,
}

-- What the kernel reads from a text: `strcspn` up to a newline, `in4_pton` with the place behind the address, `kstrtoint` for
-- base 10 from a place on, and `kstrtouint` for base 16.
pub record Readers : Type 0 where
  pub strcspn : Bytes → ℕ
  pub in4_pton : Bytes → Option (ℕ × ℕ)
  pub kstrtoint_at : Bytes → ℕ → IntRead
  pub kstrtouint_hex : Bytes → Result

-- The text without the newline that the shell puts at its end.
abbrev pub chomped : Readers → Bytes → Bytes
chomped s val = if val (s.strcspn val) == 10 then update val (s.strcspn val) 0 else val

-- An address with the host part cleared.
abbrev pub masked : ℕ → ℕ → ℕ
masked pfxlen a = a - host_part pfxlen a

-- The three low bytes of a number as those of an address.
abbrev pub low_bytes : ℕ → Bytes
low_bytes n i = n / 2 ^ (8 * (2 - i)) % 256

-- The first address of the list under the prefix.
unfoldable pub find_under : ℕ → ℕ → List ℕ → Option ℕ
find_under pfxlen prefix [] = none
find_under pfxlen prefix (a ∷ rest) =
    if masked pfxlen a == masked pfxlen prefix then some a else find_under pfxlen prefix rest

-- `ttp_param_scan_ipv4`: the source's address and key from the device's addresses.
unfoldable pub param_scan_ipv4 : NetDev → Settings → Settings × Result
param_scan_ipv4 d p =
    let c = p.world.config in
    let found : Settings × Result = elim (find_under c.ipv4_pfxlen c.ipv4_prefix d.ifa_list) [
      | none ↦ (p, error enonet)
      | some a ↦
          let kid =
            tag_key_make (some (oui_mac (low_bytes (host_part c.ipv4_pfxlen a)))) 0 false
              c.ipv4_encap in
          let p1 = with_config (record c { source_ipa = a; source_kid = kid }) p in
          if a == 0 then (p1, error enonet) else (p1, done 0)
    ] in
    if c.source_ipa == 0 then found else (p, done 0)

-- The device is looked up where it is not known yet, then its addresses are scanned.
unfoldable pub scan_dev : Option NetDev → Settings → Settings × Result
scan_dev by_name p = elim p.dev [
  | some d ↦ param_scan_ipv4 d p
  | none ↦ elim by_name [
    | none ↦ (p, error enodev)
    | some d ↦
        param_scan_ipv4 d (record (with_config (record p.world.config { dev_addr = d.addr }) p) {
          dev = some d;
          source_mac = d.addr;
        })
  ]
]

-- The prefix is masked by its length, 8 where none is set.
unfoldable pub settle_prefix : Option NetDev → Settings → Settings × Result
settle_prefix by_name p =
    let c = p.world.config in
    let n = if c.ipv4_pfxlen == 0 then 8 else c.ipv4_pfxlen in
    scan_dev by_name
      (with_config (record c { ipv4_pfxlen = n; ipv4_prefix = masked n c.ipv4_prefix }) p)

-- The length behind a slash: it is set before it is checked.
unfoldable pub set_length : Option NetDev → IntRead → Settings → Settings × Result
set_length by_name (no_int e) p = (p, error einval)
set_length by_name (negative n) p =
    (with_config (record p.world.config { ipv4_pfxlen = (2 ^ 32 - n) % 2 ^ 32 }) p, error einval)
set_length by_name (natural n) p =
    let p1 = with_config (record p.world.config { ipv4_pfxlen = n }) p in
    if ltb n 8 || ltb 32 n then (p1, error einval) else settle_prefix by_name p1

-- `ttp_param_prefix_set`; `by_name` is what `dev_get_by_name` gives.
unfoldable pub param_prefix_set : Readers → Option NetDev → Bytes → Settings → Settings × Result
param_prefix_set s by_name val p =
    let c = p.world.config in
    let text = chomped s val in
    let set : Settings × Result = elim (s.in4_pton text) [
      | none ↦ (with_config (record c { ipv4_prefix = 0 }) p, error einval)
      | some (a, tail) ↦
          let p1 = with_config (record c { ipv4_prefix = a }) p in
          if text tail == 47
          then set_length by_name (s.kstrtoint_at text (tail + 1)) p1
          else if text tail == 0
          then settle_prefix by_name p1
          else (p1, error einval)
    ] in
    if not p.named
    then (p, error einval)
    else if not c.ipv4_encap
    then (p, error einval)
    else if s.strcspn val == 0
    then (p, done 0)
    else set

-- `ttp_param_ipv4_dip_set`.
unfoldable pub param_ipv4_dip_set : Readers → Bytes → Settings → Settings × Result
param_ipv4_dip_set s val p =
    let c = p.world.config in
    let text = chomped s val in
    let set : Settings × Result = elim (s.in4_pton text) [
      | none ↦ (p, error einval)
      | some (dip, tail) ↦
          if not (text tail == 0)
          then (p, error einval)
          else if masked c.ipv4_pfxlen dip == c.ipv4_prefix
          then (record p { target = record p.target { ipa = dip } }, done 0)
          else (p, error einval)
    ] in
    if not c.ipv4_encap
    then (p, error einval)
    else if c.ipv4_pfxlen == 0
    then (p, error einval)
    else if s.strcspn val == 0
    then (p, done 0)
    else set

-- `ttp_debug_target_force_close`, and the target cleared.
unfoldable pub force_close : Settings → Settings
force_close p =
    let closed = (noc_debug_tx 0 none 0 txq_ttp_close p.target p.world).0 in
    let w = if is_valid_ether_addr p.target.mac then closed else p.world in
    record p {
      target = record { ve = false; mac = λ i. 0; ipa = 0; vc = 0; gw = false };
      world = w;
    }

-- The target of three bytes, under the prefix in the IPv4 mode.
unfoldable pub aim_at : ℕ → Settings → Settings
aim_at target p =
    let c = p.world.config in
    let mac = oui_mac (low_bytes target) in
    let low = p.target.ipa / 2 ^ 24 * 2 ^ 24 + target % 2 ^ 24 in
    let ipa =
      if c.ipv4_encap then bit_or (host_part c.ipv4_pfxlen low) c.ipv4_prefix else p.target.ipa in
    record p { target = record p.target { mac = mac; ipa = ipa } }

-- `ttp_param_debug_target_set`.
unfoldable pub param_debug_target_set : Readers → Bytes → Settings → Settings × Result
param_debug_target_set s val p =
    let c = p.world.config in
    let set : Settings × Result = elim (s.kstrtouint_hex val) [
      | error e ↦ (p, error e)
      | done target ↦
          let p1 = aim_at target p in
          let (p2, rv) = debug_target_enable (with_ve true p1) in
          let enabled : Settings × Result = elim rv [
            | error e ↦ (with_ve false p2, error e)
            | done n ↦ if n == 0 then (p2, done 0) else (with_ve false p2, done n)
          ] in
          if target == 0
          then (force_close p, done 0)
          else if is_valid_ether_addr p1.target.mac
          then enabled
          else (p1, error eaddrnotavail)
    ] in
    if c.ipv4_encap && (c.ipv4_prefix == 0) then (p, error einval) else set

-- `ttp_param_drop_pct_set`.
unfoldable pub param_drop_pct_set : Strings → Bytes → Settings → Settings × Result
param_drop_pct_set s val p = elim (s.kstrtoint val) [
  | no_int e ↦ (p, error einval)
  | negative n ↦ (p, error einval)
  | natural n ↦ if ltb 10 n then (p, error einval) else (record p { drop_pct = n }, done 0)
]

-- `ttp_param_shutdown_set`; 1 and 2 are not told apart.
unfoldable pub param_shutdown_set : Strings → Bytes → Settings → Settings × Result
param_shutdown_set s val p = elim (s.kstrtoint val) [
  | no_int e ↦ (p, error einval)
  | negative n ↦ (p, error einval)
  | natural n ↦
      if ltb 2 n
      then (p, error einval)
      else (with_config (record p.world.config { shutdown = not (n == 0) }) p, done 0)
]

-- Steps granted and the size of a step, of 16 bits each; the work queue runs on while steps are left.
abbrev pub with_steps : ℕ → ℕ → World → World
with_steps st sz w = with_stats (λ c. record c { wkq_st = st; wkq_sz = sz }) w

-- `ttp_param_wkstep_set`: `s` and `S` grant the steps again.
unfoldable pub param_wkstep_set : Strings → Bytes → Settings → Settings × Result
param_wkstep_set s val p =
    let w = p.world in
    let again = schedule_global (with_steps w.stats.wkq_sz w.stats.wkq_sz w) in
    let set : Settings × Result = elim (s.kstrtoint val) [
      | no_int e ↦ (p, error einval)
      | negative n ↦ (p, error einval)
      | natural n ↦
          let left = (n + 65535) % 65536 in
          let w1 = with_steps left n w in
          if ltb 100 n
          then (p, error einval)
          else (record p { world = if left == 0 then w1 else schedule_global w1 }, done 0)
    ] in
    if (val 0 == 83) || (val 0 == 115) then (record p { world = again }, done 0) else set
