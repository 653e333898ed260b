-- ===== src/Param.antt =====
-- The target of the character device and the modes as module parameters (modttpoe/param.c). Each setter takes the text that
-- the user writes; the functions of the kernel's that read numbers from a text are the record Strings.
pub mod Guard
pub mod Ipv4
pub mod Own
use ttpoe.Common.{
  ℕ, zero, suc, ◌+◌, ◌*◌, ◌%◌, Bool, true, false, ◌&&◌, not, Option, none, some, List, ltb, leb,
  ◌==◌, if◌then◌else◌,
}
use ttpoe.Fsm.{txq_ttp_open}
use ttpoe.Key.{vc_is_valid}
use ttpoe.World.{World, Config}
use ttpoe.Frame.{Bytes, put8, ethertype_ip, is_valid_ether_addr}
use ttpoe.Receive.{same_mac}
use ttpoe.Device.{
  HostInfo, Errno, einval, eaddrnotavail, eaddrinuse, erange, eprototype, Result, error, done,
  noc_debug_tgt, noc_debug_tx,
}

-- What reading a number from a text gives: an error, or a number with its sign.
pub data IntRead : Type 0 where
  no_int : Errno → IntRead
  negative : ℕ → IntRead
  natural : ℕ → IntRead

-- `kstrtoint` for base 10, `kstrtouint` for base 10 of the text without the blanks around it, and `simple_strtol` for base 16
-- from a place in the text on.
pub record Strings : Type 0 where
  pub kstrtoint : Bytes → IntRead
  pub kstrtouint : Bytes → Result
  pub simple_strtol : Bytes → ℕ → ℕ

-- A network device: its address, whether it is up, and its IPv4 addresses.
pub record NetDev : Type 0 where
  pub addr : Bytes
  pub is_up : Bool
  pub ifa_list : List ℕ

-- `ttp_debug_target`, the address of `ttp_debug_source`, the type and the device of `ttp_etype_dev`, whether `ttp_dev` names a
-- device, the rate of dropped frames, and the state of the module.
pub record Settings : Type 0 where
  pub named : Bool
  pub dev : Option NetDev
  pub drop_pct : ℕ
  pub target : HostInfo
  pub source_mac : Bytes
  pub etype : ℕ
  pub world : World

-- The bytes of an address from the number `rv` on: a colon stands after all but the last, a newline or the end after that.
unfoldable read_mac : Strings → Bytes → ℕ → ℕ → Bytes → Option Bytes
read_mac s val zero rv mac = some mac
read_mac s val (suc left) rv mac =
    let rest = read_mac s val left (suc rv) (put8 rv (s.simple_strtol val (3 * rv)) mac) in
    let c = val (3 * rv + 2) in
    if ltb rv 5 && not (c == 58)
    then none
    else if (rv == 5) && not (c == 10) && not (c == 0)
    then none
    else rest

-- 0 or 1, as the setters of flags take it.
unfoldable pub flag_of : IntRead → Option Bool
flag_of (no_int e) = none
flag_of (negative n) = none
flag_of (natural n) = if n == 0 then some false else if n == 1 then some true else none

-- The address, unless it is not valid.
unfoldable pub valid_mac : Strings → Bytes → Result × Bytes
unfolding read_mac
valid_mac s val = elim (read_mac s val 6 0 (λ i. 0)) [
  | none ↦ (error einval, λ i. 0)
  | some mac ↦ if is_valid_ether_addr mac then (done 0, mac) else (error eaddrnotavail, mac)
]

-- `ttp_param_target_mac_set`: another address than the target's own makes the target invalid.
unfoldable pub param_target_mac_set : Strings → Bytes → Settings → Settings × Result
unfolding valid_mac
param_target_mac_set s val p =
    let (rv, mac) = valid_mac s val in
    let aimed = record p { target = record p.target { ve = false; mac = mac } } in
    let taken : Settings × Result = elim rv [
      | error e ↦ (p, error e)
      | done c ↦
          if same_mac p.source_mac mac
          then (p, error eaddrinuse)
          else if same_mac p.target.mac mac
          then (p, done 0)
          else (aimed, done 0)
    ] in
    if p.world.config.ipv4_encap then (p, error einval) else taken

-- `ttp_debug_target_enable`.
unfoldable pub debug_target_enable : Settings → Settings × Result
debug_target_enable p =
    let c = p.world.config in
    let (w1, rv, kid) = noc_debug_tgt p.target p.world in
    let (w2, sent) = noc_debug_tx 0 none 0 txq_ttp_open p.target w1 in
    let opened : Settings × Result = elim rv [
      | error e ↦ (record p { world = w1 }, error e)
      | done n ↦ (record p { world = w2 }, sent)
    ] in
    if c.ipv4_encap && (c.ipv4_prefix == 0) then (p, error einval) else opened

abbrev pub with_ve : Bool → Settings → Settings
with_ve b p = record p { target = record p.target { ve = b } }

-- `ttp_param_target_ve_set`: the target is invalid again where it cannot be reached.
unfoldable pub param_target_ve_set : Strings → Bytes → Settings → Settings × Result
unfolding flag_of
param_target_ve_set s val p =
    let (p1, rv) = debug_target_enable (with_ve true p) in
    let turned_on : Settings × Result = elim rv [
      | error e ↦ (with_ve false p1, error e)
      | done n ↦ if n == 0 then (p1, done 0) else (with_ve false p1, done n)
    ] in
    elim (flag_of (s.kstrtoint val)) [
      | none ↦ (p, error einval)
      | some b ↦
          if p.target.ve
          then if b then (p, done 0) else (with_ve false p, done 0)
          else if b
          then turned_on
          else (p, done 0)
    ]

-- `ttp_param_vci_set`.
unfoldable pub param_vci_set : Strings → Bytes → Settings → Settings × Result
param_vci_set s val p = elim (s.kstrtouint val) [
  | error e ↦ (p, error e)
  | done n ↦
      if vc_is_valid n
      then (record p { target = record p.target { vc = n } }, done 0)
      else (p, error erange)
]

-- `ttp_param_target_use_gw_set`.
unfoldable pub param_target_use_gw_set : Strings → Bytes → Settings → Settings × Result
unfolding flag_of
param_target_use_gw_set s val p = elim (flag_of (s.kstrtoint val)) [
  | none ↦ (p, error einval)
  | some b ↦
      if p.world.config.ipv4_encap && b
      then (p, error eprototype)
      else (record p { target = record p.target { gw = b } }, done 0)
]

abbrev pub with_config : Config → Settings → Settings
with_config c p = record p { world = record p.world { config = c } }

-- `ttp_param_nhmac_set`.
unfoldable pub param_nhmac_set : Strings → Bytes → Settings → Settings × Result
unfolding valid_mac
param_nhmac_set s val p =
    let (rv, mac) = valid_mac s val in
    elim rv [
      | error e ↦ (p, error e)
      | done n ↦
          if same_mac p.world.config.nhmac mac
          then (p, error eaddrinuse)
          else (with_config (record p.world.config { nhmac = mac }) p, done 0)
    ]

-- `ttp_param_encap_set`.
unfoldable pub param_encap_set : Strings → Bytes → Settings → Settings × Result
unfolding flag_of
param_encap_set s val p = elim (flag_of (s.kstrtoint val)) [
  | none ↦ (p, error einval)
  | some b ↦
      let set = with_config (record p.world.config { ipv4_encap = b }) p in
      if p.target.gw && b
      then (p, error eprototype)
      else if b
      then (record set { etype = ethertype_ip }, done 0)
      else (set, done 0)
]
