-- ===== src/Gateway/Resolve.antt =====
-- The next hops to the other zones' gateways (ttp_nh4_mac_resolve, ttp_nh6_mac_resolve,
-- ttp_nhmac_resolve, ttp_all_nhmacs_resolve and the timer ttp_nh_mac_tmr_cb in modttpip/ttpip.c).
-- Routes, neighbours and the addresses of devices are the kernel's, in `Net`.
pub mod Silent
pub mod Slow
use ttpoe.Common.{
  ℕ, zero, suc, ◌+◌, ◌-◌, ◌*◌, ◌/◌, ◌^◌, Bool, false, ◌||◌, not, Option, none, some, List, [], ◌∷◌,
  ◌++◌, leb, ◌==◌, if◌then◌else◌,
}
use ttpoe.Frame.{Bytes, is_valid_ether_addr}
use ttpoe.Gateway.{
  Gw, ZoneCfg, Route, IfAddr, Errno, success, eagain, enetunreach, enodev, ehostunreach,
  max_num_zones, with_zone, gw_bug, zcfg, myzone,
}

-- The first address of a list whose network, by the length of its prefix, holds another one of `w` bits.
abbrev pub in_subnet : ℕ → ℕ → IfAddr → Bool
in_subnet w nh ifa =
    nh / 2 ^ (w - ifa.ifa_prefixlen) == ifa.ifa_address / 2 ^ (w - ifa.ifa_prefixlen)

unfoldable pub source_addr : ℕ → ℕ → List IfAddr → Option ℕ
source_addr w nh [] = none
source_addr w nh (x ∷ xs) =
    let rest = source_addr w nh xs in if in_subnet w nh x then some x.ifa_address else rest

abbrev pub or_old : Option ℕ → ℕ → ℕ
or_old none a = a
or_old (some b) a = b

-- The part that both versions share, for addresses of `w` bits: `ifaddrs` are the addresses of the route's
-- device, `keep` stores the source address that is found. First the end, with what the kernel knows of the
-- next hop `nh`.
unfoldable pub reach :
    ℕ → ℕ → List IfAddr → (Option ℕ → ZoneCfg → ZoneCfg) → ℕ → Option Bytes → Gw → Gw × Errno
unfolding source_addr
reach w nh ifaddrs keep zn none g = (g, ehostunreach)
reach w nh ifaddrs keep zn (some ha) g =
    let g1 = with_zone zn (λ z. record z { mac = ha }) g in
    if is_valid_ether_addr ha
    then (with_zone zn (keep (source_addr w nh ifaddrs)) g1, success)
    else (record g1 { resolving = g1.resolving ++ (nh ∷ []) }, eagain)

-- Then the whole, from the route on; `da` is the gateway's address.
unfoldable pub resolve_over :
    ℕ
    → ℕ
    → (Route → ℕ → Option Bytes)
    → (ℕ → List IfAddr)
    → (Option ℕ → ZoneCfg → ZoneCfg)
    → ℕ
    → Option Route
    → Gw
    → Gw × Errno
unfolding reach
resolve_over w da neigh ifaddrs keep zn none g = (g, enetunreach)
resolve_over w da neigh ifaddrs keep zn (some rt) g =
    let nh = if rt.uses_gateway then rt.gateway else da in
    let g1 = with_zone zn (λ z. record z { dev = some rt.dev; gwy = rt.uses_gateway }) g in
    if g.net.is_loopback rt.dev || not (g.net.is_up rt.dev)
    then (g, enodev)
    else reach w nh (ifaddrs rt.dev) keep zn (neigh rt nh) g1

-- `ttp_nh4_mac_resolve` and `ttp_nh6_mac_resolve`.
unfoldable pub nh4_mac_resolve : ℕ → Gw → Gw × Errno
unfolding resolve_over
nh4_mac_resolve zn g =
    let da = (g.zones zn).da4 in
    resolve_over 32 da g.net.neigh g.net.ifaddrs (λ o z. record z { sa4 = or_old o z.sa4 }) zn
      (g.net.route da) g

unfoldable pub nh6_mac_resolve : ℕ → Gw → Gw × Errno
unfolding resolve_over
nh6_mac_resolve zn g =
    let da = (g.zones zn).da6 in
    resolve_over 128 da g.net.neigh6 g.net.ifaddrs6 (λ o z. record z { sa6 = or_old o z.sa6 }) zn
      (g.net.route6 da) g

-- `ttp_nhmac_resolve` for a zone.
unfoldable pub nhmac_resolve : ℕ → Gw → Gw × Errno
unfolding nh4_mac_resolve nh6_mac_resolve
nhmac_resolve zn g =
    let z = g.zones zn in
    if is_valid_ether_addr z.mac
    then (g, success)
    else if z.ver == 4
    then nh4_mac_resolve zn g
    else if z.ver == 6
    then nh6_mac_resolve zn g
    else (gw_bug g, success)

-- The loop of `ttp_all_nhmacs_resolve` over `n` zones from `zn` on, with the result so far.
unfoldable pub resolve_from : ℕ → ℕ → Errno → Gw → Gw × Errno
unfolding nhmac_resolve zcfg
resolve_from zero zn rv g = (g, rv)
resolve_from (suc n) zn rv g =
    let skip = resolve_from n (zn + 1) rv g in
    let (g1, ir) = nhmac_resolve zn g in
    let later = resolve_from n (zn + 1) rv g1 in
    let again = resolve_from n (zn + 1) eagain g1 in
    let here : Gw × Errno = elim ir [ success ↦ later | eagain ↦ again | err ↦ (g1, err) ] in
    let known : Gw × Errno = elim (zcfg g zn) [ none ↦ skip | some z ↦ here ] in
    if myzone g zn then skip else known

unfoldable pub all_nhmacs_resolve : Gw → Gw × Errno
unfolding resolve_from
all_nhmacs_resolve g = resolve_from (max_num_zones - 1) 1 success g

abbrev pub start_nh_tmr : ℕ → Gw → Gw
start_nh_tmr wait g = record g {
  nh_mac_tmr = record g.nh_mac_tmr { tmh = some (g.jiffies + wait) };
}

abbrev pub set_try : ℕ → Gw → Gw
set_try n g = record g { nh_mac_tmr = record g.nh_mac_tmr { try = n } }

-- A reset that is asked for.
abbrev pub reset_tmr : Gw → Gw
reset_tmr g =
    if g.nh_mac_tmr.rst
    then record g { nh_mac_tmr = record g.nh_mac_tmr { rst = false; try = 0 } }
    else g

abbrev pub tick_wait : Gw → ℕ
tick_wait g = g.kernel.msecs_to_jiffies g.gw_ctl_tmr.exp

-- One try; the timer is set again where an address was asked for.
abbrev pub retry : Errno → Gw → Gw
retry eagain g =
    start_nh_tmr (tick_wait g * (if g.nh_mac_tmr.try == 0 then 1 else 4))
      (set_try (g.nh_mac_tmr.try + 1) g)
retry _ g = g

unfoldable pub attempt : Gw → Gw
unfolding all_nhmacs_resolve
attempt g = let (g1, rv) = all_nhmacs_resolve g in retry rv g1

-- `ttp_nh_mac_tmr_cb`: up to five tries, the later ones four times as far apart; then a slow round that
-- tries no more until the timer is reset.
unfoldable pub nh_mac_tmr_cb : Gw → Gw
unfolding attempt
nh_mac_tmr_cb g =
    let g1 = reset_tmr g in
    if g.shutdown
    then g
    else if leb g1.nh_mac_tmr.max g1.nh_mac_tmr.try
    then start_nh_tmr (tick_wait g1 * 50) (set_try (g1.nh_mac_tmr.max + 1) g1)
    else attempt g1
