-- ===== src/Gateway/Start.antt =====
-- The gateway's own zone and its start and end (ttp_param_zones_scan_ipv4 and _ipv6, ttpip_init and
-- ttpip_exit in modttpip/ttpip.c).
use ttpoe.Common.{
  ℕ, zero, suc, ◌+◌, ◌-◌, Bool, true, false, ◌&&◌, ◌||◌, not, none, some, List, [], ◌∷◌, ◌==◌,
  if◌then◌else◌,
}
use ttpoe.World.Access.{is_some}
use ttpoe.Frame.{ethertype_ip}
use ttpoe.Gateway.{
  Gw, IfAddr, Errno, success, eexist, einval, enodev, enetdown, max_num_zones, gateway_slf,
  with_zone, zcfg, zone_valid,
}
use ttpoe.Gateway.Packet.{ethertype_ipv6}
use ttpoe.Gateway.Control.{mactbl_add}

-- Whether an address is the one given for a zone, in version 4 or 6.
abbrev pub is_zone_addr : Gw → ℕ → ℕ → ℕ → Bool
is_zone_addr g ver zn a =
    ((g.zones zn).ver == ver) && ((if ver == 4 then (g.zones zn).da4 else (g.zones zn).da6) == a)

-- The zone `zn` becomes the gateway's own, on a device.
abbrev pub own_zone : ℕ → ℕ → ℕ → IfAddr → Gw → Gw
own_zone ver zn dev ifa g =
    record (with_zone zn
      (λ z. record z {
        zon = zn;
        dev = some dev;
        pfl = ifa.ifa_prefixlen;
        mac = g.net.dev_addr dev;
      })
      g) {
        myzn = zn;
        lyr3_dev = some dev;
        lyr3_type = if ver == 4 then ethertype_ip else ethertype_ipv6;
      }

-- The loop over `n` zones from `zn` on, for one address of a device.
unfoldable pub scan_zones : ℕ → ℕ → ℕ → ℕ → IfAddr → Gw → Gw
unfolding zcfg
scan_zones zero zn ver dev ifa g = g
scan_zones (suc n) zn ver dev ifa g =
    let rest = scan_zones n (zn + 1) ver dev ifa g in
    if is_some (zcfg g zn) && is_zone_addr g ver zn ifa.ifa_address
    then if is_some (g.zones zn).dev then g else own_zone ver zn dev ifa g
    else rest

-- `ttp_param_zones_scan_ipv4` and `_ipv6` over the addresses of a device.
unfoldable pub zones_scan : ℕ → ℕ → List IfAddr → Gw → Gw
unfolding scan_zones
zones_scan ver dev [] g = g
zones_scan ver dev (x ∷ xs) g = zones_scan ver dev xs (scan_zones (max_num_zones - 1) 1 ver dev x g)

-- The devices of `ttp_param_gwips_set`: the loopback ones and those that are down are left out.
unfoldable pub scan_devices : List ℕ → Gw → Gw
unfolding zones_scan
scan_devices [] g = g
scan_devices (d ∷ ds) g =
    let scanned = zones_scan 6 d (g.net.ifaddrs6 d) (zones_scan 4 d (g.net.ifaddrs d) g) in
    scan_devices ds (if g.net.is_loopback d || not (g.net.is_up d) then g else scanned)

-- The end of `ttpip_init`: the timers run, frames and packets are received.
abbrev pub enable : Gw → Gw
enable g =
    let soon = some (g.jiffies + g.kernel.msecs_to_jiffies 100) in
    record g {
      nh_mac_tmr = record g.nh_mac_tmr { tmh = soon };
      gw_ctl_tmr = record g.gw_ctl_tmr { tmh = soon };
      packs = true;
      shutdown = false;
    }

-- Its checks of the device and of the own zone, and the entry of the gateway itself.
unfoldable pub init_on : ℕ → Gw → Gw × Errno
unfolding zone_valid zcfg mactbl_add
init_on dev g =
    let (g1, rv) = mactbl_add g.myzn (some (g.net.dev_addr dev)) gateway_slf g in
    let started : Gw × Errno = elim rv [
      | success ↦ (enable g1, success)
      | eexist ↦ (enable g1, success)
      | err ↦ (g1, err)
    ] in
    let zoned : Gw × Errno = elim (zcfg g g.myzn) [
      | none ↦ (g, enodev)
      | some my ↦ if is_some (g.zones my).dev then started else (g, enodev)
    ] in
    if not (g.net.is_up dev)
    then (g, enetdown)
    else if zone_valid g g.myzn
    then zoned
    else (g, einval)

-- `ttpip_init`.
unfoldable pub init : Gw → Gw × Errno
unfolding init_on
init g =
    let named : Gw × Errno = elim g.net.dev_by_name [
      | none ↦ (g, enodev)
      | some dev ↦ init_on dev (record g { tsla_dev = dev })
    ] in
    if g.num_gwips == 0 then (g, enodev) else named

-- `ttpip_exit`.
abbrev pub exit : Gw → Gw
exit g = record g {
  gw_ctl_tmr = record g.gw_ctl_tmr { tmh = none };
  nh_mac_tmr = record g.nh_mac_tmr { tmh = none };
  packs = false;
}
