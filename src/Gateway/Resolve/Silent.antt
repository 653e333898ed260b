-- ===== src/Gateway/Resolve/Silent.antt =====
-- The resolution of next hops leaves frames alone.
use ttpoe.Common.{
  not, ℕ, ◌≡◌, refl, Bool, true, false, ◌||◌, Option, none, some, List, ◌==◌, if◌then◌else◌,
}
use ttpoe.Frame.{Bytes, is_valid_ether_addr}
use ttpoe.Gateway.{Gw, gw_bug, success, enodev, ZoneCfg, Errno, with_zone, Route, IfAddr}
use ttpoe.Gateway.Resolve.{
  reach, nhmac_resolve, nh4_mac_resolve, nh6_mac_resolve, resolve_over, or_old,
}

-- A resolution sends and frees nothing of ours.
pub record Silent (g g' : Gw) : Type 0 where
  pub sent : g'.sent ≡ g.sent
  pub freed : g'.freed ≡ g.freed

Silent-if :
    (b : Bool) (g : Gw) (x y : Gw × Errno)
    → Silent g x.0
    → Silent g y.0
    → Silent g (if b then x else y).0
Silent-if true g x y p q = p
Silent-if false g x y p q = q

Silent-refl : (g : Gw) → Silent g g
Silent-refl g = record { sent = refl; freed = refl }

reach-Silent :
    (w nh : ℕ) (xs : List IfAddr) (keep : Option ℕ → ZoneCfg → ZoneCfg) (zn : ℕ) (o : Option Bytes)
    (g : Gw)
    → Silent g (reach w nh xs keep zn o g).0
unfolding reach
reach-Silent w nh xs keep zn none g = Silent-refl g
reach-Silent w nh xs keep zn (some ha) g =
    Silent-if (is_valid_ether_addr ha) g _ _ (record { sent = refl; freed = refl })
      (record { sent = refl; freed = refl })

resolve_over-Silent :
    (w da : ℕ) (neigh : Route → ℕ → Option Bytes) (ifaddrs : ℕ → List IfAddr)
    (keep : Option ℕ → ZoneCfg → ZoneCfg) (zn : ℕ) (o : Option Route) (g : Gw)
    → Silent g (resolve_over w da neigh ifaddrs keep zn o g).0
unfolding resolve_over
resolve_over-Silent w da neigh ifaddrs keep zn none g = Silent-refl g
resolve_over-Silent w da neigh ifaddrs keep zn (some rt) g =
    let nh = if rt.uses_gateway then rt.gateway else da in
    let g1 = with_zone zn (λ z. record z { dev = some rt.dev; gwy = rt.uses_gateway }) g in
    let r = reach-Silent w nh (ifaddrs rt.dev) keep zn (neigh rt nh) g1 in
    Silent-if (g.net.is_loopback rt.dev || not (g.net.is_up rt.dev)) g (g, enodev)
      (reach w nh (ifaddrs rt.dev) keep zn (neigh rt nh) g1) (Silent-refl g)
      (record { sent = r.sent; freed = r.freed })

pub nhmac_resolve-Silent : (zn : ℕ) (g : Gw) → Silent g (nhmac_resolve zn g).0
unfolding nhmac_resolve nh4_mac_resolve nh6_mac_resolve
nhmac_resolve-Silent zn g =
    let z = g.zones zn in
    let six =
      resolve_over-Silent 128 z.da6 g.net.neigh6 g.net.ifaddrs6
        (λ o y. record y { sa6 = or_old o y.sa6 }) zn (g.net.route6 z.da6) g in
    let four =
      resolve_over-Silent 32 z.da4 g.net.neigh g.net.ifaddrs
        (λ o y. record y { sa4 = or_old o y.sa4 }) zn (g.net.route z.da4) g in
    let none_left =
      Silent-if (z.ver == 6) g (nh6_mac_resolve zn g) (gw_bug g, success) six
        (record { sent = refl; freed = refl }) in
    Silent-if (is_valid_ether_addr z.mac) g (g, success) _ (Silent-refl g)
      (Silent-if (z.ver == 4) g (nh4_mac_resolve zn g) _ four none_left)
