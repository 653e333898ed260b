-- ===== src/Gateway/Ingress/Safety.antt =====
-- Which frames are forwarded, and where to.
use ttpoe.Common.{ℕ, ◌+◌, ◌≡◌, ◌≢◌, ◌⊎◌, true, none, some, [], ◌∷◌, ◌++◌}
use ttpoe.World.{Skb}
use ttpoe.Frame.{Bytes, is_valid_ether_addr}
use ttpoe.Gateway.{Gw, gw_bug, zcfg}
use ttpoe.Gateway.Table.{mactbl_find}
use ttpoe.Gateway.Ingress.{encapsulate, to_gateway}

-- The frame is dropped and nothing is sent.
abbrev pub IsDropped : Gw → Gw → Type 0
IsDropped g g' = (g'.sent ≡ g.sent) × (g'.freed ≡ g.freed + 1)

-- What a frame needs to be sent on: both addresses in the table, in zones that differ, the target's zone set up, its gateway's
-- address valid, and the packet made.
pub record IsRouted (src dst : Bytes) (skb : Skb) (g : Gw) : Type 0 where
  pub s : ℕ
  pub t : ℕ
  pub packet : Skb × ℕ
  pub source : mactbl_find src g ≡ some s
  pub target : mactbl_find dst g ≡ some t
  pub known : ((g.entries s).zon ≢ 0) × ((g.entries t).zon ≢ 0)
  pub differ : (g.entries s).zon ≢ (g.entries t).zon
  pub zone : zcfg g (g.entries t).zon ≡ some (g.entries t).zon
  pub gateway : is_valid_ether_addr (g.zones (g.entries t).zon).mac ≡ true
  pub inside : encapsulate g (g.zones (g.entries t).zon) skb ≡ some packet

-- It is sent once, in a packet to the gateway of the target's zone.
pub record IsForwarded (src dst : Bytes) (skb : Skb) (g g' : Gw) : Type 0 where
  pub way : IsRouted src dst skb g
  pub dev : ℕ
  pub device : (g.zones (g.entries way.t).zon).dev ≡ some dev
  pub sent :
      g'.sent
      ≡ g.sent
        ++ (record {
          dev = dev;
          skb = to_gateway g (g.zones (g.entries way.t).zon) dev way.packet.0 way.packet.1;
        }
            ∷ [])
  pub freed : g'.freed ≡ g.freed

-- The target's zone has no device, and the code follows the null pointer.
pub record IsStuck (src dst : Bytes) (skb : Skb) (g g' : Gw) : Type 0 where
  pub way : IsRouted src dst skb g
  pub no_device : (g.zones (g.entries way.t).zon).dev ≡ none
  pub stuck : g' ≡ gw_bug g

-- The three ways of a frame after the lookups.
abbrev pub RouteOutcome : Bytes → Bytes → Skb → Gw → Gw → Type 0
RouteOutcome src dst skb g g' =
    IsDropped g g' ⊎ IsForwarded src dst skb g g' ⊎ IsStuck src dst skb g g'

module _ (rx : ℕ) (src dst : Bytes) (skb : Skb) (g : Gw) where
  abbrev routed :
      (s t : ℕ)
      → (mactbl_find src g ≡ some s)
        × (mactbl_find dst g ≡ some t)
        × ((g.entries s).zon ≢ 0)
        × ((g.entries t).zon ≢ 0)
        × ((g.entries s).zon ≢ (g.entries t).zon)
      → zcfg g (g.entries t).zon ≡ some (g.entries t).zon
      → is_valid_ether_addr (g.zones (g.entries t).zon).mac ≡ true
      → (q : Skb × ℕ) → encapsulate g (g.zones (g.entries t).zon) skb ≡ some q
      → IsRouted src dst skb g
  routed s t l v m q e = record {
    s = s;
    t = t;
    packet = q;
    source = l.0;
    target = l.1;
    known = (l.2, l.3);
    differ = l.4;
    zone = v;
    gateway = m;
    inside = e;
  }
