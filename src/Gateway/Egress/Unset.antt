-- ===== src/Gateway/Egress/Unset.antt =====
-- A packet from a node that the gateway does not know.
use ttpoe.Common.{
  inl, inr, Bool-cases, ◌⊎◌, ℕ, ◌+◌, ◌≡◌, ◌≢◌, true, false, ◌||◌, none, some, ◌==◌, arith,
}
use ttpoe.World.{Skb}
use ttpoe.Frame.{Bytes}
use ttpoe.Gateway.{Gw}
use ttpoe.Gateway.Table.{mactbl_find}
use ttpoe.Gateway.Egress.{deliver_node}

-- A packet comes from an address that the table lacks, for one that it has, in a zone, and the variable for the source's
-- zone, which is not set then, holds another number than that zone: where it happens to hold zero, the packet is
-- dropped, otherwise the gateway goes through the null pointer.
pub unset_zone_decides :
    (zs zt rx t : ℕ) (src dst : Bytes) (frame : Skb) (g : Gw)
    → mactbl_find src g ≡ none
    → mactbl_find dst g ≡ some t
    → (g.entries t).zon ≢ 0
    → zs ≢ (g.entries t).zon
    → ((zs ≡ 0) × ((deliver_node zs zt rx src dst frame g).freed ≡ g.freed + 1))
      ⊎ ((zs ≢ 0) × ((deliver_node zs zt rx src dst frame g).bug ≡ true))
unset_zone_decides zs zt rx t src dst frame g lost found zoned d = elim (Bool-cases (zs == 0)) [
  | inl e ↦ inl (ground arith, dropped (ground arith))
  | inr e ↦ inr (ground arith, crashed (ground arith))
]
  where
    dropped :
        ((zs == 0) || ((g.entries t).zon == 0)) ≡ true
        → (deliver_node zs zt rx src dst frame g).freed ≡ g.freed + 1
    dropped t0 = unfold deliver_node in simp (lost, found, t0)

    crashed :
        ((zs == 0) || ((g.entries t).zon == 0)) ≡ false
        → (deliver_node zs zt rx src dst frame g).bug ≡ true
    crashed t0 =
        let t1 : (zs == (g.entries t).zon) ≡ false = ground (arith, d) in
        unfold deliver_node in simp (lost, found, t0, t1)
