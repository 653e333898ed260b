-- ===== src/Gateway/Timer.antt =====
-- The gateway's tick (ttp_gw_ctl_tmr_cb in modttpip/ttpip.c): its address is advertised to the zone's
-- nodes, the table's entries grow older, and the other gateways hear of the addresses withdrawn.
pub mod Walk
pub mod Aging
use ttpoe.Common.{ℕ, ◌+◌, true, false, ◌||◌, not, none, some, List, [], ◌∷◌, leb, if◌then◌else◌}
use ttpoe.World.{Skb}
use ttpoe.Frame.{ethertype_ttpoe, eth_hlen, l3_hlen, put8, put16, put_mac, put_mac24, prepare_tth}
use ttpoe.Index.{slots}
use ttpoe.Gateway.{Gw, remote_del, gateway_add, mac_ageout_old, mac_ageout_max, with_entry, xmit}
use ttpoe.Gateway.Packet.{ttpip_skb_aloc, mcast_mac_create, clear8, gw_ctl_send}

-- The advertisement: a frame to all nodes, an OPEN_NACK of length 2 with the gateway's zone.
abbrev pub advertisement : Gw → Skb → Skb
advertisement g skb =
    let a = skb.dat in
    let t = a + eth_hlen + l3_hlen in
    let me = g.net.dev_addr g.tsla_dev in
    let b =
      prepare_tth (a + eth_hlen) 0 true
        (put16 (a + 12) ethertype_ttpoe (mcast_mac_create a (put_mac (a + 6) me skb.bytes))) in
    let b1 = put8 (t + 9) g.myzn (
      put8 (t + 8) 2
        (put16 (t + 6) 2 (put_mac24 (t + 3) (λ i. me (i + 3)) (put_mac24 t me (clear8 t b))))) in
    record skb { bytes = b1; protocol = ethertype_ttpoe }

-- The other gateways hear that a local address is withdrawn.
unfoldable pub withdraw : ℕ → Gw → Gw
unfolding gw_ctl_send
withdraw s g = if not (g.entries s).rem then gw_ctl_send (g.entries s).mac remote_del g else g

-- One entry of the walk.
unfoldable pub age_entry : ℕ → Gw → Gw
unfolding withdraw
age_entry s g =
    let e = g.entries s in
    let told = withdraw s g in
    let older : Gw → Gw = with_entry s (λ x. record x { age = x.age + 1 }) in
    if not e.vld || e.prm
    then g
    else if leb mac_ageout_old e.age
    then if leb mac_ageout_max e.age
      then with_entry s (λ x. record x { vld = false }) told
      else older told
    else older g

-- The walk by rb_first and rb_next: the nodes from the left to the right.
unfoldable pub age_entries : List ℕ → Gw → Gw
unfolding age_entry
age_entries [] g = g
age_entries (s ∷ xs) g = age_entries xs (age_entry s g)

-- The timer is set again unless the gateway is shut down.
abbrev pub restart_ctl_tmr : Gw → Gw
restart_ctl_tmr g = if g.shutdown then g else record g {
  gw_ctl_tmr = record g.gw_ctl_tmr {
    tmh = some (g.jiffies + g.kernel.msecs_to_jiffies g.gw_ctl_tmr.exp);
  };
}

-- The advertisement, the walk, and the gateway's own address for the other gateways.
unfoldable pub tick : Skb → Gw → Gw
unfolding age_entries
tick skb g =
    let g2 = xmit g.tsla_dev (advertisement g skb) g in
    let g3 = age_entries (slots g2.rbroot) g2 in
    gw_ctl_send (g3.net.dev_addr g3.tsla_dev) gateway_add g3

-- `ttp_gw_ctl_tmr_cb`.
unfoldable pub gw_ctl_tmr_cb : Gw → Gw
unfolding tick
gw_ctl_tmr_cb g =
    let (g1, new) = ttpip_skb_aloc g in
    let ticked : Gw = elim new [ none ↦ g1 | some skb ↦ tick skb g1 ] in
    restart_ctl_tmr (if g.shutdown then g else ticked)
