-- ===== src/Gateway/Egress.antt =====
-- From the other gateways to the zone's nodes (ttpip_pkt_recv in modttpip/ttpip.c). A packet's buffer
-- comes with the data behind its Ethernet header. The code tests two zone numbers that it has not set
-- where a lookup fails: what they hold then, `zs` and `zt`, is an argument.
pub mod Headers
pub mod Message
pub mod Through
pub mod Unset
use ttpoe.Common.{
  ℕ, ◌+◌, ◌-◌, ◌*◌, ◌%◌, ◌^◌, true, ◌&&◌, ◌||◌, Option, none, some, ltb, ◌==◌, if◌then◌else◌,
}
use ttpoe.World.{Skb}
use ttpoe.Frame.{
  Bytes, ethertype_ttpoe, ethertype_ip, eth_hlen, l3_hlen, v6_hlen, min_frame_len, max_frame_len,
  get16, get32, put16, put_mac, prepare_tth,
}
use ttpoe.Gateway.{Gw, zcfg, drop_skb, xmit, gw_bug}
use ttpoe.Gateway.Table.{mactbl_find}
use ttpoe.Gateway.Packet.{ethertype_ipv6, skb_trim, skb_pull, skb_push, max_len}
use ttpoe.Gateway.Control.{gw_ctl_recv}
use ttpoe.Gateway.Ingress.{rnd_flip, mac_at, node_mac, make_headroom, count_rx, count_tx}

abbrev pub get128 : Bytes → ℕ → ℕ
get128 b a =
    get32 b a * 2 ^ 96 + get32 b (a + 4) * 2 ^ 64 + get32 b (a + 8) * 2 ^ 32 + get32 b (a + 12)

-- The version of a packet for this gateway, from the ethertype and the IP header at the data.
unfoldable pub pkt_version : Gw → ℕ → Skb → Option ℕ
pkt_version g my skb =
    let b = skb.bytes in
    let p = skb.dat in
    let proto = get16 b (p - 2) in
    if proto == ethertype_ip
    then if (b (p + 9) == 146) && (get32 b (p + 16) == (g.zones my).da4) then some 4 else none
    else if proto == ethertype_ipv6
    then if (b (p + 6) == 146) && (get128 b (p + 24) == (g.zones my).da6) then some 6 else none
    else none

-- The checks before: the version of a packet that is taken.
unfoldable pub pkt_accepts : Gw → ℕ → Skb → Option ℕ
unfolding pkt_version rnd_flip zcfg
pkt_accepts g rnd skb =
    let mine : Option ℕ = elim (zcfg g g.myzn) [ none ↦ none | some my ↦ pkt_version g my skb ] in
    if g.shutdown || ltb max_frame_len skb.len || rnd_flip g.drop_pct rnd then none else mine

-- The place of the shim header, the packet's total length, and the buffer without its IP header.
abbrev pub shim_of : ℕ → Skb → ℕ
shim_of ver b = if ver == 4 then b.dat + l3_hlen else b.dat + v6_hlen

abbrev pub tot_len_of : ℕ → Skb → ℕ
tot_len_of ver b =
    if ver == 4 then get16 b.bytes (b.dat + 2) else (get16 b.bytes (b.dat + 4) + v6_hlen) % 2 ^ 16

abbrev pub strip_ip : ℕ → Skb → Skb
strip_ip ver b = if ver == 4 then skb_pull (b.bytes b.dat % 16 * 4) b else skb_pull v6_hlen b

-- The frame for the node `dest`: the type header and the Ethernet header before the data, and the padding.
unfoldable pub to_node : Gw → Bytes → ℕ → Skb → Skb
unfolding prepare_tth
to_node g dest tot_len bare =
    let typed = skb_push l3_hlen bare in
    let b1 = prepare_tth typed.dat typed.len true typed.bytes in
    let whole = skb_push eth_hlen typed in
    let b2 =
      put16 (whole.dat + 12) ethertype_ttpoe
        (put_mac whole.dat dest (put_mac (whole.dat + 6) (g.net.dev_addr g.tsla_dev) b1)) in
    let trimmed =
      skb_trim (max_len ((tot_len + eth_hlen) % 2 ^ 16) min_frame_len)
        (record whole { bytes = b2; protocol = ethertype_ttpoe }) in
    record trimmed { len = max_len (trimmed.len % 2 ^ 16) min_frame_len }

-- The zone of an entry, or what the variable holds.
abbrev pub zone_or : ℕ → Option ℕ → Gw → ℕ
zone_or z none g = z
zone_or z (some s) g = (g.entries s).zon

-- The counters; an entry that is not there is the null pointer.
abbrev pub count_both : Option ℕ → Option ℕ → ℕ → ℕ → Gw → Gw
count_both (some s) (some t) rx tx g = count_tx t tx (count_rx s rx g)
count_both _ _ rx tx g = gw_bug g

-- The end: the two entries and the two zones decide.
unfoldable pub deliver_node : ℕ → ℕ → ℕ → Bytes → Bytes → Skb → Gw → Gw
deliver_node zs zt rx_byt src dst frame g =
    let mcs = mactbl_find src g in
    let mct = mactbl_find dst g in
    let z1 = zone_or zs mcs g in
    let z2 = zone_or zt mct g in
    if (z1 == 0) || (z2 == 0)
    then drop_skb g
    else if z1 == z2
    then drop_skb g
    else xmit g.tsla_dev frame (count_both mcs mct rx_byt frame.len g)

-- A control packet is read and dropped, any other one goes to its node.
unfoldable pub handle_pkt : ℕ → ℕ → ℕ → ℕ → Skb → Gw → Gw
unfolding gw_ctl_recv to_node deliver_node
handle_pkt zs zt rx_byt ver b g =
    let t = shim_of ver b in
    let frame = to_node g (node_mac b.bytes (t + 3)) (tot_len_of ver b) (strip_ip ver b) in
    if get16 b.bytes (t + 6) == 2
    then drop_skb (gw_ctl_recv (mac_at b.bytes t) t b.bytes g)
    else deliver_node zs zt (rx_byt % 2 ^ 16) (node_mac b.bytes t) (node_mac b.bytes (t + 3)) frame
        g

-- `ttpip_pkt_recv`.
unfoldable pub pkt_recv : ℕ → ℕ → ℕ → Skb → Gw → Gw
unfolding pkt_accepts make_headroom handle_pkt
pkt_recv zs zt rnd skb g =
    let (g1, room) = make_headroom skb g in
    elim (pkt_accepts g rnd skb) [
      | none ↦ drop_skb g
      | some ver ↦ elim room [ none ↦ drop_skb g1 | some b ↦ handle_pkt zs zt skb.len ver b g1 ]
    ]
