-- ===== src/Gateway/Ingress.antt =====
-- From the zone's nodes to the other gateways (ttpip_frm_recv in modttpip/ttpip.c, ttp_rnd_flip in
-- include/ttp.h). A frame's buffer comes with the data behind its Ethernet header. Where more headroom
-- is made, the pointers taken before are read as if they had moved along.
pub mod Safety
use Prim.Native.Nat.{bit_and, bit_xor}
use ttpoe.Common.{
  ◌||◌, ℕ, ◌+◌, ◌-◌, ◌*◌, ◌/◌, ◌%◌, ◌^◌, Bool, true, false, ◌&&◌, not, Option, none, some, ltb, leb,
  ◌==◌, if◌then◌else◌, inc32,
}
use ttpoe.World.{Skb}
use ttpoe.Frame.{
  Bytes, ethertype_ttpoe, ethertype_ip, eth_hlen, l3_hlen, v6_hlen, ip_headroom, min_frame_len,
  max_frame_len, get16, put_mac_with_oui, prepare_ipv4, prepare_ipv6, is_valid_ether_addr,
}
use ttpoe.Gateway.{Gw, ZoneCfg, zcfg, with_entry, drop_skb, xmit, gw_bug}
use ttpoe.Gateway.Mac.{ether_addr_equal}
use ttpoe.Gateway.Table.{mactbl_find}
use ttpoe.Gateway.Packet.{ethertype_ipv6, skb_trim, skb_pull, skb_push, max_len, eth_to_zone}
use ttpoe.Gateway.Control.{gw_local_mac_learn}
use ttpoe.Gateway.Resolve.{nhmac_resolve}

-- `ttp_rnd_flip` for the word of get_random_u32.
unfoldable pub rnd_flip : ℕ → ℕ → Bool
rnd_flip pct rnd =
    let r1 = bit_xor (bit_and rnd 0xffff) (rnd / 2 ^ 16) in
    let r2 = bit_xor (bit_and r1 0x3ff) (r1 / 2 ^ 10) in
    if pct == 0 then false else ltb r2 (pct * 2 ^ 10 / 100)

-- Six bytes of a frame, and the address of a node: the OUI and three bytes of a frame.
abbrev pub mac_at : Bytes → ℕ → Bytes
mac_at b a i = b (a + i)

abbrev pub node_mac : Bytes → ℕ → Bytes
node_mac b a = put_mac_with_oui 0 (some (mac_at b a)) (λ i. 0)

-- The checks before the frame is looked into.
unfoldable pub frm_accepts : Gw → ℕ → Skb → Bool
unfolding rnd_flip
frm_accepts g rnd skb =
    not g.shutdown
    && leb skb.len max_frame_len
    && (skb.protocol == ethertype_ttpoe)
    && not (rnd_flip g.drop_pct rnd)
    && ether_addr_equal (g.net.dev_addr g.tsla_dev) (mac_at skb.bytes (skb.dat - eth_hlen))

-- `pskb_expand_head` where the headroom is short: the data moves up.
unfoldable pub make_headroom : Skb → Gw → Gw × Option Skb
make_headroom skb g =
    let g1 = record g { next_alloc = g.next_alloc + 1 } in
    if ltb skb.dat ip_headroom
    then if g.kernel.alloc_ok g.next_alloc
      then (
        g1,
        some (record skb { bytes = λ j. skb.bytes (j - ip_headroom); dat = skb.dat + ip_headroom }),
      )
      else (g1, none)
    else (g, some skb)

-- The type header at address `a`: five words long, and the gateway flag set.
abbrev pub tth_accepts : Bytes → ℕ → Bool
tth_accepts b a = (b a % 16 == 5) && (b (a + 1) / 128 == 1)

-- The entries of the source and the target, with zones that differ.
unfoldable pub apart : Gw → Option ℕ → Option ℕ → Option (ℕ × ℕ)
apart g none o = none
apart g (some s) none = none
apart g (some s) (some t) =
    let z1 = (g.entries s).zon in
    let z2 = (g.entries t).zon in if (z1 == 0) || (z2 == 0) || (z1 == z2) then none else some (s, t)

unfoldable pub two_zones : Bytes → Bytes → Gw → Option (ℕ × ℕ)
unfolding apart
two_zones src dst g = apart g (mactbl_find src g) (mactbl_find dst g)

-- The frame in its IP packet: the type header goes, the IP header comes, and the length of the whole frame.
unfoldable pub encapsulate : Gw → ZoneCfg → Skb → Option (Skb × ℕ)
encapsulate g z skb =
    let pkt_len = get16 skb.bytes (skb.dat + l3_hlen + 6) in
    let up4 = skb_push l3_hlen (skb_pull l3_hlen skb) in
    let up6 = skb_push v6_hlen (skb_pull l3_hlen skb) in
    if z.ver == 4
    then elim (prepare_ipv4 g.kernel up4.dat pkt_len z.sa4 z.da4 true up4.bytes) [
      | none ↦ none
      | some b ↦ some (
        record up4 { bytes = b; protocol = ethertype_ip },
        (eth_hlen + l3_hlen + pkt_len) % 2 ^ 16,
      )
    ]
    else elim (prepare_ipv6 up6.dat pkt_len z.sa6 z.da6 up6.bytes) [
      | none ↦ none
      | some b ↦ some (
        record up6 { bytes = b; protocol = ethertype_ipv6 },
        (eth_hlen + v6_hlen + pkt_len) % 2 ^ 16,
      )
    ]

-- The counters of the source's and the target's entry.
abbrev pub count_rx : ℕ → ℕ → Gw → Gw
count_rx s n =
    with_entry s (λ e. record e { rx_frm = inc32 e.rx_frm; rx_byt = (e.rx_byt + n) % 2 ^ 64 })

abbrev pub count_tx : ℕ → ℕ → Gw → Gw
count_tx t n =
    with_entry t (λ e. record e { tx_frm = inc32 e.tx_frm; tx_byt = (e.tx_byt + n) % 2 ^ 64 })

-- The Ethernet header and the padding of the packet `up`, whose frame is `frame_len` long.
abbrev pub to_gateway : Gw → ZoneCfg → ℕ → Skb → ℕ → Skb
to_gateway g z dev up frame_len =
    let whole = skb_push eth_hlen up in
    skb_trim (max_len frame_len min_frame_len)
      (record whole { bytes = eth_to_zone g z dev whole.protocol whole.dat whole.bytes })

-- The packet, counted, on the device of its zone; a packet that was not made is dropped.
unfoldable pub send_up : ℕ → ℕ → ℕ → ZoneCfg → Option ℕ → Option (Skb × ℕ) → Gw → Gw
send_up rx_byt s t z dev none g = drop_skb g
send_up rx_byt s t z none (some p) g = gw_bug g
send_up rx_byt s t z (some dev) (some p) g =
    xmit dev (to_gateway g z dev p.0 p.1) (count_tx t p.0.len (count_rx s (rx_byt % 2 ^ 16) g))

-- The frame on its way from the entry `s` to the entry `t`, in a zone with its gateway's address.
unfoldable pub forward_frm : ℕ → ℕ → ℕ → ZoneCfg → Skb → Gw → Gw
unfolding encapsulate send_up
forward_frm rx_byt s t z skb g =
    if get16 skb.bytes (skb.dat - 2) == ethertype_ipv6
    then drop_skb g
    else send_up rx_byt s t z z.dev (encapsulate g z skb) g

-- To the zone of the target, which may not be known, or whose gateway's address may not.
unfoldable pub to_zone : ℕ → ℕ → ℕ → Option ℕ → Skb → Gw → Gw
unfolding forward_frm nhmac_resolve
to_zone rx_byt s t none skb g = drop_skb g
to_zone rx_byt s t (some zt) skb g =
    if is_valid_ether_addr (g.zones zt).mac
    then forward_frm rx_byt s t (g.zones zt) skb g
    else drop_skb (nhmac_resolve zt g).0

unfoldable pub between : ℕ → Option (ℕ × ℕ) → Skb → Gw → Gw
unfolding to_zone zcfg
between rx_byt none skb g = drop_skb g
between rx_byt (some p) skb g = to_zone rx_byt p.0 p.1 (zcfg g (g.entries p.1).zon) skb g

-- From the lookups on; the sender is learnt before.
unfoldable pub route_frm : ℕ → Skb → Gw → Gw
unfolding two_zones between
route_frm rx_byt skb g =
    let tsh = skb.dat + l3_hlen in
    between rx_byt (two_zones (node_mac skb.bytes tsh) (node_mac skb.bytes (tsh + 3)) g) skb g

-- `ttpip_frm_recv`.
unfoldable pub frm_recv : ℕ → Skb → Gw → Gw
unfolding frm_accepts make_headroom gw_local_mac_learn route_frm
frm_recv rnd skb g =
    let (g1, room) = make_headroom skb g in
    let taken : Gw = elim room [
      | none ↦ drop_skb g1
      | some b ↦
          let learnt = gw_local_mac_learn (mac_at b.bytes (b.dat - 8)) g1 in
          if tth_accepts b.bytes b.dat then route_frm skb.len b learnt else drop_skb g1
    ] in
    if frm_accepts g rnd skb then taken else drop_skb g
