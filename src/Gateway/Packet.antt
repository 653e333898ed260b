-- ===== src/Gateway/Packet.antt =====
-- Packets to the other gateways: a buffer, the headers of the way to a zone, and the message that an
-- address is learnt or withdrawn (ttpip_skb_aloc and ttp_gw_ctl_send in modttpip/ttpip.c).
pub mod Keeps
use Prim.Native.Nat.{bit_or}
use ttpoe.Common.{
  ℕ, zero, suc, ◌+◌, ◌-◌, Bool, true, false, Option, none, some, ltb, leb, ◌==◌, ◌||◌,
  if◌then◌else◌,
}
use ttpoe.World.{Skb}
use ttpoe.Frame.{
  Bytes, ethertype_ip, eth_hlen, l3_hlen, v6_hlen, ip_headroom, min_frame_len, put8, put16,
  put_mac24, put_mac, put_mac_with_oui, prepare_ipv4, prepare_ipv6, is_valid_ether_addr,
}
use ttpoe.Gateway.{
  Gw, ZoneCfg, max_num_zones, remote_add, remote_del, gateway_add, zcfg, myzone, xmit, drop_skb,
}

abbrev pub ethertype_ipv6 : ℕ
ethertype_ipv6 = 0x86dd

-- `ttpip_mcast_mac_create` at an address: all ones below the OUI, and the bits of a multicast address.
abbrev pub mcast_mac_create : ℕ → Bytes → Bytes
mcast_mac_create a b =
    let b1 = put_mac_with_oui a (some (λ i. 0xff)) b in put8 a (bit_or (b1 a) 0x3) b1

abbrev pub fresh_skb : Gw → Skb
fresh_skb g = record {
  bytes = g.net.fresh g.next_alloc;
  dat = ip_headroom;
  len = min_frame_len;
  protocol = 0;
  users = 1;
}

-- `ttpip_skb_aloc`: sixty-four bytes after the headroom, which the kernel leaves as they are.
unfoldable pub ttpip_skb_aloc : Gw → Gw × Option Skb
ttpip_skb_aloc g =
    let g1 = record g { next_alloc = g.next_alloc + 1 } in
    if g.kernel.alloc_ok g.next_alloc then (g1, some (fresh_skb g)) else (g1, none)

-- `skb_trim`, `skb_pull` and `skb_push`.
abbrev pub skb_trim : ℕ → Skb → Skb
skb_trim n b = record b { len = if ltb n b.len then n else b.len }

abbrev pub skb_pull : ℕ → Skb → Skb
skb_pull n b = if leb n b.len then record b { dat = b.dat + n; len = b.len - n } else b

abbrev pub skb_push : ℕ → Skb → Skb
skb_push n b = record b { dat = b.dat - n; len = b.len + n }

abbrev pub max_len : ℕ → ℕ → ℕ
max_len a b = if ltb a b then b else a

-- The Ethernet header of a frame to the gateway of a zone, from address `a`.
abbrev pub eth_to_zone : Gw → ZoneCfg → ℕ → ℕ → ℕ → Bytes → Bytes
eth_to_zone g z dev proto a b =
    put16 (a + 12) proto (put_mac a z.mac (put_mac (a + 6) (g.net.dev_addr dev) b))

-- Eight bytes of zeros.
abbrev pub clear8 : ℕ → Bytes → Bytes
clear8 t b j = if leb t j then if ltb j (t + 8) then 0 else b j else b j

-- The shim header and the message of a control packet, from address `t`: the whole address in the place of
-- the two nodes, the length 2, the opcode and the sender's zone.
abbrev pub control_shim : Bytes → ℕ → ℕ → ℕ → Bytes → Bytes
control_shim mac oc zn t b = put8 (t + 9) zn (
    put8 (t + 8) oc
      (put16 (t + 6) 2 (put_mac24 (t + 3) (λ i. mac (i + 3)) (put_mac24 t mac (clear8 t b)))))

-- The packet of `ttp_gw_ctl_send` to a zone, in a new buffer.
unfoldable pub control_packet : Gw → ZoneCfg → ℕ → Bytes → ℕ → Skb → Option Skb
control_packet g z dev mac oc skb =
    let a = skb.dat in
    let ip = a + eth_hlen in
    let filled : ℕ → ℕ → Bytes → Skb = λ proto hlen b.
      skb_trim (max_len (eth_hlen + hlen + 10) min_frame_len)
        (record skb { bytes = control_shim mac oc g.myzn (ip + hlen) b; protocol = proto }) in
    if z.ver == 4
    then elim (prepare_ipv4 g.kernel ip 10 z.sa4 z.da4 true
        (eth_to_zone g z dev ethertype_ip a skb.bytes)) [
          | none ↦ none
          | some b ↦ some (filled ethertype_ip l3_hlen b)
        ]
    else if z.ver == 6
    then elim (prepare_ipv6 ip 10 z.sa6 z.da6 (eth_to_zone g z dev ethertype_ipv6 a skb.bytes)) [
      | none ↦ none
      | some b ↦ some (filled ethertype_ipv6 v6_hlen b)
    ]
    else none

-- The device by which a zone's gateway is reached, where a packet may be sent to it.
unfoldable pub ctl_target : Gw → ℕ → Option ℕ
ctl_target g zn =
    let dev : Option ℕ = elim (zcfg g zn) [
      | none ↦ none
      | some z ↦ if is_valid_ether_addr (g.zones z).mac then (g.zones z).dev else none
    ] in
    if myzone g zn then none else dev

-- A packet is sent; one that was not made is dropped. Without memory the loop ends.
abbrev pub post : ℕ → Option Skb → Gw → Gw × Bool
post dev none g = (drop_skb g, true)
post dev (some packet) g = (xmit dev packet g, true)

unfoldable pub send_new : Bytes → ℕ → ℕ → ℕ → Option Skb → Gw → Gw × Bool
unfolding control_packet
send_new mac oc zn dev none g = (g, false)
send_new mac oc zn dev (some skb) g = post dev (control_packet g (g.zones zn) dev mac oc skb) g

unfoldable pub send_to : Bytes → ℕ → ℕ → Option ℕ → Gw → Gw × Bool
unfolding ttpip_skb_aloc send_new
send_to mac oc zn none g = (g, true)
send_to mac oc zn (some dev) g = let (g1, new) = ttpip_skb_aloc g in send_new mac oc zn dev new g1

-- One round of the loop: the state, and whether the loop goes on.
unfoldable pub ctl_send_zone : Bytes → ℕ → ℕ → Gw → Gw × Bool
unfolding ctl_target send_to
ctl_send_zone mac oc zn g = send_to mac oc zn (ctl_target g zn) g

unfoldable pub ctl_send_from : ℕ → ℕ → Bytes → ℕ → Gw → Gw
unfolding ctl_send_zone
ctl_send_from zero zn mac oc g = g
ctl_send_from (suc n) zn mac oc g =
    let (g1, on) = ctl_send_zone mac oc zn g in
    let rest = ctl_send_from n (zn + 1) mac oc g1 in if on then rest else g1

abbrev pub is_ctl_opcode : ℕ → Bool
is_ctl_opcode oc = (oc == remote_del) || (oc == remote_add) || (oc == gateway_add)

-- `ttp_gw_ctl_send`: to the zones 1 to 7.
unfoldable pub gw_ctl_send : Bytes → ℕ → Gw → Gw
unfolding ctl_send_from
gw_ctl_send mac oc g = if is_ctl_opcode oc then ctl_send_from (max_num_zones - 1) 1 mac oc g else g
