-- ===== src/Gateway/Egress/Message.antt =====
-- A control packet as the other gateway reads it.
use ttpoe.Common.{
  ℕ, ◌+◌, ◌-◌, ◌^◌, ◌<◌, ◌≡◌, inl, refl, sym, ap, ◌∙◌, true, some, ◌==◌, ==_iff, arith,
}
use ttpoe.World.{Skb}
use ttpoe.Frame.{Bytes, prepare_ipv4, ipv4_fields, ipv4_header, get16, get32}
use ttpoe.Gateway.{Gw, ZoneCfg}
use ttpoe.Gateway.Mac.{ether_addr_equal}
use ttpoe.Gateway.Mac.Order.{IsAddr}
use ttpoe.Gateway.Mac.Equal.{bytes_equal}
use ttpoe.Gateway.Packet.{control_shim, control_packet, skb_trim, eth_to_zone}
use ttpoe.Gateway.Ingress.{mac_at}
use ttpoe.Gateway.Egress.{pkt_version, shim_of}
use ttpoe.Gateway.Egress.Headers.{
  arrived, version_four, header-proto, header-daddr, header-others, eth_proto,
}

get16_same : (b c : Bytes) (a : ℕ) → b a ≡ c a → b (a + 1) ≡ c (a + 1) → get16 b a ≡ get16 c a
get16_same b c a e0 e1 = rw (e0, e1) refl

get32_same :
    (b c : Bytes) (a : ℕ)
    → b a ≡ c a
    → b (a + 1) ≡ c (a + 1)
    → b (a + 2) ≡ c (a + 2)
    → b (a + 3) ≡ c (a + 3)
    → get32 b a ≡ get32 c a
get32_same b c a e0 e1 e2 e3 = rw (e0, e1, e2, e3) refl

module _ (mac : Bytes) (oc zn t : ℕ) (b : Bytes) where
  shim-others : (j : ℕ) → j < t → control_shim mac oc zn t b j ≡ b j
  shim-others j h = ground arith

  shim-length : get16 (control_shim mac oc zn t b) (t + 6) ≡ 2
  shim-length = ground arith

  shim_opcode : oc < 256 → control_shim mac oc zn t b (t + 8) ≡ oc
  shim_opcode h = ground arith

  shim_zone : zn < 256 → control_shim mac oc zn t b (t + 9) ≡ zn
  shim_zone h = ground arith

  abbrev shim : Bytes
  shim = control_shim mac oc zn t b

  shim_mac : IsAddr mac → ether_addr_equal (mac_at shim t) mac ≡ true
  shim_mac h =
      let e0 : shim (t + 0) ≡ mac 0 = ground (arith, h 0) in
      let e1 : shim (t + 1) ≡ mac 1 = ground (arith, h 1) in
      let e2 : shim (t + 2) ≡ mac 2 = ground (arith, h 2) in
      let e3 : shim (t + 3) ≡ mac 3 = ground (arith, h 3) in
      let e4 : shim (t + 4) ≡ mac 4 = ground (arith, h 4) in
      let e5 : shim (t + 5) ≡ mac 5 = ground (arith, h 5) in
      bytes_equal (mac_at shim t) mac (e0, e1, e2, e3, e4, e5)

-- What the gateway `g2`, whose own zone is `my`, reads of a packet: that it is for itself and a control packet, and the
-- address, the opcode and the sender's zone in it.
abbrev pub IsRead : Gw → ℕ → Skb → Bytes → ℕ → ℕ → Type 0
IsRead g2 my b mac oc zn =
    let t = shim_of 4 b in
    (pkt_version g2 my b ≡ some 4)
    × (get16 b.bytes (t + 6) ≡ 2)
    × (ether_addr_equal (mac_at b.bytes t) mac ≡ true)
    × (b.bytes (t + 8) ≡ oc)
    × (b.bytes (t + 9) ≡ zn)

module _ (g g2 : Gw) (z : ZoneCfg) (dev my : ℕ) (mac : Bytes) (oc : ℕ) (skb : Skb) (v4 : z.ver ≡ 4)
    (small : z.da4 < 2 ^ 32) (peer : (g2.zones my).da4 ≡ z.da4) (addr : IsAddr mac) (op : oc < 256)
    (own : g.myzn < 256) where
  abbrev ip : ℕ
  ip = skb.dat + 14

  abbrev framed : Bytes
  framed = eth_to_zone g z dev 0x0800 skb.dat skb.bytes

  abbrev csum : ℕ
  csum = g.kernel.ip_fast_csum (ipv4_fields ip 50 z.sa4 z.da4 true framed) ip

  abbrev headed : Bytes
  headed = ipv4_header g.kernel ip 50 z.sa4 z.da4 true framed

  abbrev packet : Skb
  packet =
      skb_trim 64
        (record skb { bytes = control_shim mac oc g.myzn (ip + 20) headed; protocol = 0x0800 })

  made : control_packet g z dev mac oc skb ≡ some packet
  unfolding control_packet prepare_ipv4
  made = let t0 : (z.ver == 4) ≡ true = (==_iff z.ver 4).1 v4 in simp t0

  before : (j : ℕ) → j < ip + 20 → packet.bytes j ≡ headed j
  before j h = shim-others mac oc g.myzn (ip + 20) headed j h

  under : (j : ℕ) → j < ip → packet.bytes j ≡ framed j
  under j h = before j (omega arith) ∙ header-others csum ip 50 z.sa4 z.da4 framed j (inl h)

  proto : get16 packet.bytes (skb.dat + 12) ≡ 0x0800
  proto =
      get16_same packet.bytes framed (skb.dat + 12) (under (skb.dat + 12) (omega arith))
        (under (skb.dat + 12 + 1) (omega arith))
      ∙ eth_proto g z dev 0x0800 skb.dat skb.bytes (omega arith)

  daddr : get32 packet.bytes (ip + 16) ≡ (g2.zones my).da4
  daddr =
      get32_same packet.bytes headed (ip + 16) (before (ip + 16) (omega arith))
        (before (ip + 16 + 1) (omega arith)) (before (ip + 16 + 2) (omega arith))
        (before (ip + 16 + 3) (omega arith))
      ∙ header-daddr csum ip 50 z.sa4 z.da4 framed small
      ∙ sym peer

  accepted : pkt_version g2 my (arrived packet) ≡ some 4
  accepted =
      let same : ip - 2 ≡ skb.dat + 12 = omega arith in
      version_four g2 my (arrived packet) (ap (get16 packet.bytes) same ∙ proto)
        (before (ip + 9) (omega arith) ∙ header-proto csum ip 50 z.sa4 z.da4 framed) daddr

  -- A control packet for a zone with an IPv4 gateway, made in any buffer: the other gateway, with that address of 32
  -- bits, takes it for its own and for a control packet, and reads the address, the opcode and the zone that were sent.
  pub message-IsRead :
      (p : Skb) × (control_packet g z dev mac oc skb ≡ some p)
      × IsRead g2 my (arrived p) mac oc g.myzn
  message-IsRead = (
    packet,
    made,
    (
      accepted,
      shim-length mac oc g.myzn (ip + 20) headed,
      shim_mac mac oc g.myzn (ip + 20) headed addr,
      shim_opcode mac oc g.myzn (ip + 20) headed op,
      shim_zone mac oc g.myzn (ip + 20) headed own,
    ),
  )
