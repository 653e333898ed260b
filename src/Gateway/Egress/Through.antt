-- ===== src/Gateway/Egress/Through.antt =====
-- A frame that one gateway puts into a packet, as the other one hands it to its node.
use ttpoe.Common.{
  ℕ, ◌+◌, ◌-◌, ◌*◌, ◌%◌, ◌^◌, ◌<◌, ◌≤◌, ◌≡◌, inr, sym, ap, ◌∙◌, subst, true, false, some, ltb, leb,
  ◌==◌, if◌then◌else◌, ==_iff, arith,
}
use ttpoe.World.{Skb}
use ttpoe.Frame.{Bytes, prepare_ipv4, ipv4_fields, ipv4_header, prepare_tth, get16, put_mac}
use ttpoe.Gateway.{Gw, ZoneCfg}
use ttpoe.Gateway.Packet.{skb_pull, max_len}
use ttpoe.Gateway.Ingress.{encapsulate, to_gateway}
use ttpoe.Gateway.Egress.{pkt_version, strip_ip, tot_len_of, to_node}
use ttpoe.Gateway.Egress.Headers.{
  put16-others, tth-others, header-words, header-length, header-proto, header-daddr, header-others,
  put_mac-others, eth_proto, eth-others, arrived, version_four, get32_cong,
}

-- What is behind the headers of a frame for a node.
to_node-body :
    (g : Gw) (dest : Bytes) (tot_len : ℕ) (bare : Skb) (i : ℕ)
    → 34 ≤ bare.dat
    → (to_node g dest tot_len bare).bytes ((to_node g dest tot_len bare).dat + 34 + i)
      ≡ bare.bytes (bare.dat + i)
unfolding to_node
to_node-body g dest tot_len bare i h =
    put16-others (w + 12) 0x9ac6 (put_mac w dest b2) place (inr (omega arith))
    ∙ put_mac-others w dest b2 place (inr (omega arith))
    ∙ put_mac-others (w + 6) (g.net.dev_addr g.tsla_dev) b1 place (inr (omega arith))
    ∙ tth-others (bare.dat - 20) (bare.len + 20) bare.bytes place (inr (omega arith))
    ∙ ap bare.bytes same
  where
    w : ℕ
    w = bare.dat - 20 - 14

    b1 : Bytes
    b1 = prepare_tth (bare.dat - 20) (bare.len + 20) true bare.bytes

    b2 : Bytes
    b2 = put_mac (w + 6) (g.net.dev_addr g.tsla_dev) b1

    place : ℕ
    place = w + 34 + i

    same : place ≡ bare.dat + i
    same = omega arith

-- The length of a frame for a node: that of `m` bytes with the padding, where they came with the packet.
to_node-len :
    (g : Gw) (dest : Bytes) (n m : ℕ) (bare : Skb)
    → n + 14 ≡ max_len m 64
    → m ≤ 1536
    → m ≤ bare.len + 34
    → (to_node g dest n bare).len ≡ max_len m 64
unfolding to_node
to_node-len g dest n m bare e small h = ground (arith, e, small, h)

-- The bytes behind the type header, as the frame's shim header counts them.
abbrev pub frame_bytes : Skb → ℕ
frame_bytes skb = get16 skb.bytes (skb.dat + 20 + 6)

-- The frame `skb` in a packet of the gateway `g`, taken by the gateway `g2`, and the frame made from it there.
abbrev pub Carried : Gw → Gw → ZoneCfg → ℕ → ℕ → Skb → Bytes → Type 0
Carried g g2 z dev my skb dest =
    (p : Skb × ℕ) × (encapsulate g z skb ≡ some p)
    × (pkt_version g2 my (arrived (to_gateway g z dev p.0 p.1)) ≡ some 4)
    × (let got = arrived (to_gateway g z dev p.0 p.1) in
        let frame = to_node g2 dest (tot_len_of 4 got) (strip_ip 4 got) in
        (frame.len ≡ max_len (34 + frame_bytes skb) 64)
        × ((i : ℕ)
            → i < frame_bytes skb
            → frame.bytes (frame.dat + 34 + i) ≡ skb.bytes (skb.dat + 20 + i)))

module _ (g g2 : Gw) (z : ZoneCfg) (dev my : ℕ) (skb : Skb) (dest : Bytes) (v4 : z.ver ≡ 4)
    (small : z.da4 < 2 ^ 32) (peer : (g2.zones my).da4 ≡ z.da4) (room : 38 ≤ skb.dat)
    (whole : 20 + frame_bytes skb ≤ skb.len) (fits : frame_bytes skb ≤ 1502) where
  abbrev pkt_len : ℕ
  pkt_len = frame_bytes skb

  abbrev frame_len : ℕ
  frame_len = (14 + 20 + pkt_len) % 65536

  abbrev up : Skb
  up = record skb {
    dat = skb.dat + 20 - 20;
    len = skb.len - 20 + 20;
    bytes =
        ipv4_header g.kernel (skb.dat + 20 - 20) ((if ltb frame_len 64 then 64 else frame_len) - 14)
          z.sa4 z.da4 true skb.bytes;
    protocol = 0x0800;
  }

  made : encapsulate g z skb ≡ some (up, frame_len)
  unfolding encapsulate prepare_ipv4
  made =
      let t0 : (z.ver == 4) ≡ true = (==_iff z.ver 4).1 v4 in
      let t1 : leb 20 skb.len ≡ true = ground (arith, whole) in
      let t2 : ltb 1536 ((14 + 20 + get16 skb.bytes (skb.dat + 20 + 6)) % 65536) ≡ false =
        ground (arith, fits) in
      simp (t0, t1, t2)

  -- The packet on the wire, and the buffer that the other gateway gets.
  abbrev wire : Skb
  wire = to_gateway g z dev up frame_len

  abbrev taken : Skb
  taken = arrived wire

  start : taken.dat ≡ skb.dat
  start = omega (arith, room)

  taken-others : (j : ℕ) → skb.dat ≤ j → taken.bytes j ≡ up.bytes j
  taken-others j h = eth-others g z dev 0x0800 (up.dat - 14) up.bytes j (omega (arith, room))

  taken_at : (n : ℕ) → taken.bytes (taken.dat + n) ≡ up.bytes (up.dat + n)
  taken_at n =
      let same : taken.dat + n ≡ up.dat + n = omega (arith, room) in
      taken-others (taken.dat + n) (omega (arith, room)) ∙ ap up.bytes same

  abbrev tot_len : ℕ
  tot_len = (if ltb frame_len 64 then 64 else frame_len) - 14

  abbrev csum : ℕ
  csum = g.kernel.ip_fast_csum (ipv4_fields up.dat tot_len z.sa4 z.da4 true skb.bytes) up.dat

  taken_proto : get16 taken.bytes (taken.dat - 2) ≡ 0x0800
  taken_proto =
      let same : taken.dat - 2 ≡ up.dat - 14 + 12 = omega (arith, room) in
      ap (get16 taken.bytes) same ∙ eth_proto g z dev 0x0800 (up.dat - 14) up.bytes (omega arith)

  taken_words : taken.bytes taken.dat ≡ 0x45
  taken_words =
      let same : taken.dat ≡ up.dat = omega (arith, room) in
      taken-others taken.dat (omega (arith, room))
      ∙ ap up.bytes same
      ∙ header-words csum up.dat tot_len z.sa4 z.da4 skb.bytes

  accepted : pkt_version g2 my taken ≡ some 4
  accepted =
      version_four g2 my taken taken_proto
        (taken_at 9 ∙ header-proto csum up.dat tot_len z.sa4 z.da4 skb.bytes)
        (get32_cong taken.bytes up.bytes taken.dat up.dat taken_at
          ∙ header-daddr csum up.dat tot_len z.sa4 z.da4 skb.bytes small
          ∙ sym peer)

  abbrev bare : Skb
  bare = record taken { dat = taken.dat + 20; len = taken.len - 20 }

  long_enough : leb 20 taken.len ≡ true
  long_enough = ground (arith, whole)

  bare_of : strip_ip 4 taken ≡ bare
  bare_of =
      ap (λ n. skb_pull (n % 16 * 4) taken) taken_words
      ∙ ap (λ b. if b then bare else taken) long_enough

  body : (i : ℕ) → bare.bytes (bare.dat + i) ≡ skb.bytes (skb.dat + 20 + i)
  body i =
      let e0 : bare.dat + i ≡ taken.dat + (20 + i) = omega arith in
      let e1 : up.dat + (20 + i) ≡ skb.dat + 20 + i = omega arith in
      ap taken.bytes e0
      ∙ taken_at (20 + i)
      ∙ header-others csum up.dat tot_len z.sa4 z.da4 skb.bytes (up.dat + (20 + i))
          (inr (omega arith))
      ∙ ap skb.bytes e1

  taken_length : get16 taken.bytes (taken.dat + 2) ≡ tot_len
  taken_length =
      let e0 : taken.dat + 2 + 1 ≡ taken.dat + 3 = omega arith in
      let e1 : up.dat + 2 + 1 ≡ up.dat + 3 = omega arith in
      let b3 = ap taken.bytes e0 ∙ taken_at 3 ∙ ap up.bytes (sym e1) in
      rw (taken_at 2, b3)
        (header-length csum up.dat tot_len z.sa4 z.da4 skb.bytes (ground (arith, fits)))

  frame_len_of : frame_len ≡ 34 + pkt_len
  frame_len_of = omega (arith, fits)

  -- The frame for the node, from the packet and the length in its header.
  abbrev out : Skb
  out = to_node g2 dest (get16 taken.bytes (taken.dat + 2)) bare

  out_len : out.len ≡ max_len (34 + pkt_len) 64
  out_len =
      to_node-len g2 dest (get16 taken.bytes (taken.dat + 2)) (34 + pkt_len) bare
        (ground (arith, taken_length, frame_len_of)) (omega (arith, fits))
        (ground (arith, whole, frame_len_of))

  -- A frame comes whole, with at most 1502 bytes behind its type header, as its shim header counts them, and room for the headers;
  -- it goes into an IPv4 packet for a gateway with an address of 32 bits. That gateway takes the packet for its own, and
  -- the frame that it makes of it for any node is as long as these bytes and the two headers, padded to 64, and has,
  -- behind its Ethernet and type headers, all the bytes that the first frame had there.
  pub frame-Carried : Carried g g2 z dev my skb dest
  frame-Carried = (
    (up, frame_len),
    made,
    accepted,
    subst
        (λ (b : Skb).
          let frame = to_node g2 dest (get16 taken.bytes (taken.dat + 2)) b in
          (frame.len ≡ max_len (34 + pkt_len) 64)
          × ((i : ℕ)
              → i < pkt_len
              → frame.bytes (frame.dat + 34 + i) ≡ skb.bytes (skb.dat + 20 + i)))
        (sym bare_of)
        (
          out_len,
          λ i h.
              to_node-body g2 dest (get16 taken.bytes (taken.dat + 2)) bare i (omega (arith, room))
              ∙ body i,
        ),
  )
