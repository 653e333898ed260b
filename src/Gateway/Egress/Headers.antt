-- ===== src/Gateway/Egress/Headers.antt =====
-- The headers of the packets between gateways: what they hold, and which bytes they leave alone.
use ttpoe.Common.{
  ℕ, ◌+◌, ◌-◌, ◌^◌, ◌<◌, ◌≤◌, ◌≡◌, ◌⊎◌, inr, refl, ap, ◌∙◌, true, some, ◌==◌, ==_iff, arith,
}
use ttpoe.World.{Skb}
use ttpoe.Frame.{
  Bytes, ipv4_fields, prepare_tth, eth_hlen, get32, get16, put32, clear20, put8, put16, put_mac,
}
use ttpoe.Frame.Bytes.{get32-put32}
use ttpoe.Gateway.{Gw, ZoneCfg}
use ttpoe.Gateway.Packet.{eth_to_zone}
use ttpoe.Gateway.Egress.{pkt_version}

pub put16-others : (a v : ℕ) (b : Bytes) (j : ℕ) → (j < a) ⊎ (a + 2 ≤ j) → put16 a v b j ≡ b j
put16-others a v b j o = ground arith

pub tth-others :
    (a len : ℕ) (b : Bytes) (j : ℕ) → (j < a) ⊎ (a + 4 ≤ j) → prepare_tth a len true b j ≡ b j
unfolding prepare_tth
tth-others a len b j o = ground arith

module _ (c a len sa4 da4 : ℕ) (b : Bytes) where
  abbrev pub header : Bytes
  header = put16 (a + 10) c (ipv4_fields a len sa4 da4 true b)

  pub header-words : header a ≡ 0x45
  header-words = ground arith

  pub header-proto : header (a + 9) ≡ 146
  header-proto = ground arith

  pub header-length : len < 2 ^ 16 → get16 header (a + 2) ≡ len
  header-length h = ground (arith, h)

  abbrev inner : Bytes
  inner =
      put32 (a + 16) da4
        (put32 (a + 12) sa4 (put8 (a + 9) 146 (put8 (a + 8) 9 (put8 a 0x45 (clear20 a b)))))

  pub header-inner : (j : ℕ) → a + 16 ≤ j → header j ≡ inner j
  header-inner j h =
      put16-others (a + 10) c (put16 (a + 2) len inner) j (inr (omega arith))
      ∙ put16-others (a + 2) len inner j (inr (omega arith))

  pub header-daddr : da4 < 2 ^ 32 → get32 header (a + 16) ≡ da4
  header-daddr small =
      let e0 = header-inner (a + 16) (omega arith) in
      let e1 = header-inner (a + 16 + 1) (omega arith) in
      let e2 = header-inner (a + 16 + 2) (omega arith) in
      let e3 = header-inner (a + 16 + 3) (omega arith) in
      rw (e0, e1, e2, e3)
        ((get32-put32 (a + 16) da4
          (put32 (a + 12) sa4 (put8 (a + 9) 146 (put8 (a + 8) 9 (put8 a 69 (clear20 a b)))))
          small).0)

  pub header-others : (j : ℕ) → (j < a) ⊎ (a + 20 ≤ j) → header j ≡ b j
  header-others j o = ground arith

pub put_mac-others :
    (a : ℕ) (src b : Bytes) (j : ℕ) → (j < a) ⊎ (a + 6 ≤ j) → put_mac a src b j ≡ b j
put_mac-others a src b j o = ground arith

-- The Ethernet header of a packet: its ethertype, and that nothing else changes.
module _ (g : Gw) (z : ZoneCfg) (dev proto a : ℕ) (b : Bytes) where
  pub eth_proto : proto < 2 ^ 16 → get16 (eth_to_zone g z dev proto a b) (a + 12) ≡ proto
  eth_proto h = ground arith

  pub eth-others : (j : ℕ) → a + 14 ≤ j → eth_to_zone g z dev proto a b j ≡ b j
  eth-others j h =
      put16-others (a + 12) proto (put_mac a z.mac (put_mac (a + 6) (g.net.dev_addr dev) b)) j
        (inr (omega arith))
      ∙ put_mac-others a z.mac (put_mac (a + 6) (g.net.dev_addr dev) b) j (inr (omega arith))
      ∙ put_mac-others (a + 6) (g.net.dev_addr dev) b j (inr (omega arith))

-- A buffer as the network stack hands it on: behind its Ethernet header.
abbrev pub arrived : Skb → Skb
arrived p = record p { dat = p.dat + eth_hlen; len = p.len - eth_hlen }

-- A packet for this gateway is known by three of its fields.
pub version_four :
    (g : Gw) (my : ℕ) (b : Skb)
    → get16 b.bytes (b.dat - 2) ≡ 0x0800
    → b.bytes (b.dat + 9) ≡ 146
    → get32 b.bytes (b.dat + 16) ≡ (g.zones my).da4
    → pkt_version g my b ≡ some 4
unfolding pkt_version
version_four g my b e p d =
    let t0 : (get16 b.bytes (b.dat - 2) == 0x0800) ≡ true = (==_iff _ _).1 e in
    let t1 : (b.bytes (b.dat + 9) == 146) ≡ true = (==_iff _ _).1 p in
    let t2 : (get32 b.bytes (b.dat + 16) == (g.zones my).da4) ≡ true = (==_iff _ _).1 d in
    simp (t0, t1, t2)

pub get32_cong :
    (b c : Bytes) (a d : ℕ)
    → ((n : ℕ) → b (a + n) ≡ c (d + n))
    → get32 b (a + 16) ≡ get32 c (d + 16)
get32_cong b c a d h = rw (h 16, later 1, later 2, later 3) refl
  where
    later : (k : ℕ) → b (a + 16 + k) ≡ c (d + 16 + k)
    later k =
        let e0 : a + 16 + k ≡ a + (16 + k) = omega arith in
        let e1 : d + (16 + k) ≡ d + 16 + k = omega arith in ap b e0 ∙ h (16 + k) ∙ ap c e1
