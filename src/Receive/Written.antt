-- ===== src/Receive/Written.antt =====
-- The bytes that ttp_skb_net_setup (modttpoe/ttpoe.c) puts into a frame over Ethernet.
use ttpoe.Common.{ℕ, ◌+◌, ◌<◌, ◌≤◌, ◌≡◌, ◌⊎◌, inl, inr, ◌∙◌, false, some, arith}
use ttpoe.Key.Fields.{IsMac}
use ttpoe.Frame.{Bytes, prepare_tth, put8, put16, put_mac, put_mac24, put_mac_with_oui, get16}

-- The bytes of a frame as they are written, the last ones first: the shim header, the Ethernet header, the type
-- header, and the opcode with the virtual channel, from address `a`.
module _ (a len op vc : ℕ) (dest dev : Bytes) (node : Bytes) (b : Bytes) where
  abbrev pub low : Bytes
  low = prepare_tth (a + 14) (len + 46) false (put8 (a + 14 + 28 + 1) vc (put8 (a + 14 + 28) op b))

  abbrev pub middle : Bytes
  middle = put_mac_with_oui a (some dest) (put_mac (a + 6) dev (put16 (a + 12) 0x9ac6 low))

  abbrev pub whole : Bytes
  whole =
      put16 (a + 14 + 20 + 6) (len + 26)
        (put_mac24 (a + 14 + 20 + 3) node (put_mac24 (a + 14 + 20) (λ i. dev (i + 3)) middle))

  low_opcode : op < 256 → low (a + 14 + 28) ≡ op
  unfolding prepare_tth
  low_opcode h = ground arith

  low_vc : vc < 256 → low (a + 14 + 28 + 1) ≡ vc
  unfolding prepare_tth
  low_vc h = ground arith

  low_gw : low (a + 14 + 1) ≡ 0
  unfolding prepare_tth
  low_gw = ground arith

  whole-middle : (j : ℕ) → (j < a + 14 + 20) ⊎ (a + 14 + 28 ≤ j) → whole j ≡ middle j
  whole-middle j o = ground arith

  middle-low : (j : ℕ) → a + 14 ≤ j → middle j ≡ low j
  middle-low j o = ground arith

  pub whole_len : len + 26 < 65536 → get16 whole (a + 14 + 20 + 6) ≡ len + 26
  whole_len h = ground arith

  pub whole_opcode : op < 256 → whole (a + 14 + 28) ≡ op
  whole_opcode h =
      whole-middle (a + 14 + 28) (inr (omega arith))
      ∙ middle-low (a + 14 + 28) (omega arith)
      ∙ low_opcode h

  pub whole_vc : vc < 256 → whole (a + 14 + 28 + 1) ≡ vc
  whole_vc h =
      whole-middle (a + 14 + 28 + 1) (inr (omega arith))
      ∙ middle-low (a + 14 + 28 + 1) (omega arith)
      ∙ low_vc h

  pub whole_gw : whole (a + 14 + 1) ≡ 0
  whole_gw =
      whole-middle (a + 14 + 1) (inl (omega arith)) ∙ middle-low (a + 14 + 1) (omega arith) ∙ low_gw

  middle-source : (j : ℕ) → a + 6 ≤ j → middle j ≡ put_mac (a + 6) dev (put16 (a + 12) 0x9ac6 low) j
  middle-source j h = ground arith

  module _ (addr : IsMac dev) where
    pub source_third : whole (a + 6 + 3) ≡ dev 3
    source_third =
        whole-middle (a + 6 + 3) (inl (omega arith))
        ∙ middle-source (a + 6 + 3) (omega arith)
        ∙ (ground (arith, addr.third))

    pub source_fourth : whole (a + 6 + 4) ≡ dev 4
    source_fourth =
        whole-middle (a + 6 + 4) (inl (omega arith))
        ∙ middle-source (a + 6 + 4) (omega arith)
        ∙ (ground (arith, addr.fourth))

    pub source_fifth : whole (a + 6 + 5) ≡ dev 5
    source_fifth =
        whole-middle (a + 6 + 5) (inl (omega arith))
        ∙ middle-source (a + 6 + 5) (omega arith)
        ∙ (ground (arith, addr.fifth))
