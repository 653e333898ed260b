-- ===== src/Receive/Parse.antt =====
-- A frame over Ethernet as its receiver reads it.
use ttpoe.Common.{
  ℕ, ◌+◌, ◌-◌, ◌/◌, ◌%◌, ◌<◌, ◌≤◌, ◌≡◌, ◌≢◌, refl, ap, ◌∙◌, true, false, some, leb, ◌==◌, ==_iff,
  if◌then◌else◌, arith,
}
use ttpoe.Fsm.{
  Opcode, ttp_open, ttp_open_ack, ttp_open_nack, ttp_close, ttp_close_ack, ttp_close_nack,
  ttp_payload, ttp_ack, ttp_nack, ttp_nack_full, ttp_nack_nolink, op_invalid, opcode_code,
  opcode_of_byte,
}
use ttpoe.Fsm.Wire.{opcode_of_byte_iff}
use ttpoe.Key.{tag_key_make, vci, gwf, tip, index_hash_calc}
use ttpoe.Key.Fields.{IsMac}
use ttpoe.World.{World, Skb, Config, PktInfo}
use ttpoe.World.Access.{with_skb}
use ttpoe.Frame.{
  Bytes, FrameHdr, no_frame_hdr, no_pkt_info, skb_pars, fill_hdr_offsets, get16, get32,
}
use ttpoe.Buffer.{skb_net_setup, l2_headers, l4_headers, key_mac}
use ttpoe.Receive.{sender_key, frame_opcode}
use ttpoe.Receive.Written.{
  whole, whole_len, whole_opcode, whole_vc, whole_gw, source_third, source_fourth, source_fifth,
}

-- What the parsing finds in a frame over Ethernet.
abbrev pub found_in : Skb → FrameHdr × PktInfo × ℕ
found_in b = (
  record {
    eth = b.dat;
    l3 = b.dat + 14;
    l4 = b.dat + 14 + 20;
    ttp = b.dat + 14 + 28;
    noc = b.dat + 14 + 46;
    dat = b.dat + 14 + 62;
  },
  record no_pkt_info {
    tl4_off = 20;
    ttp_off = 28;
    noc_off = 46;
    dat_off = 62;
    noc_len =
        if leb 26 (get16 b.bytes (b.dat + 14 + 20 + 6))
        then get16 b.bytes (b.dat + 14 + 20 + 6) - 26
        else 0;
    rxi_seq = get32 b.bytes (b.dat + 14 + 28 + 14);
    txi_seq = get32 b.bytes (b.dat + 14 + 28 + 10);
  },
  b.protocol,
)

skb_pars-found_in :
    (b : Skb) → b.protocol ≡ 0x9ac6 → skb_pars b no_frame_hdr no_pkt_info ≡ found_in b
unfolding skb_pars fill_hdr_offsets
skb_pars-found_in b e =
    let t : (b.protocol == 0x9ac6) ≡ true = (==_iff b.protocol 0x9ac6).1 e in simp t

module _ (w : World) (n k nl : ℕ) (op : Opcode) (ether : (w.skbs n).protocol ≡ 0x9ac6)
    (gw : gwf k ≡ 0) (ip : tip k ≡ 0) where
  abbrev written : Bytes
  written =
      whole (w.skbs n).dat nl (opcode_code op) (vci k) (key_mac k) w.config.dev_addr (key_mac k)
        (w.skbs n).bytes

  made : skb_net_setup n (some k) nl op w ≡ (with_skb n (λ b. record b { bytes = written }) w, true)
  unfolding skb_net_setup l2_headers l4_headers
  made =
      let t0 : (gwf k == 1) ≡ false = ground (arith, gw) in
      let t1 : (tip k == 1) ≡ false = ground (arith, ip) in
      let t2 : ((w.skbs n).protocol == 0) ≡ false = ground (arith, ether) in
      simp (skb_pars-found_in (w.skbs n) ether, t0, t1, t2)

-- What a receiver with the configuration `c` reads of a frame.
abbrev pub Parsed : Config → Skb → Opcode → ℕ → ℕ → FrameHdr × PktInfo × ℕ → Type 0
Parsed c b op nl kid r =
    (frame_opcode b r.0 r.2 ≡ some op) × (r.1.noc_len ≡ nl) × (sender_key c b r.0 ≡ kid)

code_small : (op : Opcode) → opcode_code op < 256
unfolding opcode_code
code_small ttp_open = omega arith
code_small ttp_open_ack = omega arith
code_small ttp_open_nack = omega arith
code_small ttp_close = omega arith
code_small ttp_close_ack = omega arith
code_small ttp_close_nack = omega arith
code_small ttp_payload = omega arith
code_small ttp_ack = omega arith
code_small ttp_nack = omega arith
code_small ttp_nack_full = omega arith
code_small ttp_nack_nolink = omega arith
code_small op_invalid = omega arith

same_key :
    (mac mac' : Bytes) (vc : ℕ)
    → mac 3 ≡ mac' 3
    → mac 4 ≡ mac' 4
    → mac 5 ≡ mac' 5
    → tag_key_make (some mac) vc false false ≡ tag_key_make (some mac') vc false false
same_key mac mac' vc e3 e4 e5 = unfold tag_key_make index_hash_calc in rw (e3, e4, e5) refl

-- What a receiver reads of a frame over Ethernet, from the bytes it looks at.
module _ (b : Skb) (ether : b.protocol ≡ 0x9ac6) where
  read_opcode :
      (op : Opcode)
      → op ≢ op_invalid
      → b.bytes (b.dat + 14 + 28) ≡ opcode_code op
      → b.bytes (b.dat + 14 + 28 + 1) ≤ 2
      → frame_opcode b (found_in b).0 b.protocol ≡ some op
  unfolding frame_opcode
  read_opcode op known code valid =
      let t0 : (b.protocol == 0) ≡ false = ground (arith, ether) in
      let t1 : leb (b.bytes (b.dat + 14 + 28 + 1)) 2 ≡ true = ground arith in
      let t2 : opcode_of_byte (b.bytes (b.dat + 14 + 28)) ≡ some op =
        (opcode_of_byte_iff (b.bytes (b.dat + 14 + 28)) op).1 (code, known) in
      simp (t0, t1, t2)

  read_length :
      (nl : ℕ) → get16 b.bytes (b.dat + 14 + 20 + 6) ≡ nl + 26 → (found_in b).1.noc_len ≡ nl
  read_length nl h =
      let t0 : leb 26 (get16 b.bytes (b.dat + 14 + 20 + 6)) ≡ true = ground (arith, h) in
      let t1 : get16 b.bytes (b.dat + 14 + 20 + 6) - 26 ≡ nl = omega (arith, h) in simp (t0, t1)

  read_key :
      (c : Config) (mac : Bytes) (vc : ℕ)
      → b.bytes (b.dat + 14 + 28 + 1) ≡ vc
      → b.bytes (b.dat + 14 + 1) ≡ 0
      → b.bytes (b.dat + 6 + 3) ≡ mac 3
      → b.bytes (b.dat + 6 + 4) ≡ mac 4
      → b.bytes (b.dat + 6 + 5) ≡ mac 5
      → sender_key c b (found_in b).0 ≡ tag_key_make (some mac) vc false false
  unfolding sender_key
  read_key c mac vc ev e1 e3 e4 e5 =
      let t0 : (b.protocol == 0x9ac6) ≡ true = (==_iff b.protocol 0x9ac6).1 ether in
      let t1 : (b.bytes (b.dat + 14 + 1) / 128 % 2 == 1) ≡ false = ground (arith, e1) in
      let same = same_key (λ i. b.bytes (b.dat + 6 + i)) mac vc e3 e4 e5 in
      (simp (t0, t1, ev)) ∙ same

-- The buffer of a frame as it is written.
module _ (w : World) (n k nl : ℕ) (op : Opcode) (c : Config) (known : op ≢ op_invalid)
    (valid : vci k ≤ 2) (fits : nl + 26 < 65536) (addr : IsMac w.config.dev_addr)
    (ether : (w.skbs n).protocol ≡ 0x9ac6) (gw : gwf k ≡ 0) (ip : tip k ≡ 0) where
  abbrev framed : Skb
  framed = record (w.skbs n) { bytes = written w n k nl op ether gw ip }

  framed-Parsed :
      Parsed c framed op nl
        (tag_key_make (some w.config.dev_addr) (vci k) false false)
        (skb_pars framed no_frame_hdr no_pkt_info)
  framed-Parsed =
      let a = (w.skbs n).dat in
      let code = opcode_code op in
      let dest = key_mac k in
      let dev = w.config.dev_addr in
      let b = (w.skbs n).bytes in
      let vc : framed.bytes (a + 14 + 28 + 1) ≡ vci k =
        whole_vc a nl code (vci k) dest dev dest b (omega arith) in
      let code_read : framed.bytes (a + 14 + 28) ≡ code =
        whole_opcode a nl code (vci k) dest dev dest b (code_small op) in
      rw (skb_pars-found_in framed ether) (
        read_opcode framed ether op known code_read (ground (arith, vc, valid)),
        read_length framed ether nl (whole_len a nl code (vci k) dest dev dest b fits),
        read_key framed ether c dev (vci k) vc (whole_gw a nl code (vci k) dest dev dest b)
            (source_third a nl code (vci k) dest dev dest b addr)
            (source_fourth a nl code (vci k) dest dev dest b addr)
            (source_fifth a nl code (vci k) dest dev dest b addr),
      )

  -- Where the buffer is a TTPoE frame, the key is on a virtual channel of at most 2 and has neither the gateway's nor
  -- the IPv4 flag, the opcode is a real one, the payload's length is under 65510 and the last three bytes of the host's
  -- address are bytes, setting up the headers succeeds, and a receiver, whatever its configuration, reads from the frame
  -- that opcode, that length, and for the sender the key of the host's address on that channel, without flags.
  pub net_setup-Parsed :
      ((skb_net_setup n (some k) nl op w).1 ≡ true)
      × Parsed c
          ((skb_net_setup n (some k) nl op w).0.skbs n)
          op
          nl
          (tag_key_make (some w.config.dev_addr) (vci k) false false)
          (skb_pars ((skb_net_setup n (some k) nl op w).0.skbs n) no_frame_hdr no_pkt_info)
  net_setup-Parsed =
      let e = made w n k nl op ether gw ip in
      let t : (n == n) ≡ true = (==_iff n n).1 refl in
      let hit : (skb_net_setup n (some k) nl op w).0.skbs n ≡ framed =
        ap (λ r. r.0.skbs n) e ∙ (simp t) in
      (ap (λ r. r.1) e, rw hit framed-Parsed)
