-- ===== src/Frame.antt =====
-- The bytes of a frame: addresses of its headers and what the module writes into them
-- (modttpoe/ttpoe.c, modttpoe/ttpoe.h, include/ttp.h). Numbers stand in a frame with the high byte
-- first, so `ntohs` and `htons` are the reading and the writing of two bytes.
pub mod Bytes
use ttpoe.Common.{
  ℕ, ◌+◌, ◌-◌, ◌*◌, ◌/◌, ◌%◌, ◌^◌, Bool, true, false, ◌&&◌, ◌||◌, not, Option, none, some, ltb, leb,
  ◌==◌, if◌then◌else◌, update,
}
use ttpoe.Key.{bit}
use ttpoe.World.{World, Skb, PktInfo, Kernel}
use ttpoe.Fsm.{Opcode, opcode_code}

abbrev pub ethertype_ttpoe : ℕ
ethertype_ttpoe = 0x9ac6

abbrev pub ethertype_ip : ℕ
ethertype_ip = 0x0800

-- sizeof the headers: ETH_HLEN, struct ttp_tsla_type_hdr and struct iphdr, struct ttp_tsla_shim_hdr and
-- struct udphdr, struct ttp_transport_hdr, struct ttp_ttpoe_noc_hdr.
abbrev pub eth_hlen : ℕ
eth_hlen = 14

abbrev pub l3_hlen : ℕ
l3_hlen = 20

abbrev pub l4_hlen : ℕ
l4_hlen = 8

abbrev pub ttp_hlen : ℕ
ttp_hlen = 18

abbrev pub noc_hlen : ℕ
noc_hlen = 16

-- TTP_OE_ENCP_LEN and TTP_IP_ENCP_LEN, TTP_OE_HDRS_LEN and TTP_IP_HDRS_LEN, TTP_IP_HEADROOM.
abbrev pub encp_len : ℕ
encp_len = 26

abbrev pub hdrs_len : ℕ
hdrs_len = 46

abbrev pub ip_headroom : ℕ
ip_headroom = 38

abbrev pub min_frame_len : ℕ
min_frame_len = 64

abbrev pub max_frame_len : ℕ
max_frame_len = 1536

abbrev pub Bytes : Type 0
Bytes = ℕ → ℕ

abbrev pub get16 : Bytes → ℕ → ℕ
get16 b a = b a * 256 + b (a + 1)

abbrev pub get32 : Bytes → ℕ → ℕ
get32 b a = b a * 16777216 + b (a + 1) * 65536 + b (a + 2) * 256 + b (a + 3)

abbrev pub put8 : ℕ → ℕ → Bytes → Bytes
put8 a v b = update b a (v % 256)

abbrev pub put16 : ℕ → ℕ → Bytes → Bytes
put16 a v b = put8 (a + 1) v (put8 a (v / 256) b)

abbrev pub put32 : ℕ → ℕ → Bytes → Bytes
put32 a v b = put16 (a + 2) v (put16 a (v / 65536) b)

-- Three and six bytes copied from `src`.
abbrev pub put_mac24 : ℕ → Bytes → Bytes → Bytes
put_mac24 a src b = put8 (a + 2) (src 2) (put8 (a + 1) (src 1) (put8 a (src 0) b))

abbrev pub put_mac : ℕ → Bytes → Bytes → Bytes
put_mac a src b = put_mac24 (a + 3) (λ i. src (i + 3)) (put_mac24 a src b)

-- `ttp_prepare_mac_with_oui` for TESLA_MAC_OUI at address `a`: the word with the OUI, which clears byte 3,
-- then the low three bytes.
abbrev pub put_mac_with_oui : ℕ → Option Bytes → Bytes → Bytes
put_mac_with_oui a none b = put32 a 0x98ed5c00 b
put_mac_with_oui a (some mac24) b = put_mac24 (a + 3) mac24 (put32 a 0x98ed5c00 b)

-- The pointers of struct ttp_frame_hdr as addresses; `l3` and `l4` are the two unions.
pub record FrameHdr : Type 0 where
  pub eth : ℕ
  pub l3 : ℕ
  pub l4 : ℕ
  pub ttp : ℕ
  pub noc : ℕ
  pub dat : ℕ

abbrev pub no_frame_hdr : FrameHdr
no_frame_hdr = record { eth = 0; l3 = 0; l4 = 0; ttp = 0; noc = 0; dat = 0 }

abbrev pub no_pkt_info : PktInfo
no_pkt_info = record {
  skb_dat = 0;
  skb_len = 0;
  noc_len = 0;
  tl4_off = 0;
  ttp_off = 0;
  noc_off = 0;
  dat_off = 0;
  rxi_seq = 0;
  txi_seq = 0;
}

abbrev pub is_ttp_protocol : ℕ → Bool
is_ttp_protocol p = (p == ethertype_ttpoe) || (p == ethertype_ip)

-- `ttpoe_fill_hdr_offsets`: both protocols have headers of the same sizes.
unfoldable pub fill_hdr_offsets : Skb → PktInfo → PktInfo
fill_hdr_offsets skb pi =
    let pi1 =
      if is_ttp_protocol skb.protocol
      then record pi { tl4_off = l3_hlen; ttp_off = l4_hlen + l3_hlen }
      else pi in
    record pi1 { noc_off = ttp_hlen + pi1.ttp_off; dat_off = noc_hlen + (ttp_hlen + pi1.ttp_off) }

-- The length field of the shim header (TTPoE) or of the UDP header (IPv4).
abbrev pub l4_length : Skb → FrameHdr → ℕ
l4_length skb fh =
    if skb.protocol == ethertype_ttpoe
    then get16 skb.bytes (fh.l4 + 6)
    else get16 skb.bytes (fh.l4 + 4)

-- `ttp_skb_pars`: the headers' addresses and the packet's facts, filled into those given, and the
-- ethertype, 0 for one that is not supported.
unfoldable pub skb_pars : Skb → FrameHdr → PktInfo → FrameHdr × PktInfo × ℕ
unfolding fill_hdr_offsets
skb_pars skb fh pi =
    let pi1 = fill_hdr_offsets skb pi in
    let fh1 : FrameHdr = record {
      eth = skb.dat;
      l3 = skb.dat + eth_hlen;
      l4 = skb.dat + eth_hlen + pi1.tl4_off;
      ttp = skb.dat + eth_hlen + pi1.ttp_off;
      noc = skb.dat + eth_hlen + pi1.noc_off;
      dat = skb.dat + eth_hlen + pi1.dat_off;
    } in
    let n = l4_length skb fh1 in
    let pi2 = record pi1 {
      noc_len = if leb encp_len n then n - encp_len else pi1.noc_len;
      rxi_seq = get32 skb.bytes (fh1.ttp + 14);
      txi_seq = get32 skb.bytes (fh1.ttp + 10);
    } in
    if is_ttp_protocol skb.protocol
    then (fh1, pi2, skb.protocol)
    else (record fh { eth = skb.dat }, pi1, 0)

-- The fields of struct ttp_transport_hdr that the module uses.
abbrev pub conn_opcode : FrameHdr → ℕ
conn_opcode fh = fh.ttp

abbrev pub conn_vc : FrameHdr → ℕ
conn_vc fh = fh.ttp + 1

abbrev pub conn_tx_seq : FrameHdr → ℕ
conn_tx_seq fh = fh.ttp + 10

abbrev pub conn_rx_seq : FrameHdr → ℕ
conn_rx_seq fh = fh.ttp + 14

-- `ttp_prepare_tth`: style, version and length of the type header, the gateway bit, the total length.
unfoldable pub prepare_tth : ℕ → ℕ → Bool → Bytes → Bytes
prepare_tth a len gw b = put16 (a + 2) len (put8 (a + 1) (bit gw * 128) (put8 a 5 b))

-- Twenty bytes of zeros.
abbrev pub clear20 : ℕ → Bytes → Bytes
clear20 a b j = if leb a j && ltb j (a + l3_hlen) then 0 else b j

-- The header's fields but its checksum, and the checksum.
abbrev pub ipv4_fields : ℕ → ℕ → ℕ → ℕ → Bool → Bytes → Bytes
ipv4_fields a tot_len sa4 da4 gw b = put16 (a + 2) tot_len (
    put32 (a + 16) da4 (
      put32 (a + 12) sa4
        (put8 (a + 9) (if gw then 146 else 17) (put8 (a + 8) 9 (put8 a 0x45 (clear20 a b))))))

abbrev pub ipv4_header : Kernel → ℕ → ℕ → ℕ → ℕ → Bool → Bytes → Bytes
ipv4_header k a tot_len sa4 da4 gw b =
    put16 (a + 10) (k.ip_fast_csum (ipv4_fields a tot_len sa4 da4 gw b) a)
      (ipv4_fields a tot_len sa4 da4 gw b)

-- `ttp_prepare_ipv4`, `none` for a frame that is too long.
unfoldable pub prepare_ipv4 : Kernel → ℕ → ℕ → ℕ → ℕ → Bool → Bytes → Option Bytes
prepare_ipv4 k a len sa4 da4 gw b =
    let frame_len = (eth_hlen + l3_hlen + len) % 65536 in
    let padded = if ltb frame_len min_frame_len then min_frame_len else frame_len in
    if ltb max_frame_len frame_len
    then none
    else some (ipv4_header k a (padded - eth_hlen) sa4 da4 gw b)

abbrev pub v6_hlen : ℕ
v6_hlen = 40

abbrev pub put128 : ℕ → ℕ → Bytes → Bytes
put128 a v b =
    put32 (a + 12) v
      (put32 (a + 8) (v / 2 ^ 32) (put32 (a + 4) (v / 2 ^ 64) (put32 a (v / 2 ^ 96) b)))

-- The bytes of an IPv6 header set to zero.
abbrev clear40 : ℕ → Bytes → Bytes
clear40 a b j = if leb a j && ltb j (a + v6_hlen) then 0 else b j

abbrev pub ipv6_header : ℕ → ℕ → ℕ → ℕ → Bytes → Bytes
ipv6_header a payload_len sa6 da6 b = put16 (a + 4) payload_len (
    put128 (a + 24) da6
      (put128 (a + 8) sa6 (put8 (a + 7) 9 (put8 (a + 6) 146 (put8 a (6 * 16) (clear40 a b))))))

-- `ttp_prepare_ipv6`, `none` for a frame that is too long.
unfoldable pub prepare_ipv6 : ℕ → ℕ → ℕ → ℕ → Bytes → Option Bytes
prepare_ipv6 a len sa6 da6 b =
    let frame_len = (eth_hlen + v6_hlen + len) % 65536 in
    let padded = if ltb frame_len min_frame_len then min_frame_len else frame_len in
    if ltb max_frame_len frame_len
    then none
    else some (ipv6_header a (padded - eth_hlen - v6_hlen) sa6 da6 b)

-- `is_valid_ether_addr`: no multicast address and not zero.
abbrev pub is_valid_ether_addr : Bytes → Bool
is_valid_ether_addr m =
    (m 0 % 2 == 0)
    && not ((m 0 == 0) && (m 1 == 0) && (m 2 == 0) && (m 3 == 0) && (m 4 == 0) && (m 5 == 0))
