-- ===== src/Buffer.antt =====
-- Socket buffers from allocation to transmission (modttpoe/ttpoe.c).
use ttpoe.Common.{
  ℕ, ◌+◌, ◌-◌, ◌*◌, ◌%◌, ◌^◌, Bool, true, false, ◌&&◌, not, Option, none, some, [], ◌∷◌, ◌++◌, ltb,
  leb, ◌==◌, if◌then◌else◌, inc32,
}
use Prim.Native.Nat.{bit_or}
use mathlib.Core.Option
use ttpoe.Fsm.{Opcode, ttp_payload, opcode_code}
use ttpoe.Key.{vci, mac_byte, gwf, tip}
use ttpoe.World.{World, Skb, Config}
use ttpoe.World.Access.{with_event, with_skb, with_stats, bug_on, is_some, kfree_skb}
use ttpoe.Frame.{
  Bytes, FrameHdr, no_frame_hdr, no_pkt_info, ethertype_ttpoe, ethertype_ip, eth_hlen, encp_len,
  hdrs_len, ip_headroom, min_frame_len, get16, put8, put16, put_mac24, put_mac, put_mac_with_oui,
  skb_pars, conn_opcode, conn_vc, is_ttp_protocol, prepare_tth, prepare_ipv4, is_valid_ether_addr,
}
use ttpoe.Tag.{tag_get}

-- `ttp_skb_aloc`: the buffer, where the kernel has one, with room for a payload of `nl` bytes.
unfoldable pub skb_aloc : ℕ → World → World × Option ℕ
skb_aloc nl w =
    let frame_len = (eth_hlen + hdrs_len + nl) % 65536 in
    let w1 = record w { next_skb = w.next_skb + 1 } in
    if w.kernel.alloc_ok w.next_skb
    then (
      with_skb w.next_skb
          (λ b. record b {
            dat = ip_headroom;
            len = if ltb frame_len min_frame_len then min_frame_len else frame_len;
            protocol = ethertype_ttpoe;
            users = 1;
          })
          w1,
      some w.next_skb,
    )
    else (w1, none)

-- `ttp_skb_xmit`; `dev_queue_xmit` sends the frame and takes the reference.
unfoldable pub skb_xmit : ℕ → World → World
skb_xmit n w =
    if w.config.shutdown
    then kfree_skb n w
    else kfree_skb n (
        with_stats (λ c. record c { skb_tx = inc32 c.skb_tx })
          (record w { sent = w.sent ++ (w.skbs n ∷ []) }))

-- `ttp_tsk_bind`: the packet's facts, and a reference to the queued event's buffer.
unfoldable pub tsk_bind : ℕ → ℕ → World → World
tsk_bind i q w =
    let qe = w.events q in
    elim qe.tsk [
      | none ↦ with_event i (λ e. record e { psi = qe.psi }) w
      | some n ↦
          with_skb n (λ b. record b { users = inc32 b.users })
            (with_event i (λ e. record e { psi = qe.psi; tsk = some n }) w)
    ]

-- `ttp_tsk_move`: the event's buffer is taken from it, its data pointer as it was saved.
unfoldable pub tsk_move : ℕ → World → World × Option ℕ
tsk_move i w =
    let ev = w.events i in
    elim ev.tsk [
      | none ↦ (w, none)
      | some n ↦ (
        with_event i (λ e. record e { tsk = none })
            (with_skb n
              (λ b. record b {
                dat = ev.psi.skb_dat;
                len = ev.psi.skb_len;
                protocol = ethertype_ttpoe;
              })
              w),
        some n,
      )
    ]

-- `ttp_setup_ethhdr` for the low bytes of an address, or for the next hop.
abbrev pub setup_ethhdr : ℕ → Option Bytes → Config → Bytes → Bytes
setup_ethhdr a (some dmac_low) c b =
    put_mac_with_oui a (some dmac_low)
      (put_mac (a + 6) c.dev_addr (put16 (a + 12) ethertype_ttpoe b))
setup_ethhdr a none c b =
    put_mac a c.nhmac (put_mac (a + 6) c.dev_addr (put16 (a + 12) ethertype_ttpoe b))

-- `ttpoe_parse_check`: a known ethertype and a frame that is long enough.
unfoldable pub parse_check : Skb → Bool
parse_check b = is_ttp_protocol b.protocol && leb min_frame_len b.len

abbrev pub key_mac : ℕ → Bytes
key_mac k i = mac_byte i k

-- The flags by which a tag is reached: over the gateway, or by IPv4. A reply without a tag goes over the gateway.
abbrev via_gw : Option ℕ → Bool
via_gw none = true
via_gw (some k) = gwf k == 1

abbrev via_ip : Option ℕ → Bool
via_ip none = false
via_ip (some k) = not (gwf k == 1) && (tip k == 1)

abbrev tag_vc : Option ℕ → ℕ
tag_vc none = 2
tag_vc (some k) = vci k

abbrev dst_node : Option ℕ → Bytes
dst_node none i = 0
dst_node (some k) i = mac_byte i k

-- The Ethernet and type headers of the three ways to reach a peer.
unfoldable pub l2_headers : FrameHdr → Config → Option ℕ → ℕ → Bytes → Option Bytes
unfolding prepare_tth
l2_headers fh c lt nl b =
    let ip : Option Bytes =
      if c.source_ipa == 0 then none else some (setup_ethhdr fh.eth (Option.map key_mac lt) c b) in
    let gw : Option Bytes =
      if is_valid_ether_addr c.nhmac
      then some (setup_ethhdr fh.eth none c (prepare_tth fh.l3 (nl + hdrs_len) true b))
      else none in
    let raw : Option Bytes =
      some (
        setup_ethhdr fh.eth (Option.map key_mac lt) c
          (prepare_tth fh.l3 (nl + hdrs_len) false b)) in
    if via_ip lt then ip else if via_gw lt then gw else raw

-- The UDP or the shim header.
unfoldable pub l4_headers : FrameHdr → Config → Option ℕ → ℕ → Bytes → Bytes
l4_headers fh c lt nl b =
    if via_ip lt
    then put16 (fh.l4 + 6) 0
        (put16 (fh.l4 + 4) (nl + encp_len) (put16 (fh.l4 + 2) 222 (put16 fh.l4 111 b)))
    else put16 (fh.l4 + 6) (nl + encp_len)
        (put_mac24 (fh.l4 + 3) (dst_node lt) (put_mac24 fh.l4 (λ i. c.dev_addr (i + 3)) b))

-- `ttp_skb_net_setup` for a tag's key, or for none.
unfoldable pub skb_net_setup : ℕ → Option ℕ → ℕ → Opcode → World → World × Bool
unfolding l2_headers l4_headers
skb_net_setup n lt nl op w =
    let (fh, pi, etype) = skb_pars (w.skbs n) no_frame_hdr no_pkt_info in
    let b1 =
      put8 (conn_vc fh) (tag_vc lt) (put8 (conn_opcode fh) (opcode_code op) (w.skbs n).bytes) in
    let w1 = with_skb n (λ b. record b { bytes = b1 }) w in
    if etype == 0 then (w, false) else elim (l2_headers fh w.config lt nl b1) [
      | none ↦ (w1, false)
      | some b2 ↦ (with_skb n (λ b. record b { bytes = l4_headers fh w.config lt nl b2 }) w, true)
    ]

-- The host part of an IPv4 address.
abbrev pub host_part : ℕ → ℕ → ℕ
host_part pfxlen a = a % 2 ^ (32 - pfxlen)

-- `ttp_ipv4_encap_setup`: the IP header over the type header, the address from the low bytes of the
-- destination. The first byte of `dip`, which the code leaves unset, is cleared by a prefix of 8 bits or more.
unfoldable pub ipv4_encap_setup : ℕ → World → World × Bool
ipv4_encap_setup n w =
    let c = w.config in
    let w1 = with_skb n (λ b. record b { protocol = ethertype_ip }) w in
    let b = (w1.skbs n).bytes in
    let (fh, pi, etype) = skb_pars (w1.skbs n) no_frame_hdr no_pkt_info in
    let low = b (fh.eth + 3) * 65536 + b (fh.eth + 4) * 256 + b (fh.eth + 5) in
    let dip = bit_or (host_part c.ipv4_pfxlen low) c.ipv4_prefix in
    let done : World × Bool =
      elim (prepare_ipv4 w.kernel fh.l3 (get16 b (fh.l4 + 4)) c.source_ipa dip false b) [
        | none ↦ (w1, false)
        | some b1 ↦ (
          with_skb n
              (λ s. record s {
                bytes = put16 (fh.eth + 12) ethertype_ip (put_mac fh.eth c.nhmac b1);
              })
              w1,
          true,
        )
      ] in
    if c.ipv4_prefix == 0
    then (w, false)
    else if c.source_ipa == 0
    then (w, false)
    else if is_valid_ether_addr c.nhmac
    then done
    else (w, false)

-- The key by which `ttp_skb_prep` reaches the peer: the tag's, or the event's own.
unfoldable pub prep_key : ℕ → World → ℕ
prep_key i w = elim (tag_get w (w.events i).kid) [
  | none ↦ (w.events i).kid
  | some s ↦ (w.tags s).rkid
]

-- The checks after the buffer is there; it is dropped where one fails.
unfoldable pub finish_prep : ℕ → ℕ → ℕ → Opcode → World → World × Option ℕ
finish_prep i n nl op w =
    let (w1, ok1) = skb_net_setup n (some (prep_key i w)) nl op w in
    let (w2, ok2) = if w.config.ipv4_encap then ipv4_encap_setup n w1 else (w1, true) in
    if ok1
    then if ok2 && parse_check (w2.skbs n)
      then (bug_on (is_some (w2.events i).tsk) w2, some n)
      else (kfree_skb n w2, none)
    else (kfree_skb n w1, none)

-- The length of the payload that an opcode carries: `nl` of `ttp_skb_prep`.
unfoldable pub payload_len : ℕ → Opcode → World → ℕ
payload_len i ttp_payload w = (w.events i).psi.noc_len
payload_len i _ w = 0

abbrev pub lacks_payload : Opcode → ℕ → Bool
lacks_payload ttp_payload nl = nl == 0
lacks_payload _ nl = false

-- `ttp_skb_prep`: the event's own buffer or a new one, with all headers but the sequence numbers.
unfoldable pub skb_prep : ℕ → Opcode → World → World × Option ℕ
unfolding payload_len
skb_prep i op w =
    let nl = payload_len i op w in
    let (w1, moved) = tsk_move i w in
    let (w2, new) = skb_aloc nl w in
    let reused : World × Option ℕ = elim moved [
      | none ↦ (w1, none)
      | some n ↦ finish_prep i n nl op w1
    ] in
    let fresh : World × Option ℕ = elim new [
      | none ↦ (w2, none)
      | some n ↦ finish_prep i n nl op w2
    ] in
    if lacks_payload op nl then (w, none) else if is_some moved then reused else fresh
