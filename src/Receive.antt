-- ===== src/Receive.antt =====
-- The intake of frames (modttpoe/ttpoe.c): what the device hands over is checked and queued, and what is queued becomes an
-- event. The draw of ttp_rnd_flip, a random number of the kernel's against a rate, is the argument `flip`.
pub mod Written
pub mod Parse
pub mod Filing
pub mod Intake
use ttpoe.Common.{
  ℕ, ◌+◌, ◌-◌, ◌*◌, ◌/◌, ◌%◌, ◌^◌, Bool, true, false, ◌&&◌, not, Option, none, some, List, [], ◌∷◌,
  ◌++◌, ltb, ◌==◌, if◌then◌else◌, inc32,
}
use ttpoe.Fsm.{Opcode, ttp_open_nack, opcode_of_byte, opcode_to_event}
use ttpoe.Key.{tag_key_make, vc_is_valid}
use ttpoe.World.{World, Skb, Config, FsmEvent, PktInfo, pkt_rx}
use ttpoe.World.Access.{with_event, with_skb, with_stats, kfree_skb, schedule_global}
use ttpoe.Frame.{
  Bytes, FrameHdr, ip_headroom, eth_hlen, no_frame_hdr, no_pkt_info, ethertype_ttpoe, ethertype_ip,
  get16, get32, put_mac_with_oui, skb_pars, conn_opcode, conn_vc,
}
use ttpoe.Buffer.{skb_net_setup, parse_check, host_part}
use ttpoe.Tag.{evlog_add}
use ttpoe.Queue.{evt_pget, evt_enqu}

-- `ether_addr_equal`.
abbrev pub same_mac : Bytes → Bytes → Bool
same_mac a b =
    (a 0 == b 0) && (a 1 == b 1) && (a 2 == b 2) && (a 3 == b 3) && (a 4 == b 4) && (a 5 == b 5)

-- `ttp_gwmacadv`: the frame goes back as an OPEN_NACK without a tag.
unfoldable pub gwmacadv : ℕ → World → World
unfolding skb_net_setup
gwmacadv n w =
    let (w1, ok) = skb_net_setup n none 2 ttp_open_nack w in
    if ok then kfree_skb n (record w1 { sent = w1.sent ++ (w1.skbs n ∷ []) }) else kfree_skb n w1

-- The checks of the IPv4 mode, all on the way to a drop.
unfoldable pub takes_ipv4 : Config → Skb → FrameHdr → Bool
takes_ipv4 c skb fh =
    not (c.ipv4_prefix == 0)
    && (skb.protocol == ethertype_ip)
    && (get32 skb.bytes (fh.l3 + 16) == c.source_ipa)
    && (skb.bytes fh.l3 % 16 == 5)
    && (skb.bytes (fh.l3 + 9) == 17)
    && (get16 skb.bytes fh.l4 == 111)
    && (get16 skb.bytes (fh.l4 + 2) == 222)

-- The label `recv`.
unfoldable pub recv_frame : ℕ → World → World
recv_frame n w =
    let w1 =
      with_stats (λ c. record c { skb_rx = inc32 c.skb_rx })
        (record w { skb_head = w.skb_head ++ (n ∷ []) }) in
    if parse_check (w.skbs n) then schedule_global w1 else kfree_skb n w

-- The next hop's address is learnt from a frame of the gateway's.
unfoldable pub learn_nhmac : Bytes → World → World
learn_nhmac mac w =
    if same_mac w.config.nhmac mac then w else record w { config = record w.config { nhmac = mac } }

-- `ttp_skb_recv`.
unfoldable pub skb_recv : Bool → ℕ → World → World
unfolding takes_ipv4 recv_frame learn_nhmac gwmacadv
skb_recv flip n w =
    let skb = w.skbs n in
    let (fh, pi, etype) = skb_pars skb no_frame_hdr no_pkt_info in
    let dest : Bytes = λ i. skb.bytes (fh.eth + i) in
    let source : Bytes = λ i. skb.bytes (fh.eth + 6 + i) in
    if flip
    then kfree_skb n w
    else if w.config.ipv4_encap
    then if takes_ipv4 w.config skb fh then recv_frame n w else kfree_skb n w
    else if same_mac dest w.config.dev_addr
    then recv_frame n w
    else if (skb.protocol == ethertype_ttpoe) && (dest 0 % 2 == 1)
    then gwmacadv n (learn_nhmac source w)
    else kfree_skb n w

-- `ttpoe_skb_recv_func`: room is made in front of the headers where there is too little, which `expand` says whether the kernel
-- can, and the data begin at the Ethernet header again.
unfoldable pub skb_recv_func : Bool → Bool → ℕ → World → World
unfolding skb_recv
skb_recv_func expand flip n w =
    let with_room =
      with_skb n
        (λ b. record b { bytes = λ i. b.bytes (i - ip_headroom); dat = b.dat + ip_headroom }) w in
    let pushed : World → World =
      with_skb n (λ b. record b { dat = b.dat - eth_hlen; len = b.len + eth_hlen }) in
    let small = ltb (w.skbs n).dat ip_headroom in
    if w.config.shutdown
    then kfree_skb n w
    else if small
    then if expand then skb_recv flip n (pushed with_room) else kfree_skb n w
    else skb_recv flip n (pushed w)

-- The key of a frame's sender: by the shim header where a gateway passed it on, by the host part of the IPv4 address, or by
-- the Ethernet source.
unfoldable pub sender_key : Config → Skb → FrameHdr → ℕ
sender_key c skb fh =
    let b = skb.bytes in
    let node = host_part c.ipv4_pfxlen (get32 b (fh.l3 + 12)) in
    let low : Bytes = λ i. node / 2 ^ (8 * (2 - i)) % 256 in
    let shim : Bytes = λ i. b (fh.l4 + i) in
    let vc = b (conn_vc fh) in
    if skb.protocol == ethertype_ttpoe
    then if b (fh.l3 + 1) / 128 % 2 == 1
      then tag_key_make (some (put_mac_with_oui 0 (some shim) (λ a. 0))) vc true false
      else tag_key_make (some (λ i. b (fh.eth + 6 + i))) vc false false
    else tag_key_make (some (put_mac_with_oui 0 (some low) (λ a. 0))) vc false true

-- The opcode of a frame that passes the checks.
unfoldable pub frame_opcode : Skb → FrameHdr → ℕ → Option Opcode
frame_opcode skb fh etype =
    if not (etype == 0) && vc_is_valid (skb.bytes (conn_vc fh))
    then opcode_of_byte (skb.bytes (conn_opcode fh))
    else none

-- The event filled for a frame with the opcode and queued.
unfoldable pub file_frame : ℕ → ℕ → Opcode → FrameHdr → PktInfo → World → World
file_frame i n op fh pi w =
    let w1 = with_stats (λ c. record c { frm_ct = inc32 c.frm_ct; skb_ct = inc32 c.skb_ct }) w in
    let kid = sender_key w.config (w.skbs n) fh in
    let w2 =
      with_event i (λ e. record e { rsk = some n; psi = pi; evt = opcode_to_event op; kid = kid })
        w1 in
    evlog_add i pkt_rx op (evt_enqu i w2)

-- `ttp_skb_dequ`; `true` is 1, a frame that became an event.
unfoldable pub skb_dequ : World → World × Bool
skb_dequ w = elim w.skb_head [
  | [] ↦ (w, false)
  | n ∷ rest ↦
      let w0 = record w { skb_head = rest } in
      let (fh, pi, etype) = skb_pars (w.skbs n) no_frame_hdr no_pkt_info in
      let got = evt_pget w0 in
      let filed : World × Bool = elim (frame_opcode (w.skbs n) fh etype) [
        | none ↦ (kfree_skb n w0, false)
        | some op ↦ elim got.1 [
          | none ↦ (kfree_skb n got.0, false)
          | some i ↦ (file_frame i n op fh pi got.0, true)
        ]
      ] in
      filed
]
