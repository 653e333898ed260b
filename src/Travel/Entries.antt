-- ===== src/Travel/Entries.antt =====
-- The moves of the module's other entries: frames that come in, and what a user writes.
use ttpoe.Common.{
  ltb, Option-cases, Bool-cases, inl, inr, ℕ, ◌+◌, ◌-◌, ◌%◌, refl, Bool, true, false, ◌&&◌, none,
  some, List, [], ◌∷◌, arith, inc32, ◌==◌, if◌then◌else◌,
}
use ttpoe.World.{Skb, World, FsmEvent, pkt_rx}
use ttpoe.World.Access.{with_event, with_skb, with_stats, kfree_skb}
use ttpoe.Fsm.{Opcode, opcode_to_event}
use ttpoe.Tag.{evlog_add}
use ttpoe.Frame.{
  ip_headroom, eth_hlen, Bytes, ethertype_ttpoe, FrameHdr, skb_pars, no_frame_hdr, no_pkt_info,
}
use ttpoe.World.{PktInfo}
use ttpoe.Queue.{evt_pget, evt_enqu}
use ttpoe.Receive.{
  skb_recv_func, gwmacadv, same_mac, takes_ipv4, recv_frame, learn_nhmac, skb_recv, frame_opcode,
  file_frame, sender_key, skb_dequ,
}
use ttpoe.Step.{may_work, count_work, do_global_work, evt_dequ}
use ttpoe.Travel.{Still, Moves, still, also}
use ttpoe.Travel.Quiet.{
  Still-refl, Still-trans, with_event-Still, with_skb-Still, with_stats-Still, evlog_add-Still,
}
use ttpoe.Travel.Queues.{pget-Moves}
use ttpoe.Travel.Payloads.{enqu_scheduled-Moves}
use ttpoe.Travel.Process.{evt_dequ-Moves, count_work-Still}

gwmacadv-Still : (z n : ℕ) (w : World) → Still z w (gwmacadv n w)
unfolding gwmacadv
gwmacadv-Still z n w = ground arith

if-Still :
    (z : ℕ) (w : World) (b : Bool) (x y : World)
    → Still z w x
    → Still z w y
    → Still z w (if b then x else y)
if-Still z w true x y p q = p
if-Still z w false x y p q = q

recv_frame-Still : (z n : ℕ) (w : World) → Still z w (recv_frame n w)
unfolding recv_frame
recv_frame-Still z n w = ground arith

learn_nhmac-Still : (z : ℕ) (mac : Bytes) (w : World) → Still z w (learn_nhmac mac w)
unfolding learn_nhmac
learn_nhmac-Still z mac w = ground arith

-- A frame that comes in moves no event.
skb_recv-Still : (z : ℕ) (flip : Bool) (n : ℕ) (w : World) → Still z w (skb_recv flip n w)
unfolding skb_recv
skb_recv-Still z flip n w =
    let skb = w.skbs n in
    let fh = (skb_pars skb no_frame_hdr no_pkt_info).0 in
    let dest : Bytes = λ i. skb.bytes (fh.eth + i) in
    let source : Bytes = λ i. skb.bytes (fh.eth + 6 + i) in
    let drop = kfree_skb n w in
    let taken = recv_frame n w in
    let told = gwmacadv n (learn_nhmac source w) in
    let d = with_skb-Still z n (λ b. record b { users = b.users - 1 }) w in
    let r = recv_frame-Still z n w in
    let g =
      Still-trans (learn_nhmac-Still z source w) (gwmacadv-Still z n (learn_nhmac source w)) in
    let bcast = (skb.protocol == ethertype_ttpoe) && (dest 0 % 2 == 1) in
    let raw = if same_mac dest w.config.dev_addr then taken else if bcast then told else drop in
    let ip = if takes_ipv4 w.config skb fh then taken else drop in
    if-Still z w flip drop (if w.config.ipv4_encap then ip else raw) d (
      if-Still z w w.config.ipv4_encap ip raw
        (if-Still z w (takes_ipv4 w.config skb fh) taken drop r d)
        (if-Still z w (same_mac dest w.config.dev_addr) taken (if bcast then told else drop) r
          (if-Still z w bcast told drop g d)))

pub skb_recv_func-Still :
    (z : ℕ) (expand flip : Bool) (n : ℕ) (w : World) → Still z w (skb_recv_func expand flip n w)
unfolding skb_recv_func
skb_recv_func-Still z expand flip n w =
    let room =
      λ (b : Skb). record b { bytes = λ i. b.bytes (i - ip_headroom); dat = b.dat + ip_headroom } in
    let push = λ (b : Skb). record b { dat = b.dat - eth_hlen; len = b.len + eth_hlen } in
    let u = with_skb n room w in
    let drop = kfree_skb n w in
    let wide = skb_recv flip n (with_skb n push u) in
    let straight = skb_recv flip n (with_skb n push w) in
    let d = with_skb-Still z n (λ b. record b { users = b.users - 1 }) w in
    let small = ltb (w.skbs n).dat ip_headroom in
    let made = if expand then wide else drop in
    let given = if small then made else straight in
    if-Still z w w.config.shutdown drop given d (
      if-Still z w small made straight
        (if-Still z w expand wide drop
          (Still-trans (with_skb-Still z n room w)
            (Still-trans (with_skb-Still z n push u) (skb_recv-Still z flip n (with_skb n push u))))
          d)
        (Still-trans (with_skb-Still z n push w) (skb_recv-Still z flip n (with_skb n push w))))

file_frame-Moves :
    (i n : ℕ) (op : Opcode) (fh : FrameHdr) (pi : PktInfo) (h : List ℕ) (w : World)
    → Moves (i ∷ h) w h (file_frame i n op fh pi w)
unfolding file_frame
file_frame-Moves i n op fh pi h w =
    let w1 = with_stats (λ c. record c { frm_ct = inc32 c.frm_ct; skb_ct = inc32 c.skb_ct }) w in
    let kid = sender_key w.config (w.skbs n) fh in
    let f =
      λ (e : FsmEvent). record e { rsk = some n; psi = pi; evt = opcode_to_event op; kid = kid } in
    let w2 = with_event i f w1 in
    let w3 = evt_enqu i w2 in
    also
      (still (i ∷ h) w w2 (λ z.
        Still-trans
          (with_stats-Still z (λ c. record c { frm_ct = inc32 c.frm_ct; skb_ct = inc32 c.skb_ct }) w
            refl refl)
          (with_event-Still z i f w1)))
      (also (enqu_scheduled-Moves i h w2)
        (still h w3 (evlog_add i pkt_rx op w3) (λ z. evlog_add-Still z i pkt_rx op w3)))

-- The first frame of the queue, `rest` behind it.
abbrev dequ_frame : ℕ → List ℕ → World → World × Bool
dequ_frame n rest w =
    let w0 = record w { skb_head = rest } in
    let (fh, pi, etype) = skb_pars (w.skbs n) no_frame_hdr no_pkt_info in
    let got = evt_pget w0 in
    let filed : World × Bool = elim (frame_opcode (w.skbs n) fh etype) [
      | none ↦ (kfree_skb n w0, false)
      | some op ↦ elim got.1 [
        | none ↦ (kfree_skb n got.0, false)
        | some i ↦ (file_frame i n op fh pi got.0, true)
      ]
    ] in
    filed

dequ_frame-Moves : (n : ℕ) (rest h : List ℕ) (w : World) → Moves h w h (dequ_frame n rest w).0
dequ_frame-Moves n rest h w =
    let w0 = record w { skb_head = rest } in
    let p = skb_pars (w.skbs n) no_frame_hdr no_pkt_info in
    let got = evt_pget w0 in
    let first : (z : ℕ) → Still z w w0 = λ z. ground arith in
    let m : Moves h w h w0 = still h w w0 first in
    elim (Option-cases (frame_opcode (w.skbs n) p.0 p.2)) [
      | inl f ↦
          rw (f, dequ_frame)
            (still h w (kfree_skb n w0) (λ z.
              Still-trans (first z)
                (with_skb-Still z n (λ b. record b { users = b.users - 1 }) w0)))
      | inr (op, f) ↦ elim (Option-cases got.1) [
        | inl g ↦
            rw (f, g, dequ_frame)
              (also m (
                also (rw g at (pget-Moves h w0)) (
                  still h got.0 (kfree_skb n got.0)
                    (λ z. with_skb-Still z n (λ b. record b { users = b.users - 1 }) got.0))))
        | inr (i, g) ↦
            rw (f, g, dequ_frame)
              (also m (also (rw g at (pget-Moves h w0)) (file_frame-Moves i n op p.0 p.1 h got.0)))
      ]
    ]

list_cases :
    (P : World → Type 0) (l : List ℕ) (x : World × Bool) (f : ℕ → List ℕ → World × Bool)
    → P x.0
    → ((n : ℕ) (r : List ℕ) → P (f n r).0)
    → P (elim l as (λ k. World × Bool) [ [] ↦ x | n ∷ r ↦ f n r ]).0
list_cases P [] x f p q = p
list_cases P (n ∷ r) x f p q = q n r

skb_dequ-Moves : (h : List ℕ) (w : World) → Moves h w h (skb_dequ w).0
unfolding skb_dequ
skb_dequ-Moves h w =
    list_cases (λ v. Moves h w h v) w.skb_head (w, false) (λ n r. dequ_frame n r w)
      (still h w w (λ z. Still-refl z w)) (λ n r. dequ_frame-Moves n r h w)

pub do_global_work-Moves : (h : List ℕ) (w : World) → Moves h w h (do_global_work w)
unfolding do_global_work
do_global_work-Moves h w =
    let w1 = count_work w in
    elim (Bool-cases (may_work w)) [
      | inr e ↦ rw (e, do_global_work) (still h w w (λ z. Still-refl z w))
      | inl e ↦
          rw (e, do_global_work)
            (also (still h w w1 (λ z. count_work-Still z w))
              (also (evt_dequ-Moves h w1) (skb_dequ-Moves h (evt_dequ w1).0)))
    ]
