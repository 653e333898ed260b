-- ===== src/Travel/Answers.antt =====
-- The responses, handlers and entries that move no event.
use ttpoe.Common.{
  ◌+◌, if◌then◌else◌, inc32, Option-cases, inl, inr, ℕ, refl, Bool, true, false, Option, none, some,
  arith,
}
use ttpoe.World.{
  World, noc_payload_rx, noc_payload_dup, noc_payload_drop, ln_timer_start, ln_timer_restart,
  pkt_tx, pkt_drop,
}
use ttpoe.Tag.{evlog_add, tag_get}
use ttpoe.Fsm.{
  Opcode, ttp_ack, ttp_nack, ttp_nack_nolink, opcode_code, ttp_open, ttp_close, ttp_close_ack,
  ttp_close_nack, ttp_payload,
}
use ttpoe.World.Access.{with_tag, with_skb}
use ttpoe.Frame.{put8, conn_opcode, skb_pars, no_frame_hdr, no_pkt_info}
use ttpoe.Noc.{noc_debug_rx}
use ttpoe.Buffer.{skb_prep, skb_xmit}
use ttpoe.Respond.{
  prepared, transmit, with_seqs, refuses_close, accept_payload, receive_payload, send_payload,
  write_seqs, arm_timer, rs_common, respond_open, respond_close, respond_close_xack, respond_ack,
  respond_payload, respond_payload2,
}
use ttpoe.Travel.{Still}
use ttpoe.Travel.Quiet.{
  skb_prep-Still, noc_debug_rx-Still, bug_on-Still, with_stats-Still, evlog_add-Still,
  write_seqs-Still, skb_xmit-Still, with_tag-Still, Still-refl, arm_timer-Still, Still-trans,
}

-- The frame of an answer that goes out.
sent-Still :
    (z i n : ℕ) (op : Opcode) (rx tx ra ta : ℕ) (w : World)
    → Still z w (transmit i n op (write_seqs n ra ta (with_seqs i rx tx w)))
sent-Still z i n op rx tx ra ta w =
    let u = with_seqs i rx tx w in
    let v = write_seqs n ra ta u in
    ground (
      arith,
      write_seqs-Still z n ra ta u,
      skb_xmit-Still z n v,
      evlog_add-Still z i pkt_tx op (skb_xmit n v),
    )

-- An answer that begins with a frame: nothing moves if nothing does once the frame is there.
prepared-Still :
    (z i : ℕ) (op : Opcode) (w : World) (send : ℕ → World → World × Bool)
    → ((n : ℕ) (u : World) → Still z u (send n u).0)
    → Still z w (prepared i op w send).0
prepared-Still z i op w send k =
    let u = (skb_prep i op w).0 in
    elim (Option-cases (skb_prep i op w).1) [
      | inl e ↦ ground (arith, e, skb_prep-Still z i op w, evlog_add-Still z i pkt_drop op u)
      | inr (n, e) ↦ ground (arith, e, skb_prep-Still z i op w, k n u)
    ]

pub rs_common-Still : (z : ℕ) (op : Opcode) (i : ℕ) (w : World) → Still z w (rs_common op i w).0
unfolding rs_common
rs_common-Still z op i w =
    let rx : World → ℕ = λ u. elim (tag_get w (w.events i).kid) [
      | none ↦ (u.events i).psi.rxi_seq
      | some s ↦ (u.tags s).rx_seq_id
    ] in
    prepared-Still z i op w
      (λ n u. (transmit i n op (write_seqs n (rx u) 0 (with_seqs i (rx u) 0 u)), true))
      (λ n u. sent-Still z i n op (rx u) 0 (rx u) 0 u)

-- The same for an answer that needs a tag.
tagged-Still :
    (z i : ℕ) (op : Opcode) (w : World) (o : Option ℕ) (send : ℕ → ℕ → World → World × Bool)
    → ((s n : ℕ) (u : World) → Still z u (send s n u).0)
    → Still z w
        (elim o as (λ x. World × Bool) [ none ↦ (w, false) | some s ↦ prepared i op w (send s) ]).0
tagged-Still z i op w none send k = Still-refl z w
tagged-Still z i op w (some s) send k = prepared-Still z i op w (send s) (k s)

pub respond_open-Still : (z i : ℕ) (w : World) → Still z w (respond_open i w).0
unfolding respond_open
respond_open-Still z i w =
    let rx : ℕ → World → ℕ = λ s u. (u.tags s).rx_seq_id in
    let tx : ℕ → World → ℕ = λ s u. (u.tags s).retire_id in
    let more : ℕ → World → World = λ s. with_tag s (λ t. record t { opens = inc32 t.opens }) in
    let out : ℕ → ℕ → World → World =
      λ s n u. write_seqs n (rx s u) (tx s u) (with_seqs i (rx s u) (tx s u) u) in
    tagged-Still z i ttp_open w (tag_get w (w.events i).kid)
      (λ s n u. (transmit i n ttp_open (more s (out s n u)), true))
      λ s n u.
        let v = more s (out s n u) in
        ground (
          arith,
          write_seqs-Still z n (rx s u) (tx s u) (with_seqs i (rx s u) (tx s u) u),
          with_tag-Still z s (λ t. record t { opens = inc32 t.opens }) (out s n u) refl,
          skb_xmit-Still z n v,
          evlog_add-Still z i pkt_tx ttp_open (skb_xmit n v),
        )

pub respond_close-Still : (z i : ℕ) (w : World) → Still z w (respond_close i w).0
unfolding respond_close
respond_close-Still z i w =
    let out : ℕ → World → World = λ n u.
      transmit i n ttp_close (write_seqs n (u.events i).psi.rxi_seq (u.events i).psi.txi_seq u) in
    tagged-Still z i ttp_close w (tag_get w (w.events i).kid)
      (λ s n u. (arm_timer i s 500 ln_timer_start ln_timer_restart (out n u), true))
      λ s n u.
        let v = write_seqs n (u.events i).psi.rxi_seq (u.events i).psi.txi_seq u in
        ground (
          arith,
          write_seqs-Still z n (u.events i).psi.rxi_seq (u.events i).psi.txi_seq u,
          skb_xmit-Still z n v,
          evlog_add-Still z i pkt_tx ttp_close (skb_xmit n v),
          arm_timer-Still z i s 500 ln_timer_start ln_timer_restart (out n u),
        )

pub respond_close_xack-Still : (z i : ℕ) (w : World) → Still z w (respond_close_xack i w).0
unfolding respond_close_xack
respond_close_xack-Still z i w =
    let rx : World → ℕ = λ u. (u.events i).psi.rxi_seq in
    let out : ℕ → World → World = λ n u. write_seqs n (rx u) 0 (with_seqs i (rx u) 0 u) in
    let nack : ℕ → World → World = λ n u.
      with_skb n
        (λ b. record b {
          bytes =
              put8 (conn_opcode (skb_pars ((out n u).skbs n) no_frame_hdr no_pkt_info).0)
                (opcode_code ttp_close_nack) b.bytes;
        })
        (out n u) in
    tagged-Still z i ttp_close_ack w (tag_get w (w.events i).kid)
      (λ s n u.
        if refuses_close ((out n u).tags s).state (rx u) ((out n u).tags s).tx_seq_id
        then (transmit i n ttp_close_nack (nack n u), true)
        else (transmit i n ttp_close_ack (out n u), true))
      λ s n u. ground (
        arith,
        write_seqs-Still z n (rx u) 0 (with_seqs i (rx u) 0 u),
        skb_xmit-Still z n (nack n u),
        evlog_add-Still z i pkt_tx ttp_close_nack (skb_xmit n (nack n u)),
        skb_xmit-Still z n (out n u),
        evlog_add-Still z i pkt_tx ttp_close_ack (skb_xmit n (out n u)),
      )

accept_payload-Still :
    (z i s : ℕ) (src : ℕ → ℕ) (nl : ℕ) (w : World) → Still z w (accept_payload i s src nl w).1
unfolding accept_payload
accept_payload-Still z i s src nl w =
    let v =
      with_tag s (λ t. record t { rx_seq_id = inc32 t.rx_seq_id }) (noc_debug_rx src nl w).0 in
    ground (
      arith,
      noc_debug_rx-Still z src nl w,
      with_tag-Still z s (λ t. record t { rx_seq_id = inc32 t.rx_seq_id }) (noc_debug_rx src nl w).0
          refl,
      evlog_add-Still z i noc_payload_rx ttp_ack v,
    )

receive_payload-Still :
    (z i s : ℕ) (src : ℕ → ℕ) (nl txi : ℕ) (w : World)
    → Still z w (receive_payload i s src nl txi w).1
unfolding receive_payload
receive_payload-Still z i s src nl txi w = ground (
  arith,
  accept_payload-Still z i s src nl w,
  evlog_add-Still z i noc_payload_dup ttp_ack w,
  evlog_add-Still z i noc_payload_drop ttp_nack w,
)

pub send_payload-Still : (z i s ms : ℕ) (w : World) → Still z w (send_payload i s ms w).0
send_payload-Still z i s ms w =
    let tx : World → ℕ = λ u. (u.events i).psi.txi_seq in
    let out : ℕ → World → World =
      λ n u. transmit i n ttp_payload (write_seqs n 0 (tx u) (with_seqs i 0 (tx u) u)) in
    prepared-Still z i ttp_payload w
      (λ n u. (arm_timer i s ms ln_timer_start ln_timer_restart (out n u), true))
      (λ n u.
        Still-trans (sent-Still z i n ttp_payload 0 (tx u) 0 (tx u) u)
          (arm_timer-Still z i s ms ln_timer_start ln_timer_restart (out n u)))

pub respond_payload-Still : (z i : ℕ) (w : World) → Still z w (respond_payload i w).0
unfolding respond_payload
respond_payload-Still z i w = elim (Option-cases (tag_get w (w.events i).kid)) [
  | inl e ↦ ground (arith, e)
  | inr (s, e) ↦ ground (arith, e, send_payload-Still z i s 375 w)
]

pub respond_payload2-Still : (z i : ℕ) (w : World) → Still z w (respond_payload2 i w).0
unfolding respond_payload2
respond_payload2-Still z i w = elim (Option-cases (tag_get w (w.events i).kid)) [
  | inl e ↦ ground (arith, e)
  | inr (s, e) ↦ ground (arith, e, send_payload-Still z i s 625 w)
]

-- What a received payload asks for, and the frame of the answer.
answer-Still :
    (z i s : ℕ) (src : ℕ → ℕ) (nl txi : ℕ) (w : World)
    → let r = receive_payload i s src nl txi w in
      Still z w
        (prepared i r.0 r.1 λ n u. (
          transmit i n r.0
              (write_seqs n (u.tags s).rx_seq_id 0 (with_seqs i (u.tags s).rx_seq_id 0 u)),
          true,
        )).0
answer-Still z i s src nl txi w =
    let r = receive_payload i s src nl txi w in
    Still-trans (receive_payload-Still z i s src nl txi w) (
      prepared-Still z i r.0 r.1
        (λ n u. (
          transmit i n r.0
              (write_seqs n (u.tags s).rx_seq_id 0 (with_seqs i (u.tags s).rx_seq_id 0 u)),
          true,
        ))
        (λ n u. sent-Still z i n r.0 (u.tags s).rx_seq_id 0 (u.tags s).rx_seq_id 0 u))

pub respond_ack-Still : (z i : ℕ) (w : World) → Still z w (respond_ack i w).0
unfolding respond_ack
respond_ack-Still z i w = elim (Option-cases (w.events i).rsk) [
  | inl e ↦ rw (e, respond_ack) (bug_on-Still z true w)
  | inr (r, e) ↦ elim (Option-cases (tag_get w (w.events i).kid)) [
    | inl f ↦
        rw (e, f, respond_ack)
          (Still-trans (evlog_add-Still z i noc_payload_drop ttp_nack_nolink w) (
            with_stats-Still z (λ c. record c { drp_ct = inc32 c.drp_ct })
              (evlog_add i noc_payload_drop ttp_nack_nolink w) refl refl))
    | inr (s, f) ↦
        let pars = skb_pars (w.skbs r) no_frame_hdr no_pkt_info in
        rw (e, f, respond_ack)
          (answer-Still z i s (λ j. (w.skbs r).bytes (pars.0.noc + j)) pars.1.noc_len pars.1.txi_seq
            w)
  ]
]
