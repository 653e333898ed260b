-- ===== src/Receive/Filing.antt =====
-- A frame that is filed as an event.
use ttpoe.Common.{
  ℕ, ◌≡◌, ◌≢◌, refl, sym, ◌∙◌, ap, subst, Option, none, some, List, [], ◌∷◌, ◌++◌, arith, inc32,
}
use ttpoe.Fsm.{
  Opcode, ttp_open, ttp_open_ack, ttp_open_nack, ttp_close, ttp_close_ack, ttp_close_nack,
  ttp_payload, ttp_ack, ttp_nack, ttp_nack_full, ttp_nack_nolink, op_invalid, opcode_of_byte,
  opcode_to_event,
}
use ttpoe.Fsm.Wire.{opcode_of_byte_iff}
use ttpoe.World.{World, Skb, rx_q_elem, PktInfo, pkt_rx}
use ttpoe.World.Access.{with_event, with_stats}
use ttpoe.Frame.{FrameHdr, conn_opcode}
use ttpoe.Tag.{evlog_add, tag_get}
use ttpoe.Tag.Log.{evlog_add-SameButLog}
use ttpoe.Queue.{evt_enqu, evt_enqu_locked, schedule_for, route, rxq}
use ttpoe.Receive.{frame_opcode, file_frame, sender_key}

-- A frame's opcode is a real one.
pub real_opcode :
    (skb : Skb) (fh : FrameHdr) (etype : ℕ) (op : Opcode)
    → frame_opcode skb fh etype ≡ some op
    → op ≢ op_invalid
unfolding frame_opcode
real_opcode skb fh etype op h = go (opcode_of_byte_iff (skb.bytes (conn_opcode fh)) op).0
  where
    go :
        (opcode_of_byte (skb.bytes (conn_opcode fh)) ≡ some op
          → (skb.bytes (conn_opcode fh) ≡ ttpoe.Fsm.opcode_code op) × (op ≢ op_invalid))
        → op ≢ op_invalid
    go f = ground (arith, h, f)

-- Every event of a frame goes to the receive queue.
received_route : (op : Opcode) → op ≢ op_invalid → route (opcode_to_event op) ≡ (rx_q_elem, rxq)
unfolding route opcode_to_event
received_route ttp_open h = refl
received_route ttp_open_ack h = refl
received_route ttp_open_nack h = refl
received_route ttp_close h = refl
received_route ttp_close_ack h = refl
received_route ttp_close_nack h = refl
received_route ttp_payload h = refl
received_route ttp_ack h = refl
received_route ttp_nack h = refl
received_route ttp_nack_full h = refl
received_route ttp_nack_nolink h = refl
received_route op_invalid h = absurd (h refl)

-- An event at the end of the receive queue; the other queues and the pool stay, and so do its facts.
record Enqueued (i : ℕ) (w v : World) : Type 0 where
  rx : v.rxq_head ≡ w.rxq_head ++ (i ∷ [])
  tx : v.txq_head ≡ w.txq_head
  ak : v.akq_head ≡ w.akq_head
  inq : v.inq_head ≡ w.inq_head
  pool : v.pool_head ≡ w.pool_head
  evt : (v.events i).evt ≡ (w.events i).evt
  kid : (v.events i).kid ≡ (w.events i).kid
  rsk : (v.events i).rsk ≡ (w.events i).rsk

locked-Enqueued :
    (i : ℕ) (w : World)
    → route (w.events i).evt ≡ (rx_q_elem, rxq)
    → Enqueued i w (evt_enqu_locked i w)
locked-Enqueued i w h =
    unfold evt_enqu_locked in
    rw (h, evt_enqu_locked)
      (record {
        rx = refl;
        tx = refl;
        ak = refl;
        inq = refl;
        pool = refl;
        evt = ground arith;
        kid = ground arith;
        rsk = ground arith;
      })

scheduled : (i kid : ℕ) (w v : World) → Enqueued i w v → Enqueued i w (schedule_for kid v)
scheduled i kid w v e = go (tag_get v kid) refl
  where
    go : (o : Option ℕ) → tag_get v kid ≡ o → Enqueued i w (schedule_for kid v)
    go none h =
        rw (h, schedule_for)
          (record {
            rx = e.rx;
            tx = e.tx;
            ak = e.ak;
            inq = e.inq;
            pool = e.pool;
            evt = e.evt;
            kid = e.kid;
            rsk = e.rsk;
          })
    go (some s) h =
        rw (h, schedule_for)
          (record {
            rx = e.rx;
            tx = e.tx;
            ak = e.ak;
            inq = e.inq;
            pool = e.pool;
            evt = e.evt;
            kid = e.kid;
            rsk = e.rsk;
          })

enqu-Enqueued :
    (i : ℕ) (w : World) → route (w.events i).evt ≡ (rx_q_elem, rxq) → Enqueued i w (evt_enqu i w)
unfolding evt_enqu
enqu-Enqueued i w h =
    scheduled i ((evt_enqu_locked i w).events i).kid w (evt_enqu_locked i w) (locked-Enqueued i w h)

-- A frame became the event `i`: it stands last in the receive queue, with the event of its opcode, its sender's key and the
-- buffer; the other queues stay, and the pool is `pool'`.
pub record Filed (i n : ℕ) (op : Opcode) (fh : FrameHdr) (pool' : List ℕ) (w v : World)
    : Type 0 where
  pub rx : v.rxq_head ≡ w.rxq_head ++ (i ∷ [])
  pub tx : v.txq_head ≡ w.txq_head
  pub ak : v.akq_head ≡ w.akq_head
  pub inq : v.inq_head ≡ w.inq_head
  pub pool : v.pool_head ≡ pool'
  pub evt : (v.events i).evt ≡ opcode_to_event op
  pub kid : (v.events i).kid ≡ sender_key w.config (w.skbs n) fh
  pub rsk : (v.events i).rsk ≡ some n

module _ (i n : ℕ) (op : Opcode) (fh : FrameHdr) (pi : PktInfo) (w : World)
    (real : op ≢ op_invalid) where
  filled : World
  filled =
      with_event i
        (λ e. record e {
          rsk = some n;
          psi = pi;
          evt = opcode_to_event op;
          kid = sender_key w.config (w.skbs n) fh;
        })
        (with_stats (λ c. record c { frm_ct = inc32 c.frm_ct; skb_ct = inc32 c.skb_ct }) w)

  filled_event :
      ((filled.events i).evt ≡ opcode_to_event op)
      × ((filled.events i).kid ≡ sender_key w.config (w.skbs n) fh)
      × ((filled.events i).rsk ≡ some n)
  unfolding filled
  filled_event = ground arith

  filled_rest :
      (filled.rxq_head ≡ w.rxq_head)
      × (filled.txq_head ≡ w.txq_head)
      × (filled.akq_head ≡ w.akq_head)
      × (filled.inq_head ≡ w.inq_head)
      × (filled.pool_head ≡ w.pool_head)
  unfolding filled
  filled_rest = (refl, refl, refl, refl, refl)

  file_is : file_frame i n op fh pi w ≡ evlog_add i pkt_rx op (evt_enqu i filled)
  unfolding file_frame filled
  file_is = refl

  pub file_frame-Filed : Filed i n op fh w.pool_head w (file_frame i n op fh pi w)
  file_frame-Filed =
      let q = enqu-Enqueued i filled (ap route filled_event.0 ∙ received_route op real) in
      let g = evlog_add-SameButLog i pkt_rx op (evt_enqu i filled) in
      let f = ap (λ e. e i) g.events in
      subst (Filed i n op fh w.pool_head w) (sym file_is) (record {
        rx = g.rxq_head ∙ q.rx ∙ ap (λ l. l ++ (i ∷ [])) filled_rest.0;
        tx = g.txq_head ∙ q.tx ∙ filled_rest.1;
        ak = g.akq_head ∙ q.ak ∙ filled_rest.2;
        inq = g.inq_head ∙ q.inq ∙ filled_rest.3;
        pool = g.pool_head ∙ q.pool ∙ filled_rest.4;
        evt = ap (λ e. e.evt) f ∙ q.evt ∙ filled_event.0;
        kid = ap (λ e. e.kid) f ∙ q.kid ∙ filled_event.1;
        rsk = ap (λ e. e.rsk) f ∙ q.rsk ∙ filled_event.2;
      })
