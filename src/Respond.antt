-- ===== src/Respond.antt =====
-- The responses of the state machine (modttpoe/fsm.c, the ttp_fsm_rs__ functions). A function that
-- returns `bool` gives the world beside it. A timer is set to the same time whether it is pending or not;
-- only the log tells the two. The random drop of a payload has rate 0: it never happens.
pub mod Window
use ttpoe.Common.{
  ℕ, ◌+◌, Bool, true, false, ◌&&◌, ◌||◌, not, Option, none, some, List, [], ◌∷◌, ltb, leb, ◌==◌,
  if◌then◌else◌, inc16, dec16, inc32, update, zero, suc,
}
use ttpoe.World.{
  World, Skb, FsmEvent, LinkTag, PktInfo, Stats, LogEvent, fsm_event, ttp_link_up, ttp_link_down,
  pkt_tx, pkt_drop, noc_payload_rx, noc_payload_dup, noc_payload_drop, noc_payload_free,
  sh_timer_start, sh_timer_restart, ln_timer_start, ln_timer_restart, timer_delete, timer_timeout,
}
use ttpoe.World.Access.{
  with_event, with_tag, with_skb, with_stats, bug_on, is_some, timer_pending, start_timer,
  del_timer, schedule_tag, schedule_global,
}
use ttpoe.Fsm.{
  Opcode, State, Event, Response, ttp_open, ttp_open_ack, ttp_open_nack, ttp_close, ttp_close_ack,
  ttp_close_nack, ttp_payload, ttp_ack, ttp_nack, ttp_nack_full, ttp_nack_nolink, op_invalid, stay,
  closed, open_sent, open_recd, opened, close_sent, close_recd, rs_none, rs_open, rs_open_ack,
  rs_open_nack, rs_close, rs_close_ack, rs_close_xack, rs_replay_data, rs_payload, rs_payload2,
  rs_ack, rs_nack, rs_nack_nolink, rs_noc_fail, rs_noc_end, rs_illegal, rs_interrupt, rs_drop,
  rs_stall, rxq_ttp_open, rxq_ttp_open_ack, rxq_ttp_ack, rxq_ttp_nack, rxq_ttp_payload,
  inq_alloc_tag, inq_no_tag, inq_yes_quiesced, response_op, event_is_valid, opcode_code, StateVar,
}
use ttpoe.Frame.{
  Bytes, put8, put32, skb_pars, FrameHdr, conn_opcode, conn_rx_seq, conn_tx_seq, no_frame_hdr,
  no_pkt_info,
}
use ttpoe.Buffer.{skb_prep, skb_xmit}
use ttpoe.Tag.{tag_get, evlog_add, tag_add, tag_reset, signal_tag, lookup_state_table}
use ttpoe.Queue.{
  Channel, evt_pget, evt_pput, evt_getrr, evt_cpqu, evt_enqu, noc_dequ, noc_requ, queue_of,
  set_queue, trigger_timeout,
}
use ttpoe.Noc.{noc_debug_rx}
use ttpoe.Bloom.{bloom_add}

-- The sequence numbers of a frame.
unfoldable pub write_seqs : ℕ → ℕ → ℕ → World → World
write_seqs n rx tx w =
    let fh = (skb_pars (w.skbs n) no_frame_hdr no_pkt_info).0 in
    with_skb n
      (λ b. record b { bytes = put32 (conn_tx_seq fh) tx (put32 (conn_rx_seq fh) rx b.bytes) }) w

abbrev pub with_seqs : ℕ → ℕ → ℕ → World → World
with_seqs i rx tx w =
    with_event i (λ e. record e { psi = record e.psi { rxi_seq = rx; txi_seq = tx } }) w

-- The timer of a tag after a frame, with the log of a start or a restart.
unfoldable pub arm_timer : ℕ → ℕ → ℕ → LogEvent → LogEvent → World → World
arm_timer i s ms start restart w =
    evlog_add i (if timer_pending (w.tags s) then restart else start) op_invalid
      (start_timer s ms w)

-- The buffer of a response with the given rest, and the log of a frame that cannot be made.
abbrev pub prepared : ℕ → Opcode → World → (ℕ → World → World × Bool) → World × Bool
prepared i op w send =
    let (w1, got) = skb_prep i op w in
    elim got [ none ↦ (evlog_add i pkt_drop op w1, false) | some n ↦ send n w1 ]

abbrev pub transmit : ℕ → ℕ → Opcode → World → World
transmit i n op w = evlog_add i pkt_tx op (skb_xmit n w)

-- TTP_FSM_RS__common: the reply of an opcode with the tag's receive number, or the event's without a tag.
unfoldable pub rs_common : Opcode → ℕ → World → World × Bool
unfolding write_seqs
rs_common op i w =
    let lt = tag_get w (w.events i).kid in
    prepared i op w λ n w1.
      let rx : ℕ = elim lt [ none ↦ (w1.events i).psi.rxi_seq | some s ↦ (w1.tags s).rx_seq_id ] in
      (transmit i n op (write_seqs n rx 0 (with_seqs i rx 0 w1)), true)

unfoldable pub respond_open : ℕ → World → World × Bool
unfolding write_seqs
respond_open i w = elim (tag_get w (w.events i).kid) [
  | none ↦ (w, false)
  | some s ↦ prepared i ttp_open w λ n w1.
      let rx = (w1.tags s).rx_seq_id in
      let tx = (w1.tags s).retire_id in
      let w2 = write_seqs n rx tx (with_seqs i rx tx w1) in
      let w3 = with_tag s (λ t. record t { opens = inc32 t.opens }) w2 in
      (transmit i n ttp_open w3, true)
]

unfoldable pub respond_close : ℕ → World → World × Bool
unfolding write_seqs arm_timer
respond_close i w = elim (tag_get w (w.events i).kid) [
  | none ↦ (w, false)
  | some s ↦ prepared i ttp_close w λ n w1.
      let psi = (w1.events i).psi in
      let w2 = transmit i n ttp_close (write_seqs n psi.rxi_seq psi.txi_seq w1) in
      (arm_timer i s 500 ln_timer_start ln_timer_restart w2, true)
]

-- Whether a CLOSE is refused: its receive number is beyond what was sent, or one more in CLOSE_SENT.
unfoldable pub refuses_close : State → ℕ → ℕ → Bool
refuses_close opened rx tx = ltb tx rx
refuses_close close_recd rx tx = ltb tx rx
refuses_close close_sent rx tx = ltb (inc32 tx) rx
refuses_close _ rx tx = false

unfoldable pub respond_close_xack : ℕ → World → World × Bool
unfolding write_seqs refuses_close
respond_close_xack i w = elim (tag_get w (w.events i).kid) [
  | none ↦ (w, false)
  | some s ↦ prepared i ttp_close_ack w λ n w1.
      let rx = (w1.events i).psi.rxi_seq in
      let w2 = write_seqs n rx 0 (with_seqs i rx 0 w1) in
      let fh = (skb_pars (w2.skbs n) no_frame_hdr no_pkt_info).0 in
      let nack =
        with_skb n
          (λ b. record b { bytes = put8 (conn_opcode fh) (opcode_code ttp_close_nack) b.bytes })
          w2 in
      if refuses_close (w2.tags s).state rx (w2.tags s).tx_seq_id
      then (transmit i n ttp_close_nack nack, true)
      else (transmit i n ttp_close_ack w2, true)
]

abbrev takes_payload : State → Bool
takes_payload opened = true
takes_payload close_sent = true
takes_payload close_recd = true
takes_payload _ = false

abbrev count_drop : World → World
count_drop w = with_stats (λ c. record c { drp_ct = inc32 c.drp_ct }) w

-- A payload in its turn: it is put on the page, or there is no room for it.
unfoldable pub accept_payload : ℕ → ℕ → Bytes → ℕ → World → Opcode × World
accept_payload i s src nl w =
    let (w1, fits) = noc_debug_rx src nl w in
    let w2 = with_tag s (λ t. record t { rx_seq_id = inc32 t.rx_seq_id }) w1 in
    let w3 = evlog_add i noc_payload_rx ttp_ack w2 in
    if fits
    then (ttp_ack, with_stats (λ c. record c { pld_ct = inc32 c.pld_ct }) w3)
    else (ttp_nack_full, w1)

-- The opcode that answers a payload with its effect, for the tag, the payload's bytes, length and number.
unfoldable pub receive_payload : ℕ → ℕ → Bytes → ℕ → ℕ → World → Opcode × World
unfolding accept_payload
receive_payload i s src nl txi w =
    let rx = (w.tags s).rx_seq_id in
    if nl == 0
    then (ttp_nack, w)
    else if takes_payload (w.tags s).state
    then if inc32 rx == txi
      then accept_payload i s src nl w
      else if not (txi == 0) && ltb txi (inc32 rx)
      then (ttp_ack, count_drop (evlog_add i noc_payload_dup ttp_ack w))
      else (ttp_nack, count_drop (evlog_add i noc_payload_drop ttp_nack w))
    else (ttp_ack, w)

-- The bytes of the received buffer from its payload on, and the packet's facts; without one, a null pointer is read.
unfoldable pub respond_ack : ℕ → World → World × Bool
unfolding receive_payload write_seqs
respond_ack i w = elim (w.events i).rsk [
  | none ↦ (bug_on true w, false)
  | some r ↦
      let (fh, pif, _) = skb_pars (w.skbs r) no_frame_hdr no_pkt_info in
      let src : Bytes = λ j. (w.skbs r).bytes (fh.noc + j) in
      elim (tag_get w (w.events i).kid) [
        | none ↦ (count_drop (evlog_add i noc_payload_drop ttp_nack_nolink w), false)
        | some s ↦
            let (op, w1) = receive_payload i s src pif.noc_len pif.txi_seq w in
            prepared i op w1 λ n w2.
              let rx = (w2.tags s).rx_seq_id in
              (transmit i n op (write_seqs n rx 0 (with_seqs i rx 0 w2)), true)
      ]
]

unfoldable pub respond_replay_data : ℕ → World → World × Bool
respond_replay_data i w = elim (tag_get w (w.events i).kid) [
  | none ↦ (w, false)
  | some s ↦ (noc_requ s w, true)
]

-- The frame of a payload, and the timer of the given length.
abbrev pub send_payload : ℕ → ℕ → ℕ → World → World × Bool
send_payload i s ms w = prepared i ttp_payload w λ n w1.
    let tx = (w1.events i).psi.txi_seq in
    let w2 = transmit i n ttp_payload (write_seqs n 0 tx (with_seqs i 0 tx w1)) in
    (arm_timer i s ms ln_timer_start ln_timer_restart w2, true)

unfoldable pub respond_payload : ℕ → World → World × Bool
unfolding write_seqs arm_timer
respond_payload i w = elim (tag_get w (w.events i).kid) [
  | none ↦ (w, false)
  | some s ↦ if (w.events i).psi.noc_len == 0 then (w, false) else send_payload i s 375 w
]

unfoldable pub respond_payload2 : ℕ → World → World × Bool
unfolding write_seqs arm_timer
respond_payload2 i w = elim (tag_get w (w.events i).kid) [
  | none ↦ (w, false)
  | some s ↦
      if (w.events i).psi.noc_len == 0
      then (w, false)
      else if ltb (w.tags s).rx_seq_id (w.events i).psi.txi_seq
      then (w, false)
      else send_payload i s 625 w
]

-- `ttp_fsm_response_fn`. What has no function, and DROP and INTERRUPT, change nothing.
unfoldable pub respond : Response → ℕ → World → World × Bool
respond rs_open i w = respond_open i w
respond rs_open_ack i w = rs_common (response_op rs_open_ack) i w
respond rs_open_nack i w = rs_common (response_op rs_open_nack) i w
respond rs_close i w = respond_close i w
respond rs_close_ack i w = rs_common (response_op rs_close_ack) i w
respond rs_close_xack i w = respond_close_xack i w
respond rs_replay_data i w = respond_replay_data i w
respond rs_payload i w = respond_payload i w
respond rs_payload2 i w = respond_payload2 i w
respond rs_ack i w = respond_ack i w
respond rs_nack i w = rs_common (response_op rs_nack) i w
respond rs_nack_nolink i w = rs_common (response_op rs_nack_nolink) i w
respond _ i w = (w, true)
