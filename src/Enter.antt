-- ===== src/Enter.antt =====
-- What is done on the entry into a state (modttpoe/fsm.c, the ttp_fsm_sef__ functions).
pub mod Drain
pub mod Full
use ttpoe.Common.{
  length, ℕ, ◌+◌, Bool, true, false, ◌&&◌, ◌||◌, not, Option, none, some, List, [], ◌∷◌, ltb, leb,
  ◌==◌, if◌then◌else◌, inc16, dec16, inc32, update, zero, suc,
}
use ttpoe.World.{
  World, Skb, FsmEvent, LinkTag, PktInfo, Stats, LogEvent, fsm_event, ttp_link_up, ttp_link_down,
  pkt_tx, pkt_drop, noc_payload_rx, noc_payload_dup, noc_payload_drop, noc_payload_free,
  sh_timer_start, sh_timer_restart, ln_timer_start, ln_timer_restart, timer_delete, timer_timeout,
}
use ttpoe.World.Access.{
  with_event, with_tag, with_skb, with_stats, bug_on, is_some, timer_pending, start_timer,
  del_timer, schedule_tag, schedule_global,
}
use ttpoe.Fsm.{
  Opcode, State, Event, Response, ttp_open, ttp_open_ack, ttp_open_nack, ttp_close, ttp_close_ack,
  ttp_close_nack, ttp_payload, ttp_ack, ttp_nack, ttp_nack_full, ttp_nack_nolink, op_invalid, stay,
  closed, open_sent, open_recd, opened, close_sent, close_recd, rs_none, rs_open, rs_open_ack,
  rs_open_nack, rs_close, rs_close_ack, rs_close_xack, rs_replay_data, rs_payload, rs_payload2,
  rs_ack, rs_nack, rs_nack_nolink, rs_noc_fail, rs_noc_end, rs_illegal, rs_interrupt, rs_drop,
  rs_stall, rxq_ttp_open, rxq_ttp_open_ack, rxq_ttp_ack, rxq_ttp_nack, rxq_ttp_payload,
  inq_alloc_tag, inq_no_tag, inq_yes_quiesced, response_op, event_is_valid, opcode_code, StateVar,
}
use ttpoe.Frame.{
  Bytes, put8, put32, skb_pars, FrameHdr, conn_opcode, conn_rx_seq, conn_tx_seq, no_frame_hdr,
  no_pkt_info,
}
use ttpoe.Buffer.{skb_prep, skb_xmit}
use ttpoe.Tag.{tag_get, evlog_add, tag_add, tag_reset, signal_tag, lookup_state_table}
use ttpoe.Queue.{
  Channel, evt_pget, evt_pput, evt_getrr, evt_cpqu, evt_enqu, noc_dequ, noc_requ, queue_of,
  set_queue, trigger_timeout,
}
use ttpoe.Noc.{noc_debug_rx}
use ttpoe.Bloom.{bloom_add}

unfoldable pub enter_closed : ℕ → World → World × Bool
enter_closed i w = elim (tag_get w (w.events i).kid) [
  | none ↦ (w, false)
  | some s ↦
      let w1 = with_tag s (λ t. record t { state = closed }) w in
      (tag_reset s (evlog_add i ttp_link_down op_invalid w1), true)
]

unfoldable pub enter_open : ℕ → World → World × Bool
enter_open i w = elim (tag_get w (w.events i).kid) [
  | none ↦ (w, false)
  | some s ↦
      let w1 = with_tag s (λ t. record t { state = opened }) w in
      (noc_requ s (evlog_add i ttp_link_up op_invalid w1), true)
]

unfoldable pub enter_open_sent : ℕ → World → World × Bool
enter_open_sent i w = elim (tag_get w (w.events i).kid) [
  | none ↦ (w, false)
  | some s ↦
      let w1 = with_tag s (λ t. record t { state = open_sent }) w in
      let mark = if timer_pending (w1.tags s) then sh_timer_restart else sh_timer_start in
      (evlog_add i mark op_invalid (start_timer s 250 w1), true)
]

-- `while (ttp_noc_dequ (lt));` in as many rounds as the queue is long, and one that finds it empty.
unfoldable pub drain_from : ℕ → ℕ → World → World
drain_from zero s w = w
drain_from (suc n) s w =
    let r = noc_dequ s w in let rest = drain_from n s r.0 in if r.1 then rest else r.0

unfoldable pub drain : ℕ → World → World
unfolding drain_from
drain s w = drain_from (suc (length (w.tags s).ncq)) s w

unfoldable pub enter_close_sent : ℕ → World → World × Bool
unfolding drain
enter_close_sent i w = elim (tag_get w (w.events i).kid) [
  | none ↦ (w, false)
  | some s ↦ (drain s (with_tag s (λ t. record t { state = close_sent }) w), true)
]

-- A tag is made for the sender of an OPEN, and the event goes round once more as the outcome.
unfoldable pub enter_open_recd : ℕ → World → World × Bool
enter_open_recd i w =
    let (w1, rv) = tag_add (w.events i).kid (bloom_add (w.events i).kid w) in
    let made = with_event i (λ e. record e { evt = inq_alloc_tag }) w1 in
    let alloc : World = elim (tag_get made (made.events i).kid) [
      | none ↦ bug_on true made
      | some s ↦
          with_tag s (λ t. record t { rx_seq_id = (made.events i).psi.txi_seq; state = open_recd })
            made
    ] in
    let full = with_event i (λ e. record e { evt = inq_no_tag }) w1 in
    (evt_cpqu i (if rv == 0 then alloc else full), true)

unfoldable pub enter_close_recd : ℕ → World → World × Bool
unfolding drain
enter_close_recd i w = elim (tag_get w (w.events i).kid) [
  | none ↦ (w, false)
  | some s ↦
      let w1 = drain s (with_tag s (λ t. record t { state = close_recd }) w) in
      (evt_cpqu i (with_event i (λ e. record e { evt = inq_yes_quiesced }) w1), true)
]

-- `ttp_fsm_entry_function`; a link that stays enters nothing.
unfoldable pub enter : State → ℕ → World → World × Bool
enter stay i w = (w, true)
enter closed i w = enter_closed i w
enter open_sent i w = enter_open_sent i w
enter open_recd i w = enter_open_recd i w
enter opened i w = enter_open i w
enter close_sent i w = enter_close_sent i w
enter close_recd i w = enter_close_recd i w
