-- ===== src/Handle.antt =====
-- The handlers of received events (modttpoe/fsm.c, the ttp_fsm_ev_hdl__ functions).
pub mod Retire
pub mod Numbers
use ttpoe.Common.{
  ℕ, ◌+◌, Bool, true, false, ◌&&◌, ◌||◌, not, Option, none, some, List, [], ◌∷◌, ltb, leb, ◌==◌,
  if◌then◌else◌, inc16, dec16, inc32, update, zero, suc,
}
use ttpoe.World.{
  World, Skb, FsmEvent, LinkTag, PktInfo, Stats, LogEvent, fsm_event, ttp_link_up, ttp_link_down,
  pkt_tx, pkt_drop, noc_payload_rx, noc_payload_dup, noc_payload_drop, noc_payload_free,
  sh_timer_start, sh_timer_restart, ln_timer_start, ln_timer_restart, timer_delete, timer_timeout,
}
use ttpoe.World.Access.{
  with_event, with_tag, with_skb, with_stats, bug_on, is_some, timer_pending, start_timer,
  del_timer, schedule_tag, schedule_global,
}
use ttpoe.Fsm.{
  Opcode, State, Event, Response, ttp_open, ttp_open_ack, ttp_open_nack, ttp_close, ttp_close_ack,
  ttp_close_nack, ttp_payload, ttp_ack, ttp_nack, ttp_nack_full, ttp_nack_nolink, op_invalid, stay,
  closed, open_sent, open_recd, opened, close_sent, close_recd, rs_none, rs_open, rs_open_ack,
  rs_open_nack, rs_close, rs_close_ack, rs_close_xack, rs_replay_data, rs_payload, rs_payload2,
  rs_ack, rs_nack, rs_nack_nolink, rs_noc_fail, rs_noc_end, rs_illegal, rs_interrupt, rs_drop,
  rs_stall, rxq_ttp_open, rxq_ttp_open_ack, rxq_ttp_ack, rxq_ttp_nack, rxq_ttp_payload,
  inq_alloc_tag, inq_no_tag, inq_yes_quiesced, response_op, event_is_valid, opcode_code, StateVar,
}
use ttpoe.Frame.{
  Bytes, put8, put32, skb_pars, FrameHdr, conn_opcode, conn_rx_seq, conn_tx_seq, no_frame_hdr,
  no_pkt_info,
}
use ttpoe.Buffer.{skb_prep, skb_xmit}
use ttpoe.Tag.{tag_get, evlog_add, tag_add, tag_reset, signal_tag, lookup_state_table}
use ttpoe.Queue.{
  Channel, evt_pget, evt_pput, evt_getrr, evt_cpqu, evt_enqu, noc_dequ, noc_requ, queue_of,
  set_queue, trigger_timeout,
}
use ttpoe.Noc.{noc_debug_rx}
use ttpoe.Bloom.{bloom_add}

-- A pending timer is deleted and logged.
unfoldable pub stop_timer : ℕ → ℕ → Opcode → World → World
stop_timer i s op w =
    if timer_pending (w.tags s) then evlog_add i timer_delete op (del_timer s w) else w

unfoldable pub handle_open : ℕ → World → World × Bool
handle_open i w = elim (tag_get w (w.events i).kid) [
  | none ↦ (w, true)
  | some s ↦ (with_tag s (λ t. record t { rx_seq_id = (w.events i).psi.txi_seq }) w, true)
]

unfoldable pub handle_open_ack : ℕ → World → World × Bool
unfolding stop_timer
handle_open_ack i w = elim (tag_get w (w.events i).kid) [
  | none ↦ (w, false)
  | some s ↦ (
    stop_timer i s ttp_open_ack
        (with_tag s (λ t. record t { retire_id = (w.events i).psi.rxi_seq }) w),
    true,
  )
]

-- The first payload, acknowledged, is retired and goes back to the pool.
unfoldable pub retire_first : ℕ → ℕ → List ℕ → World → World
retire_first s t rest w =
    let w1 = with_tag s (λ l. record l { retire_id = (w.events t).psi.txi_seq }) w in
    let w2 = evlog_add t noc_payload_free ttp_ack w1 in
    let w3 = evt_pput t (with_tag s (λ l. record l { ncq = rest }) w2) in
    let w4 = with_tag s (λ l. record l { tct = dec16 l.tct; try = 0 }) w3 in
    with_stats (λ c. record c { nocq = dec16 c.nocq }) w4

-- The first payload that waits is compared with the number acknowledged; the next is sent in any case.
unfoldable pub ack_payloads : ℕ → ℕ → World → World × Bool
ack_payloads i s w = elim (w.tags s).ncq [
  | [] ↦ (w, false)
  | t ∷ rest ↦
      if (w.events t).psi.txi_seq == (w.events i).psi.rxi_seq
      then (noc_requ s (retire_first s t rest w), true)
      else (noc_requ s w, true)
]

unfoldable pub handle_ack : ℕ → World → World × Bool
unfolding stop_timer ack_payloads
handle_ack i w = elim (tag_get w (w.events i).kid) [
  | none ↦ (w, false)
  | some s ↦ ack_payloads i s (stop_timer i s ttp_ack w)
]

-- A match of the numbers makes no difference.
unfoldable pub handle_nack : ℕ → World → World × Bool
unfolding stop_timer
handle_nack i w = elim (tag_get w (w.events i).kid) [
  | none ↦ (w, false)
  | some s ↦
      let w1 = stop_timer i s ttp_nack w in
      elim (w1.tags s).ncq [ [] ↦ (w1, false) | t ∷ rest ↦ (noc_requ s w1, true) ]
]

unfoldable pub handle_payload : ℕ → World → World × Bool
unfolding stop_timer
handle_payload i w = elim (tag_get w (w.events i).kid) [
  | none ↦ (w, false)
  | some s ↦ (stop_timer i s ttp_payload w, true)
]

-- `ttp_fsm_event_handle_fn`; the other events have no handler.
unfoldable pub handle : Event → ℕ → World → World × Bool
handle rxq_ttp_open i w = handle_open i w
handle rxq_ttp_open_ack i w = handle_open_ack i w
handle rxq_ttp_ack i w = handle_ack i w
handle rxq_ttp_nack i w = handle_nack i w
handle rxq_ttp_payload i w = handle_payload i w
handle _ i w = (w, true)
