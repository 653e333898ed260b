-- ===== src/Travel/Actions.antt =====
-- The moves of the handlers, the responses and the entries into states, by the tables that name them.
use ttpoe.Common.{
  Option-cases, Bool-cases, inl, inr, ℕ, ◌+◌, refl, true, none, some, List, arith, ◌==◌,
  if◌then◌else◌,
}
use ttpoe.World.{
  World, FsmEvent, LinkTag, ttp_link_up, ttp_link_down, sh_timer_start, sh_timer_restart,
}
use ttpoe.World.Access.{with_event, with_tag, timer_pending, start_timer, bug_on}
use ttpoe.Fsm.{
  ttp_payload, ttp_open_ack, op_invalid, Event, State, Response, closed, opened, open_sent,
  open_recd, close_sent, close_recd, inq_alloc_tag, inq_no_tag, inq_yes_quiesced,
}
use ttpoe.Tag.{tag_get, evlog_add, tag_add, tag_reset}
use ttpoe.Bloom.{bloom_add}
use ttpoe.Handle.{handle_open, handle_open_ack, handle_payload, handle}
use ttpoe.Enter.{
  drain, enter_closed, enter_open, enter_open_sent, enter_close_sent, enter_open_recd,
  enter_close_recd, enter,
}
use ttpoe.Respond.{respond}
use ttpoe.Travel.{Still, Moves, still, also}
use ttpoe.Travel.Quiet.{
  Still-refl, Still-trans, with_event-Still, with_tag-Still, evlog_add-Still, tag_reset-Still,
  tag_add-Still, bloom_add-Still, bug_on-Still,
}
use ttpoe.Travel.Answers.{
  rs_common-Still, respond_open-Still, respond_close-Still, respond_close_xack-Still,
  respond_ack-Still, respond_payload-Still, respond_payload2-Still,
}
use ttpoe.Travel.Payloads.{cpqu-Moves}
use ttpoe.Travel.Requeue.{noc_requ-Moves}
use ttpoe.Fsm.{
  rxq_ttp_open, rxq_ttp_open_ack, rxq_ttp_ack, rxq_ttp_nack, rxq_ttp_payload, stay, rs_open,
  rs_open_ack, rs_open_nack, rs_close, rs_close_ack, rs_close_xack, rs_replay_data, rs_payload,
  rs_payload2, rs_ack, rs_nack, rs_nack_nolink, response_op,
}
use ttpoe.Respond.{respond_replay_data}
use ttpoe.Travel.Handlers.{stop_timer-Still, handle_ack-Moves, handle_nack-Moves, drain-Moves}

pub handle-Moves : (v : Event) (i : ℕ) (h : List ℕ) (w : World) → Moves h w h (handle v i w).0
unfolding handle handle_open handle_open_ack handle_payload
handle-Moves rxq_ttp_open i h w = still h w (handle_open i w).0 λ z.
    elim (Option-cases (tag_get w (w.events i).kid)) [
      | inl e ↦ ground (arith, e)
      | inr (s, e) ↦ ground (arith, e)
    ]
handle-Moves rxq_ttp_open_ack i h w = still h w (handle_open_ack i w).0 λ z.
    elim (Option-cases (tag_get w (w.events i).kid)) [
      | inl e ↦ ground (arith, e)
      | inr (s, e) ↦
          let u = with_tag s (λ t. record t { retire_id = (w.events i).psi.rxi_seq }) w in
          ground (
            arith,
            e,
            with_tag-Still z s (λ t. record t { retire_id = (w.events i).psi.rxi_seq }) w refl,
            stop_timer-Still z i s ttp_open_ack u,
          )
    ]
handle-Moves rxq_ttp_ack i h w = handle_ack-Moves i h w
handle-Moves rxq_ttp_nack i h w = handle_nack-Moves i h w
handle-Moves rxq_ttp_payload i h w = still h w (handle_payload i w).0 λ z.
    elim (Option-cases (tag_get w (w.events i).kid)) [
      | inl e ↦ ground (arith, e)
      | inr (s, e) ↦ ground (arith, e, stop_timer-Still z i s ttp_payload w)
    ]
handle-Moves _ i h w = still h w w (λ z. Still-refl z w)

replay-Moves : (i : ℕ) (h : List ℕ) (w : World) → Moves h w h (respond_replay_data i w).0
unfolding respond_replay_data
replay-Moves i h w = elim (Option-cases (tag_get w (w.events i).kid)) [
  | inl e ↦ rw (e, respond_replay_data) (still h w w (λ z. Still-refl z w))
  | inr (s, e) ↦ rw (e, respond_replay_data) (noc_requ-Moves s h w)
]

pub respond-Moves : (r : Response) (i : ℕ) (h : List ℕ) (w : World) → Moves h w h (respond r i w).0
unfolding respond
respond-Moves rs_open i h w = still h w _ (λ z. respond_open-Still z i w)
respond-Moves rs_open_ack i h w = still h w _ (λ z. rs_common-Still z (response_op rs_open_ack) i w)
respond-Moves rs_open_nack i h w =
    still h w _ (λ z. rs_common-Still z (response_op rs_open_nack) i w)
respond-Moves rs_close i h w = still h w _ (λ z. respond_close-Still z i w)
respond-Moves rs_close_ack i h w =
    still h w _ (λ z. rs_common-Still z (response_op rs_close_ack) i w)
respond-Moves rs_close_xack i h w = still h w _ (λ z. respond_close_xack-Still z i w)
respond-Moves rs_replay_data i h w = replay-Moves i h w
respond-Moves rs_payload i h w = still h w _ (λ z. respond_payload-Still z i w)
respond-Moves rs_payload2 i h w = still h w _ (λ z. respond_payload2-Still z i w)
respond-Moves rs_ack i h w = still h w _ (λ z. respond_ack-Still z i w)
respond-Moves rs_nack i h w = still h w _ (λ z. rs_common-Still z (response_op rs_nack) i w)
respond-Moves rs_nack_nolink i h w =
    still h w _ (λ z. rs_common-Still z (response_op rs_nack_nolink) i w)
respond-Moves _ i h w = still h w w (λ z. Still-refl z w)

closed-Moves : (i : ℕ) (h : List ℕ) (w : World) → Moves h w h (enter_closed i w).0
unfolding enter_closed
closed-Moves i h w = elim (Option-cases (tag_get w (w.events i).kid)) [
  | inl e ↦ rw (e, enter_closed) (still h w w (λ z. Still-refl z w))
  | inr (s, e) ↦
      let f = λ (t : LinkTag). record t { state = closed } in
      let w1 = with_tag s f w in
      let w2 = evlog_add i ttp_link_down op_invalid w1 in
      rw (e, enter_closed)
        (still h w (tag_reset s w2) λ z.
          Still-trans (with_tag-Still z s f w refl) (
            Still-trans (evlog_add-Still z i ttp_link_down op_invalid w1) (tag_reset-Still z s w2)))
]

open-Moves : (i : ℕ) (h : List ℕ) (w : World) → Moves h w h (enter_open i w).0
unfolding enter_open
open-Moves i h w = elim (Option-cases (tag_get w (w.events i).kid)) [
  | inl e ↦ rw (e, enter_open) (still h w w (λ z. Still-refl z w))
  | inr (s, e) ↦
      let f = λ (t : LinkTag). record t { state = opened } in
      let w1 = with_tag s f w in
      let w2 = evlog_add i ttp_link_up op_invalid w1 in
      rw (e, enter_open)
        (also
          (still h w w2 λ z.
            Still-trans (with_tag-Still z s f w refl)
              (evlog_add-Still z i ttp_link_up op_invalid w1))
          (noc_requ-Moves s h w2))
]

open_sent-Moves : (i : ℕ) (h : List ℕ) (w : World) → Moves h w h (enter_open_sent i w).0
unfolding enter_open_sent
open_sent-Moves i h w = elim (Option-cases (tag_get w (w.events i).kid)) [
  | inl e ↦ rw (e, enter_open_sent) (still h w w (λ z. Still-refl z w))
  | inr (s, e) ↦
      let f = λ (t : LinkTag). record t { state = open_sent } in
      let w1 = with_tag s f w in
      let mark = if timer_pending (w1.tags s) then sh_timer_restart else sh_timer_start in
      let w2 = start_timer s 250 w1 in
      rw (e, enter_open_sent)
        (still h w (evlog_add i mark op_invalid w2) λ z. Still-trans (with_tag-Still z s f w refl) (
          Still-trans
            (with_tag-Still z s
              (λ t. record t { tmr = some (w1.jiffies + w1.kernel.msecs_to_jiffies 250) }) w1 refl)
            (evlog_add-Still z i mark op_invalid w2)))
]

close_sent-Moves : (i : ℕ) (h : List ℕ) (w : World) → Moves h w h (enter_close_sent i w).0
unfolding enter_close_sent
close_sent-Moves i h w = elim (Option-cases (tag_get w (w.events i).kid)) [
  | inl e ↦ rw (e, enter_close_sent) (still h w w (λ z. Still-refl z w))
  | inr (s, e) ↦
      let f = λ (t : LinkTag). record t { state = close_sent } in
      rw (e, enter_close_sent)
        (also (still h w (with_tag s f w) (λ z. with_tag-Still z s f w refl))
          (drain-Moves s h (with_tag s f w)))
]

close_recd-Moves : (i : ℕ) (h : List ℕ) (w : World) → Moves h w h (enter_close_recd i w).0
unfolding enter_close_recd
close_recd-Moves i h w = elim (Option-cases (tag_get w (w.events i).kid)) [
  | inl e ↦ rw (e, enter_close_recd) (still h w w (λ z. Still-refl z w))
  | inr (s, e) ↦
      let f = λ (t : LinkTag). record t { state = close_recd } in
      let g = λ (x : FsmEvent). record x { evt = inq_yes_quiesced } in
      let u = drain s (with_tag s f w) in
      rw (e, enter_close_recd)
        (also (still h w (with_tag s f w) (λ z. with_tag-Still z s f w refl)) (
          also (drain-Moves s h (with_tag s f w)) (
            also (still h u (with_event i g u) (λ z. with_event-Still z i g u))
              (cpqu-Moves i h (with_event i g u)))))
]

-- A tag made for the sender of an OPEN, and the event as its outcome.
allocated-Still :
    (z i : ℕ) (w : World)
    → let made = with_event i (λ e. record e { evt = inq_alloc_tag }) w in
      let alloc : World = elim (tag_get made (made.events i).kid) [
        | none ↦ bug_on true made
        | some s ↦
            with_tag s
              (λ t. record t { rx_seq_id = (made.events i).psi.txi_seq; state = open_recd })
              made
      ] in
      Still z w alloc
allocated-Still z i w =
    let made = with_event i (λ e. record e { evt = inq_alloc_tag }) w in
    elim (Option-cases (tag_get made (made.events i).kid)) [
      | inl e ↦ rw (e) (
          Still-trans (with_event-Still z i (λ e. record e { evt = inq_alloc_tag }) w)
            (bug_on-Still z true made))
      | inr (s, e) ↦ rw (e) (
          Still-trans (with_event-Still z i (λ e. record e { evt = inq_alloc_tag }) w) (
            with_tag-Still z s
              (λ t. record t { rx_seq_id = (made.events i).psi.txi_seq; state = open_recd }) made
              refl))
    ]

open_recd-Moves : (i : ℕ) (h : List ℕ) (w : World) → Moves h w h (enter_open_recd i w).0
unfolding enter_open_recd
open_recd-Moves i h w =
    let k = (w.events i).kid in
    let r = tag_add k (bloom_add k w) in
    let quiet : (z : ℕ) → Still z w r.0 =
      λ z. Still-trans (bloom_add-Still z k w) (tag_add-Still z k (bloom_add k w)) in
    let made = with_event i (λ e. record e { evt = inq_alloc_tag }) r.0 in
    let alloc : World = elim (tag_get made (made.events i).kid) [
      | none ↦ bug_on true made
      | some s ↦
          with_tag s (λ t. record t { rx_seq_id = (made.events i).psi.txi_seq; state = open_recd })
            made
    ] in
    let full = with_event i (λ e. record e { evt = inq_no_tag }) r.0 in
    elim (Bool-cases (r.1 == 0)) [
      | inl e ↦
          rw (e, enter_open_recd)
            (also (still h w alloc (λ z. Still-trans (quiet z) (allocated-Still z i r.0)))
              (cpqu-Moves i h alloc))
      | inr e ↦
          rw (e, enter_open_recd)
            (also
              (still h w full (λ z.
                Still-trans (quiet z)
                  (with_event-Still z i (λ e. record e { evt = inq_no_tag }) r.0)))
              (cpqu-Moves i h full))
    ]

pub enter-Moves : (t : State) (i : ℕ) (h : List ℕ) (w : World) → Moves h w h (enter t i w).0
unfolding enter
enter-Moves stay i h w = still h w w (λ z. Still-refl z w)
enter-Moves closed i h w = closed-Moves i h w
enter-Moves open_sent i h w = open_sent-Moves i h w
enter-Moves open_recd i h w = open_recd-Moves i h w
enter-Moves opened i h w = open-Moves i h w
enter-Moves close_sent i h w = close_sent-Moves i h w
enter-Moves close_recd i h w = close_recd-Moves i h w
