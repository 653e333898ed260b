-- ===== src/Queue.antt =====
-- The pool of events, the four queues of the state machine and each tag's queue of payloads
-- (modttpoe/tags.c). The code holds the event mutex around each of these steps.
pub mod Pool
pub mod Robin
pub mod Payloads
pub mod Counts
pub mod Numbers
use ttpoe.Common.{
  ℕ, zero, suc, ◌+◌, ◌-◌, ◌*◌, ◌%◌, Bool, true, false, ◌&&◌, Option, none, some, List, [], ◌∷◌,
  ◌++◌, ltb, leb, ◌==◌, if◌then◌else◌, update, inc16, dec16, inc32, dec32,
}
use ttpoe.Fsm.{
  Opcode, ttp_payload, op_invalid, Event, null, ev_invalid, txq_ttp_open, txq_ttp_close,
  txq_ttp_payload, txq_replay_data, txq_replay_close, akq_open_ack, akq_open_nack, akq_close_ack,
  akq_close_nack, akq_ack, akq_nack, inq_timeout, inq_victim, inq_found_way, inq_no_way,
  inq_alloc_tag, inq_no_tag, inq_yes_quiesced, inq_not_quiesced,
}
use ttpoe.World.{
  World, FsmEvent, LinkTag, Stats, PktInfo, Fence, free_elem, pool_elem, rx_q_elem, tx_q_elem,
  ak_q_elem, in_q_elem, expt_elem, noc_payload_enq, noc_payload_req, noc_payload_drop,
  timer_timeout,
}
use ttpoe.World.Access.{
  with_event, with_tag, with_stats, bug_on, is_some, kfree_skb, schedule_tag, schedule_global,
  timer_pending,
}
use ttpoe.Buffer.{tsk_bind}
use ttpoe.Tag.{tag_get, evlog_add}

-- `ttp_evt_pget`: the first event of the pool; an empty pool is counted.
unfoldable pub evt_pget : World → World × Option ℕ
evt_pget w = elim w.pool_head [
  | [] ↦ (with_stats (λ c. record c { ovr_fl = inc32 c.ovr_fl }) w, none)
  | i ∷ rest ↦
      let ev = w.events i in
      let w1 = bug_on (is_some ev.rsk) (bug_on (is_some ev.tsk) w) in
      let w2 =
        with_event i (λ e. record e { mrk = free_elem; psi = record e.psi { noc_len = 0 } }) w1 in
      (with_stats (λ c. record c { pool = dec16 c.pool }) (record w2 { pool_head = rest }), some i)
]

abbrev is_rx_q : Fence → Bool
is_rx_q rx_q_elem = true
is_rx_q _ = false

-- A buffer that came in is given back, and counted if the event had been queued.
drop_rsk : ℕ → World → World
drop_rsk i w = elim (w.events i).rsk [
  | none ↦ w
  | some n ↦
      let w1 =
        if is_rx_q (w.events i).mrk
        then with_stats (λ c. record c { skb_ct = dec32 c.skb_ct }) w
        else w in
      with_event i (λ e. record e { rsk = none }) (kfree_skb n w1)
]

drop_tsk : ℕ → World → World
drop_tsk i w = elim (w.events i).tsk [
  | none ↦ w
  | some n ↦ with_event i (λ e. record e { tsk = none }) (kfree_skb n w)
]

-- `ttp_evt_pput`: the event's buffers are given back and the event goes to the end of the pool.
unfoldable pub evt_pput : ℕ → World → World
unfolding drop_rsk drop_tsk
evt_pput i w =
    let w1 = drop_tsk i (drop_rsk i w) in
    let w2 = bug_on (is_some (w1.events i).tsk) (bug_on (is_some (w1.events i).rsk) w1) in
    let w3 = with_event i (λ e. record e { kid = 0; evt = ev_invalid; mrk = pool_elem }) w2 in
    with_stats (λ c. record c { pool = inc16 c.pool })
      (record w3 { pool_head = w3.pool_head ++ (i ∷ []) })

pub data Channel : Type 0 where
  rxq txq akq inq : Channel

abbrev pub queue_of : Channel → World → List ℕ
queue_of rxq w = w.rxq_head
queue_of txq w = w.txq_head
queue_of akq w = w.akq_head
queue_of inq w = w.inq_head

abbrev pub set_queue : Channel → List ℕ → World → World
set_queue rxq q w = record w { rxq_head = q }
set_queue txq q w = record w { txq_head = q }
set_queue akq q w = record w { akq_head = q }
set_queue inq q w = record w { inq_head = q }

-- The array `qhs`.
abbrev pub qhs : ℕ → Channel
qhs zero = rxq
qhs (suc zero) = txq
qhs (suc (suc zero)) = akq
qhs _ = inq

-- The rounds of `ttp_evt_getrr_locked`: the pointer moves on before each look, and stays where a queue
-- has an event. The result is the pointer, and the event with its queue.
unfoldable pub getrr_from : ℕ → ℕ → World → ℕ × Option (Channel × ℕ)
getrr_from zero rri w = (rri, none)
getrr_from (suc n) rri w = elim (queue_of (qhs rri) w) [
  | [] ↦ getrr_from n ((rri + 1) % 4) w
  | i ∷ rest ↦ ((rri + 1) % 4, some (qhs rri, i))
]

unfoldable pub evt_getrr : World → World × Option (Channel × ℕ)
unfolding getrr_from
evt_getrr w = let (rri, found) = getrr_from 4 w.rri w in (record w { rri = rri }, found)

-- `ttp_evt_getsp_locked`: strict priority, which nothing uses.
unfoldable pub evt_getsp : World → Option (Channel × ℕ)
evt_getsp w = elim w.rxq_head [
  | i ∷ rest ↦ some (rxq, i)
  | [] ↦ elim w.txq_head [
    | i ∷ rest ↦ some (txq, i)
    | [] ↦ elim w.akq_head [
      | i ∷ rest ↦ some (akq, i)
      | [] ↦ elim w.inq_head [ i ∷ rest ↦ some (inq, i) | [] ↦ none ]
    ]
  ]
]

-- The switch of `ttp_evt_enqu_locked`: the mark and the queue of an event.
unfoldable pub route : Event → Fence × Channel
route null = (expt_elem, inq)
route ev_invalid = (expt_elem, inq)
route txq_ttp_open = (tx_q_elem, txq)
route txq_ttp_close = (tx_q_elem, txq)
route txq_ttp_payload = (tx_q_elem, txq)
route txq_replay_data = (tx_q_elem, txq)
route txq_replay_close = (tx_q_elem, txq)
route akq_open_ack = (ak_q_elem, akq)
route akq_open_nack = (ak_q_elem, akq)
route akq_close_ack = (ak_q_elem, akq)
route akq_close_nack = (ak_q_elem, akq)
route akq_ack = (ak_q_elem, akq)
route akq_nack = (ak_q_elem, akq)
route inq_timeout = (in_q_elem, inq)
route inq_victim = (in_q_elem, inq)
route inq_found_way = (in_q_elem, inq)
route inq_no_way = (in_q_elem, inq)
route inq_alloc_tag = (in_q_elem, inq)
route inq_no_tag = (in_q_elem, inq)
route inq_yes_quiesced = (in_q_elem, inq)
route inq_not_quiesced = (in_q_elem, inq)
route _ = (rx_q_elem, rxq)

unfoldable pub evt_enqu_locked : ℕ → World → World
unfolding route
evt_enqu_locked i w =
    let (mark, q) = route (w.events i).evt in
    let w1 = with_event i (λ e. record e { mrk = mark }) w in
    with_stats (λ c. record c { queue = inc16 c.queue })
      (set_queue q (queue_of q w1 ++ (i ∷ [])) w1)

-- `ttp_evt_cpqu_locked`: a pool event made a copy of `q` and queued.
unfoldable pub evt_cpqu_locked : ℕ → World → World × Option ℕ
unfolding evt_pget evt_enqu_locked tsk_bind
evt_cpqu_locked q w =
    let (w1, got) = evt_pget w in
    elim got [
      | none ↦ (w1, none)
      | some i ↦
          let w2 = bug_on (is_some (w1.events i).rsk) (bug_on (is_some (w1.events i).tsk) w1) in
          let qe = w2.events q in
          let w3 = with_event i (λ e. record e { evt = qe.evt; kid = qe.kid }) w2 in
          (evt_enqu_locked i (tsk_bind i q w3), some i)
    ]

-- Work is scheduled for the event's tag, or for the module where it has none.
abbrev pub schedule_for : ℕ → World → World
schedule_for kid w = elim (tag_get w kid) [ none ↦ schedule_global w | some s ↦ schedule_tag s w ]

unfoldable pub evt_cpqu : ℕ → World → World
unfolding evt_cpqu_locked
evt_cpqu q w = let (w1, _) = evt_cpqu_locked q w in schedule_for (w1.events q).kid w1

unfoldable pub evt_enqu : ℕ → World → World
unfolding evt_enqu_locked
evt_enqu i w = let w1 = evt_enqu_locked i w in schedule_for (w1.events i).kid w1

-- `ttp_noc_dequ`: the first payload of a tag goes back to the pool; `false` is 0, an empty queue.
unfoldable pub noc_dequ : ℕ → World → World × Bool
noc_dequ s w = elim (w.tags s).ncq [
  | [] ↦ (w, false)
  | t ∷ rest ↦ (evt_pput t (with_tag s (λ l. record l { ncq = rest }) w), true)
]

-- The HACK of `ttp_noc_requ` after too many retries, and a tag's work once its timer has run out:
-- a timeout event is put in.
unfoldable pub trigger_timeout : ℕ → World → World
trigger_timeout s w =
    let (w1, got) = evt_pget w in
    elim got [
      | none ↦ w1
      | some i ↦
          let w2 = with_event i (λ e. record e { evt = inq_timeout; kid = (w1.tags s).rkid }) w1 in
          evlog_add i timer_timeout op_invalid (evt_enqu i w2)
    ]

-- A copy of the first payload is queued while the window has room.
unfoldable pub requ_copy : ℕ → ℕ → World → World
requ_copy s t w =
    let (w1, got) = evt_cpqu_locked t w in
    let copied : World = elim got [
      | none ↦ w1
      | some i ↦
          let w2 =
            if (w1.tags s).try == 0 then w1 else evlog_add i noc_payload_req ttp_payload w1 in
          schedule_tag s (with_tag s (λ l. record l { txt = inc16 l.txt; try = inc16 l.try }) w2)
    ] in
    if ltb (w.tags s).txt (w.tags s).twz then copied else w

-- The first payload is given up.
unfoldable pub requ_drop : ℕ → ℕ → List ℕ → World → World
requ_drop s t rest w =
    let w1 = with_tag s (λ l. record l { ncq = rest; tct = dec16 l.tct; try = 0 }) w in
    let w2 = with_stats (λ c. record c { nocq = dec16 c.nocq }) w1 in
    trigger_timeout s (evt_pput t (evlog_add t noc_payload_drop ttp_payload w2))

abbrev pub max_retry : ℕ
max_retry = 1000

unfoldable pub noc_requ : ℕ → World → World
unfolding requ_copy requ_drop
noc_requ s w = if timer_pending (w.tags s) then w else elim (w.tags s).ncq [
  | [] ↦ w
  | t ∷ rest ↦ if leb (w.tags s).try max_retry then requ_copy s t w else requ_drop s t rest w
]

-- `ttp_noc_enqu`: the payload is numbered and waits behind the tag's others; without a tag it is dropped.
unfoldable pub noc_enqu : ℕ → World → World
noc_enqu i w = elim (tag_get w (w.events i).kid) [
  | none ↦ evt_pput i w
  | some s ↦
      let w1 = with_tag s (λ l. record l { ncq = l.ncq ++ (i ∷ []) }) w in
      let seq = (w1.tags s).tx_seq_id in
      let w2 = with_event i (λ e. record e { psi = record e.psi { txi_seq = seq } }) w1 in
      let w3 = with_tag s (λ l. record l { tct = inc16 l.tct; tx_seq_id = inc32 l.tx_seq_id }) w2 in
      let w4 = with_stats (λ c. record c { nocq = inc16 c.nocq }) w3 in
      evlog_add i noc_payload_enq ttp_payload (schedule_tag s w4)
]
