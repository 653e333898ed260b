-- ===== src/Step.antt =====
-- One event of the state machine from the queue to the pool, and the work items that take it
-- (modttpoe/tags.c).
use ttpoe.Common.{
  ℕ, ◌-◌, Bool, true, false, ◌&&◌, ◌||◌, not, Option, none, some, List, [], ◌∷◌, ◌==◌,
  if◌then◌else◌, dec16,
}
use ttpoe.World.{World, fsm_event}
use ttpoe.World.Access.{with_tag, with_stats, bug_on, is_some, schedule_tag, schedule_global}
use ttpoe.Fsm.{Event, op_invalid, response_op, event_is_valid}
use ttpoe.Tag.{tag_get, evlog_add, signal_tag, lookup_state_table}
use ttpoe.Queue.{evt_pput, evt_getrr, queue_of, set_queue, trigger_timeout}
use ttpoe.Receive.{skb_dequ}
use ttpoe.Respond.{respond}
use ttpoe.Handle.{handle}
use ttpoe.Enter.{enter}

-- The handler is run for events with a received buffer.
abbrev pub run_handler : Event → ℕ → World → World
run_handler evn i w = if is_some (w.events i).rsk then (handle evn i w).0 else w

abbrev pub schedule_link : Option ℕ → World → World
schedule_link none w = w
schedule_link (some s) w = schedule_tag s w

-- The event's handler, the response, the entry of the next state and the scheduling, all by the table's cell
-- for the state before.
unfoldable pub process : ℕ → World → World
process i w =
    let evn = (w.events i).evt in
    let cell = (lookup_state_table w (w.events i).kid evn).1 in
    let w1 = evlog_add i (fsm_event evn) (response_op cell.response) w in
    let lt = tag_get w1 (w1.events i).kid in
    let w2 = run_handler evn i w1 in
    let w3 = signal_tag i (respond cell.response i w2).0 in
    let w4 = (enter cell.next_state i w3).0 in schedule_global (schedule_link lt w4)

abbrev pub tail_of : List ℕ → List ℕ
tail_of [] = []
tail_of (x ∷ xs) = xs

-- `ttp_evt_dequ`; `true` is 1, an event processed.
unfoldable pub evt_dequ : World → World × Bool
unfolding process
evt_dequ w =
    let (w1, found) = evt_getrr w in
    elim found [
      | none ↦ (w1, false)
      | some (q, i) ↦
          let w2 =
            with_stats (λ c. record c { queue = dec16 c.queue })
              (set_queue q (tail_of (queue_of q w1)) w1) in
          let ev = w2.events i in
          let w3 = bug_on (is_some ev.rsk && is_some ev.tsk) w2 in
          let w4 =
            if event_is_valid ev.evt
            then process i w3
            else evlog_add i (fsm_event ev.evt) op_invalid w3 in
          (evt_pput i w4, true)
    ]

-- The steps that a user lets through: `wkq_sz` 0 is no limit.
abbrev pub may_work : World → Bool
may_work w = (w.stats.wkq_sz == 0) || not (w.stats.wkq_st == 0)

abbrev pub count_work : World → World
count_work w =
    if w.stats.wkq_sz == 0 then w else with_stats (λ c. record c { wkq_st = c.wkq_st - 1 }) w

-- `ttp_do_tag_work`: a timer that ran out becomes a timeout event, then one event is processed.
unfoldable pub do_tag_work : ℕ → World → World
do_tag_work s w =
    let w1 = count_work w in
    let w2 =
      if (w1.tags s).tex
      then trigger_timeout s (with_tag s (λ t. record t { tex = false }) w1)
      else w1 in
    if may_work w then (evt_dequ w2).0 else w

-- `ttp_do_global_work`: one event is processed, and one frame that came in becomes an event.
unfoldable pub do_global_work : World → World
unfolding evt_dequ
do_global_work w = if may_work w then (skb_dequ (evt_dequ (count_work w)).0).0 else w

-- `ttp_fsm_tag_timer_callback`: the kernel has taken the timer off before it calls it, so that none is pending from here on.
unfoldable pub timer_callback : ℕ → World → World
timer_callback s w = schedule_tag s (with_tag s (λ t. record t { tex = true; tmr = none }) w)
