-- ===== src/Travel/Process.antt =====
-- The moves of one event from its queue to the pool, and of the work items.
use ttpoe.Common.{
  Bool-cases, inl, inr, ℕ, zero, suc, ◌+◌, ◌%◌, ◌≡◌, ◌≢◌, refl, sym, ◌∙◌, ap, false, ◌&&◌, Option,
  none, some, List, [], ◌∷◌, length, arith, dec16, if◌then◌else◌,
}
use ttpoe.World.{World, fsm_event}
use ttpoe.World.Access.{with_tag, with_stats, schedule_global, bug_on, is_some}
use ttpoe.Fsm.{op_invalid, response_op, event_is_valid, Event}
use ttpoe.Tag.{tag_get, evlog_add, signal_tag, lookup_state_table}
use ttpoe.Queue.{
  evt_getrr, getrr_from, queue_of, set_queue, trigger_timeout, Channel, rxq, txq, akq, inq,
}
use ttpoe.Queue.Counts.{CountsOk}
use ttpoe.Respond.{respond}
use ttpoe.Enter.{enter}
use ttpoe.Step.{
  run_handler, schedule_link, process, tail_of, evt_dequ, may_work, count_work, do_tag_work,
  timer_callback,
}
use ttpoe.Travel.{Place, hand, pool, payloads, queue, lists, Still, Moves, still, take, also}
use ttpoe.Travel.Quiet.{Still-refl, with_tag-Still, evlog_add-Still, signal_tag-Still, bug_on-Still}
use ttpoe.Travel.Queues.{pput-Moves, set_queue-Others, set_queue_self, queue-ne-hand}
use ttpoe.Travel.Payloads.{trigger_timeout-Moves}
use ttpoe.Travel.Actions.{handle-Moves, respond-Moves, enter-Moves}

run_handler-Moves : (v : Event) (i : ℕ) (h : List ℕ) (w : World) → Moves h w h (run_handler v i w)
run_handler-Moves v i h w = elim (Bool-cases (is_some (w.events i).rsk)) [
  | inl e ↦ rw e (handle-Moves v i h w)
  | inr e ↦ rw e (still h w w (λ z. Still-refl z w))
]

link-Still : (z : ℕ) (o : Option ℕ) (w : World) → Still z w (schedule_global (schedule_link o w))
link-Still z none w = ground arith
link-Still z (some s) w = ground arith

process-Moves : (i : ℕ) (h : List ℕ) (w : World) → Moves h w h (process i w)
unfolding process
process-Moves i h w =
    let evn = (w.events i).evt in
    let cell = (lookup_state_table w (w.events i).kid evn).1 in
    let w1 = evlog_add i (fsm_event evn) (response_op cell.response) w in
    let lt = tag_get w1 (w1.events i).kid in
    let w2 = run_handler evn i w1 in
    let v = (respond cell.response i w2).0 in
    let w3 = signal_tag i v in
    let w4 = (enter cell.next_state i w3).0 in
    also (still h w w1 (λ z. evlog_add-Still z i (fsm_event evn) (response_op cell.response) w)) (
      also (run_handler-Moves evn i h w1) (
        also (respond-Moves cell.response i h w2) (
          also (still h v w3 (λ z. signal_tag-Still z i v)) (
            also (enter-Moves cell.next_state i h w3)
              (still h w4 (process i w) (λ z. link-Still z lt w4))))))

-- The event that the round robin finds is the first of its queue.
getrr_first :
    (n r : ℕ) (w : World) (q : Channel) (i : ℕ)
    → (getrr_from n r w).1 ≡ some (q, i)
    → queue_of q w ≡ i ∷ tail_of (queue_of q w)
unfolding getrr_from
getrr_first zero r w q i e = cc
getrr_first (suc n) r w q i e = ground (arith, e, getrr_first n ((r + 1) % 4) w q i)

-- The first event of a queue taken out, and counted.
abbrev pub dequeued : Channel → World → World
dequeued q w =
    with_stats (λ c. record c { queue = dec16 c.queue }) (set_queue q (tail_of (queue_of q w)) w)

dequeued-CountsOk :
    (q : Channel) (i : ℕ) (w : World)
    → queue_of q w ≡ i ∷ tail_of (queue_of q w)
    → CountsOk w
    → CountsOk (dequeued q w)
dequeued-CountsOk rxq i w e c = record {
  pool = c.pool;
  queue = omega (arith, c.queue, ap length e);
}
dequeued-CountsOk txq i w e c = record {
  pool = c.pool;
  queue = omega (arith, c.queue, ap length e);
}
dequeued-CountsOk akq i w e c = record {
  pool = c.pool;
  queue = omega (arith, c.queue, ap length e);
}
dequeued-CountsOk inq i w e c = record {
  pool = c.pool;
  queue = omega (arith, c.queue, ap length e);
}

lists-dequeued :
    (q : Channel) (w : World) (p : Place)
    → p ≢ hand
    → lists [] (dequeued q w) p ≡ lists [] (set_queue q (tail_of (queue_of q w)) w) p
lists-dequeued q w hand a = refl
lists-dequeued q w pool a = refl
lists-dequeued q w (queue rxq) a = refl
lists-dequeued q w (queue txq) a = refl
lists-dequeued q w (queue akq) a = refl
lists-dequeued q w (queue inq) a = refl
lists-dequeued q w (payloads s) a = refl

dequeued-Moves :
    (q : Channel) (i : ℕ) (h : List ℕ) (w : World)
    → queue_of q w ≡ i ∷ tail_of (queue_of q w)
    → Moves h w (i ∷ h) (dequeued q w)
dequeued-Moves q i h w e =
    let l = tail_of (queue_of q w) in
    let n = queue-ne-hand q in
    take h (queue q) i w (dequeued q w) n
      (e ∙ ap (λ k. i ∷ k) (sym (lists-dequeued q w (queue q) n ∙ set_queue_self q l w)))
      (λ p a b. lists-dequeued q w p a ∙ set_queue-Others q l w p a b) (dequeued-CountsOk q i w e)

rri-Still : (z : ℕ) (w : World) → Still z w (evt_getrr w).0
unfolding evt_getrr
rri-Still z w = ground arith

-- The event in hand is processed or, unknown, only noted.
work-Moves :
    (i : ℕ) (h : List ℕ) (w : World)
    → Moves h w h (
        if event_is_valid (w.events i).evt
        then process i w
        else evlog_add i (fsm_event (w.events i).evt) op_invalid w)
work-Moves i h w = elim (Bool-cases (event_is_valid (w.events i).evt)) [
  | inl e ↦ rw e (process-Moves i h w)
  | inr e ↦ rw e (
      still h w (evlog_add i (fsm_event (w.events i).evt) op_invalid w)
        (λ z. evlog_add-Still z i (fsm_event (w.events i).evt) op_invalid w))
]

found_first :
    (w : World) (q : Channel) (i : ℕ)
    → (evt_getrr w).1 ≡ some (q, i)
    → queue_of q (evt_getrr w).0 ≡ i ∷ tail_of (queue_of q (evt_getrr w).0)
unfolding evt_getrr
found_first w rxq i e = getrr_first 4 w.rri w rxq i e
found_first w txq i e = getrr_first 4 w.rri w txq i e
found_first w akq i e = getrr_first 4 w.rri w akq i e
found_first w inq i e = getrr_first 4 w.rri w inq i e

pub evt_dequ-Moves : (h : List ℕ) (w : World) → Moves h w h (evt_dequ w).0
unfolding evt_dequ
evt_dequ-Moves h w = go (evt_getrr w).1 refl
  where
    go : (o : Option (Channel × ℕ)) → (evt_getrr w).1 ≡ o → Moves h w h (evt_dequ w).0
    go none e = rw (e, evt_dequ) (still h w (evt_getrr w).0 (λ z. rri-Still z w))
    go (some (q, i)) e =
        let w1 = (evt_getrr w).0 in
        let w2 = dequeued q w1 in
        let b = is_some (w2.events i).rsk && is_some (w2.events i).tsk in
        let w3 = bug_on b w2 in
        let w4 =
          if event_is_valid (w3.events i).evt
          then process i w3
          else evlog_add i (fsm_event (w3.events i).evt) op_invalid w3 in
        rw (e, evt_dequ)
          (also (still h w w1 (λ z. rri-Still z w)) (
            also (dequeued-Moves q i h w1 (found_first w q i e)) (
              also (still (i ∷ h) w2 w3 (λ z. bug_on-Still z b w2))
                (also (work-Moves i (i ∷ h) w3) (pput-Moves i h w4)))))

pub count_work-Still : (z : ℕ) (w : World) → Still z w (count_work w)
count_work-Still z w = ground arith

-- A tag's work.
pub do_tag_work-Moves : (s : ℕ) (h : List ℕ) (w : World) → Moves h w h (do_tag_work s w)
unfolding do_tag_work
do_tag_work-Moves s h w =
    let w1 = count_work w in
    let u = with_tag s (λ t. record t { tex = false }) w1 in
    let m : Moves h w h w1 = still h w w1 (λ z. count_work-Still z w) in
    elim (Bool-cases (may_work w)) [
      | inr e ↦ rw (e, do_tag_work) (still h w w (λ z. Still-refl z w))
      | inl e ↦ elim (Bool-cases (w1.tags s).tex) [
        | inl f ↦
            rw (e, f, do_tag_work)
              (also m (
                also
                  (still h w1 u (λ z. with_tag-Still z s (λ t. record t { tex = false }) w1 refl))
                  (also (trigger_timeout-Moves s h u) (evt_dequ-Moves h (trigger_timeout s u)))))
        | inr f ↦ rw (e, f, do_tag_work) (also m (evt_dequ-Moves h w1))
      ]
    ]

pub timer_callback-Still : (z s : ℕ) (w : World) → Still z w (timer_callback s w)
unfolding timer_callback
timer_callback-Still z s w = ground arith
