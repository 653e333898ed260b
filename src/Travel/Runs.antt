-- ===== src/Travel/Runs.antt =====
-- The events of the module after any history.
use ttpoe.Common.{ℕ, zero, suc, ◌+◌, ◌<◌, ◌≤◌, ◌≡◌, ◌≢◌, refl, List, [], ◌∷◌, arith}
use ttpoe.World.{World, EvLog}
use ttpoe.World.Access.{with_skb}
use ttpoe.Queue.{rxq, txq, akq, inq}
use ttpoe.Queue.Counts.{CountsOk}
use ttpoe.Init.{fsm_init, range, events_pool_size, all_tags}
use ttpoe.Init.Start.{fsm_init_start}
use ttpoe.Step.{timer_callback}
use ttpoe.Receive.{skb_recv_func}
use ttpoe.Device.{noc_debug_release}
use ttpoe.Param.{Settings}
use ttpoe.Run.{
  Entry, tag_work, global_work, timer, frame, write, release, parameter, tick, configure,
  with_world, run_entry, run,
}
use ttpoe.Travel.{Place, hand, pool, queue, payloads, lists, still}
use ttpoe.Travel.Quiet.{Still-trans, with_skb-Still}
use ttpoe.Travel.Process.{do_tag_work-Moves, timer_callback-Still}
use ttpoe.Travel.Entries.{skb_recv_func-Still, do_global_work-Moves}
use ttpoe.Travel.Sending.{noc_debug_write-Moves, release-Still}
use ttpoe.Travel.Steering.{Sends, set_parameter-Sends}
use ttpoe.Travel.Once.{count, Once, Moves-Once, Moves-CountsOk}

run_entry-Sends : (e : Entry) (p : Settings) → Sends p (run_entry e p)
unfolding run_entry
run_entry-Sends (tag_work s) p = do_tag_work-Moves s [] p.world
run_entry-Sends global_work p = do_global_work-Moves [] p.world
run_entry-Sends (timer s) p =
    still [] p.world (timer_callback s p.world) (λ z. timer_callback-Still z s p.world)
run_entry-Sends (frame expand flip n b) p =
    let w = p.world in
    still [] w (skb_recv_func expand flip n (with_skb n (λ x. b) w)) λ z.
      Still-trans (with_skb-Still z n (λ x. b) w)
        (skb_recv_func-Still z expand flip n (with_skb n (λ x. b) w))
run_entry-Sends (write user nbytes left) p =
    noc_debug_write-Moves p.target user nbytes left [] p.world
run_entry-Sends (release used) p =
    still [] p.world (noc_debug_release used p.world) (λ z. release-Still z used p.world)
run_entry-Sends (parameter a k val) p = set_parameter-Sends a k val p
run_entry-Sends (tick now) p =
    still [] p.world (record p.world { jiffies = now }) (λ z. ground arith)
run_entry-Sends (configure c) p =
    still [] p.world (record p.world { config = c }) (λ z. ground arith)

-- Any invariant of the moves holds after any history.
run-Once :
    (es : List Entry) (e : ℕ) (p : Settings)
    → Once (lists [] p.world) e
    → Once (lists [] (run es p).world) e
unfolding run
run-Once [] e p o = o
run-Once (x ∷ es) e p o = run-Once es e (run_entry x p) (Moves-Once (run_entry-Sends x p) e o)

run-CountsOk : (es : List Entry) (p : Settings) → CountsOk p.world → CountsOk (run es p).world
unfolding run
run-CountsOk [] p c = c
run-CountsOk (x ∷ es) p c = run-CountsOk es (run_entry x p) (Moves-CountsOk (run_entry-Sends x p) c)

count-range_below : (n i e : ℕ) → e < i → count e (range n i) ≡ 0
count-range_below zero i e h = refl
count-range_below (suc n) i e h = ground (arith, count-range_below n (suc i) e)

count-range : (n i e : ℕ) → i ≤ e → e < i + n → count e (range n i) ≡ 1
count-range zero i e l h = absurd (omega arith)
count-range (suc n) i e l h = ground (arith, count-range n (suc i) e, count-range_below n (suc i) e)

fresh_place :
    (lg : EvLog) (w : World) (e : ℕ)
    → ((s : ℕ) → all_tags ≤ s → (w.tags s).ncq ≡ [])
    → (q : Place) → q ≢ pool
    → count e (lists [] (fsm_init lg w) q) ≡ 0
unfolding fsm_init
fresh_place lg w e bare hand n = refl
fresh_place lg w e bare pool n = absurd (n refl)
fresh_place lg w e bare (queue rxq) n = refl
fresh_place lg w e bare (queue txq) n = refl
fresh_place lg w e bare (queue akq) n = refl
fresh_place lg w e bare (queue inq) n = refl
fresh_place lg w e bare (payloads s) n = ground (arith, bare s)

-- The module is started by `ttp_fsm_init`, tags outside of the tables hold no payloads, and these follow in any order and number:
-- work items, timers that run out, frames of any content, writes and closes of the device, the twelve parameters of Run set
-- to any text, the target's CLOSE and the steps of the work queue included, and any change of time and configuration. Then
-- each of the 1024 events stands once at one place, the pool, one of the four queues or the payloads of one tag, and
-- nowhere else: none is lost, doubled or left in hand.
pub events_kept :
    (lg : EvLog) (p : Settings) (es : List Entry) (e : ℕ)
    → ((s : ℕ) → all_tags ≤ s → (p.world.tags s).ncq ≡ [])
    → e < events_pool_size
    → Once (lists [] (run es (with_world (fsm_init lg) p)).world) e
unfolding fsm_init
events_kept lg p es e bare h = run-Once es e (with_world (fsm_init lg) p) (
  pool,
  count-range events_pool_size 0 e (omega arith) (omega arith),
  fresh_place lg p.world e bare,
)

-- If the counters of the pool and of the queues are zero before `ttp_fsm_init`, they say how long the pool and the four queues are,
-- modulo 65536, after the start and after any sequence of work items, timers that run out, frames, writes and closes of
-- the device, the twelve parameters of Run set to any text, and changes of time and configuration.
pub counts_follow :
    (lg : EvLog) (p : Settings) (es : List Entry)
    → p.world.stats.pool ≡ 0
    → p.world.stats.queue ≡ 0
    → CountsOk (run es (with_world (fsm_init lg) p)).world
counts_follow lg p es p0 q0 =
    run-CountsOk es (with_world (fsm_init lg) p) (fsm_init_start lg p.world p0 q0).0
