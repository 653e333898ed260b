-- ===== src/Queue/Counts.antt =====
-- The counters of events follow the lists.
use ttpoe.Common.{
  ℕ, suc, ◌+◌, ◌%◌, ◌≡◌, refl, ap, Option, none, some, List, [], ◌∷◌, ◌++◌, arith, length,
  length-append,
}
use ttpoe.World.{World}
use ttpoe.World.Access.{with_event, bug_on, is_some}
use ttpoe.Buffer.{tsk_bind}
use ttpoe.Queue.{
  evt_pget, evt_pput, evt_cpqu_locked, evt_enqu_locked, Channel, rxq, txq, akq, inq, queue_of,
  set_queue, route,
}
use ttpoe.Queue.Pool.{evt_pput-Put}

-- The events that wait in the four queues.
abbrev pub waiting : World → ℕ
waiting w = length w.rxq_head + length w.txq_head + length w.akq_head + length w.inq_head

-- The two counters, of 16 bits each, are those of the pool and of the queues.
pub record CountsOk (w : World) : Type 0 where
  pub pool : w.stats.pool ≡ length w.pool_head % 65536
  pub queue : w.stats.queue ≡ waiting w % 65536

pget-CountsOk : (w : World) → CountsOk w → CountsOk (evt_pget w).0
unfolding evt_pget
pget-CountsOk w c = go w.pool_head refl
  where
    go : (q : List ℕ) → w.pool_head ≡ q → CountsOk (evt_pget w).0
    go [] e =
        rw (e, evt_pget) (record { pool = omega (arith, c.pool, ap length e); queue = c.queue })
    go (i ∷ rest) e =
        rw (e, evt_pget) (record { pool = omega (arith, c.pool, ap length e); queue = c.queue })

pput-CountsOk : (i : ℕ) (w : World) → CountsOk w → CountsOk (evt_pput i w)
pput-CountsOk i w c =
    let p = evt_pput-Put i w in
    record {
      pool =
          omega (arith, c.pool, p.pool, ap length p.pool_head, length-append w.pool_head (i ∷ []));
      queue = omega (
        arith,
        c.queue,
        p.queue,
        ap length p.rxq_head,
        ap length p.txq_head,
        ap length p.akq_head,
        ap length p.inq_head,
      );
    }

-- One event more at the end of a queue.
waiting_more :
    (q : Channel) (i : ℕ) (w : World)
    → waiting (set_queue q (queue_of q w ++ (i ∷ [])) w) ≡ suc (waiting w)
waiting_more rxq i w = omega (arith, length-append w.rxq_head (i ∷ []))
waiting_more txq i w = omega (arith, length-append w.txq_head (i ∷ []))
waiting_more akq i w = omega (arith, length-append w.akq_head (i ∷ []))
waiting_more inq i w = omega (arith, length-append w.inq_head (i ∷ []))

set_queue_pool :
    (q : Channel) (l : List ℕ) (w : World)
    → ((set_queue q l w).pool_head ≡ w.pool_head) × ((set_queue q l w).stats ≡ w.stats)
set_queue_pool q l w = ground arith

enqu-CountsOk : (i : ℕ) (w : World) → CountsOk w → CountsOk (evt_enqu_locked i w)
unfolding evt_enqu_locked
enqu-CountsOk i w c =
    let q = (route (w.events i).evt).1 in
    let w1 = with_event i (λ e. record e { mrk = (route (w.events i).evt).0 }) w in
    let same = set_queue_pool q (queue_of q w1 ++ (i ∷ [])) w1 in
    record {
      pool = omega (arith, c.pool, ap (λ s. s.pool) same.1, ap length same.0);
      queue = omega (arith, c.queue, waiting_more q i w1, ap (λ s. s.queue) same.1);
    }

bind-CountsOk : (i q : ℕ) (w : World) → CountsOk w → CountsOk (tsk_bind i q w)
unfolding tsk_bind
bind-CountsOk i q w c = go (w.events q).tsk refl
  where
    go : (o : Option ℕ) → (w.events q).tsk ≡ o → CountsOk (tsk_bind i q w)
    go none e = rw (e, tsk_bind) (record { pool = c.pool; queue = c.queue })
    go (some n) e = rw (e, tsk_bind) (record { pool = c.pool; queue = c.queue })

cpqu-CountsOk : (q : ℕ) (w : World) → CountsOk w → CountsOk (evt_cpqu_locked q w).0
unfolding evt_cpqu_locked
cpqu-CountsOk q w c = go (evt_pget w).1 refl
  where
    p : CountsOk (evt_pget w).0
    p = pget-CountsOk w c

    go : (o : Option ℕ) → (evt_pget w).1 ≡ o → CountsOk (evt_cpqu_locked q w).0
    go none e = rw (e, evt_cpqu_locked) p
    go (some i) e =
        let w1 = (evt_pget w).0 in
        let w2 = bug_on (is_some (w1.events i).rsk) (bug_on (is_some (w1.events i).tsk) w1) in
        let w3 =
          with_event i (λ x. record x { evt = (w2.events q).evt; kid = (w2.events q).kid }) w2 in
        rw (e, evt_cpqu_locked)
          (enqu-CountsOk i (tsk_bind i q w3)
            (bind-CountsOk i q w3 (record { pool = p.pool; queue = p.queue })))

-- If the counters of the pool and of the four queues say how long the lists are, modulo 65536, they still do after
-- an event is taken from the pool, put back, put into a queue, or copied into a queue, also when the pool is empty.
pub counts_kept :
    (i : ℕ) (w : World)
    → CountsOk w
    → CountsOk (evt_pget w).0
      × CountsOk (evt_pput i w)
      × CountsOk (evt_enqu_locked i w)
      × CountsOk (evt_cpqu_locked i w).0
counts_kept i w c =
    (pget-CountsOk w c, pput-CountsOk i w c, enqu-CountsOk i w c, cpqu-CountsOk i w c)
