-- ===== src/Travel/Payloads.antt =====
-- The moves of the functions that copy, queue, send and give up payloads.
use ttpoe.Common.{ℕ, ◌≡◌, refl, Option, none, some, List, [], ◌∷◌, ◌++◌, arith}
use ttpoe.World.{World, FsmEvent, LinkTag, timer_timeout}
use ttpoe.World.Access.{with_event, with_tag, bug_on, is_some}
use ttpoe.Fsm.{op_invalid, inq_timeout}
use ttpoe.Buffer.{tsk_bind}
use ttpoe.Tag.{evlog_add}
use ttpoe.Queue.{
  evt_pget, evt_enqu_locked, evt_cpqu_locked, schedule_for, evt_cpqu, evt_enqu, noc_dequ,
  trigger_timeout,
}
use ttpoe.Queue.Counts.{CountsOk}
use ttpoe.Travel.{payloads, Still, Moves, still, take, give, also}
use ttpoe.Travel.Quiet.{
  Still-refl, Still-trans, with_event-Still, bug_on-Still, tsk_bind-Still, evlog_add-Still,
}
use ttpoe.Travel.Queues.{
  held, pget-Moves, pput-Moves, enqu-Moves, with_tag-Others, payloads-ne-hand,
}

pub tag-CountsOk :
    (s : ℕ) (f : LinkTag → LinkTag) (w : World) → CountsOk w → CountsOk (with_tag s f w)
tag-CountsOk s f w c = record { pool = c.pool; queue = c.queue }

-- An event in hand waits behind the payloads of a tag, and the first payload of a tag is taken.
pub hold-Moves :
    (s i : ℕ) (h : List ℕ) (w : World)
    → Moves (i ∷ h) w h (with_tag s (λ l. record l { ncq = l.ncq ++ (i ∷ []) }) w)
hold-Moves s i h w =
    give h (payloads s) i w (with_tag s (λ l. record l { ncq = l.ncq ++ (i ∷ []) }) w)
      (payloads-ne-hand s) (ground arith) (with_tag-Others s ((w.tags s).ncq ++ (i ∷ [])) w)
      (tag-CountsOk s (λ l. record l { ncq = l.ncq ++ (i ∷ []) }) w)

pub unhold-Moves :
    (s t : ℕ) (rest h : List ℕ) (w : World)
    → (w.tags s).ncq ≡ t ∷ rest
    → Moves h w (t ∷ h) (with_tag s (λ l. record l { ncq = rest }) w)
unhold-Moves s t rest h w e =
    take h (payloads s) t w (with_tag s (λ l. record l { ncq = rest }) w) (payloads-ne-hand s)
      (ground (arith, e)) (with_tag-Others s rest w)
      (tag-CountsOk s (λ l. record l { ncq = rest }) w)

pub cpqu_locked-Moves : (q : ℕ) (h : List ℕ) (w : World) → Moves h w h (evt_cpqu_locked q w).0
unfolding evt_cpqu_locked
cpqu_locked-Moves q h w = go (evt_pget w).1 refl (pget-Moves h w)
  where
    go :
        (o : Option ℕ)
        → (evt_pget w).1 ≡ o
        → Moves h w (held o h) (evt_pget w).0
        → Moves h w h (evt_cpqu_locked q w).0
    go none e m = rw (e, evt_cpqu_locked) m
    go (some i) e m =
        let w1 = (evt_pget w).0 in
        let a = bug_on (is_some (w1.events i).tsk) w1 in
        let w2 = bug_on (is_some (w1.events i).rsk) a in
        let f = λ (x : FsmEvent). record x { evt = (w2.events q).evt; kid = (w2.events q).kid } in
        let w3 = with_event i f w2 in
        let quiet : (z : ℕ) → Still z w1 (tsk_bind i q w3) = λ z.
          Still-trans
            (Still-trans (bug_on-Still z (is_some (w1.events i).tsk) w1)
              (bug_on-Still z (is_some (w1.events i).rsk) a))
            (Still-trans (with_event-Still z i f w2) (tsk_bind-Still z i q w3)) in
        rw (e, evt_cpqu_locked)
          (also m
            (also (still (i ∷ h) w1 (tsk_bind i q w3) quiet) (enqu-Moves i h (tsk_bind i q w3))))

schedule_for-Still : (z k : ℕ) (w : World) → Still z w (schedule_for k w)
schedule_for-Still z k w = ground arith

pub cpqu-Moves : (q : ℕ) (h : List ℕ) (w : World) → Moves h w h (evt_cpqu q w)
unfolding evt_cpqu
cpqu-Moves q h w =
    let w1 = (evt_cpqu_locked q w).0 in
    also (cpqu_locked-Moves q h w)
      (still h w1 (evt_cpqu q w) (λ z. schedule_for-Still z (w1.events q).kid w1))

pub enqu_scheduled-Moves : (i : ℕ) (h : List ℕ) (w : World) → Moves (i ∷ h) w h (evt_enqu i w)
unfolding evt_enqu
enqu_scheduled-Moves i h w =
    let w1 = evt_enqu_locked i w in
    also (enqu-Moves i h w)
      (still h w1 (evt_enqu i w) (λ z. schedule_for-Still z (w1.events i).kid w1))

pub noc_dequ-Moves : (s : ℕ) (h : List ℕ) (w : World) → Moves h w h (noc_dequ s w).0
unfolding noc_dequ
noc_dequ-Moves s h w = go (w.tags s).ncq refl
  where
    go : (l : List ℕ) → (w.tags s).ncq ≡ l → Moves h w h (noc_dequ s w).0
    go [] e = rw (e, noc_dequ) (still h w w (λ z. Still-refl z w))
    go (t ∷ rest) e =
        let u = with_tag s (λ l. record l { ncq = rest }) w in
        rw (e, noc_dequ) (also (unhold-Moves s t rest h w e) (pput-Moves t h u))

pub trigger_timeout-Moves : (s : ℕ) (h : List ℕ) (w : World) → Moves h w h (trigger_timeout s w)
unfolding trigger_timeout
trigger_timeout-Moves s h w = go (evt_pget w).1 refl (pget-Moves h w)
  where
    go :
        (o : Option ℕ)
        → (evt_pget w).1 ≡ o
        → Moves h w (held o h) (evt_pget w).0
        → Moves h w h (trigger_timeout s w)
    go none e m = rw (e, trigger_timeout) m
    go (some i) e m =
        let w1 = (evt_pget w).0 in
        let f = λ (x : FsmEvent). record x { evt = inq_timeout; kid = (w1.tags s).rkid } in
        let w2 = with_event i f w1 in
        let w3 = evt_enqu i w2 in
        rw (e, trigger_timeout)
          (also m (
            also (still (i ∷ h) w1 w2 (λ z. with_event-Still z i f w1)) (
              also (enqu_scheduled-Moves i h w2) (
                still h w3 (evlog_add i timer_timeout op_invalid w3)
                  (λ z. evlog_add-Still z i timer_timeout op_invalid w3)))))
