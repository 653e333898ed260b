-- ===== src/Queue/Payloads.antt =====
-- The payloads of a link that wait for their acknowledgement.
use ttpoe.Fsm.{ttp_payload}
use ttpoe.Common.{
  if◌then◌else◌, ℕ, ◌≤◌, ◌≡◌, refl, ◌∙◌, ap, Option, none, some, List, [], ◌∷◌, arith, Bool, true,
  false, inc16, ltb, leb,
}
use ttpoe.World.{World, noc_payload_req}
use ttpoe.World.Access.{timer_pending, bug_on, is_some, schedule_tag, with_tag, with_event}
use ttpoe.Buffer.{tsk_bind}
use ttpoe.Tag.{evlog_add}
use ttpoe.Tag.Log.{evlog_add-SameButLog}
use ttpoe.Queue.{
  evt_pget, evt_cpqu_locked, evt_enqu_locked, requ_copy, noc_requ, max_retry, set_queue, Channel,
}

-- What sending a payload again leaves alone on a tag.
pub record SamePayloads (s : ℕ) (w v : World) : Type 0 where
  pub ncq : (v.tags s).ncq ≡ (w.tags s).ncq
  pub tct : (v.tags s).tct ≡ (w.tags s).tct
  pub retire_id : (v.tags s).retire_id ≡ (w.tags s).retire_id
  pub tx_seq_id : (v.tags s).tx_seq_id ≡ (w.tags s).tx_seq_id
  pub rx_seq_id : (v.tags s).rx_seq_id ≡ (w.tags s).rx_seq_id
  pub state : (v.tags s).state ≡ (w.tags s).state

same_tag : (s : ℕ) (w v : World) → v.tags s ≡ w.tags s → SamePayloads s w v
same_tag s w v e = record {
  ncq = ap (λ t. t.ncq) e;
  tct = ap (λ t. t.tct) e;
  retire_id = ap (λ t. t.retire_id) e;
  tx_seq_id = ap (λ t. t.tx_seq_id) e;
  rx_seq_id = ap (λ t. t.rx_seq_id) e;
  state = ap (λ t. t.state) e;
}

-- The queueing of events leaves the tags alone.
pget_tags : (w : World) → (evt_pget w).0.tags ≡ w.tags
unfolding evt_pget
pget_tags w = go w.pool_head refl
  where
    go : (q : List ℕ) → w.pool_head ≡ q → (evt_pget w).0.tags ≡ w.tags
    go [] e = ground arith
    go (i ∷ rest) e = ground arith

set_queue_tags : (q : Channel) (l : List ℕ) (w : World) → (set_queue q l w).tags ≡ w.tags
set_queue_tags q l w = ground arith

enqu_tags : (i : ℕ) (w : World) → (evt_enqu_locked i w).tags ≡ w.tags
unfolding evt_enqu_locked
enqu_tags i w = set_queue_tags _ _ _

bind_tags : (i q : ℕ) (w : World) → (tsk_bind i q w).tags ≡ w.tags
unfolding tsk_bind
bind_tags i q w = go (w.events q).tsk refl
  where
    go : (o : Option ℕ) → (w.events q).tsk ≡ o → (tsk_bind i q w).tags ≡ w.tags
    go none e = rw (e, tsk_bind) refl
    go (some n) e = rw (e, tsk_bind) refl

cpqu_tags : (q : ℕ) (w : World) → (evt_cpqu_locked q w).0.tags ≡ w.tags
unfolding evt_cpqu_locked
cpqu_tags q w = go (evt_pget w).1 refl
  where
    go : (o : Option ℕ) → (evt_pget w).1 ≡ o → (evt_cpqu_locked q w).0.tags ≡ w.tags
    go none e = rw (e, evt_cpqu_locked) (pget_tags w)
    go (some i) e =
        let w1 = (evt_pget w).0 in
        let w2 = bug_on (is_some (w1.events i).rsk) (bug_on (is_some (w1.events i).tsk) w1) in
        let w3 =
          with_event i (λ x. record x { evt = (w2.events q).evt; kid = (w2.events q).kid }) w2 in
        rw (e, evt_cpqu_locked) (enqu_tags i (tsk_bind i q w3) ∙ bind_tags i q w3 ∙ pget_tags w)

-- The packet is logged but at the first try.
logged : ℕ → Bool → World → World
logged i b w = if b then w else evlog_add i noc_payload_req ttp_payload w

logged_tags : (i : ℕ) (b : Bool) (w : World) → (logged i b w).tags ≡ w.tags
unfolding logged
logged_tags i true w = refl
logged_tags i false w = (evlog_add-SameButLog i noc_payload_req ttp_payload w).tags

tried :
    (s : ℕ) (w v : World)
    → v.tags ≡ w.tags
    → SamePayloads s w
        (schedule_tag s (with_tag s (λ l. record l { txt = inc16 l.txt; try = inc16 l.try }) v))
tried s w v e =
    let f = ap (λ t. t s) e in
    record {
      ncq = (ground arith) ∙ ap (λ t. t.ncq) f;
      tct = (ground arith) ∙ ap (λ t. t.tct) f;
      retire_id = (ground arith) ∙ ap (λ t. t.retire_id) f;
      tx_seq_id = (ground arith) ∙ ap (λ t. t.tx_seq_id) f;
      rx_seq_id = (ground arith) ∙ ap (λ t. t.rx_seq_id) f;
      state = (ground arith) ∙ ap (λ t. t.state) f;
    }

requ_copy-SamePayloads : (s t : ℕ) (w : World) → SamePayloads s w (requ_copy s t w)
unfolding requ_copy logged
requ_copy-SamePayloads s t w =
    go (ltb (w.tags s).txt (w.tags s).twz) (evt_cpqu_locked t w).1 refl refl
  where
    go :
        (b : Bool) (o : Option ℕ)
        → ltb (w.tags s).txt (w.tags s).twz ≡ b
        → (evt_cpqu_locked t w).1 ≡ o
        → SamePayloads s w (requ_copy s t w)
    go false o d e = rw d (same_tag s w w refl)
    go true none d e = rw (d, e) (same_tag s w _ (ap (λ t. t s) (cpqu_tags t w)))
    go true (some i) d e = rw (d, e) (tried s w _ (logged_tags i _ _ ∙ cpqu_tags t w))

-- As long as the first payload has been tried at most a thousand times, sending it again takes nothing from the
-- link's queue of payloads and keeps the link's state and all its numbers.
pub noc_requ-SamePayloads :
    (s : ℕ) (w : World) → (w.tags s).try ≤ max_retry → SamePayloads s w (noc_requ s w)
unfolding noc_requ
noc_requ-SamePayloads s w h = go (timer_pending (w.tags s)) (w.tags s).ncq refl refl
  where
    few : leb (w.tags s).try max_retry ≡ true
    few = ground arith

    go :
        (b : Bool) (q : List ℕ)
        → timer_pending (w.tags s) ≡ b
        → (w.tags s).ncq ≡ q
        → SamePayloads s w (noc_requ s w)
    go true q d e = rw d (same_tag s w w refl)
    go false [] d e = rw (d, e) (same_tag s w w refl)
    go false (t ∷ rest) d e = rw (d, e, few) (requ_copy-SamePayloads s t w)
