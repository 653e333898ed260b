-- ===== src/Queue/Pool.antt =====
-- The pool of events.
use ttpoe.Common.{ℕ, ◌≡◌, ◌≢◌, refl, Option, none, some, [], ◌∷◌, ◌++◌, arith, inc16}
use ttpoe.Fsm.{ev_invalid}
use ttpoe.World.{World, pool_elem}
use ttpoe.Queue.{evt_pput}

-- What `evt_pput` leaves alone, and the pool that it leaves.
pub record Put (i : ℕ) (w v : World) : Type 0 where
  pub pool_head : v.pool_head ≡ w.pool_head ++ (i ∷ [])
  pub pool : v.stats.pool ≡ inc16 w.stats.pool
  pub tags : v.tags ≡ w.tags
  pub tag_rbroot : v.tag_rbroot ≡ w.tag_rbroot
  pub rxq_head : v.rxq_head ≡ w.rxq_head
  pub txq_head : v.txq_head ≡ w.txq_head
  pub akq_head : v.akq_head ≡ w.akq_head
  pub inq_head : v.inq_head ≡ w.inq_head
  pub nocq : v.stats.nocq ≡ w.stats.nocq
  pub queue : v.stats.queue ≡ w.stats.queue
  pub rsk : (v.events i).rsk ≡ none
  pub tsk : (v.events i).tsk ≡ none
  pub evt : (v.events i).evt ≡ ev_invalid
  pub kid : (v.events i).kid ≡ 0
  pub mrk : (v.events i).mrk ≡ pool_elem

Put-cases :
    (i : ℕ) (w : World) (r t : Option ℕ)
    → (w.events i).rsk ≡ r
    → (w.events i).tsk ≡ t
    → Put i w (evt_pput i w)
unfolding evt_pput
Put-cases i w r t e f = ground arith

-- No other event changes.
other_cases :
    (i j : ℕ) (w : World) (r t : Option ℕ)
    → j ≢ i
    → (w.events i).rsk ≡ r
    → (w.events i).tsk ≡ t
    → (evt_pput i w).events j ≡ w.events j
unfolding evt_pput
other_cases i j w none none h e f = ground arith
other_cases i j w none (some n) h e f = ground arith
other_cases i j w (some m) none h e f = ground arith
other_cases i j w (some m) (some n) h e f = ground arith

pub evt_pput_other : (i j : ℕ) (w : World) → j ≢ i → (evt_pput i w).events j ≡ w.events j
evt_pput_other i j w h = other_cases i j w (w.events i).rsk (w.events i).tsk h refl refl

-- An event that is put back goes to the end of the pool, with no buffer, no key and no event any more, and is counted there;
-- the tags, the tree and the queues stay.
pub evt_pput-Put : (i : ℕ) (w : World) → Put i w (evt_pput i w)
evt_pput-Put i w = Put-cases i w (w.events i).rsk (w.events i).tsk refl refl
