-- ===== src/Travel/Queues.antt =====
-- The moves of the pool, the queues and the payloads of a tag.
use ttpoe.Common.{ℕ, ◌≡◌, ◌≢◌, refl, ◌∙◌, ap, Option, none, some, List, [], ◌∷◌, ◌++◌, arith}
use ttpoe.World.{World}
use ttpoe.World.Access.{with_event, with_tag}
use ttpoe.Queue.{
  evt_pget, evt_pput, evt_enqu_locked, Channel, rxq, txq, akq, inq, queue_of, set_queue, route,
}
use ttpoe.Queue.Counts.{counts_kept}
use ttpoe.Queue.Pool.{evt_pput-Put}
use ttpoe.Travel.{
  Place, hand, pool, queue, payloads, lists, Still, Others, Moves, still, take, give,
}
use ttpoe.Travel.Quiet.{with_event-Still}

abbrev pub held : Option ℕ → List ℕ → List ℕ
held none h = h
held (some i) h = i ∷ h

pget-Others : (w : World) → Others pool w (evt_pget w).0
unfolding evt_pget
pget-Others w hand a b = ground arith
pget-Others w pool a b = ground arith
pget-Others w (queue c) a b = ground arith
pget-Others w (payloads s) a b = ground arith

pool-ne-hand : pool ≢ hand
pool-ne-hand e = cc

pget_empty :
    (w : World) (z : ℕ) → w.pool_head ≡ [] → ((evt_pget w).1 ≡ none) × Still z w (evt_pget w).0
unfolding evt_pget
pget_empty w z e = ground (arith, e)

pget_first :
    (w : World) (i : ℕ) (rest : List ℕ)
    → w.pool_head ≡ i ∷ rest
    → ((evt_pget w).1 ≡ some i) × (w.pool_head ≡ i ∷ (evt_pget w).0.pool_head)
unfolding evt_pget
pget_first w i rest e = ground (arith, e)

-- An event, if there is one, comes from the pool into the hand.
pub pget-Moves : (h : List ℕ) (w : World) → Moves h w (held (evt_pget w).1 h) (evt_pget w).0
pget-Moves h w = go w.pool_head refl
  where
    go : (l : List ℕ) → w.pool_head ≡ l → Moves h w (held (evt_pget w).1 h) (evt_pget w).0
    go [] e = rw ((pget_empty w 0 e).0) (still h w (evt_pget w).0 (λ z. (pget_empty w z e).1))
    go (i ∷ rest) e =
        let f = pget_first w i rest e in
        rw f.0 (
          take h pool i w (evt_pget w).0 pool-ne-hand f.1 (pget-Others w)
            (λ c. (counts_kept i w c).0))

pput-Others : (i : ℕ) (w : World) → Others pool w (evt_pput i w)
pput-Others i w hand a b = ground arith
pput-Others i w pool a b = ground arith
pput-Others i w (queue c) a b = ground (arith, evt_pput-Put i w)
pput-Others i w (payloads s) a b = let p = evt_pput-Put i w in ap (λ g. (g s).ncq) p.tags

pub pput-Moves : (i : ℕ) (h : List ℕ) (w : World) → Moves (i ∷ h) w h (evt_pput i w)
pput-Moves i h w =
    give h pool i w (evt_pput i w) pool-ne-hand (evt_pput-Put i w).pool_head (pput-Others i w)
      (λ c. (counts_kept i w c).1)

set_queue_other :
    (c d : Channel) (l : List ℕ) (w : World)
    → queue c ≢ queue d
    → queue_of c (set_queue d l w) ≡ queue_of c w
set_queue_other c d l w n = ground arith

pub set_queue_self : (c : Channel) (l : List ℕ) (w : World) → queue_of c (set_queue c l w) ≡ l
set_queue_self c l w = ground arith

set_queue_rest :
    (c : Channel) (l : List ℕ) (w : World)
    → ((set_queue c l w).pool_head ≡ w.pool_head)
      × ((set_queue c l w).tags ≡ w.tags)
      × ((set_queue c l w).stats ≡ w.stats)
set_queue_rest c l w = ground arith

pub set_queue-Others : (d : Channel) (l : List ℕ) (w : World) → Others (queue d) w (set_queue d l w)
set_queue-Others d l w hand a b = refl
set_queue-Others d l w pool a b = (set_queue_rest d l w).0
set_queue-Others d l w (queue c) a b = set_queue_other c d l w b
set_queue-Others d l w (payloads s) a b = ap (λ g. (g s).ncq) (set_queue_rest d l w).1

pub queue-ne-hand : (c : Channel) → queue c ≢ hand
queue-ne-hand c e = cc

-- What is still holds what it held everywhere.
pub Still-lists :
    (w u : World) → ((s : ℕ) → Still s w u) → (q : Place) → q ≢ hand → lists [] u q ≡ lists [] w q
Still-lists w u k hand a = refl
Still-lists w u k pool a = (k 0).pool
Still-lists w u k (queue c) a = ground (arith, k 0)
Still-lists w u k (payloads s) a = (k s).ncq

-- An event in hand goes to the end of its queue.
module _ (i : ℕ) (h : List ℕ) (w : World) where
  abbrev marked : World
  marked = with_event i (λ e. record e { mrk = (route (w.events i).evt).0 }) w

  abbrev linked : World
  linked =
      set_queue (route (w.events i).evt).1 (queue_of (route (w.events i).evt).1 marked ++ (i ∷ []))
        marked

  enqu_lists : (q : Place) → q ≢ hand → lists [] (evt_enqu_locked i w) q ≡ lists [] linked q
  unfolding evt_enqu_locked
  enqu_lists hand a = refl
  enqu_lists pool a = refl
  enqu_lists (queue rxq) a = refl
  enqu_lists (queue txq) a = refl
  enqu_lists (queue akq) a = refl
  enqu_lists (queue inq) a = refl
  enqu_lists (payloads s) a = refl

  pub enqu-Moves : Moves (i ∷ h) w h (evt_enqu_locked i w)
  enqu-Moves =
      let d = (route (w.events i).evt).1 in
      let l = queue_of d marked ++ (i ∷ []) in
      let same =
        Still-lists w marked
          (λ s. with_event-Still s i (λ e. record e { mrk = (route (w.events i).evt).0 }) w) in
      give h (queue d) i w (evt_enqu_locked i w) (queue-ne-hand d)
        (enqu_lists (queue d) (queue-ne-hand d)
          ∙ set_queue_self d l marked
          ∙ ap (λ k. k ++ (i ∷ [])) (same (queue d) (queue-ne-hand d)))
        (λ q a b. enqu_lists q a ∙ set_queue-Others d l marked q a b ∙ same q a)
        (λ c. (counts_kept i w c).2)

pub payloads-ne-hand : (s : ℕ) → payloads s ≢ hand
payloads-ne-hand s e = cc

-- The payloads of one tag set.
pub with_tag-Others :
    (s : ℕ) (l : List ℕ) (w : World)
    → Others (payloads s) w (with_tag s (λ t. record t { ncq = l }) w)
with_tag-Others s l w hand a b = refl
with_tag-Others s l w pool a b = refl
with_tag-Others s l w (queue c) a b = ground arith
with_tag-Others s l w (payloads z) a b = let n : z ≢ s = λ e. b (ap payloads e) in ground (arith, n)
