-- ===== src/Init/Start.antt =====
-- What the module starts with.
use ttpoe.Common.{ℕ, zero, suc, ◌<◌, ◌≡◌, refl, none, [], arith, length, ap}
use ttpoe.Fsm.{closed}
use ttpoe.World.{World, EvLog}
use ttpoe.Tag.{tag_get, tag_reset}
use ttpoe.Tag.Add.{IndexOk}
use ttpoe.Queue.Counts.{CountsOk}
use ttpoe.Init.{fsm_init, events_pool_size, all_tags, range}

length-range : (n i : ℕ) → length (range n i) ≡ n
length-range zero i = refl
length-range (suc n) i = ap suc (length-range n (suc i))

start-CountsOk :
    (lg : EvLog) (w : World) → w.stats.pool ≡ 0 → w.stats.queue ≡ 0 → CountsOk (fsm_init lg w)
unfolding fsm_init
start-CountsOk lg w p q = record {
  pool = omega (arith, p, length-range events_pool_size 0);
  queue = q;
}

start_tag :
    (lg : EvLog) (w : World) (s : ℕ)
    → s < all_tags
    → (((fsm_init lg w).tags s).valid ≡ 0)
      × (((fsm_init lg w).tags s).state ≡ closed)
      × (((fsm_init lg w).tags s).ncq ≡ [])
      × (((fsm_init lg w).tags s).tmr ≡ none)
unfolding fsm_init tag_reset
start_tag lg w s h = ground arith

start_get : (lg : EvLog) (w : World) (kid : ℕ) → tag_get (fsm_init lg w) kid ≡ none
unfolding fsm_init tag_get ttpoe.Index.tag_get
start_get lg w kid = refl

-- After the start, from counters of zero, the counters follow the lists, the tree is in order and finds no tag for any key,
-- and every tag of the three tables is free, closed, without payloads and without a timer.
pub fsm_init_start :
    (lg : EvLog) (w : World)
    → w.stats.pool ≡ 0
    → w.stats.queue ≡ 0
    → CountsOk (fsm_init lg w)
      × IndexOk (fsm_init lg w)
      × ((kid : ℕ) → tag_get (fsm_init lg w) kid ≡ none)
      × ((s : ℕ)
          → s < all_tags
          → (((fsm_init lg w).tags s).valid ≡ 0)
            × (((fsm_init lg w).tags s).state ≡ closed)
            × (((fsm_init lg w).tags s).ncq ≡ [])
            × (((fsm_init lg w).tags s).tmr ≡ none))
unfolding fsm_init
fsm_init_start lg w p q = (start-CountsOk lg w p q, tt, start_get lg w, start_tag lg w)
