-- ===== src/Init.antt =====
-- The start of the module's tables and queues (modttpoe/tags.c, ttp_fsm_init).
pub mod Scene
pub mod Start
use ttpoe.Common.{
  ℕ, zero, suc, ◌+◌, ◌%◌, Bool, true, false, ◌&&◌, Option, none, some, List, [], ◌∷◌, ltb, ◌==◌,
  if◌then◌else◌, update,
}
use ttpoe.Fsm.{closed, ev_invalid, rs_none, stay, op_invalid}
use ttpoe.Index.{leaf}
use ttpoe.Tag.{tag_reset}
use ttpoe.World.{World, FsmEvent, LinkTag, EvLog, Stats, pool_elem}
use ttpoe.World.Access.{with_event, with_tag, with_stats}

-- TTP_EVENTS_POOL_SIZE, and the tags of the three tables.
abbrev pub events_pool_size : ℕ
events_pool_size = 1024

abbrev pub all_tags : ℕ
all_tags = 1536

-- The numbers from `i` on, `n` of them.
abbrev pub range : ℕ → ℕ → List ℕ
range zero i = []
range (suc n) i = i ∷ range n (suc i)

-- The records of the log, oldest first; their content is what the array holds.
abbrev repeat : ℕ → EvLog → List EvLog
repeat zero lg = []
repeat (suc n) lg = lg ∷ repeat n lg

abbrev fresh_event : World → ℕ → FsmEvent
fresh_event w i =
    if ltb i events_pool_size
    then record (w.events i) {
      rsk = none;
      tsk = none;
      idx = i;
      evt = ev_invalid;
      kid = 0;
      mrk = pool_elem;
    }
    else w.events i

-- A tag set up: no timer, no work, no payloads, and `ttp_tag_reset`.
fresh_tag : World → ℕ → LinkTag
unfolding tag_reset
fresh_tag w s =
    if ltb s all_tags
    then (tag_reset s (with_tag s (λ t. record t { tmr = none; wkq = false; ncq = [] }) w)).tags s
    else w.tags s

unfoldable pub fsm_init : EvLog → World → World
unfolding fresh_tag
fsm_init lg w = record w {
  events = fresh_event w;
  tags = fresh_tag w;
  pool_head = range events_pool_size 0;
  rxq_head = [];
  txq_head = [];
  akq_head = [];
  inq_head = [];
  skb_head = [];
  tag_rbroot = leaf;
  evlog_head = repeat events_pool_size (record lg { ts = w.jiffies });
  work_queue = false;
  stats = record w.stats { pool = (w.stats.pool + events_pool_size) % 65536 };
}
