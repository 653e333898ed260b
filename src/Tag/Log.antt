-- ===== src/Tag/Log.antt =====
-- The event log is apart from the rest of the state.
use ttpoe.Common.{ℕ, ◌≡◌, refl, List, arith}
use ttpoe.Fsm.{Opcode}
use ttpoe.World.{World, LogEvent, EvLog}
use ttpoe.Tag.{evlog_add}

-- What two worlds share that differ in the log, its counter and the BUG flag alone.
pub record SameButLog (v w : World) : Type 0 where
  pub kernel : v.kernel ≡ w.kernel
  pub config : v.config ≡ w.config
  pub events : v.events ≡ w.events
  pub tags : v.tags ≡ w.tags
  pub skbs : v.skbs ≡ w.skbs
  pub next_skb : v.next_skb ≡ w.next_skb
  pub pool_head : v.pool_head ≡ w.pool_head
  pub rxq_head : v.rxq_head ≡ w.rxq_head
  pub txq_head : v.txq_head ≡ w.txq_head
  pub akq_head : v.akq_head ≡ w.akq_head
  pub inq_head : v.inq_head ≡ w.inq_head
  pub tag_rbroot : v.tag_rbroot ≡ w.tag_rbroot
  pub noc_page : v.noc_page ≡ w.noc_page
  pub noc_len : v.noc_len ≡ w.noc_len
  pub sent : v.sent ≡ w.sent
  pub pool : v.stats.pool ≡ w.stats.pool
  pub queue : v.stats.queue ≡ w.stats.queue
  pub nocq : v.stats.nocq ≡ w.stats.nocq

same_of_head :
    (i : ℕ) (e : LogEvent) (o : Opcode) (w : World) (h : List EvLog)
    → w.evlog_head ≡ h
    → SameButLog (evlog_add i e o w) w
unfolding evlog_add
same_of_head i e o w h q = ground arith

pub evlog_add-SameButLog :
    (i : ℕ) (e : LogEvent) (o : Opcode) (w : World) → SameButLog (evlog_add i e o w) w
evlog_add-SameButLog i e o w = same_of_head i e o w w.evlog_head refl
