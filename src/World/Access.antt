-- ===== src/World/Access.antt =====
-- Assignments through a pointer to an event, a tag, a buffer or the counters, and the kernel's lists,
-- timers and work items as the module uses them.
use ttpoe.Common.{ℕ, ◌+◌, ◌-◌, Bool, true, false, ◌||◌, Option, none, some, update}
use ttpoe.World.{World, FsmEvent, LinkTag, Skb, Stats}

abbrev pub with_event : ℕ → (FsmEvent → FsmEvent) → World → World
with_event i f w = record w { events = update w.events i (f (w.events i)) }

abbrev pub with_tag : ℕ → (LinkTag → LinkTag) → World → World
with_tag s f w = record w { tags = update w.tags s (f (w.tags s)) }

abbrev pub with_skb : ℕ → (Skb → Skb) → World → World
with_skb n f w = record w { skbs = update w.skbs n (f (w.skbs n)) }

abbrev pub with_stats : (Stats → Stats) → World → World
with_stats f w = record w { stats = f w.stats }

abbrev pub is_some {ℓ} : {A : Type ℓ} → Option A → Bool
is_some none = false
is_some (some a) = true

abbrev pub bug_on : Bool → World → World
bug_on b w = record w { bug = w.bug || b }

-- `schedule_work` of a tag and of the module: nothing happens where it is scheduled already.
abbrev pub schedule_tag : ℕ → World → World
schedule_tag s w = with_tag s (λ t. record t { wkq = true }) w

abbrev pub schedule_global : World → World
schedule_global w = record w { work_queue = true }

abbrev pub timer_pending : LinkTag → Bool
timer_pending t = is_some t.tmr

abbrev pub del_timer : ℕ → World → World
del_timer s w = with_tag s (λ t. record t { tmr = none }) w

-- `mod_timer_pending` and `add_timer` alike set the time at which the timer runs out.
abbrev pub start_timer : ℕ → ℕ → World → World
start_timer s ms w =
    with_tag s (λ t. record t { tmr = some (w.jiffies + w.kernel.msecs_to_jiffies ms) }) w

-- One reference less; the buffer is gone with the last one.
abbrev pub kfree_skb : ℕ → World → World
kfree_skb n w = with_skb n (λ b. record b { users = b.users - 1 }) w
