-- ===== src/Travel/Quiet.antt =====
-- What moves no event.
use ttpoe.Common.{Option-cases, inl, inr, ◌+◌, ℕ, ◌≡◌, refl, Bool, Option, some, arith}
use ttpoe.World.{World, FsmEvent, LinkTag, Skb, Stats, LogEvent}
use ttpoe.World.Access.{with_event, with_tag, with_skb, with_stats, bug_on}
use ttpoe.Fsm.{Opcode, op_invalid}
use ttpoe.Tag.{evlog_add, tag_add, tag_reset, signal_tag, fill_slot}
use ttpoe.Bloom.{bloom_add}
use ttpoe.Buffer.{
  tsk_bind, tsk_move, skb_aloc, skb_xmit, skb_net_setup, ipv4_encap_setup, skb_prep, finish_prep,
  prep_key, payload_len,
}
use ttpoe.Noc.{noc_debug_rx}
use ttpoe.Respond.{write_seqs, arm_timer}
use ttpoe.Travel.{Still}

pub Still-refl : (s : ℕ) (w : World) → Still s w w
Still-refl s w = ground arith

pub Still-trans : {s : ℕ} {w u v : World} → Still s w u → Still s u v → Still s w v
Still-trans a b = ground arith

pub with_event-Still :
    (z : ℕ) (i : ℕ) (f : FsmEvent → FsmEvent) (w : World) → Still z w (with_event i f w)
with_event-Still z i f w = ground arith

pub with_skb-Still : (z : ℕ) (n : ℕ) (f : Skb → Skb) (w : World) → Still z w (with_skb n f w)
with_skb-Still z n f w = ground arith

pub bug_on-Still : (z : ℕ) (b : Bool) (w : World) → Still z w (bug_on b w)
bug_on-Still z b w = ground arith

pub with_stats-Still :
    (z : ℕ) (f : Stats → Stats) (w : World)
    → (f w.stats).pool ≡ w.stats.pool
    → (f w.stats).queue ≡ w.stats.queue
    → Still z w (with_stats f w)
with_stats-Still z f w p q = ground arith

pub with_tag-Still :
    (z : ℕ) (s : ℕ) (f : LinkTag → LinkTag) (w : World)
    → (f (w.tags s)).ncq ≡ (w.tags s).ncq
    → Still z w (with_tag s f w)
with_tag-Still z s f w e = ground (arith, e)

pub evlog_add-Still :
    (z : ℕ) (i : ℕ) (v : LogEvent) (op : Opcode) (w : World) → Still z w (evlog_add i v op w)
unfolding evlog_add
evlog_add-Still z i v op w = ground arith

pub tag_reset-Still : (z : ℕ) (s : ℕ) (w : World) → Still z w (tag_reset s w)
unfolding tag_reset
tag_reset-Still z s w = ground arith

pub signal_tag-Still : (z : ℕ) (i : ℕ) (w : World) → Still z w (signal_tag i w)
unfolding signal_tag
signal_tag-Still z i w = ground arith

pub fill_slot-Still : (z : ℕ) (s b k : ℕ) (w : World) → Still z w (fill_slot s b k w)
unfolding fill_slot
fill_slot-Still z s b k w = ground arith

pub tag_add-Still : (z : ℕ) (k : ℕ) (w : World) → Still z w (tag_add k w).0
unfolding tag_add
tag_add-Still z k w = ground arith

pub bloom_add-Still : (z : ℕ) (k : ℕ) (w : World) → Still z w (bloom_add k w)
unfolding bloom_add
bloom_add-Still z k w = ground arith

pub tsk_bind-Still : (z : ℕ) (i q : ℕ) (w : World) → Still z w (tsk_bind i q w)
unfolding tsk_bind
tsk_bind-Still z i q w = ground arith

pub tsk_move-Still : (z : ℕ) (i : ℕ) (w : World) → Still z w (tsk_move i w).0
unfolding tsk_move
tsk_move-Still z i w = ground arith

pub skb_aloc-Still : (z : ℕ) (n : ℕ) (w : World) → Still z w (skb_aloc n w).0
unfolding skb_aloc
skb_aloc-Still z n w = ground arith

pub skb_xmit-Still : (z : ℕ) (n : ℕ) (w : World) → Still z w (skb_xmit n w)
unfolding skb_xmit
skb_xmit-Still z n w = ground arith

pub noc_debug_rx-Still :
    (z : ℕ) (src : ℕ → ℕ) (n : ℕ) (w : World) → Still z w (noc_debug_rx src n w).0
unfolding noc_debug_rx
noc_debug_rx-Still z src n w = ground arith

pub write_seqs-Still : (z : ℕ) (n rx tx : ℕ) (w : World) → Still z w (write_seqs n rx tx w)
unfolding write_seqs
write_seqs-Still z n rx tx w = ground arith

pub skb_net_setup-Still :
    (z : ℕ) (n : ℕ) (lt : Option ℕ) (nl : ℕ) (op : Opcode) (w : World)
    → Still z w (skb_net_setup n lt nl op w).0
unfolding skb_net_setup
skb_net_setup-Still z n lt nl op w = ground arith

pub ipv4_encap_setup-Still : (z : ℕ) (n : ℕ) (w : World) → Still z w (ipv4_encap_setup n w).0
unfolding ipv4_encap_setup
ipv4_encap_setup-Still z n w = ground arith

pub arm_timer-Still :
    (z : ℕ) (i s ms : ℕ) (a b : LogEvent) (w : World) → Still z w (arm_timer i s ms a b w)
unfolding arm_timer
arm_timer-Still z i s ms a b w =
    Still-trans
      (with_tag-Still z s (λ t. record t { tmr = some (w.jiffies + w.kernel.msecs_to_jiffies ms) })
        w refl)
      (evlog_add-Still z i _ op_invalid _)

finish_prep-Still : (z i n nl : ℕ) (op : Opcode) (w : World) → Still z w (finish_prep i n nl op w).0
unfolding finish_prep
finish_prep-Still z i n nl op w =
    let a = skb_net_setup n (some (prep_key i w)) nl op w in
    ground
      (arith, skb_net_setup-Still z n (some (prep_key i w)) nl op w, ipv4_encap_setup-Still z n a.0)

pub skb_prep-Still : (z i : ℕ) (op : Opcode) (w : World) → Still z w (skb_prep i op w).0
unfolding skb_prep
skb_prep-Still z i op w =
    let nl = payload_len i op w in
    let a = (tsk_move i w).0 in
    let b = (skb_aloc nl w).0 in
    elim (Option-cases (tsk_move i w).1) [
      | inr (n, e) ↦ ground (arith, e, tsk_move-Still z i w, finish_prep-Still z i n nl op a)
      | inl e ↦ elim (Option-cases (skb_aloc nl w).1) [
        | inl f ↦ ground (arith, e, f, skb_aloc-Still z nl w)
        | inr (n, f) ↦ ground (arith, e, f, skb_aloc-Still z nl w, finish_prep-Still z i n nl op b)
      ]
    ]
