-- ===== src/Travel/Handlers.antt =====
-- The moves of the handlers of acknowledgements and of a tag that is emptied.
use ttpoe.Common.{
  Option-cases, Bool-cases, inl, inr, ℕ, zero, suc, ◌≡◌, refl, ◌∙◌, none, some, List, [], ◌∷◌,
  length, arith, dec16, ◌==◌,
}
use ttpoe.World.{World, LinkTag, noc_payload_free, timer_delete}
use ttpoe.World.Access.{with_tag, del_timer}
use ttpoe.Fsm.{ttp_ack, ttp_nack, Opcode}
use ttpoe.Tag.{tag_get, evlog_add}
use ttpoe.Queue.{evt_pput, noc_dequ}
use ttpoe.Handle.{stop_timer, retire_first, ack_payloads, handle_ack, handle_nack}
use ttpoe.Enter.{drain_from, drain}
use ttpoe.Travel.{Still, Moves, still, also}
use ttpoe.Travel.Quiet.{Still-refl, Still-trans, with_stats-Still, with_tag-Still, evlog_add-Still}
use ttpoe.Travel.Queues.{pput-Moves}
use ttpoe.Travel.Payloads.{unhold-Moves, noc_dequ-Moves}
use ttpoe.Travel.Requeue.{noc_requ-Moves}

pub stop_timer-Still : (z i s : ℕ) (op : Opcode) (w : World) → Still z w (stop_timer i s op w)
unfolding stop_timer
stop_timer-Still z i s op w = ground (
  arith,
  with_tag-Still z s (λ t. record t { tmr = none }) w refl,
  evlog_add-Still z i timer_delete op (del_timer s w),
)

retire_first-Moves :
    (s t : ℕ) (rest h : List ℕ) (w : World)
    → (w.tags s).ncq ≡ t ∷ rest
    → Moves h w h (retire_first s t rest w)
unfolding retire_first
retire_first-Moves s t rest h w e =
    let f = λ (l : LinkTag). record l { retire_id = (w.events t).psi.txi_seq } in
    let w1 = with_tag s f w in
    let w2 = evlog_add t noc_payload_free ttp_ack w1 in
    let before : (z : ℕ) → Still z w w2 = λ z.
      Still-trans (with_tag-Still z s f w refl) (evlog_add-Still z t noc_payload_free ttp_ack w1) in
    let u = with_tag s (λ l. record l { ncq = rest }) w2 in
    let w3 = evt_pput t u in
    let g = λ (l : LinkTag). record l { tct = dec16 l.tct; try = 0 } in
    let w4 = with_tag s g w3 in
    let after : (z : ℕ) → Still z w3 (retire_first s t rest w) = λ z.
      Still-trans (with_tag-Still z s g w3 refl)
        (with_stats-Still z (λ c. record c { nocq = dec16 c.nocq }) w4 refl refl) in
    also (still h w w2 before) (
      also (unhold-Moves s t rest h w2 ((before s).ncq ∙ e))
        (also (pput-Moves t h u) (still h w3 (retire_first s t rest w) after)))

ack_payloads-Moves : (i s : ℕ) (h : List ℕ) (w : World) → Moves h w h (ack_payloads i s w).0
unfolding ack_payloads
ack_payloads-Moves i s h w = go (w.tags s).ncq refl
  where
    go : (l : List ℕ) → (w.tags s).ncq ≡ l → Moves h w h (ack_payloads i s w).0
    go [] e = rw (e, ack_payloads) (still h w w (λ z. Still-refl z w))
    go (t ∷ rest) e = elim (Bool-cases ((w.events t).psi.txi_seq == (w.events i).psi.rxi_seq)) [
      | inl k ↦
          rw (e, k, ack_payloads)
            (also (retire_first-Moves s t rest h w e)
              (noc_requ-Moves s h (retire_first s t rest w)))
      | inr k ↦ rw (e, k, ack_payloads) (noc_requ-Moves s h w)
    ]

pub handle_ack-Moves : (i : ℕ) (h : List ℕ) (w : World) → Moves h w h (handle_ack i w).0
unfolding handle_ack
handle_ack-Moves i h w = elim (Option-cases (tag_get w (w.events i).kid)) [
  | inl e ↦ rw (e, handle_ack) (still h w w (λ z. Still-refl z w))
  | inr (s, e) ↦
      let u = stop_timer i s ttp_ack w in
      rw (e, handle_ack)
        (also (still h w u (λ z. stop_timer-Still z i s ttp_ack w)) (ack_payloads-Moves i s h u))
]

pub handle_nack-Moves : (i : ℕ) (h : List ℕ) (w : World) → Moves h w h (handle_nack i w).0
unfolding handle_nack
handle_nack-Moves i h w = elim (Option-cases (tag_get w (w.events i).kid)) [
  | inl e ↦ rw (e, handle_nack) (still h w w (λ z. Still-refl z w))
  | inr (s, e) ↦ go s e ((stop_timer i s ttp_nack w).tags s).ncq refl
]
  where
    go :
        (s : ℕ)
        → tag_get w (w.events i).kid ≡ some s
        → (l : List ℕ) → ((stop_timer i s ttp_nack w).tags s).ncq ≡ l
        → Moves h w h (handle_nack i w).0
    go s e l f =
        let u = stop_timer i s ttp_nack w in
        let quiet = still h w u (λ z. stop_timer-Still z i s ttp_nack w) in
        (elim l as (λ k. (u.tags s).ncq ≡ k → Moves h w h (handle_nack i w).0) [
          | [] ↦ λ g. rw (e, handle_nack) (rw (g) quiet)
          | t ∷ rest ↦ λ g. rw (e, handle_nack) (rw (g) (also quiet (noc_requ-Moves s h u)))
        ])
          f

drain_from-Moves : (n s : ℕ) (h : List ℕ) (w : World) → Moves h w h (drain_from n s w)
unfolding drain_from
drain_from-Moves zero s h w = still h w w (λ z. Still-refl z w)
drain_from-Moves (suc n) s h w = elim (Bool-cases (noc_dequ s w).1) [
  | inl e ↦
      rw (e, drain_from) (also (noc_dequ-Moves s h w) (drain_from-Moves n s h (noc_dequ s w).0))
  | inr e ↦ rw (e, drain_from) (noc_dequ-Moves s h w)
]

pub drain-Moves : (s : ℕ) (h : List ℕ) (w : World) → Moves h w h (drain s w)
unfolding drain
drain-Moves s h w = drain_from-Moves (suc (length (w.tags s).ncq)) s h w
