-- ===== src/Travel/Requeue.antt =====
-- The moves of a tag's payloads: those queued, sent again, acknowledged and given up.
use ttpoe.Common.{
  Option-cases, Bool-cases, inl, inr, ℕ, ◌≡◌, refl, true, false, List, [], ◌∷◌, ◌++◌, arith, inc16,
  inc32, dec16, ◌==◌, ltb, leb, if◌then◌else◌,
}
use ttpoe.World.{World, FsmEvent, LinkTag, noc_payload_req, noc_payload_drop, noc_payload_enq}
use ttpoe.World.Access.{with_event, with_tag, with_stats, schedule_tag, timer_pending}
use ttpoe.Fsm.{ttp_payload}
use ttpoe.Tag.{tag_get, evlog_add}
use ttpoe.Queue.{evt_pput, evt_cpqu_locked, requ_copy, requ_drop, noc_requ, noc_enqu, max_retry}
use ttpoe.Travel.{Still, Moves, still, also}
use ttpoe.Travel.Quiet.{
  Still-refl, Still-trans, with_stats-Still, with_event-Still, with_tag-Still, evlog_add-Still,
}
use ttpoe.Travel.Queues.{pput-Moves}
use ttpoe.Travel.Payloads.{hold-Moves, unhold-Moves, cpqu_locked-Moves, trigger_timeout-Moves}

copied-Still :
    (z s i : ℕ) (w : World)
    → let u = if (w.tags s).try == 0 then w else evlog_add i noc_payload_req ttp_payload w in
      Still z w
        (schedule_tag s (with_tag s (λ l. record l { txt = inc16 l.txt; try = inc16 l.try }) u))
copied-Still z s i w = ground (arith, evlog_add-Still z i noc_payload_req ttp_payload w)

requ_copy-Moves : (s t : ℕ) (h : List ℕ) (w : World) → Moves h w h (requ_copy s t w)
unfolding requ_copy
requ_copy-Moves s t h w = elim (Bool-cases (ltb (w.tags s).txt (w.tags s).twz)) [
  | inr e ↦ rw (e, requ_copy) (still h w w (λ z. Still-refl z w))
  | inl e ↦
      let w1 = (evt_cpqu_locked t w).0 in
      elim (Option-cases (evt_cpqu_locked t w).1) [
        | inl f ↦ rw (e, f, requ_copy) (cpqu_locked-Moves t h w)
        | inr (i, f) ↦
            let u =
              if (w1.tags s).try == 0 then w1 else evlog_add i noc_payload_req ttp_payload w1 in
            rw (e, f, requ_copy)
              (also (cpqu_locked-Moves t h w) (
                still h w1
                  (schedule_tag s
                    (with_tag s (λ l. record l { txt = inc16 l.txt; try = inc16 l.try }) u))
                  (λ z. copied-Still z s i w1)))
      ]
]

requ_drop-Moves :
    (s t : ℕ) (rest h : List ℕ) (w : World)
    → (w.tags s).ncq ≡ t ∷ rest
    → Moves h w h (requ_drop s t rest w)
unfolding requ_drop
requ_drop-Moves s t rest h w e =
    let f = λ (l : LinkTag). record l { tct = dec16 l.tct; try = 0 } in
    let u = with_tag s (λ l. record l { ncq = rest }) w in
    let w1 = with_tag s (λ l. record l { ncq = rest; tct = dec16 l.tct; try = 0 }) w in
    let w2 = with_stats (λ c. record c { nocq = dec16 c.nocq }) w1 in
    let w3 = evlog_add t noc_payload_drop ttp_payload w2 in
    let quiet : (z : ℕ) → Still z u w3 = λ z.
      Still-trans
        (record {
          pool = refl;
          rxq = refl;
          txq = refl;
          akq = refl;
          inq = refl;
          ncq = ground arith;
          pool_count = refl;
          queue_count = refl;
        })
        (evlog_add-Still z t noc_payload_drop ttp_payload w2) in
    also (unhold-Moves s t rest h w e) (
      also (still (t ∷ h) u w3 quiet)
        (also (pput-Moves t h w3) (trigger_timeout-Moves s h (evt_pput t w3))))

-- A payload sent again, or given up.
pub noc_requ-Moves : (s : ℕ) (h : List ℕ) (w : World) → Moves h w h (noc_requ s w)
unfolding noc_requ
noc_requ-Moves s h w = elim (Bool-cases (timer_pending (w.tags s))) [
  | inl e ↦ rw (e, noc_requ) (still h w w (λ z. Still-refl z w))
  | inr e ↦ go e (w.tags s).ncq refl
]
  where
    go :
        timer_pending (w.tags s) ≡ false
        → (l : List ℕ) → (w.tags s).ncq ≡ l
        → Moves h w h (noc_requ s w)
    go e [] f = rw (e, f, noc_requ) (still h w w (λ z. Still-refl z w))
    go e (t ∷ rest) f = elim (Bool-cases (leb (w.tags s).try max_retry)) [
      | inl k ↦ rw (e, f, k, noc_requ) (requ_copy-Moves s t h w)
      | inr k ↦ rw (e, f, k, noc_requ) (requ_drop-Moves s t rest h w f)
    ]

-- A payload taken up by its tag, or back in the pool.
pub noc_enqu-Moves : (i : ℕ) (h : List ℕ) (w : World) → Moves (i ∷ h) w h (noc_enqu i w)
unfolding noc_enqu
noc_enqu-Moves i h w = elim (Option-cases (tag_get w (w.events i).kid)) [
  | inl e ↦ rw (e, noc_enqu) (pput-Moves i h w)
  | inr (s, e) ↦
      let w1 = with_tag s (λ l. record l { ncq = l.ncq ++ (i ∷ []) }) w in
      let seq = (w1.tags s).tx_seq_id in
      let f = λ (x : FsmEvent). record x { psi = record x.psi { txi_seq = seq } } in
      let w2 = with_event i f w1 in
      let g = λ (l : LinkTag). record l { tct = inc16 l.tct; tx_seq_id = inc32 l.tx_seq_id } in
      let w3 = with_tag s g w2 in
      let w4 = schedule_tag s (with_stats (λ c. record c { nocq = inc16 c.nocq }) w3) in
      let quiet : (z : ℕ) → Still z w1 (evlog_add i noc_payload_enq ttp_payload w4) = λ z.
        Still-trans (Still-trans (with_event-Still z i f w1) (with_tag-Still z s g w2 refl)) (
          Still-trans
            (Still-trans (with_stats-Still z (λ c. record c { nocq = inc16 c.nocq }) w3 refl refl) (
              with_tag-Still z s (λ t. record t { wkq = true })
                (with_stats (λ c. record c { nocq = inc16 c.nocq }) w3) refl))
            (evlog_add-Still z i noc_payload_enq ttp_payload w4)) in
      rw (e, noc_enqu)
        (also (hold-Moves s i h w) (still h w1 (evlog_add i noc_payload_enq ttp_payload w4) quiet))
]
