-- ===== src/Queue/Numbers.antt =====
-- The numbers of the payloads that wait.
use ttpoe.Common.{
  ℕ, suc, ◌+◌, ◌%◌, ◌^◌, ◌≡◌, ◌≢◌, refl, sym, ◌∙◌, ap, subst, some, List, [], ◌∷◌, ◌++◌, arith,
  inc16, inc32, length, length-append,
}
use ttpoe.Fsm.{ttp_payload}
use ttpoe.Index.Order.{All}
use ttpoe.World.{World, noc_payload_enq}
use ttpoe.World.Access.{with_event, with_tag, with_stats, schedule_tag}
use ttpoe.Tag.{tag_get, evlog_add}
use ttpoe.Tag.Log.{evlog_add-SameButLog}
use ttpoe.Queue.{noc_enqu}

-- Events with the numbers from `n` on.
abbrev pub IsRun : World → ℕ → List ℕ → Type 0
IsRun w n [] = Unit {0}
IsRun w n (t ∷ ts) = ((w.events t).psi.txi_seq ≡ n % 2 ^ 32) × IsRun w (suc n) ts

-- The payloads that wait have the numbers from `n` on, without a gap, and the next payload gets the one behind them.
pub record Numbered (s n : ℕ) (w : World) : Type 0 where
  pub run : IsRun w n (w.tags s).ncq
  pub next : (w.tags s).tx_seq_id ≡ (n + length (w.tags s).ncq) % 2 ^ 32

-- An event at the end of a run.
IsRun-more :
    (w : World) (n i : ℕ) (ts : List ℕ)
    → IsRun w n ts
    → (w.events i).psi.txi_seq ≡ (n + length ts) % 2 ^ 32
    → IsRun w n (ts ++ (i ∷ []))
IsRun-more w n i [] r e = (omega (arith, e), tt)
IsRun-more w n i (t ∷ ts) r e = (r.0, IsRun-more w (suc n) i ts r.1 (omega (arith, e)))

-- Runs are read from the events' numbers alone.
pub IsRun-cong :
    (v w : World) (n : ℕ) (ts : List ℕ)
    → All (λ t. (v.events t).psi.txi_seq ≡ (w.events t).psi.txi_seq) ts
    → IsRun w n ts
    → IsRun v n ts
IsRun-cong v w n [] h r = tt
IsRun-cong v w n (t ∷ ts) h r = (h.0 ∙ r.0, IsRun-cong v w (suc n) ts h.1 r.1)

-- The world of `noc_enqu` before the log.
lined_up : ℕ → ℕ → World → World
lined_up i s w =
    let w1 = with_tag s (λ l. record l { ncq = l.ncq ++ (i ∷ []) }) w in
    let seq = (w1.tags s).tx_seq_id in
    let w2 = with_event i (λ e. record e { psi = record e.psi { txi_seq = seq } }) w1 in
    let w3 = with_tag s (λ l. record l { tct = inc16 l.tct; tx_seq_id = inc32 l.tx_seq_id }) w2 in
    schedule_tag s (with_stats (λ c. record c { nocq = inc16 c.nocq }) w3)

enqu_found :
    (i s : ℕ) (w : World)
    → tag_get w (w.events i).kid ≡ some s
    → noc_enqu i w ≡ evlog_add i noc_payload_enq ttp_payload (lined_up i s w)
enqu_found i s w e = unfold noc_enqu lined_up in rw (e, noc_enqu) refl

lined_up_tag :
    (i s : ℕ) (w : World)
    → (((lined_up i s w).tags s).ncq ≡ (w.tags s).ncq ++ (i ∷ []))
      × (((lined_up i s w).tags s).tx_seq_id ≡ inc32 (w.tags s).tx_seq_id)
      × (((lined_up i s w).events i).psi.txi_seq ≡ (w.tags s).tx_seq_id)
unfolding lined_up
lined_up_tag i s w = (ground arith, ground arith, ground arith)

lined_up_other :
    (i s j : ℕ) (w : World)
    → j ≢ i
    → ((lined_up i s w).events j).psi.txi_seq ≡ (w.events j).psi.txi_seq
unfolding lined_up
lined_up_other i s j w h = ground arith

others :
    (i s : ℕ) (w : World) (ts : List ℕ)
    → All (λ t. t ≢ i) ts
    → All (λ t. ((lined_up i s w).events t).psi.txi_seq ≡ (w.events t).psi.txi_seq) ts
others i s w [] h = tt
others i s w (t ∷ ts) h = (lined_up_other i s t w h.0, others i s w ts h.1)

-- A payload that is handed over for a link, and does not wait already, goes behind those that wait with the next number, so
-- that the waiting ones are numbered without a gap as before.
pub noc_enqu-Numbered :
    (i s n : ℕ) (w : World)
    → tag_get w (w.events i).kid ≡ some s
    → All (λ t. t ≢ i) (w.tags s).ncq
    → Numbered s n w
    → Numbered s n (noc_enqu i w) × (((noc_enqu i w).tags s).ncq ≡ (w.tags s).ncq ++ (i ∷ []))
noc_enqu-Numbered i s n w found new h =
    subst (λ v. Numbered s n v × ((v.tags s).ncq ≡ (w.tags s).ncq ++ (i ∷ [])))
      (sym (enqu_found i s w found))
      (
        record {
          run = subst (IsRun v n) (sym queue) (IsRun-cong v u n _ (same _) run');
          next = seq ∙ next' ∙ ap (λ q. (n + length q) % 2 ^ 32) (sym queue);
        },
        queue,
      )
  where
    u : World
    u = lined_up i s w

    v : World
    v = evlog_add i noc_payload_enq ttp_payload u

    queue : (v.tags s).ncq ≡ (w.tags s).ncq ++ (i ∷ [])
    queue =
        ap (λ f. (f s).ncq) (evlog_add-SameButLog i noc_payload_enq ttp_payload u).tags
        ∙ (lined_up_tag i s w).0

    seq : (v.tags s).tx_seq_id ≡ inc32 (w.tags s).tx_seq_id
    seq =
        ap (λ f. (f s).tx_seq_id) (evlog_add-SameButLog i noc_payload_enq ttp_payload u).tags
        ∙ (lined_up_tag i s w).1

    next' : inc32 (w.tags s).tx_seq_id ≡ (n + length ((w.tags s).ncq ++ (i ∷ []))) % 2 ^ 32
    next' = omega (arith, h.next, length-append (w.tags s).ncq (i ∷ []))

    run' : IsRun u n ((w.tags s).ncq ++ (i ∷ []))
    run' =
        IsRun-more u n i (w.tags s).ncq
          (IsRun-cong u w n (w.tags s).ncq (others i s w (w.tags s).ncq new) h.run)
          ((lined_up_tag i s w).2 ∙ h.next)

    same : (ts : List ℕ) → All (λ t. (v.events t).psi.txi_seq ≡ (u.events t).psi.txi_seq) ts
    same [] = tt
    same (t ∷ ts) = (
      ap (λ e. (e t).psi.txi_seq) (evlog_add-SameButLog i noc_payload_enq ttp_payload u).events,
      same ts,
    )
