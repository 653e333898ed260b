-- ===== src/Enter/Drain.antt =====
-- The payloads of a link that closes.
use ttpoe.Common.{
  ℕ, zero, suc, ◌+◌, ◌%◌, ◌≤◌, ◌<◌, ◌≡◌, refl, sym, ◌∙◌, ap, List, [], ◌∷◌, ◌++◌, length, arith,
  true, false, subst,
}
use mathlib.Core.List.{append-nil, append_assoc}
use ttpoe.World.{World}
use ttpoe.World.Access.{with_tag}
use ttpoe.Queue.{noc_dequ, evt_pput}
use ttpoe.Enter.{drain_from, drain}
use ttpoe.Queue.Pool.{evt_pput-Put}

-- The world after a queue of payloads went to the pool.
pub record Drained (s : ℕ) (q : List ℕ) (w v : World) : Type 0 where
  pub empty : (v.tags s).ncq ≡ []
  pub pooled : v.pool_head ≡ w.pool_head ++ q
  pub counted : v.stats.pool ≡ (w.stats.pool + length q) % 65536
  pub stale_nocq : v.stats.nocq ≡ w.stats.nocq
  pub stale_tct : (v.tags s).tct ≡ (w.tags s).tct
  pub state : (v.tags s).state ≡ (w.tags s).state

dequ_empty : (s : ℕ) (w : World) → (w.tags s).ncq ≡ [] → noc_dequ s w ≡ (w, false)
dequ_empty s w e = unfold noc_dequ in rw (e, noc_dequ) refl

record Took (s t : ℕ) (rest : List ℕ) (w v : World) : Type 0 where
  ncq : (v.tags s).ncq ≡ rest
  pool_head : v.pool_head ≡ w.pool_head ++ (t ∷ [])
  pool : v.stats.pool ≡ (w.stats.pool + 1) % 65536
  nocq : v.stats.nocq ≡ w.stats.nocq
  tct : (v.tags s).tct ≡ (w.tags s).tct
  state : (v.tags s).state ≡ (w.tags s).state

popped : ℕ → List ℕ → World → World
popped s rest w = with_tag s (λ l. record l { ncq = rest }) w

dequ_step :
    (s t : ℕ) (rest : List ℕ) (w : World)
    → (w.tags s).ncq ≡ t ∷ rest
    → noc_dequ s w ≡ (evt_pput t (popped s rest w), true)
dequ_step s t rest w e = unfold noc_dequ popped in rw (e, noc_dequ) refl

popped_tag :
    (s : ℕ) (rest : List ℕ) (w : World)
    → (((popped s rest w).tags s).ncq ≡ rest)
      × (((popped s rest w).tags s).tct ≡ (w.tags s).tct)
      × (((popped s rest w).tags s).state ≡ (w.tags s).state)
      × ((popped s rest w).pool_head ≡ w.pool_head)
      × ((popped s rest w).stats ≡ w.stats)
unfolding popped
popped_tag s rest w = ground arith

took : (s t : ℕ) (rest : List ℕ) (w : World) → Took s t rest w (evt_pput t (popped s rest w))
took s t rest w =
    let p = evt_pput-Put t (popped s rest w) in
    let q = popped_tag s rest w in
    let f = ap (λ g. g s) p.tags in
    record {
      ncq = ap (λ l. l.ncq) f ∙ q.0;
      pool_head = p.pool_head ∙ ap (λ l. l ++ (t ∷ [])) q.3;
      pool = p.pool ∙ ap (λ c. (c.pool + 1) % 65536) q.4;
      nocq = p.nocq ∙ ap (λ c. c.nocq) q.4;
      tct = ap (λ l. l.tct) f ∙ q.1;
      state = ap (λ l. l.state) f ∙ q.2;
    }

drain_step :
    (n s t : ℕ) (rest : List ℕ) (w : World)
    → (w.tags s).ncq ≡ t ∷ rest
    → drain_from (suc n) s w ≡ drain_from n s (evt_pput t (popped s rest w))
drain_step n s t rest w e = unfold drain_from in rw (dequ_step s t rest w e, drain_from) refl

drain_stop : (n s : ℕ) (w : World) → (w.tags s).ncq ≡ [] → drain_from (suc n) s w ≡ w
drain_stop n s w e = unfold drain_from in rw (dequ_empty s w e, drain_from) refl

drain_from-Drained :
    (q : List ℕ) (n s : ℕ) (w : World)
    → (w.tags s).ncq ≡ q
    → length q ≤ n
    → w.stats.pool ≡ w.stats.pool % 65536
    → Drained s q w (drain_from (suc n) s w)
drain_from-Drained [] n s w e h p = subst (Drained s [] w) (sym (drain_stop n s w e)) (record {
  empty = e;
  pooled = sym (append-nil w.pool_head);
  counted = omega arith;
  stale_nocq = refl;
  stale_tct = refl;
  state = refl;
})
drain_from-Drained (t ∷ rest) zero s w e h p = absurd (omega arith)
drain_from-Drained (t ∷ rest) (suc n) s w e h p =
    let v = evt_pput t (popped s rest w) in
    let k = took s t rest w in
    let d = drain_from-Drained rest n s v k.ncq (omega arith) (omega (arith, k.pool)) in
    subst (Drained s (t ∷ rest) w) (sym (drain_step (suc n) s t rest w e)) (record {
      empty = d.empty;
      pooled = d.pooled ∙ ap (λ l. l ++ rest) k.pool_head ∙ append_assoc w.pool_head (t ∷ []) rest;
      counted = omega (arith, d.counted, k.pool);
      stale_nocq = d.stale_nocq ∙ k.nocq;
      stale_tct = d.stale_tct ∙ k.tct;
      state = d.state ∙ k.state;
    })

-- With a count of the pool below 65536: the loop that empties a link's queue of payloads comes to its end; the
-- queue is empty then, every payload went to the pool in its order and is counted there. The counts of waiting
-- payloads, of the link and of all links, are what they were before.
pub drain-Drained :
    (s : ℕ) (w : World) → w.stats.pool < 65536 → Drained s (w.tags s).ncq w (drain s w)
unfolding drain
drain-Drained s w h =
    drain_from-Drained (w.tags s).ncq (length (w.tags s).ncq) s w refl (omega arith) (omega arith)
