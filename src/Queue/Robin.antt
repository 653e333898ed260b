-- ===== src/Queue/Robin.antt =====
-- The turns of the four queues.
use ttpoe.Common.{
  ℕ, zero, suc, ◌+◌, ◌-◌, ◌%◌, ◌<◌, ◌≤◌, ◌≡◌, ◌≢◌, ◌⊎◌, inl, inr, refl, sym, ◌∙◌, ap, Option, none,
  some, List, [], ◌∷◌, arith,
}
use ttpoe.World.{World}
use ttpoe.Queue.{Channel, queue_of, qhs, getrr_from, evt_getrr}

-- The queue that is looked at `k` rounds after the pointer.
abbrev pub turn : ℕ → ℕ → Channel
turn rri k = qhs ((rri + k) % 4)

-- The first queue with an event in at most `n` rounds is the one of round `k`, and `i` its first event.
pub record Served (w : World) (n rri rri' : ℕ) (q : Channel) (i : ℕ) : Type 0 where
  pub k : ℕ
  pub rest : List ℕ
  pub within : k < n
  pub here : q ≡ turn rri k
  pub first : queue_of (turn rri k) w ≡ i ∷ rest
  pub earlier : (j : ℕ) → j < k → queue_of (turn rri j) w ≡ []
  pub moved : rri' ≡ (rri + k + 1) % 4

abbrev pub Turns : World → ℕ → ℕ → ℕ × Option (Channel × ℕ) → Type 0
Turns w n rri (rri', none) = (j : ℕ) → j < n → queue_of (turn rri j) w ≡ []
Turns w n rri (rri', some (q, i)) = Served w n rri rri' q i

turn_next : (rri k : ℕ) → turn ((rri + 1) % 4) k ≡ turn rri (suc k)
turn_next rri k = ap qhs (omega arith)

turn_zero : (rri : ℕ) → rri < 4 → turn rri 0 ≡ qhs rri
turn_zero rri h = ap qhs (omega arith)

shift :
    (w : World) (n rri : ℕ) (r : ℕ × Option (Channel × ℕ))
    → rri < 4
    → queue_of (qhs rri) w ≡ []
    → Turns w n ((rri + 1) % 4) r
    → Turns w (suc n) rri r
shift w n rri (rri', none) h e t = go
  where
    go : (j : ℕ) → j < suc n → queue_of (turn rri j) w ≡ []
    go zero l = ap (λ c. queue_of c w) (turn_zero rri h) ∙ e
    go (suc j) l = ap (λ c. queue_of c w) (sym (turn_next rri j)) ∙ t j (omega arith)
shift w n rri (rri', some (q, i)) h e s = record {
  k = suc s.k;
  rest = s.rest;
  within = omega arith;
  here = s.here ∙ turn_next rri s.k;
  first = ap (λ c. queue_of c w) (sym (turn_next rri s.k)) ∙ s.first;
  earlier = go;
  moved = omega (arith, s.moved);
}
  where
    go : (j : ℕ) → j < suc s.k → queue_of (turn rri j) w ≡ []
    go zero l = ap (λ c. queue_of c w) (turn_zero rri h) ∙ e
    go (suc j) l = ap (λ c. queue_of c w) (sym (turn_next rri j)) ∙ s.earlier j (omega arith)

getrr_from-Turns : (n rri : ℕ) (w : World) → rri < 4 → Turns w n rri (getrr_from n rri w)
unfolding getrr_from
getrr_from-Turns zero rri w h = λ j l. absurd (omega arith)
getrr_from-Turns (suc n) rri w h =
    split (queue_of (qhs rri) w) refl (getrr_from-Turns n ((rri + 1) % 4) w (omega arith))
  where
    split :
        (q : List ℕ)
        → queue_of (qhs rri) w ≡ q
        → Turns w n ((rri + 1) % 4) (getrr_from n ((rri + 1) % 4) w)
        → Turns w (suc n) rri (getrr_from (suc n) rri w)
    split [] e t = rw (e, getrr_from) (shift w n rri (getrr_from n ((rri + 1) % 4) w) h e t)
    split (i ∷ rest) e t =
        rw (e, getrr_from)
          (record {
            k = 0;
            rest = rest;
            within = omega arith;
            here = sym (turn_zero rri h);
            first = ap (λ c. queue_of c w) (turn_zero rri h) ∙ e;
            earlier = λ j l. absurd (omega arith);
            moved = omega arith;
          })

-- With the pointer below four: what is taken next is the first event of the first queue with an event, from the
-- pointer on and round, and the pointer goes behind that queue; if nothing is taken, all four queues are empty.
pub evt_getrr-Turns :
    (w : World) → w.rri < 4 → Turns w 4 w.rri ((evt_getrr w).0.rri, (evt_getrr w).1)
unfolding evt_getrr
evt_getrr-Turns w h = getrr_from-Turns 4 w.rri w h

-- How far a queue is from its turn.
abbrev pub wait : ℕ → ℕ → ℕ
wait c rri = (c + 4 - rri) % 4

turn-wait : (c rri : ℕ) → c < 4 → rri < 4 → turn rri (wait c rri) ≡ qhs c
turn-wait c rri h k = ap qhs (omega arith)

-- Either the round is the queue's, or it is an earlier one.
near :
    (w : World) (c rri k : ℕ)
    → c < 4
    → rri < 4
    → queue_of (qhs c) w ≢ []
    → ((j : ℕ) → j < k → queue_of (turn rri j) w ≡ [])
    → (k ≡ wait c rri) ⊎ (k < wait c rri)
near w c rri k hc hr ne e = elim (split k (wait c rri)) [
  | inl a ↦ inl a
  | inr (inl a) ↦ inr a
  | inr (inr a) ↦
      absurd (ne (ap (λ q. queue_of q w) (sym (turn-wait c rri hc hr)) ∙ e (wait c rri) a))
]
  where
    split : (a b : ℕ) → (a ≡ b) ⊎ (a < b) ⊎ (b < a)
    split a b = ground arith

abbrev pub Nearer : World → ℕ → ℕ → ℕ × Option (Channel × ℕ) → Type 0
Nearer w c rri (rri', none) = ⊥
Nearer w c rri (rri', some (q, i)) = (q ≡ qhs c) ⊎ (wait c rri' < wait c rri)

served_or_Nearer :
    (w : World) (c rri : ℕ) (r : ℕ × Option (Channel × ℕ))
    → c < 4
    → rri < 4
    → queue_of (qhs c) w ≢ []
    → Turns w 4 rri r
    → Nearer w c rri r
served_or_Nearer w c rri (rri', none) hc hr ne t =
    ne (ap (λ q. queue_of q w) (sym (turn-wait c rri hc hr)) ∙ t (wait c rri) (omega arith))
served_or_Nearer w c rri (rri', some (q, i)) hc hr ne s =
    elim (near w c rri s.k hc hr ne s.earlier) [
      | inl e ↦ inl (s.here ∙ ap (turn rri) e ∙ turn-wait c rri hc hr)
      | inr l ↦ inr (omega (arith, s.moved))
    ]

-- With the pointer below four: while a queue has an event, something is taken, either from that queue or so that
-- the queue's wait, which is at most three turns, grows less.
pub evt_getrr_fair :
    (w : World) (c : ℕ)
    → w.rri < 4
    → c < 4
    → queue_of (qhs c) w ≢ []
    → Nearer w c w.rri ((evt_getrr w).0.rri, (evt_getrr w).1) × (wait c w.rri ≤ 3)
evt_getrr_fair w c hr hc ne =
    (served_or_Nearer w c w.rri _ hc hr ne (evt_getrr-Turns w hr), omega arith)
