-- ===== src/Handle/Retire.antt =====
-- An acknowledgement retires the first payload that waits, and that one alone.
use ttpoe.Common.{
  ℕ, ◌≤◌, ◌≡◌, ◌≢◌, refl, sym, ◌∙◌, ap, subst, none, some, List, ◌∷◌, arith, Bool, true, false,
  dec16, ◌==◌, ◌⊎◌, inl, inr,
}
use native.Mathlib.Decide.{ℕ_discrete}
use ttpoe.Fsm.{ttp_ack}
use ttpoe.World.{World, noc_payload_free, timer_delete}
use ttpoe.World.Access.{timer_pending, with_tag, del_timer}
use ttpoe.Tag.{evlog_add, tag_get}
use ttpoe.Tag.Log.{evlog_add-SameButLog}
use ttpoe.Queue.{noc_requ, max_retry}
use ttpoe.Queue.Pool.{evt_pput-Put}
use ttpoe.Queue.Payloads.{SamePayloads, noc_requ-SamePayloads}
use ttpoe.Handle.{stop_timer, retire_first, ack_payloads, handle_ack}

-- What a tag and its events are after a payload was retired.
pub record Retired (s t : ℕ) (rest : List ℕ) (w v : World) : Type 0 where
  pub ncq : (v.tags s).ncq ≡ rest
  pub retire_id : (v.tags s).retire_id ≡ (w.events t).psi.txi_seq
  pub tct : (v.tags s).tct ≡ dec16 (w.tags s).tct
  pub tx_seq_id : (v.tags s).tx_seq_id ≡ (w.tags s).tx_seq_id
  pub rx_seq_id : (v.tags s).rx_seq_id ≡ (w.tags s).rx_seq_id
  pub state : (v.tags s).state ≡ (w.tags s).state

-- The timer apart, stopping it changes nothing of a tag or an event.
pub record Stopped (s : ℕ) (w v : World) : Type 0 where
  pub events : v.events ≡ w.events
  pub tmr : (v.tags s).tmr ≡ none
  pub try : (v.tags s).try ≡ (w.tags s).try
  pub same : SamePayloads s w v

no_timer : (s : ℕ) (w : World) → timer_pending (w.tags s) ≡ false → (w.tags s).tmr ≡ none
no_timer s w h = ground arith

stop_timer-Stopped : (i s : ℕ) (w : World) → Stopped s w (stop_timer i s ttp_ack w)
unfolding stop_timer
stop_timer-Stopped i s w = go (timer_pending (w.tags s)) refl
  where
    go : (b : Bool) → timer_pending (w.tags s) ≡ b → Stopped s w (stop_timer i s ttp_ack w)
    go false e = rw e (record {
      events = refl;
      tmr = no_timer s w e;
      try = refl;
      same = record {
        ncq = refl;
        tct = refl;
        retire_id = refl;
        tx_seq_id = refl;
        rx_seq_id = refl;
        state = refl;
      };
    })
    go true e =
        let g = evlog_add-SameButLog i timer_delete ttp_ack (del_timer s w) in
        let f = ap (λ t. t s) g.tags in
        rw e (record {
          events = g.events;
          tmr = ap (λ t. t.tmr) f ∙ (ground arith);
          try = ap (λ t. t.try) f ∙ (ground arith);
          same = record {
            ncq = ap (λ t. t.ncq) f ∙ (ground arith);
            tct = ap (λ t. t.tct) f ∙ (ground arith);
            retire_id = ap (λ t. t.retire_id) f ∙ (ground arith);
            tx_seq_id = ap (λ t. t.tx_seq_id) f ∙ (ground arith);
            rx_seq_id = ap (λ t. t.rx_seq_id) f ∙ (ground arith);
            state = ap (λ t. t.state) f ∙ (ground arith);
          };
        })

-- The stages of `retire_first`.
numbered : ℕ → ℕ → World → World
numbered s t w = with_tag s (λ l. record l { retire_id = (w.events t).psi.txi_seq }) w

unlinked : ℕ → ℕ → List ℕ → World → World
unlinked s t rest w =
    with_tag s (λ l. record l { ncq = rest })
      (evlog_add t noc_payload_free ttp_ack (numbered s t w))

unlinked_tag :
    (s t : ℕ) (rest : List ℕ) (w : World)
    → (((unlinked s t rest w).tags s).ncq ≡ rest)
      × (((unlinked s t rest w).tags s).retire_id ≡ (w.events t).psi.txi_seq)
      × (((unlinked s t rest w).tags s).tct ≡ (w.tags s).tct)
      × (((unlinked s t rest w).tags s).tx_seq_id ≡ (w.tags s).tx_seq_id)
      × (((unlinked s t rest w).tags s).rx_seq_id ≡ (w.tags s).rx_seq_id)
      × (((unlinked s t rest w).tags s).state ≡ (w.tags s).state)
unfolding unlinked numbered
unlinked_tag s t rest w =
    let f = ap (λ g. g s) (evlog_add-SameButLog t noc_payload_free ttp_ack (numbered s t w)).tags in
    (
      ground arith,
      (ground arith) ∙ ap (λ l. l.retire_id) f ∙ (ground arith),
      (ground arith) ∙ ap (λ l. l.tct) f ∙ (ground arith),
      (ground arith) ∙ ap (λ l. l.tx_seq_id) f ∙ (ground arith),
      (ground arith) ∙ ap (λ l. l.rx_seq_id) f ∙ (ground arith),
      (ground arith) ∙ ap (λ l. l.state) f ∙ (ground arith),
    )

pub retire_first-Retired :
    (s t : ℕ) (rest : List ℕ) (w : World)
    → Retired s t rest w (retire_first s t rest w) × (((retire_first s t rest w).tags s).try ≡ 0)
unfolding retire_first unlinked numbered
retire_first-Retired s t rest w =
    let u = unlinked_tag s t rest w in
    let f = ap (λ g. g s) (evt_pput-Put t (unlinked s t rest w)).tags in
    (
      record {
        ncq = (ground arith) ∙ ap (λ l. l.ncq) f ∙ u.0;
        retire_id = (ground arith) ∙ ap (λ l. l.retire_id) f ∙ u.1;
        tct = (ground arith) ∙ ap (λ l. dec16 l.tct) f ∙ ap dec16 u.2;
        tx_seq_id = (ground arith) ∙ ap (λ l. l.tx_seq_id) f ∙ u.3;
        rx_seq_id = (ground arith) ∙ ap (λ l. l.rx_seq_id) f ∙ u.4;
        state = (ground arith) ∙ ap (λ l. l.state) f ∙ u.5;
      },
      ground arith,
    )

-- Sending again after a change keeps what was kept and what was retired.
resent :
    (s t : ℕ) (rest : List ℕ) (w v x : World)
    → Retired s t rest w v
    → SamePayloads s v x
    → Retired s t rest w x
resent s t rest w v x r p = record {
  ncq = p.ncq ∙ r.ncq;
  retire_id = p.retire_id ∙ r.retire_id;
  tct = p.tct ∙ r.tct;
  tx_seq_id = p.tx_seq_id ∙ r.tx_seq_id;
  rx_seq_id = p.rx_seq_id ∙ r.rx_seq_id;
  state = p.state ∙ r.state;
}

both : (s : ℕ) (w v x : World) → SamePayloads s w v → SamePayloads s v x → SamePayloads s w x
both s w v x r p = record {
  ncq = p.ncq ∙ r.ncq;
  tct = p.tct ∙ r.tct;
  retire_id = p.retire_id ∙ r.retire_id;
  tx_seq_id = p.tx_seq_id ∙ r.tx_seq_id;
  rx_seq_id = p.rx_seq_id ∙ r.rx_seq_id;
  state = p.state ∙ r.state;
}

from_Stopped :
    (s t : ℕ) (rest : List ℕ) (w v x : World)
    → Stopped s w v
    → Retired s t rest v x
    → Retired s t rest w x
from_Stopped s t rest w v x h r =
    let p = h.same in
    record {
      ncq = r.ncq;
      retire_id = r.retire_id ∙ ap (λ e. (e t).psi.txi_seq) h.events;
      tct = r.tct ∙ ap dec16 p.tct;
      tx_seq_id = r.tx_seq_id ∙ p.tx_seq_id;
      rx_seq_id = r.rx_seq_id ∙ p.rx_seq_id;
      state = r.state ∙ p.state;
    }

ack_match :
    (i s t : ℕ) (rest : List ℕ) (w : World)
    → (w.tags s).ncq ≡ t ∷ rest
    → ((w.events t).psi.txi_seq == (w.events i).psi.rxi_seq) ≡ true
    → (ack_payloads i s w).0 ≡ noc_requ s (retire_first s t rest w)
unfolding ack_payloads
ack_match i s t rest w e h = rw (e, h, ack_payloads) refl

ack_other :
    (i s t : ℕ) (rest : List ℕ) (w : World)
    → (w.tags s).ncq ≡ t ∷ rest
    → ((w.events t).psi.txi_seq == (w.events i).psi.rxi_seq) ≡ false
    → (ack_payloads i s w).0 ≡ noc_requ s w
unfolding ack_payloads
ack_other i s t rest w e h = rw (e, h, ack_payloads) refl

module _ (i s t : ℕ) (rest : List ℕ) (w : World) (found : tag_get w (w.events i).kid ≡ some s)
    (queue : (w.tags s).ncq ≡ t ∷ rest) where
  abbrev w1 : World
  w1 = stop_timer i s ttp_ack w

  stopped : Stopped s w w1
  stopped = stop_timer-Stopped i s w

  still : (w1.tags s).ncq ≡ t ∷ rest
  still = stopped.same.ncq ∙ queue

  test_kept :
      (b : Bool)
      → ((w.events t).psi.txi_seq == (w.events i).psi.rxi_seq) ≡ b
      → ((w1.events t).psi.txi_seq == (w1.events i).psi.rxi_seq) ≡ b
  test_kept b h = ap (λ e. (e t).psi.txi_seq == (e i).psi.rxi_seq) stopped.events ∙ h

  went_on : (handle_ack i w).0 ≡ (ack_payloads i s w1).0
  went_on = unfold handle_ack in rw (found, handle_ack) refl

  matched :
      ((w.events t).psi.txi_seq == (w.events i).psi.rxi_seq) ≡ true
      → (handle_ack i w).0 ≡ noc_requ s (retire_first s t rest w1)
  matched h = went_on ∙ ack_match i s t rest w1 still (test_kept true h)

  unmatched :
      ((w.events t).psi.txi_seq == (w.events i).psi.rxi_seq) ≡ false
      → (handle_ack i w).0 ≡ noc_requ s w1
  unmatched h = went_on ∙ ack_other i s t rest w1 still (test_kept false h)

  retired :
      (w.events t).psi.txi_seq ≡ (w.events i).psi.rxi_seq → Retired s t rest w (handle_ack i w).0
  retired e =
      let r = retire_first-Retired s t rest w1 in
      subst (Retired s t rest w) (sym (matched (ground arith))) (
        from_Stopped s t rest w w1 _ stopped (
          resent s t rest w1 (retire_first s t rest w1) _ r.0
            (noc_requ-SamePayloads s (retire_first s t rest w1) (omega (arith, r.1)))))

  waits :
      (w.events t).psi.txi_seq ≢ (w.events i).psi.rxi_seq
      → (w.tags s).try ≤ max_retry
      → SamePayloads s w (handle_ack i w).0
  waits e h =
      subst (SamePayloads s w) (sym (unmatched (ground arith)))
        (both s w w1 _ stopped.same (noc_requ-SamePayloads s w1 (omega (arith, h, stopped.try))))

  -- An ACK for a link with payloads that wait, of which the first has been tried at most a thousand times: if the
  -- ACK names the number of the first of them, that one alone is taken off, its number is kept as the one retired
  -- last, and one payload less is counted; if it names another number, nothing is taken off. The link's state and
  -- the numbers of what is sent and received next stay in both cases.
  pub handle_ack_outcome :
      (w.tags s).try ≤ max_retry
      → (((w.events t).psi.txi_seq ≡ (w.events i).psi.rxi_seq)
          × Retired s t rest w (handle_ack i w).0)
        ⊎ (((w.events t).psi.txi_seq ≢ (w.events i).psi.rxi_seq)
            × SamePayloads s w (handle_ack i w).0)
  handle_ack_outcome h = elim (ℕ_discrete (w.events t).psi.txi_seq (w.events i).psi.rxi_seq) [
    | yes e ↦ inl (e, retired e)
    | no e ↦ inr (e, waits e h)
  ]
