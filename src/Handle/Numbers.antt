-- ===== src/Handle/Numbers.antt =====
-- The numbers of the payloads that wait, when the first of them is retired.
use ttpoe.Common.{ℕ, suc, ◌≡◌, ◌≢◌, ◌∙◌, sym, ap, subst, List, [], ◌∷◌, length, arith}
use ttpoe.Fsm.{ttp_ack}
use ttpoe.Index.Order.{All}
use ttpoe.World.{World, noc_payload_free}
use ttpoe.World.Access.{with_tag}
use ttpoe.Tag.{evlog_add}
use ttpoe.Tag.Log.{evlog_add-SameButLog}
use ttpoe.Queue.Pool.{evt_pput_other}
use ttpoe.Queue.Numbers.{IsRun, IsRun-cong, Numbered}
use ttpoe.Handle.{retire_first}
use ttpoe.Handle.Retire.{retire_first-Retired}

other_kept :
    (s t j : ℕ) (rest : List ℕ) (w : World)
    → j ≢ t
    → ((retire_first s t rest w).events j).psi.txi_seq ≡ (w.events j).psi.txi_seq
unfolding retire_first
other_kept s t j rest w h =
    let u = with_tag s (λ l. record l { retire_id = (w.events t).psi.txi_seq }) w in
    let v = with_tag s (λ l. record l { ncq = rest }) (evlog_add t noc_payload_free ttp_ack u) in
    ap (λ e. e.psi.txi_seq) (evt_pput_other t j v h)
    ∙ ap (λ e. (e j).psi.txi_seq) (evlog_add-SameButLog t noc_payload_free ttp_ack u).events

others_kept :
    (s t : ℕ) (rest : List ℕ) (w : World) (js : List ℕ)
    → All (λ j. j ≢ t) js
    → All (λ j. ((retire_first s t rest w).events j).psi.txi_seq ≡ (w.events j).psi.txi_seq) js
others_kept s t rest w [] h = tt
others_kept s t rest w (j ∷ js) h = (other_kept s t j rest w h.0, others_kept s t rest w js h.1)

-- Where the payloads that wait are numbered without a gap from a number on and each is there once, retiring the first of them
-- leaves the others numbered without a gap from the next number on, up to the number that the next payload gets.
pub retire_first-Numbered :
    (s t n : ℕ) (rest : List ℕ) (w : World)
    → (w.tags s).ncq ≡ t ∷ rest
    → All (λ j. j ≢ t) rest
    → Numbered s n w
    → Numbered s (suc n) (retire_first s t rest w)
retire_first-Numbered s t n rest w queue once h =
    let v = retire_first s t rest w in
    let r = (retire_first-Retired s t rest w).0 in
    let run = subst (IsRun w n) queue h.run in
    record {
      run =
          subst (IsRun v (suc n)) (sym r.ncq)
            (IsRun-cong v w (suc n) rest (others_kept s t rest w rest once) run.1);
      next = omega (arith, r.tx_seq_id, h.next, ap length queue, ap length r.ncq);
    }
