-- ===== src/Tests/Queues.antt =====
-- The pool and the queues of events.
use ttpoe.Common.{ℕ, ◌≤◌, ◌≡◌, ◌≢◌, ◌⊎◌, refl, none, some, true, false, List, [], ◌∷◌, arith}
use ttpoe.World.{World}
use ttpoe.Fsm.{Opcode, ttp_open, opcode_of_byte}
use ttpoe.Frame.{ethertype_ttpoe, skb_pars}
use ttpoe.Receive.{skb_dequ, frame_opcode}
use ttpoe.Receive.Filing.{Filed}
use ttpoe.Receive.Intake.{Unqueued, headers, opcode_found, skb_dequ_outcome}
use ttpoe.Queue.{evt_getrr, queue_of, qhs}
use ttpoe.Queue.Robin.{Turns, Nearer, wait, evt_getrr-Turns, evt_getrr_fair}
use ttpoe.Init.Scene.{talking, no_skb}

evt_getrr-Turns_example : Turns talking 4 0 ((evt_getrr talking).0.rri, (evt_getrr talking).1)
evt_getrr-Turns_example = evt_getrr-Turns talking (omega arith)

is_there : queue_of (qhs 1) talking ≢ []
is_there e = cc

evt_getrr_fair_example :
    Nearer talking 1 0 ((evt_getrr talking).0.rri, (evt_getrr talking).1) × (wait 1 0 ≤ 3)
evt_getrr_fair_example = evt_getrr_fair talking 1 (omega arith) (omega arith) is_there

-- A frame with zeros for bytes waits: an OPEN on the virtual channel 0.
abbrev with_frame : World
with_frame = record talking {
  skb_head = 5 ∷ [];
  skbs = λ n. record no_skb { protocol = ethertype_ttpoe; len = 64 };
}

skb_dequ_outcome_example :
    ((op : Opcode) × (i : ℕ) × (p : List ℕ) × (opcode_found 5 with_frame ≡ some op)
      × (with_frame.pool_head ≡ i ∷ p)
      × Filed i 5 op (headers 5 with_frame) p with_frame (skb_dequ with_frame).0
      × ((skb_dequ with_frame).1 ≡ true))
    ⊎ (((opcode_found 5 with_frame ≡ none) ⊎ (with_frame.pool_head ≡ []))
        × Unqueued with_frame (skb_dequ with_frame).0
        × ((skb_dequ with_frame).1 ≡ false))
skb_dequ_outcome_example = skb_dequ_outcome 5 [] with_frame refl

is_open : opcode_found 5 with_frame ≡ some ttp_open
unfolding frame_opcode skb_pars opcode_of_byte
is_open = refl
