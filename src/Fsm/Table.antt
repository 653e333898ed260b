-- ===== src/Fsm/Table.antt =====
-- What the state table says.
use ttpoe.Common.{◌≡◌, ◌≢◌, refl, arith, Bool, true, false}
use ttpoe.Fsm.{
  State, stay, closed, open_sent, open_recd, opened, close_sent, close_recd, inq_timeout, Event,
  fsm_table, rxq_ttp_open, rxq_ttp_open_ack, inq_alloc_tag, rxq_ttp_open_nack, inq_no_tag,
  inq_yes_quiesced, rxq_ttp_close_ack, txq_ttp_open, rxq_ttp_nack_nolink, txq_ttp_close,
  rxq_ttp_close,
}

-- The ways of a link from state to state: it is set up by either side, it fails, it is torn down by
-- either side, and an open link goes back to OPEN_SENT where the peer has lost it.
pub data Edge : State → State → Type 0 where
  call : Edge closed open_sent
  answer : Edge closed open_recd
  recall : Edge open_sent open_sent
  connect : Edge open_sent opened
  fail : Edge open_sent closed
  cancel : Edge open_sent close_sent
  accept : Edge open_recd opened
  refuse : Edge open_recd closed
  keep : Edge opened opened
  reopen : Edge opened open_sent
  hang_up : Edge opened close_sent
  hung_up : Edge opened close_recd
  repeat : Edge close_sent close_sent
  ended : Edge close_sent closed
  also_close : Edge close_recd close_sent
  quiesced : Edge close_recd closed

abbrev is_edge : State → State → Bool
is_edge closed open_sent = true
is_edge closed open_recd = true
is_edge open_sent open_sent = true
is_edge open_sent opened = true
is_edge open_sent closed = true
is_edge open_sent close_sent = true
is_edge open_recd opened = true
is_edge open_recd closed = true
is_edge opened opened = true
is_edge opened open_sent = true
is_edge opened close_sent = true
is_edge opened close_recd = true
is_edge close_sent close_sent = true
is_edge close_sent closed = true
is_edge close_recd close_sent = true
is_edge close_recd closed = true
is_edge _ _ = false

edge_of_test : (s t : State) → is_edge s t ≡ true → Edge s t
edge_of_test closed open_sent h = call
edge_of_test closed open_recd h = answer
edge_of_test open_sent open_sent h = recall
edge_of_test open_sent opened h = connect
edge_of_test open_sent closed h = fail
edge_of_test open_sent close_sent h = cancel
edge_of_test open_recd opened h = accept
edge_of_test open_recd closed h = refuse
edge_of_test opened opened h = keep
edge_of_test opened open_sent h = reopen
edge_of_test opened close_sent h = hang_up
edge_of_test opened close_recd h = hung_up
edge_of_test close_sent close_sent h = repeat
edge_of_test close_sent closed h = ended
edge_of_test close_recd close_sent h = also_close
edge_of_test close_recd closed h = quiesced
edge_of_test _ _ h = cc

move_test :
    (e : Event) (s : State)
    → s ≢ stay
    → (fsm_table e s).next_state ≢ stay
    → is_edge s (fsm_table e s).next_state ≡ true
unfolding fsm_table
move_test _ stay h n = absurd (h refl)
move_test e closed h n = ground arith
move_test e open_sent h n = ground arith
move_test e open_recd h n = ground arith
move_test e opened h n = ground arith
move_test e close_sent h n = ground arith
move_test e close_recd h n = ground arith

event_of_edge : {s t : State} → Edge s t → (e : Event) × ((fsm_table e s).next_state ≡ t)
unfolding fsm_table
event_of_edge call = (txq_ttp_open, refl)
event_of_edge answer = (rxq_ttp_open, refl)
event_of_edge recall = (inq_timeout, refl)
event_of_edge connect = (rxq_ttp_open, refl)
event_of_edge fail = (rxq_ttp_open_nack, refl)
event_of_edge cancel = (txq_ttp_close, refl)
event_of_edge accept = (inq_alloc_tag, refl)
event_of_edge refuse = (inq_no_tag, refl)
event_of_edge keep = (rxq_ttp_open_ack, refl)
event_of_edge reopen = (rxq_ttp_nack_nolink, refl)
event_of_edge hang_up = (txq_ttp_close, refl)
event_of_edge hung_up = (rxq_ttp_close, refl)
event_of_edge repeat = (txq_ttp_close, refl)
event_of_edge ended = (rxq_ttp_close_ack, refl)
event_of_edge also_close = (txq_ttp_close, refl)
event_of_edge quiesced = (inq_yes_quiesced, refl)

-- From each state of a link the table moves along the ways of a link only, and it has an event for each of them.
pub fsm_table-Edge :
    (s : State)
    → s ≢ stay
    → ((e : Event) → (fsm_table e s).next_state ≢ stay → Edge s (fsm_table e s).next_state)
      × ((t : State) → Edge s t → (e : Event) × ((fsm_table e s).next_state ≡ t))
fsm_table-Edge s h = (λ e n. edge_of_test s _ (move_test e s h n), λ t d. event_of_edge d)
