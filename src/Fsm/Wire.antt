-- ===== src/Fsm/Wire.antt =====
-- The opcodes on the wire, and what the table answers to them.
use ttpoe.Common.{ℕ, ◌≡◌, ◌≢◌, ◌↔◌, refl, ◌∙◌, ap, true, false, some, arith}
use ttpoe.Fsm.{
  Opcode, ttp_open, ttp_open_ack, ttp_open_nack, ttp_close, ttp_close_ack, ttp_close_nack,
  ttp_payload, ttp_ack, ttp_nack, ttp_nack_full, ttp_nack_nolink, op_invalid, opcode_code,
  opcode_of_byte, opcode_is_ack, opcode_to_event, response_op, fsm_table, State, stay, closed,
  open_sent, open_recd, opened, close_sent, close_recd,
}

byte_of_opcode : (op : Opcode) → op ≢ op_invalid → opcode_of_byte (opcode_code op) ≡ some op
unfolding opcode_of_byte opcode_code
byte_of_opcode ttp_open h = refl
byte_of_opcode ttp_open_ack h = refl
byte_of_opcode ttp_open_nack h = refl
byte_of_opcode ttp_close h = refl
byte_of_opcode ttp_close_ack h = refl
byte_of_opcode ttp_close_nack h = refl
byte_of_opcode ttp_payload h = refl
byte_of_opcode ttp_ack h = refl
byte_of_opcode ttp_nack h = refl
byte_of_opcode ttp_nack_full h = refl
byte_of_opcode ttp_nack_nolink h = refl
byte_of_opcode op_invalid h = absurd (h refl)

opcode_of_small :
    (n : ℕ) (op : Opcode) → opcode_of_byte n ≡ some op → (n ≡ opcode_code op) × (op ≢ op_invalid)
unfolding opcode_of_byte opcode_code
opcode_of_small n op h = ground arith

-- A byte is taken for an opcode exactly if it is the value of that opcode and the opcode is a real one.
pub opcode_of_byte_iff :
    (n : ℕ) (op : Opcode)
    → (opcode_of_byte n ≡ some op) ↔ ((n ≡ opcode_code op) × (op ≢ op_invalid))
opcode_of_byte_iff n op = (opcode_of_small n op, λ h. ap opcode_of_byte h.0 ∙ byte_of_opcode op h.1)

-- In the table, whatever state a link is in, the response to the event of an acknowledgement's opcode, positive or negative, is
-- one whose opcode is no acknowledgement. It is of the table alone: what ttp_gwmacadv sends to a gateway that advertises
-- its address passes the table by.
pub no_ack_for_ack :
    (op : Opcode) (s : State)
    → opcode_is_ack op ≡ true
    → opcode_is_ack (response_op (fsm_table (opcode_to_event op) s).response) ≡ false
unfolding opcode_is_ack response_op fsm_table opcode_to_event
no_ack_for_ack op stay h = ground arith
no_ack_for_ack op closed h = ground arith
no_ack_for_ack op open_sent h = ground arith
no_ack_for_ack op open_recd h = ground arith
no_ack_for_ack op opened h = ground arith
no_ack_for_ack op close_sent h = ground arith
no_ack_for_ack op close_recd h = ground arith
