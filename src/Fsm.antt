-- ===== src/Fsm.antt =====
-- The protocol's enumerations and tables (modttpoe/fsm.h, modttpoe/fsm.c).
-- `opened` is TTP_ST__OPEN; the other names are the source's without TTP_ST__, TTP_EV__, TTP_OP__.
pub mod Table
pub mod Wire
use ttpoe.Common.{ℕ, zero, suc, Bool, true, false, Option, none, some, ltb, if◌then◌else◌}

pub data Opcode : Type 0 where
  ttp_open ttp_open_ack ttp_open_nack : Opcode
  ttp_close ttp_close_ack ttp_close_nack : Opcode
  ttp_payload ttp_ack ttp_nack : Opcode
  ttp_nack_full ttp_nack_nolink : Opcode
  op_invalid : Opcode

pub data State : Type 0 where
  stay closed open_sent open_recd opened close_sent close_recd : State

pub data Event : Type 0 where
  null : Event
  txq_ttp_open txq_ttp_close txq_ttp_payload txq_replay_data txq_replay_close : Event
  rxq_ttp_open rxq_ttp_open_ack rxq_ttp_open_nack rxq_ttp_close rxq_ttp_close_ack rxq_ttp_close_nack
        rxq_ttp_payload rxq_ttp_ack rxq_ttp_nack rxq_ttp_nack_full rxq_ttp_nack_nolink
        rxq_ttp_unxp_payld :
      Event
  akq_open_ack akq_open_nack akq_close_ack akq_close_nack akq_ack akq_nack : Event
  inq_timeout inq_victim inq_found_way inq_no_way inq_alloc_tag inq_no_tag inq_yes_quiesced
        inq_not_quiesced :
      Event
  ev_invalid : Event

-- TTP_RS__x is rs_x here, as in the names of the table's cells.
pub data Response : Type 0 where
  rs_none rs_open rs_open_ack rs_open_nack rs_close rs_close_ack rs_close_xack : Response
  rs_replay_data rs_payload rs_payload2 rs_ack rs_nack rs_nack_nolink : Response
  rs_noc_fail rs_noc_end rs_illegal rs_interrupt rs_drop rs_stall : Response

pub record StateVar : Type 0 where
  pub response : Response
  pub next_state : State

infix 40 ◌▸◌
abbrev ◌▸◌ : Response → State → StateVar
r ▸ s = record { response = r; next_state = s }

-- One row of the table: its cells for CLOSED to CLOSE_RECD. The column of `stay` holds zeros.
row : StateVar → StateVar → StateVar → StateVar → StateVar → StateVar → State → StateVar
row a b c d e f stay = rs_none ▸ stay
row a b c d e f closed = a
row a b c d e f open_sent = b
row a b c d e f open_recd = c
row a b c d e f opened = d
row a b c d e f close_sent = e
row a b c d e f close_recd = f

-- `ev_invalid` is no row of the array: the code looks no such event up.
unfoldable pub fsm_table : Event → State → StateVar
unfolding row
fsm_table null =
    row (rs_none ▸ stay) (rs_none ▸ stay) (rs_none ▸ stay) (rs_none ▸ stay) (rs_none ▸ stay)
      (rs_none ▸ stay)
fsm_table txq_ttp_open =
    row (rs_open ▸ open_sent) (rs_none ▸ stay) (rs_none ▸ stay) (rs_open ▸ stay) (rs_illegal ▸ stay)
      (rs_illegal ▸ stay)
fsm_table txq_ttp_close =
    row (rs_illegal ▸ stay) (rs_close ▸ close_sent) (rs_illegal ▸ stay) (rs_close ▸ close_sent)
      (rs_none ▸ close_sent) (rs_none ▸ close_sent)
fsm_table txq_ttp_payload =
    row (rs_stall ▸ stay) (rs_stall ▸ stay) (rs_stall ▸ stay) (rs_payload ▸ stay)
      (rs_payload2 ▸ stay) (rs_payload2 ▸ stay)
fsm_table txq_replay_data =
    row (rs_open ▸ open_sent) (rs_payload ▸ stay) (rs_payload ▸ stay) (rs_payload ▸ stay)
      (rs_stall ▸ stay) (rs_payload ▸ stay)
fsm_table txq_replay_close =
    row (rs_none ▸ stay) (rs_none ▸ stay) (rs_none ▸ stay) (rs_close ▸ close_sent) (rs_none ▸ stay)
      (rs_none ▸ stay)
fsm_table rxq_ttp_open =
    row (rs_none ▸ open_recd) (rs_open_ack ▸ opened) (rs_none ▸ stay) (rs_open_ack ▸ stay)
      (rs_open_ack ▸ stay) (rs_open_ack ▸ stay)
fsm_table rxq_ttp_open_ack =
    row (rs_illegal ▸ stay) (rs_none ▸ opened) (rs_none ▸ stay) (rs_none ▸ opened) (rs_none ▸ stay)
      (rs_none ▸ stay)
fsm_table rxq_ttp_open_nack =
    row (rs_illegal ▸ stay) (rs_noc_fail ▸ closed) (rs_illegal ▸ stay) (rs_illegal ▸ stay)
      (rs_illegal ▸ stay) (rs_illegal ▸ stay)
fsm_table rxq_ttp_close =
    row (rs_close_ack ▸ stay) (rs_close_ack ▸ stay) (rs_close_ack ▸ stay)
      (rs_close_xack ▸ close_recd) (rs_close_xack ▸ stay) (rs_close_xack ▸ stay)
fsm_table rxq_ttp_close_ack =
    row (rs_none ▸ stay) (rs_none ▸ stay) (rs_none ▸ stay) (rs_none ▸ stay) (rs_noc_end ▸ closed)
      (rs_none ▸ closed)
fsm_table rxq_ttp_close_nack =
    row (rs_illegal ▸ stay) (rs_illegal ▸ stay) (rs_illegal ▸ stay) (rs_illegal ▸ stay)
      (rs_none ▸ stay) (rs_none ▸ stay)
fsm_table rxq_ttp_payload =
    row (rs_nack_nolink ▸ stay) (rs_nack_nolink ▸ stay) (rs_nack_nolink ▸ stay) (rs_ack ▸ stay)
      (rs_ack ▸ stay) (rs_ack ▸ stay)
fsm_table rxq_ttp_ack =
    row (rs_drop ▸ stay) (rs_drop ▸ stay) (rs_drop ▸ stay) (rs_none ▸ stay) (rs_none ▸ stay)
      (rs_none ▸ stay)
fsm_table rxq_ttp_nack =
    row (rs_drop ▸ stay) (rs_drop ▸ stay) (rs_drop ▸ stay) (rs_none ▸ stay) (rs_none ▸ stay)
      (rs_none ▸ stay)
fsm_table rxq_ttp_nack_full =
    row (rs_drop ▸ stay) (rs_drop ▸ stay) (rs_drop ▸ stay) (rs_none ▸ stay) (rs_none ▸ stay)
      (rs_none ▸ stay)
fsm_table rxq_ttp_nack_nolink =
    row (rs_stall ▸ stay) (rs_stall ▸ stay) (rs_stall ▸ stay) (rs_open ▸ open_sent) (rs_none ▸ stay)
      (rs_none ▸ stay)
fsm_table rxq_ttp_unxp_payld =
    row (rs_nack_nolink ▸ stay) (rs_none ▸ stay) (rs_nack ▸ stay) (rs_nack ▸ stay) (rs_nack ▸ stay)
      (rs_illegal ▸ stay)
fsm_table akq_open_ack =
    row (rs_drop ▸ stay) (rs_none ▸ stay) (rs_none ▸ stay) (rs_none ▸ stay) (rs_none ▸ stay)
      (rs_none ▸ stay)
fsm_table akq_open_nack =
    row (rs_open_nack ▸ stay) (rs_none ▸ stay) (rs_none ▸ stay) (rs_none ▸ stay) (rs_none ▸ stay)
      (rs_none ▸ stay)
fsm_table akq_close_ack =
    row (rs_close_ack ▸ stay) (rs_none ▸ stay) (rs_none ▸ stay) (rs_none ▸ stay) (rs_none ▸ stay)
      (rs_none ▸ stay)
fsm_table akq_close_nack =
    row (rs_drop ▸ stay) (rs_none ▸ stay) (rs_none ▸ stay) (rs_none ▸ stay) (rs_none ▸ stay)
      (rs_none ▸ stay)
fsm_table akq_ack =
    row (rs_drop ▸ stay) (rs_none ▸ stay) (rs_none ▸ stay) (rs_none ▸ stay) (rs_none ▸ stay)
      (rs_none ▸ stay)
fsm_table akq_nack =
    row (rs_drop ▸ stay) (rs_none ▸ stay) (rs_none ▸ stay) (rs_none ▸ stay) (rs_none ▸ stay)
      (rs_none ▸ stay)
fsm_table inq_timeout =
    row (rs_none ▸ stay) (rs_open ▸ open_sent) (rs_none ▸ stay) (rs_replay_data ▸ stay)
      (rs_close ▸ stay) (rs_none ▸ stay)
fsm_table inq_victim =
    row (rs_none ▸ stay) (rs_none ▸ stay) (rs_none ▸ stay) (rs_close ▸ close_sent) (rs_none ▸ stay)
      (rs_none ▸ stay)
fsm_table inq_found_way =
    row (rs_none ▸ stay) (rs_open ▸ open_sent) (rs_none ▸ stay) (rs_none ▸ stay) (rs_none ▸ stay)
      (rs_none ▸ stay)
fsm_table inq_no_way =
    row (rs_none ▸ stay) (rs_close ▸ closed) (rs_none ▸ stay) (rs_none ▸ stay) (rs_none ▸ stay)
      (rs_none ▸ stay)
fsm_table inq_alloc_tag =
    row (rs_none ▸ stay) (rs_none ▸ stay) (rs_open_ack ▸ opened) (rs_none ▸ stay) (rs_none ▸ stay)
      (rs_none ▸ stay)
fsm_table inq_no_tag =
    row (rs_none ▸ stay) (rs_none ▸ stay) (rs_open_nack ▸ closed) (rs_none ▸ stay) (rs_none ▸ stay)
      (rs_none ▸ stay)
fsm_table inq_yes_quiesced =
    row (rs_none ▸ stay) (rs_none ▸ stay) (rs_none ▸ stay) (rs_none ▸ stay) (rs_none ▸ stay)
      (rs_close_ack ▸ closed)
fsm_table inq_not_quiesced =
    row (rs_none ▸ stay) (rs_none ▸ stay) (rs_none ▸ stay) (rs_none ▸ stay) (rs_none ▸ stay)
      (rs_close_xack ▸ stay)
fsm_table ev_invalid =
    row (rs_none ▸ stay) (rs_none ▸ stay) (rs_none ▸ stay) (rs_none ▸ stay) (rs_none ▸ stay)
      (rs_none ▸ stay)

unfoldable pub opcode_is_ack : Opcode → Bool
opcode_is_ack ttp_open_ack = true
opcode_is_ack ttp_open_nack = true
opcode_is_ack ttp_close_ack = true
opcode_is_ack ttp_close_nack = true
opcode_is_ack ttp_ack = true
opcode_is_ack ttp_nack = true
opcode_is_ack ttp_nack_full = true
opcode_is_ack ttp_nack_nolink = true
opcode_is_ack _ = false

unfoldable pub response_op : Response → Opcode
response_op rs_none = op_invalid
response_op rs_open = ttp_open
response_op rs_open_ack = ttp_open_ack
response_op rs_open_nack = ttp_open_nack
response_op rs_close = ttp_close
response_op rs_close_ack = ttp_close_ack
response_op rs_close_xack = ttp_close_ack
response_op rs_replay_data = ttp_payload
response_op rs_payload = ttp_payload
response_op rs_payload2 = ttp_payload
response_op rs_ack = ttp_ack
response_op rs_nack = ttp_nack
response_op rs_nack_nolink = ttp_nack_nolink
response_op rs_noc_fail = op_invalid
response_op rs_noc_end = op_invalid
response_op rs_illegal = op_invalid
response_op rs_interrupt = op_invalid
response_op rs_drop = op_invalid
response_op rs_stall = op_invalid

unfoldable pub opcode_to_event : Opcode → Event
opcode_to_event ttp_open = rxq_ttp_open
opcode_to_event ttp_open_ack = rxq_ttp_open_ack
opcode_to_event ttp_open_nack = rxq_ttp_open_nack
opcode_to_event ttp_close = rxq_ttp_close
opcode_to_event ttp_close_ack = rxq_ttp_close_ack
opcode_to_event ttp_close_nack = rxq_ttp_close_nack
opcode_to_event ttp_payload = rxq_ttp_payload
opcode_to_event ttp_ack = rxq_ttp_ack
opcode_to_event ttp_nack = rxq_ttp_nack
opcode_to_event ttp_nack_full = rxq_ttp_nack_full
opcode_to_event ttp_nack_nolink = rxq_ttp_nack_nolink
opcode_to_event op_invalid = ev_invalid

-- The value of an opcode on the wire.
unfoldable pub opcode_code : Opcode → ℕ
opcode_code ttp_open = 0
opcode_code ttp_open_ack = 1
opcode_code ttp_open_nack = 2
opcode_code ttp_close = 3
opcode_code ttp_close_ack = 4
opcode_code ttp_close_nack = 5
opcode_code ttp_payload = 6
opcode_code ttp_ack = 7
opcode_code ttp_nack = 8
opcode_code ttp_nack_full = 9
opcode_code ttp_nack_nolink = 10
opcode_code op_invalid = 11

abbrev opcode_at : ℕ → Opcode
opcode_at zero = ttp_open
opcode_at (suc zero) = ttp_open_ack
opcode_at (suc (suc zero)) = ttp_open_nack
opcode_at (suc (suc (suc zero))) = ttp_close
opcode_at (suc (suc (suc (suc zero)))) = ttp_close_ack
opcode_at (suc (suc (suc (suc (suc zero))))) = ttp_close_nack
opcode_at (suc (suc (suc (suc (suc (suc zero)))))) = ttp_payload
opcode_at (suc (suc (suc (suc (suc (suc (suc zero))))))) = ttp_ack
opcode_at (suc (suc (suc (suc (suc (suc (suc (suc zero)))))))) = ttp_nack
opcode_at (suc (suc (suc (suc (suc (suc (suc (suc (suc zero))))))))) = ttp_nack_full
opcode_at (suc (suc (suc (suc (suc (suc (suc (suc (suc (suc zero)))))))))) = ttp_nack_nolink
opcode_at _ = op_invalid

-- The opcode of a byte that passes TTP_OPCODE_IS_VALID, and `none` for one that does not.
unfoldable pub opcode_of_byte : ℕ → Option Opcode
opcode_of_byte n = if ltb n 11 then some (opcode_at n) else none

unfoldable pub event_is_valid : Event → Bool
event_is_valid ev_invalid = false
event_is_valid _ = true
