-- ===== src/Tests/Tables.antt =====
-- The state table, the opcodes, the hashes and the bytes of a frame.
use ttpoe.Common.{ℕ, ◌+◌, ◌*◌, ◌^◌, ◌≡◌, ◌≢◌, ◌↔◌, inl, refl, true, false, some, arith}
use ttpoe.Fsm.{
  State, Event, stay, open_sent, closed, fsm_table, opcode_is_ack, opcode_to_event, response_op,
  ttp_ack, ttp_payload, op_invalid,
}
use ttpoe.Fsm.Table.{Edge, fsm_table-Edge}
use ttpoe.Fsm.Wire.{no_ack_for_ack}
use ttpoe.Key.{tag_key_make, vci, mac_byte, gwf, tip, bkt, hvl, rkey, index_hash_calc}
use ttpoe.Key.Fields.{IsMac, tag_key_make_fields, rkey-eq_iff}
use ttpoe.Bloom.{bloom_add, bloom_test}
use ttpoe.Bloom.Filter.{bloom_test-bloom_add}
use ttpoe.World.{World}
use ttpoe.Frame.{ethertype_ttpoe, skb_pars, no_frame_hdr, no_pkt_info}
use ttpoe.Buffer.{skb_net_setup}
use ttpoe.Receive.Parse.{Parsed, net_setup-Parsed}
use ttpoe.Init.Scene.{talking, mac_of, no_skb}

is_link : open_sent ≢ stay
is_link e = cc

fsm_table-Edge_example :
    ((e : Event)
      → (fsm_table e open_sent).next_state ≢ stay
      → Edge open_sent (fsm_table e open_sent).next_state)
    × ((t : State) → Edge open_sent t → (e : Event) × ((fsm_table e open_sent).next_state ≡ t))
fsm_table-Edge_example = fsm_table-Edge open_sent is_link

is_ack : opcode_is_ack ttp_ack ≡ true
unfolding opcode_is_ack
is_ack = refl

no_ack_for_ack_example :
    opcode_is_ack (response_op (fsm_table (opcode_to_event ttp_ack) closed).response) ≡ false
no_ack_for_ack_example = no_ack_for_ack ttp_ack closed is_ack

-- The configuration of a host with the address of `mac_of 9`, and a frame to send.
abbrev sender : World
sender = record talking {
  config = record talking.config { dev_addr = mac_of 9 };
  skbs = λ n. record no_skb { protocol = ethertype_ttpoe; len = 1000 };
}

-- The key of 00:00:00:01:02:07 on the virtual channel 1.
abbrev peer : ℕ
peer = 7 * 2 ^ 24 + 2 * 2 ^ 16 + 2 ^ 8 + 1

is_payload : ttp_payload ≢ op_invalid
is_payload e = cc

sender-IsMac : IsMac sender.config.dev_addr
sender-IsMac = record { third = omega arith; fourth = omega arith; fifth = omega arith }

net_setup-Parsed_example :
    ((skb_net_setup 4 (some peer) 700 ttp_payload sender).1 ≡ true)
    × Parsed talking.config
        ((skb_net_setup 4 (some peer) 700 ttp_payload sender).0.skbs 4)
        ttp_payload
        700
        (tag_key_make (some (mac_of 9)) 1 false false)
        (skb_pars
          ((skb_net_setup 4 (some peer) 700 ttp_payload sender).0.skbs 4)
          no_frame_hdr
          no_pkt_info)
net_setup-Parsed_example =
    net_setup-Parsed sender 4 peer 700 ttp_payload talking.config is_payload (omega arith)
      (omega arith) sender-IsMac refl refl refl

abbrev vc : ℕ
vc = 2

IsMac-ok : IsMac (mac_of 7)
IsMac-ok = record { third = omega arith; fourth = omega arith; fifth = omega arith }

tag_key_make_fields_example :
    (vci (tag_key_make (some (mac_of 7)) 2 true false) ≡ 2)
    × (mac_byte 0 (tag_key_make (some (mac_of 7)) 2 true false) ≡ 1)
    × (mac_byte 1 (tag_key_make (some (mac_of 7)) 2 true false) ≡ 2)
    × (mac_byte 2 (tag_key_make (some (mac_of 7)) 2 true false) ≡ 7)
    × (gwf (tag_key_make (some (mac_of 7)) 2 true false) ≡ 1)
    × (tip (tag_key_make (some (mac_of 7)) 2 true false) ≡ 0)
    × (bkt (tag_key_make (some (mac_of 7)) 2 true false) ≡ 0)
    × (hvl (tag_key_make (some (mac_of 7)) 2 true false) ≡ index_hash_calc (mac_of 7))
tag_key_make_fields_example = tag_key_make_fields (mac_of 7) 2 true false IsMac-ok (omega arith)

rkey-eq_iff_example :
    (rkey (tag_key_make (some (mac_of 7)) 2 true false)
      ≡ rkey (tag_key_make (some (mac_of 7)) 2 false true))
    ↔ ((vc ≡ vc) × (mac_of 7 3 ≡ 1) × (mac_of 7 4 ≡ 2) × (mac_of 7 5 ≡ 7))
rkey-eq_iff_example =
    rkey-eq_iff (mac_of 7) (mac_of 7) vc vc true false false true IsMac-ok IsMac-ok (omega arith)
      (omega arith)

bloom_test-bloom_add_example : bloom_test 7 (bloom_add 7 talking) ≡ true
bloom_test-bloom_add_example = bloom_test-bloom_add 7 7 talking (inl refl)
