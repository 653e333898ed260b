-- ===== src/Tag.antt =====
-- The link tags and what finds them: the tables, the tree, the state table's lookup, the bloom filter
-- and the event log (modttpoe/tags.c).
pub mod Log
pub mod Add
pub mod Reset
use Prim.Native.Nat.{bit_and, bit_or, bit_xor}
use ttpoe.Common.{
  ℕ, zero, suc, ◌+◌, ◌-◌, ◌*◌, ◌/◌, ◌%◌, ◌^◌, Bool, true, false, ◌&&◌, Option, none, some, List, [],
  ◌∷◌, ◌++◌, ltb, ◌==◌, if◌then◌else◌, inc16, inc32, update,
}
use ttpoe.Fsm.{
  Opcode, State, closed, Event, Response, StateVar, txq_ttp_payload, ttp_payload, fsm_table,
  opcode_is_ack, event_is_valid,
}
use ttpoe.Key.{vci, hvl, bkt, gwf, tip, rkey, set_bkt, set_gwf, set_tip, set_hvl}
use ttpoe.Index
use ttpoe.World.{World, FsmEvent, LinkTag, Skb, Stats, EvLog, LogEvent, fsm_event, PktInfo}
use ttpoe.World.Access.{with_tag, with_stats, bug_on, is_some}

-- The keys of the tree's nodes, read from the tags.
abbrev pub node_key : World → ℕ → ℕ
node_key w s = rkey (w.tags s).rkid

-- `ttp_rbtree_tag_get`.
unfoldable pub tag_get : World → ℕ → Option ℕ
tag_get w kid = Index.tag_get (node_key w) (rkey kid) w.tag_rbroot

-- `ttp_rbtree_tag_add`.
abbrev rbtree_tag_add : ℕ → World → World
rbtree_tag_add s w = record w {
  tag_rbroot = Index.tag_add w.kernel.balance (node_key w) s w.tag_rbroot;
}

unfoldable pub signal_tag : ℕ → World → World
signal_tag i w = elim (w.events i).evt [
  | txq_ttp_payload ↦ elim (tag_get w (w.events i).kid) [
    | none ↦ w
    | some s ↦ if (w.tags s).txt == 0 then w else with_tag s (λ t. record t { txt = t.txt - 1 }) w
  ]
  | _ ↦ w
]

unfoldable pub tag_get_state : World → ℕ → State
tag_get_state w kid =
    if kid == 0 then closed else elim (tag_get w kid) [ none ↦ closed | some s ↦ (w.tags s).state ]

unfoldable pub tag_reset : ℕ → World → World
tag_reset s w =
    with_tag s
      (λ t. record t {
        valid = 0;
        state = closed;
        retire_ptr = 0;
        current_ptr = 0;
        alloc_ptr = 0;
        tx_seq_id = 0;
        rx_seq_id = 0;
        retire_id = 0;
        tex = false;
        twz = 1;
        tct = 0;
        txt = 0;
        try = 0;
        rkid = 0;
      })
      w

-- The place of a tag: the table of its virtual channel, its hash value, its bucket.
abbrev pub slot_of : ℕ → ℕ → ℕ → ℕ
slot_of vc hv bk = vc * 512 + hv * 2 + bk

-- An empty slot taken for a key, in the order of the assignments.
unfoldable pub fill_slot : ℕ → ℕ → ℕ → World → World
fill_slot s bk kid w =
    let w1 = with_tag s (λ t. record t { valid = 1; state = closed; rkid = kid }) w in
    let w2 = rbtree_tag_add s w1 in
    let w3 =
      with_tag s
        (λ t. record t {
          rkid = set_hvl (hvl kid) (set_tip (tip kid) (set_gwf (gwf kid) (set_bkt bk t.rkid)));
          retire_id = w.config.tag_seq_init_val;
          rx_seq_id = w.config.tag_seq_init_val;
          tx_seq_id = inc32 w.config.tag_seq_init_val;
        })
        w2 in
    with_stats (λ c. record c { adds = update c.adds bk (inc32 (c.adds bk)) }) w3

-- 0 with a tag found or made, 1 with both buckets full. A virtual channel of 3 is a BUG.
unfoldable pub tag_add : ℕ → World → World × ℕ
unfolding fill_slot
tag_add kid w = elim (tag_get w kid) [
  | some s ↦ (w, 0)
  | none ↦
      if ltb (vci kid) 3
      then if (w.tags (slot_of (vci kid) (hvl kid) 0)).valid == 0
        then (fill_slot (slot_of (vci kid) (hvl kid) 0) 0 kid w, 0)
        else if (w.tags (slot_of (vci kid) (hvl kid) 1)).valid == 0
        then (fill_slot (slot_of (vci kid) (hvl kid) 1) 1 kid w, 0)
        else (
          with_stats
              (λ c. record c {
                coll = update c.coll (hvl kid) (inc32 (c.coll (hvl kid)));
                colls = inc32 c.colls;
              })
              w,
          1,
        )
      else (bug_on true w, 0)
]

-- The current state of a key's tag, and the table's cell for an event in it.
unfoldable pub lookup_state_table : World → ℕ → Event → State × StateVar
unfolding tag_get_state
lookup_state_table w kid evn = (tag_get_state w kid, fsm_table evn (tag_get_state w kid))

-- The cell and the tag's place are noted for the real events of a key.
note_table : World → ℕ → Event → EvLog → EvLog
unfolding lookup_state_table event_is_valid
note_table w kid evn lg =
    let cell = lookup_state_table w kid evn in
    let lg' = record lg { cs = cell.0; rs = cell.1.response; ns = cell.1.next_state } in
    let lg'' : EvLog = elim (tag_get w kid) [
      | none ↦ lg'
      | some s ↦ record lg' {
        vc = vci (w.tags s).rkid;
        hv = hvl (w.tags s).rkid;
        bk = bkt (w.tags s).rkid;
      }
    ] in
    if kid == 0 then lg else if event_is_valid evn then lg'' else lg

abbrev note_event : World → ℕ → LogEvent → EvLog → EvLog
note_event w kid (fsm_event evn) lg = note_table w kid evn lg
note_event w kid _ lg = lg

-- `rx`, `tx` and `sz` of a record; -1 is the largest number of 32 bits.
abbrev note_packet : Opcode → PktInfo → EvLog → EvLog
note_packet opc p lg =
    if opcode_is_ack opc then record lg { rx = p.rxi_seq; tx = 4294967295; sz = 0 } else record lg {
      rx = p.rxi_seq;
      tx = p.txi_seq;
      sz = elim opc [ ttp_payload ↦ p.noc_len | _ ↦ 0 ];
    }

-- TTP_EVLOG of an event: the oldest record is taken, filled anew and put at the end.
unfoldable pub evlog_add : ℕ → LogEvent → Opcode → World → World
unfolding note_table
evlog_add i evn opc w = elim w.evlog_head [
  | [] ↦ bug_on (is_some (w.events i).tsk && is_some (w.events i).rsk) w
  | lg ∷ rest ↦
      let e = w.events i in
      let users : ℕ = elim e.tsk [ none ↦ 0 | some n ↦ (w.skbs n).users ] in
      let lg1 =
        note_packet opc e.psi
          (record lg { ts = w.jiffies; ev = evn; op = opc; kd = e.kid; ix = e.idx; rf = users }) in
      let w1 = bug_on (is_some e.tsk && is_some e.rsk) w in
      with_stats (λ c. record c { evlog = inc16 c.evlog })
        (record w1 { evlog_head = rest ++ (note_event w e.kid evn lg1 ∷ []) })
]
