-- ===== src/Lib.antt =====
-- A verification of the TTPoE transport, the kernel module in modttpoe/.
--
-- The module links two machines by Ethernet frames. A link has a tag (modttpoe/tags.h, struct ttp_link_tag), found by a
-- 64-bit key through a tree, with a state, sequence numbers and the payloads that wait for their acknowledgement. What
-- happens to links are events from a pool, put into four queues. One step takes an event, looks its tag's state up in the
-- state table, and runs the event's handler, the response of the cell (most send a frame) and the entry into the next
-- state. Payloads that come in are gathered on a page that a user reads.
--
-- The files, and what they model:
--   Common: numbers, tests, lists and words that the others share.
--   Fsm: the enumerations and the tables of modttpoe/fsm.h and modttpoe/fsm.c.
--   Key: keys and their hash (ttp_tag_key_make in modttpoe/tags.c, ttp_tag_index_hash_calc in include/ttp.h).
--   Index: the tree of tags (ttp_rbtree_tag_get, ttp_rbtree_tag_add in modttpoe/tags.c).
--   World: the module's state; struct ttp_link_tag_global, the tag tables, the counters, the page and the frames sent are
--     one record, which every operation takes and returns.
--   Tag: making and resetting tags, the lookup of a state and the event log (modttpoe/tags.c).
--   Bloom: the bloom filter (modttpoe/tags.c).
--   Queue: the pool, the queues, and the payloads of a tag (ttp_evt_ and ttp_noc_ functions of modttpoe/tags.c).
--   Frame, Buffer: headers and frames (modttpoe/ttpoe.c, include/ttp.h).
--   Noc: the page (ttpoe_noc_debug_rx in modttpoe/noc.c).
--   Receive: the intake of frames (ttpoe_skb_recv_func, ttp_skb_recv, ttp_skb_dequ in modttpoe/ttpoe.c).
--   Device: sending to a target and reading the page (modttpoe/noc.c).
--   Param: the setters of the target, its channel and the two modes, in Param/Ipv4 those of the IPv4 prefix and target, the
--     scan of the device's addresses, the shutdown and the steps of the work queue (modttpoe/param.c).
--   Respond, Handle, Enter: the ttp_fsm_rs__, ttp_fsm_ev_hdl__ and ttp_fsm_sef__ functions of modttpoe/fsm.c.
--   Step: ttp_evt_dequ, ttp_do_tag_work, ttp_do_global_work and the tag's timer (modttpoe/tags.c).
--   Run: the entries of the module in any order, the setters of the parameters among them; Travel: each function's moves
--     of events between the pool, the queues and the payloads of tags, and what holds of them after any history.
--   Load: the start and the end of the module (ttpoe_init and ttpoe_exit in modttpoe/ttpoe.c, ttpoe_proc_init in
--     modttpoe/proc.c, ttpoe_noc_debug_init in modttpoe/noc.c, ttp_fsm_exit in modttpoe/tags.c).
--   Init: ttp_fsm_init (modttpoe/tags.c), and in Init/Scene small worlds for the tests.
--   Gateway: the IP gateway, a module of its own (modttpip/ttpip.c, modttpip/ttpip.h), with its own state, the record Gw.
--     Mac and Table: the table of addresses (the ttp_mactbl_ functions); Packet and Control: control packets between
--     gateways, and what is learnt from them; Timer: ttp_gw_ctl_tmr_cb; Resolve: the next hops; Ingress: ttpip_frm_recv;
--     Egress: ttpip_pkt_recv; Start: ttpip_init, ttpip_exit and the scan for the gateway's own zone.
--   Tests: each theorem with hypotheses at a concrete input.
--
-- Names are the source's without the prefix ttp_. Tags, events and buffers are numbers: tag `vc * 512 + hv * 2 + bk` is
-- the slot of virtual channel vc, hash hv and bucket bk; a pointer that may be null is an Option. A function that returns
-- a bool and changes the state returns the pair. BUG_ON raises the flag `bug` and goes on. Counters of 16 and 32 bits wrap.
--
-- Bounds: the loop that empties a link's payloads has as many rounds as the queue is long and one that finds it empty; the
-- hash loops of the bloom filter have eight rounds; the round over the four queues has four.
--
-- The kernel is a parameter, the record `kernel` in World: whether memory is granted, the rotations of rb_insert_color,
-- ip_fast_csum, crc16_byte and msecs_to_jiffies. Each operation runs to its end, as the mutexes see to.
--
-- Not modelled: the mapping of the page into a process (modttpoe/noc.c), the getters and the verbosity of the parameters
-- (modttpoe/param.c), the text of the gateway's parameters (modttpip/ttpip.c), what ttp_fsm_exit does to the lists of
-- events, which it links a second time, and output (proc.c and print.c in modttpoe), which has no state of its own.
--
-- Of the gateway, routes, neighbours and the addresses of devices are the kernel's (the record Net), as are rb_erase and
-- the contents of fresh memory; the loops over zones have seven rounds. What two variables of ttpip_pkt_recv hold that
-- the code does not set is an argument. After pskb_expand_head the pointers taken before are read as if they had moved.
mod Common
pub mod Fsm
pub mod Key
pub mod Index
pub mod World
pub mod Tag
pub mod Frame
pub mod Buffer
pub mod Queue
pub mod Bloom
pub mod Noc
pub mod Receive
pub mod Device
pub mod Param
pub mod Respond
pub mod Handle
pub mod Enter
pub mod Step
pub mod Run
pub mod Travel
pub mod Init
pub mod Load
pub mod Gateway
pub mod Tests
