-- ===== src/Init/Scene.antt =====
-- A machine for the tests: an address, a kernel that grants every buffer, and one link.
use ttpoe.Common.{ℕ, zero, suc, true, false, none, some, [], ◌∷◌}
use Prim.Native.Nat.{bit_xor}
use ttpoe.Fsm.{op_invalid, opened, stay, closed, rs_none, ev_invalid, Event}
use ttpoe.Index.{leaf, node}
use ttpoe.Key.{tag_key_make}
use ttpoe.Frame.{no_pkt_info}
use ttpoe.World.{World, Kernel, Config, Stats, FsmEvent, LinkTag, Skb, EvLog, ttp_init, pool_elem}
use ttpoe.World.Access.{with_event}
use ttpoe.Queue.{evt_pget, evt_enqu}
use ttpoe.Tag.{tag_add}
use ttpoe.Init.{fsm_init}

abbrev pub mac_of : ℕ → ℕ → ℕ
mac_of n zero = 0x98
mac_of n (suc zero) = 0xed
mac_of n (suc (suc zero)) = 0x5c
mac_of n (suc (suc (suc zero))) = 1
mac_of n (suc (suc (suc (suc zero)))) = 2
mac_of n _ = n

abbrev pub kernel : Kernel
kernel = record {
  balance = λ t. t;
  alloc_ok = λ n. true;
  ip_fast_csum = λ b a. 0;
  crc16_byte = λ c x. bit_xor c x;
  msecs_to_jiffies = λ ms. ms;
}

abbrev pub config : Config
config = record {
  shutdown = false;
  ipv4_encap = false;
  ipv4_prefix = 0;
  ipv4_pfxlen = 0;
  nhmac = mac_of 0xff;
  source_ipa = 0;
  source_kid = 0;
  dev_addr = mac_of 1;
  tag_seq_init_val = 1;
}

abbrev no_stats : Stats
no_stats = record {
  adds = λ n. 0;
  coll = λ n. 0;
  colls = 0;
  pool = 0;
  queue = 0;
  nocq = 0;
  evlog = 0;
  ovr_fl = 0;
  skb_ct = 0;
  skb_rx = 0;
  skb_tx = 0;
  frm_ct = 0;
  pld_ct = 0;
  drp_ct = 0;
  wkq_st = 0;
  wkq_sz = 0;
}

abbrev pub no_event : FsmEvent
no_event = record {
  evt = ev_invalid;
  idx = 0;
  mrk = pool_elem;
  kid = 0;
  psi = no_pkt_info;
  rsk = none;
  tsk = none;
}

abbrev pub no_tag : LinkTag
no_tag = record {
  tmr = none;
  wkq = false;
  ncq = [];
  tex = false;
  twz = 1;
  tct = 0;
  txt = 0;
  try = 0;
  valid = 0;
  state = closed;
  retire_ptr = 0;
  current_ptr = 0;
  alloc_ptr = 0;
  rx_seq_id = 0;
  tx_seq_id = 0;
  retire_id = 0;
  opens = 0;
  rkid = 0;
}

abbrev pub no_skb : Skb
no_skb = record { bytes = λ a. 0; dat = 0; len = 0; protocol = 0; users = 0 }

abbrev pub no_log : EvLog
no_log = record {
  cs = stay;
  ev = ttp_init;
  rs = rs_none;
  ns = stay;
  op = op_invalid;
  hv = 0;
  bk = 0;
  vc = 0;
  rx = 0;
  tx = 0;
  sz = 0;
  kd = 0;
  ts = 0;
  ix = 0;
  rf = 0;
}

abbrev pub blank : World
blank = record {
  kernel = kernel;
  config = config;
  events = λ i. no_event;
  tags = λ s. no_tag;
  skbs = λ n. no_skb;
  next_skb = 0;
  pool_head = [];
  rxq_head = [];
  txq_head = [];
  akq_head = [];
  inq_head = [];
  skb_head = [];
  rri = 0;
  tag_rbroot = leaf;
  bloom_bitmap = λ n. false;
  evlog_head = [];
  work_queue = false;
  jiffies = 0;
  stats = no_stats;
  noc_page = some (λ a. 0);
  noc_len = 0;
  sent = [];
  bug = false;
}

unfoldable pub booted : World
unfolding fsm_init
booted = fsm_init no_log blank

-- The key of the peer, over plain Ethernet on the virtual channel 0.
unfoldable pub peer : ℕ
unfolding tag_key_make
peer = tag_key_make (some (mac_of 7)) 0 false false

unfoldable pub linked : World
unfolding tag_add booted peer
linked = (tag_add peer booted).0

-- An event of the peer put into its queue.
unfoldable pub queued : Event → World → World
unfolding evt_pget evt_enqu peer
queued evn w =
    let (w1, got) = evt_pget w in
    elim got [
      | none ↦ w1
      | some i ↦ evt_enqu i (with_event i (λ e. record e { evt = evn; kid = peer }) w1)
    ]

-- One open link, of the key 7 in slot 0, with the payload of event 3 that waits; event 1 is the peer's ACK for it, and the
-- payload of event 4 is new.
abbrev pub talking : World
talking = record blank {
  tags = λ s. record no_tag {
    valid = 1;
    state = opened;
    rkid = 7;
    ncq = 3 ∷ [];
    tct = 1;
    tx_seq_id = 6;
    rx_seq_id = 1;
  };
  events = λ i. record no_event {
    idx = i;
    kid = 7;
    psi = record no_pkt_info { txi_seq = 5; rxi_seq = 5; noc_len = 2 };
  };
  tag_rbroot = node leaf 0 leaf;
  pool_head = 8 ∷ 9 ∷ [];
  txq_head = 4 ∷ [];
  stats = record no_stats { pool = 2; queue = 1; nocq = 1 };
}
