-- ===== src/World.antt =====
-- The state of the module modttpoe: its tables, queues, counters and buffers (modttpoe/tags.h,
-- modttpoe/ttpoe.h, the globals of modttpoe/tags.c, modttpoe/ttpoe.c and modttpoe/noc.c).
-- An event and a tag are known by their place in their arrays, a socket buffer by a number. BUG_ON
-- stops the machine: here it sets `bug` and the rest is run.
pub mod Access
use ttpoe.Common.{ℕ, Bool, List, Option}
use ttpoe.Fsm.{Opcode, State, Event, Response}
use ttpoe.Index.{Tree}

-- The trip-wire marks of an event.
pub data Fence : Type 0 where
  free_elem pool_elem tx_q_elem rx_q_elem ak_q_elem in_q_elem : Fence
  noc_elem ctl_elem dbg_elem expt_elem : Fence

-- The fake events of the log, TTP_LG__x, beside the real ones.
pub data LogEvent : Type 0 where
  fsm_event : Event → LogEvent
  ttp_init ttp_link_up ttp_link_down : LogEvent
  pkt_rx pkt_tx pkt_drop : LogEvent
  noc_link_open noc_link_close : LogEvent
  noc_payload_tx noc_payload_rx noc_payload_enq noc_payload_req : LogEvent
  noc_payload_dup noc_payload_drop noc_payload_free : LogEvent
  sh_timer_start sh_timer_restart ln_timer_start ln_timer_restart : LogEvent
  timer_timeout timer_delete : LogEvent

-- A record of the event log without its places in the source text.
pub record EvLog : Type 0 where
  pub cs : State
  pub ev : LogEvent
  pub rs : Response
  pub ns : State
  pub op : Opcode
  pub hv : ℕ
  pub bk : ℕ
  pub vc : ℕ
  pub rx : ℕ
  pub tx : ℕ
  pub sz : ℕ
  pub kd : ℕ
  pub ts : ℕ
  pub ix : ℕ
  pub rf : ℕ

pub record PktInfo : Type 0 where
  pub skb_dat : ℕ
  pub skb_len : ℕ
  pub noc_len : ℕ
  pub tl4_off : ℕ
  pub ttp_off : ℕ
  pub noc_off : ℕ
  pub dat_off : ℕ
  pub rxi_seq : ℕ
  pub txi_seq : ℕ

pub record FsmEvent : Type 0 where
  pub evt : Event
  pub idx : ℕ
  pub mrk : Fence
  pub kid : ℕ
  pub psi : PktInfo
  pub rsk : Option ℕ
  pub tsk : Option ℕ

-- `tmr` is the time at which a pending timer runs out; `wkq` says that its work is scheduled.
pub record LinkTag : Type 0 where
  pub tmr : Option ℕ
  pub wkq : Bool
  pub ncq : List ℕ
  pub tex : Bool
  pub twz : ℕ
  pub tct : ℕ
  pub txt : ℕ
  pub try : ℕ
  pub valid : ℕ
  pub state : State
  pub retire_ptr : ℕ
  pub current_ptr : ℕ
  pub alloc_ptr : ℕ
  pub rx_seq_id : ℕ
  pub tx_seq_id : ℕ
  pub retire_id : ℕ
  pub opens : ℕ
  pub rkid : ℕ

-- A socket buffer: `bytes` from the start of its memory, `dat` the offset of `skb->data`.
pub record Skb : Type 0 where
  pub bytes : ℕ → ℕ
  pub dat : ℕ
  pub len : ℕ
  pub protocol : ℕ
  pub users : ℕ

pub record Stats : Type 0 where
  pub adds : ℕ → ℕ
  pub coll : ℕ → ℕ
  pub colls : ℕ
  pub pool : ℕ
  pub queue : ℕ
  pub nocq : ℕ
  pub evlog : ℕ
  pub ovr_fl : ℕ
  pub skb_ct : ℕ
  pub skb_rx : ℕ
  pub skb_tx : ℕ
  pub frm_ct : ℕ
  pub pld_ct : ℕ
  pub drp_ct : ℕ
  pub wkq_st : ℕ
  pub wkq_sz : ℕ

-- The module's parameters and its device.
pub record Config : Type 0 where
  pub shutdown : Bool
  pub ipv4_encap : Bool
  pub ipv4_prefix : ℕ
  pub ipv4_pfxlen : ℕ
  pub nhmac : ℕ → ℕ
  pub source_ipa : ℕ
  pub source_kid : ℕ
  pub dev_addr : ℕ → ℕ
  pub tag_seq_init_val : ℕ

-- What the kernel decides or computes: the rotations of a tree, whether the n-th buffer can be had,
-- the checksum of a header and of a byte, and the clock ticks of some milliseconds.
pub record Kernel : Type 0 where
  pub balance : Tree → Tree
  pub alloc_ok : ℕ → Bool
  pub ip_fast_csum : (ℕ → ℕ) → ℕ → ℕ
  pub crc16_byte : ℕ → ℕ → ℕ
  pub msecs_to_jiffies : ℕ → ℕ

pub record World : Type 0 where
  pub kernel : Kernel
  pub config : Config
  pub events : ℕ → FsmEvent
  pub tags : ℕ → LinkTag
  pub skbs : ℕ → Skb
  pub next_skb : ℕ
  pub pool_head : List ℕ
  pub rxq_head : List ℕ
  pub txq_head : List ℕ
  pub akq_head : List ℕ
  pub inq_head : List ℕ
  pub skb_head : List ℕ
  pub rri : ℕ
  pub tag_rbroot : Tree
  pub bloom_bitmap : ℕ → Bool
  pub evlog_head : List EvLog
  pub work_queue : Bool
  pub jiffies : ℕ
  pub stats : Stats
  pub noc_page : Option (ℕ → ℕ)
  pub noc_len : ℕ
  pub sent : List Skb
  pub bug : Bool
