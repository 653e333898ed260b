-- ===== src/Gateway.antt =====
-- The IP gateway, a module of its own (modttpip/ttpip.c, modttpip/ttpip.h): its state, and its zones. A
-- gateway stands at the edge of a zone, takes the frames of the zone's nodes for nodes of other zones, and
-- hands them to the other zones' gateways in IP packets. It keeps a table of the nodes' addresses.
-- Devices are numbers; an IPv4 or IPv6 address is its number. The table's mutex is free or held by
-- someone else for as long as an operation runs. Kernel lookups are the record `Net`.
pub mod Mac
pub mod Table
pub mod Packet
pub mod Control
pub mod Resolve
pub mod Timer
pub mod Ingress
pub mod Egress
pub mod Start
use ttpoe.Common.{
  ℕ, ◌+◌, Bool, true, false, ◌&&◌, ◌||◌, Option, none, some, List, [], ◌∷◌, ◌++◌, ltb, ◌==◌, update,
  if◌then◌else◌,
}
use ttpoe.Index.{Tree}
use ttpoe.World.{Skb, Kernel}
use ttpoe.Frame.{Bytes}

-- The results of the module's functions: zero, a positive EEXIST or EAGAIN, a negative error.
pub data Errno : Type 0 where
  success eexist eagain einval enomem enetunreach enodev ehostunreach enetdown ebusy : Errno

abbrev pub is_negative : Errno → Bool
is_negative success = false
is_negative eexist = false
is_negative eagain = false
is_negative _ = true

abbrev pub max_num_zones : ℕ
max_num_zones = 8

abbrev pub mac_table_size : ℕ
mac_table_size = 256

abbrev pub mac_ageout_max : ℕ
mac_ageout_max = 60

abbrev pub mac_ageout_old : ℕ
mac_ageout_old = 30

-- enum ttp_mac_opcodes, by its values.
abbrev pub local_add : ℕ
local_add = 0

abbrev pub local_del : ℕ
local_del = 1

abbrev pub remote_add : ℕ
remote_add = 4

abbrev pub remote_del : ℕ
remote_del = 5

abbrev pub gateway_add : ℕ
gateway_add = 6

abbrev pub gateway_slf : ℕ
gateway_slf = 7

-- struct ttp_mactable without its tree node; the four flags are `vld`, `rem`, `gwf` and `prm`.
pub record MacEntry : Type 0 where
  pub zon : ℕ
  pub age : ℕ
  pub mac : Bytes
  pub vld : Bool
  pub rem : Bool
  pub gwf : Bool
  pub prm : Bool
  pub rx_byt : ℕ
  pub rx_frm : ℕ
  pub tx_byt : ℕ
  pub tx_frm : ℕ

-- struct ttp_intf_cfg; of its two unions the code uses the member that `ver` names.
pub record ZoneCfg : Type 0 where
  pub zon : ℕ
  pub ver : ℕ
  pub pfl : ℕ
  pub gwy : Bool
  pub mac : Bytes
  pub da4 : ℕ
  pub da6 : ℕ
  pub sa4 : ℕ
  pub sa6 : ℕ
  pub dev : Option ℕ

-- struct ttp_timer: `tmh` is the time at which a pending timer runs out.
pub record Timed : Type 0 where
  pub max : ℕ
  pub exp : ℕ
  pub rst : Bool
  pub try : ℕ
  pub tmh : Option ℕ

-- A route: its device, whether it leads over a gateway, and the gateway.
pub record Route : Type 0 where
  pub dev : ℕ
  pub uses_gateway : Bool
  pub gateway : ℕ

pub record IfAddr : Type 0 where
  pub ifa_address : ℕ
  pub ifa_prefixlen : ℕ

-- What the kernel's network stack answers, and the contents of fresh memory.
pub record Net : Type 0 where
  pub dev_addr : ℕ → Bytes
  pub is_loopback : ℕ → Bool
  pub is_up : ℕ → Bool
  pub dev_by_name : Option ℕ
  pub ifaddrs : ℕ → List IfAddr
  pub ifaddrs6 : ℕ → List IfAddr
  pub route : ℕ → Option Route
  pub route6 : ℕ → Option Route
  pub neigh : Route → ℕ → Option Bytes
  pub neigh6 : Route → ℕ → Option Bytes
  pub fresh : ℕ → Bytes
  pub rb_erase : ℕ → Tree → Tree

-- A frame handed to dev_queue_xmit, and its device.
pub record Tx : Type 0 where
  pub dev : ℕ
  pub skb : Skb

-- `entries` are the nodes that kzalloc gave, `freed` the number of buffers dropped, `resolving` the
-- addresses given to neigh_resolve_output.
pub record Gw : Type 0 where
  pub kernel : Kernel
  pub net : Net
  pub shutdown : Bool
  pub drop_pct : ℕ
  pub myzn : ℕ
  pub num_gwips : ℕ
  pub zones : ℕ → ZoneCfg
  pub mutx_busy : Bool
  pub rbroot : Tree
  pub entries : ℕ → MacEntry
  pub mactbl_ct : ℕ
  pub next_alloc : ℕ
  pub tsla_dev : ℕ
  pub lyr3_dev : Option ℕ
  pub lyr3_type : ℕ
  pub nh_mac_tmr : Timed
  pub gw_ctl_tmr : Timed
  pub packs : Bool
  pub jiffies : ℕ
  pub sent : List Tx
  pub freed : ℕ
  pub resolving : List ℕ
  pub bug : Bool

abbrev pub with_entry : ℕ → (MacEntry → MacEntry) → Gw → Gw
with_entry s f g = record g { entries = update g.entries s (f (g.entries s)) }

abbrev pub with_zone : ℕ → (ZoneCfg → ZoneCfg) → Gw → Gw
with_zone z f g = record g { zones = update g.zones z (f (g.zones z)) }

abbrev pub gw_bug : Gw → Gw
gw_bug g = record g { bug = true }

-- kfree_skb of a buffer that nobody else holds.
abbrev pub drop_skb : Gw → Gw
drop_skb g = record g { freed = g.freed + 1 }

abbrev pub xmit : ℕ → Skb → Gw → Gw
xmit dev skb g = record g { sent = g.sent ++ (record { dev = dev; skb = skb } ∷ []) }

abbrev pub is_zero : ℕ → Bool
is_zero n = n == 0

-- `ttp_zone_valid`, for a zone number from 0 on.
unfoldable pub zone_valid : Gw → ℕ → Bool
zone_valid g zn =
    ltb 0 g.num_gwips
    && (ltb 0 zn && ltb zn max_num_zones)
    && (((g.zones zn).ver == 4) || ((g.zones zn).ver == 6))

-- `ttp_myzone`.
abbrev pub myzone : Gw → ℕ → Bool
myzone g zn = ltb 0 g.num_gwips && (g.myzn == zn)

-- `ttp_zcfg`; a zone's configuration is known by the zone's number.
unfoldable pub zcfg : Gw → ℕ → Option ℕ
unfolding zone_valid
zcfg g zn = if zone_valid g zn then some zn else none

-- `ttp_myzcfg`.
abbrev pub myzcfg : Gw → Option ℕ
myzcfg g = zcfg g g.myzn
