-- ===== src/Tests/Gateways.antt =====
-- The gateway's theorems on a small table: one node's address, and a second zone.
use ttpoe.Common.{
  ℕ, zero, suc, ◌+◌, ◌<◌, ◌≡◌, ◌≢◌, ◌⊎◌, refl, true, false, none, some, List, [], ◌∷◌, leb,
  if◌then◌else◌, arith, ◌==◌,
}
use ttpoe.World.{Skb}
use ttpoe.Index.{Tree, leaf, node, slots}
use ttpoe.Key.{index_hash_calc, reverse_bits}
use ttpoe.Init.Scene.{kernel, mac_of}
use ttpoe.Gateway.{Gw, Net, ZoneCfg, Timed}
use ttpoe.Gateway.Mac.{memcmp, mac_cmp, descend}
use ttpoe.Gateway.Mac.Order.{IsAddr}
use ttpoe.Gateway.Table.{
  no_entry, mactbl_rbtree_add, mactbl_rbtree_del, mactbl_rbtree_find, mactbl_find,
}
use ttpoe.Gateway.Table.Laws.{IsTable}
use ttpoe.Gateway.Table.Add.{AddOutcome, mactbl_rbtree_add_outcome}
use ttpoe.Gateway.Table.Erase.{without, IsErase, DelOutcome, mactbl_rbtree_del_outcome}
use ttpoe.Gateway.Timer.Aging.{ticks, entry_ages}
use ttpoe.Gateway.Egress.Message.{IsRead, message-IsRead}
use ttpoe.Gateway.Egress.Headers.{arrived}
use ttpoe.Gateway.Packet.{control_packet}
use ttpoe.Gateway.Resolve.Slow.{slow_rounds, slow_scan_idle}
use ttpoe.Gateway.Egress.{deliver_node}
use ttpoe.Gateway.Egress.Through.{Carried, frame-Carried}
use ttpoe.Gateway.Egress.Unset.{unset_zone_decides}

-- A tree of one row, and the erasure that makes it.
abbrev row : List ℕ → Tree
row [] = leaf
row (x ∷ xs) = node leaf x (row xs)

slots-row : (xs : List ℕ) → slots (row xs) ≡ xs
slots-row [] = refl
slots-row (x ∷ xs) = rw (slots-row xs) refl

abbrev erase : ℕ → Tree → Tree
erase s t = row (without s (slots t))

erase-IsErase : IsErase erase
erase-IsErase s t = slots-row (without s (slots t))

abbrev net : Net
net = record {
  dev_addr = λ d. mac_of d;
  is_loopback = λ d. false;
  is_up = λ d. true;
  dev_by_name = some 1;
  ifaddrs = λ d. [];
  ifaddrs6 = λ d. [];
  route = λ a. none;
  route6 = λ a. none;
  neigh = λ r a. none;
  neigh6 = λ r a. none;
  fresh = λ n i. 0;
  rb_erase = erase;
}

abbrev zone : ℕ → ZoneCfg
zone n = record {
  zon = n;
  ver = 4;
  pfl = 24;
  gwy = false;
  mac = mac_of 9;
  da4 = 0x0a000000 + n;
  da6 = 0;
  sa4 = 0x0a000001;
  sa6 = 0;
  dev = some 2;
}

abbrev timed : Timed
timed = record { max = 5; exp = 1000; rst = false; try = 0; tmh = none }

abbrev bare : Gw
bare = record {
  kernel = kernel;
  net = net;
  shutdown = false;
  drop_pct = 0;
  myzn = 1;
  num_gwips = 2;
  zones = zone;
  mutx_busy = false;
  rbroot = leaf;
  entries = λ s. record no_entry { zon = 2 };
  mactbl_ct = 0;
  next_alloc = 0;
  tsla_dev = 1;
  lyr3_dev = some 2;
  lyr3_type = 0x0800;
  nh_mac_tmr = timed;
  gw_ctl_tmr = timed;
  packs = true;
  jiffies = 0;
  sent = [];
  freed = 0;
  resolving = [];
  bug = false;
}

bare-IsTable : IsTable bare
bare-IsTable = record {
  addrs = λ s i. omega arith;
  order = tt;
  known = tt;
  count = refl;
  small = omega arith;
}

mac_of-IsAddr : (n : ℕ) → n < 256 → IsAddr (mac_of n)
mac_of-IsAddr n h zero = omega arith
mac_of-IsAddr n h (suc zero) = omega arith
mac_of-IsAddr n h (suc (suc zero)) = omega arith
mac_of-IsAddr n h (suc (suc (suc zero))) = omega arith
mac_of-IsAddr n h (suc (suc (suc (suc zero)))) = omega arith
mac_of-IsAddr n h (suc (suc (suc (suc (suc m))))) = h

mactbl_rbtree_add_outcome_example :
    AddOutcome (mac_of 7) (mac_of 8) bare (mactbl_rbtree_add (mac_of 7) bare)
mactbl_rbtree_add_outcome_example =
    mactbl_rbtree_add_outcome (mac_of 7) (mac_of 8) bare bare-IsTable
      (mac_of-IsAddr 7 (omega arith)) (mac_of-IsAddr 8 (omega arith)) (λ t. refl) refl

-- The table with the address of one node, which is in zone 2.
abbrev one : Gw
one = record bare {
  rbroot = node leaf 0 leaf;
  mactbl_ct = 1;
  next_alloc = 1;
  entries = λ s. record no_entry { vld = true; zon = 2; mac = mac_of 7 };
}

one-IsTable : IsTable one
one-IsTable = record {
  addrs = λ s. mac_of-IsAddr 7 (omega arith);
  order = (tt, tt);
  known = (omega arith, tt);
  count = refl;
  small = omega arith;
}

mactbl_rbtree_del_outcome_example :
    DelOutcome (mac_of 7) (mac_of 8) one (mactbl_rbtree_del (mac_of 7) one)
mactbl_rbtree_del_outcome_example =
    mactbl_rbtree_del_outcome (mac_of 7) (mac_of 8) one one-IsTable (mac_of-IsAddr 7 (omega arith))
      (mac_of-IsAddr 8 (omega arith)) erase-IsErase refl

seven_found : mactbl_rbtree_find (mac_of 7) one ≡ some 0
unfolding mactbl_rbtree_find descend mac_cmp memcmp index_hash_calc reverse_bits
seven_found = refl

abbrev sixty : ℕ
sixty = 60

entry_ages_example :
    (((ticks sixty one).entries 0).vld ≡ leb sixty 60)
    × (((ticks sixty one).entries 0).age ≡ (if leb sixty 60 then sixty else 60))
    × (mactbl_rbtree_find (mac_of 7) (ticks sixty one) ≡ some 0)
entry_ages_example =
    entry_ages one (mac_of 7) 0 one-IsTable (mac_of-IsAddr 7 (omega arith)) refl seven_found refl
      (λ i. refl) sixty refl refl refl

-- A frame for the node, behind its Ethernet header: the type header, and the shim header with a length of 30.
abbrev frame : Skb
frame = record {
  bytes = λ j. if j == 67 then 30 else if j == 39 then 128 else if j == 38 then 5 else 0;
  dat = 38;
  len = 66;
  protocol = 0x9ac6;
  users = 1;
}

frame-Carried_example : Carried bare bare (zone 2) 2 2 frame (mac_of 7)
frame-Carried_example =
    frame-Carried bare bare (zone 2) 2 2 frame (mac_of 7) refl (omega arith) refl (omega arith)
      (omega arith) (omega arith)

eight_lost : mactbl_find (mac_of 8) one ≡ none
unfolding mactbl_find mactbl_rbtree_find descend mac_cmp memcmp index_hash_calc reverse_bits
eight_lost = refl

seven_known : mactbl_find (mac_of 7) one ≡ some 0
unfolding mactbl_find mactbl_rbtree_find descend mac_cmp memcmp index_hash_calc reverse_bits
seven_known = refl

abbrev three : ℕ
three = 3

unset_zone_decides_example :
    ((three ≡ 0)
      × ((deliver_node three 0 80 (mac_of 8) (mac_of 7) frame one).freed ≡ one.freed + 1))
    ⊎ ((three ≢ 0) × ((deliver_node three 0 80 (mac_of 8) (mac_of 7) frame one).bug ≡ true))
unset_zone_decides_example =
    unset_zone_decides three 0 80 0 (mac_of 8) (mac_of 7) frame one eight_lost seven_known
      (λ e. absurd (omega arith)) (λ e. absurd (omega arith))

message-IsRead_example :
    (p : Skb) × (control_packet bare (zone 2) 2 (mac_of 7) 4 frame ≡ some p)
    × IsRead bare 2 (arrived p) (mac_of 7) 4 1
message-IsRead_example =
    message-IsRead bare bare (zone 2) 2 2 (mac_of 7) 4 frame refl (omega arith) refl
      (mac_of-IsAddr 7 (omega arith)) (omega arith) (omega arith)

-- A gateway whose tries are used up.
abbrev tired : Gw
tired = record bare { nh_mac_tmr = record timed { try = 6 } }

slow_scan_idle_example :
    ((slow_rounds sixty tired).zones ≡ tired.zones)
    × ((slow_rounds sixty tired).resolving ≡ tired.resolving)
slow_scan_idle_example = slow_scan_idle tired refl (omega arith) sixty
