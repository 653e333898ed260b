-- ===== src/Gateway/Control.antt =====
-- Learning and forgetting addresses (ttp_mactbl_add, ttp_mactbl_del, ttp_gw_local_mac_learn and
-- ttp_gw_ctl_recv in modttpip/ttpip.c).
use ttpoe.Common.{ℕ, ◌+◌, Bool, true, false, Option, none, some, ◌==◌, ◌||◌, if◌then◌else◌}
use ttpoe.Frame.{Bytes, is_valid_ether_addr}
use ttpoe.Gateway.{
  Gw, Errno, success, eexist, einval, enomem, local_add, local_del, remote_add, remote_del,
  gateway_add, gateway_slf, zone_valid, with_entry, gw_bug,
}
use ttpoe.Gateway.Table.{mactbl_rbtree_add, mactbl_rbtree_del}
use ttpoe.Gateway.Packet.{gw_ctl_send}

-- What an opcode makes of the entry.
unfoldable pub apply_opcode : ℕ → Bytes → ℕ → Gw → Gw
unfolding gw_ctl_send
apply_opcode oc mac s g =
    if oc == local_add
    then with_entry s (λ e. record e { rem = false }) (gw_ctl_send mac remote_add g)
    else if oc == gateway_slf
    then with_entry s (λ e. record e { gwf = true; prm = true }) g
    else if oc == gateway_add
    then with_entry s (λ e. record e { gwf = true; rem = true }) g
    else if oc == remote_add
    then with_entry s (λ e. record e { rem = true }) g
    else gw_bug g

-- The end of `ttp_mactbl_add`: a new entry gets its zone, an old one keeps it.
unfoldable pub settle : ℕ → ℕ → Gw → Gw × Errno
unfolding zone_valid
settle zn s g =
    let g1 = with_entry s (λ e. record e { age = 0 }) g in
    if zone_valid g1 (g1.entries s).zon
    then (g1, eexist)
    else (with_entry s (λ e. record e { zon = zn }) g1, success)

-- `ttp_mactbl_add`; `none` is the null pointer.
unfoldable pub mactbl_add : ℕ → Option Bytes → ℕ → Gw → Gw × Errno
unfolding zone_valid mactbl_rbtree_add apply_opcode settle
mactbl_add zn none oc g = (g, einval)
mactbl_add zn (some mac) oc g =
    let (g1, node) = mactbl_rbtree_add mac g in
    let added : Gw × Errno = elim node [
      | none ↦ (g1, enomem)
      | some s ↦ settle zn s (apply_opcode oc mac s g1)
    ] in
    if zone_valid g zn then if is_valid_ether_addr mac then added else (g, einval) else (g, einval)

-- `ttp_mactbl_del`.
unfoldable pub mactbl_del : Option Bytes → ℕ → Gw → Gw × Bool
unfolding mactbl_rbtree_del
mactbl_del none oc g = (g, false)
mactbl_del (some mac) oc g =
    if is_valid_ether_addr mac
    then mactbl_rbtree_del mac (if (oc == local_del) || (oc == remote_del) then g else gw_bug g)
    else (g, false)

-- `ttp_gw_local_mac_learn`; its result is printed only.
unfoldable pub gw_local_mac_learn : Bytes → Gw → Gw
unfolding mactbl_add
gw_local_mac_learn mac g = (mactbl_add g.myzn (some mac) local_add g).0

-- `ttp_gw_ctl_recv` of the message behind the shim header at address `t`.
unfoldable pub gw_ctl_recv : Bytes → ℕ → Bytes → Gw → Gw
unfolding mactbl_add mactbl_del zone_valid
gw_ctl_recv mac t b g =
    let oc = b (t + 8) in
    let zn = b (t + 9) in
    if zone_valid g zn
    then if oc == remote_del
      then (mactbl_del (some mac) remote_del g).0
      else if (oc == remote_add) || (oc == gateway_add)
      then (mactbl_add zn (some mac) oc g).0
      else g
    else (mactbl_del (some mac) remote_del g).0
