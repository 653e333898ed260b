-- ===== src/Gateway/Table.antt =====
-- The gateway's table of addresses (ttp_mactbl_rbtree_add, _del and _find and ttp_mactbl_find in
-- modttpip/ttpip.c).
pub mod Laws
pub mod Add
pub mod Erase
use ttpoe.Common.{
  ℕ, ◌+◌, Bool, true, false, Option, none, some, leb, if◌then◌else◌, update, inc32, dec32,
}
use ttpoe.Frame.{Bytes, is_valid_ether_addr}
use ttpoe.Gateway.{Gw, MacEntry, mac_table_size, with_entry}
use ttpoe.Gateway.Mac.{descend, link_mac}

abbrev pub macs : Gw → ℕ → Bytes
macs g s = (g.entries s).mac

-- What kzalloc gives.
abbrev pub no_entry : MacEntry
no_entry = record {
  zon = 0;
  age = 0;
  mac = λ i. 0;
  vld = false;
  rem = false;
  gwf = false;
  prm = false;
  rx_byt = 0;
  rx_frm = 0;
  tx_byt = 0;
  tx_frm = 0;
}

-- A node that is new in the tree, with its address.
abbrev pub new_node : Bytes → Gw → Gw
new_node m g = record g {
  entries = update g.entries g.next_alloc (record no_entry { vld = true; mac = m });
  rbroot = g.kernel.balance (link_mac (macs g) m g.next_alloc g.rbroot);
  mactbl_ct = inc32 g.mactbl_ct;
  next_alloc = g.next_alloc + 1;
}

-- `ttp_mactbl_rbtree_add`: the node of the address, valid again, or a new one where the table and the memory
-- have room.
unfoldable pub mactbl_rbtree_add : Bytes → Gw → Gw × Option ℕ
mactbl_rbtree_add m g =
    let fresh : Gw × Option ℕ =
      if leb mac_table_size g.mactbl_ct
      then (g, none)
      else if g.kernel.alloc_ok g.next_alloc
      then (new_node m g, some g.next_alloc)
      else (record g { next_alloc = g.next_alloc + 1 }, none) in
    let found : Gw × Option ℕ = elim (descend (macs g) m g.rbroot) [
      | some s ↦ (with_entry s (λ e. record e { vld = true }) g, some s)
      | none ↦ fresh
    ] in
    if g.mutx_busy then (g, none) else found

-- `ttp_mactbl_rbtree_del`.
unfoldable pub mactbl_rbtree_del : Bytes → Gw → Gw × Bool
mactbl_rbtree_del m g =
    let found : Gw × Bool = elim (descend (macs g) m g.rbroot) [
      | some s ↦
          (record g { mactbl_ct = dec32 g.mactbl_ct; rbroot = g.net.rb_erase s g.rbroot }, true)
      | none ↦ (g, false)
    ] in
    if g.mutx_busy then (g, false) else found

-- `ttp_mactbl_rbtree_find`: valid or not.
unfoldable pub mactbl_rbtree_find : Bytes → Gw → Option ℕ
mactbl_rbtree_find m g = if g.mutx_busy then none else descend (macs g) m g.rbroot

-- `ttp_mactbl_find`.
unfoldable pub mactbl_find : Bytes → Gw → Option ℕ
unfolding mactbl_rbtree_find
mactbl_find m g = if is_valid_ether_addr m then mactbl_rbtree_find m g else none
