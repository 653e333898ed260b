-- ===== src/Gateway/Mac.antt =====
-- The order of addresses in the gateway's table (ttp_mactbl_rbtree_cmp in modttpip/ttpip.c), and the
-- descents of the tree by it.
pub mod Order
pub mod Equal
use Prim.Native.Nat.{compare, Ordering}
use ttpoe.Common.{Bool, ◌&&◌, ◌==◌, ℕ, zero, suc, ◌+◌, ◌-◌, ◌*◌, ◌^◌, Option, none, some}
use ttpoe.Key.{index_hash_calc}
use ttpoe.Frame.{Bytes}
use ttpoe.Index.{Tree, leaf, node}

-- memcmp of `n` bytes from the i-th on.
unfoldable pub memcmp : ℕ → ℕ → Bytes → Bytes → Ordering
memcmp zero i a b = Ordering.eq
memcmp (suc n) i a b =
    let rest = memcmp n (i + 1) a b in
    elim (compare (a i) (b i)) [
      | Ordering.lt ↦ Ordering.lt
      | Ordering.gt ↦ Ordering.gt
      | Ordering.eq ↦ rest
    ]

-- A comparison turned round, and what decides where it is even.
abbrev pub turned : Ordering → Ordering → Ordering
turned Ordering.lt o = Ordering.gt
turned Ordering.gt o = Ordering.lt
turned Ordering.eq o = o

-- `ttp_mactbl_rbtree_cmp`; `none` is the null pointer. Larger hashes come first.
unfoldable pub mac_cmp : Option Bytes → Option Bytes → Ordering
unfolding memcmp
mac_cmp none none = Ordering.eq
mac_cmp none (some m2) = Ordering.lt
mac_cmp (some m1) none = Ordering.gt
mac_cmp (some m1) (some m2) =
    turned (compare (index_hash_calc m1) (index_hash_calc m2)) (memcmp 6 0 m1 m2)

-- The descent that `ttp_mactbl_rbtree_add`, `_del` and `_find` share: the node with an address.
unfoldable pub descend : (ℕ → Bytes) → Bytes → Tree → Option ℕ
descend macs m leaf = none
descend macs m (node l s r) = elim (mac_cmp (some (macs s)) (some m)) [
  | Ordering.lt ↦ descend macs m l
  | Ordering.gt ↦ descend macs m r
  | Ordering.eq ↦ some s
]

-- The tree with `new` linked where the descent for its address ends.
unfoldable pub link_mac : (ℕ → Bytes) → Bytes → ℕ → Tree → Tree
link_mac macs m new leaf = node leaf new leaf
link_mac macs m new (node l s r) = elim (mac_cmp (some (macs s)) (some m)) [
  | Ordering.lt ↦ node (link_mac macs m new l) s r
  | Ordering.gt ↦ node l s (link_mac macs m new r)
  | Ordering.eq ↦ node l s r
]

-- `ether_addr_equal`: the same six bytes.
abbrev pub ether_addr_equal : Bytes → Bytes → Bool
ether_addr_equal a b =
    (a 0 == b 0) && (a 1 == b 1) && (a 2 == b 2) && (a 3 == b 3) && (a 4 == b 4) && (a 5 == b 5)
