-- ===== src/Index.antt =====
-- The tree of link tags (modttpoe/tags.c, the ttp_rbtree_tag_ functions). A node is the number of a
-- tag in the tables; its key is read from the tag each time, as in the code. The rotations of the
-- kernel's rb_insert_color are the argument `balance`.
pub mod Order
pub mod Lookup
use Prim.Native.Nat.{compare, Ordering}
use ttpoe.Common.{ℕ, Option, none, some, List, [], ◌∷◌, ◌++◌}

pub data Tree : Type 0 where
  leaf : Tree
  node : Tree → ℕ → Tree → Tree

-- The tags of a tree from the left to the right.
abbrev pub slots : Tree → List ℕ
slots leaf = []
slots (node l s r) = slots l ++ (s ∷ slots r)

-- `ttp_rbtree_tag_key_cmp`: -1, 0 or 1.
abbrev pub key_cmp : ℕ → ℕ → Ordering
key_cmp k1 k2 = compare k1 k2

-- The descent of the three functions: to the left where the node's key is the smaller one.
unfoldable pub tag_get : (ℕ → ℕ) → ℕ → Tree → Option ℕ
tag_get key k leaf = none
tag_get key k (node l s r) = elim (key_cmp (key s) k) [
  | Ordering.lt ↦ tag_get key k l
  | Ordering.gt ↦ tag_get key k r
  | Ordering.eq ↦ some s
]

-- The tree with `new` linked where the descent ends, unchanged where the key is there already.
unfoldable pub link : (ℕ → ℕ) → ℕ → Tree → Tree
link key new leaf = node leaf new leaf
link key new (node l s r) = elim (key_cmp (key s) (key new)) [
  | Ordering.lt ↦ node (link key new l) s r
  | Ordering.gt ↦ node l s (link key new r)
  | Ordering.eq ↦ node l s r
]

unfoldable pub tag_add : (Tree → Tree) → (ℕ → ℕ) → ℕ → Tree → Tree
unfolding tag_get link
tag_add balance key new t = elim (tag_get key (key new) t) [
  | none ↦ balance (link key new t)
  | some s ↦ t
]
