-- ===== src/Gateway/Table/Laws.antt =====
-- The table holds each address once, never more than 256 nodes, and a node that was added is found.

use ttpoe.Common.{
  ℕ, ◌+◌, ◌<◌, ◌≤◌, ◌≡◌, inl, inr, refl, sym, ap, ◌∙◌, subst, Bool, true, false, Option, none, some,
  List, [], ◌∷◌, length, ◌==◌, if◌then◌else◌, arith, Bool-cases, inc32, ==_iff,
}
use ttpoe.Frame.{Bytes}
use ttpoe.Index.{slots}
use ttpoe.Index.Order.{
  All, IsFalling, find, insert, insert-IsFalling, find-insert, IsFalling-cong, find-cong, All-map,
}
use ttpoe.Index.Lookup.{KeepsOrder, tag_get-find}
use ttpoe.Gateway.{Gw, MacEntry, mac_table_size}
use ttpoe.Gateway.Mac.Equal.{mac_key-equal}
use ttpoe.Gateway.Mac.{ether_addr_equal, descend, link_mac}
use ttpoe.Gateway.Mac.Order.{IsAddr, mac_key, descend-tag_get, link_mac-link, link_mac-cong}
use ttpoe.Index.Lookup.{slots-link}
use ttpoe.Gateway.Table.{macs, no_entry, new_node, mactbl_rbtree_find}

-- The table is in order by its addresses, which are bytes, its nodes are known and their number is kept.
pub record IsTable (g : Gw) : Type 0 where
  pub addrs : (s : ℕ) → IsAddr (macs g s)
  pub order : IsFalling (λ s. mac_key (macs g s)) (slots g.rbroot)
  pub known : All (λ s. s < g.next_alloc) (slots g.rbroot)
  pub count : g.mactbl_ct ≡ length (slots g.rbroot)
  pub small : g.mactbl_ct ≤ mac_table_size

-- The keys as the table's nodes have them.
abbrev pub keys : Gw → ℕ → ℕ
keys g s = mac_key (macs g s)

-- The first node with an address, in a row.
pub descend-find :
    (g : Gw) (m : Bytes)
    → IsTable g
    → IsAddr m
    → descend (macs g) m g.rbroot ≡ find (keys g) (mac_key m) (slots g.rbroot)
descend-find g m h a =
    descend-tag_get (macs g) h.addrs m g.rbroot a
    ∙ tag_get-find (keys g) (mac_key m) g.rbroot h.order

module _ (P : ℕ → Type 0) (key : ℕ → ℕ) where
  All-insert : (s : ℕ) (xs : List ℕ) → P s → All P xs → All P (insert key s xs)
  All-insert s [] p h = (p, tt)
  All-insert s (x ∷ xs) p h = ground (arith, All-insert s xs p h.1)

length-insert :
    (key : ℕ → ℕ) (s : ℕ) (xs : List ℕ)
    → find key (key s) xs ≡ none
    → length (insert key s xs) ≡ length xs + 1
length-insert key s [] e = refl
length-insert key s (x ∷ xs) e = ground (arith, length-insert key s xs)

pub mac_if : (b : Bool) (x y : MacEntry) → (if b then x else y).mac ≡ (if b then x.mac else y.mac)
mac_if true x y = refl
mac_if false x y = refl

-- What a node that is new in the table changes.
module _ (g : Gw) (m : Bytes) (h : IsTable g) (a : IsAddr m) (keeps : KeepsOrder g.kernel.balance)
    (absent : descend (macs g) m g.rbroot ≡ none) where
  macs-new_node : (s : ℕ) → macs (new_node m g) s ≡ (if g.next_alloc == s then m else macs g s)
  macs-new_node s =
      mac_if (g.next_alloc == s) (record no_entry { vld = true; mac = m }) (g.entries s)

  here : (s : ℕ) → (g.next_alloc == s) ≡ true → macs (new_node m g) s ≡ m
  here s e = macs-new_node s ∙ (rw e refl)

  other_mac : (s : ℕ) → (g.next_alloc == s) ≡ false → macs (new_node m g) s ≡ macs g s
  other_mac s e = macs-new_node s ∙ (rw e refl)

  pub new_mac : macs (new_node m g) g.next_alloc ≡ m
  new_mac =
      macs-new_node g.next_alloc
      ∙ ap (λ b. if b then m else macs g g.next_alloc) ((==_iff g.next_alloc g.next_alloc).1 refl)

  new_addrs : (s : ℕ) → IsAddr (macs (new_node m g) s)
  new_addrs s i = elim (Bool-cases (g.next_alloc == s)) [
    | inl e ↦ subst (λ (x : Bytes). x i < 256) (sym (here s e)) (a i)
    | inr e ↦ subst (λ (x : Bytes). x i < 256) (sym (other_mac s e)) (h.addrs s i)
  ]

  same_macs : All (λ s. macs g s ≡ macs (new_node m g) s) (slots g.rbroot)
  same_macs = All-map _ (slots g.rbroot) (λ s l. sym (other_mac s (ground arith))) h.known

  same_keys : All (λ s. keys g s ≡ keys (new_node m g) s) (slots g.rbroot)
  same_keys = All-map _ (slots g.rbroot) (λ s e. ap mac_key e) same_macs

  old_order : IsFalling (keys (new_node m g)) (slots g.rbroot)
  old_order = IsFalling-cong (keys g) (keys (new_node m g)) (slots g.rbroot) same_keys h.order

  new_slots :
      slots (new_node m g).rbroot ≡ insert (keys (new_node m g)) g.next_alloc (slots g.rbroot)
  new_slots =
      keeps (link_mac (macs g) m g.next_alloc g.rbroot)
      ∙ ap slots (
          link_mac-cong (macs g) (macs (new_node m g)) m g.next_alloc g.rbroot same_macs
          ∙ link_mac-link (macs (new_node m g)) new_addrs m g.next_alloc g.rbroot a new_mac)
      ∙ slots-link (keys (new_node m g)) g.next_alloc g.rbroot old_order

  not_found : find (keys (new_node m g)) (keys (new_node m g) g.next_alloc) (slots g.rbroot) ≡ none
  not_found =
      ap (λ k. find (keys (new_node m g)) k (slots g.rbroot)) (ap mac_key new_mac)
      ∙ sym (find-cong (keys g) (keys (new_node m g)) (mac_key m) (slots g.rbroot) same_keys)
      ∙ sym (descend-find g m h a)
      ∙ absent

  new_length : length (slots (new_node m g).rbroot) ≡ length (slots g.rbroot) + 1
  new_length =
      ap length new_slots
      ∙ length-insert (keys (new_node m g)) g.next_alloc (slots g.rbroot) not_found

  new_count :
      g.mactbl_ct < mac_table_size → (new_node m g).mactbl_ct ≡ length (slots (new_node m g).rbroot)
  new_count room =
      let e : inc32 g.mactbl_ct ≡ length (slots g.rbroot) + 1 = omega (arith, h.count) in
      e ∙ sym new_length

  pub new_node-IsTable : g.mactbl_ct < mac_table_size → IsTable (new_node m g)
  new_node-IsTable room = record {
    addrs = new_addrs;
    order =
        subst (IsFalling (keys (new_node m g))) (sym new_slots)
          (insert-IsFalling (keys (new_node m g)) g.next_alloc (slots g.rbroot) old_order);
    known = subst (All (λ s. s < g.next_alloc + 1)) (sym new_slots) (
        All-insert _ (keys (new_node m g)) g.next_alloc (slots g.rbroot) (omega arith)
          (All-map _ (slots g.rbroot) (λ s l. omega arith) h.known));
    count = new_count room;
    small = omega arith;
  }

  pub descend-new_node :
      (q : Bytes)
      → g.mactbl_ct < mac_table_size
      → IsAddr q
      → descend (macs (new_node m g)) q (new_node m g).rbroot
        ≡ (if ether_addr_equal m q then some g.next_alloc else descend (macs g) q g.rbroot)
  descend-new_node q room b =
      descend-find (new_node m g) q (new_node-IsTable room) b
      ∙ ap (find (keys (new_node m g)) (mac_key q)) new_slots
      ∙ find-insert (keys (new_node m g)) g.next_alloc (mac_key q) (slots g.rbroot) not_found
      ∙ ap (λ (x : Bool). if x then some g.next_alloc else rest) same
      ∙ ap (λ o. if ether_addr_equal m q then some g.next_alloc else o) old
    where
      rest : Option ℕ
      rest = find (keys (new_node m g)) (mac_key q) (slots g.rbroot)

      same : (keys (new_node m g) g.next_alloc == mac_key q) ≡ ether_addr_equal m q
      same = ap (λ x. mac_key x == mac_key q) new_mac ∙ mac_key-equal m q a b

      old : rest ≡ descend (macs g) q g.rbroot
      old =
          sym (find-cong (keys g) (keys (new_node m g)) (mac_key q) (slots g.rbroot) same_keys)
          ∙ sym (descend-find g q h b)

-- One address in other bytes is found alike.
pub descend_same :
    (g : Gw) (m q : Bytes)
    → IsTable g
    → IsAddr m
    → IsAddr q
    → ether_addr_equal m q ≡ true
    → descend (macs g) q g.rbroot ≡ descend (macs g) m g.rbroot
descend_same g m q h a b e =
    descend-find g q h b
    ∙ ap (λ k. find (keys g) k (slots g.rbroot))
        (sym ((==_iff (mac_key m) (mac_key q)).0 (mac_key-equal m q a b ∙ e)))
    ∙ sym (descend-find g m h a)

-- A lookup while the mutex is free.
pub find_free :
    (q : Bytes) (g : Gw)
    → g.mutx_busy ≡ false
    → mactbl_rbtree_find q g ≡ descend (macs g) q g.rbroot
unfolding mactbl_rbtree_find
find_free q g free = ap (λ b. if b then none else descend (macs g) q g.rbroot) free
