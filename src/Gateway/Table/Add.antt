-- ===== src/Gateway/Table/Add.antt =====
-- What adding an address to the table gives, on each of its ways.
use ttpoe.Common.{
  ℕ, ◌+◌, ◌<◌, ◌≤◌, ◌≡◌, ◌⊎◌, inl, inr, refl, sym, ap, ◌∙◌, subst, fun_ext, true, false, Option,
  none, some, ◌==◌, if◌then◌else◌, arith, Bool-cases, ==_iff, Option-cases, leb,
}
use ttpoe.Frame.{Bytes}
use ttpoe.Index.{slots}
use ttpoe.Index.Order.{IsFalling, All-map}
use ttpoe.Index.Lookup.{KeepsOrder}
use ttpoe.Gateway.{Gw, MacEntry, mac_table_size, with_entry}
use ttpoe.Gateway.Mac.{descend, ether_addr_equal}
use ttpoe.Gateway.Mac.Order.{IsAddr, mac_key}
use ttpoe.Gateway.Table.{macs, no_entry, new_node, mactbl_rbtree_add, mactbl_rbtree_find}
use ttpoe.Gateway.Table.Laws.{
  IsTable, mac_if, descend_same, find_free, new_node-IsTable, descend-new_node,
}

-- A change of an entry that leaves its address alone leaves the table as it was.
module _ (g : Gw) (s : ℕ) (f : MacEntry → MacEntry)
    (same : (f (g.entries s)).mac ≡ (g.entries s).mac) where
  pub macs-with_entry : macs (with_entry s f g) ≡ macs g
  macs-with_entry =
      fun_ext λ x. mac_if (s == x) (f (g.entries s)) (g.entries x) ∙ go x (Bool-cases (s == x))
    where
      go :
          (x : ℕ)
          → ((s == x) ≡ true) ⊎ ((s == x) ≡ false)
          → (if s == x then (f (g.entries s)).mac else macs g x) ≡ macs g x
      go x (inl e) = rw e (same ∙ ap (macs g) ((==_iff s x).0 e))
      go x (inr e) = rw e refl

  pub with_entry-IsTable : IsTable g → IsTable (with_entry s f g)
  with_entry-IsTable h = record {
    addrs = λ x. subst (λ (a : ℕ → Bytes). IsAddr (a x)) (sym macs-with_entry) (h.addrs x);
    order =
        subst (λ (a : ℕ → Bytes). IsFalling (λ x. mac_key (a x)) (slots g.rbroot))
          (sym macs-with_entry) h.order;
    known = h.known;
    count = h.count;
    small = h.small;
  }

-- Where the address is found already.
add_found :
    (m : Bytes) (g : Gw) (s : ℕ)
    → g.mutx_busy ≡ false
    → descend (macs g) m g.rbroot ≡ some s
    → mactbl_rbtree_add m g ≡ (with_entry s (λ e. record e { vld = true }) g, some s)
add_found m g s free e = unfold mactbl_rbtree_add in simp (free, e)

add_new :
    (m : Bytes) (g : Gw)
    → g.mutx_busy ≡ false
    → descend (macs g) m g.rbroot ≡ none
    → g.mactbl_ct < mac_table_size
    → g.kernel.alloc_ok g.next_alloc ≡ true
    → mactbl_rbtree_add m g ≡ (new_node m g, some g.next_alloc)
add_new m g free e room ok =
    let r : leb mac_table_size g.mactbl_ct ≡ false = ground arith in
    unfold mactbl_rbtree_add in simp (free, e, r, ok)

add_full :
    (m : Bytes) (g : Gw)
    → g.mutx_busy ≡ false
    → descend (macs g) m g.rbroot ≡ none
    → mac_table_size ≤ g.mactbl_ct
    → mactbl_rbtree_add m g ≡ (g, none)
add_full m g free e full =
    let r : leb mac_table_size g.mactbl_ct ≡ true = ground arith in
    unfold mactbl_rbtree_add in simp (free, e, r)

add_denied :
    (m : Bytes) (g : Gw)
    → g.mutx_busy ≡ false
    → descend (macs g) m g.rbroot ≡ none
    → g.mactbl_ct < mac_table_size
    → g.kernel.alloc_ok g.next_alloc ≡ false
    → mactbl_rbtree_add m g ≡ (record g { next_alloc = g.next_alloc + 1 }, none)
add_denied m g free e room denied =
    let r : leb mac_table_size g.mactbl_ct ≡ false = ground arith in
    unfold mactbl_rbtree_add in simp (free, e, r, denied)

-- The table `g'` has the address under the node `s`, valid, and finds every other address as `g` did.
abbrev IsAdded : Bytes → Gw → ℕ → Gw → Type 0
IsAdded m g s g' =
    ((g'.entries s).vld ≡ true)
    × ((q : Bytes)
        → IsAddr q
        → mactbl_rbtree_find q g'
          ≡ (if ether_addr_equal m q then some s else mactbl_rbtree_find q g))

-- The address was not there, there is no room or no memory, and everything is found as before.
abbrev IsRefused : Bytes → Gw → Gw → Type 0
IsRefused m g g' =
    (mactbl_rbtree_find m g ≡ none)
    × ((mac_table_size ≤ g.mactbl_ct) ⊎ (g.kernel.alloc_ok g.next_alloc ≡ false))
    × ((q : Bytes) → mactbl_rbtree_find q g' ≡ mactbl_rbtree_find q g)

abbrev AddedAll : Bytes → Gw → Gw × Option ℕ → Type 0
AddedAll m g r =
    IsTable r.0
    × (((s : ℕ) × (r.1 ≡ some s) × IsAdded m g s r.0) ⊎ ((r.1 ≡ none) × IsRefused m g r.0))

IsAdded-found :
    (m : Bytes) (g : Gw) (s : ℕ)
    → IsTable g
    → IsAddr m
    → g.mutx_busy ≡ false
    → descend (macs g) m g.rbroot ≡ some s
    → IsAdded m g s (with_entry s (λ e. record e { vld = true }) g)
IsAdded-found m g s h a free e = (
  ap (λ b. (if b then record (g.entries s) { vld = true } else g.entries s).vld)
      ((==_iff s s).1 refl),
  λ q b.
      find_free q (with_entry s (λ x. record x { vld = true }) g) free
      ∙ ap (λ f. descend f q g.rbroot) (macs-with_entry g s (λ x. record x { vld = true }) refl)
      ∙ go q b (Bool-cases (ether_addr_equal m q)),
)
  where
    go :
        (q : Bytes)
        → IsAddr q
        → (ether_addr_equal m q ≡ true) ⊎ (ether_addr_equal m q ≡ false)
        → descend (macs g) q g.rbroot
          ≡ (if ether_addr_equal m q then some s else mactbl_rbtree_find q g)
    go q b (inl t) =
        descend_same g m q h a b t
        ∙ e
        ∙ ap (λ c. if c then some s else mactbl_rbtree_find q g) (sym t)
    go q b (inr t) =
        sym (find_free q g free) ∙ ap (λ c. if c then some s else mactbl_rbtree_find q g) (sym t)

IsAdded-new_node :
    (m : Bytes) (g : Gw)
    → IsTable g
    → IsAddr m
    → KeepsOrder g.kernel.balance
    → g.mutx_busy ≡ false
    → descend (macs g) m g.rbroot ≡ none
    → g.mactbl_ct < mac_table_size
    → IsAdded m g g.next_alloc (new_node m g)
IsAdded-new_node m g h a keeps free e room = (
  ap (λ b. (if b then record no_entry { vld = true; mac = m } else g.entries g.next_alloc).vld)
      ((==_iff g.next_alloc g.next_alloc).1 refl),
  λ q b.
      find_free q (new_node m g) free
      ∙ descend-new_node g m h a keeps e q room b
      ∙ ap (λ o. if ether_addr_equal m q then some g.next_alloc else o) (sym (find_free q g free)),
)

mactbl_rbtree_add_all :
    (m : Bytes) (g : Gw)
    → IsTable g
    → IsAddr m
    → KeepsOrder g.kernel.balance
    → g.mutx_busy ≡ false
    → AddedAll m g (mactbl_rbtree_add m g)
mactbl_rbtree_add_all m g h a keeps free = elim (Option-cases (descend (macs g) m g.rbroot)) [
  | inr (s, e) ↦ subst (AddedAll m g) (sym (add_found m g s free e)) (
    with_entry-IsTable g s (λ x. record x { vld = true }) refl h,
    inl (s, refl, IsAdded-found m g s h a free e),
  )
  | inl e ↦ elim (Bool-cases (leb mac_table_size g.mactbl_ct)) [
    | inl full ↦
        let over : mac_table_size ≤ g.mactbl_ct = ground arith in
        subst (AddedAll m g) (sym (add_full m g free e over))
          (h, inr (refl, (find_free m g free ∙ e, inl over, λ q. refl)))
    | inr room ↦
        let under : g.mactbl_ct < mac_table_size = ground arith in
        elim (Bool-cases (g.kernel.alloc_ok g.next_alloc)) [
          | inl ok ↦ subst (AddedAll m g) (sym (add_new m g free e under ok)) (
            new_node-IsTable g m h a keeps e under,
            inl (g.next_alloc, refl, IsAdded-new_node m g h a keeps free e under),
          )
          | inr denied ↦ subst (AddedAll m g) (sym (add_denied m g free e under denied)) (
            denied-IsTable,
            inr (
              refl,
              (
                find_free m g free ∙ e,
                inr denied,
                λ q.
                    find_free q (record g { next_alloc = g.next_alloc + 1 }) free
                    ∙ sym (find_free q g free),
              ),
            ),
          )
        ]
  ]
]
  where
    denied-IsTable : IsTable (record g { next_alloc = g.next_alloc + 1 })
    denied-IsTable = record {
      addrs = h.addrs;
      order = h.order;
      known = All-map _ (slots g.rbroot) (λ s l. omega arith) h.known;
      count = h.count;
      small = h.small;
    }

-- The table after an addition, and what is found under an address `q`.
abbrev pub AddOutcome : Bytes → Bytes → Gw → Gw × Option ℕ → Type 0
AddOutcome m q g r =
    IsTable r.0
    × (((s : ℕ) × (r.1 ≡ some s)
          × ((r.0.entries s).vld ≡ true)
          × (mactbl_rbtree_find q r.0
              ≡ (if ether_addr_equal m q then some s else mactbl_rbtree_find q g)))
        ⊎ ((r.1 ≡ none)
            × (mactbl_rbtree_find m g ≡ none)
            × ((mac_table_size ≤ g.mactbl_ct) ⊎ (g.kernel.alloc_ok g.next_alloc ≡ false))
            × (mactbl_rbtree_find q r.0 ≡ mactbl_rbtree_find q g)))

-- An address is added to a table in order, of addresses of bytes, with a free mutex and rotations that keep the
-- order of the nodes: the table stays in order, with as many nodes as are counted and at most 256, and either
-- the address is found from then on, under a valid node, and every other address as before, or the address was
-- not there, the table is full or the memory denied, and every address is found as before.
pub mactbl_rbtree_add_outcome :
    (m q : Bytes) (g : Gw)
    → IsTable g
    → IsAddr m
    → IsAddr q
    → KeepsOrder g.kernel.balance
    → g.mutx_busy ≡ false
    → AddOutcome m q g (mactbl_rbtree_add m g)
mactbl_rbtree_add_outcome m q g h a b keeps free =
    let r = mactbl_rbtree_add_all m g h a keeps free in
    (
      r.0,
      elim r.1 [ inl (s, e, p) ↦ inl (s, e, p.0, p.1 q b) | inr (e, p) ↦ inr (e, p.0, p.1, p.2 q) ],
    )
