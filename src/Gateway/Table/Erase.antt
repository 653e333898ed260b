-- ===== src/Gateway/Table/Erase.antt =====
-- What deleting an address from the table gives.
use ttpoe.Common.{
  ℕ, ◌+◌, ◌<◌, ◌≡◌, ◌≢◌, ◌⊎◌, inl, inr, sym, ap, ◌∙◌, subst, Bool, true, false, none, some, ◌==◌,
  ==_iff, if◌then◌else◌, arith, Bool-cases, Option-cases, List, [], ◌∷◌, length, dec32,
}
use ttpoe.Frame.{Bytes}
use ttpoe.Index.{Tree, slots}
use ttpoe.Index.Order.{All, IsFalling, find, find-none_below}
use ttpoe.Gateway.{Gw}
use ttpoe.Gateway.Mac.{descend, ether_addr_equal}
use ttpoe.Gateway.Mac.Order.{IsAddr, mac_key}
use ttpoe.Gateway.Mac.Equal.{mac_key-equal}
use ttpoe.Gateway.Table.{macs, mactbl_rbtree_del, mactbl_rbtree_find}
use ttpoe.Gateway.Table.Laws.{IsTable, keys, descend-find, descend_same, find_free}
use ttpoe.World.Access.{is_some}

-- The nodes without one of them.
abbrev pub without : ℕ → List ℕ → List ℕ
without s [] = []
without s (x ∷ xs) = if x == s then xs else x ∷ without s xs

-- rb_erase takes the node out and keeps the order of the others.
abbrev pub IsErase : (ℕ → Tree → Tree) → Type 0
IsErase erase = (s : ℕ) (t : Tree) → slots (erase s t) ≡ without s (slots t)

All-without : (P : ℕ → Type 0) (s : ℕ) (xs : List ℕ) → All P xs → All P (without s xs)
All-without P s [] h = tt
All-without P s (x ∷ xs) h = elim (Bool-cases (x == s)) [
  | inl e ↦ rw e h.1
  | inr e ↦ rw e (h.0, All-without _ s xs h.1)
]

module _ (key : ℕ → ℕ) where
  without-IsFalling : (s : ℕ) (xs : List ℕ) → IsFalling key xs → IsFalling key (without s xs)
  without-IsFalling s [] h = tt
  without-IsFalling s (x ∷ xs) h = elim (Bool-cases (x == s)) [
    | inl e ↦ rw e h.1
    | inr e ↦ rw e (All-without _ s xs h.0, without-IsFalling s xs h.1)
  ]

  find-key : (k s : ℕ) (xs : List ℕ) → find key k xs ≡ some s → key s ≡ k
  find-key k s [] e = absurd cc
  find-key k s (x ∷ xs) e = ground (arith, find-key k s xs)

  -- The node found is the first of the list, or one of the others.
  pub find-split :
      (k s x : ℕ) (xs : List ℕ)
      → find key k (x ∷ xs) ≡ some s
      → ((x ≡ s) × (key x ≡ k)) ⊎ ((x ≢ s) × (key x ≢ k) × (find key k xs ≡ some s))
  find-split k s x xs e = elim (Bool-cases (key x == k)) [
    | inl t ↦ inl (ground arith, (==_iff (key x) k).0 t)
    | inr t ↦
        let rest : find key k xs ≡ some s =
          sym (ap (λ b. if b then some x else find key k xs) t) ∙ e in
        let apart : key x ≢ k = ground arith in
        inr (λ p. apart (ap key p ∙ find-key k s xs rest), apart, rest)
  ]

  none_below :
      (k x q : ℕ) (xs : List ℕ)
      → key x ≡ k
      → k ≡ q
      → All (λ y. key y < key x) xs
      → find key q xs ≡ none
  none_below k x q xs e f h =
      find-none_below key q xs (subst (λ n. All (λ y. key y < n) xs) (e ∙ f) h)

  find-without :
      (s k q : ℕ) (xs : List ℕ)
      → IsFalling key xs
      → find key k xs ≡ some s
      → find key q (without s xs) ≡ (if k == q then none else find key q xs)
  find-without s k q [] h e = absurd cc
  find-without s k q (x ∷ xs) h e = elim (find-split k s x xs e) [
    | inl p ↦ ground (arith, none_below k x q xs p.1, h.0, p)
    | inr p ↦
        let rest = find-without s k q xs h.1 p.2 in
        let apart : (x == s) ≡ false = ground (arith, p.0) in rw apart (ground (arith, rest, p.1))
  ]

  length-without :
      (s k : ℕ) (xs : List ℕ) → find key k xs ≡ some s → length xs ≡ length (without s xs) + 1
  length-without s k [] e = absurd cc
  length-without s k (x ∷ xs) e = elim (find-split k s x xs e) [
    | inl p ↦ ground (arith, p.0)
    | inr p ↦
        let rest = length-without s k xs p.2 in
        let apart : (x == s) ≡ false = ground (arith, p.0) in rw apart (omega (arith, rest))
  ]

-- The table after a node was taken out.
abbrev pub erased : ℕ → Gw → Gw
erased s g = record g { mactbl_ct = dec32 g.mactbl_ct; rbroot = g.net.rb_erase s g.rbroot }

del_found :
    (m : Bytes) (g : Gw) (s : ℕ)
    → g.mutx_busy ≡ false
    → descend (macs g) m g.rbroot ≡ some s
    → mactbl_rbtree_del m g ≡ (erased s g, true)
del_found m g s free e = unfold mactbl_rbtree_del in simp (free, e)

del_absent :
    (m : Bytes) (g : Gw)
    → g.mutx_busy ≡ false
    → descend (macs g) m g.rbroot ≡ none
    → mactbl_rbtree_del m g ≡ (g, false)
del_absent m g free e = unfold mactbl_rbtree_del in simp (free, e)

module _ (g : Gw) (s : ℕ) (m : Bytes) (h : IsTable g) (a : IsAddr m)
    (erases : IsErase g.net.rb_erase)
    (e : find (keys g) (mac_key m) (slots g.rbroot) ≡ some s) where
  shorter : length (slots g.rbroot) ≡ length (slots (erased s g).rbroot) + 1
  shorter =
      length-without (keys g) s (mac_key m) (slots g.rbroot) e
      ∙ ap (λ xs. length xs + 1) (sym (erases s g.rbroot))

  erased-IsTable : IsTable (erased s g)
  erased-IsTable = record {
    addrs = h.addrs;
    order =
        subst (IsFalling (keys g)) (sym (erases s g.rbroot))
          (without-IsFalling (keys g) s (slots g.rbroot) h.order);
    known =
        subst (All (λ x. x < g.next_alloc)) (sym (erases s g.rbroot))
          (All-without _ s (slots g.rbroot) h.known);
    count = omega (arith, h.count, h.small, shorter);
    small = omega (arith, h.count, h.small, shorter);
  }

  descend-erased :
      (q : Bytes)
      → IsAddr q
      → descend (macs g) q (erased s g).rbroot
        ≡ (if ether_addr_equal m q then none else descend (macs g) q g.rbroot)
  descend-erased q b =
      descend-find (erased s g) q erased-IsTable b
      ∙ ap (find (keys g) (mac_key q)) (erases s g.rbroot)
      ∙ find-without (keys g) s (mac_key m) (mac_key q) (slots g.rbroot) h.order e
      ∙ ap (λ (x : Bool). if x then none else find (keys g) (mac_key q) (slots g.rbroot))
          (mac_key-equal m q a b)
      ∙ ap (λ o. if ether_addr_equal m q then none else o) (sym (descend-find g q h b))

-- Nothing is found under the address from then on, everything else as before.
abbrev ErasedAll : Bytes → Gw → Gw × Bool → Type 0
ErasedAll m g r =
    IsTable r.0
    × (r.1 ≡ is_some (mactbl_rbtree_find m g))
    × ((q : Bytes)
        → IsAddr q
        → mactbl_rbtree_find q r.0
          ≡ (if ether_addr_equal m q then none else mactbl_rbtree_find q g))

mactbl_rbtree_del_all :
    (m : Bytes) (g : Gw)
    → IsTable g
    → IsAddr m
    → IsErase g.net.rb_erase
    → g.mutx_busy ≡ false
    → ErasedAll m g (mactbl_rbtree_del m g)
mactbl_rbtree_del_all m g h a erases free = elim (Option-cases (descend (macs g) m g.rbroot)) [
  | inr (s, e) ↦ subst (ErasedAll m g) (sym (del_found m g s free e)) (
    erased-IsTable g s m h a erases (sym (descend-find g m h a) ∙ e),
    sym (ap is_some (find_free m g free ∙ e)),
    λ q b.
        find_free q (erased s g) free
        ∙ descend-erased g s m h a erases (sym (descend-find g m h a) ∙ e) q b
        ∙ ap (λ o. if ether_addr_equal m q then none else o) (sym (find_free q g free)),
  )
  | inl e ↦ subst (ErasedAll m g) (sym (del_absent m g free e)) (
    h,
    sym (ap is_some (find_free m g free ∙ e)),
    λ q b. gone e q b (Bool-cases (ether_addr_equal m q)),
  )
]
  where
    gone :
        descend (macs g) m g.rbroot ≡ none
        → (q : Bytes) → IsAddr q
        → (ether_addr_equal m q ≡ true) ⊎ (ether_addr_equal m q ≡ false)
        → mactbl_rbtree_find q g ≡ (if ether_addr_equal m q then none else mactbl_rbtree_find q g)
    gone e q b (inl t) =
        find_free q g free
        ∙ descend_same g m q h a b t
        ∙ e
        ∙ ap (λ c. if c then none else mactbl_rbtree_find q g) (sym t)
    gone e q b (inr t) = ap (λ c. if c then none else mactbl_rbtree_find q g) (sym t)

-- The table after a deletion, and what is found under an address `q`.
abbrev pub DelOutcome : Bytes → Bytes → Gw → Gw × Bool → Type 0
DelOutcome m q g r =
    IsTable r.0
    × (r.1 ≡ is_some (mactbl_rbtree_find m g))
    × (mactbl_rbtree_find q r.0 ≡ (if ether_addr_equal m q then none else mactbl_rbtree_find q g))

-- An address is deleted from a table in order, of addresses of bytes, with a free mutex and an rb_erase that takes
-- out the node and keeps the order of the others: the table stays in order and counted, it is reported whether the
-- address was there, which is not found from then on, and every other address is found as before.
pub mactbl_rbtree_del_outcome :
    (m q : Bytes) (g : Gw)
    → IsTable g
    → IsAddr m
    → IsAddr q
    → IsErase g.net.rb_erase
    → g.mutx_busy ≡ false
    → DelOutcome m q g (mactbl_rbtree_del m g)
mactbl_rbtree_del_outcome m q g h a b erases free =
    let r = mactbl_rbtree_del_all m g h a erases free in (r.0, r.1, r.2 q b)
