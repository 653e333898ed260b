-- ===== src/Gateway/Mac/Order.antt =====
-- The order of addresses is that of a number: larger hashes first, then the address itself. With it the
-- table's descents are those of the tree of tags, whose lemmas hold for them too.
use Prim.Native.Nat.{compare, Ordering}
use ttpoe.Common.{
  ℕ, zero, suc, ◌+◌, ◌-◌, ◌*◌, ◌^◌, ◌<◌, ◌≤◌, ◌≡◌, inl, inr, refl, sym, ap, ◌∙◌, some, arith,
}
use ttpoe.Key.{index_hash_calc}
use ttpoe.Frame.{Bytes}
use native.Mathlib.Nat.{mul-le-mul_right}
use ttpoe.Index.Lookup.{compare-cases}
use ttpoe.Common.{◌∷◌}
use ttpoe.Index.Order.{All, All-front, All-back}
use ttpoe.Index.{slots, Tree, leaf, node, tag_get, link}
use ttpoe.Gateway.Mac.{memcmp, mac_cmp, turned, descend, link_mac}

-- The number that `n` bytes from the i-th on write, the first one highest.
abbrev pub value : ℕ → ℕ → Bytes → ℕ
value zero i a = 0
value (suc n) i a = a i * 256 ^ n + value n (i + 1) a

abbrev pub IsAddr : Bytes → Type 0
IsAddr m = (i : ℕ) → m i < 256

-- The number by which the table is in order.
unfoldable pub mac_key : Bytes → ℕ
mac_key m = (255 - index_hash_calc m) * 2 ^ 48 + value 6 0 m

pub place_lt : (x y k p q : ℕ) → x < y → p < k → x * k + p < y * k + q
place_lt x y k p q l h = omega (arith, mul-le-mul_right k l)

pub value-bound : (n i : ℕ) (a : Bytes) → IsAddr a → value n i a < 256 ^ n
value-bound zero i a h = omega arith
value-bound (suc n) i a h =
    let top : 256 ^ suc n ≡ 256 * 256 ^ n = omega arith in
    let low : a i * 256 ^ n + value n (i + 1) a < 256 * 256 ^ n + 0 =
      place_lt (a i) 256 (256 ^ n) (value n (i + 1) a) 0 (h i) (value-bound n (i + 1) a h) in
    omega (arith, low, top)

-- Which way a comparison goes.
compare_lt : (a b : ℕ) → a < b → compare a b ≡ Ordering.lt
compare_lt a b h = ground arith

compare_gt : (a b : ℕ) → b < a → compare a b ≡ Ordering.gt
compare_gt a b h = ground arith

compare_eq : (a b : ℕ) → a ≡ b → compare a b ≡ Ordering.eq
compare_eq a b h = ground arith

compare_add : (x y k p q : ℕ) → x ≡ y → compare (x * k + p) (y * k + q) ≡ compare p q
compare_add x y k p q e = rw e (ground (arith, compare-cases p q))

compare_place :
    (x y k p q : ℕ)
    → p < k
    → q < k
    → compare (x * k + p) (y * k + q) ≡ elim (compare x y) [
      | Ordering.lt ↦ Ordering.lt
      | Ordering.gt ↦ Ordering.gt
      | Ordering.eq ↦ compare p q
    ]
compare_place x y k p q hp hq = elim (compare-cases x y) [
  | inl l ↦ rw (compare_lt x y l) (compare_lt _ _ (place_lt x y k p q l hp))
  | inr (inl l) ↦ rw (compare_gt x y l) (compare_gt _ _ (place_lt y x k q p l hq))
  | inr (inr e) ↦ rw (compare_eq x y e) (compare_add x y k p q e)
]

memcmp-value :
    (n i : ℕ) (a b : Bytes)
    → IsAddr a
    → IsAddr b
    → memcmp n i a b ≡ compare (value n i a) (value n i b)
unfolding memcmp
memcmp-value zero i a b ha hb = refl
memcmp-value (suc n) i a b ha hb =
    ap
      (λ o. elim (compare (a i) (b i)) [
        | Ordering.lt ↦ Ordering.lt
        | Ordering.gt ↦ Ordering.gt
        | Ordering.eq ↦ o
      ])
      (memcmp-value n (i + 1) a b ha hb)
    ∙ sym (
        compare_place (a i) (b i) (256 ^ n) (value n (i + 1) a) (value n (i + 1) b)
          (value-bound n (i + 1) a ha) (value-bound n (i + 1) b hb))

hash-bound : (m : Bytes) → index_hash_calc m ≤ 255
unfolding index_hash_calc
hash-bound m = omega arith

compare_falling :
    (x y p q : ℕ)
    → x ≤ 255
    → y ≤ 255
    → p < 2 ^ 48
    → q < 2 ^ 48
    → turned (compare x y) (compare p q) ≡ compare ((255 - x) * 2 ^ 48 + p) ((255 - y) * 2 ^ 48 + q)
compare_falling x y p q hx hy hp hq = elim (compare-cases x y) [
  | inl l ↦ rw (compare_lt x y l) (sym (compare_gt _ _ (omega arith)))
  | inr (inl l) ↦ rw (compare_gt x y l) (sym (compare_lt _ _ (omega arith)))
  | inr (inr e) ↦
      rw (compare_eq x y e)
        (sym (compare_add (255 - x) (255 - y) (2 ^ 48) p q (ap (λ n. 255 - n) e)))
]

-- The comparison of two addresses is that of their numbers.
pub mac_cmp-compare :
    (a b : Bytes)
    → IsAddr a
    → IsAddr b
    → mac_cmp (some a) (some b) ≡ compare (mac_key a) (mac_key b)
unfolding mac_cmp mac_key
mac_cmp-compare a b ha hb =
    ap (turned (compare (index_hash_calc a) (index_hash_calc b))) (memcmp-value 6 0 a b ha hb)
    ∙ compare_falling (index_hash_calc a) (index_hash_calc b) (value 6 0 a) (value 6 0 b)
        (hash-bound a) (hash-bound b) (value-bound 6 0 a ha) (value-bound 6 0 b hb)

branch_cong :
    {A : Type 0} (o : Ordering) {x x' y y' : A} (z : A)
    → x ≡ x'
    → y ≡ y'
    → elim o [ Ordering.lt ↦ x | Ordering.gt ↦ y | Ordering.eq ↦ z ]
      ≡ elim o [ Ordering.lt ↦ x' | Ordering.gt ↦ y' | Ordering.eq ↦ z ]
branch_cong Ordering.lt z p q = p
branch_cong Ordering.gt z p q = q
branch_cong Ordering.eq z p q = refl

module _ (macs : ℕ → Bytes) (macs-IsAddr : (s : ℕ) → IsAddr (macs s)) where
  abbrev pub mac_keys : ℕ → ℕ
  mac_keys s = mac_key (macs s)

  -- The table's descent is the one of the tree of tags.
  pub descend-tag_get :
      (m : Bytes) (t : Tree) → IsAddr m → descend macs m t ≡ tag_get mac_keys (mac_key m) t
  unfolding descend tag_get
  descend-tag_get m leaf h = refl
  descend-tag_get m (node l s r) h =
      let left = descend-tag_get m l h in
      let right = descend-tag_get m r h in
      rw (mac_cmp-compare (macs s) m (macs-IsAddr s) h, descend, tag_get)
        (branch_cong (compare (mac_key (macs s)) (mac_key m)) (some s) left right)

  -- So is the linking, where the new node has the address under which it is linked.
  pub link_mac-link :
      (m : Bytes) (new : ℕ) (t : Tree)
      → IsAddr m
      → macs new ≡ m
      → link_mac macs m new t ≡ link mac_keys new t
  unfolding link_mac link
  link_mac-link m new leaf h e = refl
  link_mac-link m new (node l s r) h e =
      let left = link_mac-link m new l h e in
      let right = link_mac-link m new r h e in
      rw (mac_cmp-compare (macs s) m (macs-IsAddr s) h, e, link_mac, link)
        (branch_cong (compare (mac_key (macs s)) (mac_key m)) (node l s r)
          (ap (λ u. node u s r) left) (ap (λ u. node l s u) right))

-- The linking sees the addresses of the tree's nodes only.
pub link_mac-cong :
    (macs macs' : ℕ → Bytes) (m : Bytes) (new : ℕ) (t : Tree)
    → All (λ s. macs s ≡ macs' s) (slots t)
    → link_mac macs m new t ≡ link_mac macs' m new t
unfolding link_mac
link_mac-cong macs macs' m new leaf h = refl
link_mac-cong macs macs' m new (node l s r) h =
    let left = link_mac-cong macs macs' m new l (All-front _ (slots l) (s ∷ slots r) h) in
    let back = All-back _ (slots l) (s ∷ slots r) h in
    let right = link_mac-cong macs macs' m new r back.1 in
    rw (back.0, link_mac)
      (branch_cong (mac_cmp (some (macs' s)) (some m)) (node l s r) (ap (λ u. node u s r) left)
        (ap (λ u. node l s u) right))
