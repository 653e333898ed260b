-- ===== src/Gateway/Mac/Equal.antt =====
-- Two addresses have one place in the table's order exactly if they are the same.
use ttpoe.Common.{
  ℕ, suc, ◌≢◌, ◌+◌, ◌-◌, ◌*◌, ◌^◌, ◌<◌, ◌≡◌, inl, inr, refl, sym, ap, ◌∙◌, true, false, ◌==◌,
  ==_iff, arith, Bool-cases,
}
use ttpoe.Key.{index_hash_calc}
use ttpoe.Frame.{Bytes}
use ttpoe.Gateway.Mac.{ether_addr_equal}
use ttpoe.Gateway.Mac.Order.{IsAddr, mac_key, value, value-bound, place_lt}
use ttpoe.Index.Lookup.{compare-cases}

abbrev pub SameBytes : Bytes → Bytes → Type 0
SameBytes a b = (a 0 ≡ b 0) × (a 1 ≡ b 1) × (a 2 ≡ b 2) × (a 3 ≡ b 3) × (a 4 ≡ b 4) × (a 5 ≡ b 5)

equal_bytes : (a b : Bytes) → ether_addr_equal a b ≡ true → SameBytes a b
equal_bytes a b e = ground arith

pub bytes_equal : (a b : Bytes) → SameBytes a b → ether_addr_equal a b ≡ true
bytes_equal a b e = ground arith

hash_of_bytes : (a b : Bytes) → SameBytes a b → index_hash_calc a ≡ index_hash_calc b
unfolding index_hash_calc
hash_of_bytes a b e = rw (e.3, e.4, e.5) refl

key_of_bytes : (a b : Bytes) → SameBytes a b → mac_key a ≡ mac_key b
unfolding mac_key
key_of_bytes a b e =
    ap (λ h. (255 - h) * 2 ^ 48 + value 6 0 a) (hash_of_bytes a b e)
    ∙ (rw (e.0, e.1, e.2, e.3, e.4, e.5) refl)

same_low : (x y p q : ℕ) → p < 2 ^ 48 → q < 2 ^ 48 → x * 2 ^ 48 + p ≡ y * 2 ^ 48 + q → p ≡ q
same_low x y p q hp hq e = omega arith

top_byte : (k x y p q : ℕ) → p < k → q < k → x * k + p ≡ y * k + q → (x ≡ y) × (p ≡ q)
top_byte k x y p q hp hq e = elim (compare-cases x y) [
  | inl l ↦ absurd (omega (arith, place_lt x y k p q l hp))
  | inr (inl l) ↦ absurd (omega (arith, place_lt y x k q p l hq))
  | inr (inr s) ↦ (s, omega (arith, ap (λ n. n * k) s))
]

-- One byte after another.
peel :
    (n i : ℕ) (a b : Bytes)
    → IsAddr a
    → IsAddr b
    → value (suc n) i a ≡ value (suc n) i b
    → (a i ≡ b i) × (value n (i + 1) a ≡ value n (i + 1) b)
peel n i a b ha hb e =
    top_byte (256 ^ n) (a i) (b i) (value n (i + 1) a) (value n (i + 1) b)
      (value-bound n (i + 1) a ha) (value-bound n (i + 1) b hb) e

value-same : (a b : Bytes) → IsAddr a → IsAddr b → value 6 0 a ≡ value 6 0 b → SameBytes a b
value-same a b ha hb e =
    let r0 = peel 5 0 a b ha hb e in
    let r1 = peel 4 1 a b ha hb r0.1 in
    let r2 = peel 3 2 a b ha hb r1.1 in
    let r3 = peel 2 3 a b ha hb r2.1 in
    let r4 = peel 1 4 a b ha hb r3.1 in
    let r5 = peel 0 5 a b ha hb r4.1 in (r0.0, r1.0, r2.0, r3.0, r4.0, r5.0)

bytes_of_key : (a b : Bytes) → IsAddr a → IsAddr b → mac_key a ≡ mac_key b → SameBytes a b
unfolding mac_key
bytes_of_key a b ha hb e = value-same a b ha hb (
    same_low (255 - index_hash_calc a) (255 - index_hash_calc b) (value 6 0 a) (value 6 0 b)
      (value-bound 6 0 a ha) (value-bound 6 0 b hb) e)

pub mac_key-equal :
    (a b : Bytes) → IsAddr a → IsAddr b → (mac_key a == mac_key b) ≡ ether_addr_equal a b
mac_key-equal a b ha hb = elim (Bool-cases (ether_addr_equal a b)) [
  | inl e ↦ (==_iff (mac_key a) (mac_key b)).1 (key_of_bytes a b (equal_bytes a b e)) ∙ sym e
  | inr e ↦ elim (Bool-cases (mac_key a == mac_key b)) [
    | inl k ↦ absurd (
        clash (
          sym (bytes_equal a b (bytes_of_key a b ha hb ((==_iff (mac_key a) (mac_key b)).0 k)))
          ∙ e))
    | inr k ↦ k ∙ sym e
  ]
]
  where
    clash : true ≢ false
    clash p = cc
