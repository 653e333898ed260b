-- ===== src/Bloom/Filter.antt =====
-- The filter has no false negatives, and its hash loops come to their end.
use Prim.Native.Nat.{bit_xor}
use ttpoe.Common.{
  subst, ℕ, zero, suc, ◌+◌, ◌*◌, ◌/◌, ◌%◌, ◌^◌, ◌≤◌, ◌<◌, ◌≡◌, refl, sym, ◌∙◌, ap, true, arith,
  ◌==◌, if◌then◌else◌, holds_upto, holds_upto_use, ltb, ◌⊎◌, inl, inr,
}
use ttpoe.Key.{reverse_bits}
use ttpoe.World.{World}
use ttpoe.Bloom.{bloom_add, bloom_test, bloom_rounds, next_key, hash1_from, hash2_from, hash3_from}

add_same : (k : ℕ) (w : World) → bloom_test k (bloom_add k w) ≡ true
unfolding bloom_test bloom_add
add_same k w = ground arith

add_other : (k k' : ℕ) (w : World) → bloom_test k w ≡ true → bloom_test k (bloom_add k' w) ≡ true
unfolding bloom_test bloom_add
add_other k k' w h = ground arith

-- A key that was added is found in the filter, whatever keys are added after it.
pub bloom_test-bloom_add :
    (k k' : ℕ) (w : World)
    → (k ≡ k') ⊎ (bloom_test k w ≡ true)
    → bloom_test k (bloom_add k' w) ≡ true
bloom_test-bloom_add k k' w (inl e) = ap (λ x. bloom_test k (bloom_add x w)) (sym e) ∙ add_same k w
bloom_test-bloom_add k k' w (inr h) = add_other k k' w h

-- More rounds than `n` make no difference.
module _ (from : ℕ → ℕ → ℕ → ℕ) where
  abbrev Ends : ℕ → ℕ → Type 0
  Ends n k = (m rv : ℕ) → from (n + m) k rv ≡ from n k rv

zero1 : (n rv : ℕ) → hash1_from n 0 rv ≡ rv
unfolding hash1_from
zero1 zero rv = refl
zero1 (suc n) rv = refl

count_up : (n m : ℕ) → suc n + m ≡ suc (n + m)
count_up n m = omega arith

step1 : (n k : ℕ) → Ends hash1_from n (next_key k) → Ends hash1_from (suc n) k
unfolding hash1_from
step1 n k h m rv =
    ap (λ x. hash1_from x k rv) (count_up n m)
    ∙ ap (λ x. if k == 0 then rv else x) (h m (bit_xor rv (k % 1024)))

reverse_table : holds_upto (λ x. ltb (reverse_bits x) 256) 256 ≡ true
unfolding holds_upto reverse_bits
reverse_table = refl

reverse_lt : (x : ℕ) → x < 256 → reverse_bits x < 256
reverse_lt x h =
    ground (arith, holds_upto_use (λ y. ltb (reverse_bits y) 256) 256 x h reverse_table)

-- Each round takes at least ten bits off a key.
next_lt : (k : ℕ) → next_key k ≤ k / 262144 * 256 + 255
unfolding next_key
next_lt k = omega (arith, reverse_lt (k / 1024 % 256) (omega arith))

next_word : (k : ℕ) → next_key k < 2 ^ 32
unfolding next_key
next_word k = omega (arith, reverse_lt (k / 1024 % 256) (omega arith))

reverse_zero : reverse_bits 0 ≡ 0
unfolding reverse_bits
reverse_zero = refl

next_zero : (k : ℕ) → k < 1024 → next_key k ≡ 0
unfolding next_key reverse_bits
next_zero k h = let e : k / 1024 ≡ 0 = omega arith in rw e reverse_zero

Ends-zero : Ends hash1_from 0 0
Ends-zero m rv = zero1 (0 + m) rv ∙ sym (zero1 0 rv)

Ends-small : (k : ℕ) → k < 1024 → Ends hash1_from 1 k
Ends-small k h = step1 0 k (subst (Ends hash1_from 0) (sym (next_zero k h)) Ends-zero)

Ends-more : (n k : ℕ) → Ends hash1_from n k → Ends hash1_from (suc n) k
Ends-more n k h m rv =
    ap (λ x. hash1_from x k rv) (later n m)
    ∙ h (suc m) rv
    ∙ sym (ap (λ x. hash1_from x k rv) (once n) ∙ h 1 rv)
  where
    later : (n m : ℕ) → suc n + m ≡ n + suc m
    later n m = omega arith

    once : (n : ℕ) → suc n ≡ n + 1
    once n = omega arith

five_rounds : (k : ℕ) → Ends hash1_from 5 k
five_rounds k =
    let k1 = next_key k in
    let k2 = next_key k1 in
    let k3 = next_key k2 in
    let k4 = next_key k3 in
    step1 4 k (
      step1 3 k1 (
        step1 2 k2 (
          step1 1 k3
            (Ends-small k4 (omega (arith, next_word k, next_lt k1, next_lt k2, next_lt k3))))))

hash1-Ends : (k : ℕ) → Ends hash1_from bloom_rounds k
hash1-Ends k = Ends-more 7 k (Ends-more 6 k (Ends-more 5 k (five_rounds k)))

-- The numbers of `n` bytes.
abbrev pow256 : ℕ → ℕ
pow256 zero = 1
pow256 (suc n) = 256 * pow256 n

zero2 : (crc : ℕ → ℕ → ℕ) (n rv : ℕ) → hash2_from crc n 0 rv ≡ rv
unfolding hash2_from
zero2 crc zero rv = refl
zero2 crc (suc n) rv = refl

step2 :
    (crc : ℕ → ℕ → ℕ) (n k : ℕ)
    → Ends (hash2_from crc) n (k / 256)
    → Ends (hash2_from crc) (suc n) k
unfolding hash2_from
step2 crc n k h m rv =
    ap (λ x. hash2_from crc x k rv) (count_up n m)
    ∙ ap (λ x. if k == 0 then rv else x) (h m (crc rv (k % 256)))

ends2 : (crc : ℕ → ℕ → ℕ) (n k : ℕ) → k < pow256 n → Ends (hash2_from crc) n k
ends2 crc zero k h = λ m rv.
    let e : k ≡ 0 = omega arith in
    ap (λ x. hash2_from crc (0 + m) x rv) e
    ∙ zero2 crc (0 + m) rv
    ∙ sym (ap (λ x. hash2_from crc 0 x rv) e ∙ zero2 crc 0 rv)
ends2 crc (suc n) k h = step2 crc n k (ends2 crc n (k / 256) (omega arith))

zero3 : (n rv : ℕ) → hash3_from n 0 rv ≡ rv
unfolding hash3_from
zero3 zero rv = refl
zero3 (suc n) rv = refl

step3 : (n k : ℕ) → Ends hash3_from n (k / 256) → Ends hash3_from (suc n) k
unfolding hash3_from
step3 n k h m rv =
    ap (λ x. hash3_from x k rv) (count_up n m)
    ∙ ap (λ x. if k == 0 then rv else x) (h m (bit_xor (rv * 16777619 % 2 ^ 32) (k % 256)))

ends3 : (n k : ℕ) → k < pow256 n → Ends hash3_from n k
ends3 zero k h = λ m rv.
    let e : k ≡ 0 = omega arith in
    ap (λ x. hash3_from (0 + m) x rv) e
    ∙ zero3 (0 + m) rv
    ∙ sym (ap (λ x. hash3_from 0 x rv) e ∙ zero3 0 rv)
ends3 (suc n) k h = step3 n k (ends3 n (k / 256) (omega arith))

-- On a key of 64 bits the loops of all three hashes end within the rounds given to them: more rounds give the same sums.
bloom_rounds_enough :
    (crc : ℕ → ℕ → ℕ) (k m rv : ℕ)
    → k < 2 ^ 64
    → (hash1_from (bloom_rounds + m) k rv ≡ hash1_from bloom_rounds k rv)
      × (hash2_from crc (bloom_rounds + m) k rv ≡ hash2_from crc bloom_rounds k rv)
      × (hash3_from (bloom_rounds + m) k rv ≡ hash3_from bloom_rounds k rv)
bloom_rounds_enough crc k m rv h = (
  hash1-Ends k m rv,
  ends2 crc bloom_rounds k (omega arith) m rv,
  ends3 bloom_rounds k (omega arith) m rv,
)
