-- ===== src/Key/Hash.antt =====
-- The bit reversal of the hash.

use ttpoe.Common.{
  ℕ, zero, suc, ◌+◌, ◌*◌, ◌/◌, ◌%◌, ◌^◌, ◌<◌, ◌≡◌, refl, ◌==◌, ==_iff, holds_upto, holds_upto_use,
  true,
}
use ttpoe.Key.{reverse_bits}

-- The last `n` binary digits of a number in the opposite order.
unfoldable mirror : ℕ → ℕ → ℕ
mirror zero x = 0
mirror (suc n) x = x % 2 * 2 ^ n + mirror n (x / 2)

mirror_table : holds_upto (λ x. reverse_bits x == mirror 8 x) 256 ≡ true
unfolding holds_upto reverse_bits mirror
mirror_table = refl

twice_table : holds_upto (λ x. reverse_bits (reverse_bits x) == x) 256 ≡ true
unfolding holds_upto reverse_bits
twice_table = refl

-- On every byte the swaps of `ttp_tag_reverse_bits`, shortcuts included, give the eight binary digits in the
-- opposite order, and the function undoes itself.
reverse_bits-mirror :
    (x : ℕ) → x < 256 → (reverse_bits x ≡ mirror 8 x) × (reverse_bits (reverse_bits x) ≡ x)
reverse_bits-mirror x h = (
  (==_iff _ _).0 (holds_upto_use _ 256 x h mirror_table),
  (==_iff _ _).0 (holds_upto_use _ 256 x h twice_table),
)
