-- ===== src/Bloom.antt =====
-- The bloom filter of keys (modttpoe/tags.c). `kid & 0xffffff00` and the or with a byte are written by
-- division and addition; a loop that shifts a key to zero runs on fuel.
pub mod Filter
use Prim.Native.Nat.{bit_xor}
use ttpoe.Common.{
  ℕ, zero, suc, ◌+◌, ◌*◌, ◌/◌, ◌%◌, ◌^◌, Bool, true, false, ◌&&◌, ◌==◌, if◌then◌else◌, update,
}
use ttpoe.Key.{reverse_bits}
use ttpoe.World.{World, Kernel}

-- A key of 64 bits shifts to zero in at most eight rounds of each loop.
abbrev pub bloom_rounds : ℕ
bloom_rounds = 8

-- The next key of the first loop.
pub next_key : ℕ → ℕ
next_key k = let s = k / 1024 in s / 256 % 2 ^ 24 * 256 + reverse_bits (s % 256)

-- Both halves of a sum folded to TTP_BLOOM_SIZE_BITS bits.
abbrev fold_bits : ℕ → ℕ
fold_bits rv = bit_xor (rv % 1024) (rv / 1024 % 1024)

pub hash1_from : ℕ → ℕ → ℕ → ℕ
unfolding next_key
hash1_from zero k rv = rv
hash1_from (suc n) k rv =
    let rest = hash1_from n (next_key k) (bit_xor rv (k % 1024)) in if k == 0 then rv else rest

unfoldable pub bloom_hash1 : ℕ → ℕ
unfolding hash1_from
bloom_hash1 k = fold_bits (hash1_from bloom_rounds k 0)

pub hash2_from : (ℕ → ℕ → ℕ) → ℕ → ℕ → ℕ → ℕ
hash2_from crc zero k rv = rv
hash2_from crc (suc n) k rv =
    let rest = hash2_from crc n (k / 256) (crc rv (k % 256)) in if k == 0 then rv else rest

unfoldable pub bloom_hash2 : (ℕ → ℕ → ℕ) → ℕ → ℕ
unfolding hash2_from
bloom_hash2 crc k = fold_bits (hash2_from crc bloom_rounds k 0 % 65536)

pub hash3_from : ℕ → ℕ → ℕ → ℕ
hash3_from zero k rv = rv
hash3_from (suc n) k rv =
    let rest = hash3_from n (k / 256) (bit_xor (rv * 16777619 % 2 ^ 32) (k % 256)) in
    if k == 0 then rv else rest

unfoldable pub bloom_hash3 : ℕ → ℕ
unfolding hash3_from
bloom_hash3 k = fold_bits (hash3_from bloom_rounds k 0)

unfoldable pub bloom_add : ℕ → World → World
bloom_add k w =
    let b1 = update w.bloom_bitmap (bloom_hash1 k) true in
    let b2 = update b1 (bloom_hash2 w.kernel.crc16_byte k) true in
    record w { bloom_bitmap = update b2 (bloom_hash3 k) true }

-- The third hash is not asked for.
unfoldable pub bloom_test : ℕ → World → Bool
bloom_test k w =
    w.bloom_bitmap (bloom_hash1 k) && w.bloom_bitmap (bloom_hash2 w.kernel.crc16_byte k)
