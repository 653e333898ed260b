-- ===== src/Common/Words.antt =====
-- The wrap-around of the fixed-width counters.
use Prim.Native.Nat.{ℕ, ◌+◌, ◌%◌}

abbrev pub inc16 : ℕ → ℕ
inc16 n = (n + 1) % 65536

abbrev pub dec16 : ℕ → ℕ
dec16 n = (n + 65535) % 65536

abbrev pub inc32 : ℕ → ℕ
inc32 n = (n + 1) % 4294967296

-- `atomic_t` holds an `int`, taken as its bit pattern.
abbrev pub dec32 : ℕ → ℕ
dec32 n = (n + 4294967295) % 4294967296
