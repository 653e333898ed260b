-- ===== src/Frame/Bytes.antt =====
-- What is written to a buffer is read back.
use ttpoe.Common.{ℕ, ◌+◌, ◌^◌, ◌≤◌, ◌<◌, ◌≡◌, ◌⊎◌, arith}
use ttpoe.Frame.{Bytes, get32, put32}

-- The numbers that go to and fro through the bytes are the same, in the network's order, and no other byte changes.
pub get32-put32 :
    (a v : ℕ) (b : Bytes)
    → v < 2 ^ 32
    → (get32 (put32 a v b) a ≡ v) × ((j : ℕ) → (j < a) ⊎ (a + 4 ≤ j) → put32 a v b j ≡ b j)
get32-put32 a v b h = (ground arith, λ j o. ground arith)
