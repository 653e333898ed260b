-- ===== src/Noc.antt =====
-- The page of payloads that came in (modttpoe/noc.c).
pub mod Page
use ttpoe.Common.{
  ℕ, ◌+◌, ◌-◌, ◌%◌, ◌^◌, Bool, true, false, ◌&&◌, ◌||◌, Option, none, some, ltb, leb, ◌==◌,
  if◌then◌else◌, inc32,
}
use ttpoe.World.{World, Stats}
use ttpoe.World.Access.{with_stats, bug_on}

-- TTP_NOC_DEBUG_PAGE_SIZE, with a page of 4096 bytes.
abbrev pub noc_page_size : ℕ
noc_page_size = 4000

-- A page with `nl` bytes of `src` copied to it at `at`.
abbrev pub page_with : (ℕ → ℕ) → ℕ → (ℕ → ℕ) → ℕ → ℕ → ℕ
page_with page at src nl j = if leb at j && ltb j (at + nl) then src (j - at) else page j

count_drop : World → World
count_drop w = with_stats (λ c. record c { drp_ct = inc32 c.drp_ct }) w

-- `ttpoe_noc_debug_rx`; `true` is the result 0. The space left is an unsigned difference.
unfoldable pub noc_debug_rx : (ℕ → ℕ) → ℕ → World → World × Bool
unfolding count_drop
noc_debug_rx src nl w =
    let w0 = bug_on (nl == 0) w in
    elim w.noc_page [
      | none ↦ (count_drop w0, false)
      | some page ↦
          if ltb ((2 ^ 64 + noc_page_size - w.noc_len) % 2 ^ 64) nl
          then (count_drop w0, false)
          else (
            record w0 {
              noc_page = some (page_with page w.noc_len src nl);
              noc_len = w.noc_len + nl;
            },
            true,
          )
    ]
