-- ===== src/Noc/Page.antt =====
-- The bounds of the page.
use ttpoe.Common.{
  inl, inr, ℕ, ◌+◌, ◌≤◌, ◌≡◌, ◌↔◌, true, false, none, some, arith, inc32, Option-cases, Bool-cases,
  ◌⊎◌,
}
use ttpoe.World.{World}
use ttpoe.Noc.{noc_page_size, noc_debug_rx}

-- There is a page, and what it holds fits.
abbrev pub HasRoom : ℕ → World → Type 0
HasRoom nl w = ((page : ℕ → ℕ) × (w.noc_page ≡ some page)) × (w.noc_len + nl ≤ noc_page_size)

with_page :
    (src : ℕ → ℕ) (nl : ℕ) (w : World) (page : ℕ → ℕ)
    → w.noc_page ≡ some page
    → w.noc_len ≤ noc_page_size
    → ((noc_debug_rx src nl w).0.noc_len ≤ noc_page_size)
      × (((noc_debug_rx src nl w).1 ≡ true) ↔ (w.noc_len + nl ≤ noc_page_size))
      × ((noc_debug_rx src nl w).1 ≡ false
          → ((noc_debug_rx src nl w).0.stats.drp_ct ≡ inc32 w.stats.drp_ct)
            × ((noc_debug_rx src nl w).0.noc_page ≡ w.noc_page))
unfolding noc_debug_rx
with_page src nl w page e h =
    (ground arith, (λ t. ground arith, λ t. ground arith), λ t. ground arith)

no_page :
    (src : ℕ → ℕ) (nl : ℕ) (w : World)
    → w.noc_page ≡ none
    → w.noc_len ≤ noc_page_size
    → ((noc_debug_rx src nl w).0.noc_len ≤ noc_page_size)
      × ((noc_debug_rx src nl w).1 ≡ false)
      × ((noc_debug_rx src nl w).0.stats.drp_ct ≡ inc32 w.stats.drp_ct)
      × ((noc_debug_rx src nl w).0.noc_page ≡ w.noc_page)
unfolding noc_debug_rx
no_page src nl w e h = ground arith

-- Whatever is received while the length of the page is within its size, it stays so. The payload is taken if there is a page
-- with room for it; otherwise it is refused, counted as dropped, and the page is left alone.
pub noc_debug_rx_bounds :
    (src : ℕ → ℕ) (nl : ℕ) (w : World)
    → w.noc_len ≤ noc_page_size
    → ((noc_debug_rx src nl w).0.noc_len ≤ noc_page_size)
      × ((((noc_debug_rx src nl w).1 ≡ true) × HasRoom nl w)
          ⊎ (((noc_debug_rx src nl w).1 ≡ false)
              × (¬ (HasRoom nl w))
              × ((noc_debug_rx src nl w).0.stats.drp_ct ≡ inc32 w.stats.drp_ct)
              × ((noc_debug_rx src nl w).0.noc_page ≡ w.noc_page)))
noc_debug_rx_bounds src nl w h = elim (Option-cases w.noc_page) [
  | inl e ↦ let p = no_page src nl w e h in (p.0, inr (p.1, λ r. cc, p.2, p.3))
  | inr (page, e) ↦
      let p = with_page src nl w page e h in
      (
        p.0,
        elim (Bool-cases (noc_debug_rx src nl w).1) [
          | inl t ↦ inl (t, ((page, e), p.1.0 t))
          | inr f ↦ inr (f, (λ r. cc (f, p.1.1 r.1)), (p.2 f).0, (p.2 f).1)
        ],
      )
]
