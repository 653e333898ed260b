-- ===== src/Tag/Reset.antt =====
-- A tag that is reset while its node is in the tree.
use ttpoe.Common.{ℕ, ◌<◌, ◌≡◌, ◌≢◌, refl, ◌∙◌, ap, none, List, [], ◌∷◌, arith}
use ttpoe.Key.{rkey}
use ttpoe.Index
use ttpoe.Index.{Tree, leaf, node, slots}
use ttpoe.Index.Order.{All, IsFalling, find, split, IsFalling-cong}
use ttpoe.Index.Lookup.{tag_get-find, get_left}
use ttpoe.World.{World}
use ttpoe.Tag.{tag_get, tag_reset, node_key}

find_above : (key : ℕ → ℕ) (k : ℕ) (xs : List ℕ) → All (λ x. k < key x) xs → find key k xs ≡ none
find_above key k [] h = refl
find_above key k (x ∷ xs) h =
    let lt = h.0 in let rest = find_above key k xs h.1 in ground (arith, lt, rest)

reset_key : (w : World) (s y : ℕ) → y ≢ s → node_key w y ≡ node_key (tag_reset s w) y
unfolding tag_reset
reset_key w s y h = ground arith

reset_zero : (w : World) (s : ℕ) → node_key (tag_reset s w) s ≡ 0
unfolding tag_reset
reset_zero w s = ground arith

reset_root : (w : World) (s : ℕ) → (tag_reset s w).tag_rbroot ≡ w.tag_rbroot
unfolding tag_reset
reset_root w s = refl

agree :
    (w : World) (s : ℕ) (xs : List ℕ)
    → All (λ x. node_key w s < node_key w x) xs
    → All (λ x. node_key w x ≡ node_key (tag_reset s w) x) xs
agree w s [] h = tt
agree w s (x ∷ xs) h = (
  reset_key w s x (λ e. let l = h.0 in absurd (omega (arith, l, ap (node_key w) e))),
  agree w s xs h.1,
)

reset_above :
    (w : World) (s k : ℕ) (xs : List ℕ)
    → k < node_key w s
    → All (λ x. node_key w s < node_key w x) xs
    → All (λ x. k < node_key (tag_reset s w) x) xs
reset_above w s k [] lt h = tt
reset_above w s k (x ∷ xs) lt h =
    let l = h.0 in
    (
      omega (arith, l, reset_key w s x (λ e. absurd (omega (arith, l, ap (node_key w) e)))),
      reset_above w s k xs lt h.1,
    )

get_reset :
    (w : World) (s kid : ℕ) (l r : Tree)
    → w.tag_rbroot ≡ node l s r
    → tag_get (tag_reset s w) kid ≡ Index.tag_get (node_key (tag_reset s w)) (rkey kid) (node l s r)
unfolding tag_get
get_reset w s kid l r e =
    ap (Index.tag_get (node_key (tag_reset s w)) (rkey kid)) (reset_root w s ∙ e)

-- In a tree in order, resetting the tag at the root loses every link with a key above 0 and below the root's, that
-- is, those to the right of it: the node stays in the tree with the key 0, and a lookup of such a key finds no tag.
pub tag_reset_loses :
    (w : World) (s kid : ℕ) (l r : Tree)
    → w.tag_rbroot ≡ node l s r
    → IsFalling (node_key w) (slots (node l s r))
    → 0 < rkey kid
    → rkey kid < node_key w s
    → tag_get (tag_reset s w) kid ≡ none
tag_reset_loses w s kid l r e ok pos below =
    let key = node_key (tag_reset s w) in
    let p = split (node_key w) (slots l) s (slots r) ok in
    let lost : Index.tag_get key (rkey kid) l ≡ none =
      tag_get-find key (rkey kid) l
        (IsFalling-cong (node_key w) key (slots l) (agree w s (slots l) p.2) p.0)
      ∙ find_above key (rkey kid) (slots l) (reset_above w s (rkey kid) (slots l) below p.2) in
    get_reset w s kid l r e ∙ get_left key (rkey kid) s l r (omega (arith, reset_zero w s)) ∙ lost
