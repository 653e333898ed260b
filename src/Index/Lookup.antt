-- ===== src/Index/Lookup.antt =====
-- What the descents of the tree find.

use ttpoe.Common.{
  ℕ, ◌<◌, ◌≡◌, refl, sym, ◌∙◌, ap, ◌∷◌, ◌++◌, none, some, ◌==◌, if◌then◌else◌, arith, ◌⊎◌,
  Option-cases, inl, inr, subst,
}
use ttpoe.Index.{Tree, leaf, node, slots, tag_get, link, tag_add}
use ttpoe.Index.Order.{
  All, IsFalling, find, insert, split, find-append_left, find-append_right, insert-append_left,
  insert-append_right, insert-IsFalling, find-insert, All-mono_lt, All-mono_gt,
}

-- Which way a descent goes.
pub compare-cases : (a b : ℕ) → (a < b) ⊎ (b < a) ⊎ (a ≡ b)
compare-cases a b = ground arith

module _ (key : ℕ → ℕ) where
  pub get_left : (k s : ℕ) (l r : Tree) → key s < k → tag_get key k (node l s r) ≡ tag_get key k l
  unfolding tag_get
  get_left k s l r h = ground arith

  get_right : (k s : ℕ) (l r : Tree) → k < key s → tag_get key k (node l s r) ≡ tag_get key k r
  unfolding tag_get
  get_right k s l r h = ground arith

  get_here : (k s : ℕ) (l r : Tree) → key s ≡ k → tag_get key k (node l s r) ≡ some s
  unfolding tag_get
  get_here k s l r h = ground arith

  -- In a tree whose keys fall from the left to the right, the descent finds what a search of all its nodes in a row finds.
  pub tag_get-find :
      (k : ℕ) (t : Tree) → IsFalling key (slots t) → tag_get key k t ≡ find key k (slots t)
  tag_get-find k leaf h = unfold tag_get in refl
  tag_get-find k (node l s r) h = elim (compare-cases (key s) k) [
    | inl lt ↦
        get_left k s l r lt
        ∙ tag_get-find k l p.0
        ∙ sym (
            find-append_left key k (slots l) (s ∷ slots r)
              (lt, All-mono_lt key (key s) k (slots r) lt p.3))
    | inr (inl gt) ↦ get_right k s l r gt ∙ tag_get-find k r p.1 ∙ sym (skip gt)
    | inr (inr eq) ↦ get_here k s l r eq ∙ sym (at eq)
  ]
    where
      p :
          IsFalling key (slots l)
          × IsFalling key (slots r)
          × All (λ x. key s < key x) (slots l)
          × All (λ y. key y < key s) (slots r)
      p = split key (slots l) s (slots r) h

      skip : k < key s → find key k (slots (node l s r)) ≡ find key k (slots r)
      skip gt =
          find-append_right key k (slots l) (s ∷ slots r)
            (All-mono_gt key (key s) k (slots l) gt p.2)
          ∙ (ground arith)

      at : key s ≡ k → find key k (slots (node l s r)) ≡ some s
      at eq =
          find-append_right key k (slots l) (s ∷ slots r)
            (subst (λ b. All (λ y. b < key y) (slots l)) eq p.2)
          ∙ (ground arith)

  link_left :
      (new s : ℕ) (l r : Tree)
      → key s < key new
      → link key new (node l s r) ≡ node (link key new l) s r
  unfolding link
  link_left k s l r h = ground arith

  link_right :
      (new s : ℕ) (l r : Tree)
      → key new < key s
      → link key new (node l s r) ≡ node l s (link key new r)
  unfolding link
  link_right k s l r h = ground arith

  link_here : (new s : ℕ) (l r : Tree) → key s ≡ key new → link key new (node l s r) ≡ node l s r
  unfolding link
  link_here k s l r h = ground arith

  pub slots-link :
      (new : ℕ) (t : Tree)
      → IsFalling key (slots t)
      → slots (link key new t) ≡ insert key new (slots t)
  slots-link new leaf h = unfold link in refl
  slots-link new (node l s r) h = elim (compare-cases (key s) (key new)) [
    | inl lt ↦
        ap slots (link_left new s l r lt)
        ∙ ap (λ xs. xs ++ (s ∷ slots r)) (slots-link new l p.0)
        ∙ sym (insert-append_left key new s (slots l) (slots r) lt)
    | inr (inl gt) ↦
        ap slots (link_right new s l r gt)
        ∙ ap (λ ys. slots l ++ (s ∷ ys)) (slots-link new r p.1)
        ∙ sym (after gt)
    | inr (inr eq) ↦ ap slots (link_here new s l r eq) ∙ sym (at eq)
  ]
    where
      p :
          IsFalling key (slots l)
          × IsFalling key (slots r)
          × All (λ x. key s < key x) (slots l)
          × All (λ y. key y < key s) (slots r)
      p = split key (slots l) s (slots r) h

      after :
          key new < key s
          → insert key new (slots (node l s r)) ≡ slots l ++ (s ∷ insert key new (slots r))
      after gt =
          insert-append_right key new (slots l) (s ∷ slots r)
            (All-mono_gt key (key s) (key new) (slots l) gt p.2)
          ∙ ap (◌++◌ (slots l)) (ground arith)

      at : key s ≡ key new → insert key new (slots (node l s r)) ≡ slots l ++ (s ∷ slots r)
      at eq =
          insert-append_right key new (slots l) (s ∷ slots r)
            (subst (λ b. All (λ y. b < key y) (slots l)) eq p.2)
          ∙ ap (◌++◌ (slots l)) (ground arith)

-- The rotations keep the order of the nodes from the left to the right.
abbrev pub KeepsOrder : (Tree → Tree) → Type 0
KeepsOrder balance = (t : Tree) → slots (balance t) ≡ slots t

module _ (balance : Tree → Tree) (keeps : KeepsOrder balance) (key : ℕ → ℕ) where
  tag_add_new :
      (new : ℕ) (t : Tree)
      → tag_get key (key new) t ≡ none
      → tag_add balance key new t ≡ balance (link key new t)
  tag_add_new new t e = unfold tag_add in rw (e, tag_add) refl

  tag_add_old :
      (new : ℕ) (t : Tree) {s : ℕ}
      → tag_get key (key new) t ≡ some s
      → tag_add balance key new t ≡ t
  tag_add_old new t e = unfold tag_add in rw (e, tag_add) refl

  slots-tag_add :
      (new : ℕ) (t : Tree)
      → IsFalling key (slots t)
      → tag_get key (key new) t ≡ none
      → slots (tag_add balance key new t) ≡ insert key new (slots t)
  slots-tag_add new t h e =
      ap slots (tag_add_new new t e) ∙ keeps (link key new t) ∙ slots-link key new t h

  -- With rotations that keep the order of the nodes, adding a tag to a tree whose keys fall from the left to the
  -- right keeps them so.
  pub tag_add-IsFalling :
      (new : ℕ) (t : Tree)
      → IsFalling key (slots t)
      → IsFalling key (slots (tag_add balance key new t))
  tag_add-IsFalling new t h = elim (Option-cases (tag_get key (key new) t)) [
    | inl e ↦
        subst (IsFalling key) (sym (slots-tag_add new t h e)) (insert-IsFalling key new (slots t) h)
    | inr (s, e) ↦ subst (λ u. IsFalling key (slots u)) (sym (tag_add_old new t e)) h
  ]

  -- With rotations that keep the order of the nodes, and a tag added whose key the tree lacks to a tree in order:
  -- a lookup of its key finds it, and a lookup of any other key finds what it found before.
  pub tag_get-tag_add :
      (new k : ℕ) (t : Tree)
      → IsFalling key (slots t)
      → tag_get key (key new) t ≡ none
      → tag_get key k (tag_add balance key new t)
        ≡ (if key new == k then some new else tag_get key k t)
  tag_get-tag_add new k t h e =
      tag_get-find key k _ (tag_add-IsFalling new t h)
      ∙ ap (find key k) (slots-tag_add new t h e)
      ∙ find-insert key new k (slots t) (sym (tag_get-find key (key new) t h) ∙ e)
      ∙ ap (λ o. if key new == k then some new else o) (sym (tag_get-find key k t h))
