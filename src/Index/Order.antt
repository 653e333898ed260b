-- ===== src/Index/Order.antt =====
-- Lists of tags by falling keys, to which the tree is compared.

use ttpoe.Common.{
  ℕ, ◌<◌, ◌≡◌, refl, List, [], ◌∷◌, ◌++◌, Option, none, some, ltb, ◌==◌, if◌then◌else◌, arith,
}

abbrev pub All : (ℕ → Type 0) → List ℕ → Type 0
All P [] = Unit {0}
All P (x ∷ xs) = P x × All P xs

module _ (key : ℕ → ℕ) where
  abbrev pub IsFalling : List ℕ → Type 0
  IsFalling [] = Unit {0}
  IsFalling (x ∷ xs) = All (λ y. key y < key x) xs × IsFalling xs

  -- The first tag with a key.
  abbrev pub find : ℕ → List ℕ → Option ℕ
  find k [] = none
  find k (x ∷ xs) = if key x == k then some x else find k xs

  abbrev pub insert : ℕ → List ℕ → List ℕ
  insert s [] = s ∷ []
  insert s (x ∷ xs) =
      if ltb (key s) (key x)
      then x ∷ insert s xs
      else if ltb (key x) (key s)
      then s ∷ x ∷ xs
      else x ∷ xs

module _ (key : ℕ → ℕ) where
  pub All-mono_lt :
      (a b : ℕ) (xs : List ℕ) → a < b → All (λ y. key y < a) xs → All (λ y. key y < b) xs
  All-mono_lt a b [] h p = tt
  All-mono_lt a b (x ∷ xs) h p = (omega arith, All-mono_lt a b xs h p.1)

  pub All-mono_gt :
      (a b : ℕ) (xs : List ℕ) → b < a → All (λ y. a < key y) xs → All (λ y. b < key y) xs
  All-mono_gt a b [] h p = tt
  All-mono_gt a b (x ∷ xs) h p = (omega arith, All-mono_gt a b xs h p.1)

  pub split :
      (xs : List ℕ) (s : ℕ) (ys : List ℕ)
      → IsFalling key (xs ++ (s ∷ ys))
      → IsFalling key xs
        × IsFalling key ys
        × All (λ x. key s < key x) xs
        × All (λ y. key y < key s) ys
  split [] s ys h = (tt, h.1, tt, h.0)
  split (x ∷ xs) s ys h =
      let r = split xs s ys h.1 in ((front xs h.0, r.0), r.1, (last xs h.0, r.2), r.3)
    where
      front :
          (zs : List ℕ) → All (λ y. key y < key x) (zs ++ (s ∷ ys)) → All (λ y. key y < key x) zs
      front [] p = tt
      front (z ∷ zs) p = (p.0, front zs p.1)

      last : (zs : List ℕ) → All (λ y. key y < key x) (zs ++ (s ∷ ys)) → key s < key x
      last [] p = p.0
      last (z ∷ zs) p = last zs p.1

  pub find-none_below : (k : ℕ) (ys : List ℕ) → All (λ y. key y < k) ys → find key k ys ≡ none
  find-none_below k [] h = refl
  find-none_below k (y ∷ ys) h = ground (arith, find-none_below k ys h.1)

  pub find-append_left :
      (k : ℕ) (xs ys : List ℕ) → All (λ y. key y < k) ys → find key k (xs ++ ys) ≡ find key k xs
  find-append_left k [] ys h = find-none_below k ys h
  find-append_left k (x ∷ xs) ys h = ground (arith, find-append_left k xs ys h)

  pub find-append_right :
      (k : ℕ) (xs ys : List ℕ) → All (λ x. k < key x) xs → find key k (xs ++ ys) ≡ find key k ys
  find-append_right k [] ys h = refl
  find-append_right k (x ∷ xs) ys h = ground (arith, find-append_right k xs ys h.1)

  pub insert-append_left :
      (s x : ℕ) (xs ys : List ℕ)
      → key x < key s
      → insert key s (xs ++ (x ∷ ys)) ≡ insert key s xs ++ (x ∷ ys)
  insert-append_left s x [] ys h = ground arith
  insert-append_left s x (z ∷ xs) ys h = ground (arith, insert-append_left s x xs ys h)

  pub insert-append_right :
      (s : ℕ) (xs ys : List ℕ)
      → All (λ x. key s < key x) xs
      → insert key s (xs ++ ys) ≡ xs ++ insert key s ys
  insert-append_right s [] ys h = refl
  insert-append_right s (x ∷ xs) ys h = ground (arith, insert-append_right s xs ys h.1)

  All-insert :
      (b s : ℕ) (xs : List ℕ)
      → key s < b
      → All (λ y. key y < b) xs
      → All (λ y. key y < b) (insert key s xs)
  All-insert b s [] h p = (h, tt)
  All-insert b s (x ∷ xs) h p = ground (arith, All-insert b s xs h p.1)

  pub insert-IsFalling : (s : ℕ) (xs : List ℕ) → IsFalling key xs → IsFalling key (insert key s xs)
  insert-IsFalling s [] h = (tt, tt)
  insert-IsFalling s (x ∷ xs) h =
      ground
        (arith, insert-IsFalling s xs h.1, All-insert (key x) s xs, All-mono_lt (key x) (key s) xs)

  pub find-insert :
      (s k : ℕ) (xs : List ℕ)
      → find key (key s) xs ≡ none
      → find key k (insert key s xs) ≡ (if key s == k then some s else find key k xs)
  find-insert s k [] e = refl
  find-insert s k (x ∷ xs) e = ground (arith, find-insert s k xs)

-- Keys that agree on a list serve alike.
module _ (key key' : ℕ → ℕ) where
  All-cong :
      (x : ℕ) (xs : List ℕ)
      → key x ≡ key' x
      → All (λ y. key y ≡ key' y) xs
      → All (λ y. key y < key x) xs
      → All (λ y. key' y < key' x) xs
  All-cong x [] e h p = tt
  All-cong x (y ∷ ys) e h p = (omega arith, All-cong x ys e h.1 p.1)

  pub IsFalling-cong :
      (xs : List ℕ) → All (λ y. key y ≡ key' y) xs → IsFalling key xs → IsFalling key' xs
  IsFalling-cong [] h p = tt
  IsFalling-cong (x ∷ xs) h p = (All-cong x xs h.0 h.1 p.0, IsFalling-cong xs h.1 p.1)

  pub find-cong :
      (k : ℕ) (xs : List ℕ) → All (λ y. key y ≡ key' y) xs → find key k xs ≡ find key' k xs
  find-cong k [] h = refl
  find-cong k (x ∷ xs) h = ground (arith, find-cong k xs h.1)

module _ (P : ℕ → Type 0) where
  pub All-front : (xs ys : List ℕ) → All P (xs ++ ys) → All P xs
  All-front [] ys h = tt
  All-front (x ∷ xs) ys h = (h.0, All-front xs ys h.1)

  pub All-back : (xs ys : List ℕ) → All P (xs ++ ys) → All P ys
  All-back [] ys h = h
  All-back (x ∷ xs) ys h = All-back xs ys h.1

  pub All-map : {Q : ℕ → Type 0} (xs : List ℕ) → ((x : ℕ) → P x → Q x) → All P xs → All Q xs
  All-map [] f h = tt
  All-map (x ∷ xs) f h = (f x h.0, All-map xs f h.1)
