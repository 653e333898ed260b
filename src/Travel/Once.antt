-- ===== src/Travel/Once.antt =====
-- Each event is at one place, whatever moves.
use native.Mathlib.Decide.{ℕ_discrete}
use ttpoe.Common.{
  inl, inr, ℕ, suc, ◌+◌, ◌≡◌, ◌≢◌, refl, sym, ◌∙◌, ap, true, false, List, [], ◌∷◌, ◌++◌, length,
  arith, ◌==◌, if◌then◌else◌, Bool-cases,
}
use ttpoe.World.{World}
use ttpoe.Queue.{Channel}
use ttpoe.Queue.Counts.{CountsOk}
use ttpoe.Travel.{Place, hand, pool, queue, payloads, lists, Still, Moves, still, take, give, also}
use ttpoe.Travel.Queues.{Still-lists}

abbrev pub count : ℕ → List ℕ → ℕ
count e [] = 0
count e (x ∷ xs) = if e == x then suc (count e xs) else count e xs

-- 1 for the same number.
abbrev one_if : ℕ → ℕ → ℕ
one_if e i = if e == i then 1 else 0

count-append : (e : ℕ) (xs ys : List ℕ) → count e (xs ++ ys) ≡ count e xs + count e ys
count-append e [] ys = omega arith
count-append e (x ∷ xs) ys = ground (arith, count-append e xs ys)

-- An event stands once at one place and nowhere else.
abbrev pub Once : (Place → List ℕ) → ℕ → Type 0
Once v e = (p : Place) × (count e (v p) ≡ 1) × ((q : Place) → q ≢ p → count e (v q) ≡ 0)

Channel-discrete : Discrete Channel
Channel-discrete = hlevel

Place-discrete : Discrete Place
Place-discrete = hlevel (ℕ_discrete, Channel-discrete)

-- One event goes from a place to another.
module _ (v v' : Place → List ℕ) (a b : Place) (i e : ℕ) (apart : a ≢ b)
    (out : count e (v a) ≡ count e (v' a) + one_if e i)
    (into : count e (v' b) ≡ count e (v b) + one_if e i)
    (rest : (q : Place) → q ≢ a → q ≢ b → v' q ≡ v q) where
  -- The other events stay.
  same_count : (e == i) ≡ false → (q : Place) → count e (v' q) ≡ count e (v q)
  same_count f q = elim (Place-discrete q a) [
    | yes h ↦ rw h (ground (arith, f, out))
    | no h ↦ elim (Place-discrete q b) [
      | yes k ↦ rw k (ground (arith, f, into))
      | no k ↦ ap (count e) (rest q h k)
    ]
  ]

  stays : (e == i) ≡ false → Once v e → Once v' e
  stays f (p, c, o) = (p, same_count f p ∙ c, λ q n. same_count f q ∙ o q n)

  from_a : (e == i) ≡ true → (p : Place) → ((q : Place) → q ≢ p → count e (v q) ≡ 0) → a ≡ p
  from_a t p o = elim (Place-discrete a p) [
    | yes h ↦ h
    | no h ↦ absurd (ground (arith, out, t, o a h))
  ]

  goes : (e == i) ≡ true → Once v e → Once v' e
  goes t (p, c, o) =
      let h = from_a t p o in
      let b0 : count e (v b) ≡ 0 = o b (λ k. apart (h ∙ sym k)) in
      let a1 : count e (v a) ≡ 1 = rw h c in
      (
        b,
        ground (arith, into, b0, t),
        λ q n. elim (Place-discrete q a) [
          | yes k ↦ rw k (ground (arith, out, a1, t))
          | no k ↦ ap (count e) (rest q k n) ∙ o q (λ m. k (m ∙ sym h))
        ],
      )

  pub moved-Once : Once v e → Once v' e
  moved-Once o = elim (Bool-cases (e == i)) [ inl t ↦ goes t o | inr f ↦ stays f o ]

-- The lists beside the hand are what they are for an empty hand.
lists_hand : (h k : List ℕ) (w : World) (q : Place) → q ≢ hand → lists h w q ≡ lists k w q
lists_hand h k w hand n = absurd (n refl)
lists_hand h k w pool n = refl
lists_hand h k w (queue c) n = refl
lists_hand h k w (payloads s) n = refl

lists_same :
    (h : List ℕ) (w u : World) → ((s : ℕ) → Still s w u) → (q : Place) → lists h u q ≡ lists h w q
lists_same h w u k hand = refl
lists_same h w u k pool = (k 0).pool
lists_same h w u k (queue c) = Still-lists w u k (queue c) (λ x. cc)
lists_same h w u k (payloads s) = (k s).ncq

-- What the moves keep.
pub Moves-Once :
    {h k : List ℕ} {w u : World} → Moves h w k u → (e : ℕ) → Once (lists h w) e → Once (lists k u) e
Moves-Once (still h w u s) e (p, c, z) =
    (p, ap (count e) (lists_same h w u s p) ∙ c, λ q n. ap (count e) (lists_same h w u s q) ∙ z q n)
Moves-Once (take h p i w u n f r c) e o =
    moved-Once (lists h w) (lists (i ∷ h) u) p hand i e n
      (ap (count e) (f ∙ ap (λ l. i ∷ l) (lists_hand h (i ∷ h) u p n)) ∙ ground arith)
      (ground arith) (λ q a b. lists_hand (i ∷ h) [] u q b ∙ r q b a ∙ lists_hand [] h w q b) o
Moves-Once (give h p i w u n f r c) e o =
    moved-Once (lists (i ∷ h) w) (lists h u) hand p i e (λ x. n (sym x)) (ground arith)
      (ap (count e) (f ∙ ap (λ l. l ++ (i ∷ [])) (lists_hand h (i ∷ h) w p n))
        ∙ count-append e (lists (i ∷ h) w p) (i ∷ [])
        ∙ ground arith)
      (λ q a b. lists_hand h [] u q a ∙ r q a b ∙ lists_hand [] (i ∷ h) w q a) o
Moves-Once (also m m') e o = Moves-Once m' e (Moves-Once m e o)

pub Moves-CountsOk : {h k : List ℕ} {w u : World} → Moves h w k u → CountsOk w → CountsOk u
Moves-CountsOk (still h w u s) c =
    let k = s 0 in
    record {
      pool = omega (arith, c.pool, k.pool_count, ap length k.pool);
      queue = omega (
        arith,
        c.queue,
        k.queue_count,
        ap length k.rxq,
        ap length k.txq,
        ap length k.akq,
        ap length k.inq,
      );
    }
Moves-CountsOk (take h p i w u n f r k) c = k c
Moves-CountsOk (give h p i w u n f r k) c = k c
Moves-CountsOk (also m m') c = Moves-CountsOk m' (Moves-CountsOk m c)
