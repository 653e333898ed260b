-- ===== src/Device/Read.antt =====
-- The page as a user reads it.
use ttpoe.Common.{
  ℕ, zero, suc, ◌+◌, ◌-◌, ◌≤◌, ◌<◌, ◌≡◌, refl, sym, ◌∙◌, ap, some, List, [], ◌∷◌, ◌++◌, arith, ltb,
  leb, false, if◌then◌else◌,
}
use native.Mathlib.Decide.{dec_le}
use ttpoe.World.{World}
use ttpoe.Frame.{Bytes}
use ttpoe.Device.{noc_debug_read, chunk}

-- A user who reads `n` bytes at a time until there are none, as `cat` does.
unfoldable pub read_all : ℕ → ℕ → ℕ → World → List ℕ
read_all zero n pos w = []
read_all (suc f) n pos w =
    let rest = read_all f n (noc_debug_read pos n w).1 w in
    elim (noc_debug_read pos n w).0 [ [] ↦ [] | b ∷ bs ↦ (b ∷ bs) ++ rest ]

chunk-append :
    (page : Bytes) (pos a b : ℕ)
    → chunk page pos (a + b) ≡ chunk page pos a ++ chunk page (pos + a) b
chunk-append page pos zero b =
    let e : 0 + b ≡ b = omega arith in
    let d : pos ≡ pos + 0 = omega arith in ap (chunk page pos) e ∙ ap (λ x. chunk page x b) d
chunk-append page pos (suc a) b =
    let e : suc a + b ≡ suc (a + b) = omega arith in
    let d : suc pos + a ≡ pos + suc a = omega arith in
    ap (chunk page pos) e
    ∙ ap (λ (l : List ℕ). page pos ∷ l)
        (chunk-append page (suc pos) a b ∙ ap (λ x. chunk page (suc pos) a ++ chunk page x b) d)

module _ (n : ℕ) (w : World) (page : Bytes) (there : w.noc_page ≡ some page)
    (some_bytes : 0 < n) where
  -- The bytes of one reading.
  amount : ℕ → ℕ
  amount pos = if ltb n (w.noc_len - pos) then n else w.noc_len - pos

  at_end : (pos : ℕ) → w.noc_len ≤ pos → noc_debug_read pos n w ≡ ([], pos)
  unfolding noc_debug_read
  at_end pos h = ground arith

  before_end :
      (pos : ℕ)
      → pos < w.noc_len
      → noc_debug_read pos n w ≡ (chunk page pos (amount pos), pos + amount pos)
  before_end pos h =
      let e : leb w.noc_len pos ≡ false = ground arith in
      unfold noc_debug_read amount in rw (there, e, noc_debug_read) refl

  amount_fits : (pos : ℕ) → pos < w.noc_len → (0 < amount pos) × (amount pos ≤ w.noc_len - pos)
  unfolding amount
  amount_fits pos h = ground arith

  read_step :
      (f pos k : ℕ)
      → noc_debug_read pos n w ≡ (chunk page pos (suc k), pos + suc k)
      → read_all (suc f) n pos w ≡ chunk page pos (suc k) ++ read_all f n (pos + suc k) w
  read_step f pos k e =
      let bytes : (noc_debug_read pos n w).0 ≡ chunk page pos (suc k) =
        ap (λ (r : List ℕ × ℕ). r.0) e in
      let next : (noc_debug_read pos n w).1 ≡ pos + suc k = ap (λ (r : List ℕ × ℕ). r.1) e in
      unfold read_all in rw (bytes, next, read_all) refl

  read_stop : (f pos : ℕ) → w.noc_len ≤ pos → read_all (suc f) n pos w ≡ []
  read_stop f pos h = unfold read_all in rw (at_end pos h, read_all) refl

  read_from :
      (f pos : ℕ)
      → w.noc_len ≤ pos + f
      → read_all (suc f) n pos w ≡ chunk page pos (w.noc_len - pos)
  read_from zero pos h =
      let e : 0 ≡ w.noc_len - pos = omega arith in
      read_stop zero pos (omega arith) ∙ ap (chunk page pos) e
  read_from (suc f) pos h = elim (dec_le w.noc_len pos) [
    | yes d ↦
        let e : 0 ≡ w.noc_len - pos = omega arith in read_stop (suc f) pos d ∙ ap (chunk page pos) e
    | no d ↦
        let fit = amount_fits pos (omega arith) in
        let k = amount pos - 1 in
        let e : amount pos ≡ suc k = omega (arith, fit) in
        let once = before_end pos (omega arith) ∙ ap (λ x. (chunk page pos x, pos + x)) e in
        let whole : suc k + (w.noc_len - (pos + suc k)) ≡ w.noc_len - pos = omega (arith, fit) in
        read_step (suc f) pos k once
        ∙ ap (◌++◌ (chunk page pos (suc k))) (read_from f (pos + suc k) (omega (arith, fit)))
        ∙ sym (chunk-append page pos (suc k) (w.noc_len - (pos + suc k)))
        ∙ ap (chunk page pos) whole
  ]

  -- While there is a page, a user who reads it from its start, so many bytes at a time as he likes but at least
  -- one, until there are none, gets exactly the bytes that were received, in their order, in at most one reading
  -- more than there are bytes.
  pub read_all_page : read_all (suc w.noc_len) n 0 w ≡ chunk page 0 w.noc_len
  read_all_page =
      let e : w.noc_len - 0 ≡ w.noc_len = omega arith in
      read_from w.noc_len 0 (omega arith) ∙ ap (chunk page 0) e
