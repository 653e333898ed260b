-- ===== src/Respond/Window/Stream.antt =====
-- The payloads of a sender over a network that loses, repeats and reorders them, as the page sees them.
use ttpoe.Common.{
  ℕ, zero, suc, ◌+◌, ◌-◌, ◌^◌, ◌≤◌, ◌<◌, ◌≡◌, ◌≢◌, ◌⊎◌, inl, inr, subst, ◌∙◌, ap, some, arith, true,
  List, [], ◌∷◌,
}
use native.Mathlib.Decide.{dec_lt}
use ttpoe.Fsm.{Opcode, ttp_ack}
use ttpoe.World.{World}
use ttpoe.Frame.{Bytes}
use ttpoe.Noc.{page_with, noc_page_size}
use ttpoe.Respond.{receive_payload, takes_payload}
use ttpoe.Respond.Window.{Kept, Added, receive_payload_outcome}

-- The bytes of the first `k` payloads after the number `n0`.
abbrev pub total : (ℕ → ℕ) → ℕ → ℕ → ℕ
total size n0 zero = 0
total size n0 (suc k) = total size n0 k + size (suc (n0 + k))

-- The first `k` payloads after number `n0` stand on the page from `base` on, each once and in its place, and the
-- number received last is that of the last of them.
pub record Received (s : ℕ) (size : ℕ → ℕ) (payload : ℕ → Bytes) (n0 base k : ℕ) (w : World)
    : Type 0 where
  pub page : Bytes
  pub there : w.noc_page ≡ some page
  pub rx : (w.tags s).rx_seq_id ≡ n0 + k
  pub small : n0 + k < 2 ^ 32
  pub len : w.noc_len ≡ base + total size n0 k
  pub room : w.noc_len ≤ noc_page_size
  pub open_link : takes_payload (w.tags s).state ≡ true
  pub bytes :
      (m j : ℕ)
      → m < k
      → j < size (suc (n0 + m))
      → page (base + total size n0 m + j) ≡ payload (suc (n0 + m)) j

-- The payload with a number comes in.
abbrev pub deliver : ℕ → ℕ → (ℕ → ℕ) → (ℕ → Bytes) → ℕ → World → Opcode × World
deliver i s size payload t w = receive_payload i s (payload t) (size t) t w

abbrev pub deliver_all : ℕ → ℕ → (ℕ → ℕ) → (ℕ → Bytes) → List ℕ → World → World
deliver_all i s size payload [] w = w
deliver_all i s size payload (t ∷ ts) w =
    deliver_all i s size payload ts (deliver i s size payload t w).1

abbrev pub AreNumbers : List ℕ → Type 0
AreNumbers [] = Unit {0}
AreNumbers (t ∷ ts) = (0 < t) × (t < 2 ^ 32) × AreNumbers ts

module _ (i s : ℕ) (size : ℕ → ℕ) (payload : ℕ → Bytes) (full : (t : ℕ) → 0 < size t)
    (n0 base : ℕ) where
  total_mono : (m k j : ℕ) → m < k → j < size (suc (n0 + m)) → total size n0 m + j < total size n0 k
  total_mono m zero j h l = absurd (omega arith)
  total_mono m (suc k) j h l = elim (dec_lt m k) [
    | yes p ↦ omega (arith, total_mono m k j p l)
    | no p ↦
        let e : m ≡ k = omega arith in
        subst (λ x. total size n0 m + j < total size n0 x + size (suc (n0 + x))) e (omega arith)
  ]

  old_byte : (page src : Bytes) (at nl a : ℕ) → a < at → page_with page at src nl a ≡ page a
  old_byte page src at nl a h = ground arith

  new_byte : (page src : Bytes) (at nl j : ℕ) → j < nl → page_with page at src nl (at + j) ≡ src j
  new_byte page src at nl j h = let e : at + j - at ≡ j = omega arith in ground (arith, ap src e)

  kept :
      (k : ℕ) (w v : World)
      → Received s size payload n0 base k w
      → Kept s w v
      → Received s size payload n0 base k v
  kept k w v r p = record {
    page = r.page;
    there = p.page ∙ r.there;
    rx = p.rx ∙ r.rx;
    small = r.small;
    len = p.len ∙ r.len;
    room = omega (arith, p.len, r.room);
    open_link = ap takes_payload p.state ∙ r.open_link;
    bytes = r.bytes;
  }

  last_bytes :
      (k j : ℕ) (w : World) (r : Received s size payload n0 base k w)
      → j < size (suc (n0 + k))
      → page_with r.page w.noc_len
          (payload (suc (n0 + k)))
          (size (suc (n0 + k)))
          (base + total size n0 k + j)
        ≡ payload (suc (n0 + k)) j
  last_bytes k j w r l =
      let e : base + total size n0 k + j ≡ w.noc_len + j = omega (arith, r.len) in
      ap (page_with r.page w.noc_len (payload (suc (n0 + k))) (size (suc (n0 + k)))) e
      ∙ new_byte r.page (payload (suc (n0 + k))) w.noc_len (size (suc (n0 + k))) j l

  bytes_more :
      (k : ℕ) (w : World) (r : Received s size payload n0 base k w) (m j : ℕ)
      → m < suc k
      → j < size (suc (n0 + m))
      → page_with r.page w.noc_len
          (payload (suc (n0 + k)))
          (size (suc (n0 + k)))
          (base + total size n0 m + j)
        ≡ payload (suc (n0 + m)) j
  bytes_more k w r m j h l = elim (dec_lt m k) [
    | yes p ↦
        old_byte r.page (payload (suc (n0 + k))) w.noc_len (size (suc (n0 + k)))
          (base + total size n0 m + j) (omega (arith, r.len, total_mono m k j p l))
        ∙ r.bytes m j p l
    | no p ↦
        let e : k ≡ m = omega arith in
        subst
          (λ x.
            (y : ℕ)
            → y < size (suc (n0 + x))
            → page_with r.page w.noc_len (payload (suc (n0 + k))) (size (suc (n0 + k)))
                (base + total size n0 x + y)
              ≡ payload (suc (n0 + x)) y)
          e (λ y b. last_bytes k y w r b) j l
  ]

  more :
      (k : ℕ) (w v : World) (r : Received s size payload n0 base k w)
      → suc (n0 + k) < 2 ^ 32
      → w.noc_len + size (suc (n0 + k)) ≤ noc_page_size
      → Added s (payload (suc (n0 + k))) (size (suc (n0 + k))) r.page w v
      → Received s size payload n0 base (suc k) v
  more k w v r h f p = record {
    page = page_with r.page w.noc_len (payload (suc (n0 + k))) (size (suc (n0 + k)));
    there = p.page_is;
    rx = omega (arith, p.rx, r.rx);
    small = omega arith;
    len = omega (arith, p.len, r.len);
    room = omega (arith, p.len);
    open_link = ap takes_payload p.state ∙ r.open_link;
    bytes = bytes_more k w r;
  }

  abbrev pub Progress : ℕ → ℕ → World → Opcode × World → Type 0
  Progress k t w r =
      (Received s size payload n0 base k r.1 × ((r.0 ≢ ttp_ack) ⊎ (t ≤ n0 + k)))
      ⊎ ((t ≡ suc (n0 + k)) × Received s size payload n0 base (suc k) r.1)

  -- The page holds the first so many payloads of one link, none of them empty. When one with a number from 1 to
  -- 2^32 - 1 comes in, either it is the next one and the page grows by exactly that payload, or the page holds
  -- what it held, and then an ACK is answered only for a payload received before.
  pub deliver-Progress :
      (k t : ℕ) (w : World)
      → Received s size payload n0 base k w
      → 0 < t
      → t < 2 ^ 32
      → Progress k t w (deliver i s size payload t w)
  deliver-Progress k t w r h b =
      elim (receive_payload_outcome i s (payload t) (size t) t w r.page r.there r.room r.open_link
        (full t)) [
          | inl (e, f, a, o) ↦
              let v = (deliver i s size payload t w).1 in
              let q : t ≡ suc (n0 + k) = omega (arith, r.rx) in
              inr (
                q,
                more k w v r (subst (λ x. x < 2 ^ 32) q b)
                    (subst (λ x. w.noc_len + size x ≤ noc_page_size) q f)
                    (subst (λ x. Added s (payload x) (size x) r.page w v) q a),
              )
          | inr (inl (e, f, a, o)) ↦ inl (kept k w _ r a, inl cc)
          | inr (inr (e, a, o)) ↦ inl (kept k w _ r a, ground (arith, r.rx, r.small))
        ]

  after :
      (k t : ℕ) (w : World)
      → Progress k t w (deliver i s size payload t w)
      → (k' : ℕ) × (k ≤ k') × Received s size payload n0 base k' (deliver i s size payload t w).1
  after k t w (inl (r, o)) = (k, omega arith, r)
  after k t w (inr (e, r)) = (suc k, omega arith, r)

  -- The payloads of one link, none of them empty and with numbers from 1 to 2^32 - 1, come in in whatever order and however
  -- often, and no other link's in between: what the page holds from a place on are the payloads after a first number, in
  -- their order, each exactly once and none left out, and their count never falls.
  pub page_in_order :
      (ts : List ℕ) (k : ℕ) (w : World)
      → Received s size payload n0 base k w
      → AreNumbers ts
      → (k' : ℕ) × (k ≤ k') × Received s size payload n0 base k' (deliver_all i s size payload ts w)
  page_in_order [] k w r h = (k, omega arith, r)
  page_in_order (t ∷ ts) k w r h =
      let (k', l, r') = after k t w (deliver-Progress k t w r h.0 h.1) in
      let (k'', l', r'') = page_in_order ts k' (deliver i s size payload t w).1 r' h.2 in
      (k'', omega arith, r'')
