-- ===== src/Receive/Intake.antt =====
-- What becomes of a frame that was queued.
use ttpoe.Common.{
  ℕ, ◌≡◌, ◌⊎◌, inl, inr, refl, sym, ◌∙◌, ap, subst, Bool, true, false, Option, none, some, List, [],
  ◌∷◌, ◌++◌, Option-cases,
}
use ttpoe.Fsm.{Opcode}
use ttpoe.World.{World}
use ttpoe.World.Access.{kfree_skb}
use ttpoe.Frame.{FrameHdr, skb_pars, no_frame_hdr, no_pkt_info}
use ttpoe.Queue.{evt_pget}
use ttpoe.Receive.{skb_dequ, frame_opcode, file_frame, sender_key}
use ttpoe.Receive.Filing.{Filed, real_opcode, file_frame-Filed}

-- The pool gives its first event, and nothing else changes that a frame is filed by.
record Got (i : ℕ) (p : List ℕ) (w v : World) : Type 0 where
  pool : v.pool_head ≡ p
  rx : v.rxq_head ≡ w.rxq_head
  tx : v.txq_head ≡ w.txq_head
  ak : v.akq_head ≡ w.akq_head
  inq : v.inq_head ≡ w.inq_head
  config : v.config ≡ w.config
  skbs : v.skbs ≡ w.skbs

pget-Got :
    (i : ℕ) (p : List ℕ) (w : World)
    → w.pool_head ≡ i ∷ p
    → Got i p w (evt_pget w).0 × ((evt_pget w).1 ≡ some i)
pget-Got i p w h =
    unfold evt_pget in
    rw (h, evt_pget)
      (
        record {
          pool = refl;
          rx = refl;
          tx = refl;
          ak = refl;
          inq = refl;
          config = refl;
          skbs = refl;
        },
        refl,
      )

-- The queues, the pool and the tags are as they were.
pub record Unqueued (w v : World) : Type 0 where
  pub rx : v.rxq_head ≡ w.rxq_head
  pub tx : v.txq_head ≡ w.txq_head
  pub ak : v.akq_head ≡ w.akq_head
  pub inq : v.inq_head ≡ w.inq_head
  pub pool : v.pool_head ≡ w.pool_head
  pub tags : v.tags ≡ w.tags

pget_empty : (w : World) → w.pool_head ≡ [] → Unqueued w (evt_pget w).0 × ((evt_pget w).1 ≡ none)
pget_empty w h =
    unfold evt_pget in
    rw (h, evt_pget)
      (record { rx = refl; tx = refl; ak = refl; inq = refl; pool = h; tags = refl }, refl)

through :
    (i n : ℕ) (op : Opcode) (fh : FrameHdr) (p : List ℕ) (w u v : World)
    → Got i p w u
    → Filed i n op fh u.pool_head u v
    → Filed i n op fh p w v
through i n op fh p w u v g f = record {
  rx = f.rx ∙ ap (λ l. l ++ (i ∷ [])) g.rx;
  tx = f.tx ∙ g.tx;
  ak = f.ak ∙ g.ak;
  inq = f.inq ∙ g.inq;
  pool = f.pool ∙ g.pool;
  evt = f.evt;
  kid =
      f.kid
      ∙ ap (λ c. sender_key c (u.skbs n) fh) g.config
      ∙ ap (λ b. sender_key w.config (b n) fh) g.skbs;
  rsk = f.rsk;
}

abbrev pub headers : ℕ → World → FrameHdr
headers n w = (skb_pars (w.skbs n) no_frame_hdr no_pkt_info).0

-- The opcode of a frame, if it has a known ethertype, a valid virtual channel and a valid opcode.
abbrev pub opcode_found : ℕ → World → Option Opcode
opcode_found n w =
    frame_opcode (w.skbs n) (headers n w) (skb_pars (w.skbs n) no_frame_hdr no_pkt_info).2

list_cases : (q : List ℕ) → (q ≡ []) ⊎ ((i : ℕ) × (p : List ℕ) × (q ≡ i ∷ p))
list_cases [] = inl refl
list_cases (i ∷ p) = inr (i, p, refl)

module _ (n : ℕ) (rest : List ℕ) (w : World) (head : w.skb_head ≡ n ∷ rest) where
  abbrev w0 : World
  w0 = record w { skb_head = rest }

  dropped_bad : opcode_found n w ≡ none → Unqueued w (skb_dequ w).0 × ((skb_dequ w).1 ≡ false)
  dropped_bad h =
      unfold skb_dequ in
      rw (head, h, skb_dequ)
        (record { rx = refl; tx = refl; ak = refl; inq = refl; pool = refl; tags = refl }, refl)

  full_is :
      (op : Opcode)
      → opcode_found n w ≡ some op
      → w.pool_head ≡ []
      → skb_dequ w ≡ (kfree_skb n (evt_pget w0).0, false)
  full_is op h e = unfold skb_dequ in rw (head, h, (pget_empty w0 e).1, skb_dequ) refl

  dropped_full :
      (op : Opcode)
      → opcode_found n w ≡ some op
      → w.pool_head ≡ []
      → Unqueued w (skb_dequ w).0 × ((skb_dequ w).1 ≡ false)
  dropped_full op h e =
      let u = pget_empty w0 e in
      subst (λ (r : World × Bool). Unqueued w r.0 × (r.1 ≡ false)) (sym (full_is op h e))
        (
          let q = u.0 in
              record { rx = q.rx; tx = q.tx; ak = q.ak; inq = q.inq; pool = q.pool; tags = q.tags },
          refl,
        )

  taken_is :
      (op : Opcode) (i : ℕ) (p : List ℕ)
      → opcode_found n w ≡ some op
      → w.pool_head ≡ i ∷ p
      → skb_dequ w ≡ (
        file_frame i n op
            (headers n w)
            (skb_pars (w.skbs n) no_frame_hdr no_pkt_info).1
            (evt_pget w0).0,
        true,
      )
  taken_is op i p h e = unfold skb_dequ in rw (head, h, (pget-Got i p w0 e).1, skb_dequ) refl

  taken :
      (op : Opcode) (i : ℕ) (p : List ℕ)
      → opcode_found n w ≡ some op
      → w.pool_head ≡ i ∷ p
      → Filed i n op (headers n w) p w (skb_dequ w).0 × ((skb_dequ w).1 ≡ true)
  taken op i p h e =
      let g = pget-Got i p w0 e in
      let fh = headers n w in
      let pi = (skb_pars (w.skbs n) no_frame_hdr no_pkt_info).1 in
      let u = (evt_pget w0).0 in
      let f = file_frame-Filed i n op fh pi u (real_opcode (w.skbs n) fh _ op h) in
      subst (λ (r : World × Bool). Filed i n op fh p w r.0 × (r.1 ≡ true))
        (sym (taken_is op i p h e))
        (
          let t = through i n op fh p w0 u (file_frame i n op fh pi u) g.0 f in
              record {
                rx = t.rx;
                tx = t.tx;
                ak = t.ak;
                inq = t.inq;
                pool = t.pool;
                evt = t.evt;
                kid = t.kid;
                rsk = t.rsk;
              },
          refl,
        )

  -- The first frame that waits becomes an event if it has a known ethertype, a valid virtual channel and a valid opcode, and
  -- the pool has an event: the pool's first one is put last into the receive queue, as the event of the frame's opcode, with
  -- the key of the frame's sender and the frame's buffer, and the other queues stay. Otherwise no queue, no tag and not the
  -- pool changes.
  pub skb_dequ_outcome :
      ((op : Opcode) × (i : ℕ) × (p : List ℕ) × (opcode_found n w ≡ some op)
        × (w.pool_head ≡ i ∷ p)
        × Filed i n op (headers n w) p w (skb_dequ w).0
        × ((skb_dequ w).1 ≡ true))
      ⊎ (((opcode_found n w ≡ none) ⊎ (w.pool_head ≡ []))
          × Unqueued w (skb_dequ w).0
          × ((skb_dequ w).1 ≡ false))
  skb_dequ_outcome = elim (Option-cases (opcode_found n w)) [
    | inl h ↦ let d = dropped_bad h in inr (inl h, d.0, d.1)
    | inr (op, h) ↦ elim (list_cases w.pool_head) [
      | inl e ↦ let d = dropped_full op h e in inr (inr e, d.0, d.1)
      | inr (i, p, e) ↦ let d = taken op i p h e in inl (op, i, p, h, e, d.0, d.1)
    ]
  ]
