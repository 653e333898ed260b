-- ===== src/Travel/Sending.antt =====
-- The moves of what a user sends through the device.
use ttpoe.Common.{
  ◌⊎◌, ◌/◌, ◌*◌, ◌^◌, Option-cases, Bool-cases, inl, inr, ℕ, ◌+◌, ◌-◌, ◌%◌, ◌≡◌, ◌≢◌, refl, sym,
  ◌∙◌, Bool, true, false, ◌&&◌, not, Option, none, some, List, ◌∷◌, arith, ◌==◌, ltb, if◌then◌else◌,
}
use ttpoe.World.{World, Skb, FsmEvent, ctl_elem, noc_elem, noc_payload_tx}
use ttpoe.World.Access.{with_event, with_skb, bug_on, is_some, kfree_skb}
use ttpoe.Fsm.{Event, txq_ttp_payload, ttp_payload}
use ttpoe.Key.{set_gwf, tag_key_make}
use ttpoe.Tag.{tag_get, evlog_add, tag_add}
use ttpoe.Bloom.{bloom_add}
use ttpoe.Frame.{Bytes, skb_pars, no_frame_hdr, no_pkt_info, is_valid_ether_addr}
use ttpoe.Buffer.{skb_aloc, host_part}
use ttpoe.Queue.{evt_pget, evt_enqu, noc_enqu, noc_requ}
use ttpoe.Noc.{page_with}
use ttpoe.Device.{
  HostInfo, Errno, enomem, efault, enetdown, ehostdown, eaddrnotavail, Result, error, done, oui_mac,
  noc_debug_tgt, queue_payload, is_payload, tx_force, tx_tag, noc_debug_tx, noc_dat_size, write_to,
  noc_debug_write, noc_debug_release,
}
use ttpoe.Travel.{Still, Moves, still, also}
use ttpoe.Travel.Quiet.{
  Still-refl, Still-trans, with_event-Still, with_skb-Still, evlog_add-Still, bug_on-Still,
  tag_add-Still, bloom_add-Still, skb_aloc-Still,
}
use ttpoe.Travel.Queues.{held, pget-Moves}
use ttpoe.Travel.Payloads.{enqu_scheduled-Moves}
use ttpoe.Travel.Requeue.{noc_enqu-Moves, noc_requ-Moves}

true-ne-false : true ≢ false
true-ne-false e = cc

pub tgt-Still : (z : ℕ) (tg : HostInfo) (w : World) → Still z w (noc_debug_tgt tg w).0
unfolding noc_debug_tgt
tgt-Still z tg w =
    let low : Bytes = λ i. tg.mac (i + 3) in
    let node = host_part w.config.ipv4_pfxlen tg.ipa in
    let ip : Bytes = λ i. node / 2 ^ (8 * (2 - i)) % 256 in
    let k1 = tag_key_make (some (oui_mac ip)) tg.vc false true in
    let k2 = tag_key_make (some (oui_mac low)) tg.vc tg.gw false in
    ground (arith, tag_add-Still z k1 w, tag_add-Still z k2 w)

queue_payload-Moves :
    (i n buf nl kid : ℕ) (lt : Option ℕ) (h : List ℕ) (w : World)
    → Moves (i ∷ h) w h (queue_payload i n buf nl kid lt w)
unfolding queue_payload
queue_payload-Moves i n buf nl kid lt h w =
    let f = λ (e : FsmEvent). record e {
      evt = txq_ttp_payload;
      kid = kid;
      mrk = noc_elem;
      psi = record e.psi { noc_len = nl; skb_dat = buf; skb_len = (w.skbs n).len };
      tsk = some n;
    } in
    let w1 = with_event i f w in
    let w2 = evlog_add i noc_payload_tx ttp_payload w1 in
    let w3 = noc_enqu i w2 in
    let m : Moves (i ∷ h) w h w3 =
      also
        (still (i ∷ h) w w2 (λ z.
          Still-trans (with_event-Still z i f w)
            (evlog_add-Still z i noc_payload_tx ttp_payload w1)))
        (noc_enqu-Moves i h w2) in
    (elim lt
      as (λ o. Moves (i ∷ h) w h (elim o as (λ x. World) [ none ↦ w3 | some s ↦ noc_requ s w3 ])) [
        | none ↦ m
        | some s ↦ also m (noc_requ-Moves s h w3)
      ])

-- A payload comes with a buffer.
abbrev Fits : Event → Option ℕ → Type 0
Fits evnt skb = (is_payload evnt ≡ false) ⊎ ((n : ℕ) × (skb ≡ some n))

tx_force-Moves :
    (buf : ℕ) (skb : Option ℕ) (nl : ℕ) (evnt : Event) (kid : ℕ) (lt : Option ℕ) (h : List ℕ)
    (w : World)
    → Fits evnt skb
    → Moves h w h (tx_force buf skb nl evnt kid lt w).0
unfolding tx_force
tx_force-Moves buf skb nl evnt kid lt h w fits = go (evt_pget w).1 refl (pget-Moves h w) fits
  where
    go :
        (o : Option ℕ)
        → (evt_pget w).1 ≡ o
        → Moves h w (held o h) (evt_pget w).0
        → Fits evnt skb
        → Moves h w h (tx_force buf skb nl evnt kid lt w).0
    go none e m f = rw (e, tx_force) m
    go (some i) e m f =
        let u = (evt_pget w).0 in
        let b = is_some skb in
        let v = bug_on b u in
        let g = λ (x : FsmEvent). record x { evt = evnt; kid = kid; mrk = ctl_elem } in
        let control : Moves h w h (evt_enqu i (with_event i g v)) = also m (
          also
            (still (i ∷ h) u (with_event i g v)
              (λ z. Still-trans (bug_on-Still z b u) (with_event-Still z i g v)))
            (enqu_scheduled-Moves i h (with_event i g v))) in
        elim (Bool-cases (is_payload evnt)) [
          | inr p ↦ rw (e, p, tx_force) control
          | inl p ↦ elim f [
            | inl other ↦ absurd (true-ne-false (sym p ∙ other))
            | inr (n, is) ↦
                rw (e, p, is, tx_force) (also m (queue_payload-Moves i n buf nl kid lt h u))
          ]
        ]

tx_tag-Moves :
    (buf : ℕ) (skb : Option ℕ) (nl : ℕ) (evnt : Event) (kid : ℕ) (h : List ℕ) (w : World)
    → Fits evnt skb
    → Moves h w h (tx_tag buf skb nl evnt kid w).0
unfolding tx_tag
tx_tag-Moves buf skb nl evnt kid h w fits =
    let b = bloom_add kid w in
    let made = tag_add kid b in
    let m : Moves h w h made.0 =
      still h w made.0 (λ z. Still-trans (bloom_add-Still z kid w) (tag_add-Still z kid b)) in
    elim (Option-cases (tag_get w kid)) [
      | inr (s, e) ↦ rw (e, tx_tag) (tx_force-Moves buf skb nl evnt kid (some s) h w fits)
      | inl e ↦ elim (Bool-cases (is_some skb)) [
        | inl f ↦ rw (e, f, tx_tag) (still h w w (λ z. Still-refl z w))
        | inr f ↦ elim (Bool-cases (made.1 == 1)) [
          | inl g ↦ rw (e, f, g, tx_tag) m
          | inr g ↦ elim (Option-cases (tag_get made.0 kid)) [
            | inl k ↦ rw (e, f, g, k, tx_tag) m
            | inr (s, k) ↦
                rw (e, f, g, k, tx_tag)
                  (also m (tx_force-Moves buf skb nl evnt kid (some s) h made.0 fits))
          ]
        ]
      ]
    ]

pub Result-cases : (r : Result) → ((e : Errno) × (r ≡ error e)) ⊎ ((c : ℕ) × (r ≡ done c))
Result-cases (error e) = inl (e, refl)
Result-cases (done c) = inr (c, refl)

dropped-Moves : (n : ℕ) (h : List ℕ) (w : World) → Moves h w h (kfree_skb n w)
dropped-Moves n h w =
    still h w (kfree_skb n w) (λ z. with_skb-Still z n (λ b. record b { users = b.users - 1 }) w)

empty-Moves :
    (skb : Option ℕ) (h : List ℕ) (w : World)
    → Moves h w h (elim skb as (λ x. World) [ none ↦ w | some n ↦ kfree_skb n w ])
empty-Moves none h w = still h w w (λ z. Still-refl z w)
empty-Moves (some n) h w = dropped-Moves n h w

pub noc_debug_tx-Moves :
    (buf : ℕ) (skb : Option ℕ) (nl : ℕ) (evnt : Event) (tg : HostInfo) (h : List ℕ) (w : World)
    → Fits evnt skb
    → Moves h w h (noc_debug_tx buf skb nl evnt tg w).0
unfolding noc_debug_tx
noc_debug_tx-Moves buf skb nl evnt tg h w fits =
    let t = noc_debug_tgt tg w in
    let m : Moves h w h t.0 = still h w t.0 (λ z. tgt-Still z tg w) in
    elim (Bool-cases (is_some skb && (nl == 0))) [
      | inl e ↦ rw (e, noc_debug_tx) (empty-Moves skb h w)
      | inr e ↦ elim (Bool-cases (nl == 2)) [
        | inl f ↦
            rw (e, f, noc_debug_tx) (tx_force-Moves buf skb nl evnt (set_gwf 1 0) none h w fits)
        | inr f ↦ elim (Result-cases t.1) [
          | inl (x, g) ↦ rw (e, f, g, noc_debug_tx) m
          | inr (c, g) ↦
              rw (e, f, g, noc_debug_tx) (also m (tx_tag-Moves buf skb nl evnt t.2 h t.0 fits))
        ]
      ]
    ]

write_to-Moves :
    (tg : HostInfo) (user : Bytes) (nb left n : ℕ) (h : List ℕ) (w : World)
    → Moves h w h (write_to tg user nb left n w).0
unfolding write_to
write_to-Moves tg user nb left n h w =
    let fh = (skb_pars (w.skbs n) no_frame_hdr no_pkt_info).0 in
    let g = λ (b : Skb). record b { bytes = page_with b.bytes fh.noc user nb } in
    let w1 = with_skb n g w in
    let buf = (w.skbs n).dat in
    let r = noc_debug_tx buf (some n) nb txq_ttp_payload tg w1 in
    let m : Moves h w h r.0 =
      also (still h w w1 (λ z. with_skb-Still z n g w))
        (noc_debug_tx-Moves buf (some n) nb txq_ttp_payload tg h w1 (inr (n, refl))) in
    elim (Bool-cases (left == 0)) [
      | inr e ↦ rw (e, write_to) (dropped-Moves n h w)
      | inl e ↦ elim (Result-cases r.1) [
        | inl (x, f) ↦ rw (e, f, write_to) (also m (dropped-Moves n h r.0))
        | inr (c, f) ↦ rw (e, f, write_to) m
      ]
    ]

-- The buffer there or not.
written-Moves :
    (tg : HostInfo) (user : Bytes) (nb left : ℕ) (h : List ℕ) (w : World)
    → let got = skb_aloc nb w in
      let written : World × Result = elim got.1 [
        | none ↦ (got.0, error enomem)
        | some n ↦ write_to tg user nb left n got.0
      ] in
      Moves h w h written.0
written-Moves tg user nb left h w =
    let got = skb_aloc nb w in
    let m : Moves h w h got.0 = still h w got.0 (λ z. skb_aloc-Still z nb w) in
    elim (Option-cases got.1) [
      | inl e ↦ rw e m
      | inr (n, e) ↦ rw e (also m (write_to-Moves tg user nb left n h got.0))
    ]

if-Moves :
    (h : List ℕ) (w : World) (b : Bool) (x y : World × Result)
    → Moves h w h x.0
    → Moves h w h y.0
    → Moves h w h (if b then x else y).0
if-Moves h w true x y p q = p
if-Moves h w false x y p q = q

pub noc_debug_write-Moves :
    (tg : HostInfo) (user : Bytes) (nbytes left : ℕ) (h : List ℕ) (w : World)
    → Moves h w h (noc_debug_write tg user nbytes left w).0
unfolding noc_debug_write
noc_debug_write-Moves tg user nbytes left h w =
    let nb = if ltb noc_dat_size nbytes then noc_dat_size else nbytes in
    let got = skb_aloc nb w in
    let written : World × Result = elim got.1 [
      | none ↦ (got.0, error enomem)
      | some n ↦ write_to tg user nb left n got.0
    ] in
    let m = written-Moves tg user nb left h w in
    let same : Moves h w h w = still h w w (λ z. Still-refl z w) in
    let ip : World × Result = if tg.ipa == 0 then (w, error eaddrnotavail) else written in
    let mac : World × Result =
      if is_valid_ether_addr tg.mac then written else (w, error eaddrnotavail) in
    let aimed : World × Result = if w.config.ipv4_encap then ip else mac in
    let up : World × Result = if not tg.ve then (w, error ehostdown) else aimed in
    if-Moves h w (nbytes == 0) (w, error efault)
      (if w.config.shutdown then (w, error enetdown) else up) same
      (if-Moves h w w.config.shutdown (w, error enetdown) up same
        (if-Moves h w (not tg.ve) (w, error ehostdown) aimed same
          (if-Moves h w w.config.ipv4_encap ip mac
            (if-Moves h w (tg.ipa == 0) (w, error eaddrnotavail) written same m)
            (if-Moves h w (is_valid_ether_addr tg.mac) written (w, error eaddrnotavail) m same))))

pub release-Still : (z : ℕ) (used : Bool) (w : World) → Still z w (noc_debug_release used w)
unfolding noc_debug_release
release-Still z used w = ground arith
