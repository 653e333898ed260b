-- ===== src/Device/Short.antt =====
-- A payload of two bytes.
use ttpoe.Common.{ℕ, ◌≡◌, refl, sym, ◌∙◌, ap, subst, none, some, List, [], ◌∷◌, ◌++◌, arith}
use ttpoe.Fsm.{txq_ttp_payload, ttp_payload}
use ttpoe.Key.{set_gwf}
use ttpoe.World.{World, noc_elem, noc_payload_tx}
use ttpoe.World.Access.{with_event}
use ttpoe.Tag.{evlog_add, tag_get}
use ttpoe.Tag.Log.{evlog_add-SameButLog}
use ttpoe.Queue.{evt_pget, evt_pput, noc_enqu}
use ttpoe.Queue.Pool.{evt_pput-Put}
use ttpoe.Enter.Full.{get_cong}
use ttpoe.Device.{HostInfo, Result, done, noc_debug_tx, tx_force, queue_payload}

-- The key that a control packet is sent by: the gateway flag alone.
abbrev pub control_key : ℕ
control_key = set_gwf 1 0

-- The event goes from the front of the pool to its end; no tag and no queue changes.
pub record Lost (i : ℕ) (p : List ℕ) (w v : World) : Type 0 where
  pub pool : v.pool_head ≡ p ++ (i ∷ [])
  pub tags : v.tags ≡ w.tags
  pub rx : v.rxq_head ≡ w.rxq_head
  pub tx : v.txq_head ≡ w.txq_head
  pub ak : v.akq_head ≡ w.akq_head
  pub inq : v.inq_head ≡ w.inq_head
  pub nocq : v.stats.nocq ≡ w.stats.nocq

record Popped (p : List ℕ) (w v : World) : Type 0 where
  pool : v.pool_head ≡ p
  tags : v.tags ≡ w.tags
  root : v.tag_rbroot ≡ w.tag_rbroot
  rx : v.rxq_head ≡ w.rxq_head
  tx : v.txq_head ≡ w.txq_head
  ak : v.akq_head ≡ w.akq_head
  inq : v.inq_head ≡ w.inq_head
  nocq : v.stats.nocq ≡ w.stats.nocq

popped :
    (i : ℕ) (p : List ℕ) (w : World)
    → w.pool_head ≡ i ∷ p
    → Popped p w (evt_pget w).0 × ((evt_pget w).1 ≡ some i)
popped i p w h =
    unfold evt_pget in
    rw (h, evt_pget)
      (
        record {
          pool = refl;
          tags = refl;
          root = refl;
          rx = refl;
          tx = refl;
          ak = refl;
          inq = refl;
          nocq = refl;
        },
        refl,
      )

module _ (buf n i : ℕ) (p : List ℕ) (tg : HostInfo) (w : World) (pool : w.pool_head ≡ i ∷ p)
    (missing : tag_get w control_key ≡ none) where
  u : World
  u = (evt_pget w).0

  filled : World
  filled =
      with_event i
        (λ e. record e {
          evt = txq_ttp_payload;
          kid = control_key;
          mrk = noc_elem;
          psi = record e.psi { noc_len = 2; skb_dat = buf; skb_len = (u.skbs n).len };
          tsk = some n;
        })
        u

  logged : World
  logged = evlog_add i noc_payload_tx ttp_payload filled

  forced : noc_debug_tx buf (some n) 2 txq_ttp_payload tg w ≡ (noc_enqu i logged, done 2)
  unfolding logged filled u queue_payload
  forced = unfold noc_debug_tx tx_force in rw ((popped i p w pool).1, noc_debug_tx, tx_force) refl

  filled_rest :
      (filled.tags ≡ u.tags)
      × (filled.tag_rbroot ≡ u.tag_rbroot)
      × (filled.pool_head ≡ u.pool_head)
      × (filled.stats ≡ u.stats)
      × ((filled.events i).kid ≡ control_key)
      × (filled.rxq_head ≡ u.rxq_head)
      × (filled.txq_head ≡ u.txq_head)
      × (filled.akq_head ≡ u.akq_head)
      × (filled.inq_head ≡ u.inq_head)
  unfolding filled
  filled_rest = (refl, refl, refl, refl, ground arith, refl, refl, refl, refl)

  still_missing : tag_get logged (logged.events i).kid ≡ none
  unfolding logged u
  still_missing =
      let g = evlog_add-SameButLog i noc_payload_tx ttp_payload filled in
      let q = (popped i p w pool).0 in
      ap (tag_get logged) (ap (λ e. (e i).kid) g.events ∙ filled_rest.4)
      ∙ get_cong control_key logged w (g.tags ∙ filled_rest.0 ∙ q.tags)
          (g.tag_rbroot ∙ filled_rest.1 ∙ q.root)
      ∙ missing

  given_up : noc_enqu i logged ≡ evt_pput i logged
  given_up = unfold noc_enqu in rw (still_missing, noc_enqu) refl

  put-Lost : Lost i p w (evt_pput i logged)
  unfolding logged u
  put-Lost =
      let g = evlog_add-SameButLog i noc_payload_tx ttp_payload filled in
      let q = (popped i p w pool).0 in
      let r = evt_pput-Put i logged in
      record {
        pool = r.pool_head ∙ ap (λ l. l ++ (i ∷ [])) (g.pool_head ∙ filled_rest.2 ∙ q.pool);
        tags = r.tags ∙ g.tags ∙ filled_rest.0 ∙ q.tags;
        rx = r.rxq_head ∙ g.rxq_head ∙ filled_rest.5 ∙ q.rx;
        tx = r.txq_head ∙ g.txq_head ∙ filled_rest.6 ∙ q.tx;
        ak = r.akq_head ∙ g.akq_head ∙ filled_rest.7 ∙ q.ak;
        inq = r.inq_head ∙ g.inq_head ∙ filled_rest.8 ∙ q.inq;
        nocq = r.nocq ∙ g.nocq ∙ ap (λ c. c.nocq) filled_rest.3 ∙ q.nocq;
      }

  -- A payload of exactly two bytes, while the pool has an event and no link has the key 0 in its part for the tree, is
  -- reported as sent and is lost whatever its target: no tag and no queue changes, and its event goes back to the pool.
  pub two_bytes-Lost :
      Lost i p w (noc_debug_tx buf (some n) 2 txq_ttp_payload tg w).0
      × ((noc_debug_tx buf (some n) 2 txq_ttp_payload tg w).1 ≡ done 2)
  two_bytes-Lost =
      subst (λ (r : World × Result). Lost i p w r.0 × (r.1 ≡ done 2)) (sym forced)
        (subst (λ v. Lost i p w v) (sym given_up) put-Lost, refl)
