-- ===== src/Gateway/Timer/Aging.antt =====
-- The age of an entry, tick by tick.
use ttpoe.Common.{
  ℕ, zero, suc, ◌≡◌, refl, sym, ap, ◌∙◌, subst, true, false, some, leb, if◌then◌else◌, arith,
}
use ttpoe.World.{Kernel}
use ttpoe.Frame.{Bytes}
use ttpoe.Index.{slots}
use ttpoe.Index.Order.{IsFalling, find}
use ttpoe.Gateway.{Gw, MacEntry, mac_ageout_max}
use ttpoe.Gateway.Mac.{descend}
use ttpoe.Gateway.Mac.Order.{IsAddr, mac_key}
use ttpoe.Gateway.Table.{macs, mactbl_rbtree_find}
use ttpoe.Gateway.Table.Laws.{IsTable, keys, descend-find, find_free}
use ttpoe.Gateway.Timer.{gw_ctl_tmr_cb}
use ttpoe.Gateway.Timer.Walk.{older, Kept-trans, unchanged, Walked, cb-Walked}

-- The timer's callback over and over.
abbrev pub ticks : ℕ → Gw → Gw
ticks zero g = g
ticks (suc n) g = gw_ctl_tmr_cb (ticks n g)

-- An entry so many ticks after it was seen.
abbrev aged : ℕ → MacEntry → MacEntry
aged zero e = e
aged (suc n) e = older (aged n e)

-- An entry that was seen `n` ticks ago.
record Seen (n : ℕ) (e : MacEntry) : Type 0 where
  alive : e.vld ≡ leb n mac_ageout_max
  years : e.age ≡ (if leb n mac_ageout_max then n else mac_ageout_max)
  young : e.prm ≡ false

older-Seen : (n : ℕ) (e : MacEntry) → Seen n e → Seen (suc n) (older e)
older-Seen n e h = record {
  alive = ground (arith, h.young, h.years, h.alive);
  years = ground (arith, h.young, h.years, h.alive);
  young = ground (arith, h.young, h.years, h.alive);
}

aged-Seen : (n : ℕ) (e : MacEntry) → Seen 0 e → Seen n (aged n e)
aged-Seen zero e h = h
aged-Seen (suc n) e h = older-Seen n (aged n e) (aged-Seen n e h)

module _ (g : Gw) (m : Bytes) (s : ℕ) (h : IsTable g) (a : IsAddr m) (free : g.mutx_busy ≡ false)
    (found : mactbl_rbtree_find m g ≡ some s) (runs : g.shutdown ≡ false)
    (granted : (i : ℕ) → g.kernel.alloc_ok i ≡ true) where
  ticks-Walked : (n : ℕ) → Walked s (aged n (g.entries s)) g (ticks n g)
  ticks-Walked zero = record { became = refl; kept = (unchanged s g).kept }
  ticks-Walked (suc n) =
      let before = ticks-Walked n in
      let g' = ticks n g in
      let here : find (keys g) (mac_key m) (slots g.rbroot) ≡ some s =
        sym (descend-find g m h a) ∙ sym (find_free m g free) ∙ found in
      let one =
        cb-Walked (keys g) (mac_key m) s g'
          (subst (λ t. IsFalling (keys g) (slots t)) (sym before.kept.root) h.order)
          (subst (λ t. find (keys g) (mac_key m) (slots t) ≡ some s) (sym before.kept.root) here)
          (before.kept.shut ∙ runs)
          (ap (λ (k : Kernel). k.alloc_ok g'.next_alloc) before.kept.kern
            ∙ granted g'.next_alloc) in
      record {
        became = one.became ∙ ap older before.became;
        kept = Kept-trans g g' (gw_ctl_tmr_cb g') before.kept one.kept;
      }

  -- An address that is found in a table in order, under a node that is valid, not the gateway's own and was just seen,
  -- ages by one with each tick, while the gateway runs and has memory: up to 60 ticks it is valid, then it is not,
  -- and at any time its lookup still finds the node.
  pub entry_ages :
      (n : ℕ)
      → (g.entries s).vld ≡ true
      → (g.entries s).prm ≡ false
      → (g.entries s).age ≡ 0
      → (((ticks n g).entries s).vld ≡ leb n mac_ageout_max)
        × (((ticks n g).entries s).age ≡ (if leb n mac_ageout_max then n else mac_ageout_max))
        × (mactbl_rbtree_find m (ticks n g) ≡ some s)
  entry_ages n v p z =
      let w = ticks-Walked n in
      let seen = aged-Seen n (g.entries s) (record { alive = v; years = z; young = p }) in
      (
        ap (λ (e : MacEntry). e.vld) w.became ∙ seen.alive,
        ap (λ (e : MacEntry). e.age) w.became ∙ seen.years,
        find_free m (ticks n g) (w.kept.busy ∙ free)
            ∙ ap (λ (f : ℕ → Bytes). descend f m (ticks n g).rbroot) w.kept.addr
            ∙ ap (descend (macs g) m) w.kept.root
            ∙ sym (find_free m g free)
            ∙ found,
      )
