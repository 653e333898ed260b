-- ===== src/Gateway/Timer/Walk.antt =====
-- What one tick of the timer makes of the entries.
use ttpoe.Common.{
  ℕ, ◌+◌, ◌<◌, ◌≡◌, ◌≢◌, inl, inr, refl, sym, ap, ◌∙◌, subst, Bool, true, false, not, Option, none,
  some, List, [], ◌∷◌, leb, ◌==◌, ==_iff, ◌||◌, if◌then◌else◌, arith,
}
use ttpoe.World.{Skb}
use ttpoe.Frame.{Bytes}
use ttpoe.Index.{slots}
use ttpoe.Index.Order.{All, IsFalling, find, All-map}
use ttpoe.Gateway.{
  Gw, MacEntry, mac_ageout_old, mac_ageout_max, remote_del, with_entry, gateway_add, xmit,
}
use ttpoe.Gateway.Packet.{gw_ctl_send, ttpip_skb_aloc, fresh_skb}
use ttpoe.Gateway.Packet.Keeps.{
  SameTable, SameTable-refl, gw_ctl_send-SameTable, xmit-SameTable, ttpip_skb_aloc_granted,
}
use ttpoe.Gateway.Table.{macs}
use ttpoe.Gateway.Table.Add.{macs-with_entry}
use ttpoe.Gateway.Table.Erase.{find-split}
use ttpoe.Gateway.Timer.{
  advertisement, withdraw, tick, age_entry, age_entries, restart_ctl_tmr, gw_ctl_tmr_cb,
}

-- What a tick makes of an entry: it is a tick older, or dead once it is 60 ticks old.
abbrev pub older : MacEntry → MacEntry
older e =
    if not e.vld || e.prm
    then e
    else if leb mac_ageout_max e.age
    then record e { vld = false }
    else record e { age = e.age + 1 }

withdraw-SameTable : (s : ℕ) (g : Gw) → SameTable g (withdraw s g)
unfolding withdraw
withdraw-SameTable s g = go (not (g.entries s).rem)
  where
    go : (b : Bool) → SameTable g (if b then gw_ctl_send (g.entries s).mac remote_del g else g)
    go true = gw_ctl_send-SameTable (g.entries s).mac remote_del g
    go false = SameTable-refl g

module _ (s : ℕ) (f : MacEntry → MacEntry) (g : Gw) where
  with_entry_here : (with_entry s f g).entries s ≡ f (g.entries s)
  with_entry_here = ap (λ b. if b then f (g.entries s) else g.entries s) ((==_iff s s).1 refl)

  with_entry_there : (x : ℕ) → x ≢ s → (with_entry s f g).entries x ≡ g.entries x
  with_entry_there x d =
      let apart : (s == x) ≡ false = ground (arith, d) in
      ap (λ b. if b then f (g.entries s) else g.entries x) apart

-- The same tree of the same addresses.
pub record Kept (g g' : Gw) : Type 0 where
  pub root : g'.rbroot ≡ g.rbroot
  pub addr : macs g' ≡ macs g
  pub shut : g'.shutdown ≡ g.shutdown
  pub kern : g'.kernel ≡ g.kernel
  pub busy : g'.mutx_busy ≡ g.mutx_busy

pub Kept-trans : (g g' g'' : Gw) → Kept g g' → Kept g' g'' → Kept g g''
Kept-trans g g' g'' p q = record {
  root = q.root ∙ p.root;
  addr = q.addr ∙ p.addr;
  shut = q.shut ∙ p.shut;
  kern = q.kern ∙ p.kern;
  busy = q.busy ∙ p.busy;
}

pub SameTable-Kept : (g g' : Gw) → SameTable g g' → Kept g g'
SameTable-Kept g g' h = record {
  root = h.rbroot;
  addr = let of : (ℕ → MacEntry) → ℕ → Bytes = λ e x. (e x).mac in ap of h.entries;
  shut = h.shutdown;
  kern = h.kernel;
  busy = h.mutx_busy;
}

-- The entry `s` becomes `e`, the others stay.
pub record Changed (s : ℕ) (e : MacEntry) (g g' : Gw) : Type 0 where
  pub here : g'.entries s ≡ e
  pub there : (x : ℕ) → x ≢ s → g'.entries x ≡ g.entries x
  pub kept : Kept g g'

with_entry-Changed :
    (s : ℕ) (f : MacEntry → MacEntry) (g g' : Gw)
    → ((e : MacEntry) → (f e).mac ≡ e.mac)
    → SameTable g g'
    → Changed s (f (g.entries s)) g (with_entry s f g')
with_entry-Changed s f g g' m h = record {
  here = with_entry_here s f g' ∙ ap (λ (e : ℕ → MacEntry). f (e s)) h.entries;
  there = λ x d. with_entry_there s f g' x d ∙ ap (λ (e : ℕ → MacEntry). e x) h.entries;
  kept = record {
    root = h.rbroot;
    addr = macs-with_entry g' s f (m (g'.entries s)) ∙ (SameTable-Kept g g' h).addr;
    shut = h.shutdown;
    kern = h.kernel;
    busy = h.mutx_busy;
  };
}

pub unchanged : (s : ℕ) (g : Gw) → Changed s (g.entries s) g g
unchanged s g = record {
  here = refl;
  there = λ x d. refl;
  kept = SameTable-Kept g g (SameTable-refl g);
}

age_entry-Changed : (s : ℕ) (g : Gw) → Changed s (older (g.entries s)) g (age_entry s g)
unfolding age_entry
age_entry-Changed s g =
    go (not (g.entries s).vld || (g.entries s).prm) (leb mac_ageout_old (g.entries s).age)
      (leb mac_ageout_max (g.entries s).age) (λ e. ground arith)
  where
    e : MacEntry
    e = g.entries s

    kill : MacEntry → MacEntry
    kill x = record x { vld = false }

    grow : MacEntry → MacEntry
    grow x = record x { age = x.age + 1 }

    go :
        (dead old last : Bool)
        → (old ≡ false → last ≡ false)
        → Changed s (if dead then e else if last then kill e else grow e) g (
            if dead
            then g
            else if old
            then if last then with_entry s kill (withdraw s g) else with_entry s grow (withdraw s g)
            else with_entry s grow g)
    go true old last h = unchanged s g
    go false true true h =
        with_entry-Changed s kill g (withdraw s g) (λ x. refl) (withdraw-SameTable s g)
    go false true false h =
        with_entry-Changed s grow g (withdraw s g) (λ x. refl) (withdraw-SameTable s g)
    go false false last h =
        subst (λ (b : Bool). Changed s (if b then kill e else grow e) g (with_entry s grow g))
          (sym (h refl)) (with_entry-Changed s grow g g (λ x. refl) (SameTable-refl g))

-- What the walk leaves of an entry.
pub record Walked (s : ℕ) (e : MacEntry) (g g' : Gw) : Type 0 where
  pub became : g'.entries s ≡ e
  pub kept : Kept g g'

age_entries-outside :
    (xs : List ℕ) (s : ℕ) (g : Gw)
    → All (λ y. s ≢ y) xs
    → Walked s (g.entries s) g (age_entries xs g)
unfolding age_entries
age_entries-outside [] s g h = record { became = refl; kept = (unchanged s g).kept }
age_entries-outside (x ∷ xs) s g h =
    let one = age_entry-Changed x g in
    let rest = age_entries-outside xs s (age_entry x g) h.1 in
    record {
      became = rest.became ∙ one.there s h.0;
      kept = Kept-trans g (age_entry x g) (age_entries xs (age_entry x g)) one.kept rest.kept;
    }

age_entries-inside :
    (key : ℕ → ℕ) (k : ℕ) (xs : List ℕ) (s : ℕ) (g : Gw)
    → IsFalling key xs
    → find key k xs ≡ some s
    → Walked s (older (g.entries s)) g (age_entries xs g)
unfolding age_entries
age_entries-inside key k [] s g h e = absurd cc
age_entries-inside key k (x ∷ xs) s g h e =
    let one = age_entry-Changed x g in
    let next = age_entry x g in
    elim (find-split key k s x xs e) [
      | inl p ↦
          let apart : All (λ y. s ≢ y) xs =
            All-map (λ y. key y < key x) xs (λ y l q. below y l (ap key (p.0 ∙ q))) h.0 in
          let rest = age_entries-outside xs s next apart in
          record {
            became =
                rest.became ∙ subst (λ (y : ℕ). next.entries y ≡ older (g.entries y)) p.0 one.here;
            kept = Kept-trans g next (age_entries xs next) one.kept rest.kept;
          }
      | inr p ↦
          let rest = age_entries-inside key k xs s next h.1 p.2 in
          record {
            became = rest.became ∙ ap older (one.there s (λ q. p.0 (sym q)));
            kept = Kept-trans g next (age_entries xs next) one.kept rest.kept;
          }
    ]
  where
    below : (y : ℕ) → key y < key x → key x ≢ key y
    below y l q = omega arith

tick-Walked :
    (key : ℕ → ℕ) (k s : ℕ) (skb : Skb) (g : Gw)
    → IsFalling key (slots g.rbroot)
    → find key k (slots g.rbroot) ≡ some s
    → Walked s (older (g.entries s)) g (tick skb g)
unfolding tick
tick-Walked key k s skb g h e =
    let g2 = xmit g.tsla_dev (advertisement g skb) g in
    let g3 = age_entries (slots g2.rbroot) g2 in
    let mid = age_entries-inside key k (slots g2.rbroot) s g2 h e in
    let last = gw_ctl_send-SameTable (g3.net.dev_addr g3.tsla_dev) gateway_add g3 in
    record {
      became = ap (λ (f : ℕ → MacEntry). f s) last.entries ∙ mid.became;
      kept =
          Kept-trans g g3 (tick skb g)
            (Kept-trans g g2 g3
              (SameTable-Kept g g2 (xmit-SameTable g.tsla_dev (advertisement g skb) g)) mid.kept)
            (SameTable-Kept g3 (tick skb g) last);
    }

restart-Walked :
    (s : ℕ) (e : MacEntry) (g g' : Gw) → Walked s e g g' → Walked s e g (restart_ctl_tmr g')
restart-Walked s e g g' h = go g'.shutdown
  where
    set : Gw
    set = record g' {
      gw_ctl_tmr = record g'.gw_ctl_tmr {
        tmh = some (g'.jiffies + g'.kernel.msecs_to_jiffies g'.gw_ctl_tmr.exp);
      };
    }

    go : (b : Bool) → Walked s e g (if b then g' else set)
    go true = h
    go false = record {
      became = h.became;
      kept = record {
        root = h.kept.root;
        addr = h.kept.addr;
        shut = h.kept.shut;
        kern = h.kept.kern;
        busy = h.kept.busy;
      };
    }

-- The callback where the gateway runs and memory is granted.
cb_runs :
    (g : Gw)
    → g.shutdown ≡ false
    → g.kernel.alloc_ok g.next_alloc ≡ true
    → gw_ctl_tmr_cb g
      ≡ restart_ctl_tmr (tick (fresh_skb g) (record g { next_alloc = g.next_alloc + 1 }))
unfolding gw_ctl_tmr_cb
cb_runs g shut ok = ap running shut ∙ ap over (ttpip_skb_aloc_granted g ok)
  where
    over : Gw × Option Skb → Gw
    over r = restart_ctl_tmr (elim r.1 [ none ↦ r.0 | some skb ↦ tick skb r.0 ])

    running : Bool → Gw
    running b = restart_ctl_tmr (
        if b then g else elim (ttpip_skb_aloc g).1 [
          | none ↦ (ttpip_skb_aloc g).0
          | some skb ↦ tick skb (ttpip_skb_aloc g).0
        ])

pub cb-Walked :
    (key : ℕ → ℕ) (k s : ℕ) (g : Gw)
    → IsFalling key (slots g.rbroot)
    → find key k (slots g.rbroot) ≡ some s
    → g.shutdown ≡ false
    → g.kernel.alloc_ok g.next_alloc ≡ true
    → Walked s (older (g.entries s)) g (gw_ctl_tmr_cb g)
cb-Walked key k s g h e shut ok =
    let g1 = record g { next_alloc = g.next_alloc + 1 } in
    let one = tick-Walked key k s (fresh_skb g) g1 h e in
    subst (Walked s (older (g.entries s)) g) (sym (cb_runs g shut ok)) (
      restart-Walked s (older (g.entries s)) g (tick (fresh_skb g) g1) (record {
        became = one.became;
        kept = record {
          root = one.kept.root;
          addr = one.kept.addr;
          shut = one.kept.shut;
          kern = one.kept.kern;
          busy = one.kept.busy;
        };
      }))
