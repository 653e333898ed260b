-- ===== src/Gateway/Resolve/Slow.antt =====
-- The next-hop timer after its tries.
use ttpoe.Common.{
  ap, ◌*◌, ◌+◌, leb, ◌∙◌, sym, subst, Bool, if◌then◌else◌, ℕ, zero, suc, ◌≤◌, ◌≡◌, inl, inr, refl,
  true, false, arith, Bool-cases,
}
use ttpoe.Gateway.{Gw}
use ttpoe.Gateway.Resolve.{nh_mac_tmr_cb, reset_tmr, attempt, tick_wait, start_nh_tmr, set_try}

-- The callback over and over.
abbrev pub slow_rounds : ℕ → Gw → Gw
slow_rounds zero g = g
slow_rounds (suc n) g = nh_mac_tmr_cb (slow_rounds n g)

-- What stays once the tries are used up.
record Idle (g g' : Gw) : Type 0 where
  reset : g'.nh_mac_tmr.rst ≡ false
  spent : g'.nh_mac_tmr.max ≤ g'.nh_mac_tmr.try
  zones : g'.zones ≡ g.zones
  calls : g'.resolving ≡ g.resolving

cb-Idle :
    (g : Gw)
    → g.nh_mac_tmr.rst ≡ false
    → g.nh_mac_tmr.max ≤ g.nh_mac_tmr.try
    → Idle g (nh_mac_tmr_cb g)
unfolding nh_mac_tmr_cb
cb-Idle g r s = elim (Bool-cases g.shutdown) [
  | inl e ↦
      subst (Idle g) (sym (down e)) (record { reset = r; spent = s; zones = refl; calls = refl })
  | inr e ↦
      subst (Idle g) (sym (slow e))
        (record { reset = r; spent = omega arith; zones = refl; calls = refl })
]
  where
    fresh : reset_tmr g ≡ g
    fresh = ap pick r
      where
        pick : Bool → Gw
        pick b =
            if b then record g { nh_mac_tmr = record g.nh_mac_tmr { rst = false; try = 0 } } else g

    body : Bool → Gw → Gw
    body b g1 =
        if b
        then g
        else if leb g1.nh_mac_tmr.max g1.nh_mac_tmr.try
        then start_nh_tmr (tick_wait g1 * 50) (set_try (g1.nh_mac_tmr.max + 1) g1)
        else attempt g1

    down : g.shutdown ≡ true → nh_mac_tmr_cb g ≡ g
    down e = ap (λ b. body b (reset_tmr g)) e

    slow :
        g.shutdown ≡ false
        → nh_mac_tmr_cb g ≡ start_nh_tmr (tick_wait g * 50) (set_try (g.nh_mac_tmr.max + 1) g)
    slow e =
        let over : leb g.nh_mac_tmr.max g.nh_mac_tmr.try ≡ true = ground (arith, s) in
        ap (λ b. body b (reset_tmr g)) e
        ∙ ap (body false) fresh
        ∙ ap
            (λ b.
              if b
              then start_nh_tmr (tick_wait g * 50) (set_try (g.nh_mac_tmr.max + 1) g)
              else attempt g)
            over

-- Once the next-hop timer has tried as often as it may, and until it is reset, its rounds change no zone and ask for no
-- address, however many there are.
pub slow_scan_idle :
    (g : Gw)
    → g.nh_mac_tmr.rst ≡ false
    → g.nh_mac_tmr.max ≤ g.nh_mac_tmr.try
    → (n : ℕ) → ((slow_rounds n g).zones ≡ g.zones) × ((slow_rounds n g).resolving ≡ g.resolving)
slow_scan_idle g r s n = let h = idle n in (h.zones, h.calls)
  where
    idle : (n : ℕ) → Idle g (slow_rounds n g)
    idle zero = record { reset = r; spent = s; zones = refl; calls = refl }
    idle (suc n) =
        let h = idle n in
        let k = cb-Idle (slow_rounds n g) h.reset h.spent in
        record {
          reset = k.reset;
          spent = k.spent;
          zones = k.zones ∙ h.zones;
          calls = k.calls ∙ h.calls;
        }
