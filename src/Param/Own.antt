-- ===== src/Param/Own.antt =====
-- What the parameters of the IPv4 mode make of an address.
use ttpoe.Common.{
  ℕ, ◌+◌, ◌<◌, ◌≡◌, ◌≢◌, ◌⊎◌, inl, inr, refl, sym, ◌∙◌, ap, subst, Bool, true, false, Option, some,
  List, [], ◌∷◌, ◌==◌, ltb, arith, Option-cases, Bool-cases, ==_iff,
}
use ttpoe.World.{World}
use ttpoe.Frame.{Bytes}
use ttpoe.Key.{tag_key_make}
use ttpoe.Device.{HostInfo, error, done, einval, eaddrinuse, noc_debug_tgt, oui_mac}
use ttpoe.Buffer.{host_part}
use ttpoe.Param.{Settings, NetDev, natural, with_config}
use ttpoe.Param.Ipv4.{
  Readers, chomped, masked, low_bytes, find_under, param_scan_ipv4, param_prefix_set,
  param_ipv4_dip_set,
}

-- The address found stands in the list and under the prefix.
abbrev pub Among : ℕ → List ℕ → Type 0
Among a [] = a ≢ a
Among a (x ∷ xs) = (a ≡ x) ⊎ Among a xs

find_under-Among :
    (n prefix : ℕ) (l : List ℕ) (a : ℕ)
    → find_under n prefix l ≡ some a
    → Among a l × (masked n a ≡ masked n prefix)
unfolding find_under
find_under-Among n prefix [] a e = cc
find_under-Among n prefix (x ∷ l) a e = elim (Bool-cases (masked n x == masked n prefix)) [
  | inl t ↦
      let h : x ≡ a = ground (arith, e, t) in
      (inl (sym h), ap (masked n) (sym h) ∙ (==_iff (masked n x) (masked n prefix)).0 t)
  | inr f ↦ let r = find_under-Among n prefix l a (ground (arith, e, f)) in (inr r.0, r.1)
]

refused :
    (tg : HostInfo) (w : World) (a : ℕ)
    → tg.ve ≡ true
    → w.config.ipv4_encap ≡ true
    → w.config.ipv4_pfxlen ≢ 0
    → tg.ipa ≡ a
    → a ≢ 0
    → tg.vc ≡ 0
    → w.config.source_kid
      ≡ tag_key_make (some (oui_mac (low_bytes (host_part w.config.ipv4_pfxlen a)))) 0 false true
    → noc_debug_tgt tg w ≡ (w, error eaddrinuse, 0)
unfolding noc_debug_tgt
refused tg w a ve encap len ipa nonzero vc key =
    let mine : tag_key_make (some (oui_mac (low_bytes (host_part w.config.ipv4_pfxlen tg.ipa))))
          tg.vc false true
        ≡ w.config.source_kid =
      rw (ipa, vc) (sym key) in
    let t : (tag_key_make (some (oui_mac (low_bytes (host_part w.config.ipv4_pfxlen tg.ipa)))) tg.vc
            false true
          == w.config.source_kid)
        ≡ true =
      (==_iff _ _).1 mine in
    let z : (tg.ipa == 0) ≡ false = ground (arith, ipa, nonzero) in
    let l : (w.config.ipv4_pfxlen == 0) ≡ false = ground (arith, len) in simp (ve, encap, z, l, t)

module _ (d : NetDev) (p : Settings) (none_yet : p.world.config.source_ipa ≡ 0)
    (ok : (param_scan_ipv4 d p).1 ≡ done 0) where
  abbrev scanned : World
  scanned = (param_scan_ipv4 d p).0.world

  scan_found :
      let c = p.world.config in
      (a : ℕ) × (find_under c.ipv4_pfxlen c.ipv4_prefix d.ifa_list ≡ some a)
      × (a ≢ 0)
      × (scanned.config.source_ipa ≡ a)
      × (scanned.config.source_kid
          ≡ tag_key_make
              (some (oui_mac (low_bytes (host_part c.ipv4_pfxlen a))))
              0
              false
              c.ipv4_encap)
      × (scanned.config.ipv4_encap ≡ c.ipv4_encap)
      × (scanned.config.ipv4_pfxlen ≡ c.ipv4_pfxlen)
  unfolding param_scan_ipv4
  scan_found =
      elim (Option-cases
        (find_under p.world.config.ipv4_pfxlen p.world.config.ipv4_prefix d.ifa_list)) [
          | inl e ↦ absurd (ground (arith, ok, e, none_yet))
          | inr (a, e) ↦ (
            a,
            e,
            ground (arith, ok, e, none_yet),
            ground (arith, ok, e, none_yet),
            ground (arith, ok, e, none_yet),
            ground (arith, ok, e, none_yet),
            ground (arith, ok, e, none_yet),
          )
        ]

  -- The device's addresses are scanned in the IPv4 mode, with a prefix length other than 0 and no address of the host's own
  -- known, and one is found. It is an address of the device under the prefix, and not 0. Who then takes it for his target, on
  -- the virtual channel 0 and declared valid, gets EADDRINUSE, and nothing changes.
  pub own_address_refused :
      (tg : HostInfo)
      → p.world.config.ipv4_encap ≡ true
      → p.world.config.ipv4_pfxlen ≢ 0
      → tg.ve ≡ true
      → tg.ipa ≡ scanned.config.source_ipa
      → tg.vc ≡ 0
      → Among scanned.config.source_ipa d.ifa_list
        × (masked p.world.config.ipv4_pfxlen scanned.config.source_ipa
            ≡ masked p.world.config.ipv4_pfxlen p.world.config.ipv4_prefix)
        × (scanned.config.source_ipa ≢ 0)
        × (noc_debug_tgt tg scanned ≡ (scanned, error eaddrinuse, 0))
  own_address_refused tg encap len ve ipa vc =
      let (a, found, nonzero, is, key, mode, width) = scan_found in
      let r =
        find_under-Among p.world.config.ipv4_pfxlen p.world.config.ipv4_prefix d.ifa_list a found in
      let T : ℕ → Bool → ℕ =
        λ n b. tag_key_make (some (oui_mac (low_bytes (host_part n a)))) 0 false b in
      (
        subst (λ x. Among x d.ifa_list) (sym is) r.0,
        ap (masked p.world.config.ipv4_pfxlen) is ∙ r.1,
        λ z. nonzero (sym is ∙ z),
        refused tg scanned a ve (mode ∙ encap) (λ z. len (sym width ∙ z)) (ipa ∙ is) nonzero vc
            (key ∙ ap (T p.world.config.ipv4_pfxlen) encap ∙ ap (λ n. T n true) (sym width)),
      )

ne_of_lt : {n : ℕ} → 0 < n → 0 ≢ n
ne_of_lt h e = omega (arith, h, e)

dip_taken :
    (s : Readers) (val : Bytes) (p : Settings) (a tail : ℕ)
    → p.world.config.ipv4_encap ≡ true
    → p.world.config.ipv4_pfxlen ≢ 0
    → s.strcspn val ≢ 0
    → s.in4_pton (chomped s val) ≡ some (a, tail)
    → chomped s val tail ≡ 0
    → masked p.world.config.ipv4_pfxlen a ≡ p.world.config.ipv4_prefix
    → ((param_ipv4_dip_set s val p).1 ≡ done 0) × ((param_ipv4_dip_set s val p).0.target.ipa ≡ a)
unfolding param_ipv4_dip_set
dip_taken s val p a tail encap len some_text address end under =
    let t0 : (s.strcspn val == 0) ≡ false = ground (arith, some_text) in
    let t1 : (chomped s val tail == 0) ≡ true = (==_iff _ _).1 end in
    let t2 : (p.world.config.ipv4_pfxlen == 0) ≡ false = ground (arith, len) in
    let t3 : (masked p.world.config.ipv4_pfxlen a == p.world.config.ipv4_prefix) ≡ true =
      (==_iff _ _).1 under in
    (simp (encap, t0, t1, t2, t3, address), simp (encap, t0, t1, t2, t3, address))

module _ (s : Readers) (by_name : Option NetDev) (val : Bytes) (p : Settings) (a tail n : ℕ)
    (named : p.named ≡ true) (encap : p.world.config.ipv4_encap ≡ true)
    (some_text : s.strcspn val ≢ 0) (address : s.in4_pton (chomped s val) ≡ some (a, tail))
    (slash : chomped s val tail ≡ 47)
    (length : s.kstrtoint_at (chomped s val) (tail + 1) ≡ natural n) (few : n < 8) where
  prefix_kept :
      param_prefix_set s by_name val p
      ≡ (with_config (record p.world.config { ipv4_prefix = a; ipv4_pfxlen = n }) p, error einval)
  unfolding param_prefix_set ttpoe.Param.Ipv4.set_length
  prefix_kept =
      let t0 : (s.strcspn val == 0) ≡ false = ground (arith, some_text) in
      let t1 : (chomped s val tail == 47) ≡ true = (==_iff _ _).1 slash in
      let t2 : ltb n 8 ≡ true = ground (arith, few) in
      simp (named, encap, t0, address, t1, length, t2)

  -- In the IPv4 mode a text of an address, a slash and a length of 1 to 7 is refused with EINVAL as the prefix, where the address
  -- has no host part; the refused address and length stay in force all the same, so that a text of just that address is then
  -- taken with 0 for the target's address.
  pub refused_prefix_used :
      (val' : Bytes) (tail' : ℕ)
      → 0 < n
      → host_part n a ≡ 0
      → s.strcspn val' ≢ 0
      → s.in4_pton (chomped s val') ≡ some (a, tail')
      → chomped s val' tail' ≡ 0
      → let q = param_prefix_set s by_name val p in
        (q.1 ≡ error einval)
        × ((param_ipv4_dip_set s val' q.0).1 ≡ done 0)
        × ((param_ipv4_dip_set s val' q.0).0.target.ipa ≡ a)
  refused_prefix_used val' tail' positive bare some_text' address' end =
      let kept = with_config (record p.world.config { ipv4_prefix = a; ipv4_pfxlen = n }) p in
      let taken =
        dip_taken s val' kept a tail' encap (λ z. ne_of_lt positive (sym z)) some_text' address' end
          (omega (arith, bare)) in
      subst
        (λ q.
          (q.1 ≡ error einval)
          × ((param_ipv4_dip_set s val' q.0).1 ≡ done 0)
          × ((param_ipv4_dip_set s val' q.0).0.target.ipa ≡ a))
        (sym prefix_kept) (refl, taken.0, taken.1)
