-- ===== src/Key/Fields.antt =====
-- What a key holds.
use ttpoe.Common.{ℕ, ◌+◌, ◌*◌, ◌^◌, ◌≤◌, ◌<◌, ◌≡◌, ◌↔◌, ◌∙◌, Bool, true, false, some, arith, ap}
use ttpoe.Key.{
  vci, mac_byte, bkt, gwf, tip, hvl, rkey, bit, index_hash_calc, tag_key_make, put_field,
}

hash_lt : (mac : ℕ → ℕ) → index_hash_calc mac < 256
unfolding index_hash_calc
hash_lt mac = omega arith

bit_lt : (b : Bool) → bit b < 2
bit_lt true = omega arith
bit_lt false = omega arith

abbrev full : ℕ → ℕ → ℕ → ℕ → ℕ → ℕ → ℕ → ℕ
full h vc g t a b c =
    h * 2 ^ 56 + t * 2 ^ 50 + g * 2 ^ 49 + c * 2 ^ 24 + b * 2 ^ 16 + a * 2 ^ 8 + vc

-- The assignments of `tag_key_make` in order, each on the number that those before it leave.
module _ (h vc g t a b c : ℕ) (hh : h < 256) (hv : vc < 4) (hg : g < 2) (ht : t < 2) (ha : a < 256)
    (hb : b < 256) (hc : c < 256) where
  step_hvl : put_field 56 8 h 0 ≡ h * 2 ^ 56
  step_hvl = omega arith

  step_vci : put_field 0 2 vc (h * 2 ^ 56) ≡ h * 2 ^ 56 + vc
  step_vci = omega arith

  step_gwf : put_field 49 1 g (h * 2 ^ 56 + vc) ≡ h * 2 ^ 56 + g * 2 ^ 49 + vc
  step_gwf = omega arith

  step_tip :
      put_field 50 1 t (h * 2 ^ 56 + g * 2 ^ 49 + vc) ≡ h * 2 ^ 56 + t * 2 ^ 50 + g * 2 ^ 49 + vc
  step_tip = omega arith

  step_m0 :
      put_field 8 8 a (h * 2 ^ 56 + t * 2 ^ 50 + g * 2 ^ 49 + vc)
      ≡ h * 2 ^ 56 + t * 2 ^ 50 + g * 2 ^ 49 + a * 2 ^ 8 + vc
  step_m0 = omega arith

  step_m1 :
      put_field 16 8 b (h * 2 ^ 56 + t * 2 ^ 50 + g * 2 ^ 49 + a * 2 ^ 8 + vc)
      ≡ h * 2 ^ 56 + t * 2 ^ 50 + g * 2 ^ 49 + b * 2 ^ 16 + a * 2 ^ 8 + vc
  step_m1 = omega arith

  step_m2 :
      put_field 24 8 c (h * 2 ^ 56 + t * 2 ^ 50 + g * 2 ^ 49 + b * 2 ^ 16 + a * 2 ^ 8 + vc)
      ≡ full h vc g t a b c
  step_m2 = omega arith

  step_zero :
      put_field 40 3 0 (put_field 44 4 0 (put_field 48 1 0 (full h vc g t a b c)))
      ≡ full h vc g t a b c
  step_zero = omega arith

  full_fields :
      (vci (full h vc g t a b c) ≡ vc)
      × (mac_byte 0 (full h vc g t a b c) ≡ a)
      × (mac_byte 1 (full h vc g t a b c) ≡ b)
      × (mac_byte 2 (full h vc g t a b c) ≡ c)
      × (gwf (full h vc g t a b c) ≡ g)
      × (tip (full h vc g t a b c) ≡ t)
      × (bkt (full h vc g t a b c) ≡ 0)
      × (hvl (full h vc g t a b c) ≡ h)
  full_fields = omega arith

  chain :
      put_field 40 3 0 (
        put_field 44 4 0 (
          put_field 48 1 0 (
            put_field 24 8 c (
              put_field 16 8 b (
                put_field 8 8 a
                  (put_field 50 1 t (put_field 49 1 g (put_field 0 2 vc (put_field 56 8 h 0)))))))))
      ≡ full h vc g t a b c
  chain =
      ap
        (λ x. put_field 40 3 0 (
          put_field 44 4 0 (
            put_field 48 1 0 (
              put_field 24 8 c (
                put_field 16 8 b
                  (put_field 8 8 a (put_field 50 1 t (put_field 49 1 g (put_field 0 2 vc x)))))))))
        step_hvl
      ∙ ap
          (λ x. put_field 40 3 0 (
            put_field 44 4 0 (
              put_field 48 1 0 (
                put_field 24 8 c
                  (put_field 16 8 b (put_field 8 8 a (put_field 50 1 t (put_field 49 1 g x))))))))
          step_vci
      ∙ ap
          (λ x. put_field 40 3 0 (
            put_field 44 4 0 (
              put_field 48 1 0
                (put_field 24 8 c (put_field 16 8 b (put_field 8 8 a (put_field 50 1 t x)))))))
          step_gwf
      ∙ ap
          (λ x. put_field 40 3 0 (
            put_field 44 4 0
              (put_field 48 1 0 (put_field 24 8 c (put_field 16 8 b (put_field 8 8 a x))))))
          step_tip
      ∙ ap
          (λ x.
            put_field 40 3 0
              (put_field 44 4 0 (put_field 48 1 0 (put_field 24 8 c (put_field 16 8 b x)))))
          step_m0
      ∙ ap (λ x. put_field 40 3 0 (put_field 44 4 0 (put_field 48 1 0 (put_field 24 8 c x))))
          step_m1
      ∙ ap (λ x. put_field 40 3 0 (put_field 44 4 0 (put_field 48 1 0 x))) step_m2
      ∙ step_zero

-- The three bytes of an address that a key keeps are bytes.
pub record IsMac (mac : ℕ → ℕ) : Type 0 where
  pub third : mac 3 < 256
  pub fourth : mac 4 < 256
  pub fifth : mac 5 < 256

module _ (mac : ℕ → ℕ) (vc : ℕ) (gw t3 : Bool) (ok : IsMac mac) (hv : vc ≤ 2) where
  key-full :
      tag_key_make (some mac) vc gw t3
      ≡ full (index_hash_calc mac) vc (bit gw) (bit t3) (mac 3) (mac 4) (mac 5)
  unfolding tag_key_make
  key-full = ground (
    arith,
    chain (index_hash_calc mac) vc (bit gw) (bit t3) (mac 3) (mac 4) (mac 5) (hash_lt mac)
        (omega arith) (bit_lt gw) (bit_lt t3) ok.third ok.fourth ok.fifth,
  )

  rkey-key :
      rkey (tag_key_make (some mac) vc gw t3) ≡ vc + mac 3 * 2 ^ 8 + mac 4 * 2 ^ 16 + mac 5 * 2 ^ 24
  rkey-key = rw key-full (omega (arith, ok.third, ok.fourth, ok.fifth))

  -- For an address of bytes and a valid virtual channel the key made holds exactly the virtual channel, the low
  -- three bytes of the address, the gateway and the IPv4 flag and the hash, and names bucket 0.
  pub tag_key_make_fields :
      let k = tag_key_make (some mac) vc gw t3 in
      (vci k ≡ vc)
      × (mac_byte 0 k ≡ mac 3)
      × (mac_byte 1 k ≡ mac 4)
      × (mac_byte 2 k ≡ mac 5)
      × (gwf k ≡ bit gw)
      × (tip k ≡ bit t3)
      × (bkt k ≡ 0)
      × (hvl k ≡ index_hash_calc mac)
  tag_key_make_fields = rw key-full (
      full_fields (index_hash_calc mac) vc (bit gw) (bit t3) (mac 3) (mac 4) (mac 5) (hash_lt mac)
        (omega arith) (bit_lt gw) (bit_lt t3) ok.third ok.fourth ok.fifth)

-- Two keys made from addresses of bytes and valid virtual channels order alike in the tree exactly if the virtual
-- channels and the low three bytes of the addresses agree, whatever the gateway and IPv4 flags are.
pub rkey-eq_iff :
    (mac mac' : ℕ → ℕ) (vc vc' : ℕ) (gw gw' t3 t3' : Bool)
    → IsMac mac
    → IsMac mac'
    → vc ≤ 2
    → vc' ≤ 2
    → (rkey (tag_key_make (some mac) vc gw t3) ≡ rkey (tag_key_make (some mac') vc' gw' t3'))
      ↔ ((vc ≡ vc') × (mac 3 ≡ mac' 3) × (mac 4 ≡ mac' 4) × (mac 5 ≡ mac' 5))
rkey-eq_iff mac mac' vc vc' gw gw' t3 t3' m m' v v' =
    (λ e. omega (arith, keys), λ e. omega (arith, keys))
  where
    keys :
        (rkey (tag_key_make (some mac) vc gw t3)
          ≡ vc + mac 3 * 2 ^ 8 + mac 4 * 2 ^ 16 + mac 5 * 2 ^ 24)
        × (rkey (tag_key_make (some mac') vc' gw' t3')
            ≡ vc' + mac' 3 * 2 ^ 8 + mac' 4 * 2 ^ 16 + mac' 5 * 2 ^ 24)
    keys = (rkey-key mac vc gw t3 m v, rkey-key mac' vc' gw' t3' m' v')
