-- ===== src/Enter/Full.antt =====
-- An OPEN of a peer for which no tag is left.
use ttpoe.Common.{
  ℕ, ◌<◌, ◌≡◌, refl, ◌∙◌, ap, none, some, arith, Option-cases, inl, inr, Bool-cases, ltb, false,
}
use native.Mathlib.Decide.{ℕ_discrete}
use ttpoe.Index
use ttpoe.Tag.Add.{valid_of, slot, add_first, add_second, add_full}
use ttpoe.Fsm.{fsm_table, closed, inq_no_tag, rs_none, stay}
use ttpoe.Key.{vci, rkey}
use ttpoe.World.{World, LinkTag}
use ttpoe.Tag.{tag_get, tag_add, node_key, lookup_state_table, tag_get_state}

full_found : (kid : ℕ) (w : World) {s : ℕ} → tag_get w kid ≡ some s → (tag_add kid w).1 ≡ 0
full_found kid w e = unfold tag_add in rw (e, tag_add) refl

full_bug :
    (kid : ℕ) (w : World) → tag_get w kid ≡ none → ltb (vci kid) 3 ≡ false → (tag_add kid w).1 ≡ 0
full_bug kid w e h = unfold tag_add in rw (e, h, tag_add) refl

pub get_cong :
    (kid : ℕ) (v w : World)
    → v.tags ≡ w.tags
    → v.tag_rbroot ≡ w.tag_rbroot
    → tag_get v kid ≡ tag_get w kid
unfolding tag_get
get_cong kid v w e f =
    ap (λ (g : ℕ → LinkTag). Index.tag_get (λ y. rkey (g y).rkid) (rkey kid) v.tag_rbroot) e
    ∙ ap (Index.tag_get (node_key w) (rkey kid)) f

still_missing : (kid : ℕ) (w : World) → (tag_add kid w).1 ≡ 1 → tag_get (tag_add kid w).0 kid ≡ none
still_missing kid w h = elim (Option-cases (tag_get w kid)) [
  | inr (s, e) ↦ absurd (omega (arith, h, full_found kid w e))
  | inl e ↦ elim (Bool-cases (ltb (vci kid) 3)) [
    | inr b ↦ absurd (omega (arith, h, full_bug kid w e b))
    | inl b ↦
        let vc : vci kid < 3 = ground arith in
        elim (ℕ_discrete (valid_of (slot kid 0) w) 0) [
          | yes z ↦ absurd (omega (arith, h, ap (λ (x : World × ℕ). x.1) (add_first kid w vc e z)))
          | no z ↦ elim (ℕ_discrete (valid_of (slot kid 1) w) 0) [
            | yes y ↦
                absurd (omega (arith, h, ap (λ (x : World × ℕ). x.1) (add_second kid w vc e z y)))
            | no y ↦ let f = add_full kid w vc e z y in get_cong kid (tag_add kid w).0 w f.1 f.2 ∙ e
          ]
        ]
  ]
]

missing_closed : (kid : ℕ) (v : World) → tag_get v kid ≡ none → tag_get_state v kid ≡ closed
unfolding tag_get_state
missing_closed kid v e = ground (arith, e)

-- When no tag can be made for a peer, looking up the event that stands for this gives the state closed, no
-- response, so no OPEN_NACK, and no move.
pub no_tag_no_answer :
    (kid : ℕ) (w : World)
    → (tag_add kid w).1 ≡ 1
    → (lookup_state_table (tag_add kid w).0 kid inq_no_tag).0 ≡ closed
      × ((lookup_state_table (tag_add kid w).0 kid inq_no_tag).1
          ≡ record { response = rs_none; next_state = stay })
unfolding lookup_state_table fsm_table
no_tag_no_answer kid w h =
    let c = missing_closed kid (tag_add kid w).0 (still_missing kid w h) in
    (c, ap (fsm_table inq_no_tag) c)
