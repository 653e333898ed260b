-- ===== src/Tag/Add.antt =====
-- A tag that is added is found, and the others as before.
use ttpoe.Common.{
  ℕ, ◌<◌, ◌≡◌, ◌≢◌, sym, ◌∙◌, ap, subst, fun_ext, Option, none, some, List, [], ◌∷◌, arith, inc32,
  ◌==◌, if◌then◌else◌, ◌⊎◌, inl, inr,
}
use native.Mathlib.Decide.{ℕ_discrete}
use ttpoe.Fsm.{closed}
use ttpoe.Key.{vci, hvl, rkey, set_bkt, set_gwf, set_tip, set_hvl, gwf, tip}
use ttpoe.Index
use ttpoe.Index.{slots}
use ttpoe.Index.Order.{All, IsFalling, IsFalling-cong, find-cong}
use ttpoe.Index.Lookup.{KeepsOrder, tag_get-find, tag_add-IsFalling, tag_get-tag_add}
use ttpoe.World.{World}
use ttpoe.World.Access.{with_tag}
use ttpoe.Tag.{tag_get, node_key, fill_slot, tag_add, slot_of}

-- The keys fall along the tree from the left to the right.
abbrev pub IndexOk : World → Type 0
IndexOk w = IsFalling (node_key w) (slots w.tag_rbroot)

-- A slot is no node of the tree.
abbrev pub IsFree : ℕ → World → Type 0
IsFree s w = All (λ y. y ≢ s) (slots w.tag_rbroot)

rkey_kept :
    (bk kid : ℕ)
    → rkey (set_hvl (hvl kid) (set_tip (tip kid) (set_gwf (gwf kid) (set_bkt bk kid)))) ≡ rkey kid
rkey_kept bk kid = omega arith

module _ (s bk kid : ℕ) (w : World) where
  -- The keys once the slot has its key.
  new_key : ℕ → ℕ
  new_key y = if s == y then rkey kid else node_key w y

  new_key_other : (y : ℕ) → y ≢ s → node_key w y ≡ new_key y
  unfolding new_key
  new_key_other y h = ground arith

  new_key_self : new_key s ≡ rkey kid
  unfolding new_key
  new_key_self = ground arith

  agree : (xs : List ℕ) → All (λ y. y ≢ s) xs → All (λ y. node_key w y ≡ new_key y) xs
  agree [] h = tt
  agree (x ∷ xs) h = (new_key_other x h.0, agree xs h.1)

  abbrev filled : World
  filled = fill_slot s bk kid w

  key_filled : (y : ℕ) → node_key filled y ≡ new_key y
  unfolding fill_slot new_key
  key_filled y = ground (arith, rkey_kept bk kid)

  mid_key :
      (y : ℕ)
      → node_key (with_tag s (λ t. record t { valid = 1; state = closed; rkid = kid }) w) y
        ≡ new_key y
  unfolding new_key
  mid_key y = ground arith

  root_filled : filled.tag_rbroot ≡ Index.tag_add w.kernel.balance new_key s w.tag_rbroot
  unfolding fill_slot
  root_filled =
      ap (λ (k : ℕ → ℕ). Index.tag_add w.kernel.balance k s w.tag_rbroot) (fun_ext mid_key)

  module _ (keeps : KeepsOrder w.kernel.balance) (ok : IndexOk w) (free : IsFree s w)
      (missing : tag_get w kid ≡ none) where
    ok' : IsFalling new_key (slots w.tag_rbroot)
    ok' =
        IsFalling-cong (node_key w) new_key (slots w.tag_rbroot) (agree (slots w.tag_rbroot) free)
          ok

    same_get :
        (k : ℕ) → Index.tag_get new_key k w.tag_rbroot ≡ Index.tag_get (node_key w) k w.tag_rbroot
    same_get k =
        tag_get-find new_key k w.tag_rbroot ok'
        ∙ sym (
            find-cong (node_key w) new_key k (slots w.tag_rbroot) (agree (slots w.tag_rbroot) free))
        ∙ sym (tag_get-find (node_key w) k w.tag_rbroot ok)

    missing' : Index.tag_get new_key (new_key s) w.tag_rbroot ≡ none
    missing' =
        ap (λ k. Index.tag_get new_key k w.tag_rbroot) new_key_self
        ∙ same_get (rkey kid)
        ∙ (unfold tag_get in missing)

    get_by_new : (k : ℕ) → tag_get filled k ≡ Index.tag_get new_key (rkey k) filled.tag_rbroot
    unfolding tag_get
    get_by_new k =
        ap (λ (f : ℕ → ℕ). Index.tag_get f (rkey k) filled.tag_rbroot) (fun_ext key_filled)

    get_by_old : (k : ℕ) → Index.tag_get new_key (rkey k) w.tag_rbroot ≡ tag_get w k
    unfolding tag_get
    get_by_old k = same_get (rkey k)

    pub get_filled :
        (k : ℕ) → tag_get filled k ≡ (if rkey kid == rkey k then some s else tag_get w k)
    get_filled k =
        get_by_new k
        ∙ ap (Index.tag_get new_key (rkey k)) root_filled
        ∙ tag_get-tag_add w.kernel.balance keeps new_key s (rkey k) w.tag_rbroot ok' missing'
        ∙ ap
            (λ (a : ℕ). if a == rkey k then some s else Index.tag_get new_key (rkey k) w.tag_rbroot)
            new_key_self
        ∙ ap (λ (o : Option ℕ). if rkey kid == rkey k then some s else o) (get_by_old k)

    pub filled-IndexOk : IndexOk filled
    filled-IndexOk =
        subst (λ t. IsFalling (node_key filled) (slots t)) (sym root_filled)
          (subst (λ f. IsFalling f (slots (Index.tag_add w.kernel.balance new_key s w.tag_rbroot)))
            (sym (fun_ext key_filled))
            (tag_add-IsFalling w.kernel.balance keeps new_key s w.tag_rbroot ok'))

  filled_tag :
      ((filled.tags s).valid ≡ 1)
      × ((filled.tags s).state ≡ closed)
      × ((filled.tags s).rx_seq_id ≡ w.config.tag_seq_init_val)
      × ((filled.tags s).retire_id ≡ w.config.tag_seq_init_val)
      × ((filled.tags s).tx_seq_id ≡ inc32 w.config.tag_seq_init_val)
  unfolding fill_slot
  filled_tag = ground arith

-- A tag was made for a key in a slot: every lookup by that key's part for the tree finds it, every other one what it found
-- before, the tree stays in order, and the link is closed with the first sequence numbers.
pub record Made (s kid : ℕ) (w v : World) : Type 0 where
  pub found : (k : ℕ) → tag_get v k ≡ (if rkey kid == rkey k then some s else tag_get w k)
  pub order : IndexOk v
  pub valid : (v.tags s).valid ≡ 1
  pub state : (v.tags s).state ≡ closed
  pub rx : (v.tags s).rx_seq_id ≡ w.config.tag_seq_init_val
  pub retire : (v.tags s).retire_id ≡ w.config.tag_seq_init_val
  pub tx : (v.tags s).tx_seq_id ≡ inc32 w.config.tag_seq_init_val

-- The two slots of a key.
abbrev pub slot : ℕ → ℕ → ℕ
slot kid bk = slot_of (vci kid) (hvl kid) bk

fill_slot-Made :
    (s bk kid : ℕ) (w : World)
    → KeepsOrder w.kernel.balance
    → IndexOk w
    → IsFree s w
    → tag_get w kid ≡ none
    → Made s kid w (fill_slot s bk kid w)
fill_slot-Made s bk kid w keeps ok free missing =
    let f = filled_tag s bk kid w in
    record {
      found = get_filled s bk kid w keeps ok free missing;
      order = filled-IndexOk s bk kid w keeps ok free missing;
      valid = f.0;
      state = f.1;
      rx = f.2;
      retire = f.3;
      tx = f.4;
    }

abbrev pub valid_of : ℕ → World → ℕ
valid_of s w = (w.tags s).valid

module _ (kid : ℕ) (w : World) (vc : vci kid < 3) (missing : tag_get w kid ≡ none) where
  pub add_first : valid_of (slot kid 0) w ≡ 0 → tag_add kid w ≡ (fill_slot (slot kid 0) 0 kid w, 0)
  unfolding tag_add
  add_first h = ground arith

  pub add_second :
      valid_of (slot kid 0) w ≢ 0
      → valid_of (slot kid 1) w ≡ 0
      → tag_add kid w ≡ (fill_slot (slot kid 1) 1 kid w, 0)
  unfolding tag_add
  add_second h h' = ground arith

  pub add_full :
      valid_of (slot kid 0) w ≢ 0
      → valid_of (slot kid 1) w ≢ 0
      → ((tag_add kid w).1 ≡ 1)
        × ((tag_add kid w).0.tags ≡ w.tags)
        × ((tag_add kid w).0.tag_rbroot ≡ w.tag_rbroot)
        × ((tag_add kid w).0.stats.colls ≡ inc32 w.stats.colls)
  unfolding tag_add
  add_full h h' = ground arith

  -- With rotations that keep the order of the nodes, for a key on a valid virtual channel that the tree lacks,
  -- the tree in order and the empty ones of the key's two slots not in it: the tag is made in the first slot if
  -- that is empty, else in the second if that is empty; with both taken the result is 1, no tag and no node
  -- changes, and a collision is counted.
  pub tag_add_outcome :
      KeepsOrder w.kernel.balance
      → IndexOk w
      → (valid_of (slot kid 0) w ≡ 0 → IsFree (slot kid 0) w)
      → (valid_of (slot kid 1) w ≡ 0 → IsFree (slot kid 1) w)
      → ((valid_of (slot kid 0) w ≡ 0)
          × ((tag_add kid w).1 ≡ 0)
          × Made (slot kid 0) kid w (tag_add kid w).0)
        ⊎ ((valid_of (slot kid 0) w ≢ 0)
            × (valid_of (slot kid 1) w ≡ 0)
            × ((tag_add kid w).1 ≡ 0)
            × Made (slot kid 1) kid w (tag_add kid w).0)
        ⊎ ((valid_of (slot kid 0) w ≢ 0)
            × (valid_of (slot kid 1) w ≢ 0)
            × ((tag_add kid w).1 ≡ 1)
            × ((tag_add kid w).0.tags ≡ w.tags)
            × ((tag_add kid w).0.tag_rbroot ≡ w.tag_rbroot)
            × ((tag_add kid w).0.stats.colls ≡ inc32 w.stats.colls))
  tag_add_outcome keeps ok free0 free1 = elim (ℕ_discrete (valid_of (slot kid 0) w) 0) [
    | yes e ↦ inl (
      e,
      ap (λ (x : World × ℕ). x.1) (add_first e),
      subst (λ (x : World × ℕ). Made (slot kid 0) kid w x.0) (sym (add_first e))
          (fill_slot-Made (slot kid 0) 0 kid w keeps ok (free0 e) missing),
    )
    | no n ↦ elim (ℕ_discrete (valid_of (slot kid 1) w) 0) [
      | yes e ↦ inr (
          inl (
            n,
            e,
            ap (λ (x : World × ℕ). x.1) (add_second n e),
            subst (λ (x : World × ℕ). Made (slot kid 1) kid w x.0) (sym (add_second n e))
                (fill_slot-Made (slot kid 1) 1 kid w keeps ok (free1 e) missing),
          ))
      | no m ↦ let f = add_full n m in inr (inr (n, m, f.0, f.1, f.2, f.3))
    ]
  ]
