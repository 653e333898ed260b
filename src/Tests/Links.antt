-- ===== src/Tests/Links.antt =====
-- The tree of links, the making and resetting of tags.
use ttpoe.Common.{ℕ, ◌≡◌, ◌≢◌, ◌⊎◌, refl, some, none, [], ◌∷◌, arith}
use ttpoe.Fsm.{closed, inq_no_tag, rs_none, stay}
use ttpoe.Index
use ttpoe.Index.{Tree, leaf, node, slots}
use ttpoe.Index.Order.{IsFalling}
use ttpoe.Index.Lookup.{tag_add-IsFalling, tag_get-tag_add}
use ttpoe.World.{World}
use ttpoe.World.Access.{with_tag}
use ttpoe.Tag.{tag_get, tag_add, tag_reset, lookup_state_table, node_key}
use ttpoe.Tag.Add.{Made, valid_of, tag_add_outcome}
use ttpoe.Tag.Reset.{tag_reset_loses}
use ttpoe.Enter.Full.{no_tag_no_answer}
use ttpoe.Init.Scene.{talking, blank}

abbrev two_nodes : Tree
two_nodes = node (node leaf 9 leaf) 5 leaf

abbrev own : ℕ → ℕ
own s = s

in_order : IsFalling own (slots two_nodes)
in_order = ((omega arith, tt), (tt, tt))

tag_add-IsFalling_example : IsFalling own (slots (Index.tag_add (λ t. t) own 7 two_nodes))
tag_add-IsFalling_example = tag_add-IsFalling (λ t. t) (λ t. refl) own 7 two_nodes in_order

seven_missing : Index.tag_get own 7 two_nodes ≡ none
unfolding Index.tag_get
seven_missing = refl

tag_get-tag_add_example :
    Index.tag_get own 9 (Index.tag_add (λ t. t) own 7 two_nodes) ≡ Index.tag_get own 9 two_nodes
tag_get-tag_add_example =
    tag_get-tag_add (λ t. t) (λ t. refl) own 7 9 two_nodes in_order seven_missing

none_there : tag_get blank 6 ≡ none
unfolding tag_get Index.tag_get
none_there = refl

tag_add_outcome_example :
    ((valid_of 1024 blank ≡ 0) × ((tag_add 6 blank).1 ≡ 0) × Made 1024 6 blank (tag_add 6 blank).0)
    ⊎ ((valid_of 1024 blank ≢ 0)
        × (valid_of 1025 blank ≡ 0)
        × ((tag_add 6 blank).1 ≡ 0)
        × Made 1025 6 blank (tag_add 6 blank).0)
    ⊎ ((valid_of 1024 blank ≢ 0)
        × (valid_of 1025 blank ≢ 0)
        × ((tag_add 6 blank).1 ≡ 1)
        × ((tag_add 6 blank).0.tags ≡ blank.tags)
        × ((tag_add 6 blank).0.tag_rbroot ≡ leaf)
        × ((tag_add 6 blank).0.stats.colls ≡ 1))
tag_add_outcome_example =
    tag_add_outcome 6 blank (omega arith) none_there (λ t. refl) tt (λ e. tt) (λ e. tt)

-- The tag 0 with the key 9 at the root, and the tag 1 with the key 5 to its right.
abbrev two_links : World
two_links =
    record (with_tag 0 (λ t. record t { rkid = 9 })
      (with_tag 1 (λ t. record t { rkid = 5 }) blank)) {
        tag_rbroot = node leaf 0 (node leaf 1 leaf);
      }

links_in_order : IsFalling (node_key two_links) (0 ∷ 1 ∷ [])
links_in_order = ((omega arith, tt), (tt, tt))

tag_reset_loses_example : tag_get (tag_reset 0 two_links) 5 ≡ none
tag_reset_loses_example =
    tag_reset_loses two_links 0 5 leaf (node leaf 1 leaf) refl links_in_order (omega arith)
      (omega arith)

before_reset : tag_get two_links 5 ≡ some 1
unfolding tag_get Index.tag_get
before_reset = refl

-- Every slot is taken, and the tree lost its nodes.
abbrev taken : World
taken = record talking { tag_rbroot = leaf }

no_room : (tag_add 6 taken).1 ≡ 1
unfolding tag_add tag_get Index.tag_get
no_room = refl

no_tag_no_answer_example :
    ((lookup_state_table (tag_add 6 taken).0 6 inq_no_tag).0 ≡ closed)
    × ((lookup_state_table (tag_add 6 taken).0 6 inq_no_tag).1
        ≡ record { response = rs_none; next_state = stay })
no_tag_no_answer_example = no_tag_no_answer 6 taken no_room
