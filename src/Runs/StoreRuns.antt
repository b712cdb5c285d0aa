-- ===== src/Runs/StoreRuns.antt =====
-- The theorems on values, content and the store at concrete inputs.
use octo_base.Base.{
  ℕ, ◌+◌, ◌<◌, ◌≤◌, ◌≡◌, ◌≢◌, ◌⊎◌, refl, none, some, List, [], ◌∷◌, ◌++◌, length, ◌==◌,
  if◌then◌else◌, arith, Bool-cases, inl, inr,
}
use mathlib.Core.Path.{subst}
use octo_base.Base.Result.{ok, err}
use octo_base.Doc.Error.{panicked, raised, struct_clock_invalid}
use octo_base.Doc.Client.{get}
use octo_base.Doc.Io.{RawDecoder_new}
use octo_base.Doc.Io.Reads.{between}
use octo_base.Doc.Any
use octo_base.Doc.Any.{Any, read_any, write_any, from_items}
use octo_base.Doc.Any.Format.{IsAny}
use octo_base.Doc.Any.RoundTrip.{read_any-write_any}
use octo_base.Doc.Content.{Content, string, deleted, any, split, clock_len}
use octo_base.Doc.Content.Split.{split_total, split_pair, Joins}
use octo_base.Doc.Item.{Item, Item_new, item_len}
use octo_base.Doc.Node.{Node, item, new_gc, clock, client, node_id, node_len}
use octo_base.Doc.DeleteSet.{DeleteSet}
use octo_base.Doc.DeleteSet.Holds.{holds}
use octo_base.Doc.Store.{DocStore, get_node_index, get_state, add_node}
use octo_base.Doc.Store.Clocks.{IsSequence, AreNodes, IsStore, end_of, add_node-IsStore}
use octo_base.Doc.Store.Search.{Finds, get_node_index-Finds, get_node_index-panics}
use octo_base.Doc.Store.Diff.{diff_nodes, generate_delete_set}
use octo_base.Doc.Store.Diff.Blocks.{diff_nodes-boundary, diff_nodes-inside}
use octo_base.Doc.Store.Diff.Deleted.{deleted_of, generate_delete_set_total}
use octo_base.Runs.Host.{host, host_search}

abbrev gc_at : ℕ → ℕ → Node
gc_at at len = new_gc (record { client = 1; clock = at }) len

abbrev two_nodes : List Node
two_nodes = gc_at 0 3 ∷ gc_at 3 2 ∷ []

two_nodes-IsSequence : IsSequence 0 two_nodes
unfolding clock node_id node_len new_gc
two_nodes-IsSequence = (refl, omega arith, (refl, omega arith, omega arith))

get_node_index-Finds_example : Finds two_nodes 4 (get_node_index two_nodes 4)
get_node_index-Finds_example =
    get_node_index-Finds two_nodes 0 4 two_nodes-IsSequence (omega arith) (omega arith)
      (unfold end_of in unfold node_len in unfold new_gc in omega arith)

get_node_index-panics_example : get_node_index two_nodes 8 ≡ some (err panicked)
get_node_index-panics_example =
    get_node_index-panics (gc_at 0 3) (gc_at 3 2) [] 0 8 two_nodes-IsSequence
      (unfold end_of in unfold node_len in unfold new_gc in omega arith) (omega arith)

abbrev one_client : DocStore
one_client = record {
  own_client = 1;
  items = (1, two_nodes) ∷ [];
  delete_set = [];
  types = [];
  dangling_types = [];
}

one_client-IsStore : IsStore one_client
unfolding IsStore get clock node_id node_len new_gc
one_client-IsStore c ns e = elim (Bool-cases (1 == c)) [
  | inl same ↦
      let found : some two_nodes ≡ some ns = rw same at e in
      let nodes : two_nodes ≡ ns = cc in subst AreNodes nodes two_nodes-IsSequence
  | inr other ↦ let found : none ≡ some ns = rw other at e in cc
]

add_node-IsStore_example :
    ((self' : DocStore) × (add_node one_client (gc_at 5 1) ≡ ok self')
      × IsStore self'
      × ((c : ℕ)
          → get_state self' c ≡ (
              if client (gc_at 5 1) == c
              then clock (gc_at 5 1) + node_len (gc_at 5 1)
              else get_state one_client c))
      × ((get one_client.items (client (gc_at 5 1)) ≡ none)
          ⊎ (get_state one_client (client (gc_at 5 1)) ≡ clock (gc_at 5 1))))
    ⊎ ((add_node one_client (gc_at 5 1)
          ≡ err (
              raised (
                struct_clock_invalid
                  (get_state one_client (client (gc_at 5 1)))
                  (clock (gc_at 5 1)))))
        × (get_state one_client (client (gc_at 5 1)) ≢ clock (gc_at 5 1)))
add_node-IsStore_example =
    add_node-IsStore one_client (gc_at 5 1) one_client-IsStore
      (unfold node_len in unfold new_gc in omega arith)
      (unfold node_len in unfold clock in unfold node_id in unfold new_gc in omega arith)

diff_nodes-boundary_example : diff_nodes two_nodes (clock (gc_at 3 2)) ≡ some (ok (gc_at 3 2 ∷ []))
diff_nodes-boundary_example =
    diff_nodes-boundary two_nodes 0 1 (gc_at 3 2) two_nodes-IsSequence (omega arith) refl

abbrev values : List Any
values = Any.undefined ∷ Any.undefined ∷ []

abbrev two_values : Item
two_values = Item_new (record { client = 1; clock = 0 }) (any values) none none none none

two_values-IsSequence : IsSequence 0 (item two_values ∷ [])
unfolding clock node_id node_len item_len clock_len Item_new
two_values-IsSequence = (refl, omega arith, omega arith)

two_values_clock : (clock (item two_values) < 1) × (1 < clock (item two_values) + length values)
unfolding clock node_id Item_new
two_values_clock = (omega arith, omega arith)

diff_nodes-inside_example : diff_nodes (item two_values ∷ []) 1 ≡ some (err panicked)
diff_nodes-inside_example =
    diff_nodes-inside (item two_values ∷ []) 0 1 0 two_values values two_values-IsSequence
      (omega arith) refl (unfold Item_new in refl) (omega arith) two_values_clock.0
      two_values_clock.1

generate_delete_set_total_example :
    (set : DeleteSet) × (generate_delete_set ((1, two_nodes) ∷ []) ≡ some set)
    × ((j at : ℕ) → holds set j at ≡ deleted_of ((1, two_nodes) ∷ []) j at)
generate_delete_set_total_example = generate_delete_set_total ((1, two_nodes) ∷ [])

split_pair_example :
    (split (string (0xf0 ∷ 0x9f ∷ 0x98 ∷ 0x80 ∷ 0x21 ∷ [])) 1
      ≡ ok (string (0xf0 ∷ 0x9f ∷ 0x98 ∷ 0x80 ∷ []), string (0x21 ∷ [])))
    × (clock_len (string (0xf0 ∷ 0x9f ∷ 0x98 ∷ 0x80 ∷ [])) ≡ 2)
split_pair_example = split_pair 0xf0 0x9f 0x98 0x80 (0x21 ∷ []) (omega arith)

split_total_example :
    (l r : Content) × (split (deleted 5) 2 ≡ ok (l, r))
    × Joins l r (deleted 5)
    × (clock_len l + clock_len r ≡ clock_len (deleted 5))
    × (2 ≤ clock_len l)
    × (clock_len l ≤ 2 + 1)
split_total_example =
    split_total (deleted 5) 2 (omega arith) (omega arith) (unfold clock_len in omega arith)

abbrev nested : Any
nested =
    Any.array (Any.cons Any.null (Any.cons (Any.array (Any.cons (Any.float32 1) Any.nil)) Any.nil))

nested-IsAny : IsAny nested
unfolding IsAny from_items
nested-IsAny = (omega arith, (tt, ((omega arith, (omega arith, tt)), tt)))

read_any-write_any_example :
    read_any (RawDecoder_new (write_any [] nested ++ 7 ∷ []))
    ≡ ok (nested, between (write_any [] nested) (7 ∷ []))
read_any-write_any_example = read_any-write_any nested (7 ∷ []) nested-IsAny
