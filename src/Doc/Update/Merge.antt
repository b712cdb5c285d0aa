-- ===== src/Doc/Update/Merge.antt =====
-- `Update::merge` of libs/jwst-codec/src/doc/codec/update.rs.
pub mod Gaps
use octo_base.Base.{
  ℕ, zero, suc, ◌+◌, ◌-◌, ◌%◌, ◌^◌, Bool, true, false, not, ◌&&◌, Option, none, some, List, [], ◌∷◌,
  ◌++◌, ltb, leb, ◌==◌, if◌then◌else◌,
}
use octo_base.Base.Result.{ok, err, ◌>>=◌ as and_then}
use octo_base.Crates.{Crates, Bytes}
use octo_base.Doc.Error.{JwstCodecResult, panicked}
use octo_base.Doc.Client.{ItemId, ClientMap, get, insert, same_id}
use octo_base.Doc.OrderRange.{BinarySearch, ◌>>=◌}
use octo_base.Doc.DeleteSet
use octo_base.Doc.Node.{
  Node, new_skip, client, clock, node_len, is_skip, node_deleted, node_last_id, node_left,
  node_right,
}
use octo_base.Doc.Store.{end_clock}
use octo_base.Doc.Content.{Json}
use octo_base.Doc.Update.{Update, update_of, decode_v1}

-- `filter(|p| !p.is_skip())`
unfoldable pub without_skips : List Node → List Node
without_skips [] = []
without_skips (n ∷ ns) = if is_skip n then without_skips ns else n ∷ without_skips ns

-- What becomes of the entry of a client.
abbrev entry_extend : Option (List Node) → List Node → List Node
entry_extend none new = new
entry_extend (some structs) new = structs ++ new

unfoldable pub extend_structs :
    ClientMap (List Node) → ClientMap (List Node) → ClientMap (List Node)
unfolding without_skips
extend_structs target [] = target
extend_structs target ((of_client, structs) ∷ rest) =
    extend_structs
      (insert target of_client (entry_extend (get target of_client) (without_skips structs))) rest

-- The first loop of `merge_into`.
unfoldable pub collect_updates : ⦃b : BinarySearch⦄ → Update → List Update → Option Update
unfolding extend_structs
collect_updates target [] = some target
collect_updates target (update ∷ updates) =
    DeleteSet.merge_into target.delete_set update.delete_set >>= λ delete_set.
    collect_updates
      (record target {
        delete_set = delete_set;
        structs = extend_structs target.structs update.structs;
      })
      updates

-- `sort_by_key(|s| s.id().clock)`, a stable sort.
unfoldable insert_by_clock : Node → List Node → List Node
insert_by_clock n [] = n ∷ []
insert_by_clock n (m ∷ ms) =
    if leb (clock n) (clock m) then n ∷ m ∷ ms else m ∷ insert_by_clock n ms

unfoldable pub sort_by_clock : List Node → List Node
unfolding insert_by_clock
sort_by_clock [] = []
sort_by_clock (n ∷ ns) = insert_by_clock n (sort_by_clock ns)

abbrev pub same_bit : Bool → Bool → Bool
same_bit true b = b
same_bit false b = not b

-- Whether two nodes of the same clock become one.
unfoldable pub mergeable : Node → Node → Bool
mergeable cur next =
    same_bit (node_deleted cur) (node_deleted next)
    && (same_id (node_last_id cur) (node_last_id next)
        && (same_id (node_left cur) (node_left next) && same_id (node_right cur) (node_right next)))

-- The nodes after `cur`, with a skip in each gap and without those that become one with the node
-- before; what is pruned after the loop is left out as it is met.
unfoldable pub fill_gaps : Node → List Node → List Node
unfolding mergeable
fill_gaps cur [] = []
fill_gaps cur (next ∷ rest) =
    let later = fill_gaps next rest in
    if ltb (end_clock cur) (clock next)
    then new_skip (record { client = client cur; clock = end_clock cur })
        (clock next - end_clock cur)
      ∷ next
      ∷ later
    else if (clock cur == clock next) && mergeable cur next
    then later
    else next ∷ later

-- `structs.len() - 1` is below 0 for no structs, and the index then out of bounds.
unfoldable pub fill : List Node → Option (List Node)
unfolding fill_gaps
fill [] = none
fill (n ∷ ns) = some (n ∷ fill_gaps n ns)

unfoldable pub fill_all : ClientMap (List Node) → Option (ClientMap (List Node))
unfolding fill sort_by_clock
fill_all [] = some []
fill_all ((of_client, structs) ∷ rest) = fill (sort_by_clock structs) >>= λ filled.
    fill_all rest >>= λ filled_rest. some ((of_client, filled) ∷ filled_rest)

unfoldable pub merge_updates : ⦃b : BinarySearch⦄ → Update → List Update → Option Update
unfolding collect_updates fill_all
merge_updates target updates = collect_updates target updates >>= λ merged.
    fill_all merged.structs >>= λ structs. some (record merged { structs = structs })

-- `Update::merge`
unfoldable pub merge : ⦃b : BinarySearch⦄ → List Update → Option Update
unfolding merge_updates
merge updates = merge_updates (update_of [] []) updates

abbrev merged_or_panic : Option Update → JwstCodecResult Update
merged_or_panic none = err panicked
merged_or_panic (some update) = ok update

module _ ⦃c : Crates⦄ ⦃j : Json⦄ where
  unfoldable decode_all : List Bytes → JwstCodecResult (List Update)
  decode_all [] = ok []
  decode_all (update ∷ updates) =
      and_then (decode_v1 update)
        λ decoded. and_then (decode_all updates) λ rest. ok (decoded ∷ rest)

  -- libs/jwst-codec/src/doc/utils.rs
  unfoldable pub merge_updates_v1 : ⦃b : BinarySearch⦄ → List Bytes → JwstCodecResult Update
  unfolding decode_all merge
  merge_updates_v1 updates =
      and_then (decode_all updates) λ decoded. merged_or_panic (merge decoded)
