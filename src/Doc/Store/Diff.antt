-- ===== src/Doc/Store/Diff.antt =====
-- What a store tells another document of itself: `diff_structs` and `generate_delete_set` of
-- libs/jwst-codec/src/doc/store.rs.
pub mod Blocks
pub mod Deleted
use octo_base.Base.{
  ℕ, zero, suc, ◌+◌, ◌-◌, ◌%◌, ◌^◌, max, Bool, true, false, Option, none, some, List, [], ◌∷◌, ◌++◌,
  drop, ltb, ◌==◌, if◌then◌else◌, get_elem?,
}
use octo_base.Base.Result.{Result, ok, err, ◌>>=◌ as and_then}
use octo_base.Doc.Error.{JwstCodecResult, panicked}
use octo_base.Doc.Client.{ItemId, ClientMap, get, insert}
use octo_base.Doc.OrderRange.{BinarySearch, ◌>>=◌}
use octo_base.Doc.DeleteSet.{DeleteSet, add}
use octo_base.Doc.StateVector.{StateVector, get_clock}
use octo_base.Doc.Node.{Node, clock, node_len, node_deleted, node_split_at}
use octo_base.Doc.Store.{DocStore, items_as_state_vector, get_node_index}

-- The clients that the other has and is behind on, and those it has not.
unfoldable clients_behind : StateVector → StateVector → List (ℕ × ℕ)
clients_behind local [] = []
clients_behind local ((client, remote_clock) ∷ rest) =
    let later = clients_behind local rest in
    if ltb remote_clock (get_clock local client) then (client, remote_clock) ∷ later else later

unfoldable clients_unknown : StateVector → StateVector → List (ℕ × ℕ)
clients_unknown remote [] = []
clients_unknown remote ((client, _) ∷ rest) =
    let later = clients_unknown remote rest in
    if get_clock remote client == 0 then (client, 0) ∷ later else later

unfoldable pub diff_state_vectors : StateVector → StateVector → List (ℕ × ℕ)
unfolding clients_behind clients_unknown
diff_state_vectors local_state_vector remote_state_vector =
    clients_behind local_state_vector remote_state_vector
    ++ clients_unknown remote_state_vector local_state_vector

-- The blocks from the first one on; its offset is `first_block.clock() - clock`, on u64.
unfoldable pub from_block : ℕ → List Node → JwstCodecResult (List Node)
from_block at [] = err panicked
from_block at (first_block ∷ rest) =
    let offset = (clock first_block + 2 ^ 64 - at) % 2 ^ 64 in
    let split = and_then (node_split_at first_block offset) λ (left, right). ok (right ∷ rest) in
    if offset == 0 then ok (first_block ∷ rest) else split

abbrev pub from_index :
    ℕ → List Node → Option (JwstCodecResult (Option ℕ)) → Option (JwstCodecResult (List Node))
from_index at items none = none
from_index at items (some (err e)) = some (err e)
from_index at items (some (ok none)) = some (ok [])
from_index at items (some (ok (some index))) = some (from_block at (drop index items))

-- The nodes of a client from a clock on; `none` is fuel of the search that ran out.
unfoldable pub diff_nodes : List Node → ℕ → Option (JwstCodecResult (List Node))
unfolding from_block
diff_nodes items at = from_index at items (get_node_index items at)

-- The entry of a client, unless it has no nodes.
unfoldable diff_entry :
    Option (List Node)
    → ℕ
    → ℕ
    → ClientMap (List Node)
    → Option (JwstCodecResult (ClientMap (List Node)))
unfolding diff_nodes
diff_entry none of_client at update_structs = some (ok update_structs)
diff_entry (some []) of_client at update_structs = some (ok update_structs)
diff_entry (some (n ∷ ns)) of_client at update_structs =
    diff_nodes (n ∷ ns) (max (clock n) at) >>= λ found.
    some (and_then found λ nodes. ok (insert update_structs of_client nodes))

abbrev next_structs :
    JwstCodecResult (ClientMap (List Node))
    → (ClientMap (List Node) → Option (JwstCodecResult (ClientMap (List Node))))
    → Option (JwstCodecResult (ClientMap (List Node)))
next_structs (err e) next = some (err e)
next_structs (ok structs) next = next structs

unfoldable diff_clients :
    ClientMap (List Node)
    → List (ℕ × ℕ)
    → ClientMap (List Node)
    → Option (JwstCodecResult (ClientMap (List Node)))
unfolding diff_entry
diff_clients map [] update_structs = some (ok update_structs)
diff_clients map ((of_client, at) ∷ diff) update_structs =
    diff_entry (get map of_client) of_client at update_structs >>= λ found.
    next_structs found (diff_clients map diff)

unfoldable pub diff_structs :
    ClientMap (List Node) → StateVector → Option (JwstCodecResult (ClientMap (List Node)))
unfolding diff_clients diff_state_vectors
diff_structs map sv = diff_clients map (diff_state_vectors (items_as_state_vector [] map) sv) []

-- `generate_delete_set`; `none` is a panic of the ranges.
unfoldable pub delete_nodes : ⦃b : BinarySearch⦄ → DeleteSet → ℕ → List Node → Option DeleteSet
delete_nodes delete_set of_client [] = some delete_set
delete_nodes delete_set of_client (n ∷ nodes) =
    if node_deleted n
    then (add delete_set of_client (clock n) (node_len n) >>= λ d. delete_nodes d of_client nodes)
    else delete_nodes delete_set of_client nodes

unfoldable pub delete_all :
    ⦃b : BinarySearch⦄ → DeleteSet → ClientMap (List Node) → Option DeleteSet
unfolding delete_nodes
delete_all delete_set [] = some delete_set
delete_all delete_set ((of_client, nodes) ∷ refs) =
    delete_nodes delete_set of_client nodes >>= λ d. delete_all d refs

unfoldable pub generate_delete_set : ⦃b : BinarySearch⦄ → ClientMap (List Node) → Option DeleteSet
unfolding delete_all
generate_delete_set refs = delete_all [] refs
