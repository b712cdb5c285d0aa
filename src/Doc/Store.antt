-- ===== src/Doc/Store.antt =====
-- `DocStore` of libs/jwst-codec/src/doc/store.rs: the nodes of each client, in the order of their
-- clocks. u64 and usize arithmetic wraps, as in a release build.
pub mod Order
pub mod Search
pub mod Clocks
pub mod Diff
pub mod Links
pub mod Split
pub mod Delete
pub mod Repair
pub mod Integrate
use octo_base.Base.{
  ℕ, zero, suc, ◌+◌, ◌-◌, ◌*◌, ◌/◌, ◌%◌, ◌^◌, Bool, true, false, not, ◌&&◌, Option, none, some,
  List, [], ◌∷◌, ◌++◌, length, get_elem?, set, take, drop, map, ltb, leb, ◌==◌, if◌then◌else◌,
}
use octo_base.Base.Result.{Result, ok, err, ◌>>=◌}
use octo_base.Doc.Error.{
  JwstCodecResult, raised, panicked, struct_clock_invalid, struct_sequence_invalid,
  struct_sequence_not_exists, item_split_not_support,
}
use octo_base.Doc.Client.{ItemId, ClientMap, get, insert}
use octo_base.Doc.DeleteSet.{DeleteSet}
use octo_base.Doc.StateVector.{StateVector}
use octo_base.Doc.YType.{TypeKey, TypeState}
use octo_base.Doc.Content.{Content}
use octo_base.Doc.Item.{Item, Item_new, split_at, last_id, Parent}
use octo_base.Doc.Node.{Node, gc, skip, item, node_id, client, clock, node_len, is_item, is_gc}

-- The fields that the operations below use.
pub record DocStore : Type 0 where
  pub own_client : ℕ
  pub items : ClientMap (List Node)
  pub delete_set : DeleteSet
  pub types : List (TypeKey × TypeState)
  -- The items whose types the store owns
  pub dangling_types : List ItemId

-- `DocStore::with_client`
unfoldable pub with_client : ℕ → DocStore
with_client own = record {
  own_client = own;
  items = [];
  delete_set = [];
  types = [];
  dangling_types = [];
}

-- `DocStore::clients`
unfoldable pub clients : DocStore → List ℕ
clients self = map (λ e. e.0) self.items

-- `VecDeque::back`
abbrev pub back : List Node → Option Node
back [] = none
back (n ∷ []) = some n
back (n ∷ m ∷ ns) = back (m ∷ ns)

-- `last_struct.clock() + last_struct.len()`
unfoldable pub end_clock : Node → ℕ
end_clock n = (clock n + node_len n) % 2 ^ 64

abbrev pub end_of_last : Option Node → ℕ
end_of_last none = 0
end_of_last (some n) = end_clock n

abbrev pub state_of : Option (List Node) → ℕ
state_of none = 0
state_of (some structs) = end_of_last (back structs)

unfoldable pub get_state : DocStore → ℕ → ℕ
get_state self of_client = state_of (get self.items of_client)

abbrev pub insert_state : StateVector → ℕ → Option Node → StateVector
insert_state state of_client none = state
insert_state state of_client (some n) = insert state of_client (end_clock n)

unfoldable pub items_as_state_vector : StateVector → ClientMap (List Node) → StateVector
items_as_state_vector state [] = state
items_as_state_vector state ((of_client, structs) ∷ rest) =
    items_as_state_vector (insert_state state of_client (back structs)) rest

unfoldable pub get_state_vector : DocStore → StateVector
unfolding items_as_state_vector
get_state_vector self = items_as_state_vector [] self.items

-- What `add_node` does with the structs of the client.
unfoldable pub push_node : Option (List Node) → Node → JwstCodecResult (List Node)
push_node none n = ok (n ∷ [])
push_node (some []) n = ok (n ∷ [])
push_node (some (m ∷ ms)) n =
    let expect = end_of_last (back (m ∷ ms)) in
    if expect == clock n
    then ok ((m ∷ ms) ++ n ∷ [])
    else err (raised (struct_clock_invalid expect (clock n)))

unfoldable pub add_node : DocStore → Node → JwstCodecResult DocStore
add_node self n = push_node (get self.items (client n)) n >>= λ structs.
    ok (record self { items = insert self.items (client n) structs })

-- A round of the binary search, at the node of index `middle_index`: the index that is found, or the
-- next left and right.
unfoldable pub search_round : ℕ → ℕ → ℕ → ℕ → Option Node → JwstCodecResult (Result ℕ (ℕ × ℕ))
search_round at left right middle_index none = err panicked
search_round at left right middle_index (some middle) =
    if leb (clock middle) at
    then (if ltb at (end_clock middle)
        then ok (ok middle_index)
        else ok (err (middle_index + 1, right)))
    else ok (err (left, (middle_index + 2 ^ 64 - 1) % 2 ^ 64))

abbrev pub search_next :
    JwstCodecResult (Result ℕ (ℕ × ℕ))
    → (ℕ → ℕ → Option (JwstCodecResult (Option ℕ)))
    → Option (JwstCodecResult (Option ℕ))
search_next (err e) next = some (err e)
search_next (ok (ok index)) next = some (ok (some index))
search_next (ok (err (left, right))) next = next left right

-- The `while` loop of `get_node_index`; the outer `none` is fuel that ran out.
unfoldable pub search_loop : ℕ → List Node → ℕ → ℕ → ℕ → ℕ → Option (JwstCodecResult (Option ℕ))
search_loop zero items at left right middle_index = none
search_loop (suc fuel) items at left right middle_index =
    let next = λ (l : ℕ) (r : ℕ). search_loop fuel items at l r ((l + r) % 2 ^ 64 / 2) in
    let found =
      search_next (search_round at left right middle_index (get_elem? items middle_index)) next in
    if leb left right then found else some (ok none)

-- The first guess: `(clock / (middle_clock + middle.len() - 1)) as usize * right`.
unfoldable pub first_guess : ℕ → ℕ → Node → JwstCodecResult ℕ
first_guess at right middle =
    let last = (end_clock middle + 2 ^ 64 - 1) % 2 ^ 64 in
    if last == 0 then err panicked else ok (at / last * right % 2 ^ 64)

-- `get_node_index`, by its last node.
unfoldable pub search_from : List Node → ℕ → Option Node → Option (JwstCodecResult (Option ℕ))
unfolding first_guess
search_from items at none = some (err panicked)
search_from items at (some middle) =
    let right = length items - 1 in
    let searched : Option (JwstCodecResult (Option ℕ)) = elim (first_guess at right middle) [
      | err e ↦ some (err e)
      | ok guess ↦ search_loop (length items + 2) items at 0 right guess
    ] in
    if clock middle == at then some (ok (some right)) else searched

unfoldable pub get_node_index : List Node → ℕ → Option (JwstCodecResult (Option ℕ))
unfolding search_from
get_node_index items at = search_from items at (back items)

-- The nodes around the place of a pair that does not follow on.
unfoldable pub check_structs : List Node → JwstCodecResult (Unit {0})
check_structs [] = ok tt
check_structs (l ∷ []) = ok tt
check_structs (l ∷ r ∷ rest) =
    let later = check_structs (r ∷ rest) in
    if end_clock l == clock r
    then later
    else err (raised (struct_sequence_invalid (client l) (clock l)))

unfoldable pub check_all : ClientMap (List Node) → JwstCodecResult (Unit {0})
check_all [] = ok tt
check_all ((of_client, structs) ∷ rest) = check_structs structs >>= λ u. check_all rest

unfoldable pub self_check : DocStore → JwstCodecResult (Unit {0})
unfolding check_all check_structs
self_check self = check_all self.items
