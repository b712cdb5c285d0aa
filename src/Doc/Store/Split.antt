-- ===== src/Doc/Store/Split.antt =====
-- The lookups and splits of libs/jwst-codec/src/doc/store.rs: `get_node`, `split_node` and
-- `split_at_and_get_left` and `_right`.
pub mod Flags
use octo_base.Base.{
  ℕ, zero, suc, ◌+◌, ◌-◌, ◌%◌, ◌^◌, Bool, true, false, not, ◌&&◌, Option, none, some, List, [], ◌∷◌,
  ◌++◌, get_elem?, set, take, drop, ltb, ◌==◌, if◌then◌else◌,
}
use octo_base.Base.Result.{ok, err}
use octo_base.Doc.Error.{raised, panicked, struct_sequence_not_exists, item_split_not_support}
use octo_base.Doc.Client.{ItemId, ClientMap, get, insert}
use octo_base.Doc.Item
use octo_base.Doc.Item.{Item, last_id}
use octo_base.Doc.Node.{Node, gc, skip, item, node_id, clock, node_len, is_item, is_gc}
use octo_base.Doc.Store.{DocStore, get_node_index}
use octo_base.Doc.Store.Links.{Run, done, fail, ◌>>=◌, get_item, set_item}

-- `items.get(index).unwrap()`
abbrev pub node_at : Option Node → Run Node
node_at none = fail panicked
node_at (some n) = done n

abbrev pub with_idx : Option Node → ℕ → Option (Node × ℕ)
with_idx none index = none
with_idx (some n) index = some (n, index)

abbrev pub nodes_with_idx : List Node → Option ℕ → Run (Option (Node × ℕ))
nodes_with_idx items none = done none
nodes_with_idx items (some index) = done (with_idx (get_elem? items index) index)

abbrev pub search_node : Option (List Node) → ItemId → Run (Option (Node × ℕ))
search_node none id = done none
search_node (some items) id = get_node_index items id.clock >>= nodes_with_idx items

unfoldable pub get_node_with_idx : DocStore → ItemId → Run (Option (Node × ℕ))
get_node_with_idx self id = search_node (get self.items id.client) id

abbrev pub node_of : Option (Node × ℕ) → Run (Option Node)
node_of none = done none
node_of (some (n, index)) = done (some n)

unfoldable pub get_node : DocStore → ItemId → Run (Option Node)
unfolding get_node_with_idx
get_node self id = get_node_with_idx self id >>= node_of

-- The nodes of the client and the index of the node, or `StructSequenceNotExists`.
abbrev pub or_not_exists : ItemId → List Node → Option ℕ → Run (List Node × ℕ)
or_not_exists id items none = fail (raised (struct_sequence_not_exists id.client))
or_not_exists id items (some index) = done (items, index)

abbrev pub search_in : Option (List Node) → ItemId → Run (List Node × ℕ)
search_in none id = fail (raised (struct_sequence_not_exists id.client))
search_in (some items) id = get_node_index items id.clock >>= or_not_exists id items

unfoldable pub find_node : DocStore → ItemId → Run (List Node × ℕ)
find_node self id = search_in (get self.items id.client) id

abbrev pub left_of : Option Item → Option ItemId
left_of none = none
left_of (some i) = i.left

-- The left link of the new right part, and the store with that of the item behind it: the two are
-- exchanged, `mem::replace(&mut right_right.left, right_ref)`.
abbrev pub replace_left : DocStore → Item → ItemId → Option ItemId → Option ItemId × DocStore
replace_left self it right_id none = (some it.id, self)
replace_left self it right_id (some right_right) = (
  left_of (get_item self right_right),
  set_item self right_right (λ i. record i { left = some right_id }),
)

abbrev pub nodes_or_empty : Option (List Node) → List Node
nodes_or_empty none = []
nodes_or_empty (some nodes) = nodes

-- The left part stands in the item's place, with the item's own links, and the right part behind it.
unfoldable pub link_parts : DocStore → ℕ → Item → Item → Item → (Node × Node) × DocStore
link_parts self idx it left right =
    let (right_left, store) = replace_left self it right.id it.right in
    let left_item = record it { content = left.content; right = some right.id } in
    let right_item = record right {
      left = right_left;
      right = it.right;
      origin_left_id = some (last_id left_item);
      origin_right_id = it.origin_right_id;
    } in
    let nodes = set (nodes_or_empty (get store.items it.id.client)) idx (item left_item) in
    (
      (item left_item, item right_item),
      record store {
        items =
            insert store.items it.id.client
              (take (idx + 1) nodes ++ item right_item ∷ drop (idx + 1) nodes);
      },
    )

unfoldable pub split_item_at : DocStore → ℕ → ℕ → Node → Run ((Node × Node) × DocStore)
unfolding link_parts
split_item_at self idx diff (item it) =
    some (Item.split_at it diff) >>= λ (left, right). done (link_parts self idx it left right)
split_item_at self idx diff _ = fail (raised item_split_not_support)

unfoldable pub split_node_at : DocStore → List Node → ℕ → ℕ → Run ((Node × Node) × DocStore)
unfolding split_item_at
split_node_at self items idx diff = node_at (get_elem? items idx) >>= split_item_at self idx diff

unfoldable pub split_node : DocStore → ItemId → ℕ → Run ((Node × Node) × DocStore)
unfolding split_node_at find_node
split_node self id diff = find_node self id >>= λ (items, idx). split_node_at self items idx diff

unfoldable pub split_at_and_get_right : DocStore → ItemId → Run (Node × DocStore)
unfolding split_node_at find_node
split_at_and_get_right self id = find_node self id >>= λ (items, index).
    node_at (get_elem? items index) >>= λ n.
    let offset = (id.clock + 2 ^ 64 - clock n) % 2 ^ 64 in
    if ltb 0 offset && is_item n
    then (split_node_at self items index offset >>= λ ((left, right), store). done (right, store))
    else done (n, self)

unfoldable pub split_at_and_get_left : DocStore → ItemId → Run (Node × DocStore)
unfolding split_node_at find_node
split_at_and_get_left self id = find_node self id >>= λ (items, index).
    node_at (get_elem? items index) >>= λ n.
    let offset = (id.clock + 2 ^ 64 - clock n) % 2 ^ 64 in
    if not (offset == (node_len n + 2 ^ 64 - 1) % 2 ^ 64) && not (is_gc n)
    then (split_node_at self items index ((offset + 1) % 2 ^ 64) >>= λ ((left, right), store).
        done (left, store))
    else done (n, self)
