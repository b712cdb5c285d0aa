-- ===== src/Doc/Store/Delete.antt =====
-- The deletion of items and ranges in libs/jwst-codec/src/doc/store.rs. Children are deleted by a
-- recursion on fuel.
use octo_base.Base.{
  ℕ, zero, suc, ◌+◌, ◌-◌, ◌%◌, ◌^◌, not, ◌&&◌, Option, none, some, List, [], ◌∷◌, ◌++◌, get_elem?,
  ltb, ◌==◌, if◌then◌else◌,
}
use octo_base.Crates.{Bytes}
use octo_base.Doc.Error.{panicked}
use octo_base.Doc.Client.{ItemId, ClientMap, get, insert}
use octo_base.Doc.OrderRange.{Range, BinarySearch}
use octo_base.Doc.DeleteSet.{DeleteSet, batch_add_ranges}
use octo_base.Doc.ItemFlag
use octo_base.Doc.YType.{YType}
use octo_base.Doc.Content.{Content, ytype}
use octo_base.Doc.Item.{Item, Parent, type_ref, is_some, item_len, item_deleted, delete_item}
use octo_base.Doc.Node.{Node, node_id, clock, node_deleted, as_item}
use octo_base.Doc.Store.{DocStore, get_node_index}
use octo_base.Doc.Store.Links.{Run, done, fail, ◌>>=◌, get_item, set_item, type_state, set_type}
use octo_base.Doc.Store.Split.{node_at, split_node_at, nodes_or_empty}

-- The store, and the ranges that are not in its delete set yet.
pub record Deletion : Type 0 where
  pub store : DocStore
  pub pending : ClientMap (List Range)

abbrev pub push_range : Option (List Range) → Range → List Range
push_range none r = r ∷ []
push_range (some v) r = v ++ r ∷ []

-- Steps 1 and 2 of `delete_item_inner`, on an item that is not deleted.
unfoldable pub mark_deleted : Deletion → Item → Deletion
mark_deleted self it =
    let r : Range = record { start = it.id.clock; end = (it.id.clock + item_len it) % 2 ^ 64 } in
    record {
      store = set_item self.store it.id (λ i. (delete_item i).0);
      pending = insert self.pending it.id.client (push_range (get self.pending it.id.client) r);
    }

abbrev pub shorten : DocStore → YType → ℕ → DocStore
shorten self ty len =
    let state = type_state self ty in
    set_type self ty (record state { len = (state.len + 2 ^ 64 - len) % 2 ^ 64 })

-- Step 3: `parent` is the type that the caller holds.
abbrev pub shorten_parent : DocStore → Item → Option YType → Option Parent → Run DocStore
shorten_parent self it (some parent) of_item =
    done (if (type_state self parent).len == 0 then self else shorten self parent (item_len it))
shorten_parent self it none (some (type_ref none)) = fail panicked
shorten_parent self it none (some (type_ref (some ty))) = done (shorten self ty (item_len it))
shorten_parent self it none _ = done self

unfoldable pub adjust_parent : DocStore → Item → Option YType → Run DocStore
adjust_parent self it parent =
    if not (is_some it.parent_sub) && ItemFlag.countable it.flags
    then shorten_parent self it parent it.parent
    else done self

-- Step 4: the children in a row, and those under keys; `rec` deletes one.
abbrev pub delete_stored : (Deletion → Item → Run Deletion) → Deletion → Option Item → Run Deletion
delete_stored rec self none = done self
delete_stored rec self (some it) = rec self it

abbrev pub right_of : Option Item → Option ItemId
right_of none = none
right_of (some it) = it.right

unfoldable pub delete_row :
    ℕ → (Deletion → Item → Run Deletion) → Deletion → Option ItemId → Run Deletion
delete_row zero rec self cur = none
delete_row (suc fuel) rec self none = done self
delete_row (suc fuel) rec self (some id) =
    delete_stored rec self (get_item self.store id) >>= λ after.
    delete_row fuel rec after (right_of (get_item self.store id))

unfoldable pub delete_values :
    (Deletion → Item → Run Deletion) → Deletion → List (Bytes × ItemId) → Run Deletion
delete_values rec self [] = done self
delete_values rec self ((key, id) ∷ values) =
    delete_stored rec self (get_item self.store id) >>= λ after. delete_values rec after values

abbrev pub delete_children :
    ℕ → (YType → Deletion → Item → Run Deletion) → Deletion → Content → Run Deletion
delete_children fuel rec self (ytype (some ty)) =
    delete_row fuel (rec ty) self (type_state self.store ty).start >>= λ after.
    delete_values (rec ty) after (type_state after.store ty).map
delete_children fuel rec self _ = done self

unfoldable pub delete_item_inner : ℕ → Deletion → Item → Option YType → Run Deletion
unfolding mark_deleted adjust_parent delete_row delete_values
delete_item_inner zero self it parent = none
delete_item_inner (suc fuel) self it parent =
    let marked = mark_deleted self it in
    let deleted : Run Deletion = adjust_parent marked.store it parent >>= λ store.
    delete_children fuel (λ ty d i. delete_item_inner fuel d i (some ty))
      (record marked { store = store }) it.content in
    if item_deleted it then done self else deleted

module _ ⦃b : BinarySearch⦄ where
  -- `none` of the delete set is a panic of the ranges.
  abbrev pub into_set : Option DeleteSet → DocStore → (DocStore → Run DocStore) → Run DocStore
  into_set none self next = fail panicked
  into_set (some delete_set) self next = next (record self { delete_set = delete_set })

  unfoldable pub add_pending : DocStore → ClientMap (List Range) → Run DocStore
  add_pending self [] = done self
  add_pending self ((of_client, ranges) ∷ pending) =
      into_set (batch_add_ranges self.delete_set of_client ranges) self
        λ store. add_pending store pending

  -- `DocStore::delete_item`
  unfoldable pub delete_stored_item : ℕ → DocStore → Item → Option YType → Run DocStore
  unfolding delete_item_inner add_pending
  delete_stored_item fuel self it parent =
      delete_item_inner fuel (record { store = self; pending = [] }) it parent >>= λ after.
      add_pending after.store after.pending

  abbrev pub delete_if_item : ℕ → DocStore → Option Item → Option YType → Run DocStore
  delete_if_item fuel self none parent = done self
  delete_if_item fuel self (some it) parent = delete_stored_item fuel self it parent

  unfoldable pub delete_node : ℕ → DocStore → Node → Option YType → Run DocStore
  unfolding delete_stored_item
  delete_node fuel self n parent = delete_if_item fuel self (as_item n) parent

  -- The nodes of a client as they stand now.
  abbrev pub nodes_now : DocStore → ℕ → List Node
  nodes_now self of_client = nodes_or_empty (get self.items of_client)

  -- The split of an item that ends past the range; what is deleted is the item that was split.
  unfoldable pub split_end : Deletion → ℕ → ℕ → ℕ → Item → Run Deletion
  split_end self of_client end idx it =
      if ltb end ((it.id.clock + item_len it) % 2 ^ 64)
      then (split_node_at self.store (nodes_now self.store of_client) idx
            ((end + 2 ^ 64 - it.id.clock) % 2 ^ 64)
          >>= λ (parts, store). done (record self { store = store }))
      else done self

  abbrev pub delete_at : ℕ → Deletion → ℕ → ℕ → ℕ → Option Item → Run Deletion
  delete_at fuel self of_client end idx none = done self
  delete_at fuel self of_client end idx (some it) = split_end self of_client end idx it >>= λ split.
      delete_stored (λ d i. delete_item_inner fuel d i none) split (get_item split.store it.id)

  abbrev pub delete_from :
      ℕ → Deletion → ℕ → ℕ → ℕ → Option Node → (Deletion → Run Deletion) → Run Deletion
  delete_from fuel self of_client end idx none next = done self
  delete_from fuel self of_client end idx (some n) next =
      if ltb (clock n) end
      then (if node_deleted n
          then next self
          else (delete_at fuel self of_client end idx (as_item n) >>= next))
      else done self

  -- The loop of `delete_range`.
  unfoldable pub delete_loop : ℕ → Deletion → ℕ → ℕ → ℕ → Run Deletion
  unfolding split_end
  delete_loop zero self of_client end idx = none
  delete_loop (suc fuel) self of_client end idx =
      delete_from fuel self of_client end idx (get_elem? (nodes_now self.store of_client) idx)
        λ after. delete_loop fuel after of_client end (idx + 1)

  -- The split at the start of the range, and the index to begin at.
  unfoldable pub split_start : DocStore → ℕ → ℕ → Node → Run (DocStore × ℕ)
  split_start self start idx n =
      if not (node_deleted n) && ltb (clock n) start
      then (split_node_at self (nodes_now self (node_id n).client) idx
            ((start + 2 ^ 64 - clock n) % 2 ^ 64)
          >>= λ (parts, store). done (store, idx + 1))
      else done (self, idx)

  abbrev pub delete_found : ℕ → DocStore → ℕ → Range → Option ℕ → Run DocStore
  delete_found fuel self of_client r none = done self
  delete_found fuel self of_client r (some index) =
      node_at (get_elem? (nodes_now self of_client) index) >>= λ n.
      split_start self r.start index n >>= λ (store, idx).
      delete_loop fuel (record { store = store; pending = [] }) of_client r.end idx >>= λ after.
      add_pending after.store after.pending

  abbrev pub delete_in : ℕ → DocStore → ℕ → Range → Option (List Node) → Run DocStore
  delete_in fuel self of_client r none = done self
  delete_in fuel self of_client r (some items) =
      get_node_index items r.start >>= delete_found fuel self of_client r

  unfoldable pub delete_range : ℕ → DocStore → ℕ → Range → Run DocStore
  unfolding split_start delete_loop
  delete_range fuel self of_client r = delete_in fuel self of_client r (get self.items of_client)
