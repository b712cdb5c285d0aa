-- ===== src/Runs/IntegrateRuns.antt =====
-- The theorems on the integration of items and on documents at concrete inputs.
use octo_base.Base.{
  ℕ, ◌+◌, ◌%◌, ◌^◌, ◌≡◌, refl, true, false, Option, none, some, List, [], ◌∷◌, ◌==◌, arith, inl,
  if◌then◌else◌,
}
use octo_base.Base.Assoc.{assoc_get, bytes_eq}
use octo_base.Base.Result.{ok}
use octo_base.Crates.{Bytes}
use octo_base.Doc.Client.{ItemId, id_eq, id_add, get, insert, remove}
use octo_base.Doc.OrderRange.{range, pop, is_empty_range}
use octo_base.Doc.StateVector.{get_clock}
use octo_base.Doc.DeleteSet
use octo_base.Doc.ItemFlag
use octo_base.Doc.Item
use octo_base.Doc.Node
use octo_base.Doc.YType.{YType, YType_new, key_eq, of_name}
use octo_base.Doc.Content.{string, deleted, split, countable, clock_len, utf16_sum}
use octo_base.Doc.Item.{Item, item_deleted}
use octo_base.Doc.Node.{Node, item, node_deleted}
use octo_base.Doc.Update.{Update, update_of}
use octo_base.Doc.Update.Deletes.{DeleteSetIterator, DeleteSetIterator_new, next_delete}
use octo_base.Doc.Store.{DocStore, end_clock, get_state_vector, add_node, push_node}
use octo_base.Doc.Store.Links.{
  Run, done, named_type, get_item, item_in, set_in, set_type, set_item, type_state,
}
use octo_base.Doc.Store.Links.Row.{follow, IsLinked, insert_after}
use octo_base.Doc.Store.Split.{split_item_at}
use octo_base.Doc.Store.Split.Flags.{split_item_revives}
use octo_base.Doc.Store.Integrate.{conflict_loop, find_left, integrate_into}
use octo_base.Doc.Store.Integrate.Scan.{left_at}
use octo_base.Doc.Store.Integrate.Siblings.{Block, flat, position, conflict_loop-flat}
use octo_base.Doc.Store.Integrate.Between.{conflict_loop_splits_run}
use octo_base.Doc.Store.Integrate.Insert.{integrate_into-insert_after}
use octo_base.Doc.Store.Integrate.Keys.{integrate_into_takes_key}
use octo_base.Doc.Store.Integrate.Length.{integrate_into_counts_all}
use octo_base.Doc.Document.{DocState, any_reached, apply_update}
use octo_base.Doc.Document.Pending.{apply_update_drops_deletes}
use octo_base.Runs.Host.{host_search}

abbrev id_of_client : ℕ → ItemId
id_of_client c = record { client = c; clock = 0 }

-- An item of one letter.
abbrev letter : ℕ → Option ItemId → Option ItemId → Option Bytes → Item
letter c left right sub = record {
  id = id_of_client c;
  origin_left_id = left;
  origin_right_id = none;
  left = left;
  right = right;
  parent = none;
  parent_sub = sub;
  content = string (0x61 ∷ []);
  flags = 2;
}

abbrev key : Bytes
key = 0x6b ∷ []

abbrev root : YType
root = named_type (0x74 ∷ [])

-- The second letter of a client, behind its first one.
abbrev second : ItemId
second = record { client = 1; clock = 1 }

abbrev first_letter : Item
first_letter = letter 1 none (some second) none

abbrev second_letter : Item
second_letter = record (letter 1 (some (id_of_client 1)) (some (id_of_client 3)) none) {
  id = second;
}

abbrev blocks : List Block
blocks = (first_letter, second_letter ∷ []) ∷ (letter 3 none none none, []) ∷ []

abbrev block_find : ItemId → Option Item
block_find id =
    if id_eq id second
    then some second_letter
    else if id.client == 1
    then some first_letter
    else if id.client == 3
    then some (letter 3 none none none)
    else none

conflict_loop-flat_example :
    conflict_loop 4 block_find (letter 2 none none none) none (some (id_of_client 1)) none [] []
    ≡ some (left_at none (position (letter 2 none none none) blocks) (flat blocks))
unfolding flat Item.last_id Item.item_len clock_len utf16_sum
conflict_loop-flat_example =
    conflict_loop-flat block_find (letter 2 none none none) none none (some (id_of_client 1)) 4
      blocks (omega arith)
      (
        (refl, refl, ((id_of_client 1, refl, inl (refl, omega arith, refl), refl, refl), tt)),
        ((refl, refl, tt), tt),
      )
      (refl, refl, refl, (refl, refl, refl, (refl, refl, refl, refl)))

-- An item of three clocks, and the next of its client.
abbrev long_item : Item
long_item = record (letter 1 none (some (record { client = 1; clock = 3 })) none) {
  content = deleted 3;
  flags = 4;
}

abbrev next_item : Item
next_item = record (letter 1 (some (id_of_client 1)) none none) {
  id = record { client = 1; clock = 3 };
  origin_left_id = some (record { client = 1; clock = 2 });
}

abbrev long_find : ItemId → Option Item
long_find id = if id.clock == 0 then some long_item else some next_item

conflict_loop_splits_run_example :
    conflict_loop 3 long_find (letter 2 none none none) none (some (id_of_client 1)) none [] []
    ≡ some (some (id_of_client 1))
unfolding Item.last_id Item.item_len clock_len
conflict_loop_splits_run_example =
    conflict_loop_splits_run long_find (letter 2 none none none) long_item next_item none none
      (some (id_of_client 1)) 3 (omega arith) refl refl refl (omega arith) (omega arith) refl refl
      refl (refl, refl, refl, (refl, refl, refl, refl))

abbrev row_store : DocStore
row_store = record {
  own_client = 1;
  items = (1, item (letter 1 none none none) ∷ []) ∷ [];
  delete_set = [];
  dangling_types = [];
  types =
      (of_name (0x74 ∷ []), record { ty = root; start = some (id_of_client 1); map = []; len = 1 })
      ∷ [];
}

abbrev or_first : DocStore → Run DocStore → DocStore
or_first store (some (ok store')) = store'
or_first store _ = store

abbrev next_letter : Item
next_letter = letter 2 (some (id_of_client 1)) none none

abbrev row_after : DocStore
row_after = or_first row_store (integrate_into 9 row_store next_letter root)

row_after-done : integrate_into 9 row_store next_letter root ≡ done row_after
unfolding integrate_into get_item get item_in YType_new add_node push_node set_type set_item insert
    Node.client Node.node_id set_in type_state key_eq
row_after-done = refl

integrate_into-insert_after_example :
    IsLinked
      (follow row_after)
      (type_state row_after root).start
      (insert_after (some (id_of_client 1)) (id_of_client 2) (id_of_client 1 ∷ []))
unfolding follow get_item get item_in type_state find_left YType_new key_eq bytes_eq
integrate_into-insert_after_example =
    integrate_into-insert_after 9 root (of_name (0x74 ∷ [])) refl row_store row_after next_letter
      (some (id_of_client 1)) (id_of_client 1 ∷ []) refl refl (refl, (none, refl, refl)) (tt, tt)
      (refl, tt) refl refl (inl refl) row_after-done

-- Two letters that are put at the start at once, and arrive in either order.
abbrev arrived : Item → Item → DocStore
arrived x y =
    or_first row_store
      (integrate_into 9 (or_first row_store (integrate_into 9 row_store x root)) y root)

abbrev two : Item
two = letter 2 none none none

abbrev four : Item
four = letter 4 none none none

abbrev after_one : Item → DocStore
after_one x = or_first row_store (integrate_into 9 row_store x root)

-- A deleted item of three clocks, which is not countable.
abbrev tombstone : Item
tombstone = record next_letter { content = deleted 3; flags = 4 }

abbrev tombstone_after : DocStore
tombstone_after = or_first row_store (integrate_into 9 row_store tombstone root)

tombstone_after-done : integrate_into 9 row_store tombstone root ≡ done tombstone_after
unfolding integrate_into get_item get item_in YType_new add_node push_node set_type set_item insert
    Node.client Node.node_id set_in type_state key_eq
tombstone_after-done = refl

integrate_into_counts_all_example :
    (type_state tombstone_after root).len
    ≡ ((type_state row_store root).len + Item.item_len tombstone) % 2 ^ 64
unfolding follow get_item get item_in type_state find_left YType_new key_eq bytes_eq
integrate_into_counts_all_example =
    integrate_into_counts_all 9 root (of_name (0x74 ∷ [])) refl row_store tombstone_after tombstone
      (some (id_of_client 1)) refl refl refl tombstone_after-done

abbrev key_store : DocStore
key_store = record {
  own_client = 1;
  items = (2, item (letter 2 none none (some key)) ∷ []) ∷ [];
  delete_set = [];
  dangling_types = [];
  types =
      (
        of_name (0x74 ∷ []),
        record { ty = root; start = none; map = (key, id_of_client 2) ∷ []; len = 0 },
      )
      ∷ [];
}

-- An item of a lower client, which the one of the key does not stand before.
abbrev late_letter : Item
late_letter = letter 1 none none (some key)

integrate_into_takes_key_example :
    (store : DocStore) × (integrate_into 2 key_store late_letter root
      ≡ some (add_node store (item (record late_letter { left = none; right = none }))))
    × ((self' : DocStore)
        → add_node store (item (record late_letter { left = none; right = none })) ≡ ok self'
        → (assoc_get (type_state self' root).map key ≡ some (id_of_client 1))
          × (get_item self' (id_of_client 2) ≡ some (letter 2 none none (some key))))
unfolding get_item get item_in type_state find_left YType_new key_eq bytes_eq assoc_get
integrate_into_takes_key_example =
    integrate_into_takes_key 2 root (of_name (0x74 ∷ [])) refl key_store late_letter
      (letter 2 none none (some key)) key (id_of_client 2) (id_of_client 2 ∷ []) refl refl refl refl
      refl refl refl refl refl (refl, (none, refl, refl)) (omega arith)

-- A deleted item of three clocks.
abbrev gone : Item
gone = record (letter 1 none none none) { content = deleted 3; flags = 4 }

abbrev gone_parts : Run ((Node × Node) × DocStore)
gone_parts = split_item_at row_store 0 1 (item gone)

abbrev left_part : Item
left_part = record gone { content = deleted 1; right = some (record { client = 1; clock = 1 }) }

abbrev right_part : Item
right_part = record gone {
  id = record { client = 1; clock = 1 };
  origin_left_id = some (id_of_client 1);
  left = some (id_of_client 1);
  content = deleted 2;
  flags = 0;
}

abbrev or_parts : DocStore → Run ((Node × Node) × DocStore) → DocStore
or_parts store (some (ok (parts, store'))) = store'
or_parts store _ = store

gone_parts-done :
    gone_parts ≡ done ((item left_part, item right_part), or_parts row_store gone_parts)
unfolding split_item_at Item.split_at split Item.Item_new ItemFlag.keep Item.last_id id_add
    ItemFlag.check Item.item_len countable ItemFlag.deleted clock_len
gone_parts-done = refl

split_item_revives_example :
    (node_deleted (item left_part) ≡ item_deleted gone) × (node_deleted (item right_part) ≡ false)
split_item_revives_example =
    split_item_revives row_store (or_parts row_store gone_parts) 0 1 gone (item left_part)
      (item right_part) gone_parts-done

abbrev late_deletes : Update
late_deletes = update_of [] ((1, range (record { start = 5; end = 7 })) ∷ [])

abbrev waiting : DocState
waiting = record { store = row_store; pending = some late_deletes }

abbrev after_deletes : DeleteSetIterator
after_deletes = record {
  update = record (update_of [] []) {
    pending_delete_set = (1, range (record { start = 5; end = 7 })) ∷ [];
  };
  state = get_state_vector row_store;
}

waiting-ends :
    next_delete 3 (DeleteSetIterator_new late_deletes (get_state_vector row_store))
    ≡ done (none, after_deletes)
unfolding next_delete DeleteSetIterator_new pop is_empty_range get_clock get get_state_vector insert
    end_clock Node.clock Node.node_len Item.item_len clock_len utf16_sum DeleteSet.add
    DeleteSet.entry_add_range remove
waiting-ends = refl

apply_update_drops_deletes_example :
    apply_update (λ it. true) 3 waiting (update_of [] [])
    ≡ done (record { store = row_store; pending = none })
unfolding any_reached
apply_update_drops_deletes_example =
    apply_update_drops_deletes (λ it. true) 2 waiting late_deletes after_deletes refl refl refl
      waiting-ends
