-- ===== src/Runs/UpdateRuns.antt =====
-- The theorems on updates at concrete inputs.
use octo_base.Base.{
  ℕ, ◌+◌, ◌*◌, ◌%◌, ◌^◌, ◌<◌, ◌≡◌, refl, true, none, some, Option, List, [], ◌∷◌, ◌==◌, arith,
  Bool-cases, inl, inr, All,
}
use octo_base.Doc.Client.{ItemId, get, insert}
use octo_base.Doc.OrderRange.{range, is_empty_range}
use octo_base.Doc.Content.{string}
use octo_base.Doc.Item.{Item_new}
use octo_base.Doc.Node.{
  Node, item, new_gc, new_skip, clock, client, node_len, node_id, is_item, is_skip, as_item,
}
use octo_base.Doc.StateVector.{StateVector, set_max, get_clock, contains}
use octo_base.Doc.Update.{Update, update_of}
use octo_base.Doc.Update.Next.{
  UpdateIterator, next, next_candidate, next_client, round, resolve, reach, get_missing_dep,
}
use octo_base.Doc.Update.Next.Measure.{nodes_left, next-Returns}
use octo_base.Doc.Update.Next.Yields.{AreClocks, IsApplicable, next-IsApplicable}
use octo_base.Doc.Update.Deletes.{DeleteSetIterator, next_delete}
use octo_base.Doc.Update.Deletes.Ends.{Reaches, deletes_left, next_delete-Reaches}
use octo_base.Doc.Update.Merge.{fill, merge, without_skips}
use octo_base.Doc.Update.Merge.Gaps.{NoGaps, fill-NoGaps, fill_drops_longer, merge_skips_panics}
use octo_base.Doc.Store.{end_clock}
use octo_base.Runs.Host.{host_search}

abbrev id_at : ℕ → ItemId
id_at at = record { client = 1; clock = at }

abbrev state_three : StateVector
state_three = (1, 3) ∷ []

state_three-AreClocks : AreClocks state_three
unfolding get_clock get
state_three-AreClocks c = elim (Bool-cases (1 == c)) [
  | inl same ↦ rw same (omega arith)
  | inr other ↦ rw other (omega arith)
]

-- A node that follows the state, behind one that the state has.
abbrev two_left : Update
two_left = update_of ((1, new_gc (id_at 0) 3 ∷ new_gc (id_at 3) 2 ∷ []) ∷ []) []

abbrev iterator : UpdateIterator
iterator = record {
  update = two_left;
  state = state_three;
  client_ids = [];
  cur_client_id = some 1;
  stack = [];
}

two_left_work : 2 * nodes_left two_left.structs + 0 < 5
unfolding nodes_left
two_left_work = omega arith

abbrev after_next : UpdateIterator
after_next = record {
  update = update_of ((1, []) ∷ []) [];
  state = (1, 5) ∷ [];
  client_ids = [];
  cur_client_id = some 1;
  stack = [];
}

iterator-next : next 9 iterator ≡ some (some (new_gc (id_at 3) 2, 0), after_next)
unfolding next next_candidate next_client round resolve reach contains set_max insert
    get_missing_dep is_skip get get_clock as_item clock client node_id node_len new_gc
iterator-next = refl

next-IsApplicable_example :
    IsApplicable iterator.state (new_gc (id_at 3) 2) 0
    × (after_next.state
        ≡ set_max iterator.state
            (client (new_gc (id_at 3) 2))
            ((clock (new_gc (id_at 3) 2) + node_len (new_gc (id_at 3) 2)) % 2 ^ 64))
next-IsApplicable_example =
    next-IsApplicable 9 iterator after_next (new_gc (id_at 3) 2) 0 state_three-AreClocks
      iterator-next

next-Returns_example :
    (found : Option (Node × ℕ)) × (self' : UpdateIterator) × (next 5 iterator ≡ some (found, self'))
next-Returns_example = next-Returns 5 iterator two_left_work

abbrev some_deleted : Update
some_deleted = update_of [] ((1, range (record { start = 2; end = 9 })) ∷ [])

abbrev deletes : DeleteSetIterator
deletes = record { update = some_deleted; state = state_three }

some_deleted_left : deletes_left some_deleted.delete_set < 3
unfolding deletes_left is_empty_range
some_deleted_left = omega arith

next_delete-Reaches_example : Reaches state_three (next_delete 3 deletes)
next_delete-Reaches_example = next_delete-Reaches 3 deletes some_deleted_left

abbrev letters : ℕ → Node
letters at = item (Item_new (id_at at) (string (0x61 ∷ 0x62 ∷ [])) none none none none)

letters_are_items : All (λ m. (is_item m ≡ true) × (clock m < 2 ^ 64)) (letters 0 ∷ letters 5 ∷ [])
unfolding is_item clock node_id Item_new
letters_are_items = ((refl, omega arith), ((refl, omega arith), tt))

fill-NoGaps_example :
    (merged : List Node) × (fill (letters 0 ∷ letters 5 ∷ []) ≡ some (letters 0 ∷ merged))
    × NoGaps (end_clock (letters 0)) merged
fill-NoGaps_example = fill-NoGaps (letters 0) (letters 5 ∷ []) letters_are_items

fill_drops_longer_example :
    fill (new_gc (id_at 4) 1 ∷ new_gc (id_at 4) 3 ∷ []) ≡ some (new_gc (id_at 4) 1 ∷ [])
fill_drops_longer_example = fill_drops_longer (id_at 4) 1 3 (omega arith)

abbrev only_skips : Update
only_skips = update_of ((1, new_skip (id_at 0) 4 ∷ []) ∷ []) []

only_skips_dropped : without_skips (new_skip (id_at 0) 4 ∷ []) ≡ []
unfolding without_skips is_skip new_skip
only_skips_dropped = refl

merge_skips_panics_example : merge (only_skips ∷ []) ≡ none
merge_skips_panics_example =
    merge_skips_panics only_skips 1 (new_skip (id_at 0) 4 ∷ []) refl only_skips_dropped
