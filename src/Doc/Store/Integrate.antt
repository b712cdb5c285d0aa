-- ===== src/Doc/Store/Integrate.antt =====
-- `DocStore::integrate` of libs/jwst-codec/src/doc/store.rs: an item takes its place among the items of
-- its parent. The loops over links are on fuel.
pub mod Scan
pub mod Siblings
pub mod Between
pub mod Orders
pub mod Origins
pub mod Agree
pub mod Steps
pub mod Insert
pub mod Keys
pub mod Length
use octo_base.Base.{
  ℕ, zero, suc, ◌+◌, ◌-◌, ◌%◌, ◌^◌, Bool, true, false, not, ◌&&◌, ◌||◌, Option, none, some, List,
  [], ◌∷◌, ltb, ◌==◌, if◌then◌else◌,
}
use octo_base.Base.Assoc.{assoc_get, assoc_insert}
use octo_base.Base.Result.{ok, err}
use octo_base.Crates.{Bytes}
use octo_base.Doc.Client.{ItemId, id_add, id_eq, same_id}
use octo_base.Doc.OrderRange.{BinarySearch}
use octo_base.Doc.YType.{YType, TypeState}
use octo_base.Doc.Content.{split}
use octo_base.Doc.Item.{
  Item, Parent, type_ref, is_some, item_len, item_deleted, delete_item, last_id,
}
use octo_base.Doc.Node.{Node, NodeLen, gc, skip, item, new_gc}
use octo_base.Doc.Store.{DocStore, add_node}
use octo_base.Doc.Store.Links.{Run, done, ◌>>=◌, get_item, set_item, type_state, set_type}
use octo_base.Doc.Store.Split.{split_at_and_get_left}
use octo_base.Doc.Store.Delete.{right_of, delete_stored_item, delete_if_item}
use octo_base.Doc.Store.Repair.{item_by}

-- `contains` of the sets of ids.
unfoldable pub has_id : List ItemId → ItemId → Bool
has_id [] id = false
has_id (i ∷ ids) id = id_eq i id || has_id ids id

-- What an item among the conflicting ones means for the new item: it stands before that one, it goes
-- on, or it stands after that one as far as is known.
pub data Verdict : Type 0 where
  stop pass after : Verdict

abbrev pub by_origin : List ItemId → List ItemId → Option ItemId → Verdict
by_origin conflicting before none = stop
by_origin conflicting before (some left) =
    if has_id before left && not (has_id conflicting left) then after else pass

-- The sets have the item's own id already.
unfoldable pub verdict : Item → List ItemId → List ItemId → Item → Verdict
unfolding has_id
verdict this conflicting before c =
    if same_id this.origin_left_id c.origin_left_id
    then (if ltb c.id.client this.id.client
        then after
        else if same_id this.origin_right_id c.origin_right_id
        then stop
        else pass)
    else by_origin conflicting before c.origin_left_id

-- What the verdict makes of the left item and the conflicting ones.
abbrev pub next_conflict :
    Verdict
    → Option ItemId
    → ItemId
    → List ItemId
    → (Option ItemId → List ItemId → Option (Option ItemId))
    → Option (Option ItemId)
next_conflict stop left id conflicting next = some left
next_conflict pass left id conflicting next = next left conflicting
next_conflict after left id conflicting next = next (some id) []

abbrev pub at_conflict :
    Option Item → Option ItemId → (Item → Option (Option ItemId)) → Option (Option ItemId)
at_conflict none left next = some left
at_conflict (some c) left next = next c

-- The `while` loop over the conflicting items: the left item that it comes to.
unfoldable pub conflict_loop :
    ℕ
    → (ItemId → Option Item)
    → Item
    → Option ItemId
    → Option ItemId
    → Option ItemId
    → List ItemId
    → List ItemId
    → Option (Option ItemId)
conflict_loop zero find this right conflict left conflicting before = none
conflict_loop (suc fuel) find this right none left conflicting before = some left
conflict_loop (suc fuel) find this right (some id) left conflicting before =
    let found = at_conflict (find id) left (λ (c : Item).
      next_conflict (verdict this (c.id ∷ conflicting) (c.id ∷ before) c) left c.id
        (c.id ∷ conflicting)
        λ left' conflicting'.
          conflict_loop fuel find this right c.right left' conflicting' (c.id ∷ before)) in
    if same_id (some id) right then some left else found

abbrev pub null_or_has_left : Option Item → Bool
null_or_has_left none = true
null_or_has_left (some right) = is_some right.left

abbrev pub has_other_right : Option Item → Option ItemId → Bool
has_other_right none right = false
has_other_right (some left) right = not (same_id left.right right)

-- The first item of the parent, in its row or under the key.
abbrev pub first_of : TypeState → Option Bytes → Option ItemId
first_of parent none = parent.start
first_of parent (some sub) = assoc_get parent.map sub

abbrev pub first_conflict : Option Item → TypeState → Option Bytes → Option ItemId
first_conflict (some left) parent sub = left.right
first_conflict none parent sub = first_of parent sub

abbrev pub done_if : Option (Option ItemId) → Run (Option ItemId)
done_if none = none
done_if (some left) = done left

-- The left neighbour, after the conflicts.
unfoldable pub find_left : ℕ → DocStore → TypeState → Item → Run (Option ItemId)
unfolding conflict_loop verdict
find_left fuel self parent this =
    let left = item_by self this.left in
    let right = item_by self this.right in
    let found = done_if (
      conflict_loop fuel (get_item self) this this.right
        (first_conflict left parent this.parent_sub) this.left [] []) in
    if (not (is_some left) && null_or_has_left right) || has_other_right left this.right
    then found
    else done this.left

-- `Node::head`: an item without a left one is followed by the null reference.
unfoldable pub head : ℕ → DocStore → Option ItemId → Run (Option ItemId)
head zero self cur = none
head (suc fuel) self none = done none
head (suc fuel) self (some id) = elim (get_item self id) [
  | none ↦ done (some id)
  | some it ↦ head fuel self it.left
]

abbrev pub head_of : ℕ → DocStore → Option ItemId → Run (Option ItemId)
head_of fuel self none = done none
head_of fuel self (some id) = head fuel self (some id)

abbrev pub without_left :
    ℕ → DocStore → YType → TypeState → ItemId → Option Bytes → Run (Option ItemId × DocStore)
without_left fuel self ty parent this none =
    done (parent.start, set_type self ty (record parent { start = some this }))
without_left fuel self ty parent this (some sub) =
    head_of fuel self (assoc_get parent.map sub) >>= λ right. done (right, self)

-- Left neighbour and item are connected: the right neighbour, and the store.
unfoldable pub connect_left :
    ℕ → DocStore → YType → TypeState → Item → Option ItemId → Run (Option ItemId × DocStore)
unfolding head
connect_left fuel self ty parent this (some left) =
    done
      (right_of (get_item self left), set_item self left (λ i. record i { right = some this.id }))
connect_left fuel self ty parent this none =
    without_left fuel self ty parent this.id this.parent_sub

module _ ⦃b : BinarySearch⦄ where
  -- The item is the last under its key, and the one before it is deleted.
  abbrev pub take_key : ℕ → DocStore → YType → ItemId → Option Bytes → Option ItemId → Run DocStore
  take_key fuel self ty this none left = done self
  take_key fuel self ty this (some sub) left =
      let parent = type_state self ty in
      let store = set_type self ty (record parent { map = assoc_insert parent.map sub this }) in
      delete_if_item fuel store (item_by store left) (some ty)

  abbrev pub link_right : ℕ → DocStore → YType → Item → Option ItemId → Option Item → Run DocStore
  link_right fuel self ty this left none = take_key fuel self ty this.id this.parent_sub left
  link_right fuel self ty this left (some r) =
      done (set_item self r.id (λ i. record i { left = some this.id }))

  unfoldable pub connect_right :
      ℕ → DocStore → YType → Item → Option ItemId → Option ItemId → Run DocStore
  connect_right fuel self ty this left right =
      link_right fuel self ty this left (item_by self right)

  abbrev pub is_deleted_item : Option Item → Bool
  is_deleted_item none = false
  is_deleted_item (some it) = item_deleted it

  -- The new item is deleted with its parent, or under a key that has a later one; else it counts.
  unfoldable pub settle : ℕ → DocStore → YType → Item → Run (Item × DocStore)
  settle fuel self ty this =
      let parent = type_state self ty in
      let parent_deleted = is_deleted_item (item_by self ty.item) in
      if parent_deleted || (is_some this.parent_sub && is_some (item_by self this.right))
      then (delete_stored_item fuel self this (some ty) >>= λ store.
          done ((delete_item this).0, store))
      else if is_some this.parent_sub
      then done (this, self)
      else done
          (this, set_type self ty (record parent { len = (parent.len + item_len this) % 2 ^ 64 }))

  unfoldable pub integrate_into : ℕ → DocStore → Item → YType → Run DocStore
  unfolding find_left connect_left connect_right settle
  integrate_into fuel self this ty = find_left fuel self (type_state self ty) this >>= λ left.
      connect_left fuel self ty (type_state self ty) this left >>= λ (right, store).
      connect_right fuel store ty this left right >>= λ store'.
      settle fuel store' ty (record this { left = left; right = right }) >>= λ (settled, store'').
      some (add_node store'' (item settled))

  -- The item is added in the place that its parent tells; without a parent, a collected node is.
  abbrev pub integrate_by : ℕ → DocStore → Item → Option YType → Option Parent → Run DocStore
  integrate_by fuel self this (some parent) (some (type_ref ty)) =
      integrate_into fuel self this parent
  integrate_by fuel self this none (some (type_ref none)) = done self
  integrate_by fuel self this none (some (type_ref (some ty))) = integrate_into fuel self this ty
  integrate_by fuel self this parent _ = some (add_node self (new_gc this.id (item_len this)))

  abbrev pub with_left : Item → Node → Item
  with_left this (item left) = record this {
    origin_left_id = some (last_id left);
    left = some left.id;
  }
  with_left this _ = this

  -- Without the part that the store has.
  unfoldable pub from_offset : DocStore → Item → ℕ → Run (Item × DocStore)
  from_offset self this offset =
      let id = id_add this.id offset in
      let found =
        split_at_and_get_left self (record id { clock = (id.clock + 2 ^ 64 - 1) % 2 ^ 64 })
        >>= λ (left, store). some (split this.content offset) >>= λ (taken, content).
            done (record (with_left (record this { id = id }) left) { content = content }, store) in
      if ltb 0 offset then found else done (this, self)

  unfoldable pub gc_from : NodeLen → ℕ → NodeLen
  gc_from n offset =
      if ltb 0 offset
      then record { id = id_add n.id offset; len = (n.len + 2 ^ 64 - offset) % 2 ^ 64 }
      else n

  unfoldable pub integrate : ℕ → DocStore → Node → ℕ → Option YType → Run DocStore
  unfolding integrate_into from_offset gc_from
  integrate fuel self (item this) offset parent = from_offset self this offset >>= λ (this', store).
      integrate_by fuel store this' parent this'.parent
  integrate fuel self (gc n) offset parent = some (add_node self (gc (gc_from n offset)))
  integrate fuel self (skip n) offset parent = some (add_node self (skip n))
