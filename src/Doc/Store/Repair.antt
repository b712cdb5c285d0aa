-- ===== src/Doc/Store/Repair.antt =====
-- `DocStore::repair` of libs/jwst-codec/src/doc/store.rs. Whether the content of an item owns its type,
-- as that of a decoded item does, is an argument.
use octo_base.Base.{Bool, true, false, Option, none, some, ◌∷◌}
use octo_base.Doc.Error.{raised, invalid_parent}
use octo_base.Doc.Client.{ItemId}
use octo_base.Doc.Content.{Content, ytype}
use octo_base.Doc.Item.{Item, Parent, type_ref, name, item_id, last_id}
use octo_base.Doc.Node.{Node, item}
use octo_base.Doc.Store.{DocStore}
use octo_base.Doc.Store.Links.{Run, done, fail, ◌>>=◌, get_item, get_or_create_type}
use octo_base.Doc.Store.Split.{get_node, split_at_and_get_left, split_at_and_get_right}

abbrev pub linked_left : Item → Node → Item
linked_left it (item left) = record it { origin_left_id = some (last_id left); left = some left.id }
linked_left it _ = record it { origin_left_id = none }

unfoldable pub repair_left : DocStore → Item → Option ItemId → Run (Item × DocStore)
repair_left self it none = done (it, self)
repair_left self it (some left_id) =
    split_at_and_get_left self left_id >>= λ (left, store). done (linked_left it left, store)

abbrev pub linked_right : Item → Node → Item
linked_right it (item right) = record it { origin_right_id = some right.id; right = some right.id }
linked_right it _ = record it { origin_right_id = none }

unfoldable pub repair_right : DocStore → Item → Option ItemId → Run (Item × DocStore)
repair_right self it none = done (it, self)
repair_right self it (some right_id) =
    split_at_and_get_right self right_id >>= λ (right, store). done (linked_right it right, store)

abbrev pub type_of : Content → Option Parent
type_of (ytype ty) = some (type_ref ty)
type_of _ = none

-- The parent that an item's content is.
abbrev pub parent_in : Option Node → Option Parent
parent_in (some (item parent_item)) = type_of parent_item.content
parent_in _ = none

abbrev pub item_by : DocStore → Option ItemId → Option Item
item_by self none = none
item_by self (some id) = get_item self id

-- The parent of the left item, or else of the right one.
abbrev pub borrowed : Item → Option Item → Option Item → Item
borrowed it (some left) right = record it { parent = left.parent; parent_sub = left.parent_sub }
borrowed it none (some right) = record it { parent = right.parent; parent_sub = right.parent_sub }
borrowed it none none = it

unfoldable pub repair_parent : DocStore → Item → Option Parent → Run (Item × DocStore)
repair_parent self it (some (name str)) =
    let (ty, store) = get_or_create_type self str in
    done (record it { parent = some (type_ref (some ty)) }, store)
repair_parent self it (some (item_id parent_id)) =
    get_node self parent_id >>= λ found. done (record it { parent = parent_in found }, self)
repair_parent self it none = done (borrowed it (item_by self it.left) (item_by self it.right), self)
repair_parent self it (some (type_ref ty)) = done (it, self)

-- The owner of the type is moved into `dangling_types`.
abbrev pub keep_type : Bool → DocStore → Item → Run (Item × DocStore)
keep_type true self it = done (it, record self { dangling_types = it.id ∷ self.dangling_types })
keep_type false self it = fail (raised invalid_parent)

abbrev pub repair_type : (Item → Bool) → DocStore → Item → Content → Run (Item × DocStore)
repair_type is_owned self it (ytype ty) = keep_type (is_owned it) self it
repair_type is_owned self it _ = done (it, self)

unfoldable pub repair : (Item → Bool) → DocStore → Item → Run (Item × DocStore)
unfolding repair_left repair_right repair_parent
repair is_owned self it = repair_left self it it.origin_left_id >>= λ (with_left, store).
    repair_right store with_left with_left.origin_right_id >>= λ (with_right, store').
    repair_parent store' with_right with_right.parent >>= λ (with_parent, store'').
    repair_type is_owned store'' with_parent with_parent.content
