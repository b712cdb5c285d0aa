-- ===== src/Doc/Store/Links.antt =====
-- The items of a store and its shared types as what ids and keys point to.
pub mod Heap
pub mod Row
pub mod Types
use octo_base.Base.{
  ℕ, ◌+◌, ◌%◌, ◌^◌, Bool, true, false, Option, none, some, List, [], ◌∷◌, if◌then◌else◌,
}
use octo_base.Base.Assoc.{bytes_eq}
use octo_base.Base.Result.{ok, err}
use octo_base.Crates.{Bytes}
use octo_base.Doc.Error.{JwstCodecResult, Fault}
use octo_base.Doc.Client.{ItemId, ClientMap, id_eq, get, insert}
use octo_base.Doc.YType.{
  YType, YTypeKind, TypeKey, TypeState, YType_new, unknown, new_state, key_of, key_eq, of_name,
}
use octo_base.Doc.Item.{Item}
use octo_base.Doc.Node.{Node, gc, skip, item}
use octo_base.Doc.Store.{DocStore}

-- A call that may fail, where a loop on fuel may run out of it.
abbrev pub Run {ℓ} : Type ℓ → Type ℓ
Run A = Option (JwstCodecResult A)

abbrev pub done {ℓ} : {A : Type ℓ} → A → Run A
done a = some (ok a)

abbrev pub fail {ℓ} : {A : Type ℓ} → Fault → Run A
fail e = some (err e)

infixl 5 ◌>>=◌
abbrev pub ◌>>=◌ {ℓ κ} : {A : Type ℓ} {B : Type κ} → Run A → (A → Run B) → Run B
none >>= f = none
some (err e) >>= f = some (err e)
some (ok a) >>= f = f a

-- The item of an id among a client's nodes.
unfoldable pub item_in : List Node → ItemId → Option Item
item_in [] id = none
item_in (item i ∷ nodes) id = if id_eq i.id id then some i else item_in nodes id
item_in (gc n ∷ nodes) id = item_in nodes id
item_in (skip n ∷ nodes) id = item_in nodes id

abbrev pub item_of : Option (List Node) → ItemId → Option Item
item_of none id = none
item_of (some nodes) id = item_in nodes id

-- `Somr::get` on a reference to an item.
unfoldable pub get_item : DocStore → ItemId → Option Item
get_item self id = item_of (get self.items id.client) id

unfoldable pub set_in : List Node → ItemId → (Item → Item) → List Node
set_in [] id f = []
set_in (item i ∷ nodes) id f =
    if id_eq i.id id then item (f i) ∷ nodes else item i ∷ set_in nodes id f
set_in (gc n ∷ nodes) id f = gc n ∷ set_in nodes id f
set_in (skip n ∷ nodes) id f = skip n ∷ set_in nodes id f

abbrev pub set_of :
    ClientMap (List Node) → ItemId → (Item → Item) → Option (List Node) → ClientMap (List Node)
set_of items id f none = items
set_of items id f (some nodes) = insert items id.client (set_in nodes id f)

-- A change through `get_mut_unchecked`.
unfoldable pub set_item : DocStore → ItemId → (Item → Item) → DocStore
set_item self id f = record self { items = set_of self.items id f (get self.items id.client) }

unfoldable pub find_type : List (TypeKey × TypeState) → TypeKey → Option TypeState
find_type [] key = none
find_type ((k, state) ∷ types) key = if key_eq k key then some state else find_type types key

unfoldable pub put_type :
    List (TypeKey × TypeState) → TypeKey → TypeState → List (TypeKey × TypeState)
put_type [] key state = (key, state) ∷ []
put_type ((k, old) ∷ types) key state =
    if key_eq k key then (key, state) ∷ types else (k, old) ∷ put_type types key state

abbrev pub or_new : YType → Option TypeState → TypeState
or_new ty none = new_state ty
or_new ty (some state) = state

abbrev pub state_by : DocStore → YType → Option TypeKey → TypeState
state_by self ty none = new_state ty
state_by self ty (some key) = or_new ty (find_type self.types key)

-- `ty()` on a reference: a type that nothing was put into yet is empty.
unfoldable pub type_state : DocStore → YType → TypeState
unfolding find_type key_of
type_state self ty = state_by self ty (key_of ty)

abbrev pub put_by : DocStore → Option TypeKey → TypeState → DocStore
put_by self none state = self
put_by self (some key) state = record self { types = put_type self.types key state }

-- A change through `ty_mut()`.
unfoldable pub set_type : DocStore → YType → TypeState → DocStore
unfolding put_type key_of
set_type self ty state = put_by self (key_of ty) state

abbrev pub named_type : Bytes → YType
named_type name = record (YType_new unknown none) { root_name = some name }

abbrev pub created : DocStore → Bytes → Option TypeState → YType × DocStore
created self name (some state) = (state.ty, self)
created self name none = (
  named_type name,
  record self { types = put_type self.types (of_name name) (new_state (named_type name)) },
)

unfoldable pub get_or_create_type : DocStore → Bytes → YType × DocStore
unfolding find_type put_type
get_or_create_type self name = created self name (find_type self.types (of_name name))
