-- ===== src/Doc/Store/Links/Types.antt =====
-- What the store knows of a shared type after a change.
use octo_base.Base.{ℕ, ◌≡◌, refl, sym, ap, true, some, List, [], ◌∷◌, Bool-cases, inl, inr}
use octo_base.Base.Assoc.{bytes_eq_refl}
use octo_base.Base.Result
use octo_base.Base.Result.{Result, ok, err}
use octo_base.Doc.Error.{JwstCodecResult}
use octo_base.Doc.Client.{ItemId, get, insert}
use octo_base.Doc.YType.{YType, TypeKey, TypeState, of_item, of_name, key_of, key_eq}
use octo_base.Doc.Item.{Item}
use octo_base.Doc.Node.{Node, item, client, node_id}
use octo_base.Doc.Store.{DocStore, add_node, push_node}
use octo_base.Doc.Store.Links.{set_item, find_type, put_type, type_state, set_type}
use octo_base.Doc.Store.Links.Heap.{id_eq_refl}

key_eq_refl : (key : TypeKey) → key_eq key key ≡ true
unfolding key_eq
key_eq_refl (of_item a) = id_eq_refl a
key_eq_refl (of_name a) = bytes_eq_refl a

find_type-put_type :
    (types : List (TypeKey × TypeState)) (key : TypeKey) (state : TypeState)
    → find_type (put_type types key state) key ≡ some state
unfolding find_type put_type
find_type-put_type [] key state = rw (key_eq_refl key) refl
find_type-put_type ((k, old) ∷ types) key state = elim (Bool-cases (key_eq k key)) [
  | inl here ↦ rw (here, key_eq_refl key) refl
  | inr other ↦ rw (other, other) (find_type-put_type types key state)
]

pub type_state-set_type :
    (self : DocStore) (ty : YType) (key : TypeKey) (state : TypeState)
    → key_of ty ≡ some key
    → type_state (set_type self ty state) ty ≡ state
unfolding type_state set_type
type_state-set_type self ty key state h = rw (h, find_type-put_type self.types key state) refl

add_node-types :
    (self self' : DocStore) (r : JwstCodecResult (List Node)) (c : ℕ)
    → Result.◌>>=◌ r (λ structs. ok (record self { items = insert self.items c structs }))
      ≡ ok self'
    → self'.types ≡ self.types
add_node-types self self' (err f) c e = cc
add_node-types self self' (ok structs) c e =
    let whole : record self { items = insert self.items c structs } ≡ self' = cc in
    sym (ap (λ (s : DocStore). s.types) whole)

pub type_state-add_node :
    (self self' : DocStore) (this : Item) (ty : YType)
    → add_node self (item this) ≡ ok self'
    → type_state self' ty ≡ type_state self ty
unfolding type_state add_node client node_id
type_state-add_node self self' this ty e =
    let types =
      add_node-types self self' (push_node (get self.items this.id.client) (item this))
        this.id.client e in
    rw types refl

pub type_state-set_item :
    (self : DocStore) (id : ItemId) (f : Item → Item) (ty : YType)
    → type_state (set_item self id f) ty ≡ type_state self ty
unfolding type_state set_item
type_state-set_item self id f ty = refl
