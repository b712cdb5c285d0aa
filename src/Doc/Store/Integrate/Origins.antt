-- ===== src/Doc/Store/Integrate/Origins.antt =====
-- The origins of the items of a store into which an item is integrated.
use octo_base.Base.{
  ℕ, ◌+◌, ◌%◌, ◌^◌, ◌≡◌, refl, sym, ap, ◌∙◌, Bool, true, false, Option, none, some, if◌then◌else◌,
}
use octo_base.Base.Result.{ok}
use octo_base.Doc.Client.{ItemId, id_eq, or_else}
use octo_base.Doc.OrderRange.{BinarySearch}
use octo_base.Doc.YType.{YType, TypeKey, TypeState, key_of}
use octo_base.Doc.Item.{Item, item_len}
use octo_base.Doc.Node.{item}
use octo_base.Doc.Store.{DocStore, add_node}
use octo_base.Doc.Store.Links.{done, ◌>>=◌, get_item, set_item, type_state, set_type}
use octo_base.Doc.Store.Links.Heap.{mapped, get_item-set_item, get_item-add_node}
use octo_base.Doc.Store.Links.Row.{follow, link_of}
use octo_base.Doc.Store.Repair.{item_by}
use octo_base.Doc.Store.Integrate.{
  find_left, connect_left, connect_right, link_right, integrate_into,
}
use octo_base.Doc.Store.Integrate.Steps.{
  run-bind, rest_of, add_settled, placed_at, settle-root, connect_left-front,
}
use octo_base.Doc.Store.Integrate.Keys.{get_item-set_type}
use octo_base.Doc.Store.Integrate.Orders.{origins, origins_of}

origins-set_item :
    (self : DocStore) (id j : ItemId) (f : Item → Item)
    → ((i : Item) → (f i).id ≡ i.id)
    → ((i : Item) → origins_of (some (f i)) ≡ origins_of (some i))
    → origins (set_item self id f) j ≡ origins self j
unfolding origins
origins-set_item self id j f keeps same =
    ap origins_of (get_item-set_item self id j f keeps) ∙ by_id (id_eq id j) (get_item self j)
  where
    by_id : (b : Bool) (o : Option Item) → origins_of (if b then mapped f o else o) ≡ origins_of o
    by_id true none = refl
    by_id true (some i) = same i
    by_id false o = refl

origins-set_type :
    (self : DocStore) (ty : YType) (state : TypeState) (j : ItemId)
    → origins (set_type self ty state) j ≡ origins self j
unfolding origins
origins-set_type self ty state j = ap origins_of (get_item-set_type self ty state j)

origins-add_node :
    (self self' : DocStore) (this : Item) (j : ItemId)
    → add_node self (item this) ≡ ok self'
    → origins self' j
      ≡ or_else
          (origins self j)
          (if id_eq this.id j then some (this.origin_left_id, this.origin_right_id) else none)
unfolding origins
origins-add_node self self' this j e =
    ap origins_of (get_item-add_node self self' this j e)
    ∙ by_item (get_item self j) (id_eq this.id j)
  where
    by_item :
        (o : Option Item) (b : Bool)
        → origins_of (or_else o (if b then some this else none))
          ≡ or_else
              (origins_of o)
              (if b then some (this.origin_left_id, this.origin_right_id) else none)
    by_item none true = refl
    by_item none false = refl
    by_item (some i) b = refl

pub follow-origins :
    (self : DocStore) (id : ItemId) → origins self id ≡ none → follow self id ≡ none
unfolding follow origins
follow-origins self id h = by_item (get_item self id) h
  where
    by_item : (o : Option Item) → origins_of o ≡ none → link_of o ≡ none
    by_item none e = refl
    by_item (some i) e = cc

module _ ⦃b : BinarySearch⦄ (fuel : ℕ) (ty : YType) (key : TypeKey)
    (named : key_of ty ≡ some key) where
  origins-connect_left :
      (self store : DocStore) (this : Item) (left right : Option ItemId) (j : ItemId)
      → this.parent_sub ≡ none
      → connect_left fuel self ty (type_state self ty) this left ≡ done (right, store)
      → origins store j ≡ origins self j
  unfolding connect_left
  origins-connect_left self store this none right j sub e =
      let parent = type_state self ty in
      let front : done (parent.start, set_type self ty (record parent { start = some this.id }))
          ≡ done (right, store) =
        sym (connect_left-front fuel ty key named self this sub) ∙ e in
      let same : set_type self ty (record parent { start = some this.id }) ≡ store = cc in
      ap (λ (s : DocStore). origins s j) (sym same) ∙ origins-set_type self ty _ j
  origins-connect_left self store this (some l) right j sub e =
      let same : set_item self l (λ i. record i { right = some this.id }) ≡ store = cc in
      ap (λ (s : DocStore). origins s j) (sym same)
      ∙ origins-set_item self l j _ (λ i. refl) (λ i. refl)

  origins-connect_right :
      (self store : DocStore) (this : Item) (left right : Option ItemId) (j : ItemId)
      → this.parent_sub ≡ none
      → connect_right fuel self ty this left right ≡ done store
      → origins store j ≡ origins self j
  unfolding connect_right
  origins-connect_right self store this left right j sub e = by_right (item_by self right) e
    where
      by_right :
          (o : Option Item)
          → link_right fuel self ty this left o ≡ done store
          → origins store j ≡ origins self j
      by_right none e' =
          let kept : done self ≡ done store = rw sub at e' in
          let same : self ≡ store = cc in ap (λ (s : DocStore). origins s j) (sym same)
      by_right (some r) e' =
          let same : set_item self r.id (λ i. record i { left = some this.id }) ≡ store = cc in
          ap (λ (s : DocStore). origins s j) (sym same)
          ∙ origins-set_item self r.id j _ (λ i. refl) (λ i. refl)

  pub origins-integrate_into :
      (self self' : DocStore) (this : Item) (left : Option ItemId) (j : ItemId)
      → ty.item ≡ none
      → this.parent_sub ≡ none
      → find_left fuel self (type_state self ty) this ≡ done left
      → integrate_into fuel self this ty ≡ done self'
      → origins self' j
        ≡ or_else
            (origins self j)
            (if id_eq this.id j then some (this.origin_left_id, this.origin_right_id) else none)
  origins-integrate_into self self' this left j root sub found e =
      let ((right, store), connected, rest) =
        run-bind (connect_left fuel self ty (type_state self ty) this left)
          (rest_of fuel ty key named this left) self'
          (placed_at fuel ty key named self self' this left found e) in
      let (store', connected', rest') =
        run-bind (connect_right fuel store ty this left right) _ self' rest in
      let placed = record this { left = left; right = right } in
      let parent = type_state store' ty in
      let counted = record parent { len = (parent.len + item_len placed) % 2 ^ 64 } in
      let whole : some (add_node (set_type store' ty counted) (item placed)) ≡ some (ok self') =
        ap (λ r. r >>= add_settled) (sym (settle-root fuel ty key named store' placed root sub))
        ∙ rest' in
      let added : add_node (set_type store' ty counted) (item placed) ≡ ok self' = cc in
      origins-add_node _ self' placed j added
      ∙ ap
          (λ o.
            or_else o
              (if id_eq this.id j then some (this.origin_left_id, this.origin_right_id) else none))
          (origins-set_type store' ty counted j
            ∙ origins-connect_right store store' this left right j sub connected'
            ∙ origins-connect_left self store this left right j sub connected)
