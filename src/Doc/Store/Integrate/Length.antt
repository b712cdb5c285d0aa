-- ===== src/Doc/Store/Integrate/Length.antt =====
-- The length of a shared type when an item is integrated.
use octo_base.Base.{ℕ, ◌+◌, ◌%◌, ◌^◌, ◌≡◌, sym, ap, ◌∙◌, Option, none, some}
use octo_base.Base.Result.{ok}
use octo_base.Doc.Client.{ItemId}
use octo_base.Doc.OrderRange.{BinarySearch}
use octo_base.Doc.YType.{YType, TypeKey, TypeState, key_of}
use octo_base.Doc.Item.{Item, item_len}
use octo_base.Doc.Node.{item}
use octo_base.Doc.Store.{DocStore, add_node}
use octo_base.Doc.Store.Links.{done, ◌>>=◌, set_item, type_state, set_type}
use octo_base.Doc.Store.Links.Types.{type_state-set_type, type_state-add_node, type_state-set_item}
use octo_base.Doc.Store.Integrate.{find_left, connect_left, connect_right, integrate_into}
use octo_base.Doc.Store.Integrate.Steps.{
  run-bind, rest_of, add_settled, placed_at, follow-connect_right, settle-root, connect_left-front,
}

module _ ⦃b : BinarySearch⦄ (fuel : ℕ) (ty : YType) (key : TypeKey)
    (named : key_of ty ≡ some key) where
  len-connect_left :
      (self store : DocStore) (this : Item) (left right : Option ItemId)
      → this.parent_sub ≡ none
      → connect_left fuel self ty (type_state self ty) this left ≡ done (right, store)
      → (type_state store ty).len ≡ (type_state self ty).len
  unfolding connect_left
  len-connect_left self store this none right sub e =
      let parent = type_state self ty in
      let front : done (parent.start, set_type self ty (record parent { start = some this.id }))
          ≡ done (right, store) =
        sym (connect_left-front fuel ty key named self this sub) ∙ e in
      let same : set_type self ty (record parent { start = some this.id }) ≡ store = cc in
      ap (λ (s : DocStore). (type_state s ty).len) (sym same)
      ∙ ap (λ (s : TypeState). s.len)
          (type_state-set_type self ty key (record parent { start = some this.id }) named)
  len-connect_left self store this (some l) right sub e =
      let same : set_item self l (λ i. record i { right = some this.id }) ≡ store = cc in
      ap (λ (s : DocStore). (type_state s ty).len) (sym same)
      ∙ ap (λ (s : TypeState). s.len)
          (type_state-set_item self l (λ i. record i { right = some this.id }) ty)

  len-rest_of :
      (self self' : DocStore) (this : Item) (left right : Option ItemId)
      → ty.item ≡ none
      → this.parent_sub ≡ none
      → rest_of fuel ty key named this left (right, self) ≡ done self'
      → (type_state self' ty).len ≡ ((type_state self ty).len + item_len this) % 2 ^ 64
  unfolding item_len
  len-rest_of self self' this left right root sub e =
      let (store, connected, rest) =
        run-bind (connect_right fuel self ty this left right) _ self' e in
      let types =
        (follow-connect_right fuel ty key named self store this left right sub connected).1 in
      let placed = record this { left = left; right = right } in
      let parent = type_state store ty in
      let counted = record parent { len = (parent.len + item_len placed) % 2 ^ 64 } in
      let whole : some (add_node (set_type store ty counted) (item placed)) ≡ some (ok self') =
        ap (λ r. r >>= add_settled) (sym (settle-root fuel ty key named store placed root sub))
        ∙ rest in
      let added : add_node (set_type store ty counted) (item placed) ≡ ok self' = cc in
      ap (λ (s : TypeState). s.len)
        (type_state-add_node _ self' placed ty added
          ∙ type_state-set_type store ty key counted named)
      ∙ ap (λ (s : TypeState). (s.len + item_len this) % 2 ^ 64) types

  -- Where an item without a key is integrated into a shared type that the store knows by a name, its left
  -- neighbour is found, and the integration ends, the length of the type grows by the clocks of the item,
  -- modulo 2 ^ 64, whether the item is countable and whether it is deleted.
  pub integrate_into_counts_all :
      (self self' : DocStore) (this : Item) (left : Option ItemId)
      → ty.item ≡ none
      → this.parent_sub ≡ none
      → find_left fuel self (type_state self ty) this ≡ done left
      → integrate_into fuel self this ty ≡ done self'
      → (type_state self' ty).len ≡ ((type_state self ty).len + item_len this) % 2 ^ 64
  integrate_into_counts_all self self' this left root sub found e =
      let ((right, store), connected, rest) =
        run-bind (connect_left fuel self ty (type_state self ty) this left)
          (rest_of fuel ty key named this left) self'
          (placed_at fuel ty key named self self' this left found e) in
      len-rest_of store self' this left right root sub rest
      ∙ ap (λ n. (n + item_len this) % 2 ^ 64)
          (len-connect_left self store this left right sub connected)
