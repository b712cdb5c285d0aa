-- ===== src/Doc/Store/Integrate/Agree.antt =====
-- Two stores into which items are integrated at the start of a shared type, in either order.
use octo_base.Base.{ℕ, ◌<◌, ◌≡◌, refl, ap, ◌∙◌, Option, none, some, List, [], length}
use octo_base.Doc.Error.{JwstCodecResult}
use octo_base.Doc.Client.{ItemId}
use octo_base.Doc.OrderRange.{BinarySearch}
use octo_base.Doc.YType.{YType, TypeKey, key_of}
use octo_base.Doc.Item.{Item}
use octo_base.Doc.Store.{DocStore}
use octo_base.Doc.Store.Links.{done, ◌>>=◌, type_state}
use octo_base.Doc.Store.Links.Row.{follow, IsLinked, AreApart}
use octo_base.Doc.Store.Repair.{item_by}
use octo_base.Doc.Store.Integrate.{
  find_left, done_if, connect_left, connect_right, take_key, link_right, settle, integrate_into,
}
use octo_base.Doc.Store.Integrate.Steps.{rest_of, add_settled, settle-root, connect_left-front}
use octo_base.Doc.Store.Integrate.Keys.{found_by}
use octo_base.Doc.Store.Integrate.Orders.{AreFirst, left_before, conflict_loop-first}

-- The ids are those that the right links of the type lead through, each once, of items without origins.
abbrev pub Shows : YType → DocStore → List ItemId → Type 0
Shows ty self ids =
    IsLinked (follow self) (type_state self ty).start ids × AreApart ids × AreFirst self ids

-- An item that is put at the start, without a key.
abbrev pub IsPut : Item → Type 0
IsPut this =
    (this.parent_sub ≡ none)
    × (this.left ≡ none)
    × (this.right ≡ none)
    × (this.origin_left_id ≡ none)
    × (this.origin_right_id ≡ none)

module _ ⦃b : BinarySearch⦄ (fuel : ℕ) (ty : YType) (key : TypeKey)
    (named : key_of ty ≡ some key) where
  find_left-first :
      (self : DocStore) (this : Item) (ids : List ItemId)
      → IsPut this
      → length ids < fuel
      → Shows ty self ids
      → find_left fuel self (type_state self ty) this ≡ done (left_before none this.id ids)
  unfolding find_left
  find_left-first self this ids (sub, no_left, no_right, left, right) enough
        (linked, apart, first) =
      let parent = type_state self ty in
      ap (λ l. found_by fuel self parent this l this.right this.parent_sub) no_left
      ∙ ap (λ r. found_by fuel self parent this none r this.parent_sub) no_right
      ∙ ap (found_by fuel self parent this none none) sub
      ∙ ap done_if (
          conflict_loop-first self this left right fuel ids parent.start none [] [] enough linked
            first)

  connect_left-returns :
      (self : DocStore) (this : Item) (left : Option ItemId)
      → this.parent_sub ≡ none
      → (p : Option ItemId × DocStore) × (connect_left fuel self ty (type_state self ty) this left
          ≡ done p)
  unfolding connect_left
  connect_left-returns self this none sub = (_, connect_left-front fuel ty key named self this sub)
  connect_left-returns self this (some l) sub = (_, refl)

  connect_right-returns :
      (self : DocStore) (this : Item) (left right : Option ItemId)
      → this.parent_sub ≡ none
      → (store : DocStore) × (connect_right fuel self ty this left right ≡ done store)
  unfolding connect_right
  connect_right-returns self this left right sub = by_right (item_by self right)
    where
      by_right :
          (o : Option Item)
          → (store : DocStore) × (link_right fuel self ty this left o ≡ done store)
      by_right none = (self, ap (λ o. take_key fuel self ty this.id o left) sub)
      by_right (some r) = (_, refl)

  -- Where a store shows items without origins at a shared type that it knows by a name, the integration of
  -- an item that is put at the start, without a key, comes to a result, on fuel of one more than the items.
  pub integrate_into-Returns :
      (self : DocStore) (this : Item) (ids : List ItemId)
      → ty.item ≡ none
      → IsPut this
      → length ids < fuel
      → Shows ty self ids
      → (r : JwstCodecResult DocStore) × (integrate_into fuel self this ty ≡ some r)
  unfolding integrate_into
  integrate_into-Returns self this ids root put enough shows =
      let left = left_before none this.id ids in
      let found = find_left-first self this ids put enough shows in
      let ((right, store), connected) = connect_left-returns self this left put.0 in
      let (store', connected') = connect_right-returns store this left right put.0 in
      let placed = record this { left = left; right = right } in
      (
        _,
        ap
              (λ r. r >>= λ left'.
                connect_left fuel self ty (type_state self ty) this left'
                >>= rest_of fuel ty key named this left')
              found
            ∙ ap (λ r. r >>= rest_of fuel ty key named this left) connected
            ∙ ap (λ r. r >>= λ s. settle fuel s ty placed >>= add_settled) connected'
            ∙ ap (λ r. r >>= add_settled) (settle-root fuel ty key named store' placed root put.0),
      )
