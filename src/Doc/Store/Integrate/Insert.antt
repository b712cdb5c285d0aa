-- ===== src/Doc/Store/Integrate/Insert.antt =====
-- The place of an integrated item in the row of its parent.
use octo_base.Base.{ℕ, ◌≡◌, refl, sym, ap, ◌∙◌, Option, none, some, List, ◌∷◌, Bool-cases, inl, inr}
use octo_base.Doc.Client.{ItemId, id_eq}
use octo_base.Doc.OrderRange.{BinarySearch}
use octo_base.Doc.YType.{YType, TypeKey, TypeState, key_of}
use octo_base.Doc.Item.{Item}
use octo_base.Doc.Store.{DocStore}
use octo_base.Doc.Store.Links.{done, ◌>>=◌, set_item, type_state, set_type}
use octo_base.Doc.Store.Links.Types.{type_state-set_type, type_state-set_item}
use octo_base.Doc.Store.Links.Heap.{id_eq_refl}
use octo_base.Doc.Store.Links.Row.{
  follow, IsLinked, Among, Beside, AreApart, insert_after, insert_behind, IsLinked-kept,
  IsLinked-insert, follow-set_right, follow-set_type,
}
use octo_base.Doc.Store.Integrate.{find_left, connect_left, connect_right, settle, integrate_into}
use octo_base.Doc.Store.Integrate.Steps.{
  follow-Among, right_of-follow, or_none, add_settled, finished, rest_of, connect_left-front,
  placed_at,
}

-- The left neighbour is one of the row, if there is one.
abbrev pub IsIn : Option ItemId → List ItemId → Type 0
IsIn none ids = Unit {0}
IsIn (some l) ids = Among ids l

module _ ⦃b : BinarySearch⦄ (fuel : ℕ) (ty : YType) (key : TypeKey)
    (named : key_of ty ≡ some key) where
  -- An item without a key goes to the front.
  first_placed :
      (self self' : DocStore) (this : Item) (ids : List ItemId)
      → ty.item ≡ none
      → this.parent_sub ≡ none
      → IsLinked (follow self) (type_state self ty).start ids
      → Beside ids this.id
      → follow self this.id ≡ none
      → connect_left fuel self ty (type_state self ty) this none
          >>= rest_of fuel ty key named this none
        ≡ done self'
      → IsLinked (follow self') (type_state self' ty).start (this.id ∷ ids)
  first_placed self self' this ids root sub linked beside new e =
      let parent = type_state self ty in
      let store = set_type self ty (record parent { start = some this.id }) in
      let kept = follow-set_type self ty (record parent { start = some this.id }) in
      let entered : (connect_right fuel store ty this none parent.start >>= λ store'.
      settle fuel store' ty (record this { left = none; right = parent.start }) >>= add_settled)
          ≡ done self' =
        ap (λ r. r >>= rest_of fuel ty key named this none)
          (sym (connect_left-front fuel ty key named self this sub))
        ∙ e in
      let (follows, started) =
        finished fuel ty key named store self' this none parent.start root sub entered in
      let behind : follow self' this.id ≡ some parent.start =
        rw (follows this.id, kept this.id, new, id_eq_refl this.id) refl in
      let front : (type_state self' ty).start ≡ some this.id =
        started
        ∙ ap (λ (s : TypeState). s.start)
            (type_state-set_type self ty key (record parent { start = some this.id }) named) in
      (
        front,
        (
          parent.start,
          behind,
          IsLinked-kept (follow self) (follow self') this.id this.id ids parent.start
              (λ j nx nl. rw (follows j, kept j, nx) (or_none (follow self j))) beside beside
              linked,
        ),
      )

  -- An item without a key goes behind its left neighbour.
  later_placed :
      (self self' : DocStore) (this : Item) (l : ItemId) (ids : List ItemId)
      → ty.item ≡ none
      → this.parent_sub ≡ none
      → IsLinked (follow self) (type_state self ty).start ids
      → AreApart ids
      → Among ids l
      → Beside ids this.id
      → follow self this.id ≡ none
      → connect_left fuel self ty (type_state self ty) this (some l)
          >>= rest_of fuel ty key named this (some l)
        ≡ done self'
      → IsLinked (follow self') (type_state self' ty).start (insert_behind l this.id ids)
  unfolding connect_left
  later_placed self self' this l ids root sub linked apart among beside new e =
      let store = set_item self l (λ i. record i { right = some this.id }) in
      let (old, was) = follow-Among (follow self) _ ids l linked among in
      let next = right_of-follow self l old was in
      let entered : (connect_right fuel store ty this (some l) old >>= λ store'.
      settle fuel store' ty (record this { left = some l; right = old }) >>= add_settled)
          ≡ done self' =
        ap (λ r. rest_of fuel ty key named this (some l) (r, store)) (sym next) ∙ e in
      let (follows, started) =
        finished fuel ty key named store self' this (some l) old root sub entered in
      let links = λ (j : ItemId). follow-set_right self l j (some this.id) in
      let front : (type_state self' ty).start ≡ (type_state self ty).start =
        started
        ∙ ap (λ (s : TypeState). s.start)
            (type_state-set_item self l (λ i. record i { right = some this.id }) ty) in
      rw front (
        IsLinked-insert (follow self) (follow self') this.id l old ids (type_state self ty).start
          (λ j nx nl. rw (follows j, links j, nx, nl) (or_none (follow self j))) was
          (rw (follows l, links l, id_eq_refl l, was) refl)
          (elim (Bool-cases (id_eq l this.id)) [
            | inl here ↦ rw (follows this.id, links this.id, here, new, id_eq_refl this.id) refl
            | inr other ↦ rw (follows this.id, links this.id, other, new, id_eq_refl this.id) refl
          ])
          among beside apart linked)

  -- Where a shared type is one that the store knows by a name, its right links lead through items none of
  -- which stands twice, an item without a key that is not in the store yet is put behind one of them or in
  -- front, and the integration ends, the right links lead through those items with the new one behind that
  -- item, or in front.
  pub integrate_into-insert_after :
      (self self' : DocStore) (this : Item) (left : Option ItemId) (ids : List ItemId)
      → ty.item ≡ none
      → this.parent_sub ≡ none
      → IsLinked (follow self) (type_state self ty).start ids
      → AreApart ids
      → Beside ids this.id
      → follow self this.id ≡ none
      → find_left fuel self (type_state self ty) this ≡ done left
      → IsIn left ids
      → integrate_into fuel self this ty ≡ done self'
      → IsLinked (follow self') (type_state self' ty).start (insert_after left this.id ids)
  integrate_into-insert_after self self' this none ids root sub linked apart beside new found in_row
        e =
      first_placed self self' this ids root sub linked beside new
        (placed_at fuel ty key named self self' this none found e)
  integrate_into-insert_after self self' this (some l) ids root sub linked apart beside new found
        in_row e =
      later_placed self self' this l ids root sub linked apart in_row beside new
        (placed_at fuel ty key named self self' this (some l) found e)
