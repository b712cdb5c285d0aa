-- ===== src/Doc/Store/Integrate/Steps.antt =====
-- The steps of an integration, and what each leaves of the links and the types.
use octo_base.Base.{
  ℕ, ◌+◌, ◌%◌, ◌^◌, ◌≡◌, refl, sym, ap, ◌∙◌, false, Option, none, some, List, [], ◌∷◌,
  if◌then◌else◌, inl, inr,
}
use octo_base.Base.Result.{ok, err}
use octo_base.Doc.Client.{ItemId, id_eq, or_else}
use octo_base.Doc.OrderRange.{BinarySearch}
use octo_base.Doc.YType.{YType, TypeKey, TypeState, key_of}
use octo_base.Doc.Item.{Item, is_some, item_len}
use octo_base.Doc.Node.{item}
use octo_base.Doc.Store.{DocStore, add_node}
use octo_base.Doc.Store.Links.{Run, done, ◌>>=◌, get_item, set_item, type_state, set_type}
use octo_base.Doc.Store.Links.Types.{type_state-set_type, type_state-add_node, type_state-set_item}
use octo_base.Doc.Store.Links.Heap.{id_eq-path}
use octo_base.Doc.Store.Links.Row.{
  follow, IsLinked, Among, follow-set_left, follow-set_type, follow-add_node, link_of,
}
use octo_base.Doc.Store.Delete.{right_of}
use octo_base.Doc.Store.Repair.{item_by}
use octo_base.Doc.Store.Integrate.{
  is_deleted_item, link_right, find_left, connect_left, connect_right, settle, integrate_into,
}

pub run-bind :
    {A B : Type 0} (r : Run A) (f : A → Run B) (v : B)
    → r >>= f ≡ done v
    → (a : A) × (r ≡ done a) × (f a ≡ done v)
run-bind none f v e = cc
run-bind (some (err x)) f v e = cc
run-bind (some (ok a)) f v e = (a, refl, e)

-- The right link of an item that is among a row's.
pub follow-Among :
    (next : ItemId → Option (Option ItemId)) (from : Option ItemId) (ids : List ItemId) (l : ItemId)
    → IsLinked next from ids
    → Among ids l
    → (r : Option ItemId) × (next l ≡ some r)
follow-Among next from [] l linked among = elim among [ ]
follow-Among next from (i ∷ ids) l (e, (r, n, linked)) (inl here) =
    (r, ap next (sym (id_eq-path i l here)) ∙ n)
follow-Among next from (i ∷ ids) l (e, (r, n, linked)) (inr later) =
    follow-Among next r ids l linked later

pub right_of-follow :
    (self : DocStore) (l : ItemId) (r : Option ItemId)
    → follow self l ≡ some r
    → right_of (get_item self l) ≡ r
unfolding follow
right_of-follow self l r e = by_item (get_item self l) e
  where
    by_item : (o : Option Item) → link_of o ≡ some r → right_of o ≡ r
    by_item none e' = cc
    by_item (some i) e' = cc

pub or_none : {A : Type 0} (o : Option A) → or_else o none ≡ o
or_none none = refl
or_none (some a) = refl

abbrev pub add_settled : Item × DocStore → Run DocStore
add_settled (settled, store) = some (add_node store (item settled))

module _ ⦃b : BinarySearch⦄ (fuel : ℕ) (ty : YType) (key : TypeKey)
    (named : key_of ty ≡ some key) where
  -- An item without a key leaves the right links and the types as they are.
  pub follow-connect_right :
      (self self' : DocStore) (this : Item) (left right : Option ItemId)
      → this.parent_sub ≡ none
      → connect_right fuel self ty this left right ≡ done self'
      → ((j : ItemId) → follow self' j ≡ follow self j) × (type_state self' ty ≡ type_state self ty)
  unfolding connect_right
  follow-connect_right self self' this left right sub e = by_right (item_by self right) e
    where
      by_right :
          (o : Option Item)
          → link_right fuel self ty this left o ≡ done self'
          → ((j : ItemId) → follow self' j ≡ follow self j)
            × (type_state self' ty ≡ type_state self ty)
      by_right none e' =
          let kept : done self ≡ done self' = rw sub at e' in
          let same : self ≡ self' = cc in rw (sym same) ((λ j. refl), refl)
      by_right (some r) e' =
          let same : set_item self r.id (λ i. record i { left = some this.id }) ≡ self' = cc in
          rw (sym same) (
            (λ j. follow-set_left self r.id j (some this.id)),
            type_state-set_item self r.id (λ i. record i { left = some this.id }) ty,
          )

  follow-settled :
      (self self' : DocStore) (this : Item) (n : ℕ) (j : ItemId)
      → add_node (set_type self ty (record (type_state self ty) { len = n })) (item this) ≡ ok self'
      → follow self' j ≡ or_else (follow self j) (if id_eq this.id j then some this.right else none)
  follow-settled self self' this n j e =
      follow-add_node _ self' this j e
      ∙ ap (λ o. or_else o (if id_eq this.id j then some this.right else none))
          (follow-set_type self ty _ j)

  start-settled :
      (self self' : DocStore) (this : Item) (n : ℕ)
      → add_node (set_type self ty (record (type_state self ty) { len = n })) (item this) ≡ ok self'
      → (type_state self' ty).start ≡ (type_state self ty).start
  start-settled self self' this n e =
      ap (λ (s : TypeState). s.start)
        (type_state-add_node _ self' this ty e
          ∙ type_state-set_type self ty key (record (type_state self ty) { len = n }) named)

  pub settle-root :
      (self : DocStore) (this : Item)
      → ty.item ≡ none
      → this.parent_sub ≡ none
      → settle fuel self ty this
        ≡ done (
          this,
          set_type self ty (record (type_state self ty) {
            len = ((type_state self ty).len + item_len this) % 2 ^ 64;
          }),
        )
  unfolding settle
  settle-root self this root sub =
      let live : is_deleted_item (item_by self ty.item) ≡ false =
        ap (λ o. is_deleted_item (item_by self o)) root in
      let keyless : is_some this.parent_sub ≡ false = ap is_some sub in rw (live, keyless) refl

  -- What follows once the left neighbour is connected.
  pub finished :
      (self self' : DocStore) (this : Item) (left right : Option ItemId)
      → ty.item ≡ none
      → this.parent_sub ≡ none
      → (connect_right fuel self ty this left right >>= λ store'.
          settle fuel store' ty (record this { left = left; right = right }) >>= add_settled)
        ≡ done self'
      → ((j : ItemId)
          → follow self' j ≡ or_else (follow self j) (if id_eq this.id j then some right else none))
        × ((type_state self' ty).start ≡ (type_state self ty).start)
  finished self self' this left right root sub e =
      let (store, connected, rest) =
        run-bind (connect_right fuel self ty this left right) _ self' e in
      let (follows, types) = follow-connect_right self store this left right sub connected in
      let placed = record this { left = left; right = right } in
      let parent = type_state store ty in
      let counted =
        set_type store ty (record parent { len = (parent.len + item_len placed) % 2 ^ 64 }) in
      let whole : some (add_node counted (item placed)) ≡ some (ok self') =
        ap (λ r. r >>= add_settled) (sym (settle-root store placed root sub)) ∙ rest in
      let added : add_node counted (item placed) ≡ ok self' = cc in
      (
        (λ j.
            follow-settled store self' placed _ j added
            ∙ ap (λ o. or_else o (if id_eq this.id j then some right else none)) (follows j)),
        start-settled store self' placed _ added ∙ ap (λ (s : TypeState). s.start) types,
      )

  -- What follows the connection to the left neighbour.
  abbrev pub rest_of : Item → Option ItemId → Option ItemId × DocStore → Run DocStore
  rest_of this left (right, store) = connect_right fuel store ty this left right >>= λ store'.
      settle fuel store' ty (record this { left = left; right = right }) >>= add_settled

  pub connect_left-front :
      (self : DocStore) (this : Item)
      → this.parent_sub ≡ none
      → connect_left fuel self ty (type_state self ty) this none
        ≡ done (
          (type_state self ty).start,
          set_type self ty (record (type_state self ty) { start = some this.id }),
        )
  unfolding connect_left
  connect_left-front self this sub = rw sub refl

  pub placed_at :
      (self self' : DocStore) (this : Item) (left : Option ItemId)
      → find_left fuel self (type_state self ty) this ≡ done left
      → integrate_into fuel self this ty ≡ done self'
      → connect_left fuel self ty (type_state self ty) this left >>= rest_of this left ≡ done self'
  unfolding integrate_into
  placed_at self self' this left found e =
      ap
        (λ r. r >>= λ left'.
          connect_left fuel self ty (type_state self ty) this left' >>= rest_of this left')
        (sym found)
      ∙ e
