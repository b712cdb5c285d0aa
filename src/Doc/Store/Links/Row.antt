-- ===== src/Doc/Store/Links/Row.antt =====
-- Rows of items that right links make, by their ids.
use octo_base.Base.{
  ◌≡◌, ◌⊎◌, refl, sym, ap, ◌∙◌, Bool, true, false, Option, none, some, List, [], ◌∷◌, if◌then◌else◌,
  Bool-cases, inl, inr, arith,
}
use octo_base.Base.Result.{ok}
use octo_base.Doc.Client.{ItemId, id_eq, or_else}
use octo_base.Doc.YType.{YType, TypeKey, TypeState, key_of}
use octo_base.Doc.Item.{Item}
use octo_base.Doc.Node.{item}
use octo_base.Doc.Store.{DocStore, add_node}
use octo_base.Doc.Store.Links.{get_item, set_item, set_type, put_by}
use octo_base.Doc.Store.Links.Heap.{id_eq-path, mapped, get_item-set_item, get_item-add_node}

abbrev pub link_of : Option Item → Option (Option ItemId)
link_of none = none
link_of (some i) = some i.right

-- The right link of an item.
unfoldable pub follow : DocStore → ItemId → Option (Option ItemId)
follow self id = link_of (get_item self id)

-- The links lead through the ids and end.
abbrev pub IsLinked : (ItemId → Option (Option ItemId)) → Option ItemId → List ItemId → Type 0
IsLinked next from [] = from ≡ none
IsLinked next from (i ∷ ids) =
    (from ≡ some i) × ((r : Option ItemId) × (next i ≡ some r) × IsLinked next r ids)

-- The id is one of them.
abbrev pub Among : List ItemId → ItemId → Type 0
Among [] id = ⊥
Among (i ∷ ids) id = (id_eq i id ≡ true) ⊎ Among ids id

-- The id is none of them.
abbrev pub Beside : List ItemId → ItemId → Type 0
Beside [] id = Unit {0}
Beside (i ∷ ids) id = (id_eq id i ≡ false) × Beside ids id

-- No id stands twice.
abbrev pub AreApart : List ItemId → Type 0
AreApart [] = Unit {0}
AreApart (i ∷ ids) = Beside ids i × AreApart ids

-- The new id behind another, or in front.
unfoldable pub insert_behind : ItemId → ItemId → List ItemId → List ItemId
insert_behind l x [] = x ∷ []
insert_behind l x (i ∷ ids) = if id_eq i l then i ∷ x ∷ ids else i ∷ insert_behind l x ids

abbrev pub insert_after : Option ItemId → ItemId → List ItemId → List ItemId
insert_after none x ids = x ∷ ids
insert_after (some l) x ids = insert_behind l x ids

module _ (next next' : ItemId → Option (Option ItemId)) where
  -- A row whose links are kept is the row still.
  pub IsLinked-kept :
      (x l : ItemId) (ids : List ItemId) (from : Option ItemId)
      → ((j : ItemId) → id_eq x j ≡ false → id_eq l j ≡ false → next' j ≡ next j)
      → Beside ids x
      → Beside ids l
      → IsLinked next from ids
      → IsLinked next' from ids
  IsLinked-kept x l [] from keep bx bl h = h
  IsLinked-kept x l (i ∷ ids) from keep (nx, bx) (nl, bl) (e, (r, n, h)) =
      (e, (r, keep i nx nl ∙ n, IsLinked-kept x l ids r keep bx bl h))

  Beside-eq : (ids : List ItemId) (i l : ItemId) → i ≡ l → Beside ids i → Beside ids l
  Beside-eq ids i l e h = rw e at h

  -- A new link behind an item of the row puts the new id behind it.
  pub IsLinked-insert :
      (x l : ItemId) (old : Option ItemId) (ids : List ItemId) (from : Option ItemId)
      → ((j : ItemId) → id_eq x j ≡ false → id_eq l j ≡ false → next' j ≡ next j)
      → next l ≡ some old
      → next' l ≡ some (some x)
      → next' x ≡ some old
      → Among ids l
      → Beside ids x
      → AreApart ids
      → IsLinked next from ids
      → IsLinked next' from (insert_behind l x ids)
  unfolding insert_behind
  IsLinked-insert x l old [] from keep was now new among bx apart h = elim among [ ]
  IsLinked-insert x l old (i ∷ ids) from keep was now new among (nx, bx) (bi, apart)
        (e, (r, n, h)) =
      elim (Bool-cases (id_eq i l)) [
        | inl here ↦
            let same = id_eq-path i l here in
            let n' : some r ≡ some old = sym n ∙ ap next same ∙ was in
            let right : r ≡ old = cc in
            rw here (
              e,
              (
                some x,
                ap next' same ∙ now,
                (
                  refl,
                  (
                    r,
                    new ∙ ap some (sym right),
                    IsLinked-kept x l ids r keep bx (Beside-eq ids i l same bi) h,
                  ),
                ),
              ),
            )
        | inr other ↦
            let later = elsewhere among other in
            let apart_l : id_eq l i ≡ false = ground (arith, other) in
            rw other (
              e,
              (
                r,
                keep i nx apart_l ∙ n,
                IsLinked-insert x l old ids r keep was now new later bx apart h,
              ),
            )
      ]
    where
      elsewhere : (id_eq i l ≡ true) ⊎ Among ids l → id_eq i l ≡ false → Among ids l
      elsewhere (inl h) f = cc
      elsewhere (inr h) f = h

pub follow-set_left :
    (self : DocStore) (id j : ItemId) (v : Option ItemId)
    → follow (set_item self id (λ i. record i { left = v })) j ≡ follow self j
unfolding follow
follow-set_left self id j v =
    ap link_of (get_item-set_item self id j (λ i. record i { left = v }) (λ i. refl))
    ∙ by_id (id_eq id j) (get_item self j)
  where
    by_id :
        (b : Bool) (o : Option Item)
        → link_of (if b then mapped (λ i. record i { left = v }) o else o) ≡ link_of o
    by_id true none = refl
    by_id true (some i) = refl
    by_id false o = refl

-- The link of the item that is changed.
abbrev pub relinked : Option ItemId → Option (Option ItemId) → Option (Option ItemId)
relinked v none = none
relinked v (some r) = some v

pub follow-set_right :
    (self : DocStore) (id j : ItemId) (v : Option ItemId)
    → follow (set_item self id (λ i. record i { right = v })) j
      ≡ (if id_eq id j then relinked v (follow self j) else follow self j)
unfolding follow
follow-set_right self id j v =
    ap link_of (get_item-set_item self id j (λ i. record i { right = v }) (λ i. refl))
    ∙ by_id (id_eq id j) (get_item self j)
  where
    by_id :
        (b : Bool) (o : Option Item)
        → link_of (if b then mapped (λ i. record i { right = v }) o else o)
          ≡ (if b then relinked v (link_of o) else link_of o)
    by_id true none = refl
    by_id true (some i) = refl
    by_id false o = refl

pub follow-set_type :
    (self : DocStore) (ty : YType) (state : TypeState) (j : ItemId)
    → follow (set_type self ty state) j ≡ follow self j
unfolding follow get_item set_type
follow-set_type self ty state j = by_key (key_of ty)
  where
    by_key : (o : Option TypeKey) → follow (put_by self o state) j ≡ follow self j
    by_key none = refl
    by_key (some key) = refl

pub follow-add_node :
    (self self' : DocStore) (this : Item) (j : ItemId)
    → add_node self (item this) ≡ ok self'
    → follow self' j ≡ or_else (follow self j) (if id_eq this.id j then some this.right else none)
unfolding follow
follow-add_node self self' this j e =
    ap link_of (get_item-add_node self self' this j e) ∙ by_item (get_item self j) (id_eq this.id j)
  where
    by_item :
        (o : Option Item) (b : Bool)
        → link_of (or_else o (if b then some this else none))
          ≡ or_else (link_of o) (if b then some this.right else none)
    by_item none true = refl
    by_item none false = refl
    by_item (some i) b = refl
