-- ===== src/Doc/Store/Integrate/Keys.antt =====
-- An item under a key of its parent.
use octo_base.Base.{
  ℕ, zero, suc, ◌≡◌, ◌<◌, ◌&&◌, ◌||◌, not, if◌then◌else◌, List, [], ◌∷◌, length, ltb, arith, refl,
  ap, ◌∙◌, true, false, Option, none, some,
}
use octo_base.Base.Assoc.{assoc_get, assoc_insert, assoc_get-assoc_insert}
use octo_base.Base.Result.{ok}
use octo_base.Crates.{Bytes}
use octo_base.Doc.Client.{ItemId, id_eq, or_else}
use octo_base.Doc.OrderRange.{BinarySearch}
use octo_base.Doc.YType.{YType, TypeKey, TypeState, key_of}
use octo_base.Doc.Item.{Item, is_some}
use octo_base.Doc.Node.{item}
use octo_base.Doc.Store.{DocStore, add_node}
use octo_base.Doc.Store.Links.{Run, done, ◌>>=◌, get_item, type_state, set_type, put_by}
use octo_base.Doc.Store.Links.Heap.{get_item-add_node}
use octo_base.Doc.Store.Links.Row.{IsLinked}
use octo_base.Doc.Store.Integrate.Siblings.{verdict-head}
use octo_base.Doc.Store.Links.Types.{type_state-set_type, type_state-add_node}
use octo_base.Doc.Store.Repair.{item_by}
use octo_base.Doc.Store.Integrate.{
  take_key, done_if, conflict_loop, first_conflict, null_or_has_left, has_other_right,
  is_deleted_item, head, head_of, without_left, find_left, connect_left, connect_right, settle,
  integrate_into,
}
use octo_base.Doc.Store.Integrate.Steps.{rest_of, add_settled}

abbrev keep_store : DocStore → Option ItemId → Run (Option ItemId × DocStore)
keep_store self r = done (r, self)

-- The left link of an item.
abbrev pub left_link : Option Item → Option (Option ItemId)
left_link none = none
left_link (some it) = some it.left

abbrev pub follow_left : DocStore → ItemId → Option (Option ItemId)
follow_left self id = left_link (get_item self id)

head_found :
    (fuel : ℕ) (self : DocStore) (id : ItemId) (r : Option ItemId) (o : Option Item)
    → get_item self id ≡ o
    → left_link o ≡ some r
    → head fuel self r ≡ done none
    → head (suc fuel) self (some id) ≡ done none
unfolding head
head_found fuel self id r none e n h = cc
head_found fuel self id r (some it) e n h =
    let same : it.left ≡ r = cc in rw (e, head) (ap (head fuel self) same ∙ h)

-- Where left links lead through ids and end, the walk to the head ends past all of them, at no item, on
-- fuel of one more than the ids.
head-none :
    (fuel : ℕ) (self : DocStore) (cur : Option ItemId) (ids : List ItemId)
    → IsLinked (follow_left self) cur ids
    → length ids < fuel
    → head fuel self cur ≡ done none
unfolding head
head-none zero self cur ids linked enough = absurd (omega arith)
head-none (suc fuel) self none ids linked enough = refl
head-none (suc fuel) self (some id) [] linked enough = cc
head-none (suc fuel) self (some id) (i ∷ ids) (e, (r, n, linked)) enough =
    let same : id ≡ i = cc in
    rw same (
      head_found fuel self i r (get_item self i) refl n
        (head-none fuel self r ids linked (omega arith)))

-- The search, from the links and the key of the item.
abbrev pub found_by :
    ℕ
    → DocStore
    → TypeState
    → Item
    → Option ItemId
    → Option ItemId
    → Option Bytes
    → Run (Option ItemId)
found_by fuel self parent this left_id right_id sub =
    let left = item_by self left_id in
    let right = item_by self right_id in
    let found = done_if (
      conflict_loop fuel (get_item self) this right_id (first_conflict left parent sub) left_id []
        []) in
    if (not (is_some left) && null_or_has_left right) || has_other_right left right_id
    then found
    else done left_id

conflict_loop-stop :
    (fuel : ℕ) (find : ItemId → Option Item) (this c : Item) (id : ItemId)
    → 0 < fuel
    → find id ≡ some c
    → c.origin_left_id ≡ this.origin_left_id
    → c.origin_right_id ≡ this.origin_right_id
    → ltb c.id.client this.id.client ≡ false
    → conflict_loop fuel find this none (some id) none [] [] ≡ some none
unfolding conflict_loop
conflict_loop-stop zero find this c id enough found left right lower = absurd (omega arith)
conflict_loop-stop (suc fuel) find this c id enough found left right lower =
    rw (found, verdict-head this c (c.id ∷ []) (c.id ∷ []) left right, lower) refl

pub get_item-set_type :
    (self : DocStore) (ty : YType) (state : TypeState) (j : ItemId)
    → get_item (set_type self ty state) j ≡ get_item self j
unfolding get_item set_type
get_item-set_type self ty state j = by_key (key_of ty)
  where
    by_key : (o : Option TypeKey) → get_item (put_by self o state) j ≡ get_item self j
    by_key none = refl
    by_key (some key) = refl

module _ ⦃b : BinarySearch⦄ (fuel : ℕ) (ty : YType) (key : TypeKey)
    (named : key_of ty ≡ some key) where
  connect_left-key :
      (self : DocStore) (this : Item) (sub : Bytes) (id : ItemId)
      → this.parent_sub ≡ some sub
      → assoc_get (type_state self ty).map sub ≡ some id
      → head fuel self (some id) ≡ done none
      → connect_left fuel self ty (type_state self ty) this none ≡ done (none, self)
  unfolding connect_left
  connect_left-key self this sub id keyed entry ended =
      ap (without_left fuel self ty (type_state self ty) this.id) keyed
      ∙ ap (λ o. head_of fuel self o >>= keep_store self) entry
      ∙ ap (λ r. r >>= keep_store self) ended

  -- The item of the key, of the same origins and of a client not below, stops the search at once.
  find_left-key :
      (self : DocStore) (this c : Item) (sub : Bytes) (id : ItemId)
      → 0 < fuel
      → this.parent_sub ≡ some sub
      → this.left ≡ none
      → this.right ≡ none
      → assoc_get (type_state self ty).map sub ≡ some id
      → get_item self id ≡ some c
      → c.origin_left_id ≡ this.origin_left_id
      → c.origin_right_id ≡ this.origin_right_id
      → ltb c.id.client this.id.client ≡ false
      → find_left fuel self (type_state self ty) this ≡ done none
  unfolding find_left
  find_left-key self this c sub id enough keyed no_left no_right entry found left right lower =
      let parent = type_state self ty in
      ap (λ l. found_by fuel self parent this l this.right this.parent_sub) no_left
      ∙ ap (λ r. found_by fuel self parent this none r this.parent_sub) no_right
      ∙ ap (found_by fuel self parent this none none) keyed
      ∙ ap (λ o. done_if (conflict_loop fuel (get_item self) this none o none [] [])) entry
      ∙ ap done_if (conflict_loop-stop fuel (get_item self) this c id enough found left right lower)

  -- The store once the key is taken.
  abbrev keyed_store : DocStore → Item → Bytes → DocStore
  keyed_store self this sub =
      let parent = type_state self ty in
      set_type self ty (record parent { map = assoc_insert parent.map sub this.id })

  connect_right-key :
      (self : DocStore) (this : Item) (sub : Bytes)
      → this.parent_sub ≡ some sub
      → connect_right fuel self ty this none none ≡ done (keyed_store self this sub)
  unfolding connect_right
  connect_right-key self this sub keyed = ap (λ o. take_key fuel self ty this.id o none) keyed

  settle-key :
      (self : DocStore) (this : Item) (sub : Bytes)
      → ty.item ≡ none
      → this.parent_sub ≡ some sub
      → this.right ≡ none
      → settle fuel self ty this ≡ done (this, self)
  unfolding settle
  settle-key self this sub root keyed last =
      let live : is_deleted_item (item_by self ty.item) ≡ false =
        ap (λ o. is_deleted_item (item_by self o)) root in
      let has_key : is_some this.parent_sub ≡ true = ap is_some keyed in
      let no_later : is_some (item_by self this.right) ≡ false =
        ap (λ o. is_some (item_by self o)) last in
      rw (live, has_key, no_later) refl

  integrate_by_steps :
      (self : DocStore) (this : Item)
      → find_left fuel self (type_state self ty) this ≡ done none
      → integrate_into fuel self this ty
        ≡ connect_left fuel self ty (type_state self ty) this none
          >>= rest_of fuel ty key named this none
  unfolding integrate_into
  integrate_by_steps self this searched =
      ap
        (λ r. r >>= λ left.
          connect_left fuel self ty (type_state self ty) this left
          >>= rest_of fuel ty key named this left)
        searched

  -- Where a key of a shared type that the store knows by a name has an item, from which left links lead
  -- through ids and end, an item under that key with no neighbour, of the same origins and of a client not
  -- above, which is to stand before the one of the key, is integrated, on fuel of one more than the ids: it
  -- is the one of the key once it is added to the store, and the other item is there as it was, not deleted.
  pub integrate_into_takes_key :
      (self : DocStore) (this c : Item) (sub : Bytes) (id : ItemId) (ids : List ItemId)
      → ty.item ≡ none
      → this.parent_sub ≡ some sub
      → this.left ≡ none
      → this.right ≡ none
      → assoc_get (type_state self ty).map sub ≡ some id
      → get_item self id ≡ some c
      → c.origin_left_id ≡ this.origin_left_id
      → c.origin_right_id ≡ this.origin_right_id
      → ltb c.id.client this.id.client ≡ false
      → IsLinked (follow_left self) (some id) ids
      → length ids < fuel
      → (store : DocStore) × (integrate_into fuel self this ty
          ≡ some (add_node store (item (record this { left = none; right = none }))))
        × ((self' : DocStore)
            → add_node store (item (record this { left = none; right = none })) ≡ ok self'
            → (assoc_get (type_state self' ty).map sub ≡ some this.id)
              × (get_item self' id ≡ some c))
  integrate_into_takes_key self this c sub id ids root keyed no_left no_right entry found left right
        lower linked enough =
      let placed = record this { left = none; right = none } in
      let store = keyed_store self this sub in
      let searched =
        find_left-key self this c sub id (omega arith) keyed no_left no_right entry found left right
          lower in
      let connected =
        connect_left-key self this sub id keyed entry
          (head-none fuel self (some id) ids linked enough) in
      (
        store,
        integrate_by_steps self this searched
            ∙ ap (λ r. r >>= rest_of fuel ty key named this none) connected
            ∙ ap (λ r. r >>= λ store'. settle fuel store' ty placed >>= add_settled)
                (connect_right-key self this sub keyed)
            ∙ ap (λ r. r >>= add_settled) (settle-key store placed sub root keyed refl),
        λ self' added. (
          ap (λ (s : TypeState). assoc_get s.map sub)
                (type_state-add_node store self' placed ty added
                  ∙ type_state-set_type self ty key _ named)
              ∙ assoc_get-assoc_insert (type_state self ty).map sub this.id,
          get_item-add_node store self' placed id added
              ∙ ap (λ o. or_else o (if id_eq this.id id then some placed else none))
                  (get_item-set_type self ty _ id ∙ found),
        ),
      )
