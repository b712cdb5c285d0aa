-- ===== src/Doc/Store/Integrate/Orders.antt =====
-- Items that are put at the start of a shared type at once: the order that they get there.
use octo_base.Base.{
  ℕ, zero, suc, ◌<◌, ◌≡◌, refl, sym, ap, ◌∙◌, true, false, Option, none, some, List, [], ◌∷◌,
  length, ltb, if◌then◌else◌, arith, Bool-cases, inl, inr, All,
}
use octo_base.Doc.Client.{ItemId, id_eq}
use octo_base.Doc.Item.{Item}
use octo_base.Doc.Node.{Node, gc, skip, item}
use octo_base.Doc.Store.{DocStore}
use octo_base.Doc.Store.Links.{get_item, item_in, item_of}
use octo_base.Doc.Store.Links.Heap.{id_eq_refl, id_eq-path}
use octo_base.Doc.Store.Links.Row.{
  follow, link_of, IsLinked, Among, Beside, AreApart, insert_after, insert_behind,
}
use octo_base.Doc.Store.Integrate.{conflict_loop}
use octo_base.Doc.Store.Integrate.Siblings.{verdict-head}
use octo_base.Doc.Store.Integrate.Insert.{IsIn}

-- The origins of an item.
abbrev pub origins_of : Option Item → Option (Option ItemId × Option ItemId)
origins_of none = none
origins_of (some it) = some (it.origin_left_id, it.origin_right_id)

unfoldable pub origins : DocStore → ItemId → Option (Option ItemId × Option ItemId)
origins self id = origins_of (get_item self id)

-- The items of the ids are in the store, and have no origins.
abbrev pub AreFirst : DocStore → List ItemId → Type 0
AreFirst self = All (λ i. origins self i ≡ some (none, none))

-- The new id before the first one whose client is not below its client.
unfoldable pub insert_client : ItemId → List ItemId → List ItemId
insert_client x [] = x ∷ []
insert_client x (i ∷ ids) = if ltb i.client x.client then i ∷ insert_client x ids else x ∷ i ∷ ids

-- The id that it stands behind.
unfoldable pub left_before : Option ItemId → ItemId → List ItemId → Option ItemId
left_before left x [] = left
left_before left x (i ∷ ids) = if ltb i.client x.client then left_before (some i) x ids else left

pub insert_client_comm :
    (a b : ItemId) (ids : List ItemId)
    → a.client < b.client
    → insert_client b (insert_client a ids) ≡ insert_client a (insert_client b ids)
unfolding insert_client
insert_client_comm a b [] lt = ground (arith, lt)
insert_client_comm a b (i ∷ ids) lt = ground (arith, lt, insert_client_comm a b ids lt)

id_eq_swap : (a b : ItemId) → id_eq a b ≡ false → id_eq b a ≡ false
id_eq_swap a b h = ground (arith, h)

pub Beside-insert_client :
    (i x : ItemId) (ids : List ItemId)
    → id_eq i x ≡ false
    → Beside ids i
    → Beside (insert_client x ids) i
unfolding insert_client
Beside-insert_client i x [] h b = (h, b)
Beside-insert_client i x (k ∷ ids) h (n, b) = elim (Bool-cases (ltb k.client x.client)) [
  | inl lower ↦ rw lower (n, Beside-insert_client i x ids h b)
  | inr higher ↦ rw higher (h, (n, b))
]

pub AreApart-insert_client :
    (x : ItemId) (ids : List ItemId) → Beside ids x → AreApart ids → AreApart (insert_client x ids)
unfolding insert_client
AreApart-insert_client x [] b h = (tt, tt)
AreApart-insert_client x (i ∷ ids) (n, b) (bi, h) = elim (Bool-cases (ltb i.client x.client)) [
  | inl lower ↦
      rw lower
        (Beside-insert_client i x ids (id_eq_swap x i n) bi, AreApart-insert_client x ids b h)
  | inr higher ↦ rw higher ((n, b), (bi, h))
]

-- The left neighbour behind an id is that id or a later one.
left_before-Among :
    (i x : ItemId) (ids : List ItemId)
    → (l : ItemId) × (left_before (some i) x ids ≡ some l) × Among (i ∷ ids) l
unfolding left_before
left_before-Among i x [] = (i, refl, inl (id_eq_refl i))
left_before-Among i x (k ∷ ids) = elim (Bool-cases (ltb k.client x.client)) [
  | inl lower ↦ let (l, e, among) = left_before-Among k x ids in rw lower (l, e, inr among)
  | inr higher ↦ rw higher (i, refl, inl (id_eq_refl i))
]

pub left_before-IsIn : (x : ItemId) (ids : List ItemId) → IsIn (left_before none x ids) ids
unfolding left_before
left_before-IsIn x [] = tt
left_before-IsIn x (i ∷ ids) = elim (Bool-cases (ltb i.client x.client)) [
  | inl lower ↦ let (l, e, among) = left_before-Among i x ids in rw (lower, e) among
  | inr higher ↦ rw higher tt
]

Among-Beside : (ids : List ItemId) (i l : ItemId) → Among ids l → Beside ids i → id_eq i l ≡ false
Among-Beside [] i l among b = elim among [ ]
Among-Beside (k ∷ ids) i l (inl here) (n, b) = let same = id_eq-path k l here in rw same at n
Among-Beside (k ∷ ids) i l (inr later) (n, b) = Among-Beside ids i l later b

insert_after-behind :
    (i x : ItemId) (ids : List ItemId)
    → AreApart (i ∷ ids)
    → insert_after (left_before (some i) x ids) x (i ∷ ids) ≡ i ∷ insert_client x ids
unfolding insert_client left_before insert_behind
insert_after-behind i x [] h = rw (id_eq_refl i) refl
insert_after-behind i x (k ∷ ids) (b, h) = elim (Bool-cases (ltb k.client x.client)) [
  | inl lower ↦
      let (l, e, among) = left_before-Among k x ids in
      let other = Among-Beside (k ∷ ids) i l among b in
      let later : insert_behind l x (k ∷ ids) ≡ k ∷ insert_client x ids =
        rw e at (insert_after-behind k x ids h) in
      rw (lower, e, other) (ap (λ t. i ∷ t) later)
  | inr higher ↦ rw (higher, id_eq_refl i) refl
]

pub insert_after-left_before :
    (x : ItemId) (ids : List ItemId)
    → AreApart ids
    → insert_after (left_before none x ids) x ids ≡ insert_client x ids
unfolding insert_client left_before
insert_after-left_before x [] h = refl
insert_after-left_before x (i ∷ ids) h = elim (Bool-cases (ltb i.client x.client)) [
  | inl lower ↦ rw lower (insert_after-behind i x ids h)
  | inr higher ↦ rw higher refl
]

id-item_in : (nodes : List Node) (id : ItemId) (c : Item) → item_in nodes id ≡ some c → c.id ≡ id
unfolding item_in
id-item_in [] id c e = cc
id-item_in (gc n ∷ nodes) id c e = id-item_in nodes id c e
id-item_in (skip n ∷ nodes) id c e = id-item_in nodes id c e
id-item_in (item i ∷ nodes) id c e = elim (Bool-cases (id_eq i.id id)) [
  | inl here ↦
      let found : some i ≡ some c = rw here at e in
      let same : i ≡ c = cc in ap (λ (t : Item). t.id) (sym same) ∙ id_eq-path i.id id here
  | inr other ↦ id-item_in nodes id c (rw other at e)
]

id-item_of : (o : Option (List Node)) (id : ItemId) (c : Item) → item_of o id ≡ some c → c.id ≡ id
id-item_of none id c e = cc
id-item_of (some nodes) id c e = id-item_in nodes id c e

id-get_item : (self : DocStore) (id : ItemId) (c : Item) → get_item self id ≡ some c → c.id ≡ id
unfolding get_item
id-get_item self id c e = id-item_of _ id c e

-- Among items without origins the loop comes to the last before which no client is not below.
module _ (self : DocStore) (this : Item) (left_origin : this.origin_left_id ≡ none)
    (right_origin : this.origin_right_id ≡ none) where
  first_item :
      (i : ItemId) (r : Option ItemId)
      → follow self i ≡ some r
      → origins self i ≡ some (none, none)
      → (c : Item) × (get_item self i ≡ some c)
        × (c.id ≡ i)
        × (c.right ≡ r)
        × (c.origin_left_id ≡ none)
        × (c.origin_right_id ≡ none)
  unfolding follow origins
  first_item i r n o = by_item (get_item self i) refl n o
    where
      by_item :
          (found : Option Item)
          → get_item self i ≡ found
          → link_of found ≡ some r
          → origins_of found ≡ some (none, none)
          → (c : Item) × (get_item self i ≡ some c)
            × (c.id ≡ i)
            × (c.right ≡ r)
            × (c.origin_left_id ≡ none)
            × (c.origin_right_id ≡ none)
      by_item none e n' o' = cc
      by_item (some c) e n' o' = (c, e, id-get_item self i c e, cc, cc, cc)

  pub conflict_loop-first :
      (fuel : ℕ) (ids : List ItemId) (from left : Option ItemId) (conflicting before : List ItemId)
      → length ids < fuel
      → IsLinked (follow self) from ids
      → AreFirst self ids
      → conflict_loop fuel (get_item self) this none from left conflicting before
        ≡ some (left_before left this.id ids)
  unfolding conflict_loop left_before
  conflict_loop-first zero ids from left conflicting before enough linked first =
      absurd (omega arith)
  conflict_loop-first (suc fuel) [] none left conflicting before enough linked first = refl
  conflict_loop-first (suc fuel) [] (some id) left conflicting before enough linked first = cc
  conflict_loop-first (suc fuel) (i ∷ ids) none left conflicting before enough (e, (r, n, linked))
        first =
      cc
  conflict_loop-first (suc fuel) (i ∷ ids) (some id) left conflicting before enough
        (e, (r, n, linked)) (o, first) =
      let same : id ≡ i = cc in
      let (c, found, mine, right, left_c, right_c) = first_item i r n o in
      let heard =
        verdict-head this c (c.id ∷ conflicting) (c.id ∷ before) (left_c ∙ sym left_origin)
          (right_c ∙ sym right_origin) in
      elim (Bool-cases (ltb i.client this.id.client)) [
        | inl lower ↦
            let lower' : ltb c.id.client this.id.client ≡ true =
              ap (λ (t : ItemId). ltb t.client this.id.client) mine ∙ lower in
            rw (same, found, heard, lower', lower, mine)
              (ap
                  (λ from'.
                    conflict_loop fuel (get_item self) this none from' (some i) [] (i ∷ before))
                  right
                ∙ conflict_loop-first fuel ids r (some i) [] (i ∷ before) (omega arith) linked
                    first)
        | inr higher ↦
            let higher' : ltb c.id.client this.id.client ≡ false =
              ap (λ (t : ItemId). ltb t.client this.id.client) mine ∙ higher in
            rw (same, found, heard, higher', higher) refl
      ]

pub length-insert_client :
    (x : ItemId) (ids : List ItemId) → length (insert_client x ids) ≡ suc (length ids)
unfolding insert_client
length-insert_client x [] = refl
length-insert_client x (i ∷ ids) = elim (Bool-cases (ltb i.client x.client)) [
  | inl lower ↦ rw lower (ap suc (length-insert_client x ids))
  | inr higher ↦ rw higher refl
]
