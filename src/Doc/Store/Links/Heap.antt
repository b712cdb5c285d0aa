-- ===== src/Doc/Store/Links/Heap.antt =====
-- What a change of one item leaves of the others.
use octo_base.Base.{
  ◌≡◌, refl, sym, ap, ◌∙◌, true, Option, none, some, List, [], ◌∷◌, ◌++◌, ◌==◌, if◌then◌else◌,
  Bool-cases, inl, inr, ==_iff, ==_refl, arith,
}
use octo_base.Base.Result.{ok, err, ◌>>=◌}
use octo_base.Doc.Error.{JwstCodecResult}
use octo_base.Doc.Client.{ItemId, id_eq, get, insert, get-insert, or_else}
use octo_base.Doc.Item.{Item}
use octo_base.Doc.Node.{Node, gc, skip, item, client, node_id}
use octo_base.Doc.Store.{DocStore, push_node, add_node}
use octo_base.Doc.Store.Links.{item_in, item_of, get_item, set_in, set_of, set_item}

pub id_eq_refl : (a : ItemId) → id_eq a a ≡ true
id_eq_refl a = rw (==_refl a.client, ==_refl a.clock) refl

pub id_eq-path : (a b : ItemId) → id_eq a b ≡ true → a ≡ b
id_eq-path a b h =
    let same_client : a.client ≡ b.client = ground (arith, h) in
    let same_clock : a.clock ≡ b.clock = ground (arith, h) in
    λ i. record { client = same_client i; clock = same_clock i }

pub id_eq-left : (a b j : ItemId) → id_eq a b ≡ true → id_eq a j ≡ id_eq b j
id_eq-left a b j h = ap (λ t. id_eq t j) (id_eq-path a b h)

pub id_eq-join : (a b j : ItemId) → id_eq a j ≡ true → id_eq b j ≡ true → id_eq a b ≡ true
id_eq-join a b j h k = ground (arith, h, k)

abbrev pub mapped : (Item → Item) → Option Item → Option Item
mapped f none = none
mapped f (some i) = some (f i)

item_in-set_in :
    (nodes : List Node) (id j : ItemId) (f : Item → Item)
    → ((i : Item) → (f i).id ≡ i.id)
    → item_in (set_in nodes id f) j
      ≡ (if id_eq id j then mapped f (item_in nodes j) else item_in nodes j)
unfolding item_in set_in
item_in-set_in [] id j f keeps = elim (Bool-cases (id_eq id j)) [
  | inl e ↦ rw e refl
  | inr e ↦ rw e refl
]
item_in-set_in (gc n ∷ nodes) id j f keeps = item_in-set_in nodes id j f keeps
item_in-set_in (skip n ∷ nodes) id j f keeps = item_in-set_in nodes id j f keeps
item_in-set_in (item i ∷ nodes) id j f keeps = elim (Bool-cases (id_eq i.id id)) [
  | inl here ↦
      let same = id_eq-left i.id id j here in
      let after = ap (λ t. id_eq t j) (keeps i) ∙ same in
      elim (Bool-cases (id_eq id j)) [
        | inl yes' ↦ rw (here, after ∙ yes', same, yes') refl
        | inr no' ↦ rw (here, after ∙ no', same, no') refl
      ]
  | inr other ↦ elim (Bool-cases (id_eq i.id j)) [
    | inl mine ↦ elim (Bool-cases (id_eq id j)) [
      | inl too ↦ let both = id_eq-join i.id id j mine too in cc
      | inr no' ↦ rw (other, mine, no') refl
    ]
    | inr past ↦ rw (other, past) (item_in-set_in nodes id j f keeps)
  ]
]

get_item-set_of :
    (self : DocStore) (id j : ItemId) (f : Item → Item) (o : Option (List Node))
    → ((i : Item) → (f i).id ≡ i.id)
    → get self.items id.client ≡ o
    → item_of (get (set_of self.items id f o) j.client) j ≡ (
        if id_eq id j
        then mapped f (item_of (get self.items j.client) j)
        else item_of (get self.items j.client) j)
get_item-set_of self id j f none keeps e = elim (Bool-cases (id_eq id j)) [
  | inl same ↦
      let c : id.client ≡ j.client = ground (arith, same) in
      let e' : get self.items j.client ≡ none = ap (get self.items) (sym c) ∙ e in
      rw (same, e') refl
  | inr other ↦ rw other refl
]
get_item-set_of self id j f (some nodes) keeps e =
    rw (get-insert self.items id.client j.client (set_in nodes id f))
      (elim (Bool-cases (id.client == j.client)) [
        | inl same ↦
            let c : id.client ≡ j.client = (==_iff _ _).0 same in
            let e' : get self.items j.client ≡ some nodes = ap (get self.items) (sym c) ∙ e in
            rw (same, e') (rw same at (item_in-set_in nodes id j f keeps))
        | inr other ↦ rw other refl
      ])

-- A change at an id changes the item of that id, where there is one.
pub get_item-set_item :
    (self : DocStore) (id j : ItemId) (f : Item → Item)
    → ((i : Item) → (f i).id ≡ i.id)
    → get_item (set_item self id f) j
      ≡ (if id_eq id j then mapped f (get_item self j) else get_item self j)
unfolding get_item set_item
get_item-set_item self id j f keeps =
    get_item-set_of self id j f (get self.items id.client) keeps refl

item_in-snoc :
    (nodes : List Node) (this : Item) (j : ItemId)
    → item_in (nodes ++ item this ∷ []) j
      ≡ or_else (item_in nodes j) (if id_eq this.id j then some this else none)
unfolding item_in
item_in-snoc [] this j = refl
item_in-snoc (gc n ∷ nodes) this j = item_in-snoc nodes this j
item_in-snoc (skip n ∷ nodes) this j = item_in-snoc nodes this j
item_in-snoc (item i ∷ nodes) this j = elim (Bool-cases (id_eq i.id j)) [
  | inl mine ↦ rw mine refl
  | inr other ↦ rw other (item_in-snoc nodes this j)
]

abbrev appended : Option (List Node) → Node → List Node
appended none n = n ∷ []
appended (some nodes) n = nodes ++ n ∷ []

push_node-appended :
    (o : Option (List Node)) (n : Node) (structs : List Node)
    → push_node o n ≡ ok structs
    → structs ≡ appended o n
unfolding push_node
push_node-appended none n structs p = cc
push_node-appended (some []) n structs p = cc
push_node-appended (some (m ∷ ms)) n structs p = ground (arith, p)

item_in-appended :
    (o : Option (List Node)) (this : Item) (j : ItemId)
    → item_in (appended o (item this)) j
      ≡ or_else (item_of o j) (if id_eq this.id j then some this else none)
unfolding item_in
item_in-appended none this j = refl
item_in-appended (some nodes) this j = item_in-snoc nodes this j

or_else-nothing : (o : Option Item) → o ≡ or_else o none
or_else-nothing none = refl
or_else-nothing (some i) = refl

get_item-push_node :
    (self : DocStore) (this : Item) (structs : List Node) (j : ItemId)
    → structs ≡ appended (get self.items this.id.client) (item this)
    → item_of (get (insert self.items this.id.client structs) j.client) j
      ≡ or_else (item_of (get self.items j.client) j) (if id_eq this.id j then some this else none)
get_item-push_node self this structs j e =
    rw (get-insert self.items this.id.client j.client structs)
      (elim (Bool-cases (this.id.client == j.client)) [
        | inl same ↦
            let c : this.id.client ≡ j.client = (==_iff _ _).0 same in
            let e' : structs ≡ appended (get self.items j.client) (item this) =
              e ∙ ap (λ k. appended (get self.items k) (item this)) c in
            rw (same, e') (rw same at (item_in-appended (get self.items j.client) this j))
        | inr other ↦ rw other (or_else-nothing (item_of (get self.items j.client) j))
      ])

-- A node that is added is found by its id, unless an item of that id is there, and the others are found as
-- before.
pub get_item-add_node :
    (self self' : DocStore) (this : Item) (j : ItemId)
    → add_node self (item this) ≡ ok self'
    → get_item self' j ≡ or_else (get_item self j) (if id_eq this.id j then some this else none)
unfolding add_node get_item client node_id
get_item-add_node self self' this j e =
    by_push (push_node (get self.items this.id.client) (item this)) refl e
  where
    by_push :
        (r : JwstCodecResult (List Node))
        → push_node (get self.items this.id.client) (item this) ≡ r
        → (r >>= λ structs. ok (record self { items = insert self.items this.id.client structs }))
          ≡ ok self'
        → item_of (get self'.items j.client) j
          ≡ or_else
              (item_of (get self.items j.client) j)
              (if id_eq this.id j then some this else none)
    by_push (err f) p q = cc
    by_push (ok structs) p q =
        let whole : record self { items = insert self.items this.id.client structs } ≡ self' = cc in
        let items = ap (λ (s : DocStore). s.items) whole in
        rw (sym items)
          (get_item-push_node self this structs j (push_node-appended _ (item this) structs p))
