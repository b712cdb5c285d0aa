-- ===== src/Doc/Store/Integrate/Siblings.antt =====
-- Items that were put at one place at once: each with the run of items that follow on it.
use octo_base.Base.{
  ℕ, suc, ◌+◌, ◌<◌, ◌≡◌, refl, ap, ◌∙◌, Bool, true, false, ◌||◌, Option, some, List, [], ◌∷◌, ◌++◌,
  length, map, ◌^◌, ◌%◌, ◌-◌, ◌⊎◌, sym, ltb, if◌then◌else◌, arith, Bool-cases, inl, inr,
}
use octo_base.Doc.Client.{ItemId, id_eq, same_id}
use octo_base.Doc.Item.{Item, item_len, last_id}
use octo_base.Doc.Store.Integrate.{stop, after, has_id, verdict, conflict_loop}
use octo_base.Doc.Store.Links.Heap.{id_eq_refl}
use octo_base.Doc.Store.Integrate.Scan.{scan, same_id_refl, left_at, IsRow, conflict_loop-scan}

-- An item and the run that follows on it.
abbrev pub Block : Type 0
Block = Item × List Item

unfoldable pub flat : List Block → List Item
flat [] = []
flat ((h, ds) ∷ bs) = h ∷ ds ++ flat bs

-- The id is the last one of an earlier item, which has one clock: its last id is its only one.
abbrev pub Follows : List Item → ItemId → Type 0
Follows [] l = ⊥
Follows (e ∷ es) l = ((item_len e ≡ 1) × (e.id.clock < 2 ^ 64) × (last_id e ≡ l)) ⊎ Follows es l

-- Each item of a run has for its left origin the last id of an earlier item of the block, which has one clock;
-- it is neither the origin of the block nor the id of the item itself.
abbrev pub IsRun : Option ItemId → List Item → List Item → Type 0
IsRun origin seen [] = Unit {0}
IsRun origin seen (d ∷ ds) =
    ((l : ItemId) × (d.origin_left_id ≡ some l)
      × Follows seen l
      × (id_eq d.id l ≡ false)
      × (same_id origin (some l) ≡ false))
    × IsRun origin (d ∷ seen) ds

-- The first item of each block has the two origins, and the others are a run.
abbrev pub AreBlocks : Option ItemId → Option ItemId → List Block → Type 0
AreBlocks left right [] = Unit {0}
AreBlocks left right ((h, ds) ∷ bs) =
    ((h.origin_left_id ≡ left) × (h.origin_right_id ≡ right) × IsRun left (h ∷ []) ds)
    × AreBlocks left right bs

abbrev ids_of : List Item → List ItemId
ids_of = map (λ e. e.id)

last_id-one : (e : Item) → item_len e ≡ 1 → e.id.clock < 2 ^ 64 → last_id e ≡ e.id
unfolding last_id
last_id-one e one bound =
    let clock : (e.id.clock + item_len e + 2 ^ 64 - 1) % 2 ^ 64 ≡ e.id.clock =
      rw one (omega (arith, bound)) in
    λ i. record { client = e.id.client; clock = clock i }

has_id-Follows : (seen : List Item) (l : ItemId) → Follows seen l → has_id (ids_of seen) l ≡ true
unfolding has_id
has_id-Follows [] l h = elim h [ ]
has_id-Follows (e ∷ es) l (inl (one, bound, last)) =
    let same : e.id ≡ l = sym (last_id-one e one bound) ∙ last in rw (same, id_eq_refl l) refl
has_id-Follows (e ∷ es) l (inr later) =
    by_head (id_eq e.id l) (has_id (ids_of es) l) (has_id-Follows es l later)
  where
    by_head : (a b : Bool) → b ≡ true → (a || b) ≡ true
    by_head true b h = refl
    by_head false b h = h

has_id-append : (xs ys : List ItemId) (l : ItemId) → has_id xs l ≡ true → has_id (xs ++ ys) l ≡ true
unfolding has_id
has_id-append [] ys l h = cc
has_id-append (x ∷ xs) ys l h =
    by_head (id_eq x l) (has_id xs l) (has_id (xs ++ ys) l) (has_id-append xs ys l) h
  where
    by_head : (a b c : Bool) → (b ≡ true → c ≡ true) → (a || b) ≡ true → (a || c) ≡ true
    by_head true b c f h = refl
    by_head false b c f h = f h

-- An item whose left origin is an earlier one of its block stands before the new item with the block.
verdict-run :
    (this d : Item) (l : ItemId) (before : List ItemId)
    → d.origin_left_id ≡ some l
    → has_id before l ≡ true
    → id_eq d.id l ≡ false
    → same_id this.origin_left_id (some l) ≡ false
    → verdict this (d.id ∷ []) (d.id ∷ before) d ≡ after
unfolding verdict has_id
verdict-run this d l before e known new other = rw (e, other, new, known) refl

-- A run comes to stand before the new item with its block.
scan-run :
    (this : Item) (ds rest : List Item) (seen : List Item) (before : List ItemId)
    → IsRun this.origin_left_id seen ds
    → (before' : List ItemId) × (scan this [] (ids_of seen ++ before) 0 (ds ++ rest)
        ≡ length ds + scan this [] before' 0 rest)
unfolding scan
scan-run this [] rest seen before h = (ids_of seen ++ before, omega arith)
scan-run this (d ∷ ds) rest seen before ((l, e, known, new, other), h) =
    let (before', later) = scan-run this ds rest (d ∷ seen) before h in
    let one =
      verdict-run this d l (ids_of seen ++ before) e
        (has_id-append (ids_of seen) before l (has_id-Follows seen l known)) new other in
    (before', rw one (omega (arith, later)))

-- The head of a block, by its client.
pub verdict-head :
    (this h : Item) (conflicting before : List ItemId)
    → h.origin_left_id ≡ this.origin_left_id
    → h.origin_right_id ≡ this.origin_right_id
    → verdict this conflicting before h ≡ (if ltb h.id.client this.id.client then after else stop)
unfolding verdict
verdict-head this h conflicting before l r =
    rw (l, r, same_id_refl this.origin_left_id, same_id_refl this.origin_right_id) refl

-- The items of the blocks before the one that the new item stands before.
unfoldable pub position : Item → List Block → ℕ
position this [] = 0
position this ((h, ds) ∷ bs) =
    if ltb h.id.client this.id.client then suc (length ds) + position this bs else 0

scan-flat :
    (this : Item) (bs : List Block) (before : List ItemId)
    → AreBlocks this.origin_left_id this.origin_right_id bs
    → scan this [] before 0 (flat bs) ≡ position this bs
unfolding scan flat position
scan-flat this [] before h = refl
scan-flat this ((h, ds) ∷ bs) before ((l, r, run), blocks) =
    rw (verdict-head this h (h.id ∷ []) (h.id ∷ before) l r)
      (elim (Bool-cases (ltb h.id.client this.id.client)) [
        | inl lower ↦
            let (before', later) = scan-run this ds (flat bs) (h ∷ []) before run in
            rw lower (omega (arith, later, scan-flat this bs before' blocks))
        | inr higher ↦ rw higher refl
      ])

-- Where the right links lead from the first conflicting item through blocks up to the right one, the first
-- item of each block has the new item's origins, and each other has for its left origin the last id of an
-- earlier one that has one clock, the loop ends, on fuel of one more than the items, behind the leading
-- blocks whose first items have a client below the new item's: it puts nothing inside such a block.
pub conflict_loop-flat :
    (find : ItemId → Option Item) (this : Item) (right left from : Option ItemId) (fuel : ℕ)
    (bs : List Block)
    → length (flat bs) < fuel
    → AreBlocks this.origin_left_id this.origin_right_id bs
    → IsRow find from (flat bs) right
    → conflict_loop fuel find this right from left [] []
      ≡ some (left_at left (position this bs) (flat bs))
conflict_loop-flat find this right left from fuel bs enough blocks row =
    conflict_loop-scan find this right fuel (flat bs) left from enough row
    ∙ ap (λ n. some (left_at left n (flat bs))) (scan-flat this bs [] blocks)
