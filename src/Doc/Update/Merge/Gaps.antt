-- ===== src/Doc/Update/Merge/Gaps.antt =====
-- What `Update::merge` makes of the nodes of a client.
use octo_base.Base.{
  ℕ, ◌+◌, ◌-◌, ◌%◌, ◌^◌, ◌≤◌, ◌<◌, ◌≡◌, refl, ◌∙◌, Bool, true, false, ◌&&◌, Option, none, some,
  List, [], ◌∷◌, All, ltb, ◌==◌, Bool-cases, inl, inr, arith, ==_iff, ==_refl, ltb→lt,
}
use octo_base.Doc.Client.{ItemId, get, insert, same_id}
use octo_base.Doc.OrderRange.{BinarySearch, ◌>>=◌}
use octo_base.Doc.DeleteSet
use octo_base.Doc.ItemFlag
use octo_base.Doc.Item.{last_id}
use octo_base.Doc.Node.{
  Node, gc, skip, item, new_skip, new_gc, client, clock, node_id, node_len, is_item, node_deleted,
  node_last_id, node_left, node_right, flags,
}
use octo_base.Doc.Store.{end_clock}
use octo_base.Doc.Update.{Update}
use octo_base.Doc.Update.Merge.{
  without_skips, extend_structs, collect_updates, sort_by_clock, same_bit, mergeable, fill_gaps,
  fill, fill_all, merge_updates, merge,
}

-- No node begins after the end of the one before it.
unfoldable pub NoGaps : ℕ → List Node → Type 0
NoGaps end [] = Unit
NoGaps end (n ∷ ns) = (clock n ≤ end) × NoGaps (end_clock n) ns

and-true : (a b : Bool) → (a && b) ≡ true → (a ≡ true) × (b ≡ true)
and-true true true h = (refl, refl)
and-true true false h = cc
and-true false b h = cc

abbrev AreItems : List Node → Type 0
AreItems = All (λ n. (is_item n ≡ true) × (clock n < 2 ^ 64))

-- Two items of a clock that become one end at one clock.
mergeable-end :
    (cur next : Node)
    → is_item cur ≡ true
    → is_item next ≡ true
    → clock cur ≡ clock next
    → mergeable cur next ≡ true
    → end_clock cur ≡ end_clock next
unfolding mergeable is_item end_clock node_len node_last_id last_id clock node_id node_left
    node_right
mergeable-end (gc k) next h h' e m = cc
mergeable-end (skip k) next h h' e m = cc
mergeable-end (item a) (gc k) h h' e m = cc
mergeable-end (item a) (skip k) h h' e m = cc
mergeable-end (item a) (item b) h h' e m =
    let both : same_id (some (last_id a)) (some (last_id b)) ≡ true =
      (and-true (same_id (some (last_id a)) (some (last_id b)))
        (same_id a.left b.left && same_id a.right b.right)
        (and-true (same_bit (node_deleted (item a)) (node_deleted (item b))) _ m).1).0 in
    let clocks =
      (==_iff (last_id a).clock (last_id b).clock).0
        (and-true (a.id.client == b.id.client) ((last_id a).clock == (last_id b).clock) both).1 in
    omega (arith, clocks)

-- The skip of a gap fills it.
new_skip-fills :
    (c from to : ℕ)
    → from < to
    → to < 2 ^ 64
    → (clock (new_skip (record { client = c; clock = from }) (to - from)) ≡ from)
      × (end_clock (new_skip (record { client = c; clock = from }) (to - from)) ≡ to)
unfolding end_clock clock node_id node_len new_skip
new_skip-fills c from to lt bound = (refl, omega (arith, lt, bound))

fill_gaps-NoGaps :
    (ns : List Node) (cur : Node)
    → AreItems (cur ∷ ns)
    → (end : ℕ) → end ≡ end_clock cur
    → NoGaps end (fill_gaps cur ns)
unfolding fill_gaps NoGaps
fill_gaps-NoGaps [] cur h end e = tt
fill_gaps-NoGaps (next ∷ rest) cur ((hi, hc), ((ni, nc), h)) end e =
    elim (Bool-cases (ltb (end_clock cur) (clock next))) [
      | inl gap ↦
          let fills =
            new_skip-fills (client cur) (end_clock cur) (clock next)
              (ltb→lt (end_clock cur) (clock next) gap) nc in
          rw gap (
            omega (arith, fills.0, e),
            (
              omega (arith, fills.1),
              fill_gaps-NoGaps rest next ((ni, nc), h) (end_clock next) refl,
            ),
          )
      | inr close ↦ elim (Bool-cases ((clock cur == clock next) && mergeable cur next)) [
        | inl one ↦
            rw (close, one)
              (fill_gaps-NoGaps rest next ((ni, nc), h) end
                (e
                  ∙ mergeable-end cur next hi ni
                      ((==_iff (clock cur) (clock next)).0
                        (and-true (clock cur == clock next) (mergeable cur next) one).0)
                      (and-true (clock cur == clock next) (mergeable cur next) one).1))
        | inr two ↦
            rw (close, two)
              (
                ground (arith, close, e),
                fill_gaps-NoGaps rest next ((ni, nc), h) (end_clock next) refl,
              )
      ]
    ]

-- The items of a client whose clocks are u64 numbers are merged into nodes without a gap between them: each
-- begins at the end of the one before it or earlier, in whatever order the items come.
pub fill-NoGaps :
    (n : Node) (ns : List Node)
    → All (λ m. (is_item m ≡ true) × (clock m < 2 ^ 64)) (n ∷ ns)
    → (merged : List Node) × (fill (n ∷ ns) ≡ some (n ∷ merged)) × NoGaps (end_clock n) merged
unfolding fill
fill-NoGaps n ns h = (fill_gaps n ns, refl, fill_gaps-NoGaps ns n h (end_clock n) refl)

-- Of two collected nodes of one clock, the first of which ends below 2 ^ 64, the second is dropped, whatever
-- its length.
pub fill_drops_longer :
    (id : ItemId) (len longer : ℕ)
    → id.clock + len < 2 ^ 64
    → fill (new_gc id len ∷ new_gc id longer ∷ []) ≡ some (new_gc id len ∷ [])
unfolding fill fill_gaps new_gc mergeable node_deleted flags node_last_id node_left node_right
    node_id clock end_clock node_len ItemFlag.deleted ItemFlag.check
fill_drops_longer id len longer fits =
    let close : ltb ((id.clock + len) % 2 ^ 64) id.clock ≡ false = ground (arith, fits) in
    rw (close, ==_refl id.clock) refl

bind-none :
    {A B C : Type 0} (o : Option A) (g : A → B) (k : B → Option C)
    → ((a : A) → k (g a) ≡ none)
    → ((o >>= λ a. some (g a)) >>= k) ≡ none
bind-none none g k h = refl
bind-none (some a) g k h = h a

-- The merge of an update whose only client has nothing but skips panics.
pub merge_skips_panics :
    ⦃b : BinarySearch⦄
    → (update : Update) (c : ℕ) (structs : List Node) → update.structs ≡ (c, structs) ∷ []
    → without_skips structs ≡ []
    → merge (update ∷ []) ≡ none
unfolding merge merge_updates collect_updates extend_structs fill_all fill sort_by_clock get insert
merge_skips_panics update c structs e skips =
    bind-none (DeleteSet.merge_into [] update.delete_set) _ _ λ delete_set. rw (e, skips) refl
