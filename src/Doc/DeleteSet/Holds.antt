-- ===== src/Doc/DeleteSet/Holds.antt =====
-- Which clocks of which clients a delete set holds after each operation; none of them panics.
use octo_base.Base.{
  ℕ, ◌≡◌, refl, sym, Bool, true, false, ◌&&◌, ◌||◌, Option, none, some, List, [], ◌∷◌, arith, ◌==◌,
  inl, inr, Bool-cases, ==_iff,
}
use octo_base.Doc.Client.{IsMap, get, insert, get-insert}
use octo_base.Doc.OrderRange.{
  Range, OrderRange, range, fragment, BinarySearch, contains, in_range, any_contains, is_empty,
  is_empty_range,
}
use octo_base.Doc.OrderRange.Membership.{push_total, extend_total, merge_total}
use octo_base.Doc.DeleteSet.{
  DeleteSet, entry_add_range, entry_batch_add, entry_merge, add_range, batch_add_ranges, merge_into,
}

unfoldable pub entry_holds : Option OrderRange → ℕ → Bool
entry_holds none clock = false
entry_holds (some r) clock = contains r clock

-- The clock of the client is deleted.
unfoldable pub holds : DeleteSet → ℕ → ℕ → Bool
unfolding entry_holds
holds self client clock = entry_holds (get self client) clock

empty-contains : (r : OrderRange) (clock : ℕ) → is_empty r ≡ true → contains r clock ≡ false
unfolding is_empty contains any_contains is_empty_range in_range
empty-contains (range r) clock h = ground arith
empty-contains (fragment []) clock h = refl
empty-contains (fragment (r ∷ rs)) clock h = cc

holds-insert :
    (self : DeleteSet) (client : ℕ) (entry : OrderRange) (new : ℕ → Bool)
    → ((clock : ℕ) → contains entry clock ≡ (entry_holds (get self client) clock || new clock))
    → (j clock : ℕ)
    → holds (insert self client entry) j clock
      ≡ (holds self j clock || ((client == j) && new clock))
unfolding holds entry_holds
holds-insert self client entry new h j clock =
    rw (get-insert self client j entry) (elim (Bool-cases (client == j)) [
      | inl same ↦ rw (same, sym ((==_iff client j).0 same)) (h clock)
      | inr other ↦ rw other (or-false (entry_holds (get self j) clock))
    ])
  where
    or-false : (x : Bool) → x ≡ (x || false)
    or-false true = refl
    or-false false = refl

or_assoc : (x y z : Bool) → ((x || y) || z) ≡ (x || (y || z))
or_assoc true y z = refl
or_assoc false y z = refl

holds-cons :
    (client : ℕ) (r : OrderRange) (other : DeleteSet) (j clock : ℕ)
    → get other client ≡ none
    → holds ((client, r) ∷ other) j clock
      ≡ (((client == j) && contains r clock) || holds other j clock)
unfolding holds entry_holds get
holds-cons client r other j clock fresh = elim (Bool-cases (client == j)) [
  | inl same ↦ rw (same, (rw ((==_iff client j).0 same) at fresh)) (or-false (contains r clock))
  | inr different ↦ rw different
]
  where
    or-false : (x : Bool) → x ≡ (x || false)
    or-false true = refl
    or-false false = refl

module _ ⦃b : BinarySearch⦄ where
  entry_add_range_total :
      (o : Option OrderRange) (r : Range)
      → (entry : OrderRange) × (entry_add_range o r ≡ some entry)
        × ((clock : ℕ) → contains entry clock ≡ (entry_holds o clock || in_range r clock))
  unfolding entry_add_range entry_holds
  entry_add_range_total none r = (range r, refl, λ clock. unfold contains in refl)
  entry_add_range_total (some old) r = elim (Bool-cases (is_empty old)) [
    | inl nothing ↦ (
      range r,
      rw nothing,
      λ clock. rw (empty-contains old clock nothing) (unfold contains in refl),
    )
    | inr something ↦ rw something (push_total old r)
  ]

  -- `add_range` returns, and the clocks of the range are added to those of the client, no other.
  pub add_range_total :
      (self : DeleteSet) (client : ℕ) (r : Range)
      → (next : DeleteSet) × (add_range self client r ≡ some next)
        × ((j clock : ℕ)
            → holds next j clock ≡ (holds self j clock || ((client == j) && in_range r clock)))
  unfolding add_range
  add_range_total self client r =
      let (entry, e, h) = entry_add_range_total (get self client) r in
      (insert self client entry, rw e, holds-insert self client entry (in_range r) h)

  entry_batch_add_total :
      (o : Option OrderRange) (rs : List Range)
      → (entry : OrderRange) × (entry_batch_add o rs ≡ some entry)
        × ((clock : ℕ) → contains entry clock ≡ (entry_holds o clock || any_contains rs clock))
  unfolding entry_batch_add entry_holds
  entry_batch_add_total none rs = (fragment rs, refl, λ clock. unfold contains in refl)
  entry_batch_add_total (some old) rs = extend_total old rs

  -- `batch_add_ranges` returns, and adds the clocks of all the ranges to those of the client.
  pub batch_add_ranges_total :
      (self : DeleteSet) (client : ℕ) (rs : List Range)
      → (next : DeleteSet) × (batch_add_ranges self client rs ≡ some next)
        × ((j clock : ℕ)
            → holds next j clock ≡ (holds self j clock || ((client == j) && any_contains rs clock)))
  unfolding batch_add_ranges
  batch_add_ranges_total self client rs =
      let (entry, e, h) = entry_batch_add_total (get self client) rs in
      (insert self client entry, rw e, holds-insert self client entry (any_contains rs) h)

  entry_merge_total :
      (o : Option OrderRange) (r : OrderRange)
      → (entry : OrderRange) × (entry_merge o r ≡ some entry)
        × ((clock : ℕ) → contains entry clock ≡ (entry_holds o clock || contains r clock))
  unfolding entry_merge entry_holds
  entry_merge_total none r = (r, refl, λ clock. refl)
  entry_merge_total (some old) r = merge_total old r

  -- Where no client stands twice in the other set, `merge` returns, and a clock is deleted after
  -- it exactly when it was deleted in one of the two sets.
  pub merge_into_total :
      (other self : DeleteSet)
      → IsMap other
      → (next : DeleteSet) × (merge_into self other ≡ some next)
        × ((j clock : ℕ) → holds next j clock ≡ (holds self j clock || holds other j clock))
  unfolding merge_into
  merge_into_total [] self h =
      (self, refl, λ j clock. unfold holds get in nothing_more (holds self j clock))
    where
      nothing_more : (x : Bool) → x ≡ (x || false)
      nothing_more true = refl
      nothing_more false = refl
  merge_into_total ((client, r) ∷ other) self (fresh, h) =
      let (entry, e, more) = entry_merge_total (get self client) r in
      let (next, e', all) = merge_into_total other (insert self client entry) h in
      (
        next,
        rw (e, e'),
        λ j clock.
            rw
              (
                all j clock,
                holds-insert self client entry (contains r) more j clock,
                holds-cons client r other j clock fresh,
              )
              (or_assoc (holds self j clock) ((client == j) && contains r clock)
                (holds other j clock)),
      )
