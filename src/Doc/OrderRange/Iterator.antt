-- ===== src/Doc/OrderRange/Iterator.antt =====
-- The iterator of a set of ranges yields the ranges of the set, and ends.
use octo_base.Base.{
  ℕ, zero, suc, ◌<◌, ◌≡◌, ◌⊎◌, inl, inr, refl, ap, Option, none, some, List, [], ◌∷◌, length,
  get_elem?, drop, arith,
}
use octo_base.Doc.OrderRange.{
  Range, OrderRange, range, fragment, OrderRangeIter, next, next_of, ranges,
}

abbrev more_ranges : Option Range → List Range → List Range
more_ranges none more = []
more_ranges (some r) more = r ∷ more

-- The first `n` calls of `next`, up to the first `None`.
unfoldable pub take_ranges : ℕ → OrderRangeIter → List Range
take_ranges zero self = []
take_ranges (suc n) self = more_ranges (next self).0 (take_ranges n (next self).1)

get_elem?-drop :
    (rs : List Range) (i : ℕ)
    → ((get_elem? rs i ≡ none) × (drop i rs ≡ []))
      ⊎ ((r : Range) × (get_elem? rs i ≡ some r) × (drop i rs ≡ r ∷ drop (suc i) rs))
get_elem?-drop [] zero = inl (refl, refl)
get_elem?-drop [] (suc i) = inl (refl, refl)
get_elem?-drop (r ∷ rs) zero = inr (r, refl, refl)
get_elem?-drop (r ∷ rs) (suc i) = get_elem?-drop rs i

take_ranges-fragment :
    (n : ℕ) (rs : List Range) (i : ℕ)
    → length (drop i rs) < n
    → take_ranges n (record { range = fragment rs; idx = i }) ≡ drop i rs
unfolding take_ranges next next_of
take_ranges-fragment zero rs i h = absurd (omega arith)
take_ranges-fragment (suc n) rs i h = elim (get_elem?-drop rs i) [
  | inl (none_at, empty) ↦ rw (none_at, empty)
  | inr (r, at, rest) ↦
      rw (at, rest)
        (ap (λ t. r ∷ t) (take_ranges-fragment n rs (suc i) (omega (arith, ap length rest))))
]

-- Called often enough, the iterator yields the ranges of the set, in their order, and then ends.
pub take_ranges-ranges :
    (self : OrderRange) (n : ℕ)
    → length (ranges self) < n
    → take_ranges n (record { range = self; idx = 0 }) ≡ ranges self
unfolding ranges
take_ranges-ranges (range r) zero h = absurd (omega arith)
take_ranges-ranges (range r) (suc zero) h = absurd (omega arith)
take_ranges-ranges (range r) (suc (suc n)) h =
    unfold take_ranges in unfold next in unfold next_of in refl
take_ranges-ranges (fragment rs) n h = take_ranges-fragment n rs 0 h
