-- ===== src/Doc/OrderRange/Overlap.antt =====
-- Where `push` does not merge all the ranges that the new one touches.
use Prim.Native.Nat.{Ordering}
use octo_base.Base.{ℕ, zero, suc, ◌≤◌, ◌<◌, ◌≡◌, true, some, List, [], ◌∷◌, get_elem?, arith}
use octo_base.Base.Result.{ok}
use octo_base.Doc.OrderRange.{
  Range, fragment, is_continuous_range, hull, BinarySearch, remove_at, squash_prev, squash_next,
  squash_around, ◌>>=◌, locate, make_single, push_at, push_inner, push,
}

-- Three ranges that lie apart, each of which the range `r` touches.
pub record Touches (a b c r : Range) : Type 0 where
  pub a_before_b : a.end < b.start
  pub b_before_c : b.end < c.start
  pub a_le : a.start ≤ a.end
  pub b_le : b.start ≤ b.end
  pub c_le : c.start ≤ c.end
  pub r_from : r.start ≤ a.end
  pub r_to : c.start ≤ r.end

abbrev three : Range → Range → Range → List Range
three a b c = a ∷ b ∷ c ∷ []

-- The result by the index that the search gives.
overlap_at :
    ⦃s : BinarySearch⦄ (a b c r : Range) (i : ℕ)
    → Touches a b c r
    → ((old : Range) × (get_elem? (three a b c) i ≡ some old) × (locate r old ≡ Ordering.eq))
    → (x y : Range) × ((push_at (three a b c) r (ok i) >>= λ l. some (make_single l))
        ≡ some (fragment (x ∷ y ∷ [])))
      × (is_continuous_range x y ≡ true)
unfolding push_at squash_around squash_prev squash_next is_continuous_range remove_at make_single
overlap_at a b c r zero t found = (hull (hull a r) b, c, ground arith, ground arith)
overlap_at a b c r (suc zero) t found = (hull a (hull b r), c, ground arith, ground arith)
overlap_at a b c r (suc (suc zero)) t found = (a, hull b (hull c r), ground arith, ground arith)
overlap_at a b c r (suc (suc (suc i))) t (old, e, h) = cc

module _ ⦃s : BinarySearch⦄ where
  -- When `r` touches all of three ranges that lie apart and the search finds one of them,
  -- whichever it is, `push` leaves two ranges that overlap or touch: `squash_around` looks at one
  -- neighbour on each side, by an index that the first merge makes stale.
  pub push_leaves_overlap :
      (a b c r : Range) (i : ℕ)
      → Touches a b c r
      → s.search (a ∷ b ∷ c ∷ []) (locate r) ≡ ok i
      → (x y : Range) × (push (fragment (a ∷ b ∷ c ∷ [])) r ≡ some (fragment (x ∷ y ∷ [])))
        × (is_continuous_range x y ≡ true)
  unfolding push push_inner push_at
  push_leaves_overlap a b c r i t e =
      rw e (overlap_at a b c r i t (s.search_found (a ∷ b ∷ c ∷ []) (locate r) e))
