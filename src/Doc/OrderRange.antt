-- ===== src/Doc/OrderRange.antt =====
-- libs/jwst-codec/src/doc/common/range.rs: sets of clocks as one range, or as a list of ranges.
-- `none` is a panic, such as an index out of bounds.
pub mod Membership
pub mod Squash
pub mod Overlap
pub mod Iterator
pub mod Difference
use Prim.Native.Nat.{Ordering}
use octo_base.Base.{
  ℕ, zero, suc, ◌+◌, ◌-◌, ◌≤◌, min, max, ◌≡◌, Bool, true, false, not, ◌&&◌, ◌||◌, Option, none,
  some, List, [], ◌∷◌, ◌++◌, length, get_elem?, set, ltb, leb, ◌==◌, if◌then◌else◌,
}
use octo_base.Base.Result.{Result, ok, err}

-- `Range<u64>`
pub record Range : Type 0 where
  pub start : ℕ
  pub end : ℕ

pub data OrderRange : Type 0 where
  range : Range → OrderRange
  fragment : List Range → OrderRange

abbrev pub empty_range : Range
empty_range = record { start = 0; end = 0 }

unfoldable pub is_continuous_range : Range → Range → Bool
is_continuous_range lhs rhs = leb rhs.start lhs.end && leb lhs.start rhs.end

-- `Range::contains` and `Range::is_empty` of the standard library
unfoldable pub in_range : Range → ℕ → Bool
in_range r clock = leb r.start clock && ltb clock r.end

unfoldable pub is_empty_range : Range → Bool
is_empty_range r = not (ltb r.start r.end)

unfoldable pub any_contains : List Range → ℕ → Bool
any_contains [] clock = false
any_contains (r ∷ rs) clock = in_range r clock || any_contains rs clock

abbrev is_nil : List Range → Bool
is_nil [] = true
is_nil (r ∷ rs) = false

unfoldable pub ranges_len : OrderRange → ℕ
ranges_len (range r) = 1
ranges_len (fragment rs) = length rs

unfoldable pub is_empty : OrderRange → Bool
unfolding is_empty_range
is_empty (range r) = is_empty_range r
is_empty (fragment rs) = is_nil rs

unfoldable pub contains : OrderRange → ℕ → Bool
contains (range r) clock = in_range r clock
contains (fragment rs) clock = any_contains rs clock

-- `a.start.min(b.start)..a.end.max(b.end)`
abbrev pub hull : Range → Range → Range
hull a b = record { start = min a.start b.start; end = max a.end b.end }

-- `VecDeque::binary_search_by` of the standard library. Which of several equal elements it finds
-- is not specified, and its layout is not modelled: it is a parameter with its documented answers.
pub record BinarySearch : Type 0 where
  pub search : List Range → (Range → Ordering) → Result ℕ ℕ
  pub search_found :
      (l : List Range) (f : Range → Ordering) {i : ℕ}
      → search l f ≡ ok i
      → (r : Range) × (get_elem? l i ≡ some r) × (f r ≡ Ordering.eq)
  pub search_missing :
      (l : List Range) (f : Range → Ordering) {i : ℕ} → search l f ≡ err i → i ≤ length l

-- `VecDeque::remove` and `VecDeque::insert`; the latter panics past the end.
unfoldable pub remove_at : List Range → ℕ → List Range
remove_at [] i = []
remove_at (r ∷ rs) zero = rs
remove_at (r ∷ rs) (suc i) = r ∷ remove_at rs i

unfoldable pub insert_at : List Range → ℕ → Range → Option (List Range)
insert_at rs zero r = some (r ∷ rs)
insert_at [] (suc i) r = none
insert_at (q ∷ rs) (suc i) r = elim (insert_at rs i r) [ none ↦ none | some l ↦ some (q ∷ l) ]

infixl 5 ◌>>=◌
abbrev pub ◌>>=◌ : {A B : Type 0} → Option A → (A → Option B) → Option B
none >>= f = none
some a >>= f = f a

-- The first half of `squash_around`: with the range before `idx`.
unfoldable pub squash_prev : List Range → ℕ → Option (List Range)
squash_prev l zero = some l
squash_prev l (suc idx) = do
  prev ← get_elem? l idx
  cur ← get_elem? l (suc idx)
  some (if is_continuous_range prev cur then remove_at (set l idx (hull prev cur)) (suc idx) else l)

-- The second half: with the range after `idx`.
unfoldable pub squash_next : List Range → ℕ → Option (List Range)
squash_next l idx =
    let squashed : Option (List Range) = do
      next ← get_elem? l (suc idx)
      cur ← get_elem? l idx
      some (
          if is_continuous_range cur next
          then remove_at (set l idx (hull cur next)) (suc idx)
          else l)
    in if ltb idx (length l - 1) then squashed else some l

unfoldable pub squash_around : List Range → ℕ → Option (List Range)
unfolding squash_prev squash_next
squash_around l idx = do l' ← squash_prev l idx; squash_next l' idx

-- The comparison that `push_inner` searches by.
unfoldable pub locate : Range → Range → Ordering
locate r old =
    if is_continuous_range old r
    then Ordering.eq
    else if ltb old.end r.start
    then Ordering.lt
    else Ordering.gt

unfoldable pub make_fragment : OrderRange → List Range
make_fragment (range r) = if is_empty_range r then [] else r ∷ []
make_fragment (fragment rs) = rs

unfoldable pub make_single : List Range → OrderRange
make_single [] = fragment []
make_single (r ∷ []) = range r
make_single (r ∷ q ∷ rs) = fragment (r ∷ q ∷ rs)

unfoldable pub pop : OrderRange → Option Range × OrderRange
pop (range r) = if is_empty_range r then (none, range r) else (some r, range empty_range)
pop (fragment []) = (none, fragment [])
pop (fragment (r ∷ rs)) = (some r, fragment rs)

-- The loop of `squash`: the merged ranges, and whether any two were merged.
unfoldable pub squash_loop : Range → Bool → List Range → List Range → List Range × Bool
squash_loop cur changed merged [] = (merged ++ cur ∷ [], changed)
squash_loop cur changed merged (next ∷ rs) =
    let joined = squash_loop (hull cur next) true merged rs in
    let split = squash_loop next changed (merged ++ cur ∷ []) rs in
    if is_continuous_range cur next then joined else split

abbrev squash_result : List Range → List Range × Bool → OrderRange
squash_result rs ([], changed) = fragment rs
squash_result rs (r ∷ [], changed) = range r
squash_result rs (r ∷ q ∷ merged, changed) =
    if changed then fragment (r ∷ q ∷ merged) else fragment rs

unfoldable pub squash : OrderRange → OrderRange
squash (range r) = range r
squash (fragment []) = range empty_range
squash (fragment (r ∷ rs)) = squash_result (r ∷ rs) (squash_loop r false [] rs)

module _ ⦃b : BinarySearch⦄ where
  -- What `push_inner` does with the answer of the search.
  unfoldable pub push_at : List Range → Range → Result ℕ ℕ → Option (List Range)
  push_at l r (ok idx) = do old ← get_elem? l idx; squash_around (set l idx (hull old r)) idx
  push_at l r (err idx) = do l' ← insert_at l idx r; squash_around l' idx

  unfoldable pub push_inner : List Range → Range → Option (List Range)
  push_inner [] r = some (r ∷ [])
  push_inner (q ∷ rs) r = push_at (q ∷ rs) r (b.search (q ∷ rs) (locate r))

  unfoldable pub push : OrderRange → Range → Option OrderRange
  push (range old) r =
      if old.start == old.end
      then some (range r)
      else if is_continuous_range old r
      then some (range (hull old r))
      else if ltb old.start r.start
      then some (fragment (old ∷ r ∷ []))
      else some (fragment (r ∷ old ∷ []))
  push (fragment []) r = some (range r)
  push (fragment (q ∷ rs)) r = do l ← push_inner (q ∷ rs) r; some (make_single l)

  -- `for range in other { push_inner(ranges, range) }`
  unfoldable pub push_all : List Range → List Range → Option (List Range)
  push_all l [] = some l
  push_all l (r ∷ rs) = do l' ← push_inner l r; push_all l' rs

  -- `Extend::extend`
  unfoldable pub extend : OrderRange → List Range → Option OrderRange
  extend self other = do l ← push_all (make_fragment self) other; some (make_single l)

-- The iterator of `OrderRange`, collected.
unfoldable pub ranges : OrderRange → List Range
ranges (range r) = r ∷ []
ranges (fragment rs) = rs

module _ ⦃b : BinarySearch⦄ where
  unfoldable pub merge : OrderRange → OrderRange → Option OrderRange
  merge self other = extend self (ranges other)

-- `OrderRangeIter`: the set and the index of the next range.
pub record OrderRangeIter : Type 0 where
  pub range : OrderRange
  pub idx : ℕ

abbrev found_at : OrderRangeIter → Option Range → Option Range × OrderRangeIter
found_at self none = (none, self)
found_at self (some r) = (some r, record self { idx = suc self.idx })

unfoldable pub next_of : OrderRangeIter → OrderRange → Option Range × OrderRangeIter
next_of self (OrderRange.range r) = if self.idx == 0 then found_at self (some r) else (none, self)
next_of self (fragment rs) = found_at self (get_elem? rs self.idx)

unfoldable pub next : OrderRangeIter → Option Range × OrderRangeIter
unfolding next_of
next self = next_of self self.range
