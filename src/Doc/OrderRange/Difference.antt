-- ===== src/Doc/OrderRange/Difference.antt =====
-- `check_range_covered` and `diff_range` of libs/jwst-codec/src/doc/common/range.rs.
use octo_base.Base.{ℕ, Bool, true, false, ◌||◌, List, [], ◌∷◌, ◌++◌, ltb, leb, if◌then◌else◌}
use octo_base.Doc.OrderRange.{Range, OrderRange, ranges}

-- The inner loop: the old ranges from the first on that the new one does not cover.
unfoldable pub after_covered : Range → List Range → List Range
after_covered new_range [] = []
after_covered new_range (old_range ∷ old) =
    let later = after_covered new_range old in
    if ltb old_range.start new_range.start || ltb new_range.end old_range.end
    then old_range ∷ old
    else later

-- An old range that is not covered is left to the next new one.
abbrev pub next_covered : List Range → List Range → Bool → Bool
next_covered [] new later = true
next_covered (old_range ∷ old) [] later = false
next_covered (old_range ∷ old) (new_range ∷ new) later = later

unfoldable pub check_range_covered : List Range → List Range → Bool
unfolding after_covered
check_range_covered old [] = true
check_range_covered old (new_range ∷ new) =
    let rest = after_covered new_range old in next_covered rest new (check_range_covered rest new)

-- The old ranges that begin at the end of the new one or before, and those behind.
unfoldable pub overlapping : Range → List Range → List Range × List Range
overlapping new_range [] = ([], [])
overlapping new_range (old_range ∷ old) =
    let (overlap, rest) = overlapping new_range old in
    if leb old_range.start new_range.end then (old_range ∷ overlap, rest) else ([], old_range ∷ old)

-- A range that is pushed unless it is empty.
abbrev pub range_between : ℕ → ℕ → List Range
range_between start end = if ltb start end then record { start = start; end = end } ∷ [] else []

-- What is missing between the overlapping ranges and up to the end.
unfoldable pub missing_from : ℕ → ℕ → List Range → List Range
missing_from last_end end [] = range_between last_end end
missing_from last_end end (overlap ∷ rest) =
    range_between last_end overlap.start ++ missing_from overlap.end end rest

unfoldable pub missing_of : Range → List Range → List Range
unfolding missing_from
missing_of new_range [] = new_range ∷ []
missing_of new_range (overlap ∷ rest) =
    range_between new_range.start overlap.start
    ++ missing_from overlap.start new_range.end (overlap ∷ rest)

unfoldable pub diff_ranges : List Range → List Range → List Range
unfolding overlapping missing_of
diff_ranges old [] = []
diff_ranges old (new_range ∷ new) =
    let (overlap, rest) = overlapping new_range old in
    missing_of new_range overlap ++ diff_ranges rest new

unfoldable pub diff_range : OrderRange → OrderRange → List Range
unfolding check_range_covered diff_ranges
diff_range self new_range =
    let diffs = diff_ranges (ranges self) (ranges new_range) in
    if check_range_covered (ranges self) (ranges new_range) then diffs else []
