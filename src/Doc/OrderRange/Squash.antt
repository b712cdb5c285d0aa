-- ===== src/Doc/OrderRange/Squash.antt =====
-- `squash` and `pop`: the clocks they keep, and the order of what `squash` leaves.
use octo_base.Base.{
  ℕ, suc, ◌≤◌, min, ◌≡◌, ◌≢◌, refl, ◌∙◌, Bool, true, false, ◌||◌, none, some, List, [], ◌∷◌, ◌++◌,
  append_assoc, arith, ltb, if◌then◌else◌, ◌⊎◌, inl, inr, Bool-cases,
}
use mathlib.Core.Path.{subst}
use octo_base.Doc.OrderRange.{
  Range, OrderRange, range, fragment, empty_range, is_continuous_range, in_range, is_empty_range,
  any_contains, contains, hull, squash_loop, squash, squash_result, pop, is_empty,
}
use octo_base.Doc.OrderRange.Membership.{in_range-hull}

-- The loop of `squash` without its accumulators.
squash_from : Range → List Range → List Range
squash_from cur [] = cur ∷ []
squash_from cur (next ∷ rs) =
    let joined = squash_from (hull cur next) rs in
    let split = squash_from next rs in if is_continuous_range cur next then joined else cur ∷ split

squash_loop-squash_from :
    (rs : List Range) (cur : Range) (changed : Bool) (merged : List Range)
    → (squash_loop cur changed merged rs).0 ≡ merged ++ squash_from cur rs
unfolding squash_loop squash_from
squash_loop-squash_from [] cur changed merged = refl
squash_loop-squash_from (next ∷ rs) cur changed merged =
    elim (Bool-cases (is_continuous_range cur next)) [
      | inl near ↦ rw near (squash_loop-squash_from rs (hull cur next) true merged)
      | inr apart ↦
          rw (apart, squash_loop-squash_from rs next changed (merged ++ cur ∷ []))
            (append_assoc merged (cur ∷ []) (squash_from next rs))
    ]

any_contains-squash_from :
    (rs : List Range) (cur : Range) (clock : ℕ)
    → any_contains (squash_from cur rs) clock ≡ (in_range cur clock || any_contains rs clock)
unfolding squash_from any_contains
any_contains-squash_from [] cur clock = refl
any_contains-squash_from (next ∷ rs) cur clock = ground (
  arith,
  in_range-hull cur next clock,
  any_contains-squash_from rs (hull cur next) clock,
  any_contains-squash_from rs next clock,
)

squash_loop_changed :
    (rs : List Range) (cur : Range) (merged : List Range)
    → (squash_loop cur true merged rs).1 ≡ true
unfolding squash_loop
squash_loop_changed [] cur merged = refl
squash_loop_changed (next ∷ rs) cur merged = elim (Bool-cases (is_continuous_range cur next)) [
  | inl near ↦ rw near (squash_loop_changed rs (hull cur next) merged)
  | inr apart ↦ rw apart (squash_loop_changed rs next (merged ++ cur ∷ []))
]

-- A loop that merged nothing gives the ranges as they were.
squash_loop_unchanged :
    (rs : List Range) (cur : Range) (merged : List Range)
    → (squash_loop cur false merged rs).1 ≡ false
    → (squash_loop cur false merged rs).0 ≡ merged ++ cur ∷ rs
unfolding squash_loop
squash_loop_unchanged [] cur merged h = refl
squash_loop_unchanged (next ∷ rs) cur merged h = elim (Bool-cases (is_continuous_range cur next)) [
  | inl near ↦
      let h' : (squash_loop (hull cur next) true merged rs).1 ≡ false = rw near at h in
      cc (squash_loop_changed rs (hull cur next) merged, h')
  | inr apart ↦ rw apart (
      squash_loop_unchanged rs next (merged ++ cur ∷ []) (rw apart at h)
      ∙ append_assoc merged (cur ∷ []) (next ∷ rs))
]

contains-squash_result :
    (rs : List Range) (found : List Range × Bool) (clock : ℕ)
    → any_contains found.0 clock ≡ any_contains rs clock
    → contains (squash_result rs found) clock ≡ any_contains rs clock
unfolding contains any_contains
contains-squash_result rs ([], changed) clock h = refl
contains-squash_result rs (r ∷ [], changed) clock h = ground arith
contains-squash_result rs (r ∷ q ∷ merged, true) clock h = h
contains-squash_result rs (r ∷ q ∷ merged, false) clock h = refl

-- `squash` keeps the clocks of a set.
pub contains-squash :
    (self : OrderRange) (clock : ℕ) → contains (squash self) clock ≡ contains self clock
unfolding squash contains any_contains in_range
contains-squash (range r) clock = refl
contains-squash (fragment []) clock = ground arith
contains-squash (fragment (r ∷ rs)) clock =
    unfold in_range in
    contains-squash_result (r ∷ rs) (squash_loop r false [] rs) clock
      (rw (squash_loop-squash_from rs r false []) (any_contains-squash_from rs r clock))

-- The ranges begin at `start` or later, in the order of their starts, and none ends before it starts.
abbrev pub StartsFrom : ℕ → List Range → Type 0
StartsFrom s [] = Unit {0}
StartsFrom s (r ∷ rs) = (s ≤ r.start) × (r.start ≤ r.end) × StartsFrom r.start rs

-- Each range begins past the end of the one before it, the first at `e` or later.
abbrev pub IsApartFrom : ℕ → List Range → Type 0
IsApartFrom e [] = Unit {0}
IsApartFrom e (r ∷ rs) = (e ≤ r.start) × IsApartFrom (suc r.end) rs

abbrev pub IsApart : OrderRange → Type 0
IsApart (range r) = Unit {0}
IsApart (fragment rs) = IsApartFrom 0 rs

StartsFrom-mono : (rs : List Range) (s t : ℕ) → t ≤ s → StartsFrom s rs → StartsFrom t rs
StartsFrom-mono [] s t le h = tt
StartsFrom-mono (r ∷ rs) s t le (a, b, h) = (omega arith, b, h)

squash_from-IsApartFrom :
    (rs : List Range) (cur : Range) (e : ℕ)
    → e ≤ cur.start
    → cur.start ≤ cur.end
    → StartsFrom cur.start rs
    → IsApartFrom e (squash_from cur rs)
unfolding squash_from
squash_from-IsApartFrom [] cur e lt le h = (lt, tt)
squash_from-IsApartFrom (next ∷ rs) cur e lt le (a, b, h) =
    elim (Bool-cases (is_continuous_range cur next)) [
      | inl near ↦ rw near (
          squash_from-IsApartFrom rs (hull cur next) e (omega arith) (omega arith)
            (StartsFrom-mono rs next.start (min cur.start next.start) (omega arith) h))
      | inr apart ↦ rw apart (lt, squash_from-IsApartFrom rs next (suc cur.end) (gap apart) b h)
    ]
  where
    gap : is_continuous_range cur next ≡ false → suc cur.end ≤ next.start
    gap apart = unfold is_continuous_range in ground arith

squash_result-IsApart :
    (rs : List Range) (found : List Range × Bool)
    → IsApartFrom 0 found.0
    → (found.1 ≡ false → found.0 ≡ rs)
    → found.0 ≢ []
    → IsApart (squash_result rs found)
squash_result-IsApart rs ([], changed) h same ne = absurd (ne refl)
squash_result-IsApart rs (r ∷ [], changed) h same ne = tt
squash_result-IsApart rs (r ∷ q ∷ merged, true) h same ne = h
squash_result-IsApart rs (r ∷ q ∷ merged, false) h same ne = subst (IsApartFrom 0) (same refl) h

squash_from-ne-nil : (rs : List Range) (cur : Range) → squash_from cur rs ≢ []
unfolding squash_from
squash_from-ne-nil [] cur = λ e. cc
squash_from-ne-nil (next ∷ rs) cur = elim (Bool-cases (is_continuous_range cur next)) [
  | inl near ↦ rw near (squash_from-ne-nil rs (hull cur next))
  | inr apart ↦ rw apart (λ e. cc)
]

-- After `squash` of ranges in the order of their starts, none of which ends before it starts, each
-- range begins past the end of the one before it: no two overlap or touch.
pub squash-IsApart : (rs : List Range) → StartsFrom 0 rs → IsApart (squash (fragment rs))
unfolding squash
squash-IsApart [] h = tt
squash-IsApart (r ∷ rs) (lo, le, h) =
    squash_result-IsApart (r ∷ rs) (squash_loop r false [] rs)
      (rw (squash_loop-squash_from rs r false []) (squash_from-IsApartFrom rs r 0 lo le h))
      (squash_loop_unchanged rs r [])
      (rw (squash_loop-squash_from rs r false []) (squash_from-ne-nil rs r))

-- `pop` hands out the first range: what is held before is what the range or the set after it
-- holds, and `none` is the answer exactly for an empty set, which stays as it is.
pub pop_lem :
    (self : OrderRange)
    → ((pop self ≡ (none, self)) × (is_empty self ≡ true))
      ⊎ ((r : Range) × (next : OrderRange) × (pop self ≡ (some r, next))
          × (is_empty self ≡ false)
          × ((clock : ℕ) → contains self clock ≡ (in_range r clock || contains next clock)))
unfolding pop is_empty contains any_contains is_empty_range
pop_lem (range r) = elim (Bool-cases (ltb r.start r.end)) [
  | inl some_clock ↦
      inr (
        r,
        range empty_range,
        rw some_clock,
        rw some_clock,
        λ clock. unfold in_range in ground arith,
      )
  | inr no_clock ↦ inl (rw no_clock, rw no_clock)
]
pop_lem (fragment []) = inl (refl, refl)
pop_lem (fragment (r ∷ rs)) = inr (r, fragment rs, refl, refl, λ clock. refl)
