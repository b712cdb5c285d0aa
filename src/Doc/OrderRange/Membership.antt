-- ===== src/Doc/OrderRange/Membership.antt =====
-- Which clocks a set holds after `push`, `extend`, `merge` and `pop`; none of them panics.
use Prim.Native.Nat.{Ordering}
use octo_base.Base.{
  ℕ, zero, suc, ◌-◌, ◌≤◌, ◌<◌, ◌≡◌, refl, ◌∙◌, ap, true, ◌||◌, some, List, [], ◌∷◌, length,
  get_elem?, set, arith, ltb, ltb→lt, ◌==◌, if◌then◌else◌, inl, inr, Bool-cases,
}
use octo_base.Base.Result.{Result, ok, err}
use octo_base.Doc.OrderRange.{
  Range, OrderRange, range, fragment, is_continuous_range, in_range, is_empty_range, any_contains,
  contains, hull, BinarySearch, remove_at, insert_at, squash_prev, squash_next, squash_around,
  locate, make_fragment, make_single, push_at, push_inner, push, push_all, extend, ranges, merge,
}

-- A continuous pair leaves no gap: the hull holds what one of the two holds.
pub in_range-hull :
    (a b : Range) (clock : ℕ)
    → is_continuous_range a b ≡ true
    → in_range (hull a b) clock ≡ (in_range a clock || in_range b clock)
unfolding in_range is_continuous_range
in_range-hull a b clock h = ground arith

any_contains-merge :
    (l : List Range) (i : ℕ) (a b : Range) (clock : ℕ)
    → get_elem? l i ≡ some a
    → get_elem? l (suc i) ≡ some b
    → is_continuous_range a b ≡ true
    → any_contains (remove_at (set l i (hull a b)) (suc i)) clock ≡ any_contains l clock
unfolding any_contains remove_at
any_contains-merge [] i a b clock ea eb h = cc
any_contains-merge (r ∷ []) zero a b clock ea eb h = cc
any_contains-merge (r ∷ q ∷ rs) zero a b clock ea eb h = ground (arith, in_range-hull a b clock h)
any_contains-merge (r ∷ rs) (suc i) a b clock ea eb h =
    ap (λ t. in_range r clock || t) (any_contains-merge rs i a b clock ea eb h)

any_contains-set :
    (l : List Range) (i : ℕ) (a r : Range) (clock : ℕ)
    → get_elem? l i ≡ some a
    → is_continuous_range a r ≡ true
    → any_contains (set l i (hull a r)) clock ≡ (any_contains l clock || in_range r clock)
unfolding any_contains
any_contains-set [] i a r clock ea h = cc
any_contains-set (q ∷ rs) zero a r clock ea h = ground (arith, in_range-hull a r clock h)
any_contains-set (q ∷ rs) (suc i) a r clock ea h =
    ground (arith, any_contains-set rs i a r clock ea h)

-- `l'` holds what `l` holds and what `r` holds.
abbrev pub Adds : List Range → Range → List Range → Type 0
Adds l r l' = (clock : ℕ) → any_contains l' clock ≡ (any_contains l clock || in_range r clock)

abbrev pub SameClocks : List Range → List Range → Type 0
SameClocks l l' = (clock : ℕ) → any_contains l' clock ≡ any_contains l clock

get_elem?-below : (l : List Range) (i : ℕ) → i < length l → (r : Range) × (get_elem? l i ≡ some r)
get_elem?-below [] i h = absurd (omega arith)
get_elem?-below (r ∷ rs) zero h = (r, refl)
get_elem?-below (r ∷ rs) (suc i) h = get_elem?-below rs i (omega arith)

-- What both halves of `squash_around` do with two neighbours.
joined : List Range → ℕ → Range → Range → List Range
joined l idx a b = if is_continuous_range a b then remove_at (set l idx (hull a b)) (suc idx) else l

joined-SameClocks :
    (l : List Range) (idx : ℕ) (a b : Range)
    → get_elem? l idx ≡ some a
    → get_elem? l (suc idx) ≡ some b
    → SameClocks l (joined l idx a b)
unfolding joined
joined-SameClocks l idx a b ea eb clock = elim (Bool-cases (is_continuous_range a b)) [
  | inl near ↦ rw near (any_contains-merge l idx a b clock ea eb near)
  | inr apart ↦ rw apart
]

squash_prev_total :
    (l : List Range) (idx : ℕ)
    → idx < length l
    → (l' : List Range) × (squash_prev l idx ≡ some l') × SameClocks l l'
unfolding squash_prev joined
squash_prev_total l zero h = (l, refl, λ clock. refl)
squash_prev_total l (suc idx) h =
    let (a, ea) = get_elem?-below l idx (omega arith) in
    let (b, eb) = get_elem?-below l (suc idx) h in
    (joined l idx a b, rw (ea, eb), joined-SameClocks l idx a b ea eb)

squash_next_total :
    (l : List Range) (idx : ℕ) → (l' : List Range) × (squash_next l idx ≡ some l') × SameClocks l l'
unfolding squash_next joined
squash_next_total l idx = elim (Bool-cases (ltb idx (length l - 1))) [
  | inr past ↦ (l, rw past, λ clock. refl)
  | inl below ↦
      let room : suc idx < length l = omega (arith, ltb→lt idx (length l - 1) below) in
      let (a, ea) = get_elem?-below l idx (omega arith) in
      let (b, eb) = get_elem?-below l (suc idx) room in
      (joined l idx a b, rw (below, ea, eb), joined-SameClocks l idx a b ea eb)
]

squash_around_total :
    (l : List Range) (idx : ℕ)
    → idx < length l
    → (l' : List Range) × (squash_around l idx ≡ some l') × SameClocks l l'
unfolding squash_around
squash_around_total l idx h =
    let (l₁, e₁, same₁) = squash_prev_total l idx h in
    let (l₂, e₂, same₂) = squash_next_total l₁ idx in
    (l₂, rw (e₁, e₂), λ clock. same₂ clock ∙ same₁ clock)

insert_at_total :
    (l : List Range) (idx : ℕ) (r : Range)
    → idx ≤ length l
    → (l' : List Range) × (insert_at l idx r ≡ some l') × (idx < length l') × Adds l r l'
unfolding insert_at any_contains
insert_at_total l zero r h = (r ∷ l, refl, omega arith, λ clock. ground arith)
insert_at_total [] (suc idx) r h = absurd (omega arith)
insert_at_total (q ∷ rs) (suc idx) r h =
    let (l', e, lt, adds) = insert_at_total rs idx r (omega arith) in
    (q ∷ l', rw e, omega arith, λ clock. ground (arith, adds clock))

length-set : (l : List Range) (i : ℕ) (r : Range) → length (set l i r) ≡ length l
length-set [] i r = refl
length-set (q ∷ rs) zero r = refl
length-set (q ∷ rs) (suc i) r = ap suc (length-set rs i r)

below-get_elem? : (l : List Range) (i : ℕ) {r : Range} → get_elem? l i ≡ some r → i < length l
below-get_elem? [] i e = cc
below-get_elem? (q ∷ rs) zero e = omega arith
below-get_elem? (q ∷ rs) (suc i) e = omega (arith, below-get_elem? rs i e)

locate-eq : (r old : Range) → locate r old ≡ Ordering.eq → is_continuous_range old r ≡ true
unfolding locate
locate-eq r old h = ground arith

module _ ⦃b : BinarySearch⦄ where
  push_at_total :
      (l : List Range) (r : Range) (answer : Result ℕ ℕ)
      → b.search l (locate r) ≡ answer
      → (l' : List Range) × (push_at l r answer ≡ some l') × Adds l r l'
  unfolding push_at
  push_at_total l r (ok idx) e =
      let (old, eo, same) = b.search_found l (locate r) e in
      let near = locate-eq r old same in
      let inside : idx < length (set l idx (hull old r)) =
        omega (arith, length-set l idx (hull old r), below-get_elem? l idx eo) in
      let (l', es, keeps) = squash_around_total (set l idx (hull old r)) idx inside in
      (l', rw (eo, es), λ clock. keeps clock ∙ any_contains-set l idx old r clock eo near)
  push_at_total l r (err idx) e =
      let (l₁, e₁, inside, adds) = insert_at_total l idx r (b.search_missing l (locate r) e) in
      let (l₂, e₂, keeps) = squash_around_total l₁ idx inside in
      (l₂, rw (e₁, e₂), λ clock. keeps clock ∙ adds clock)

  -- On any list of ranges `push_inner` returns, and what it returns holds the clocks of the list
  -- and those of the range, and no others.
  pub push_inner_total :
      (l : List Range) (r : Range) → (l' : List Range) × (push_inner l r ≡ some l') × Adds l r l'
  unfolding push_inner any_contains
  push_inner_total [] r = (r ∷ [], refl, λ clock. ground arith)
  push_inner_total (q ∷ rs) r = push_at_total (q ∷ rs) r (b.search (q ∷ rs) (locate r)) refl

  contains-make_single :
      (l : List Range) (clock : ℕ) → contains (make_single l) clock ≡ any_contains l clock
  unfolding contains make_single any_contains
  contains-make_single [] clock = refl
  contains-make_single (r ∷ []) clock = ground arith
  contains-make_single (r ∷ q ∷ rs) clock = refl

  -- `push` returns on every set of ranges, and the new set holds a clock exactly when the old one
  -- does or the range does.
  pub push_total :
      (self : OrderRange) (r : Range)
      → (next : OrderRange) × (push self r ≡ some next)
        × ((clock : ℕ) → contains next clock ≡ (contains self clock || in_range r clock))
  unfolding push contains any_contains
  push_total (range old) r = elim (Bool-cases (old.start == old.end)) [
    | inl same ↦ (range r, rw same, λ clock. unfold in_range in ground arith)
    | inr other ↦ elim (Bool-cases (is_continuous_range old r)) [
      | inl near ↦ (range (hull old r), rw (other, near), λ clock. in_range-hull old r clock near)
      | inr apart ↦ elim (Bool-cases (ltb old.start r.start)) [
        | inl before ↦ (fragment (old ∷ r ∷ []), rw (other, apart, before), λ clock. ground arith)
        | inr after ↦ (fragment (r ∷ old ∷ []), rw (other, apart, after), λ clock. ground arith)
      ]
    ]
  ]
  push_total (fragment []) r = (range r, refl, λ clock. refl)
  push_total (fragment (q ∷ rs)) r =
      let (l, e, adds) = push_inner_total (q ∷ rs) r in
      (make_single l, rw e, λ clock. contains-make_single l clock ∙ adds clock)

  push_all_total :
      (other l : List Range)
      → (l' : List Range) × (push_all l other ≡ some l')
        × ((clock : ℕ) → any_contains l' clock ≡ (any_contains l clock || any_contains other clock))
  unfolding push_all any_contains
  push_all_total [] l = (l, refl, λ clock. ground arith)
  push_all_total (r ∷ rs) l =
      let (l₁, e₁, adds) = push_inner_total l r in
      let (l₂, e₂, all) = push_all_total rs l₁ in
      (l₂, rw (e₁, e₂), λ clock. ground (arith, adds clock, all clock))

  any_contains-make_fragment :
      (self : OrderRange) (clock : ℕ)
      → any_contains (make_fragment self) clock ≡ contains self clock
  unfolding make_fragment any_contains contains is_empty_range in_range
  any_contains-make_fragment (range r) clock = ground arith
  any_contains-make_fragment (fragment rs) clock = refl

  -- `extend` returns, and adds the clocks of all the ranges that it is given.
  pub extend_total :
      (self : OrderRange) (other : List Range)
      → (next : OrderRange) × (extend self other ≡ some next)
        × ((clock : ℕ) → contains next clock ≡ (contains self clock || any_contains other clock))
  unfolding extend
  extend_total self other =
      let (l, e, all) = push_all_total other (make_fragment self) in
      (
        make_single l,
        rw e,
        λ clock.
            contains-make_single l clock ∙ rw (all clock, any_contains-make_fragment self clock),
      )

  any_contains-ranges :
      (self : OrderRange) (clock : ℕ) → any_contains (ranges self) clock ≡ contains self clock
  unfolding ranges any_contains contains
  any_contains-ranges (range r) clock = ground arith
  any_contains-ranges (fragment rs) clock = refl

  -- `merge` returns on any two sets, and the result holds a clock exactly when one of them does.
  pub merge_total :
      (self other : OrderRange)
      → (next : OrderRange) × (merge self other ≡ some next)
        × ((clock : ℕ) → contains next clock ≡ (contains self clock || contains other clock))
  unfolding merge
  merge_total self other =
      let (next, e, all) = extend_total self (ranges other) in
      (next, e, λ clock. rw (all clock, any_contains-ranges other clock))
