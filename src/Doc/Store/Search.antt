-- ===== src/Doc/Store/Search.antt =====
-- The binary search of `get_node_index`.
use octo_base.Base.{
  ℕ, zero, suc, ◌+◌, ◌-◌, ◌*◌, ◌/◌, ◌%◌, ◌^◌, ◌≤◌, ◌<◌, ◌≡◌, refl, sym, ap, ◌∙◌, true, false,
  Option, none, some, List, [], ◌∷◌, length, get_elem?, leb, ltb, ◌==◌, Bool-cases, inl, inr,
  ==_iff, arith, ltb→lt, leb→le,
}
use native.Mathlib.Nat.{div-eq_of_lt, div_self, div-le_self, le-div_iff_mul-le, mul-le-mul_right}
use octo_base.Base.Result.{ok, err}
use octo_base.Doc.Error.{JwstCodecResult, panicked}
use octo_base.Doc.Node.{Node, clock}
use octo_base.Doc.Store.{
  back, end_clock, search_round, search_loop, first_guess, search_from, get_node_index, end_of_last,
}
use octo_base.Doc.Store.Clocks.{IsSequence, end_of, end_of_last-IsSequence}
use octo_base.Doc.Store.Order.{
  get_elem-IsSequence, get_elem-order, Covers, Covers-exists, get_elem-back, get_elem-length,
  get_elem-lt, Covers-after, Covers-before,
}

-- The result is the index of a node that has the clock.
abbrev pub Finds : List Node → ℕ → Option (JwstCodecResult (Option ℕ)) → Type 0
Finds ns at result = (i : ℕ) × (result ≡ some (ok (some i))) × Covers ns at i

leb-true : (a b : ℕ) → a ≤ b → leb a b ≡ true
leb-true a b le = ground arith

search_loop-Finds :
    (fuel : ℕ) (ns : List Node) (start at left right middle k : ℕ)
    → IsSequence start ns
    → length ns < 2 ^ 63
    → Covers ns at k
    → left ≤ k
    → k ≤ right
    → left ≤ middle
    → middle ≤ right
    → right < length ns
    → right - left < fuel
    → Finds ns at (search_loop fuel ns at left right middle)
unfolding search_loop search_round
search_loop-Finds zero ns start at left right middle k h small cov lk kr lm mr rl enough =
    absurd (omega arith)
search_loop-Finds (suc fuel) ns start at left right middle k h small (n, e, low, high) lk kr lm mr
      rl enough =
    let m = get_elem-length ns middle (omega arith) in
    let within = get_elem-IsSequence ns start middle m.0 h m.1 in
    rw (leb-true left right (omega arith), m.1)
      (elim (Bool-cases (leb (clock m.0) at)) [
        | inl reached ↦ elim (Bool-cases (ltb at (end_clock m.0))) [
          | inl here ↦ (
            middle,
            rw (reached, here) refl,
            (m.0, m.1, leb→le _ _ reached, rw within.2 at (ltb→lt _ _ here)),
          )
          | inr above ↦
              let after =
                Covers-after ns start at middle k m.0 h m.1 (n, e, low, high)
                  (rw within.2 at (ge_of _ _ above)) in
              rw (reached, above)
                (search_loop-Finds fuel ns start at (middle + 1) right
                  ((middle + 1 + right) % 2 ^ 64 / 2) k h small (n, e, low, high)
                  (omega (arith, after)) kr (omega (arith, after)) (omega (arith, after)) rl
                  (omega (arith, after)))
        ]
        | inr below ↦
            let before =
              Covers-before ns start at middle k m.0 h m.1 (n, e, low, high)
                (ground (arith, below)) in
            rw below (
              search_loop-Finds fuel ns start at left ((middle + 2 ^ 64 - 1) % 2 ^ 64)
                ((left + (middle + 2 ^ 64 - 1) % 2 ^ 64) % 2 ^ 64 / 2) k h small (n, e, low, high)
                lk (omega (arith, before)) (omega (arith, before)) (omega (arith, before))
                (omega (arith, before)) (omega (arith, before)))
      ])
  where
    ge_of : (a b : ℕ) → ltb a b ≡ false → b ≤ a
    ge_of a b h = ground arith

-- The guess of a clock up to the last one is the first index or the last one.
guess-le :
    (at last right : ℕ) → 0 < last → at ≤ last → right < 2 ^ 63 → at / last * right % 2 ^ 64 ≤ right
guess-le at last right pos le small = elim (Bool-cases (ltb at last)) [
  | inl below ↦ rw (div-eq_of_lt (ltb→lt at last below)) (omega arith)
  | inr above ↦
      let same : at ≡ last = ground (arith, above) in rw (same, div_self pos) (omega (arith, small))
]

search_from-Finds :
    (ns : List Node) (start at k right : ℕ) (last : Node)
    → IsSequence start ns
    → length ns ≡ suc right
    → length ns < 2 ^ 63
    → Covers ns at k
    → get_elem? ns right ≡ some last
    → at < end_clock last
    → Finds ns at (search_from ns at (some last))
unfolding search_from first_guess
search_from-Finds ns start at k right last h len small cov e high =
    let within = get_elem-IsSequence ns start right last h e in
    let ends : end_clock last < 2 ^ 64 = unfold end_clock in omega arith in
    let index : length ns - 1 ≡ right = omega (arith, len) in
    elim (Bool-cases (clock last == at)) [
      | inl same ↦
          rw (index, same)
            (
              right,
              refl,
              (
                last,
                e,
                ground (arith, (==_iff _ _).0 same),
                omega (arith, (==_iff _ _).0 same, within),
              ),
            )
      | inr other ↦
          let last_clock : (end_clock last + 2 ^ 64 - 1) % 2 ^ 64 ≡ end_clock last - 1 =
            omega (arith, high, ends) in
          let pos : 0 < end_clock last - 1 = ground (arith, other, within, high) in
          let nonzero : (end_clock last - 1 == 0) ≡ false = ground (arith, pos) in
          rw (index, other, last_clock, nonzero, index)
            (search_loop-Finds (length ns + 2) ns start at 0 right
              (at / (end_clock last - 1) * right % 2 ^ 64) k h small cov (omega arith)
              (omega (arith, len, get_elem-lt ns k cov.0 cov.1)) (omega arith)
              (guess-le at (end_clock last - 1) right pos (omega (arith, high))
                (omega (arith, len, small)))
              (omega (arith, len)) (omega (arith, len)))
    ]

-- A clock from a client's first up to its state is found in nodes that follow on: the search ends, with the
-- index of a node that has the clock, for less than 2 ^ 63 nodes, the most a deque holds.
pub get_node_index-Finds :
    (ns : List Node) (start at : ℕ)
    → IsSequence start ns
    → length ns < 2 ^ 63
    → start ≤ at
    → at < end_of start ns
    → Finds ns at (get_node_index ns at)
unfolding get_node_index end_of
get_node_index-Finds [] start at h small low high = absurd (omega arith)
get_node_index-Finds (n ∷ ns) start at h small low high =
    let (k, cov) = Covers-exists (n ∷ ns) start at h low high in
    let (m, b, e) = get_elem-back n ns in
    rw b (search_from-Finds (n ∷ ns) start at k (length ns) m h refl small cov e (ends m b))
  where
    ends : (m : Node) → back (n ∷ ns) ≡ some m → at < end_clock m
    ends m b =
        let e : end_clock m ≡ end_of start (n ∷ ns) =
          sym (ap end_of_last b) ∙ end_of_last-IsSequence n ns start h in
        rw e high

get_elem-past : (ns : List Node) (i : ℕ) → length ns ≤ i → get_elem? ns i ≡ none
get_elem-past [] i le = refl
get_elem-past (n ∷ ns) zero le = absurd (omega arith)
get_elem-past (n ∷ ns) (suc i) le = get_elem-past ns i (omega arith)

-- The guess of a clock from twice the last one on is past the last index.
guess-past :
    (at last right : ℕ)
    → 0 < last
    → 2 * last ≤ at
    → 0 < right
    → at * right < 2 ^ 64
    → right < at / last * right % 2 ^ 64
guess-past at last right pos past some_right fits =
    let q : 2 ≤ at / last = (le-div_iff_mul-le pos).1 past in
    let low : 2 * right ≤ at / last * right = mul-le-mul_right right q in
    let high : at / last * right ≤ at * right = mul-le-mul_right right (div-le_self at last) in
    omega (arith, low, high, fits)

search_loop-panics :
    (fuel : ℕ) (ns : List Node) (at left right middle : ℕ)
    → 0 < fuel
    → left ≤ right
    → length ns ≤ middle
    → search_loop fuel ns at left right middle ≡ some (err panicked)
unfolding search_loop search_round
search_loop-panics zero ns at left right middle pos le past = absurd (omega arith)
search_loop-panics (suc fuel) ns at left right middle pos le past =
    rw (leb-true left right le, get_elem-past ns middle past) refl

-- In two nodes or more that follow on, the search for a clock from twice the last one on panics, at an index
-- out of bounds, where its product with the number of nodes fits a u64.
pub get_node_index-panics :
    (n m : Node) (ns : List Node) (start at : ℕ)
    → IsSequence start (n ∷ m ∷ ns)
    → 2 * (end_of start (n ∷ m ∷ ns) - 1) ≤ at
    → at * length (n ∷ m ∷ ns) < 2 ^ 64
    → get_node_index (n ∷ m ∷ ns) at ≡ some (err panicked)
unfolding get_node_index end_of search_from first_guess
get_node_index-panics n m ns start at h past fits =
    let (k, b, e) = get_elem-back n (m ∷ ns) in
    let end : end_clock k ≡ end_of start (n ∷ m ∷ ns) =
      sym (ap end_of_last b) ∙ end_of_last-IsSequence n (m ∷ ns) start h in
    let within = get_elem-IsSequence (n ∷ m ∷ ns) start (suc (length ns)) k h e in
    let before = get_elem-order (n ∷ m ∷ ns) start 0 (suc (length ns)) n k h refl e (omega arith) in
    let last_clock : (end_clock k + 2 ^ 64 - 1) % 2 ^ 64 ≡ end_of start (n ∷ m ∷ ns) - 1 =
      unfold end_clock in omega (arith, end, within) in
    let pos : 0 < end_of start (n ∷ m ∷ ns) - 1 = omega (arith, end, within, before, h.1) in
    let index : length (n ∷ m ∷ ns) - 1 ≡ suc (length ns) = omega arith in
    let other : (clock k == at) ≡ false = ground (arith, past, end, within, before, h.1) in
    let nonzero : (end_of start (n ∷ m ∷ ns) - 1 == 0) ≡ false = ground (arith, pos) in
    let guess =
      guess-past at (end_of start (n ∷ m ∷ ns) - 1) (suc (length ns)) pos past (omega arith)
        (omega (arith, fits)) in
    rw (b, index, other, last_clock, nonzero, index)
      (search_loop-panics (suc (suc (length ns)) + 2) (n ∷ m ∷ ns) at 0 (suc (length ns)) _
        (omega arith) (omega arith) (omega (arith, guess)))
