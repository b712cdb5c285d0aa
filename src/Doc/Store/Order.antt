-- ===== src/Doc/Store/Order.antt =====
-- The nodes of a client by their index and by their clocks.
use octo_base.Base.{
  ℕ, zero, suc, ◌+◌, ◌≤◌, ◌<◌, ◌≡◌, refl, sym, ◌∙◌, some, List, [], ◌∷◌, length, get_elem?, ltb,
  ◌==◌, Bool-cases, inl, inr, ==_iff, arith, ltb→lt,
}
use octo_base.Doc.Node.{Node, clock, node_len}
use octo_base.Doc.Store.{back, end_clock}
use octo_base.Doc.Store.Clocks.{IsSequence, end_of, end_clock-IsSequence}

-- What stands at an index of a sequence lies in it.
pub get_elem-IsSequence :
    (ns : List Node) (start i : ℕ) (n : Node)
    → IsSequence start ns
    → get_elem? ns i ≡ some n
    → (start ≤ clock n) × (0 < node_len n) × (end_clock n ≡ clock n + node_len n)
get_elem-IsSequence [] start i n h e = cc
get_elem-IsSequence (m ∷ ms) start zero n (c, pos, h) e =
    let same : m ≡ n = cc in
    rw (sym same)
      (omega (arith, c), pos, end_clock-IsSequence m ms start (c, pos, h) ∙ omega (arith, c))
get_elem-IsSequence (m ∷ ms) start (suc i) n (c, pos, h) e =
    let later = get_elem-IsSequence ms (start + node_len m) i n h e in
    (omega (arith, later.0), later.1, later.2)

-- The nodes stand in the order of their clocks.
pub get_elem-order :
    (ns : List Node) (start i j : ℕ) (n m : Node)
    → IsSequence start ns
    → get_elem? ns i ≡ some n
    → get_elem? ns j ≡ some m
    → i < j
    → clock n + node_len n ≤ clock m
get_elem-order [] start i j n m h e e' lt = cc
get_elem-order (k ∷ ks) start i zero n m h e e' lt = omega arith
get_elem-order (k ∷ ks) start zero (suc j) n m (c, pos, h) e e' lt =
    let later = get_elem-IsSequence ks (start + node_len k) j m h e' in
    let same : k ≡ n = cc in rw (sym same) (omega (arith, c, later.0))
get_elem-order (k ∷ ks) start (suc i) (suc j) n m (c, pos, h) e e' lt =
    get_elem-order ks (start + node_len k) i j n m h e e' (omega arith)

-- The node at the index has the clock.
abbrev pub Covers : List Node → ℕ → ℕ → Type 0
Covers ns at i =
    (n : Node) × (get_elem? ns i ≡ some n) × (clock n ≤ at) × (at < clock n + node_len n)

pub Covers-exists :
    (ns : List Node) (start at : ℕ)
    → IsSequence start ns
    → start ≤ at
    → at < end_of start ns
    → (i : ℕ) × Covers ns at i
unfolding end_of
Covers-exists [] start at h low high = absurd (omega arith)
Covers-exists (n ∷ ns) start at (c, pos, h) low high =
    elim (Bool-cases (ltb at (start + node_len n))) [
      | inl here ↦
          (0, (n, refl, omega (arith, c), omega (arith, c, ltb→lt at (start + node_len n) here)))
      | inr there ↦
          let later = Covers-exists ns (start + node_len n) at h (ground (arith, there)) high in
          (suc later.0, later.1)
    ]

pub get_elem-back :
    (n : Node) (ns : List Node)
    → (m : Node) × (back (n ∷ ns) ≡ some m) × (get_elem? (n ∷ ns) (length ns) ≡ some m)
get_elem-back n [] = (n, refl, refl)
get_elem-back n (m ∷ ms) = get_elem-back m ms

pub get_elem-length :
    (ns : List Node) (i : ℕ) → i < length ns → (n : Node) × (get_elem? ns i ≡ some n)
get_elem-length [] i lt = absurd (omega arith)
get_elem-length (n ∷ ns) zero lt = (n, refl)
get_elem-length (n ∷ ns) (suc i) lt = get_elem-length ns i (omega arith)

pub get_elem-lt : (ns : List Node) (i : ℕ) (n : Node) → get_elem? ns i ≡ some n → i < length ns
get_elem-lt [] i n e = cc
get_elem-lt (m ∷ ms) zero n e = omega arith
get_elem-lt (m ∷ ms) (suc i) n e = omega (arith, get_elem-lt ms i n e)

module _ (ns : List Node) (start at i k : ℕ) (m : Node) (h : IsSequence start ns)
    (e : get_elem? ns i ≡ some m) where
  pub Covers-after : Covers ns at k → clock m + node_len m ≤ at → i < k
  Covers-after (n, e', low, high) above = elim (Bool-cases (ltb i k)) [
    | inl lt ↦ ltb→lt i k lt
    | inr ge ↦ elim (Bool-cases (k == i)) [
      | inl same ↦
          let found : get_elem? ns i ≡ some n = (rw ((==_iff k i).0 same) at e') in
          let equal : n ≡ m = cc in
          let high' = rw equal at high in absurd (omega (arith, high', above))
      | inr other ↦
          let gap = get_elem-order ns start k i n m h e' e (ground (arith, ge, other)) in
          absurd (omega (arith, gap, high, above))
    ]
  ]

  pub Covers-before : Covers ns at k → at < clock m → k < i
  Covers-before (n, e', low, high) below = elim (Bool-cases (ltb k i)) [
    | inl lt ↦ ltb→lt k i lt
    | inr ge ↦ elim (Bool-cases (k == i)) [
      | inl same ↦
          let found : get_elem? ns i ≡ some n = (rw ((==_iff k i).0 same) at e') in
          let equal : n ≡ m = cc in
          let low' = rw equal at low in absurd (omega (arith, low', below))
      | inr other ↦
          let gap = get_elem-order ns start i k m n h e e' (ground (arith, ge, other)) in
          absurd (omega (arith, gap, low, below))
    ]
  ]
