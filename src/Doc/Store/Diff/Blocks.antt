-- ===== src/Doc/Store/Diff/Blocks.antt =====
-- The blocks of a client from a clock on.
use octo_base.Base.{
  ℕ, zero, suc, ◌+◌, ◌-◌, ◌%◌, ◌^◌, ◌≤◌, ◌<◌, ◌≡◌, refl, sym, ap, ◌∙◌, false, some, List, [], ◌∷◌,
  drop, length, ltb, leb, ◌==◌, if◌then◌else◌, get_elem?, arith, Bool-cases, inl, inr, ==_iff,
}
use octo_base.Base.Result.{ok, err, ◌>>=◌}
use octo_base.Doc.Error.{panicked}
use octo_base.Doc.Content.{any, split, split_list, clock_len}
use octo_base.Doc.Any.{Any}
use octo_base.Doc.Item.{Item, item_len}
use octo_base.Doc.Node.{Node, item, clock, node_len, node_split_at}
use octo_base.Doc.Store.{end_clock}
use octo_base.Doc.Store.Clocks.{IsSequence, end_of}
use octo_base.Doc.Store.Order.{Covers, get_elem-order, get_elem-IsSequence}
use octo_base.Doc.Store.Search.{get_node_index-Finds}
use octo_base.Doc.Store.Diff.{from_block, diff_nodes}

drop-get_elem :
    (ns : List Node) (i : ℕ) (n : Node) → get_elem? ns i ≡ some n → drop i ns ≡ n ∷ drop (suc i) ns
drop-get_elem [] i n e = cc
drop-get_elem (m ∷ ms) zero n e = let same : m ≡ n = cc in ap (λ k. k ∷ ms) same
drop-get_elem (m ∷ ms) (suc i) n e = drop-get_elem ms i n e

-- One node has a clock.
Covers-unique :
    (ns : List Node) (start at i j : ℕ)
    → IsSequence start ns
    → Covers ns at i
    → Covers ns at j
    → i ≡ j
Covers-unique ns start at i j h (n, e, low, high) (m, e', low', high') =
    elim (Bool-cases (ltb i j)) [
      | inl before ↦
          let gap = get_elem-order ns start i j n m h e e' (ground (arith, before)) in
          absurd (omega (arith, gap, high, low'))
      | inr not_before ↦ elim (Bool-cases (i == j)) [
        | inl same ↦ (==_iff i j).0 same
        | inr other ↦
            let gap = get_elem-order ns start j i m n h e' e (ground (arith, not_before, other)) in
            absurd (omega (arith, gap, high', low))
      ]
    ]

start-le-end_of : (ns : List Node) (start : ℕ) → start ≤ end_of start ns
unfolding end_of
start-le-end_of [] start = omega arith
start-le-end_of (n ∷ ns) start = omega (arith, start-le-end_of ns (start + node_len n))

end_of-get_elem :
    (ns : List Node) (start i : ℕ) (n : Node)
    → IsSequence start ns
    → get_elem? ns i ≡ some n
    → clock n + node_len n ≤ end_of start ns
unfolding end_of
end_of-get_elem [] start i n h e = cc
end_of-get_elem (m ∷ ms) start zero n (c, pos, h) e =
    let same : m ≡ n = cc in
    rw (sym same) (omega (arith, c, start-le-end_of ms (start + node_len m)))
end_of-get_elem (m ∷ ms) start (suc i) n (c, pos, h) e =
    end_of-get_elem ms (start + node_len m) i n h e

from_index-Covers :
    (ns : List Node) (start at i : ℕ) (n : Node)
    → IsSequence start ns
    → length ns < 2 ^ 63
    → get_elem? ns i ≡ some n
    → clock n ≤ at
    → at < clock n + node_len n
    → diff_nodes ns at ≡ some (from_block at (n ∷ drop (suc i) ns))
unfolding diff_nodes
from_index-Covers ns start at i n h small e low high =
    let within = get_elem-IsSequence ns start i n h e in
    let (j, found, cov) =
      get_node_index-Finds ns start at h small (omega (arith, low, within.0))
        (omega (arith, high, end_of-get_elem ns start i n h e)) in
    let same = Covers-unique ns start at j i h cov (n, e, low, high) in
    rw (found, same, drop-get_elem ns i n e) refl

-- From the clock of a node on, in less than 2 ^ 63 nodes that follow on, another document is told that node
-- and those after it.
pub diff_nodes-boundary :
    (ns : List Node) (start i : ℕ) (n : Node)
    → IsSequence start ns
    → length ns < 2 ^ 63
    → get_elem? ns i ≡ some n
    → diff_nodes ns (clock n) ≡ some (ok (drop i ns))
unfolding from_block
diff_nodes-boundary ns start i n h small e =
    let within = get_elem-IsSequence ns start i n h e in
    let none_before : (clock n + 2 ^ 64 - clock n) % 2 ^ 64 ≡ 0 = omega arith in
    from_index-Covers ns start (clock n) i n h small e (omega arith) (omega (arith, within))
    ∙ rw (none_before, drop-get_elem ns i n e) refl

-- From a clock within an item of values on, after its first, in less than 2 ^ 63 nodes that follow on, the
-- offset of the split is below 0: the call panics.
pub diff_nodes-inside :
    (ns : List Node) (start at i : ℕ) (it : Item) (vec : List Any)
    → IsSequence start ns
    → length ns < 2 ^ 63
    → get_elem? ns i ≡ some (item it)
    → it.content ≡ any vec
    → length vec < 2 ^ 63
    → clock (item it) < at
    → at < clock (item it) + length vec
    → diff_nodes ns at ≡ some (err panicked)
unfolding from_block node_split_at split split_list
diff_nodes-inside ns start at i it vec h small e c fits low high =
    let len : node_len (item it) ≡ length vec =
      unfold node_len in unfold item_len in unfold clock_len in rw c refl in
    let below : clock (item it) < 2 ^ 64 =
      unfold end_clock in omega (arith, (get_elem-IsSequence ns start i (item it) h e).2) in
    from_index-Covers ns start at i (item it) h small e (omega (arith, low))
      (omega (arith, high, len))
    ∙ ap some
        (past ((clock (item it) + 2 ^ 64 - at) % 2 ^ 64) (omega (arith, low, high, fits, below)))
  where
    after : List Node
    after = drop (suc i) ns

    past :
        (offset : ℕ)
        → length vec < offset
        → (if offset == 0
            then ok (item it ∷ after)
            else (node_split_at (item it) offset >>= λ (l, r). ok (r ∷ after)))
          ≡ err panicked
    past offset lt =
        let nonzero : (offset == 0) ≡ false = ground (arith, lt) in
        let long : leb offset (length vec) ≡ false = ground (arith, lt) in
        rw (nonzero, c, long) refl
