-- ===== src/Doc/Store/Integrate/Scan.antt =====
-- The loop over the conflicting items, on the row of items that the links make.
use octo_base.Base.{
  ℕ, zero, suc, ◌+◌, ◌<◌, ◌≡◌, refl, sym, ap, ◌∙◌, true, false, Option, none, some, List, [], ◌∷◌,
  ◌++◌, length, arith, append_assoc, ==_refl, length-append,
}
use octo_base.Doc.Client.{ItemId, same_id}
use octo_base.Doc.Item.{Item}
use octo_base.Doc.Store.Integrate.{
  Verdict, stop, pass, after, verdict, next_conflict, conflict_loop,
}

abbrev pub count_left : Verdict → List ItemId → ℕ → (List ItemId → ℕ → ℕ) → ℕ
count_left stop conflicting skipped next = 0
count_left pass conflicting skipped next = next conflicting (suc skipped)
count_left after conflicting skipped next = suc skipped + next [] 0

-- How many of the items come to stand before the new one; `skipped` is the number of those since the
-- last that does.
unfoldable pub scan : Item → List ItemId → List ItemId → ℕ → List Item → ℕ
scan this conflicting before skipped [] = 0
scan this conflicting before skipped (c ∷ cs) =
    count_left (verdict this (c.id ∷ conflicting) (c.id ∷ before) c) (c.id ∷ conflicting) skipped
      λ conflicting' skipped'. scan this conflicting' (c.id ∷ before) skipped' cs

-- The item that stands before the place.
abbrev pub left_at : Option ItemId → ℕ → List Item → Option ItemId
left_at left zero items = left
left_at left (suc n) [] = left
left_at left (suc n) (c ∷ cs) = left_at (some c.id) n cs

-- From a link on, the right links lead through the items up to another link.
abbrev pub IsRow : (ItemId → Option Item) → Option ItemId → List Item → Option ItemId → Type 0
IsRow find from [] to = from ≡ to
IsRow find from (c ∷ cs) to =
    (from ≡ some c.id)
    × (find c.id ≡ some c)
    × (same_id (some c.id) to ≡ false)
    × IsRow find c.right cs to

pub same_id_refl : (o : Option ItemId) → same_id o o ≡ true
same_id_refl none = refl
same_id_refl (some id) = rw (==_refl id.client, ==_refl id.clock) refl

left_at-past :
    (left : Option ItemId) (ps cs : List Item) (c : Item) (k n : ℕ)
    → k ≡ length ps + suc n
    → left_at left k (ps ++ c ∷ cs) ≡ left_at (some c.id) n cs
left_at-past left [] cs c zero n e = absurd (omega (arith, e))
left_at-past left [] cs c (suc k) n e = let same : k ≡ n = omega (arith, e) in rw same refl
left_at-past left (p ∷ ps) cs c zero n e = absurd (omega (arith, e))
left_at-past left (p ∷ ps) cs c (suc k) n e =
    left_at-past (some p.id) ps cs c k n (omega (arith, e))

module _ (find : ItemId → Option Item) (this : Item) (right : Option ItemId) where
  by_verdict :
      (v : Verdict) (left : Option ItemId) (c : Item) (cs ps : List Item)
      (conflicting : List ItemId) (next : Option ItemId → List ItemId → Option (Option ItemId))
      (count : List ItemId → ℕ → ℕ)
      → (next left conflicting
          ≡ some (left_at left (count conflicting (length (ps ++ c ∷ []))) ((ps ++ c ∷ []) ++ cs)))
      → (next (some c.id) [] ≡ some (left_at (some c.id) (count [] 0) cs))
      → next_conflict v left c.id conflicting next
        ≡ some (left_at left (count_left v conflicting (length ps) count) (ps ++ c ∷ cs))
  by_verdict stop left c cs ps conflicting next count passed taken = refl
  by_verdict pass left c cs ps conflicting next count passed taken =
      let len : length (ps ++ c ∷ []) ≡ suc (length ps) =
        omega (arith, length-append ps (c ∷ [])) in
      passed ∙ rw (len, append_assoc ps (c ∷ []) cs) refl
  by_verdict after left c cs ps conflicting next count passed taken =
      taken
      ∙ ap some (
          sym (left_at-past left ps cs c (suc (length ps) + count [] 0) (count [] 0) (omega arith)))

  conflict_loop-past :
      (fuel : ℕ) (cs ps : List Item) (left from : Option ItemId) (conflicting before : List ItemId)
      → length cs < fuel
      → IsRow find from cs right
      → conflict_loop fuel find this right from left conflicting before
        ≡ some (left_at left (scan this conflicting before (length ps) cs) (ps ++ cs))
  unfolding conflict_loop scan
  conflict_loop-past zero cs ps left from conflicting before enough row = absurd (omega arith)
  conflict_loop-past (suc fuel) [] ps left none conflicting before enough row = refl
  conflict_loop-past (suc fuel) [] ps left (some id) conflicting before enough row =
      rw (sym row, ==_refl id.client, ==_refl id.clock) refl
  conflict_loop-past (suc fuel) (c ∷ cs) ps left none conflicting before enough
        (e, found, other, row) =
      cc
  conflict_loop-past (suc fuel) (c ∷ cs) ps left (some id) conflicting before enough
        (e, found, other, row) =
      let same : id ≡ c.id = cc in
      rw (same, other, found)
        (by_verdict (verdict this (c.id ∷ conflicting) (c.id ∷ before) c) left c cs ps
          (c.id ∷ conflicting)
          (λ left' conflicting'.
            conflict_loop fuel find this right c.right left' conflicting' (c.id ∷ before))
          (λ conflicting' skipped. scan this conflicting' (c.id ∷ before) skipped cs)
          (conflict_loop-past fuel cs (ps ++ c ∷ []) left c.right (c.id ∷ conflicting)
            (c.id ∷ before) (omega arith) row)
          (conflict_loop-past fuel cs [] (some c.id) c.right [] (c.id ∷ before) (omega arith) row))

  -- Where the right links lead from the first conflicting item through a row of items up to the right one,
  -- the loop ends, on fuel of one more than the items, at the item that the scan of the row tells, and at the
  -- left item where none of the row comes to stand before the new one.
  pub conflict_loop-scan :
      (fuel : ℕ) (cs : List Item) (left from : Option ItemId)
      → length cs < fuel
      → IsRow find from cs right
      → conflict_loop fuel find this right from left [] []
        ≡ some (left_at left (scan this [] [] 0 cs) cs)
  conflict_loop-scan fuel cs left from enough row =
      conflict_loop-past fuel cs [] left from [] [] enough row
