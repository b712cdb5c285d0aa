-- ===== src/Doc/Update/Deletes/Ends.antt =====
-- What `DeleteSetIterator` hands out, and the ranges that it has left.
use octo_base.Base.{
  ℕ, zero, suc, ◌+◌, ◌-◌, ◌%◌, ◌^◌, ◌≤◌, ◌<◌, ◌≡◌, refl, true, Option, none, some, [], ◌∷◌, length,
  ltb, if◌then◌else◌, Bool-cases, inl, inr, arith, ltb→lt, ==_refl,
}
use octo_base.Base.Result.{ok, err}
use octo_base.Doc.Error.{JwstCodecResult}
use octo_base.Doc.Client.{insert, remove}
use octo_base.Doc.OrderRange.{
  Range, OrderRange, range, fragment, BinarySearch, pop, is_empty_range, empty_range,
}
use octo_base.Doc.DeleteSet.{DeleteSet, add}
use octo_base.Doc.DeleteSet.Holds.{add_range_total}
use octo_base.Doc.StateVector.{StateVector, get_clock}
use octo_base.Doc.Update.Deletes.{
  DeleteSetIterator, DeleteRound, deletes_range, again, fails, with_deletes, deletes_after,
  postpone, split_range, popped, next_deletes, delete_loop, next_delete,
}

-- The ranges that `pop` gives.
abbrev ranges_of : OrderRange → ℕ
ranges_of (range r) = if is_empty_range r then 0 else 1
ranges_of (fragment rs) = length rs

-- The ranges that are left, and one for each client.
unfoldable pub deletes_left : DeleteSet → ℕ
deletes_left [] = 0
deletes_left ((client, deletes) ∷ rest) = suc (ranges_of deletes) + deletes_left rest

-- What is handed out begins below the state and ends at it or below.
abbrev IsReached : StateVector → ℕ → Range → Type 0
IsReached state client r = (r.start < get_clock state client) × (r.end ≤ get_clock state client)

abbrev IsDeleteRound : StateVector → DeleteSet → DeleteRound → Type 0
IsDeleteRound state deletes (deletes_range client r self) =
    IsReached state client r × (self.state ≡ state)
IsDeleteRound state deletes (again self) = (self.state ≡ state) × (self.update.delete_set ≡ deletes)
IsDeleteRound state deletes fails = ⊥

none_left : is_empty_range empty_range ≡ true
unfolding is_empty_range
none_left = refl

-- The loop returns and does not panic, and what it hands out the state has reached.
abbrev pub Reaches :
    StateVector → Option (JwstCodecResult (Option (ℕ × Range) × DeleteSetIterator)) → Type 0
Reaches state none = ⊥
Reaches state (some (err e)) = ⊥
Reaches state (some (ok (none, self))) = self.state ≡ state
Reaches state (some (ok (some (client, r), self))) = IsReached state client r × (self.state ≡ state)

Reaches-state :
    (s t : StateVector) (o : Option (JwstCodecResult (Option (ℕ × Range) × DeleteSetIterator)))
    → s ≡ t
    → Reaches s o
    → Reaches t o
Reaches-state s t o e h = rw e at h

module _ ⦃b : BinarySearch⦄ where
  deletes_after-IsDeleteRound :
      (o : Option DeleteSet) (pending : DeleteSet) (self : DeleteSetIterator) (client : ℕ)
      (r : Range)
      → o ≡ some pending
      → IsReached self.state client r
      → IsDeleteRound self.state self.update.delete_set
          (deletes_after o self (deletes_range client r))
  deletes_after-IsDeleteRound none pending self client r e h = cc
  deletes_after-IsDeleteRound (some p) pending self client r e h = (h, refl)

  deletes_after-again :
      (o : Option DeleteSet) (pending : DeleteSet) (self : DeleteSetIterator)
      → o ≡ some pending
      → IsDeleteRound self.state self.update.delete_set (deletes_after o self again)
  deletes_after-again none pending self e = cc
  deletes_after-again (some p) pending self e = (refl, refl)

  -- What is kept for later can be kept.
  added :
      (self : DeleteSetIterator) (client from len : ℕ)
      → (pending : DeleteSet) × (add self.update.pending_delete_set client from len ≡ some pending)
  unfolding add
  added self client from len =
      let total =
        add_range_total self.update.pending_delete_set client
          (record { start = from; end = (from + len) % 2 ^ 64 }) in
      (total.0, total.1)

  split_range-IsDeleteRound :
      (self : DeleteSetIterator) (client : ℕ) (r : Range)
      → IsDeleteRound self.state self.update.delete_set (split_range self client r)
  unfolding split_range postpone
  split_range-IsDeleteRound self client r =
      let state = get_clock self.state client in
      elim (Bool-cases (ltb r.start state)) [
        | inl begun ↦ elim (Bool-cases (ltb state r.end)) [
          | inl longer ↦
              rw (begun, longer)
                (deletes_after-IsDeleteRound _ _ self client
                  (record { start = r.start; end = state })
                  (added self client state ((r.end + 2 ^ 64 - state) % 2 ^ 64)).1
                  (ltb→lt r.start state begun, omega arith))
          | inr within ↦
              rw (begun, within) ((ltb→lt r.start state begun, ground (arith, within)), refl)
        ]
        | inr ahead ↦ rw ahead (
            deletes_after-again _ _ self
              (added self client r.start ((r.end + 2 ^ 64 - r.start) % 2 ^ 64)).1)
      ]

  -- What is left to do after a range, or the client, was taken off.
  popped-IsDeleteRound :
      (self : DeleteSetIterator) (client : ℕ) (deletes : OrderRange) (rest : DeleteSet)
      → self.update.delete_set ≡ (client, deletes) ∷ rest
      → (left : DeleteSet) × (deletes_left left < deletes_left ((client, deletes) ∷ rest))
        × IsDeleteRound self.state left (popped self client (pop deletes))
  unfolding pop deletes_left insert remove
  popped-IsDeleteRound self client (range r) rest e = elim (Bool-cases (is_empty_range r)) [
    | inl empty ↦ rw (empty, e, ==_refl client) (rest, omega arith, (refl, refl))
    | inr other ↦
        rw (other, e, ==_refl client)
          (
            (client, range empty_range) ∷ rest,
            rw none_left (omega arith),
            split_range-IsDeleteRound (with_deletes self ((client, range empty_range) ∷ rest))
                client r,
          )
  ]
  popped-IsDeleteRound self client (fragment []) rest e =
      rw (e, ==_refl client) (rest, omega arith, (refl, refl))
  popped-IsDeleteRound self client (fragment (r ∷ rs)) rest e =
      rw (e, ==_refl client)
        (
          (client, fragment rs) ∷ rest,
          omega arith,
          split_range-IsDeleteRound (with_deletes self ((client, fragment rs) ∷ rest)) client r,
        )

  delete_loop-Reaches :
      (fuel : ℕ) (deletes : DeleteSet) (self : DeleteSetIterator)
      → self.update.delete_set ≡ deletes
      → deletes_left deletes < fuel
      → Reaches self.state (delete_loop fuel deletes self)
  unfolding delete_loop
  delete_loop-Reaches zero deletes self e enough = absurd (omega arith)
  delete_loop-Reaches (suc fuel) [] self e enough = refl
  delete_loop-Reaches (suc fuel) ((client, deletes) ∷ rest) self e enough =
      let (left, less, h) = popped-IsDeleteRound self client deletes rest e in
      after left (popped self client (pop deletes)) h λ self' e'.
        delete_loop-Reaches fuel self'.update.delete_set self' refl
          (rw e' (omega (arith, less, enough)))
    where
      after :
          (left : DeleteSet) (r : DeleteRound)
          → IsDeleteRound self.state left r
          → ((self' : DeleteSetIterator)
              → self'.update.delete_set ≡ left
              → Reaches self'.state (delete_loop fuel self'.update.delete_set self'))
          → Reaches self.state
              (next_deletes r λ self'. delete_loop fuel self'.update.delete_set self')
      after left (deletes_range c r self') h later = h
      after left (again self') (same, e') later =
          Reaches-state self'.state self.state _ same (later self' e')
      after left fails h later = absurd h

  -- The iterator over the deletes ends without a panic, on fuel of one for each range and each client, and
  -- one more: with a range that begins below the state of its client and ends there at the latest, or at the
  -- end of the deletes. The state stays as it is.
  pub next_delete-Reaches :
      (fuel : ℕ) (self : DeleteSetIterator)
      → deletes_left self.update.delete_set < fuel
      → Reaches self.state (next_delete fuel self)
  unfolding next_delete
  next_delete-Reaches fuel self enough =
      delete_loop-Reaches fuel self.update.delete_set self refl enough
