-- ===== src/Doc/Update/Deletes.antt =====
-- `DeleteSetIterator` of libs/jwst-codec/src/doc/codec/update.rs.
pub mod Ends
use octo_base.Base.{
  ℕ, zero, suc, ◌+◌, ◌-◌, ◌%◌, ◌^◌, ◌≤◌, ◌<◌, ◌≡◌, refl, sym, ap, ◌∙◌, Bool, true, false, Option,
  none, some, List, [], ◌∷◌, length, ltb, leb, ◌==◌, if◌then◌else◌, Bool-cases, inl, inr, arith,
  ltb→lt, ==_refl, ==_iff,
}
use octo_base.Base.Result.{Result, ok, err}
use octo_base.Doc.Error.{JwstCodecResult, panicked}
use octo_base.Doc.Client.{ClientMap, get, insert, remove}
use octo_base.Doc.OrderRange.{
  Range, OrderRange, range, fragment, BinarySearch, pop, is_empty_range, empty_range,
}
use octo_base.Doc.DeleteSet.{DeleteSet, add}
use octo_base.Doc.StateVector.{StateVector, get_clock}
use octo_base.Doc.Update.{Update}

pub record DeleteSetIterator : Type 0 where
  pub update : Update
  pub state : StateVector

-- `DeleteSetIterator::new`
unfoldable pub DeleteSetIterator_new : Update → StateVector → DeleteSetIterator
DeleteSetIterator_new update state = record { update = update; state = state }

-- What a round comes to: a range to delete, the next round, or a panic.
pub data DeleteRound : Type 0 where
  deletes_range : ℕ → Range → DeleteSetIterator → DeleteRound
  again : DeleteSetIterator → DeleteRound
  fails : DeleteRound

abbrev pub with_deletes : DeleteSetIterator → DeleteSet → DeleteSetIterator
with_deletes self delete_set = record self {
  update = record self.update { delete_set = delete_set };
}

abbrev with_pending : DeleteSetIterator → DeleteSet → DeleteSetIterator
with_pending self pending = record self {
  update = record self.update { pending_delete_set = pending };
}

abbrev pub deletes_after :
    Option DeleteSet → DeleteSetIterator → (DeleteSetIterator → DeleteRound) → DeleteRound
deletes_after none self next = fails
deletes_after (some pending) self next = next (with_pending self pending)

module _ ⦃b : BinarySearch⦄ where
  -- `self.update.pending_delete_set.add(client, start, end - start)`
  unfoldable pub postpone :
      DeleteSetIterator → ℕ → ℕ → ℕ → (DeleteSetIterator → DeleteRound) → DeleteRound
  postpone self client start end next =
      deletes_after
        (add self.update.pending_delete_set client start ((end + 2 ^ 64 - start) % 2 ^ 64)) self
        next

  -- The part of a range that the state has reached is deleted, the rest is kept for later.
  unfoldable pub split_range : DeleteSetIterator → ℕ → Range → DeleteRound
  unfolding postpone
  split_range self client r =
      let local_state = get_clock self.state client in
      if ltb r.start local_state
      then (if ltb local_state r.end
          then postpone self client local_state r.end
              (deletes_range client (record { start = r.start; end = local_state }))
          else deletes_range client r self)
      else postpone self client r.start r.end again

  abbrev pub popped : DeleteSetIterator → ℕ → Option Range × OrderRange → DeleteRound
  popped self client (none, deletes) =
      again (with_deletes self (remove self.update.delete_set client))
  popped self client (some r, deletes) =
      split_range (with_deletes self (insert self.update.delete_set client deletes)) client r

  abbrev pub next_deletes :
      DeleteRound
      → (DeleteSetIterator → Option (JwstCodecResult (Option (ℕ × Range) × DeleteSetIterator)))
      → Option (JwstCodecResult (Option (ℕ × Range) × DeleteSetIterator))
  next_deletes (deletes_range client r self) next = some (ok (some (client, r), self))
  next_deletes (again self) next = next self
  next_deletes fails next = some (err panicked)

  -- The loops of `next`; the outer `none` is fuel that ran out.
  unfoldable pub delete_loop :
      ℕ
      → DeleteSet
      → DeleteSetIterator
      → Option (JwstCodecResult (Option (ℕ × Range) × DeleteSetIterator))
  unfolding split_range
  delete_loop zero deletes self = none
  delete_loop (suc fuel) [] self = some (ok (none, self))
  delete_loop (suc fuel) ((client, deletes) ∷ rest) self =
      next_deletes (popped self client (pop deletes))
        λ self'. delete_loop fuel self'.update.delete_set self'

  unfoldable pub next_delete :
      ℕ → DeleteSetIterator → Option (JwstCodecResult (Option (ℕ × Range) × DeleteSetIterator))
  unfolding delete_loop
  next_delete fuel self = delete_loop fuel self.update.delete_set self
