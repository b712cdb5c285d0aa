-- ===== src/Doc/Document/Pending.antt =====
-- The deletes that wait in a document's pending update.
use octo_base.Base.{
  Bool-cases, inl, inr, ltb, ℕ, zero, suc, ◌≡◌, refl, sym, ap, ◌∙◌, Bool, true, false, Option, none,
  some, List, [], ◌∷◌,
}
use octo_base.Doc.Client.{ClientMap, insert}
use octo_base.Doc.OrderRange.{BinarySearch, Range, OrderRange, pop}
use octo_base.Doc.DeleteSet.{DeleteSet, add, sort_descending}
use octo_base.Doc.StateVector.{get_clock}
use octo_base.Doc.Item.{Item}
use octo_base.Doc.Node.{Node}
use octo_base.Doc.Update.{Update, update_of, is_update_empty, is_pending_empty}
use octo_base.Doc.Update.Next.{UpdateIterator_new, next, next_loop, next_candidate, next_client}
use octo_base.Doc.Update.Deletes.{
  with_deletes, DeleteSetIterator, DeleteSetIterator_new, next_delete, DeleteRound, deletes_range,
  again, fails, popped, split_range, postpone, delete_loop, next_deletes, deletes_after,
}
use octo_base.Doc.Store.{get_state_vector}
use octo_base.Doc.Store.Links.{Run, done}
use octo_base.Doc.Document.{
  DocState, any_reached, integrate_updates, delete_updates, join_pending, apply_loop, apply_update,
}

-- The round leaves the nodes as they are.
abbrev HasStructs : ClientMap (List Node) → DeleteRound → Type 0
HasStructs structs (deletes_range client r self) = self.update.structs ≡ structs
HasStructs structs (again self) = self.update.structs ≡ structs
HasStructs structs fails = Unit {0}

module _ ⦃b : BinarySearch⦄ where
  postpone-HasStructs :
      (self : DeleteSetIterator) (client start end : ℕ) (f : DeleteSetIterator → DeleteRound)
      → ((self' : DeleteSetIterator)
          → self'.update.structs ≡ self.update.structs
          → HasStructs self.update.structs (f self'))
      → HasStructs self.update.structs (postpone self client start end f)
  unfolding postpone
  postpone-HasStructs self client start end f keeps =
      by_add (add self.update.pending_delete_set client start _)
    where
      by_add : (o : Option DeleteSet) → HasStructs self.update.structs (deletes_after o self f)
      by_add none = tt
      by_add (some pending) = keeps _ refl

  popped-HasStructs :
      (self : DeleteSetIterator) (client : ℕ) (o : Option Range × OrderRange)
      → HasStructs self.update.structs (popped self client o)
  unfolding split_range
  popped-HasStructs self client (none, deletes) = refl
  popped-HasStructs self client (some r, deletes) =
      let self'' = with_deletes self (insert self.update.delete_set client deletes) in
      let local_state = get_clock self.state client in
      elim (Bool-cases (ltb r.start local_state)) [
        | inr past ↦ rw past (postpone-HasStructs self'' client r.start r.end again (λ it h. h))
        | inl begun ↦ elim (Bool-cases (ltb local_state r.end)) [
          | inl beyond ↦
              rw (begun, beyond) (postpone-HasStructs self'' client local_state r.end _ (λ it h. h))
          | inr whole ↦ rw (begun, whole) refl
        ]
      ]

  structs-by_round :
      (next : DeleteSetIterator → Run (Option (ℕ × Range) × DeleteSetIterator)) (r : DeleteRound)
      (self' : DeleteSetIterator) (o : Option (ℕ × Range)) (structs : ClientMap (List Node))
      → ((it : DeleteSetIterator)
          → next it ≡ done (o, self')
          → self'.update.structs ≡ it.update.structs)
      → HasStructs structs r
      → next_deletes r next ≡ done (o, self')
      → self'.update.structs ≡ structs
  structs-by_round next (deletes_range c r it) self' o structs later h e =
      let same : it ≡ self' = cc in ap (λ (s : DeleteSetIterator). s.update.structs) (sym same) ∙ h
  structs-by_round next (again it) self' o structs later h e = later it e ∙ h
  structs-by_round next fails self' o structs later h e = cc

  delete_loop-structs :
      (fuel : ℕ) (deletes : DeleteSet) (self self' : DeleteSetIterator) (o : Option (ℕ × Range))
      → delete_loop fuel deletes self ≡ done (o, self')
      → self'.update.structs ≡ self.update.structs
  unfolding delete_loop
  delete_loop-structs zero deletes self self' o e = cc
  delete_loop-structs (suc fuel) [] self self' o e =
      let same : self ≡ self' = cc in ap (λ (s : DeleteSetIterator). s.update.structs) (sym same)
  delete_loop-structs (suc fuel) ((client, deletes) ∷ rest) self self' o e =
      structs-by_round (λ self''. delete_loop fuel self''.update.delete_set self'')
        (popped self client (pop deletes)) self' o self.update.structs
        (λ it e'. delete_loop-structs fuel it.update.delete_set it self' o e')
        (popped-HasStructs self client (pop deletes)) e

  ends-by_round :
      (next : DeleteSetIterator → Run (Option (ℕ × Range) × DeleteSetIterator)) (r : DeleteRound)
      (self' : DeleteSetIterator)
      → ((it : DeleteSetIterator) → next it ≡ done (none, self') → self'.update.delete_set ≡ [])
      → next_deletes r next ≡ done (none, self')
      → self'.update.delete_set ≡ []
  ends-by_round next (deletes_range c r it) self' later e = cc
  ends-by_round next (again it) self' later e = later it e
  ends-by_round next fails self' later e = cc

  -- The iterator ends when no deletes are left.
  delete_loop-ends :
      (fuel : ℕ) (deletes : DeleteSet) (self self' : DeleteSetIterator)
      → deletes ≡ self.update.delete_set
      → delete_loop fuel deletes self ≡ done (none, self')
      → self'.update.delete_set ≡ []
  unfolding delete_loop
  delete_loop-ends zero deletes self self' same e = cc
  delete_loop-ends (suc fuel) [] self self' same e =
      let same' : self ≡ self' = cc in
      ap (λ (s : DeleteSetIterator). s.update.delete_set) (sym same') ∙ sym same
  delete_loop-ends (suc fuel) ((client, deletes) ∷ rest) self self' same e =
      ends-by_round (λ self''. delete_loop fuel self''.update.delete_set self'')
        (popped self client (pop deletes)) self'
        (λ it e'. delete_loop-ends fuel it.update.delete_set it self' refl e') e

  -- An empty update has nothing to integrate.
  integrate_updates-nothing :
      (is_owned : Item → Bool) (fuel : ℕ) (self : DocState)
      → integrate_updates is_owned
          (suc fuel)
          (suc fuel)
          (UpdateIterator_new (update_of [] []) (get_state_vector self.store))
          self.store
        ≡ done (update_of [] [], self.store)
  unfolding integrate_updates next next_loop next_candidate next_client UpdateIterator_new
      sort_descending
  integrate_updates-nothing is_owned fuel self = refl

  delete_updates-nothing :
      (fuel : ℕ) (self : DocState)
      → delete_updates
          (suc fuel)
          (suc fuel)
          (DeleteSetIterator_new (update_of [] []) (get_state_vector self.store))
          self.store
        ≡ done (update_of [] [], self.store)
  unfolding delete_updates next_delete delete_loop DeleteSetIterator_new
  delete_updates-nothing fuel self = refl

  delete_updates-ended :
      (fuel : ℕ) (it left : DeleteSetIterator) (self : DocState)
      → next_delete (suc fuel) it ≡ done (none, left)
      → delete_updates (suc fuel) (suc fuel) it self.store ≡ done (left.update, self.store)
  unfolding delete_updates
  delete_updates-ended fuel it left self ended = rw ended refl

  is_update_empty-ended :
      (fuel : ℕ) (it left : DeleteSetIterator)
      → it.update.structs ≡ []
      → next_delete fuel it ≡ done (none, left)
      → is_update_empty left.update ≡ true
  unfolding is_update_empty next_delete
  is_update_empty-ended fuel it left bare ended =
      let no_structs = delete_loop-structs fuel it.update.delete_set it left none ended ∙ bare in
      let no_deletes = delete_loop-ends fuel it.update.delete_set it left refl ended in
      rw (no_structs, no_deletes) refl

  -- Where the iterator over the deletes of a document's pending update hands out none, as the store has
  -- reached none of them, that update has no nodes, and none of the states that it misses is reached, applying
  -- an empty update on any fuel but 0 leaves the store as it is, and no pending update: the deletes that
  -- were pending are neither done nor kept.
  pub apply_update_drops_deletes :
      (is_owned : Item → Bool) (fuel : ℕ) (self : DocState) (pending : Update)
      (left : DeleteSetIterator)
      → self.pending ≡ some pending
      → pending.structs ≡ []
      → any_reached self.store pending.missing_state ≡ false
      → next_delete (suc fuel) (DeleteSetIterator_new pending (get_state_vector self.store))
        ≡ done (none, left)
      → apply_update is_owned (suc fuel) self (update_of [] [])
        ≡ done (record { store = self.store; pending = none })
  unfolding apply_update apply_loop join_pending is_pending_empty DeleteSetIterator_new
  apply_update_drops_deletes is_owned fuel self pending left kept bare behind ended =
      let it = DeleteSetIterator_new pending (get_state_vector self.store) in
      rw (integrate_updates-nothing is_owned fuel self, delete_updates-nothing fuel self, kept)
        (rw (delete_updates-ended fuel it left self ended)
          (rw (behind, is_update_empty-ended (suc fuel) it left bare ended) refl))
