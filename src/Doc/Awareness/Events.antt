-- ===== src/Doc/Awareness/Events.antt =====
-- The event of an update names every client whose state the update changed.
use octo_base.Base.{
  ℕ, ◌≡◌, refl, ◌∙◌, true, false, ◌||◌, Option, none, some, List, [], ◌∷◌, ◌++◌, ltb, ◌==◌, arith,
  Bool-cases, inl, inr, ==_iff,
}
use octo_base.Doc.Client.{get, insert, get-insert}
use octo_base.Protocol.Awareness.{AwarenessState, AwarenessStates, is_deleted}
use octo_base.Doc.Awareness.{
  Awareness, AwarenessEvent, add, update, remove, any_is, mentions, apply_entry, apply_entries,
  apply_update, no_event,
}

any_is-snoc : (l : List ℕ) (x k : ℕ) → any_is (l ++ x ∷ []) k ≡ (any_is l k || (x == k))
unfolding any_is
any_is-snoc [] x k = ground arith
any_is-snoc (y ∷ l) x k = ground (arith, any_is-snoc l x k)

mentions-add :
    (event : AwarenessEvent) (x k : ℕ) → mentions (add event x) k ≡ (mentions event k || (x == k))
unfolding mentions add
mentions-add event x k = rw (any_is-snoc event.added x k) ground arith

mentions-update :
    (event : AwarenessEvent) (x k : ℕ)
    → mentions (update event x) k ≡ (mentions event k || (x == k))
unfolding mentions update
mentions-update event x k = rw (any_is-snoc event.updated x k) ground arith

mentions-remove :
    (event : AwarenessEvent) (x k : ℕ)
    → mentions (remove event x) k ≡ (mentions event k || (x == k))
unfolding mentions remove
mentions-remove event x k = rw (any_is-snoc event.removed x k) ground arith

-- A client that the event does not name after an entry was not named before it, and if the entry is
-- this client's, its state stands.
entry-unmentioned :
    (local_id : ℕ) (prev : Option AwarenessState) (j k : ℕ) (state : AwarenessState)
    (event : AwarenessEvent)
    → mentions (apply_entry local_id prev j state event).1 k ≡ false
    → (mentions event k ≡ false)
      × ((j == k) ≡ true → some (apply_entry local_id prev j state event).0 ≡ prev)
entry-unmentioned local_id none j k state event h = let e = mentions-add event j k in ground arith
entry-unmentioned local_id (some prev) j k state event h =
    let e1 = mentions-update event j k in
    let e2 = mentions-remove event j k in
    elim (Bool-cases (j == local_id)) [
      | inl same ↦ let h' = rw same at h in rw same ground arith
      | inr other ↦ elim (Bool-cases (ltb prev.clock state.clock)) [
        | inl newer ↦ elim (Bool-cases (is_deleted state)) [
          | inl gone ↦ let h' = rw (other, newer, gone) at h in rw (other, newer, gone) ground arith
          | inr there ↦
              let h' = rw (other, newer, there) at h in rw (other, newer, there) ground arith
        ]
        | inr older ↦ let h' = rw (other, older) at h in rw (other, older) ground arith
      ]
    ]

entries-unmentioned :
    (rest states : AwarenessStates) (local_id k : ℕ) (event : AwarenessEvent)
    → mentions (apply_entries local_id states event rest).1 k ≡ false
    → (mentions event k ≡ false)
      × (get (apply_entries local_id states event rest).0 k ≡ get states k)
unfolding apply_entries
entries-unmentioned [] states local_id k event h = (h, refl)
entries-unmentioned ((j, state) ∷ rest) states local_id k event h =
    let e = apply_entry local_id (get states j) j state event in
    let (quiet, same) = entries-unmentioned rest (insert states j e.0) local_id k e.1 h in
    let (before, kept) = entry-unmentioned local_id (get states j) j k state event quiet in
    (
      before,
      same
          ∙ rw (get-insert states j k e.0) (elim (Bool-cases (j == k)) [
            | inl at ↦ rw at (kept at ∙ rw ((==_iff j k).0 at))
            | inr other ↦ rw other
          ]),
    )

-- With a callback registered, `apply_update` calls it with an event, and each client that the
-- event does not name has the state it had.
pub apply_update-unmentioned :
    (self : Awareness) (states : AwarenessStates) (cb : ℕ)
    → self.callback ≡ some cb
    → (event : AwarenessEvent) × ((apply_update self states).1 ≡ some (cb, event))
      × ((k : ℕ)
          → mentions event k ≡ false
          → get (apply_update self states).0.awareness k ≡ get self.awareness k)
unfolding apply_update
apply_update-unmentioned self states cb e = (
  (apply_entries self.local_id self.awareness no_event states).1,
  rw e,
  λ k h. (entries-unmentioned states self.awareness self.local_id k no_event h).1,
)
