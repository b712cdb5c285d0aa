-- ===== src/Doc/Awareness/Updates.antt =====
-- What `apply_update` makes of each client's state, and what its event tells of.
use octo_base.Base.{
  ℕ, ◌+◌, ◌%◌, ◌^◌, ◌<◌, max, ◌≡◌, refl, ◌∙◌, Bool, true, false, Option, none, some, [], ◌∷◌, ltb,
  ◌==◌, if◌then◌else◌, arith, Bool-cases, inl, inr, ==_iff, ==_refl, lt→ltb,
}
use octo_base.Crates.{Bytes}
use octo_base.Doc.Client.{get, insert, IsMap, get-insert}
use octo_base.Protocol.Awareness.{
  AwarenessState, AwarenessStates, is_deleted, set_clock, add_clock, set_content, delete, null_str,
}
use octo_base.Doc.Awareness.{
  Awareness, AwarenessEvent, apply_entry, apply_entries, apply_update, get_local_state, no_event,
  content_of,
}

-- The state of a client after an update, from the states before it and in it.
abbrev pub resolved : Bool → Option AwarenessState → Option AwarenessState → Option AwarenessState
resolved is_local prev none = prev
resolved is_local none (some state) = some state
resolved true (some prev) (some state) =
    some (record { clock = (max prev.clock state.clock + 1) % 2 ^ 64; content = prev.content })
resolved false (some prev) (some state) = some (
    if ltb prev.clock state.clock
    then (if is_deleted state
        then record { clock = (prev.clock + 1) % 2 ^ 64; content = null_str }
        else state)
    else prev)

entry-resolved :
    (local_id : ℕ) (prev : Option AwarenessState) (k : ℕ) (state : AwarenessState)
    (event : AwarenessEvent)
    → some (apply_entry local_id prev k state event).0 ≡ resolved (k == local_id) prev (some state)
unfolding set_clock delete set_content add_clock
entry-resolved local_id none k state event = refl
entry-resolved local_id (some prev) k state event = elim (Bool-cases (k == local_id)) [
  | inl same ↦ rw same
  | inr other ↦ rw other (elim (Bool-cases (ltb prev.clock state.clock)) [
    | inl newer ↦
        rw newer
          (elim (Bool-cases (is_deleted state)) [ inl gone ↦ rw gone | inr there ↦ rw there ])
    | inr older ↦ rw older
  ])
]

get-apply_entries :
    (rest states : AwarenessStates) (local_id k : ℕ) (event : AwarenessEvent)
    → IsMap rest
    → get (apply_entries local_id states event rest).0 k
      ≡ resolved (k == local_id) (get states k) (get rest k)
unfolding apply_entries get
get-apply_entries [] states local_id k event h = refl
get-apply_entries ((j, state) ∷ rest) states local_id k event (fresh, h) =
    let e = apply_entry local_id (get states j) j state event in
    rw (get-apply_entries rest (insert states j e.0) local_id k e.1 h, get-insert states j k e.0)
      (elim (Bool-cases (j == k)) [
        | inl same ↦
            rw (same, (rw ((==_iff j k).0 same) at fresh))
              (entry-resolved local_id (get states j) j state event ∙ rw ((==_iff j k).0 same))
        | inr other ↦ rw other
      ])

-- After an update in which no client stands twice, each client has the state that `resolved`
-- tells: a new client's state is taken, the local state keeps its content under the larger clock
-- of the two plus one, modulo 2 ^ 64, and any other state yields to one of a larger clock, where a
-- deletion moves the clock by one only.
pub get-apply_update :
    (self : Awareness) (states : AwarenessStates) (k : ℕ)
    → IsMap states
    → get (apply_update self states).0.awareness k
      ≡ resolved (k == self.local_id) (get self.awareness k) (get states k)
unfolding apply_update
get-apply_update self states k h =
    get-apply_entries states self.awareness self.local_id k no_event h

apply_update-local_id :
    (self : Awareness) (states : AwarenessStates)
    → (apply_update self states).0.local_id ≡ self.local_id
unfolding apply_update
apply_update-local_id self states = refl

-- `apply_update` never changes the content of a local state that there is, whatever an update, in
-- which no client stands twice, says of it.
pub get_local_state-apply_update :
    (self : Awareness) (states : AwarenessStates) (content : Bytes)
    → IsMap states
    → get_local_state self ≡ some content
    → get_local_state (apply_update self states).0 ≡ some content
unfolding get_local_state
get_local_state-apply_update self states content h e = after
  where
    kept :
        (o s : Option AwarenessState)
        → content_of o ≡ some content
        → content_of (resolved true o s) ≡ some content
    kept none s e = cc
    kept (some prev) none e = e
    kept (some prev) (some state) e = e

    after : get_local_state (apply_update self states).0 ≡ some content
    after =
        rw
          (
            apply_update-local_id self states,
            get-apply_update self states self.local_id h,
            ==_refl self.local_id,
          )
          (kept (get self.awareness self.local_id) (get states self.local_id) e)

-- Of two updates to a client that is not the local one, a deletion and then a state of a smaller
-- clock that is no deletion, the older state stands in the end, wherever its clock is above the
-- client's first clock plus one.
pub apply_update_revives :
    (self : Awareness) (k : ℕ) (prev old gone : AwarenessState)
    → (k == self.local_id) ≡ false
    → get self.awareness k ≡ some prev
    → prev.clock + 1 < old.clock
    → old.clock < gone.clock
    → gone.clock < 2 ^ 64
    → is_deleted old ≡ false
    → is_deleted gone ≡ true
    → let after = (apply_update self ((k, gone) ∷ [])).0 in
      get (apply_update after ((k, old) ∷ [])).0.awareness k ≡ some old
unfolding get
apply_update_revives self k prev old gone other e lt newer bound there deleted = second
  where
    first :
        get (apply_update self ((k, gone) ∷ [])).0.awareness k
        ≡ some (record { clock = (prev.clock + 1) % 2 ^ 64; content = null_str })
    first = rw (
      get-apply_update self ((k, gone) ∷ []) k (refl, tt),
      other,
      e,
      ==_refl k,
      lt→ltb prev.clock gone.clock (omega arith),
      deleted,
    )

    second :
        get (apply_update (apply_update self ((k, gone) ∷ [])).0 ((k, old) ∷ [])).0.awareness k
        ≡ some old
    second = rw (
      get-apply_update (apply_update self ((k, gone) ∷ [])).0 ((k, old) ∷ []) k (refl, tt),
      apply_update-local_id self ((k, gone) ∷ []),
      other,
      first,
      ==_refl k,
      lt→ltb ((prev.clock + 1) % 2 ^ 64) old.clock (omega arith),
      there,
    )
