-- ===== src/Doc/Awareness.antt =====
-- libs/jwst-codec/src/doc/awareness.rs: the states of the clients, and the events that tell of their
-- changes. A registered callback is known by a number; an operation returns the call that it makes.
pub mod Updates
pub mod Events
use octo_base.Base.{
  ℕ, ◌+◌, ◌%◌, ◌^◌, max, Bool, true, false, ◌||◌, Option, none, some, List, [], ◌∷◌, ◌++◌, ltb,
  ◌==◌, if◌then◌else◌,
}
use octo_base.Crates.{Bytes}
use octo_base.Doc.Client.{get, insert}
use octo_base.Protocol.Awareness.{
  AwarenessState, AwarenessStates, is_deleted, set_clock, set_content, delete, default_state,
}

-- `AwarenessEvent`, and `AwarenessEventBuilder`, which has the same fields.
pub record AwarenessEvent : Type 0 where
  pub added : List ℕ
  pub updated : List ℕ
  pub removed : List ℕ

abbrev pub no_event : AwarenessEvent
no_event = record { added = []; updated = []; removed = [] }

unfoldable pub add : AwarenessEvent → ℕ → AwarenessEvent
add self client_id = record self { added = self.added ++ client_id ∷ [] }

unfoldable pub update : AwarenessEvent → ℕ → AwarenessEvent
update self client_id = record self { updated = self.updated ++ client_id ∷ [] }

unfoldable pub remove : AwarenessEvent → ℕ → AwarenessEvent
remove self client_id = record self { removed = self.removed ++ client_id ∷ [] }

unfoldable pub any_is : List ℕ → ℕ → Bool
any_is [] id = false
any_is (x ∷ xs) id = (x == id) || any_is xs id

-- The test of the filter in `get_updated`.
unfoldable pub mentions : AwarenessEvent → ℕ → Bool
mentions self id = any_is self.added id || (any_is self.updated id || any_is self.removed id)

unfoldable pub get_updated : AwarenessEvent → AwarenessStates → AwarenessStates
get_updated self [] = []
get_updated self ((id, state) ∷ states) =
    if mentions self id then (id, state) ∷ get_updated self states else get_updated self states

pub record Awareness : Type 0 where
  pub awareness : AwarenessStates
  pub callback : Option ℕ
  pub local_id : ℕ

-- `Awareness::new`
unfoldable pub Awareness_new : ℕ → Awareness
Awareness_new local_id = record { awareness = []; callback = none; local_id = local_id }

unfoldable pub on_update : Awareness → ℕ → Awareness
on_update self f = record self { callback = some f }

abbrev pub content_of : Option AwarenessState → Option Bytes
content_of none = none
content_of (some state) = some state.content

unfoldable pub get_local_state : Awareness → Option Bytes
get_local_state self = content_of (get self.awareness self.local_id)

abbrev or_default : Option AwarenessState → AwarenessState
or_default none = default_state
or_default (some state) = state

-- The call of the registered callback: which one it is, and the event that it is given.
abbrev pub Call : Type 0
Call = Option (ℕ × AwarenessEvent)

abbrev pub call : Option ℕ → AwarenessEvent → Call
call none event = none
call (some cb) event = some (cb, event)

-- `mut_local_state`, and what is done to the state behind the reference.
abbrev on_local_state : Awareness → (AwarenessState → AwarenessState) → Awareness
on_local_state self f = record self {
  awareness =
      insert self.awareness self.local_id (f (or_default (get self.awareness self.local_id)));
}

unfoldable pub set_local_state : Awareness → Bytes → Awareness × Call
set_local_state self content = (
  on_local_state self (λ s. set_content s content),
  call self.callback (update no_event self.local_id),
)

unfoldable pub clear_local_state : Awareness → Awareness × Call
clear_local_state self =
    (on_local_state self delete, call self.callback (remove no_event self.local_id))

-- What an update makes of one entry, with the event so far.
abbrev pub apply_entry :
    ℕ
    → Option AwarenessState
    → ℕ
    → AwarenessState
    → AwarenessEvent
    → AwarenessState × AwarenessEvent
apply_entry local_id none client_id state event = (state, add event client_id)
apply_entry local_id (some prev) client_id state event =
    if client_id == local_id
    then (set_clock prev ((max prev.clock state.clock + 1) % 2 ^ 64), update event client_id)
    else if ltb prev.clock state.clock
    then (if is_deleted state
        then (delete prev, remove event client_id)
        else (state, update event client_id))
    else (prev, event)

-- The loop of `apply_update` over the map `update`.
unfoldable pub apply_entries :
    ℕ → AwarenessStates → AwarenessEvent → AwarenessStates → AwarenessStates × AwarenessEvent
apply_entries local_id states event [] = (states, event)
apply_entries local_id states event ((client_id, state) ∷ rest) =
    let (state', event') = apply_entry local_id (get states client_id) client_id state event in
    apply_entries local_id (insert states client_id state') event' rest

unfoldable pub apply_update : Awareness → AwarenessStates → Awareness × Call
unfolding apply_entries
apply_update self states =
    let (awareness', event) = apply_entries self.local_id self.awareness no_event states in
    (record self { awareness = awareness' }, call self.callback event)
