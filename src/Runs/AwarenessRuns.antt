-- ===== src/Runs/AwarenessRuns.antt =====
-- The theorems on libs/jwst-codec/src/doc/awareness.rs at concrete inputs.
use octo_base.Base.{ℕ, ◌≡◌, refl, false, some, [], ◌∷◌, ◌==◌, arith}
use octo_base.Crates.{Bytes}
use octo_base.Doc.Client.{get}
use octo_base.Protocol.Awareness.{AwarenessState, AwarenessStates, null_str, is_deleted}
use octo_base.Doc.Awareness.{Awareness, AwarenessEvent, apply_update, mentions}
use octo_base.Doc.Awareness.Updates.{resolved, get-apply_update, apply_update_revives}
use octo_base.Doc.Awareness.Events.{apply_update-unmentioned}

abbrev state : ℕ → Bytes → AwarenessState
state clock content = record { clock = clock; content = content }

-- Client 0 is the local one, and client 1 another.
abbrev meeting : Awareness
meeting = record {
  awareness = (0, state 1 (b'a' ∷ [])) ∷ (1, state 2 (b'b' ∷ [])) ∷ [];
  callback = some 5;
  local_id = 0;
}

abbrev news : AwarenessStates
news = (0, state 8 null_str) ∷ (1, state 9 null_str) ∷ (2, state 0 (b'c' ∷ [])) ∷ []

abbrev gone_news : AwarenessStates
gone_news = (1, state 9 null_str) ∷ []

abbrev old_news : AwarenessStates
old_news = (1, state 5 (b'd' ∷ [])) ∷ []

get-apply_update_example :
    get (apply_update meeting news).0.awareness 1
    ≡ resolved (1 == 0) (get meeting.awareness 1) (get news 1)
unfolding get
get-apply_update_example = get-apply_update meeting news 1 (refl, (refl, (refl, tt)))

apply_update_revives_example :
    get (apply_update (apply_update meeting gone_news).0 old_news).0.awareness 1
    ≡ some (state 5 (b'd' ∷ []))
unfolding get is_deleted
apply_update_revives_example =
    apply_update_revives meeting 1 (state 2 (b'b' ∷ [])) (state 5 (b'd' ∷ [])) (state 9 null_str)
      refl refl (omega arith) (omega arith) (omega arith) refl refl

apply_update-unmentioned_example :
    (event : AwarenessEvent) × ((apply_update meeting news).1 ≡ some (5, event))
    × ((k : ℕ)
        → mentions event k ≡ false
        → get (apply_update meeting news).0.awareness k ≡ get meeting.awareness k)
apply_update-unmentioned_example = apply_update-unmentioned meeting news 5 refl
