-- ===== src/Runs/ProtocolRuns.antt =====
-- The theorems on libs/jwst-codec/src/protocol at concrete inputs.
use octo_base.Base.{◌^◌, ◌<◌, ◌≡◌, refl, true, some, [], ◌∷◌, ◌++◌, length, replicate, arith}
use octo_base.Base.Result.{ok, err}
use octo_base.Crates.{error, tag}
use octo_base.Codec.Integer.RoundTrip.{varint}
use octo_base.Codec.Utf8.{is_utf8}
use octo_base.Doc.Client.{get}
use octo_base.Protocol.Awareness.{AwarenessStates, read_awareness, write_awareness}
use octo_base.Protocol.Awareness.RoundTrip.{
  AreStates, states_bytes, length-states_bytes, read_awareness-write_awareness,
}
use octo_base.Protocol.Message.{SyncMessage, step1, read_sync_message, write_sync_message}
use octo_base.Protocol.Message.RoundTrip.{read_sync_message-write_sync_message}
use octo_base.Protocol.Scanner.{take_items, write_all, take_items-write_all, take_items_unknown}
use octo_base.Runs.Host.{host}

-- The states of two clients, one of which has left.
abbrev two_states : AwarenessStates
two_states =
    (9, record { clock = 300; content = b'{' ∷ b'}' ∷ [] })
    ∷ (4, record { clock = 2; content = b'n' ∷ b'u' ∷ b'l' ∷ b'l' ∷ [] })
    ∷ []

two_states-AreStates : AreStates two_states
unfolding get is_utf8
two_states-AreStates = (
  (refl, (refl, tt)),
  (
    (omega arith, omega arith, omega arith, refl),
    ((omega arith, omega arith, omega arith, refl), tt),
  ),
  omega arith,
)

read_awareness-write_awareness_example :
    read_awareness (write_awareness [] two_states ++ 5 ∷ []) ≡ ok (5 ∷ [], two_states)
read_awareness-write_awareness_example =
    read_awareness-write_awareness two_states (5 ∷ []) two_states-AreStates

abbrev request : SyncMessage
request = SyncMessage.doc (step1 (0 ∷ []))

abbrev refusal : SyncMessage
refusal = SyncMessage.auth (some (b'n' ∷ b'o' ∷ []))

refusal-IsUtf8 : is_utf8 (b'n' ∷ b'o' ∷ []) ≡ true
unfolding is_utf8
refusal-IsUtf8 = refl

read_sync_message-write_sync_message_example :
    read_sync_message (write_sync_message [] refusal ++ 7 ∷ []) ≡ ok (7 ∷ [], refusal)
read_sync_message-write_sync_message_example =
    read_sync_message-write_sync_message refusal (7 ∷ []) (omega arith, refusal-IsUtf8)

take_items-write_all_example :
    take_items 4
      (record { buffer = write_all [] (request ∷ SyncMessage.awareness_query ∷ refusal ∷ []) })
    ≡ ok request ∷ ok SyncMessage.awareness_query ∷ ok refusal ∷ []
take_items-write_all_example =
    take_items-write_all (request ∷ SyncMessage.awareness_query ∷ refusal ∷ []) 4
      (omega arith, (tt, ((omega arith, refusal-IsUtf8), tt))) (omega arith)

take_items_unknown_example :
    take_items 3 (record { buffer = varint 200 ++ [] })
    ≡ replicate 3 (err (error (varint 200 ++ []) tag))
take_items_unknown_example = take_items_unknown 200 3 [] (omega arith) (omega arith)

two_states-length : length (states_bytes two_states) < 2 ^ 64
two_states-length = omega (arith, length-states_bytes two_states two_states-AreStates)
