-- ===== src/Protocol/Encode.antt =====
-- libs/jwst-codec/src/doc/utils.rs: an update or the awareness states as a message of the protocol.
use octo_base.Base.{◌≡◌, refl, [], ◌++◌, length}
use octo_base.Base.Result.{ok}
use octo_base.Crates.{Crates, Bytes}
use octo_base.Codec.Integer.Spec.{IsU64}
use octo_base.Doc.Error.{JwstCodecResult}
use octo_base.Protocol.Awareness.{AwarenessStates}
use octo_base.Protocol.Awareness.RoundTrip.{AreStates, states_bytes}
use octo_base.Protocol.Message.{SyncMessage, update, read_sync_message, write_sync_message}
use octo_base.Protocol.Message.RoundTrip.{read_sync_message-write_sync_message}

module _ ⦃c : Crates⦄ where
  unfoldable pub encode_awareness_as_message : AwarenessStates → JwstCodecResult Bytes
  encode_awareness_as_message awareness =
      ok (write_sync_message [] (SyncMessage.awareness awareness))

  unfoldable pub encode_update_as_message : Bytes → JwstCodecResult Bytes
  encode_update_as_message bytes = ok (write_sync_message [] (SyncMessage.doc (update bytes)))

  -- Both encoders return bytes that `read_sync_message` reads as the message with the given
  -- payload, and from which it leaves what follows. The lengths of the payloads must fit a u64,
  -- and the states must fit their format.
  pub read_sync_message-encode :
      (bytes rest : Bytes) (states : AwarenessStates)
      → IsU64 (length bytes)
      → AreStates states
      → IsU64 (length (states_bytes states))
      → ((buffer : Bytes) × (encode_update_as_message bytes ≡ ok buffer)
          × (read_sync_message (buffer ++ rest) ≡ ok (rest, SyncMessage.doc (update bytes))))
        × ((buffer : Bytes) × (encode_awareness_as_message states ≡ ok buffer)
            × (read_sync_message (buffer ++ rest) ≡ ok (rest, SyncMessage.awareness states)))
  unfolding encode_awareness_as_message encode_update_as_message
  read_sync_message-encode bytes rest states h hs len = (
    (
      write_sync_message [] (SyncMessage.doc (update bytes)),
      refl,
      read_sync_message-write_sync_message (SyncMessage.doc (update bytes)) rest h,
    ),
    (
      write_sync_message [] (SyncMessage.awareness states),
      refl,
      read_sync_message-write_sync_message (SyncMessage.awareness states) rest (hs, len),
    ),
  )
