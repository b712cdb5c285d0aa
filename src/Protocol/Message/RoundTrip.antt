-- ===== src/Protocol/Message/RoundTrip.antt =====
-- Every message reads back as it was written, and an unknown tag is refused.
use octo_base.Base.{
  ℕ, ◌≤◌, ◌<◌, ◌≡◌, refl, ◌∙◌, ap, none, some, [], ◌∷◌, ◌++◌, append_assoc, append-nil, length,
  arith,
}
use octo_base.Base.Result.{ok, err}
use octo_base.Crates.{Crates, Bytes, error, tag}
use octo_base.Codec.Integer.{read_var_u64, write_var_u64}
use octo_base.Codec.Integer.Spec.{IsU64}
use octo_base.Codec.Integer.RoundTrip.{varint, write_var_u64-varint, read_var_u64-value}
use octo_base.Codec.Utf8.{IsUtf8}
use octo_base.Codec.Buffer.{
  Parses, sized, read_var_u64-varint, read_var_buffer-sized, read_var_string-sized,
  write_var_buffer-sized, write_var_string-sized,
}
use octo_base.Protocol.Awareness.{write_awareness}
use octo_base.Protocol.Awareness.RoundTrip.{
  AreStates, states_bytes, write_awareness-states_bytes, read_awareness-states_bytes,
}
use octo_base.Protocol.Message.{
  DocMessage, step1, step2, update, MessageType, SyncMessage, tag_of, read_doc_message,
  write_doc_message, read_sync_tag, write_sync_tag, read_message, read_sync_message,
  write_sync_message,
}

abbrev pub IsDocMessage : DocMessage → Type 0
IsDocMessage (step1 bytes) = IsU64 (length bytes)
IsDocMessage (step2 bytes) = IsU64 (length bytes)
IsDocMessage (update bytes) = IsU64 (length bytes)

module _ ⦃c : Crates⦄ where
  -- Strings are UTF-8 and every length fits a u64.
  abbrev pub IsMessage : SyncMessage → Type 0
  IsMessage (SyncMessage.auth none) = Unit {0}
  IsMessage (SyncMessage.auth (some reason)) = IsU64 (length reason) × IsUtf8 reason
  IsMessage (SyncMessage.awareness states) = AreStates states × IsU64 (length (states_bytes states))
  IsMessage SyncMessage.awareness_query = Unit {0}
  IsMessage (SyncMessage.doc message) = IsDocMessage message

  abbrev doc_bytes : DocMessage → Bytes
  doc_bytes (step1 bytes) = varint 0 ++ sized bytes
  doc_bytes (step2 bytes) = varint 1 ++ sized bytes
  doc_bytes (update bytes) = varint 2 ++ sized bytes

  doc_payload_bytes :
      (buffer bytes : Bytes) (step : ℕ)
      → (write_var_u64 buffer step ++ sized bytes) ≡ buffer ++ (varint step ++ sized bytes)
  doc_payload_bytes buffer bytes step =
      rw (write_var_u64-varint buffer step) (append_assoc buffer (varint step) (sized bytes))

  write_doc_bytes :
      (buffer : Bytes) (message : DocMessage)
      → write_doc_message buffer message ≡ buffer ++ doc_bytes message
  unfolding write_doc_message
  write_doc_bytes buffer (step1 bytes) =
      write_var_buffer-sized (write_var_u64 buffer 0) bytes ∙ doc_payload_bytes buffer bytes 0
  write_doc_bytes buffer (step2 bytes) =
      write_var_buffer-sized (write_var_u64 buffer 1) bytes ∙ doc_payload_bytes buffer bytes 1
  write_doc_bytes buffer (update bytes) =
      write_var_buffer-sized (write_var_u64 buffer 2) bytes ∙ doc_payload_bytes buffer bytes 2

  Parses-doc :
      (message : DocMessage)
      → IsDocMessage message
      → Parses read_doc_message (doc_bytes message) message
  unfolding read_doc_message
  Parses-doc (step1 bytes) h rest = rw (
    append_assoc (varint 0) (sized bytes) rest,
    read_var_u64-varint 0 (omega arith) (sized bytes ++ rest),
    read_var_buffer-sized bytes h rest,
  )
  Parses-doc (step2 bytes) h rest = rw (
    append_assoc (varint 1) (sized bytes) rest,
    read_var_u64-varint 1 (omega arith) (sized bytes ++ rest),
    read_var_buffer-sized bytes h rest,
  )
  Parses-doc (update bytes) h rest = rw (
    append_assoc (varint 2) (sized bytes) rest,
    read_var_u64-varint 2 (omega arith) (sized bytes ++ rest),
    read_var_buffer-sized bytes h rest,
  )

  tag_of-le : (t : MessageType) → tag_of t ≤ 3
  tag_of-le MessageType.auth = omega arith
  tag_of-le MessageType.awareness = omega arith
  tag_of-le MessageType.awareness_query = omega arith
  tag_of-le MessageType.doc = omega arith

  Parses-tag : (t : MessageType) → Parses read_sync_tag (varint (tag_of t)) t
  unfolding read_sync_tag
  Parses-tag MessageType.auth rest = rw (read_var_u64-varint 2 (omega arith) rest)
  Parses-tag MessageType.awareness rest = rw (read_var_u64-varint 1 (omega arith) rest)
  Parses-tag MessageType.awareness_query rest = rw (read_var_u64-varint 3 (omega arith) rest)
  Parses-tag MessageType.doc rest = rw (read_var_u64-varint 0 (omega arith) rest)

  -- One byte below 128 is an integer.
  read_var_u64-byte : (b : ℕ) (rest : Bytes) → b < 128 → read_var_u64 (b ∷ rest) ≡ ok (rest, b)
  read_var_u64-byte b rest h =
      read_var_u64-value (b ∷ []) rest h (omega arith) (omega arith)
      ∙ ap (λ t. ok (rest, t)) (omega arith)

  abbrev type_of : SyncMessage → MessageType
  type_of (SyncMessage.auth reason) = MessageType.auth
  type_of (SyncMessage.awareness states) = MessageType.awareness
  type_of SyncMessage.awareness_query = MessageType.awareness_query
  type_of (SyncMessage.doc message) = MessageType.doc

  abbrev payload_bytes : SyncMessage → Bytes
  payload_bytes (SyncMessage.auth none) = 1 ∷ []
  payload_bytes (SyncMessage.auth (some reason)) = 0 ∷ sized reason
  payload_bytes (SyncMessage.awareness states) = sized (states_bytes states)
  payload_bytes SyncMessage.awareness_query = []
  payload_bytes (SyncMessage.doc message) = doc_bytes message

  unfoldable pub message_bytes : SyncMessage → Bytes
  message_bytes message = varint (tag_of (type_of message)) ++ payload_bytes message

  tag_bytes :
      (buffer : Bytes) (t : MessageType) → write_sync_tag buffer t ≡ buffer ++ varint (tag_of t)
  unfolding write_sync_tag
  tag_bytes buffer t = write_var_u64-varint buffer (tag_of t)

  pub write_sync_message-message_bytes :
      (buffer : Bytes) (message : SyncMessage)
      → write_sync_message buffer message ≡ buffer ++ message_bytes message
  unfolding write_sync_message message_bytes
  write_sync_message-message_bytes buffer (SyncMessage.auth none) =
      rw (c.write_u8_append, tag_bytes buffer MessageType.auth)
        (append_assoc buffer (varint 2) (1 ∷ []))
  write_sync_message-message_bytes buffer (SyncMessage.auth (some reason)) = rw (
    write_var_string-sized (c.write_u8 (write_sync_tag buffer MessageType.auth) 0) reason,
    c.write_u8_append,
    tag_bytes buffer MessageType.auth,
    append_assoc (buffer ++ varint 2) (0 ∷ []) (sized reason),
    append_assoc buffer (varint 2) (0 ∷ sized reason),
  )
  write_sync_message-message_bytes buffer (SyncMessage.awareness states) = rw (
    write_var_buffer-sized (write_sync_tag buffer MessageType.awareness)
        (write_awareness [] states),
    write_awareness-states_bytes [] states,
    tag_bytes buffer MessageType.awareness,
    append_assoc buffer (varint 1) (sized (states_bytes states)),
  )
  write_sync_message-message_bytes buffer SyncMessage.awareness_query =
      tag_bytes buffer MessageType.awareness_query ∙ rw append-nil
  write_sync_message-message_bytes buffer (SyncMessage.doc message) = rw (
    write_doc_bytes (write_sync_tag buffer MessageType.doc) message,
    tag_bytes buffer MessageType.doc,
    append_assoc buffer (varint 0) (doc_bytes message),
  )

  Parses-payload :
      (message : SyncMessage)
      → IsMessage message
      → Parses (read_message (type_of message)) (payload_bytes message) message
  unfolding read_message
  Parses-payload (SyncMessage.auth none) h rest = rw (read_var_u64-byte 1 rest (omega arith))
  Parses-payload (SyncMessage.auth (some reason)) (h, v) rest = rw (
    read_var_u64-byte 0 (sized reason ++ rest) (omega arith),
    read_var_string-sized reason h v rest,
  )
  Parses-payload (SyncMessage.awareness states) (h, len) rest = rw (
    read_var_buffer-sized (states_bytes states) len rest,
    ← append-nil (states_bytes states),
    read_awareness-states_bytes states h [],
  )
  Parses-payload SyncMessage.awareness_query h rest = refl
  Parses-payload (SyncMessage.doc message) h rest = rw (Parses-doc message h rest)

  pub read_sync_message-message_bytes :
      (message : SyncMessage)
      → IsMessage message
      → Parses read_sync_message (message_bytes message) message
  unfolding read_sync_message message_bytes
  read_sync_message-message_bytes message h rest = rw (
    append_assoc (varint (tag_of (type_of message))) (payload_bytes message) rest,
    Parses-tag (type_of message) (payload_bytes message ++ rest),
    Parses-payload message h rest,
  )

  -- `read_sync_message` gives back any message that `write_sync_message` wrote to an empty buffer,
  -- and leaves what follows it. Lengths and numbers must fit a u64, strings must be UTF-8, and no
  -- client may stand twice among awareness states.
  pub read_sync_message-write_sync_message :
      (message : SyncMessage) (rest : Bytes)
      → IsMessage message
      → read_sync_message (write_sync_message [] message ++ rest) ≡ ok (rest, message)
  read_sync_message-write_sync_message message rest h =
      rw (write_sync_message-message_bytes [] message)
        (read_sync_message-message_bytes message h rest)

  -- A u64 above 3 in the place of the tag is a `Tag` error at the whole input.
  pub read_sync_message_unknown :
      (t : ℕ) (rest : Bytes)
      → IsU64 t
      → 3 < t
      → read_sync_message (varint t ++ rest) ≡ err (error (varint t ++ rest) tag)
  unfolding read_sync_message read_sync_tag
  read_sync_message_unknown t rest h big = rw (read_var_u64-varint t h rest) (ground arith)
