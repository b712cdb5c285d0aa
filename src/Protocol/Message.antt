-- ===== src/Protocol/Message.antt =====
-- libs/jwst-codec/src/protocol/doc.rs and sync.rs: the messages and their binary form.
pub mod RoundTrip
use octo_base.Base.{ℕ, Bool, true, false, Option, none, some, [], ◌∷◌, ◌==◌, if◌then◌else◌}
use octo_base.Base.Result.{ok, err, ◌>>=◌}
use octo_base.Crates.{Crates, Bytes, IResult, error, tag}
use octo_base.Codec.Integer.{read_var_u64, write_var_u64}
use octo_base.Codec.Buffer.{read_var_buffer, write_var_buffer, read_var_string, write_var_string}
use octo_base.Protocol.Awareness.{AwarenessStates, read_awareness, write_awareness}

pub data DocMessage : Type 0 where
  step1 step2 update : Bytes → DocMessage

-- `enum MessageType`
pub data MessageType : Type 0 where
  auth awareness awareness_query doc : MessageType

pub data SyncMessage : Type 0 where
  auth : Option Bytes → SyncMessage
  awareness : AwarenessStates → SyncMessage
  awareness_query : SyncMessage
  doc : DocMessage → SyncMessage

module _ ⦃c : Crates⦄ where
  abbrev doc_payload : Bytes → (Bytes → DocMessage) → IResult DocMessage
  doc_payload tail message = do (tail', bytes) ← read_var_buffer tail; ok (tail', message bytes)

  -- `DOC_MESSAGE_STEP1`, `DOC_MESSAGE_STEP2` and `DOC_MESSAGE_UPDATE` are 0, 1 and 2.
  unfoldable pub read_doc_message : Bytes → IResult DocMessage
  read_doc_message input = do
    (tail, step) ← read_var_u64 input
    if step == 0
        then doc_payload tail step1
        else if step == 1
        then doc_payload tail step2
        else if step == 2
        then doc_payload tail update
        else err (error input tag)

  unfoldable pub write_doc_message : Bytes → DocMessage → Bytes
  write_doc_message buffer (step1 sv) = write_var_buffer (write_var_u64 buffer 0) sv
  write_doc_message buffer (step2 bytes) = write_var_buffer (write_var_u64 buffer 1) bytes
  write_doc_message buffer (update bytes) = write_var_buffer (write_var_u64 buffer 2) bytes

  unfoldable pub read_sync_tag : Bytes → IResult MessageType
  read_sync_tag input = do
    (tail, t) ← read_var_u64 input
    if t == 0
        then ok (tail, MessageType.doc)
        else if t == 1
        then ok (tail, MessageType.awareness)
        else if t == 2
        then ok (tail, MessageType.auth)
        else if t == 3
        then ok (tail, MessageType.awareness_query)
        else err (error input tag)

  abbrev tag_of : MessageType → ℕ
  tag_of MessageType.doc = 0
  tag_of MessageType.awareness = 1
  tag_of MessageType.auth = 2
  tag_of MessageType.awareness_query = 3

  unfoldable pub write_sync_tag : Bytes → MessageType → Bytes
  write_sync_tag buffer t = write_var_u64 buffer (tag_of t)

  -- The reason behind an `Auth` message, unless the permission is granted.
  unfoldable pub read_reason : Bytes → ℕ → IResult SyncMessage
  read_reason tail success =
      if success == 1
      then ok (tail, SyncMessage.auth none)
      else (read_var_string tail >>= λ (tail', reason). ok (tail', SyncMessage.auth (some reason)))

  -- The `match tag` of `read_sync_message`.
  unfoldable pub read_message : MessageType → Bytes → IResult SyncMessage
  unfolding read_reason
  read_message MessageType.doc tail = do
    (tail', message) ← read_doc_message tail
    ok (tail', SyncMessage.doc message)
  read_message MessageType.awareness tail = do
    (tail', bytes) ← read_var_buffer tail
    (awareness_tail, states) ← read_awareness bytes
    ok (tail', SyncMessage.awareness states)
  read_message MessageType.auth tail = do
    (tail', success) ← read_var_u64 tail
    read_reason tail' success
  read_message MessageType.awareness_query tail = ok (tail, SyncMessage.awareness_query)

  unfoldable pub read_sync_message : Bytes → IResult SyncMessage
  read_sync_message input = do (tail, t) ← read_sync_tag input; read_message t tail

  unfoldable pub write_sync_message : Bytes → SyncMessage → Bytes
  write_sync_message buffer (SyncMessage.auth (some reason)) =
      write_var_string (c.write_u8 (write_sync_tag buffer MessageType.auth) 0) reason
  write_sync_message buffer (SyncMessage.auth none) =
      c.write_u8 (write_sync_tag buffer MessageType.auth) 1
  write_sync_message buffer SyncMessage.awareness_query =
      write_sync_tag buffer MessageType.awareness_query
  write_sync_message buffer (SyncMessage.awareness states) =
      write_var_buffer (write_sync_tag buffer MessageType.awareness) (write_awareness [] states)
  write_sync_message buffer (SyncMessage.doc message) =
      write_doc_message (write_sync_tag buffer MessageType.doc) message
