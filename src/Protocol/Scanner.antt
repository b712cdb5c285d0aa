-- ===== src/Protocol/Scanner.antt =====
-- libs/jwst-codec/src/protocol/scanner.rs: an iterator over the messages in a buffer.
use octo_base.Base.{
  ℕ, zero, suc, ◌<◌, ◌≡◌, refl, ap, Option, none, some, List, [], ◌∷◌, ◌++◌, append_assoc,
  append-nil, length, replicate, All, map, arith,
}
use octo_base.Base.Result.{Result, ok, err}
use octo_base.Crates.{Crates, Bytes, IResult, NomErr, incomplete, error, failure, eof, map_res, tag}
use octo_base.Codec.Integer.{read_var_u64}
use octo_base.Codec.Integer.Spec.{IsU64}
use octo_base.Codec.Integer.RoundTrip.{varint}
use octo_base.Protocol.Message.{SyncMessage, read_sync_tag, read_sync_message, write_sync_message}
use octo_base.Protocol.Message.RoundTrip.{
  IsMessage, message_bytes, write_sync_message-message_bytes, read_sync_message-message_bytes,
  read_sync_message_unknown,
}

pub record SyncMessageScanner : Type 0 where
  pub buffer : Bytes

abbrev pub Item : Type 0
Item = Result SyncMessage (NomErr Bytes)

-- The `match` of `next`: an input that ends too early ends the iteration.
unfoldable pub step : SyncMessageScanner → IResult SyncMessage → Option Item × SyncMessageScanner
step self (ok (tail, message)) = (some (ok message), record self { buffer = tail })
step self (err (incomplete needed)) = (none, self)
step self (err (error input eof)) = (none, self)
step self (err (failure input eof)) = (none, self)
step self (err (error input map_res)) = (some (err (error input map_res)), self)
step self (err (error input tag)) = (some (err (error input tag)), self)
step self (err (failure input map_res)) = (some (err (failure input map_res)), self)
step self (err (failure input tag)) = (some (err (failure input tag)), self)

abbrev next_from :
    SyncMessageScanner → Bytes → IResult SyncMessage → Option Item × SyncMessageScanner
next_from self [] found = (none, self)
next_from self (b ∷ bs) found = step self found

abbrev more_items : Option Item → List Item → List Item
more_items none more = []
more_items (some item) more = item ∷ more

module _ ⦃c : Crates⦄ where
  unfoldable pub next : SyncMessageScanner → Option Item × SyncMessageScanner
  unfolding step
  next self = next_from self self.buffer (read_sync_message self.buffer)

  -- The first `n` calls of `next`, up to the first `None`.
  unfoldable pub take_items : ℕ → SyncMessageScanner → List Item
  take_items zero self = []
  take_items (suc n) self = more_items (next self).0 (take_items n (next self).1)

  unfoldable pub write_all : Bytes → List SyncMessage → Bytes
  write_all buffer [] = buffer
  write_all buffer (message ∷ messages) = write_all (write_sync_message buffer message) messages

  abbrev all_bytes : List SyncMessage → Bytes
  all_bytes [] = []
  all_bytes (message ∷ messages) = message_bytes message ++ all_bytes messages

  write_all-all_bytes :
      (messages : List SyncMessage) (buffer : Bytes)
      → write_all buffer messages ≡ buffer ++ all_bytes messages
  unfolding write_all
  write_all-all_bytes [] buffer = rw append-nil
  write_all-all_bytes (message ∷ messages) buffer = rw (
    write_all-all_bytes messages (write_sync_message buffer message),
    write_sync_message-message_bytes buffer message,
    append_assoc buffer (message_bytes message) (all_bytes messages),
  )

  next_from-ok :
      (self : SyncMessageScanner) (bs tail : Bytes) (message : SyncMessage)
      → read_sync_message bs ≡ ok (tail, message)
      → next_from self bs (read_sync_message bs) ≡ (some (ok message), record { buffer = tail })
  unfolding read_sync_message read_sync_tag read_var_u64 step
  next_from-ok self [] tail message e = cc
  next_from-ok self (b ∷ bs) tail message e = unfold step in rw e

  next_message :
      (message : SyncMessage) (rest : Bytes)
      → IsMessage message
      → next (record { buffer = message_bytes message ++ rest })
        ≡ (some (ok message), record { buffer = rest })
  unfolding next
  next_message message rest h =
      next_from-ok (record { buffer = message_bytes message ++ rest })
        (message_bytes message ++ rest) rest message
        (read_sync_message-message_bytes message h rest)

  take_items-all_bytes :
      (messages : List SyncMessage) (n : ℕ)
      → All IsMessage messages
      → length messages < n
      → take_items n (record { buffer = all_bytes messages }) ≡ map ok messages
  unfolding take_items
  take_items-all_bytes messages zero all h = absurd (omega arith)
  take_items-all_bytes [] (suc n) all h = unfold next in refl
  take_items-all_bytes (message ∷ messages) (suc n) (hm, all) h =
      rw (next_message message (all_bytes messages) hm)
        (ap (λ t. ok message ∷ t) (take_items-all_bytes messages n all (omega arith)))

  -- Over a buffer of messages written one after the other, each of which fits its format, the
  -- iterator yields these messages, in this order and no others, and then ends, for any number of
  -- calls above that of the messages.
  pub take_items-write_all :
      (messages : List SyncMessage) (n : ℕ)
      → All IsMessage messages
      → length messages < n
      → take_items n (record { buffer = write_all [] messages }) ≡ map ok messages
  take_items-write_all messages n all h =
      rw (write_all-all_bytes messages []) (take_items-all_bytes messages n all h)

  next_from-tag :
      (self : SyncMessageScanner) (bs input : Bytes)
      → read_sync_message bs ≡ err (error input tag)
      → next_from self bs (read_sync_message bs) ≡ (some (err (error input tag)), self)
  unfolding read_sync_message read_sync_tag read_var_u64 step
  next_from-tag self [] input e = cc
  next_from-tag self (b ∷ bs) input e = unfold step in rw e

  next_unknown :
      (t : ℕ) (rest : Bytes)
      → IsU64 t
      → 3 < t
      → next (record { buffer = varint t ++ rest })
        ≡ (some (err (error (varint t ++ rest) tag)), record { buffer = varint t ++ rest })
  unfolding next
  next_unknown t rest h big =
      let input = varint t ++ rest in
      next_from-tag (record { buffer = input }) input input (read_sync_message_unknown t rest h big)

  -- On a u64 above 3 in the place of the tag, each call of `next` yields the same error at the
  -- same input, for any number of calls: the scanner does not move, and the iteration has no end.
  pub take_items_unknown :
      (t n : ℕ) (rest : Bytes)
      → IsU64 t
      → 3 < t
      → take_items n (record { buffer = varint t ++ rest })
        ≡ replicate n (err (error (varint t ++ rest) tag))
  unfolding take_items
  take_items_unknown t zero rest h big = refl
  take_items_unknown t (suc n) rest h big =
      rw (next_unknown t rest h big)
        (ap (λ l. err (error (varint t ++ rest) tag) ∷ l) (take_items_unknown t n rest h big))
