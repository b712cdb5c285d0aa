-- ===== src/Doc/StateVector/RoundTrip.antt =====
-- A state vector that was written reads back.
use octo_base.Base.{ℕ, ◌≡◌, [], ◌∷◌, ◌++◌, append_assoc, append-nil, length, All}
use octo_base.Base.Result.{ok}
use octo_base.Crates.{Crates, Bytes}
use octo_base.Codec.Integer.{write_var_u64}
use octo_base.Codec.Integer.Spec.{IsU64}
use octo_base.Codec.Integer.RoundTrip.{varint, write_var_u64-varint}
use octo_base.Doc.Client.{IsMap, get, insert_all, get-insert_all_empty}
use octo_base.Doc.Io.{RawDecoder_new, read_u64, read_entries, pure, ◌>>=◌}
use octo_base.Doc.Io.Reads.{
  Reads, Reads-bind, Reads-map, Reads-u64, Reads-entries, concat_map, between,
}
use octo_base.Doc.StateVector.{StateVector, read_entry, read, write_entries, write}

-- Clients and clocks are u64, and so is their number.
abbrev pub IsStateVector : StateVector → Type 0
IsStateVector self = IsMap self × All (λ e. IsU64 e.0 × IsU64 e.1) self × IsU64 (length self)

module _ ⦃c : Crates⦄ where
  abbrev entry_bytes : ℕ × ℕ → Bytes
  entry_bytes (client, clock) = varint client ++ varint clock

  write_entries_bytes :
      (self : StateVector) (encoder : Bytes)
      → write_entries encoder self ≡ encoder ++ concat_map entry_bytes self
  unfolding write_entries
  write_entries_bytes [] encoder = rw append-nil
  write_entries_bytes ((client, clock) ∷ rest) encoder = rw (
    write_entries_bytes rest (write_var_u64 (write_var_u64 encoder client) clock),
    write_var_u64-varint (write_var_u64 encoder client) clock,
    write_var_u64-varint encoder client,
    append_assoc (encoder ++ varint client) (varint clock) (concat_map entry_bytes rest),
    append_assoc encoder (varint client) (varint clock ++ concat_map entry_bytes rest),
    append_assoc (varint client) (varint clock) (concat_map entry_bytes rest),
  )

  Reads-entry : (e : ℕ × ℕ) → IsU64 e.0 × IsU64 e.1 → Reads read_entry (entry_bytes e) e
  unfolding read_entry
  Reads-entry (client, clock) (hc, hk) =
      Reads-bind read_u64 (λ x. read_u64 >>= λ y. pure (x, y)) (varint client) (varint clock) client
        (Reads-u64 client hc)
        (Reads-map read_u64 (λ y. (client, y)) (varint clock) clock (Reads-u64 clock hk))

  -- Where no client stands twice, and clients, clocks and their number are u64,
  -- `StateVector::read` gives back, from what `StateVector::write` appended to an empty buffer, a
  -- vector with the same clock for every client, and leaves the bytes behind it.
  pub read-write_state_vector :
      (self : StateVector) (rest : Bytes)
      → IsStateVector self
      → (self' : StateVector) × (read (RawDecoder_new (write [] self ++ rest))
          ≡ ok (self', between (write [] self) rest))
        × ((client : ℕ) → get self' client ≡ get self client)
  unfolding read write RawDecoder_new
  read-write_state_vector self rest (unique, all, count) =
      let bytes = varint (length self) ++ concat_map entry_bytes self in
      (
        insert_all [] self,
        rw
            (
              write_entries_bytes self (write_var_u64 [] (length self)),
              write_var_u64-varint [] (length self),
            )
            (Reads-bind read_u64 (λ n. read_entries read_entry n []) (varint (length self))
              (concat_map entry_bytes self) (length self) (Reads-u64 (length self) count)
              (Reads-entries read_entry entry_bytes (λ e. IsU64 e.0 × IsU64 e.1) Reads-entry self []
                all)
              [] rest),
        λ client. get-insert_all_empty self client unique,
      )
