-- ===== src/Protocol/Awareness/RoundTrip.antt =====
-- The states of the clients read back as they were written.
use octo_base.Base.{
  ℕ, ◌+◌, ◌≤◌, length-append, ◌≡◌, [], ◌∷◌, ◌++◌, append_assoc, append-nil, length, All, arith,
}
use octo_base.Base.Result.{ok}
use octo_base.Crates.{Crates, Bytes}
use octo_base.Codec.Integer.{write_var_u64}
use octo_base.Codec.Integer.Spec.{IsU64}
use octo_base.Codec.Integer.RoundTrip.{varint, varint_format, write_var_u64-varint}
use octo_base.Codec.Utf8.{IsUtf8}
use octo_base.Codec.Buffer.{
  Parses, sized, read_var_u64-varint, read_var_string-sized, write_var_string-sized,
}
use octo_base.Doc.Client.{IsMap, insert_all_self}
use octo_base.Doc.Io.Reads.{concat_map}
use octo_base.Protocol.Awareness.{
  AwarenessState, AwarenessStates, read_awareness_state, write_awareness_state, read_awareness,
  write_states, write_awareness,
}

-- Numbers are u64, and the content is a string.
abbrev pub IsState : ℕ × AwarenessState → Type 0
IsState (client_id, state) =
    IsU64 client_id × IsU64 state.clock × IsU64 (length state.content) × IsUtf8 state.content

abbrev pub AreStates : AwarenessStates → Type 0
AreStates clients = IsMap clients × All IsState clients × IsU64 (length clients)

module _ ⦃c : Crates⦄ where
  abbrev state_bytes : ℕ × AwarenessState → Bytes
  state_bytes (client_id, state) = varint client_id ++ (varint state.clock ++ sized state.content)

  Parses-state :
      (e : ℕ × AwarenessState) → IsState e → Parses read_awareness_state (state_bytes e) e
  unfolding read_awareness_state
  Parses-state (client_id, state) (hc, hk, hl, hs) rest = rw (
    append_assoc (varint client_id) (varint state.clock ++ sized state.content) rest,
    append_assoc (varint state.clock) (sized state.content) rest,
    read_var_u64-varint client_id hc (varint state.clock ++ (sized state.content ++ rest)),
    read_var_u64-varint state.clock hk (sized state.content ++ rest),
    read_var_string-sized state.content hl hs rest,
  )

  write_state_bytes :
      (buffer : Bytes) (client_id : ℕ) (state : AwarenessState)
      → write_awareness_state buffer client_id state ≡ buffer ++ state_bytes (client_id, state)
  unfolding write_awareness_state
  write_state_bytes buffer client_id state = rw (
    write_var_string-sized (write_var_u64 (write_var_u64 buffer client_id) state.clock)
        state.content,
    write_var_u64-varint (write_var_u64 buffer client_id) state.clock,
    write_var_u64-varint buffer client_id,
    append_assoc (buffer ++ varint client_id) (varint state.clock) (sized state.content),
    append_assoc buffer (varint client_id) (varint state.clock ++ sized state.content),
  )

  write_states_bytes :
      (clients : AwarenessStates) (buffer : Bytes)
      → write_states buffer clients ≡ buffer ++ concat_map state_bytes clients
  unfolding write_states
  write_states_bytes [] buffer = rw append-nil
  write_states_bytes ((client_id, state) ∷ clients) buffer = rw (
    write_states_bytes clients (write_awareness_state buffer client_id state),
    write_state_bytes buffer client_id state,
    append_assoc buffer (state_bytes (client_id, state)) (concat_map state_bytes clients),
  )

  -- `nom::multi::count` on values one behind the other.
  Parses-count :
      (clients : AwarenessStates)
      → All IsState clients
      → Parses
          (c.nom_count read_awareness_state (length clients))
          (concat_map state_bytes clients)
          clients
  Parses-count [] all rest = c.nom_count_zero read_awareness_state rest
  Parses-count (e ∷ clients) (he, all) rest = rw (
    c.nom_count_suc read_awareness_state (length clients),
    append_assoc (state_bytes e) (concat_map state_bytes clients) rest,
    Parses-state e he (concat_map state_bytes clients ++ rest),
    Parses-count clients all rest,
  )

  -- The bytes of a map of states.
  unfoldable pub states_bytes : AwarenessStates → Bytes
  states_bytes clients = varint (length clients) ++ concat_map state_bytes clients

  length-varint : (v : ℕ) → IsU64 v → length (varint v) ≤ 10
  length-varint v h = let (form, same, len) = varint_format v h in len

  length-state_bytes :
      (e : ℕ × AwarenessState) → IsState e → length (state_bytes e) ≤ 30 + length e.1.content
  unfolding sized
  length-state_bytes (client_id, state) (hc, hk, hl, hs) = omega (
    arith,
    length-append (varint client_id) (varint state.clock ++ sized state.content),
    length-append (varint state.clock) (sized state.content),
    length-append (varint (length state.content)) state.content,
    length-varint client_id hc,
    length-varint state.clock hk,
    length-varint (length state.content) hl,
  )

  -- Thirty bytes for the numbers of each client, and the contents.
  abbrev pub size_limit : AwarenessStates → ℕ
  size_limit [] = 10
  size_limit ((client_id, state) ∷ clients) = 30 + length state.content + size_limit clients

  length-concat_states :
      (clients : AwarenessStates)
      → All IsState clients
      → 10 + length (concat_map state_bytes clients) ≤ size_limit clients
  length-concat_states [] all = omega arith
  length-concat_states (e ∷ clients) (h, all) = omega (
    arith,
    length-append (state_bytes e) (concat_map state_bytes clients),
    length-state_bytes e h,
    length-concat_states clients all,
  )

  pub length-states_bytes :
      (clients : AwarenessStates)
      → AreStates clients
      → length (states_bytes clients) ≤ size_limit clients
  unfolding states_bytes
  length-states_bytes clients (unique, all, count) = omega (
    arith,
    length-append (varint (length clients)) (concat_map state_bytes clients),
    length-varint (length clients) count,
    length-concat_states clients all,
  )

  pub write_awareness-states_bytes :
      (buffer : Bytes) (clients : AwarenessStates)
      → write_awareness buffer clients ≡ buffer ++ states_bytes clients
  unfolding write_awareness states_bytes
  write_awareness-states_bytes buffer clients = rw (
    write_states_bytes clients (write_var_u64 buffer (length clients)),
    write_var_u64-varint buffer (length clients),
    append_assoc buffer (varint (length clients)) (concat_map state_bytes clients),
  )

  pub read_awareness-states_bytes :
      (clients : AwarenessStates)
      → AreStates clients
      → Parses read_awareness (states_bytes clients) clients
  unfolding read_awareness states_bytes
  read_awareness-states_bytes clients (unique, all, count) rest = rw (
    append_assoc (varint (length clients)) (concat_map state_bytes clients) rest,
    read_var_u64-varint (length clients) count (concat_map state_bytes clients ++ rest),
    Parses-count clients all rest,
    insert_all_self clients unique,
  )

  -- `read_awareness` gives back the states that `write_awareness` wrote to an empty buffer, and
  -- leaves what follows them. No client may stand twice, clients, clocks, lengths and the number
  -- of clients must be u64, and contents UTF-8.
  pub read_awareness-write_awareness :
      (clients : AwarenessStates) (rest : Bytes)
      → AreStates clients
      → read_awareness (write_awareness [] clients ++ rest) ≡ ok (rest, clients)
  read_awareness-write_awareness clients rest h =
      rw (write_awareness-states_bytes [] clients) (read_awareness-states_bytes clients h rest)
