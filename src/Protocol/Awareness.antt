-- ===== src/Protocol/Awareness.antt =====
-- libs/jwst-codec/src/protocol/awareness.rs: the state that a client shares, and its binary form.
pub mod RoundTrip
use octo_base.Base.{
  ℕ, suc, ◌+◌, ◌%◌, ◌^◌, ◌≡◌, Bool, true, false, ◌&&◌, List, [], ◌∷◌, ◌++◌, length, ◌==◌,
}
use octo_base.Base.Result.{ok, err, ◌>>=◌}
use octo_base.Crates.{Crates, Bytes, IResult}
use octo_base.Codec.Integer.{read_var_u64, write_var_u64}
use octo_base.Codec.Buffer.{read_var_string, write_var_string}
use octo_base.Doc.Client.{ClientMap, insert_all}

pub record AwarenessState : Type 0 where
  pub clock : ℕ
  pub content : Bytes

-- `NULL_STR`
abbrev pub null_str : Bytes
null_str = b'n' ∷ b'u' ∷ b'l' ∷ b'l' ∷ []

abbrev bytes_eq : Bytes → Bytes → Bool
bytes_eq [] [] = true
bytes_eq (a ∷ as') (b ∷ bs) = (a == b) && bytes_eq as' bs
bytes_eq _ _ = false

unfoldable pub is_deleted : AwarenessState → Bool
is_deleted self = bytes_eq self.content null_str

-- The clock is a u64 and wraps in a release build.
unfoldable pub add_clock : AwarenessState → AwarenessState
add_clock self = record self { clock = (self.clock + 1) % 2 ^ 64 }

unfoldable pub set_clock : AwarenessState → ℕ → AwarenessState
set_clock self clock = record self { clock = clock }

unfoldable pub set_content : AwarenessState → Bytes → AwarenessState
unfolding add_clock
set_content self content = record (add_clock self) { content = content }

unfoldable pub delete : AwarenessState → AwarenessState
unfolding set_content
delete self = set_content self null_str

-- `AwarenessState::default()`
abbrev pub default_state : AwarenessState
default_state = record { clock = 0; content = null_str }

abbrev pub AwarenessStates : Type 0
AwarenessStates = ClientMap AwarenessState

module _ ⦃c : Crates⦄ where
  unfoldable pub read_awareness_state : Bytes → IResult (ℕ × AwarenessState)
  read_awareness_state input = do
    (tail, client_id) ← read_var_u64 input
    (tail', clock) ← read_var_u64 tail
    (tail'', content) ← read_var_string tail'
    ok (tail'', (client_id, record { clock = clock; content = content }))

  unfoldable pub write_awareness_state : Bytes → ℕ → AwarenessState → Bytes
  write_awareness_state buffer client_id state =
      write_var_string (write_var_u64 (write_var_u64 buffer client_id) state.clock) state.content

  unfoldable pub read_awareness : Bytes → IResult AwarenessStates
  read_awareness input = do
    (tail, len) ← read_var_u64 input
    (tail', messages) ← c.nom_count read_awareness_state len tail
    ok (tail', insert_all [] messages)

  unfoldable pub write_states : Bytes → AwarenessStates → Bytes
  write_states buffer [] = buffer
  write_states buffer ((client_id, state) ∷ clients) =
      write_states (write_awareness_state buffer client_id state) clients

  unfoldable pub write_awareness : Bytes → AwarenessStates → Bytes
  unfolding write_states
  write_awareness buffer clients = write_states (write_var_u64 buffer (length clients)) clients
