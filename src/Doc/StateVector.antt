-- ===== src/Doc/StateVector.antt =====
-- `StateVector` of libs/jwst-codec/src/doc/common/state.rs: the clock that each client has reached.
pub mod RoundTrip
use octo_base.Base.{
  ℕ, ◌≤◌, min, max, ◌≡◌, refl, Bool, true, false, Option, none, some, List, [], ◌∷◌, arith, length,
  ltb, leb, ◌==◌, if◌then◌else◌, Bool-cases, inl, inr, ==_iff,
}
use octo_base.Crates.{Crates, Bytes}
use octo_base.Codec.Integer.{write_var_u64}
use octo_base.Doc.Client.{ItemId, ClientMap, IsMap, get, insert, get-insert}
use octo_base.Doc.Io.{Reader, pure, ◌>>=◌, read_u64, read_entries}

abbrev pub StateVector : Type 0
StateVector = ClientMap ℕ

-- What `or_insert` and `and_modify` make of an entry.
abbrev entry_max : Option ℕ → ℕ → ℕ
entry_max none clock = clock
entry_max (some m_clock) clock = if ltb m_clock clock then clock else m_clock

abbrev entry_min : Option ℕ → ℕ → ℕ
entry_min none clock = clock
entry_min (some m_clock) clock = if ltb clock m_clock then clock else m_clock

unfoldable pub set_max : StateVector → ℕ → ℕ → StateVector
set_max self client clock = insert self client (entry_max (get self client) clock)

unfoldable pub set_min : StateVector → ℕ → ℕ → StateVector
set_min self client clock = insert self client (entry_min (get self client) clock)

abbrev pub or_zero : Option ℕ → ℕ
or_zero none = 0
or_zero (some clock) = clock

unfoldable pub get_clock : StateVector → ℕ → ℕ
get_clock self client = or_zero (get self client)

unfoldable pub contains : StateVector → ItemId → Bool
unfolding get_clock
contains self id = leb id.clock (get_clock self id.client)

-- `for (client, clock) in other.iter() { self.set_min(*client, *clock) }`
unfoldable pub merge_with : StateVector → StateVector → StateVector
unfolding set_min
merge_with self [] = self
merge_with self ((client, clock) ∷ other) = merge_with (set_min self client clock) other

-- `From<[(Client, Clock); N]>`
unfoldable pub from_entries : StateVector → List (ℕ × ℕ) → StateVector
from_entries map [] = map
from_entries map ((client, clock) ∷ rest) = from_entries (insert map client clock) rest

module _ ⦃c : Crates⦄ where
  unfoldable pub read_entry : Reader (ℕ × ℕ)
  read_entry = do client ← read_u64; clock ← read_u64; pure (client, clock)

  unfoldable pub read : Reader StateVector
  unfolding read_entry
  read = do len ← read_u64; read_entries read_entry len []

  unfoldable pub write_entries : Bytes → StateVector → Bytes
  write_entries encoder [] = encoder
  write_entries encoder ((client, clock) ∷ rest) =
      write_entries (write_var_u64 (write_var_u64 encoder client) clock) rest

  unfoldable pub write : Bytes → StateVector → Bytes
  unfolding write_entries
  write encoder self = write_entries (write_var_u64 encoder (length self)) self

-- After `set_max` the clock of the client is the larger of the two, and no other changes.
pub get_clock-set_max :
    (self : StateVector) (client clock j : ℕ)
    → get_clock (set_max self client clock) j
      ≡ (if client == j then max (get_clock self j) clock else get_clock self j)
unfolding get_clock set_max
get_clock-set_max self client clock j =
    rw (get-insert self client j (entry_max (get self client) clock))
      (elim (Bool-cases (client == j)) [
        | inl same ↦ rw (same, (==_iff client j).0 same) (largest (get self j))
        | inr other ↦ rw other
      ])
  where
    largest : (o : Option ℕ) → entry_max o clock ≡ max (or_zero o) clock
    largest none = omega arith
    largest (some m) = ground arith

-- The clock of a client in a merge: the smaller one where both vectors have it, the one that there
-- is where one has it.
abbrev pub merged : Option ℕ → Option ℕ → Option ℕ
merged none o = o
merged (some a) none = some a
merged (some a) (some b) = some (min a b)

merged-entry_min : (o : Option ℕ) (clock : ℕ) → some (entry_min o clock) ≡ merged o (some clock)
merged-entry_min none clock = refl
merged-entry_min (some a) clock = ground arith

merged-none : (o : Option ℕ) → merged o none ≡ o
merged-none none = refl
merged-none (some a) = refl

-- For each client, `merge_with` keeps the smaller clock where both vectors have one, and the clock
-- that there is where one of them has it. No client may stand twice in the other vector.
pub get-merge_with :
    (other self : StateVector) (j : ℕ)
    → IsMap other
    → get (merge_with self other) j ≡ merged (get self j) (get other j)
unfolding merge_with get
get-merge_with [] self j h = rw (merged-none (get self j))
get-merge_with ((client, clock) ∷ other) self j (fresh, h) =
    rw
      (
        get-merge_with other (insert self client (entry_min (get self client) clock)) j h,
        get-insert self client j (entry_min (get self client) clock),
      )
      (elim (Bool-cases (client == j)) [
        | inl same ↦
            let e = (==_iff client j).0 same in
            rw (same, (rw e at fresh), e) (merged-entry_min (get self j) clock)
        | inr different ↦ rw different
      ])
