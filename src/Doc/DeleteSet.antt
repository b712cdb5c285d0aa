-- ===== src/Doc/DeleteSet.antt =====
-- libs/jwst-codec/src/doc/codec/delete_set.rs: for each client the clocks that are deleted. `none` is
-- a panic of the ranges below; u64 arithmetic wraps, as in a release build.
pub mod Holds
pub mod Clients
pub mod RoundTrip
use octo_base.Base.{
  ℕ, zero, suc, ◌+◌, ◌-◌, ◌%◌, ◌^◌, Bool, true, false, Option, none, some, List, [], ◌∷◌, length,
  map, ltb, leb, ◌==◌, if◌then◌else◌,
}
use octo_base.Base.Result.{ok, err}
use octo_base.Crates.{Crates, Bytes}
use octo_base.Codec.Integer.{write_var_u64}
use octo_base.Doc.Error.{JwstCodecResult, panicked}
use octo_base.Doc.Client.{ClientMap, get, insert}
use octo_base.Doc.OrderRange.{
  Range, OrderRange, range, fragment, BinarySearch, push, extend, merge, is_empty,
  ◌>>=◌ as and_then,
}
use octo_base.Doc.Io.{Reader, pure, throw, ◌>>=◌, read_u64, read_times, read_entries}

abbrev pub DeleteSet : Type 0
DeleteSet = ClientMap OrderRange

module _ ⦃b : BinarySearch⦄ where
  -- What becomes of the entry of a client: `Entry::Occupied` or `Entry::Vacant`.
  unfoldable pub entry_add_range : Option OrderRange → Range → Option OrderRange
  entry_add_range (some r) new = if is_empty r then some (range new) else push r new
  entry_add_range none new = some (range new)

  unfoldable pub entry_batch_add : Option OrderRange → List Range → Option OrderRange
  entry_batch_add (some r) new = extend r new
  entry_batch_add none new = some (fragment new)

  unfoldable pub entry_merge : Option OrderRange → OrderRange → Option OrderRange
  entry_merge (some r) new = merge r new
  entry_merge none new = some new

  unfoldable pub add_range : DeleteSet → ℕ → Range → Option DeleteSet
  add_range self client r =
      and_then (entry_add_range (get self client) r) λ entry. some (insert self client entry)

  unfoldable pub add : DeleteSet → ℕ → ℕ → ℕ → Option DeleteSet
  unfolding add_range
  add self client from len =
      add_range self client (record { start = from; end = (from + len) % 2 ^ 64 })

  unfoldable pub batch_add_ranges : DeleteSet → ℕ → List Range → Option DeleteSet
  batch_add_ranges self client new =
      and_then (entry_batch_add (get self client) new) λ entry. some (insert self client entry)

  unfoldable pub merge_into : DeleteSet → DeleteSet → Option DeleteSet
  merge_into self [] = some self
  merge_into self ((client, r) ∷ other) =
      and_then (entry_merge (get self client) r)
        λ entry. merge_into (insert self client entry) other

-- `clients.sort_by(|a, b| b.cmp(a))`, a stable sort, descending.
unfoldable pub insert_descending : ℕ → List ℕ → List ℕ
insert_descending x [] = x ∷ []
insert_descending x (y ∷ ys) = if leb y x then x ∷ y ∷ ys else y ∷ insert_descending x ys

unfoldable pub sort_descending : List ℕ → List ℕ
sort_descending [] = []
sort_descending (x ∷ xs) = insert_descending x (sort_descending xs)

abbrev pub keys : DeleteSet → List ℕ
keys = map (λ e. e.0)

module _ ⦃c : Crates⦄ where
  unfoldable pub read_range : Reader Range
  read_range = do
    clock ← read_u64
    len ← read_u64
    pure (record { start = clock; end = (clock + len) % 2 ^ 64 })

  unfoldable pub write_range : Bytes → Range → Bytes
  write_range encoder r =
      write_var_u64 (write_var_u64 encoder r.start) ((r.end + 2 ^ 64 - r.start) % 2 ^ 64)

  -- `VecDeque::with_capacity` of 16-byte ranges panics past `isize::MAX` bytes.
  unfoldable pub read_ranges : ℕ → Reader OrderRange
  read_ranges num_of_deletes =
      if num_of_deletes == 1
      then (read_range >>= λ r. pure (range r))
      else if ltb num_of_deletes (2 ^ 59)
      then (read_times read_range num_of_deletes >>= λ deletes. pure (fragment deletes))
      else throw panicked

  unfoldable pub read_order_range : Reader OrderRange
  unfolding read_ranges read_range
  read_order_range = do num_of_deletes ← read_u64; read_ranges num_of_deletes

  unfoldable pub write_ranges : Bytes → List Range → Bytes
  write_ranges encoder [] = encoder
  write_ranges encoder (r ∷ rs) = write_ranges (write_range encoder r) rs

  unfoldable pub write_order_range : Bytes → OrderRange → Bytes
  unfolding write_ranges write_range
  write_order_range encoder (range r) = write_range (write_var_u64 encoder 1) r
  write_order_range encoder (fragment rs) = write_ranges (write_var_u64 encoder (length rs)) rs

  unfoldable pub read_deletes : Reader (ℕ × OrderRange)
  read_deletes = do client ← read_u64; deletes ← read_order_range; pure (client, deletes)

  unfoldable pub read : Reader DeleteSet
  unfolding read_deletes
  read = do num_of_clients ← read_u64; read_entries read_deletes num_of_clients []

  -- `self.get(&client).unwrap().write(encoder)`
  unfoldable pub write_entry : Bytes → ℕ → Option OrderRange → JwstCodecResult Bytes
  write_entry encoder client none = err panicked
  write_entry encoder client (some r) = ok (write_order_range (write_var_u64 encoder client) r)

  abbrev pub written :
      JwstCodecResult Bytes → (Bytes → JwstCodecResult Bytes) → JwstCodecResult Bytes
  written (ok encoder) f = f encoder
  written (err e) f = err e

  unfoldable pub write_clients : Bytes → DeleteSet → List ℕ → JwstCodecResult Bytes
  write_clients encoder self [] = ok encoder
  write_clients encoder self (client ∷ clients) =
      written (write_entry encoder client (get self client))
        λ encoder'. write_clients encoder' self clients

  unfoldable pub write : Bytes → DeleteSet → JwstCodecResult Bytes
  unfolding write_clients write_entry
  write encoder self =
      write_clients (write_var_u64 encoder (length self)) self (sort_descending (keys self))
