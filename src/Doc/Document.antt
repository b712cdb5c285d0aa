-- ===== src/Doc/Document.antt =====
-- `Doc` of libs/jwst-codec/src/doc/document.rs: updates are applied to the store, and what cannot be
-- applied yet is kept. `pending` is a field of the source's store. The loops are on fuel. `is_owned` tells
-- whether the content of an item owns its type.
pub mod Pending
use octo_base.Base.{ℕ, zero, suc, Bool, true, false, ◌||◌, Option, none, some, List, [], ◌∷◌, ltb}
use octo_base.Base.Result.{Result, ok, err, ◌>>=◌ as and_then}
use octo_base.Crates.{Crates, Bytes}
use octo_base.Doc.Error.{JwstCodecResult, panicked}
use octo_base.Doc.Io.{RawDecoder_new}
use octo_base.Doc.OrderRange.{BinarySearch, Range}
use octo_base.Doc.StateVector.{StateVector}
use octo_base.Doc.Content.{Json}
use octo_base.Doc.Item.{Item}
use octo_base.Doc.Node.{Node, gc, skip, item}
use octo_base.Doc.Update.{
  Update, update_of, is_update_empty, is_pending_empty, drain_pending_state, read_update,
  write_update,
}
use octo_base.Doc.Update.Next.{UpdateIterator, UpdateIterator_new, next}
use octo_base.Doc.Update.Deletes.{DeleteSetIterator, DeleteSetIterator_new, next_delete}
use octo_base.Doc.Update.Merge.{merge_updates}
use octo_base.Doc.Store.{DocStore, with_client, get_state, get_state_vector}
use octo_base.Doc.Store.Diff.{diff_structs, generate_delete_set}
use octo_base.Doc.Store.Links.{Run, done, fail, ◌>>=◌}
use octo_base.Doc.Store.Delete.{delete_range}
use octo_base.Doc.Store.Repair.{repair}
use octo_base.Doc.Store.Integrate.{integrate}

pub record DocState : Type 0 where
  pub store : DocStore
  pub pending : Option Update

-- `Doc::with_client`
unfoldable pub new_doc : ℕ → DocState
new_doc client_id = record { store = with_client client_id; pending = none }

-- An item of an update is repaired before it is integrated.
unfoldable pub repair_node : (Item → Bool) → DocStore → Node → Run (Node × DocStore)
repair_node is_owned self (item it) =
    repair is_owned self it >>= λ (it', store). done (item it', store)
repair_node is_owned self (gc n) = done (gc n, self)
repair_node is_owned self (skip n) = done (skip n, self)

abbrev pub on_node :
    Option (Option (Node × ℕ) × UpdateIterator)
    → DocStore
    → (Node → ℕ → UpdateIterator → Run (Update × DocStore))
    → Run (Update × DocStore)
on_node none store use_node = none
on_node (some (none, iterator)) store use_node = done (iterator.update, store)
on_node (some (some (n, offset), iterator)) store use_node = use_node n offset iterator

abbrev pub on_range :
    DocStore
    → (ℕ → Range → DeleteSetIterator → Run (Update × DocStore))
    → Option (ℕ × Range) × DeleteSetIterator
    → Run (Update × DocStore)
on_range store use_range (none, iterator) = done (iterator.update, store)
on_range store use_range (some (client, r), iterator) = use_range client r iterator

-- `*clock < store.get_state(*client)` for one of the missing clocks
unfoldable pub any_reached : DocStore → StateVector → Bool
any_reached store [] = false
any_reached store ((client, at) ∷ missing) =
    ltb at (get_state store client) || any_reached store missing

abbrev pub or_panic {ℓ} : {A : Type ℓ} → Option A → Run A
or_panic none = fail panicked
or_panic (some a) = done a

abbrev pub save : DocStore → Update → Bool → DocState
save store update true = record { store = store; pending = none }
save store update false = record { store = store; pending = some update }

abbrev pub pending_if : Bool → Option Update → Option Update
pending_if true pending = pending
pending_if false pending = none

-- `if !retry`
abbrev pub retry_or_save : Bool → DocStore → Update → Run DocState → Run DocState
retry_or_save true store update again = again
retry_or_save false store update again = done (save store update (is_update_empty update))

module _ ⦃b : BinarySearch⦄ where
  -- The loop over the nodes: what it leaves of the update, and the store.
  unfoldable pub integrate_updates :
      (Item → Bool) → ℕ → ℕ → UpdateIterator → DocStore → Run (Update × DocStore)
  unfolding repair_node
  integrate_updates is_owned zero fuel iterator store = none
  integrate_updates is_owned (suc rounds) fuel iterator store =
      on_node (next fuel iterator) store λ n offset iterator'.
        repair_node is_owned store n >>= λ (n', store').
        integrate fuel store' n' offset none >>= λ store''.
        integrate_updates is_owned rounds fuel iterator' store''

  -- The loop over the deletes.
  unfoldable pub delete_updates : ℕ → ℕ → DeleteSetIterator → DocStore → Run (Update × DocStore)
  delete_updates zero fuel iterator store = none
  delete_updates (suc rounds) fuel iterator store =
      next_delete fuel iterator
      >>= on_range store λ client r iterator'.
        delete_range fuel store client r >>= λ store'. delete_updates rounds fuel iterator' store'

  -- What the pending update of the store and what is left of this one become.
  abbrev pub join_by : Bool → Update → Update → Run Update
  join_by true update pending = done pending
  join_by false update pending =
      or_panic (merge_updates (drain_pending_state update) (pending ∷ []))

  unfoldable pub join_pending : Update → Update → Run Update
  join_pending update pending = join_by (is_pending_empty update) update pending

  abbrev pub left_over : Bool → DocStore → Update → DocState
  left_over true store update = record { store = store; pending = none }
  left_over false store update =
      let drained = drain_pending_state update in save store drained (is_update_empty drained)

  abbrev pub on_pending :
      ℕ
      → DocStore
      → Update
      → Bool
      → Option Update
      → (DocStore → Update → Bool → Run DocState)
      → Run DocState
  on_pending fuel store update retry none again =
      done (left_over (is_pending_empty update) store update)
  on_pending fuel store update retry (some pending) again =
      delete_updates fuel fuel (DeleteSetIterator_new pending (get_state_vector store)) store
      >>= λ (pending', store'). join_pending update pending' >>= λ joined.
          let retry' = retry || any_reached store pending.missing_state in
          retry_or_save retry' store' joined (again store' joined retry')

  -- The `loop`; each of the loops inside has `fuel`.
  unfoldable pub apply_loop : (Item → Bool) → ℕ → ℕ → DocState → Update → Bool → Run DocState
  unfolding integrate_updates delete_updates any_reached join_pending
  apply_loop is_owned zero fuel self update retry = none
  apply_loop is_owned (suc rounds) fuel self update retry =
      integrate_updates is_owned fuel fuel (UpdateIterator_new update (get_state_vector self.store))
        self.store
      >>= λ (update', store).
          delete_updates fuel fuel (DeleteSetIterator_new update' (get_state_vector store)) store
          >>= λ (update'', store').
              on_pending fuel store' update'' retry self.pending λ store'' joined retry'.
                apply_loop is_owned rounds fuel (record { store = store''; pending = none }) joined
                  retry'

  unfoldable pub apply_update : (Item → Bool) → ℕ → DocState → Update → Run DocState
  unfolding apply_loop
  apply_update is_owned fuel self update = apply_loop is_owned fuel fuel self update false

  abbrev pub with_pending_update : Option Update → Update → Run Update
  with_pending_update none update = done update
  with_pending_update (some pending) update = or_panic (merge_updates update (pending ∷ []))

  -- `DocStore::diff_state_vector`, with the pending update or without.
  unfoldable pub diff_state_vector : DocState → StateVector → Bool → Run Update
  diff_state_vector self sv with_pending = diff_structs self.store.items sv >>= λ structs.
      or_panic (generate_delete_set self.store.items) >>= λ delete_set.
      with_pending_update (pending_if with_pending self.pending) (update_of structs delete_set)

  unfoldable pub encode_state_as_update : DocState → StateVector → Run Update
  unfolding diff_state_vector
  encode_state_as_update self sv = diff_state_vector self sv true

  unfoldable pub encode_update : DocState → Run Update
  unfolding encode_state_as_update
  encode_update self = encode_state_as_update self []

  module _ ⦃c : Crates⦄ ⦃j : Json⦄ where
    unfoldable pub encode_state_as_update_v1 : DocState → StateVector → Run Bytes
    unfolding encode_state_as_update
    encode_state_as_update_v1 self sv =
        encode_state_as_update self sv >>= λ update. some (write_update [] update)

    unfoldable pub encode_update_v1 : DocState → Run Bytes
    unfolding encode_state_as_update_v1
    encode_update_v1 self = encode_state_as_update_v1 self []

    -- The items that are read own their types.
    unfoldable pub apply_update_from_binary_v1 : ℕ → DocState → Bytes → Run DocState
    unfolding apply_update
    apply_update_from_binary_v1 fuel self binary =
        some (read_update (RawDecoder_new binary)) >>= λ (update, decoder).
        apply_update (λ it. true) fuel self update

    -- `Doc::try_from_binary_v1_with_options`, with the options' client.
    unfoldable pub try_from_binary_v1 : ℕ → ℕ → Bytes → Run DocState
    unfolding apply_update_from_binary_v1
    try_from_binary_v1 fuel client_id binary =
        apply_update_from_binary_v1 fuel (new_doc client_id) binary
