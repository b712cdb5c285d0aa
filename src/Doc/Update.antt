-- ===== src/Doc/Update.antt =====
-- `Update` of libs/jwst-codec/src/doc/codec/update.rs: what is sent of a document. `none` of a merge is
-- a panic.
pub mod Merge
pub mod Next
pub mod Deletes
use octo_base.Base.{
  ℕ, zero, suc, ◌+◌, ◌-◌, ◌%◌, ◌^◌, Bool, true, false, not, ◌&&◌, Option, none, some, List, [], ◌∷◌,
  ◌++◌, length, map, ltb, leb, ◌==◌, if◌then◌else◌,
}
use octo_base.Base.Result.{Result, ok, err, ◌>>=◌ as and_then}
use octo_base.Crates.{Crates, Bytes}
use octo_base.Codec.Integer.{write_var_u64}
use octo_base.Doc.Error.{JwstCodecResult, raised, panicked, update_not_fully_consumed}
use octo_base.Doc.Client.{ItemId, ClientMap, get, insert}
use octo_base.Doc.Io.{
  Reader, RawDecoder, RawDecoder_new, is_empty, len, pure, throw, ◌>>=◌, read_u64, read_entries,
}
use octo_base.Doc.DeleteSet.{DeleteSet, sort_descending}
use octo_base.Doc.DeleteSet
use octo_base.Doc.StateVector.{StateVector}
use octo_base.Doc.Content.{Json}
use octo_base.Doc.Node.{Node, clock, node_len, read_node, write_node}

pub record Update : Type 0 where
  pub structs : ClientMap (List Node)
  pub delete_set : DeleteSet
  pub pending_structs : ClientMap (List Node)
  pub missing_state : StateVector
  pub pending_delete_set : DeleteSet

-- `Update::default()`, with structs and deletes.
abbrev pub update_of : ClientMap (List Node) → DeleteSet → Update
update_of structs delete_set = record {
  structs = structs;
  delete_set = delete_set;
  pending_structs = [];
  missing_state = [];
  pending_delete_set = [];
}

abbrev pub is_map_empty {ℓ} : {V : Type ℓ} → ClientMap V → Bool
is_map_empty [] = true
is_map_empty (e ∷ m) = false

unfoldable pub is_content_empty : Update → Bool
is_content_empty self = is_map_empty self.structs

unfoldable pub is_update_empty : Update → Bool
is_update_empty self = is_map_empty self.structs && is_map_empty self.delete_set

unfoldable pub is_pending_empty : Update → Bool
is_pending_empty self = is_map_empty self.pending_structs && is_map_empty self.pending_delete_set

unfoldable pub drain_pending_state : Update → Update
drain_pending_state self = record self {
  structs = self.pending_structs;
  pending_structs = self.structs;
  delete_set = self.pending_delete_set;
  pending_delete_set = self.delete_set;
}

-- `structs.front().map(|s| s.clock()).unwrap_or(0)`
abbrev pub first_clock : List Node → ℕ
first_clock [] = 0
first_clock (n ∷ ns) = clock n

-- `if !decoder.is_empty() { return Err(..) }`
unfoldable pub fully_consumed {ℓ} : {A : Type ℓ} → A → Reader A
fully_consumed a d =
    if is_empty d then ok (a, d) else err (raised (update_not_fully_consumed (len d)))

module _ ⦃c : Crates⦄ ⦃j : Json⦄ where
  unfoldable pub read_structs : ℕ → ℕ → ℕ → Reader (List Node)
  read_structs client at zero = pure []
  read_structs client at (suc num) =
      read_node (record { client = client; clock = at }) >>= λ struct_info.
      read_structs client ((at + node_len struct_info) % 2 ^ 64) num >>= λ rest.
      pure (struct_info ∷ rest)

  unfoldable pub read_client : Reader (ℕ × List Node)
  read_client = read_u64 >>= λ num_of_structs. read_u64 >>= λ client.
      read_u64 >>= λ at. read_structs client at num_of_structs >>= λ structs. pure (client, structs)

  unfoldable pub read_update : Reader Update
  read_update = read_u64 >>= λ num_of_clients. read_entries read_client num_of_clients [] >>= λ map.
      DeleteSet.read >>= λ delete_set. fully_consumed (update_of map delete_set)

  -- `Update::decode_v1`
  unfoldable pub decode_v1 : Bytes → JwstCodecResult Update
  unfolding read_update
  decode_v1 buffer = and_then (read_update (RawDecoder_new buffer)) λ (update, d). ok update

  unfoldable pub write_nodes : Bytes → List Node → JwstCodecResult Bytes
  write_nodes encoder [] = ok encoder
  write_nodes encoder (n ∷ ns) = and_then (write_node encoder n) λ encoder'. write_nodes encoder' ns

  -- `self.structs.get(&client).unwrap()`
  unfoldable pub write_client : Bytes → ℕ → Option (List Node) → JwstCodecResult Bytes
  unfolding write_nodes
  write_client encoder client none = err panicked
  write_client encoder client (some structs) =
      write_nodes
        (write_var_u64 (write_var_u64 (write_var_u64 encoder (length structs)) client)
          (first_clock structs))
        structs

  unfoldable pub write_all : Bytes → ClientMap (List Node) → List ℕ → JwstCodecResult Bytes
  write_all encoder structs [] = ok encoder
  write_all encoder structs (client ∷ clients) =
      and_then (write_client encoder client (get structs client))
        λ encoder'. write_all encoder' structs clients

  unfoldable pub write_update : Bytes → Update → JwstCodecResult Bytes
  unfolding write_all
  write_update encoder self =
      and_then
        (write_all (write_var_u64 encoder (length self.structs)) self.structs
          (sort_descending (map (λ e. e.0) self.structs)))
        λ encoder'. DeleteSet.write encoder' self.delete_set

  -- `Update::encode_v1`
  unfoldable pub encode_v1 : Update → JwstCodecResult Bytes
  unfolding write_update
  encode_v1 self = write_update [] self
