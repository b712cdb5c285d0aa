-- ===== src/Doc/Error.antt =====
-- `JwstCodecError` of libs/jwst-codec/src/lib.rs. A message is modelled by what it says.
use octo_base.Base.{ℕ}
use octo_base.Base.Result.{Result}
use octo_base.Crates.{Bytes, NomErr}

pub data Message : Type 0 where
  unexpected_eof : Message
  unknown_y_type : ℕ → Message
  unknown_content_type : ℕ → Message

pub data JwstCodecError : Type 0 where
  unexpected damaged_document_json update_is_empty invalid_parent parent_not_found : JwstCodecError
  item_split_not_support doc_released : JwstCodecError
  incomplete_document invalid_write_buffer : Message → JwstCodecError
  content_split_not_support : ℕ → JwstCodecError
  update_invalid : NomErr ℕ → JwstCodecError
  update_not_fully_consumed : ℕ → JwstCodecError
  struct_clock_invalid : ℕ → ℕ → JwstCodecError
  struct_sequence_invalid : ℕ → ℕ → JwstCodecError
  struct_sequence_not_exists : ℕ → JwstCodecError
  invalid_struct_type type_cast_error unexpected_type root_struct_not_found : Bytes → JwstCodecError
  index_out_of_bound : ℕ → JwstCodecError

-- A call that does not return a value returned an error, or panicked.
pub data Fault : Type 0 where
  raised : JwstCodecError → Fault
  panicked : Fault

abbrev pub JwstCodecResult {ℓ} : Type ℓ → Type ℓ
JwstCodecResult A = Result A Fault
