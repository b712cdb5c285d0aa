-- ===== src/Doc/Io.antt =====
-- libs/jwst-codec/src/doc/codec/io: `RawDecoder`, a cursor over the input, and `RawEncoder`, whose
-- state is the bytes written so far. A reader is a function of the decoder.
pub mod Reads
use octo_base.Base.{
  ℕ, zero, suc, ◌+◌, ◌-◌, ◌%◌, ◌^◌, min, Bool, Option, none, some, List, [], ◌∷◌, length, drop, leb,
  ◌==◌, if◌then◌else◌,
}
use octo_base.Base.Result.{Result, ok, err}
use octo_base.Crates.{Crates, Bytes, IResult, NomErr, incomplete, error, failure}
use octo_base.Codec.Integer.{ℤ, read_var_u64, read_var_i32, write_var_u64, write_var_i32}
use octo_base.Codec.Buffer.{read_var_buffer, read_var_string, write_var_buffer, write_var_string}
use octo_base.Doc.Error.{
  JwstCodecResult, Fault, raised, update_invalid, incomplete_document, unexpected_eof,
}
use octo_base.Doc.Client.{ItemId, ClientMap, insert}

pub record RawDecoder : Type 0 where
  pub buffer : Bytes
  pub position : ℕ

abbrev pub Reader {ℓ} : Type ℓ → Type ℓ
Reader A = RawDecoder → JwstCodecResult (A × RawDecoder)

abbrev pub pure {ℓ} : {A : Type ℓ} → A → Reader A
pure a d = ok (a, d)

abbrev pub throw {ℓ} : {A : Type ℓ} → Fault → Reader A
throw e d = err e

abbrev pub proceed {ℓ κ} :
    {A : Type ℓ} {B : Type κ}
    → JwstCodecResult (A × RawDecoder)
    → (A → Reader B)
    → JwstCodecResult (B × RawDecoder)
proceed (ok (a, d)) f = f a d
proceed (err e) f = err e

infixl 5 ◌>>=◌ ◌>>◌
abbrev pub ◌>>=◌ {ℓ κ} : {A : Type ℓ} {B : Type κ} → Reader A → (A → Reader B) → Reader B
◌>>=◌ m f d = proceed (m d) f

abbrev pub ◌>>◌ {ℓ κ} : {A : Type ℓ} {B : Type κ} → Reader A → Reader B → Reader B
m >> k = m >>= λ _. k

-- `e.map_input(|u| u.len())`
map_input : NomErr Bytes → NomErr ℕ
map_input (incomplete n) = incomplete n
map_input (error u k) = error (length u) k
map_input (failure u k) = failure (length u) k

-- The end of `read_with_cursor`: the cursor moves past what was taken of `n` bytes.
unfoldable pub advance {ℓ} :
    {A : Type ℓ}
    → RawDecoder
    → ℕ
    → ℕ
    → Result (Bytes × A) (NomErr Bytes)
    → JwstCodecResult (A × RawDecoder)
unfolding map_input
advance d rest_pos n (ok (tail, result)) =
    ok (result, record d { position = rest_pos + n - length tail })
advance d rest_pos n (err e) = err (raised (update_invalid (map_input e)))

unfoldable pub read_with_cursor {ℓ} :
    {A : Type ℓ} → (Bytes → Result (Bytes × A) (NomErr Bytes)) → Reader A
unfolding advance
read_with_cursor f d =
    let rest_pos = min d.position (length d.buffer) in
    let input = drop rest_pos d.buffer in advance d rest_pos (length input) (f input)

-- Each loop `for _ in 0..n` of a reader that collects what it reads.
unfoldable pub read_times {ℓ} : {A : Type ℓ} → Reader A → ℕ → Reader (List A)
read_times m zero = pure []
read_times m (suc n) = do a ← m; rest ← read_times m n; pure (a ∷ rest)

-- Each loop `for _ in 0..n { map.insert(..) }` of a reader.
unfoldable pub read_entries {ℓ} :
    {V : Type ℓ} → Reader (ℕ × V) → ℕ → ClientMap V → Reader (ClientMap V)
read_entries m zero map = pure map
read_entries m (suc n) map = m >>= λ (k, v). read_entries m n (insert map k v)

unfoldable pub RawDecoder_new : Bytes → RawDecoder
RawDecoder_new buffer = record { buffer = buffer; position = 0 }

unfoldable pub rest_ref : RawDecoder → Bytes
rest_ref d = if d.position == 0 then d.buffer else drop (min d.position (length d.buffer)) d.buffer

-- `none` is the panic of a slice past the end.
unfoldable pub drain : RawDecoder → Option Bytes
drain d =
    if d.position == 0
    then some d.buffer
    else if leb d.position (length d.buffer)
    then some (drop d.position d.buffer)
    else none

unfoldable pub is_empty : RawDecoder → Bool
is_empty d = leb (length d.buffer) d.position

-- A u64 subtraction, which wraps in a release build.
unfoldable pub len : RawDecoder → ℕ
len d = (length d.buffer + 2 ^ 64 - d.position) % 2 ^ 64

-- The value and the new position, or an error by `map_read_error`.
unfoldable pub map_read_error : RawDecoder → Option (ℕ × ℕ) → JwstCodecResult (ℕ × RawDecoder)
map_read_error d none = err (raised (incomplete_document unexpected_eof))
map_read_error d (some (v, position)) = ok (v, record d { position = position })

module _ ⦃c : Crates⦄ where
  -- byteorder's reads on the cursor, with `map_read_error`
  unfoldable pub read_width : ℕ → Reader ℕ
  unfolding map_read_error
  read_width n d = map_read_error d (c.read_be n d.buffer d.position)

  unfoldable pub read_u64 : Reader ℕ
  read_u64 = read_with_cursor read_var_u64

  unfoldable pub read_i32 : Reader ℤ
  read_i32 = read_with_cursor read_var_i32

  unfoldable pub read_string : Reader Bytes
  read_string = read_with_cursor read_var_string

  unfoldable pub read_buffer : Reader Bytes
  read_buffer = read_with_cursor read_var_buffer

  unfoldable pub read_u8 : Reader ℕ
  read_u8 = read_width 1

  unfoldable pub read_f32_be : Reader ℕ
  read_f32_be = read_width 4

  unfoldable pub read_f64_be : Reader ℕ
  read_f64_be = read_width 8

  unfoldable pub read_i64_be : Reader ℕ
  read_i64_be = read_width 8

  unfoldable pub read_info : Reader ℕ
  read_info = read_u8

  unfoldable pub read_item_id : Reader ItemId
  read_item_id = do
    client ← read_u64
    clock ← read_u64
    pure (record { client = client; clock = clock })

  unfoldable pub write_item_id : Bytes → ItemId → Bytes
  write_item_id encoder id = write_var_u64 (write_var_u64 encoder id.client) id.clock
