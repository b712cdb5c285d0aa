-- ===== src/Doc/Content.antt =====
-- `Content` of libs/jwst-codec/src/doc/codec/content.rs. A string is its UTF-8 bytes, and its characters
-- are told by their first bytes. `serde_json` on values is a parameter.
pub mod Split
use octo_base.Base.{
  ℕ, zero, suc, ◌+◌, ◌-◌, ◌%◌, ◌^◌, Bool, true, false, not, Option, none, some, List, [], ◌∷◌,
  length, take, drop, ltb, leb, ◌==◌, if◌then◌else◌,
}
use octo_base.Base.Assoc.{bytes_eq}
use octo_base.Base.Result.{Result, ok, err, ◌>>=◌ as and_then}
use octo_base.Crates.{Crates, Bytes}
use octo_base.Codec.Integer.{write_var_u64}
use octo_base.Codec.Utf8.Chars.{len_utf8, len_utf16}
use octo_base.Codec.Buffer.{write_var_buffer, write_var_string}
use octo_base.Doc.Error.{
  JwstCodecResult, raised, panicked, damaged_document_json, incomplete_document, unknown_y_type,
  unknown_content_type, content_split_not_support,
}
use octo_base.Doc.Io.{Reader, pure, throw, ◌>>=◌, read_u64, read_string, read_buffer, read_times}
use octo_base.Doc.YType.{
  YType, YTypeRef, YTypeKind, array, map, text, xml_element, xml_fragment, xml_hook, xml_text,
  unknown, YType_new, kind_from, kind_to, has_tag,
}
use octo_base.Doc.Any.{Any, read_any, read_multiple, write_any, write_multiple}

pub data Content : Type 0 where
  deleted : ℕ → Content
  json : List (Option Bytes) → Content
  binary string : Bytes → Content
  embed : Any → Content
  format : Bytes → Any → Content
  ytype : YTypeRef → Content
  any : List Any → Content
  doc : Bytes → Any → Content

-- `serde_json::from_str` and `serde_json::to_string` on values; `none` is any error.
pub record Json : Type 0 where
  pub from_str : Bytes → Option Any
  pub to_string : Any → Option Bytes

unfoldable pub get_info : Content → ℕ
get_info (deleted len) = 1
get_info (json strings) = 2
get_info (binary buffer) = 3
get_info (string str) = 4
get_info (embed val) = 5
get_info (format key value) = 6
get_info (ytype ty) = 7
get_info (any values) = 8
get_info (doc guid opts) = 9

unfoldable pub countable : Content → Bool
countable (format key value) = false
countable (deleted len) = false
countable _ = true

unfoldable pub splittable : Content → Bool
splittable (string str) = true
splittable (any values) = true
splittable (json strings) = true
splittable _ = false

-- `string.chars().map(|c| c.len_utf16()).sum()`, with `skip` bytes left of a character.
unfoldable pub utf16_sum : ℕ → Bytes → ℕ
utf16_sum skip [] = 0
utf16_sum zero (b ∷ bs) = len_utf16 b + utf16_sum (len_utf8 b - 1) bs
utf16_sum (suc skip) (b ∷ bs) = utf16_sum skip bs

unfoldable pub clock_len : Content → ℕ
clock_len (deleted len) = len
clock_len (json strings) = length strings
clock_len (string str) = utf16_sum 0 str
clock_len (any values) = length values
clock_len (binary buffer) = 1
clock_len (embed val) = 1
clock_len (format key value) = 1
clock_len (ytype ty) = 1
clock_len (doc guid opts) = 1

-- The loop of `split_as_utf16_str`: the bytes of the characters up to the offset.
unfoldable pub utf8_offset : ℕ → ℕ → ℕ → ℕ → Bytes → ℕ
utf8_offset offset skip utf_16 utf_8 [] = utf_8
utf8_offset offset (suc skip) utf_16 utf_8 (b ∷ bs) = utf8_offset offset skip utf_16 utf_8 bs
utf8_offset offset zero utf_16 utf_8 (b ∷ bs) =
    let more = utf8_offset offset (len_utf8 b - 1) (utf_16 + len_utf16 b) (utf_8 + len_utf8 b) bs in
    if leb offset (utf_16 + len_utf16 b) then utf_8 + len_utf8 b else more

unfoldable pub split_as_utf16_str : Bytes → ℕ → Bytes × Bytes
unfolding utf8_offset
split_as_utf16_str s offset =
    (take (utf8_offset offset 0 0 0 s) s, drop (utf8_offset offset 0 0 0 s) s)

-- `slice::split_at`, which panics past the end.
unfoldable pub split_list {ℓ} : {A : Type ℓ} → List A → ℕ → JwstCodecResult (List A × List A)
split_list xs n = if leb n (length xs) then ok (take n xs, drop n xs) else err panicked

unfoldable pub split : Content → ℕ → JwstCodecResult (Content × Content)
unfolding split_as_utf16_str split_list
split (string str) diff =
    ok (string (split_as_utf16_str str diff).0, string (split_as_utf16_str str diff).1)
split (json vec) diff = and_then (split_list vec diff) λ (left, right). ok (json left, json right)
split (any vec) diff = and_then (split_list vec diff) λ (left, right). ok (any left, any right)
split (deleted len) diff = ok (deleted diff, deleted ((len + 2 ^ 64 - diff) % 2 ^ 64))
split (binary buffer) diff = err (raised (content_split_not_support diff))
split (embed val) diff = err (raised (content_split_not_support diff))
split (format key value) diff = err (raised (content_split_not_support diff))
split (ytype ty) diff = err (raised (content_split_not_support diff))
split (doc guid opts) diff = err (raised (content_split_not_support diff))

abbrev pub undefined_str : Bytes
undefined_str = b'u' ∷ b'n' ∷ b'd' ∷ b'e' ∷ b'f' ∷ b'i' ∷ b'n' ∷ b'e' ∷ b'd' ∷ []

abbrev pub damaged {ℓ} : {A : Type ℓ} → Option A → Reader A
damaged none = throw (raised damaged_document_json)
damaged (some a) = pure a

module _ ⦃c : Crates⦄ ⦃j : Json⦄ where
  -- `(s != "undefined").then_some(s)`
  unfoldable pub read_json_string : Reader (Option Bytes)
  read_json_string = read_string >>= λ s. pure (if bytes_eq s undefined_str then none else some s)

  unfoldable pub read_tag_name : YTypeKind → ℕ → Reader YTypeRef
  read_tag_name xml_element type_ref =
      read_string >>= λ name. pure (some (YType_new xml_element (some name)))
  read_tag_name xml_hook type_ref =
      read_string >>= λ name. pure (some (YType_new xml_hook (some name)))
  read_tag_name unknown type_ref = throw (raised (incomplete_document (unknown_y_type type_ref)))
  read_tag_name kind type_ref = pure (some (YType_new kind none))

  unfoldable pub read_content : ℕ → Reader Content
  read_content tag_type =
      if tag_type == 1
      then (read_u64 >>= λ len. pure (deleted len))
      else if tag_type == 2
      then (read_u64 >>= λ len. read_times read_json_string len >>= λ strings. pure (json strings))
      else if tag_type == 3
      then (read_buffer >>= λ buffer. pure (binary buffer))
      else if tag_type == 4
      then (read_string >>= λ str. pure (string str))
      else if tag_type == 5
      then (read_string >>= λ str. damaged (j.from_str str) >>= λ value. pure (embed value))
      else if tag_type == 6
      then (read_string >>= λ key.
          read_string >>= λ str. damaged (j.from_str str) >>= λ value. pure (format key value))
      else if tag_type == 7
      then (read_u64 >>= λ type_ref.
          read_tag_name (kind_from type_ref) type_ref >>= λ ty. pure (ytype ty))
      else if tag_type == 8
      then (read_multiple >>= λ values. pure (any values))
      else if tag_type == 9
      then (read_string >>= λ guid. read_any >>= λ opts. pure (doc guid opts))
      else throw (raised (incomplete_document (unknown_content_type tag_type)))

  abbrev pub json_str : Option Bytes → Bytes
  json_str none = undefined_str
  json_str (some str) = str

  unfoldable pub write_json_strings : Bytes → List (Option Bytes) → Bytes
  write_json_strings encoder [] = encoder
  write_json_strings encoder (str ∷ strings) =
      write_json_strings (write_var_string encoder (json_str str)) strings

  -- `ty.name.as_ref().unwrap()` where the kind has a tag name.
  unfoldable pub write_tag_name : Bool → Option Bytes → Bytes → JwstCodecResult Bytes
  write_tag_name false name encoder = ok encoder
  write_tag_name true none encoder = err panicked
  write_tag_name true (some name) encoder = ok (write_var_string encoder name)

  unfoldable pub write_ytype : Bytes → YTypeRef → JwstCodecResult Bytes
  unfolding write_tag_name
  write_ytype encoder none = ok encoder
  write_ytype encoder (some ty) =
      and_then (kind_to ty.kind)
        λ type_ref. write_tag_name (has_tag ty.kind) ty.name (write_var_u64 encoder type_ref)

  unfoldable pub write_json_value : Bytes → Option Bytes → JwstCodecResult Bytes
  write_json_value encoder none = err (raised damaged_document_json)
  write_json_value encoder (some str) = ok (write_var_string encoder str)

  unfoldable pub write_content : Bytes → Content → JwstCodecResult Bytes
  unfolding write_json_value
  write_content encoder (deleted len) = ok (write_var_u64 encoder len)
  write_content encoder (json strings) =
      ok (write_json_strings (write_var_u64 encoder (length strings)) strings)
  write_content encoder (binary buffer) = ok (write_var_buffer encoder buffer)
  write_content encoder (string str) = ok (write_var_string encoder str)
  write_content encoder (embed val) = write_json_value encoder (j.to_string val)
  write_content encoder (format key value) =
      write_json_value (write_var_string encoder key) (j.to_string value)
  write_content encoder (ytype ty) = write_ytype encoder ty
  write_content encoder (any values) = ok (write_multiple encoder values)
  write_content encoder (doc guid opts) = ok (write_any (write_var_string encoder guid) opts)
