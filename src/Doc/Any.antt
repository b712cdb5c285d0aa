-- ===== src/Doc/Any.antt =====
-- `Any` of libs/jwst-codec/src/doc/codec/any.rs and its binary form. Floats and `i64` are bit
-- patterns, an object is its entries in the order in which the map is iterated.
pub mod Format
pub mod RoundTrip
use octo_base.Base.{
  ℕ, zero, suc, ◌+◌, ◌-◌, ◌%◌, ◌*◌, ◌^◌, ltb, List, [], ◌∷◌, ◌++◌, length, ◌==◌, if◌then◌else◌,
}
use octo_base.Base.Assoc.{bytes_eq, assoc_collect}
use octo_base.Base.Result.{ok, err}
use octo_base.Crates.{Crates, Bytes}
use octo_base.Codec.Integer.{ℤ, write_var_u64, write_var_i32}
use octo_base.Codec.Buffer.{write_var_buffer, write_var_string}
use octo_base.Doc.Error.{panicked}
use octo_base.Doc.Io.{
  RawDecoder, Reader, pure, throw, ◌>>=◌, read_u8, read_u64, read_i32, read_f32_be, read_f64_be,
  read_i64_be, read_string, read_buffer, read_times,
}

mutual
  pub data Any : Type 0 where
    undefined null false true : Any
    integer : ℤ → Any
    float32 float64 big_int64 : ℕ → Any
    string binary : Bytes → Any
    object : Fields → Any
    array : Items → Any

  pub data Items : Type 0 where
    nil : Items
    cons : Any → Items → Items

  pub data Fields : Type 0 where
    end : Fields
    field : Bytes → Any → Fields → Fields

unfoldable pub to_items : List Any → Items
to_items [] = nil
to_items (a ∷ as') = cons a (to_items as')

unfoldable pub from_items : Items → List Any
from_items nil = []
from_items (cons a as') = a ∷ from_items as'

unfoldable pub to_fields : List (Bytes × Any) → Fields
to_fields [] = end
to_fields ((k, v) ∷ l) = field k v (to_fields l)

unfoldable pub from_fields : Fields → List (Bytes × Any)
from_fields end = []
from_fields (field k v l) = (k, v) ∷ from_fields l

module _ ⦃c : Crates⦄ where
  -- `read_key_value`, by a reader of values.
  unfoldable pub read_key_value : Reader Any → Reader (Bytes × Any)
  read_key_value rec = do key ← read_string; value ← rec; pure (key, value)

  unfoldable pub read_object : Reader Any → Reader Any
  unfolding to_fields
  read_object rec = do
    len ← read_u64
    entries ← read_times (read_key_value rec) len
    pure (object (to_fields (assoc_collect [] entries)))

  unfoldable pub read_array : Reader Any → Reader Any
  unfolding to_items
  read_array rec = do len ← read_u64; values ← read_times rec len; pure (array (to_items values))

  -- `match 127u8.overflowing_sub(index).0`
  unfoldable pub read_tagged : Reader Any → ℕ → Reader Any
  read_tagged rec tag =
      if tag == 0
      then pure undefined
      else if tag == 1
      then pure null
      else if tag == 2
      then (read_i32 >>= λ value. pure (integer value))
      else if tag == 3
      then (read_f32_be >>= λ value. pure (float32 value))
      else if tag == 4
      then (read_f64_be >>= λ value. pure (float64 value))
      else if tag == 5
      then (read_i64_be >>= λ value. pure (big_int64 value))
      else if tag == 6
      then pure false
      else if tag == 7
      then pure true
      else if tag == 8
      then (read_string >>= λ value. pure (string value))
      else if tag == 9
      then read_object rec
      else if tag == 10
      then read_array rec
      else if tag == 11
      then (read_buffer >>= λ value. pure (binary value))
      else pure undefined

  -- `Any::read`, where values are nested less than `fuel` deep.
  unfoldable pub read_nested : ℕ → Reader Any
  read_nested zero = throw panicked
  read_nested (suc fuel) =
      read_u8 >>= λ index. read_tagged (read_nested fuel) ((127 + 256 - index) % 256)

  -- `Any::read`; each value takes a byte, so the unread bytes are fuel enough.
  unfoldable pub read_any : Reader Any
  read_any d = read_nested (suc (length d.buffer - d.position)) d

  -- `Vec::with_capacity(len)`, which panics past `isize::MAX` bytes.
  unfoldable pub read_values : ℕ → Reader (List Any)
  read_values len =
      if ltb (len * c.any_size) (2 ^ 63) then read_times read_any len else throw panicked

  unfoldable pub read_multiple : Reader (List Any)
  unfolding read_values
  read_multiple = do len ← read_u64; read_values len

-- The `match` of `Any::write` and its loops, on a value.
module _ ⦃c : Crates⦄ where
  unfoldable mutual
    pub write_any : Bytes → Any → Bytes
    write_any writer undefined = c.write_u8 writer 127
    write_any writer null = c.write_u8 writer 126
    write_any writer (integer value) = write_var_i32 (c.write_u8 writer 125) value
    write_any writer (float32 value) = c.write_be 4 (c.write_u8 writer 124) value
    write_any writer (float64 value) = c.write_be 8 (c.write_u8 writer 123) value
    write_any writer (big_int64 value) = c.write_be 8 (c.write_u8 writer 122) value
    write_any writer false = c.write_u8 writer 121
    write_any writer true = c.write_u8 writer 120
    write_any writer (string value) = write_var_string (c.write_u8 writer 119) value
    write_any writer (object value) =
        write_fields (write_var_u64 (c.write_u8 writer 118) (length (from_fields value))) value
    write_any writer (array values) =
        write_items (write_var_u64 (c.write_u8 writer 117) (length (from_items values))) values
    write_any writer (binary value) = write_var_buffer (c.write_u8 writer 116) value

    pub write_fields : Bytes → Fields → Bytes
    write_fields writer end = writer
    write_fields writer (field key value rest) =
        write_fields (write_any (write_var_string writer key) value) rest

    pub write_items : Bytes → Items → Bytes
    write_items writer nil = writer
    write_items writer (cons value rest) = write_items (write_any writer value) rest

  unfoldable pub write_multiple : Bytes → List Any → Bytes
  write_multiple writer any = write_items (write_var_u64 writer (length any)) (to_items any)
