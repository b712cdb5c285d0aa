-- ===== src/Doc/Any/Format.antt =====
-- What the writer of values appends, and which values have a binary form.
use octo_base.Base.{
  ℕ, suc, ◌^◌, ◌≤◌, ◌<◌, max, ◌≡◌, ◌∙◌, List, [], ◌∷◌, ◌++◌, append_assoc, append-nil, length,
  length-append, arith,
}
use octo_base.Base.Assoc.{AreDistinct}
use octo_base.Crates.{Crates, Bytes, to_be}
use octo_base.Codec.Integer.{IsI32, write_var_u64, write_var_i32}
use octo_base.Codec.Integer.Spec.{IsU64}
use octo_base.Codec.Integer.RoundTrip.{varint, write_var_u64-varint}
use octo_base.Codec.Integer.Signed.{write_var_i32-append}
use octo_base.Codec.Utf8.{IsUtf8}
use octo_base.Codec.Buffer.{
  sized, write_var_buffer-sized, write_var_string-sized, write_var_buffer, write_var_string,
}
use octo_base.Doc.Any.{
  Any, undefined, null, false, true, integer, float32, float64, big_int64, string, binary, object,
  array, Items, nil, cons, Fields, end, field, to_items, from_items, from_fields, write_any,
  write_fields, write_items, write_multiple,
}

-- Numbers fit their types, strings are UTF-8, lengths are u64, and an object has no key twice.
unfoldable mutual
  pub IsAny : Any → Type 0
  IsAny undefined = Unit {0}
  IsAny null = Unit {0}
  IsAny false = Unit {0}
  IsAny true = Unit {0}
  IsAny (integer value) = IsI32 value
  IsAny (float32 value) = value < 256 ^ 4
  IsAny (float64 value) = value < 256 ^ 8
  IsAny (big_int64 value) = value < 256 ^ 8
  IsAny (string value) = IsU64 (length value) × IsUtf8 value
  IsAny (binary value) = IsU64 (length value)
  IsAny (object value) =
      IsU64 (length (from_fields value)) × AreDistinct (from_fields value) × AreFields value
  IsAny (array values) = IsU64 (length (from_items values)) × AreItems values

  pub AreItems : Items → Type 0
  AreItems nil = Unit {0}
  AreItems (cons value rest) = IsAny value × AreItems rest

  pub AreFields : Fields → Type 0
  AreFields end = Unit {0}
  AreFields (field key value rest) =
      (IsU64 (length key) × IsUtf8 key) × IsAny value × AreFields rest

-- How deep values are nested.
unfoldable mutual
  pub depth : Any → ℕ
  depth undefined = 0
  depth null = 0
  depth false = 0
  depth true = 0
  depth (integer value) = 0
  depth (float32 value) = 0
  depth (float64 value) = 0
  depth (big_int64 value) = 0
  depth (string value) = 0
  depth (binary value) = 0
  depth (object value) = suc (depth_fields value)
  depth (array values) = suc (depth_items values)

  pub depth_items : Items → ℕ
  depth_items nil = 0
  depth_items (cons value rest) = max (depth value) (depth_items rest)

  pub depth_fields : Fields → ℕ
  depth_fields end = 0
  depth_fields (field key value rest) = max (depth value) (depth_fields rest)

module _ ⦃c : Crates⦄ where
  unfoldable mutual
    pub any_bytes : Any → Bytes
    any_bytes undefined = 127 ∷ []
    any_bytes null = 126 ∷ []
    any_bytes false = 121 ∷ []
    any_bytes true = 120 ∷ []
    any_bytes (integer value) = 125 ∷ write_var_i32 [] value
    any_bytes (float32 value) = 124 ∷ to_be 4 value
    any_bytes (float64 value) = 123 ∷ to_be 8 value
    any_bytes (big_int64 value) = 122 ∷ to_be 8 value
    any_bytes (string value) = 119 ∷ sized value
    any_bytes (binary value) = 116 ∷ sized value
    any_bytes (object value) = 118 ∷ varint (length (from_fields value)) ++ fields_bytes value
    any_bytes (array values) = 117 ∷ varint (length (from_items values)) ++ items_bytes values

    pub items_bytes : Items → Bytes
    items_bytes nil = []
    items_bytes (cons value rest) = any_bytes value ++ items_bytes rest

    pub fields_bytes : Fields → Bytes
    fields_bytes end = []
    fields_bytes (field key value rest) = sized key ++ (any_bytes value ++ fields_bytes rest)

  -- A tag and what a writer appends behind it.
  tagged :
      (writer : Bytes) (tag : ℕ) (bs : Bytes) (f : Bytes → Bytes)
      → ((w : Bytes) → f w ≡ w ++ bs)
      → f (c.write_u8 writer tag) ≡ writer ++ (tag ∷ bs)
  tagged writer tag bs f h =
      h (c.write_u8 writer tag) ∙ rw c.write_u8_append (append_assoc writer (tag ∷ []) bs)

  mutual
    unfolding write_any any_bytes

    write_any_bytes : (a : Any) (writer : Bytes) → write_any writer a ≡ writer ++ any_bytes a
    write_any_bytes undefined writer = c.write_u8_append writer 127
    write_any_bytes null writer = c.write_u8_append writer 126
    write_any_bytes false writer = c.write_u8_append writer 121
    write_any_bytes true writer = c.write_u8_append writer 120
    write_any_bytes (integer value) writer =
        tagged writer 125 (write_var_i32 [] value) (λ w. write_var_i32 w value)
          (λ w. write_var_i32-append w value)
    write_any_bytes (float32 value) writer =
        tagged writer 124 (to_be 4 value) (λ w. c.write_be 4 w value)
          (λ w. c.write_be_append 4 w value)
    write_any_bytes (float64 value) writer =
        tagged writer 123 (to_be 8 value) (λ w. c.write_be 8 w value)
          (λ w. c.write_be_append 8 w value)
    write_any_bytes (big_int64 value) writer =
        tagged writer 122 (to_be 8 value) (λ w. c.write_be 8 w value)
          (λ w. c.write_be_append 8 w value)
    write_any_bytes (string value) writer =
        tagged writer 119 (sized value) (λ w. write_var_string w value)
          (λ w. write_var_string-sized w value)
    write_any_bytes (binary value) writer =
        tagged writer 116 (sized value) (λ w. write_var_buffer w value)
          (λ w. write_var_buffer-sized w value)
    write_any_bytes (object value) writer =
        tagged writer 118 (varint (length (from_fields value)) ++ fields_bytes value)
          (λ w. write_fields (write_var_u64 w (length (from_fields value))) value)
          (λ w.
            write_fields_bytes value (write_var_u64 w (length (from_fields value)))
            ∙ rw (write_var_u64-varint w (length (from_fields value)))
                (append_assoc w (varint (length (from_fields value))) (fields_bytes value)))
    write_any_bytes (array values) writer =
        tagged writer 117 (varint (length (from_items values)) ++ items_bytes values)
          (λ w. write_items (write_var_u64 w (length (from_items values))) values)
          (λ w.
            write_items_bytes values (write_var_u64 w (length (from_items values)))
            ∙ rw (write_var_u64-varint w (length (from_items values)))
                (append_assoc w (varint (length (from_items values))) (items_bytes values)))

    write_items_bytes :
        (l : Items) (writer : Bytes) → write_items writer l ≡ writer ++ items_bytes l
    write_items_bytes nil writer = rw append-nil
    write_items_bytes (cons value rest) writer =
        write_items_bytes rest (write_any writer value)
        ∙ rw (write_any_bytes value writer)
            (append_assoc writer (any_bytes value) (items_bytes rest))

    write_fields_bytes :
        (l : Fields) (writer : Bytes) → write_fields writer l ≡ writer ++ fields_bytes l
    write_fields_bytes end writer = rw append-nil
    write_fields_bytes (field key value rest) writer =
        write_fields_bytes rest (write_any (write_var_string writer key) value)
        ∙ rw
            (write_any_bytes value (write_var_string writer key), write_var_string-sized writer key)
            (append_assoc (writer ++ sized key) (any_bytes value) (fields_bytes rest)
              ∙ append_assoc writer (sized key) (any_bytes value ++ fields_bytes rest))

  pub write_any-any_bytes : (writer : Bytes) (a : Any) → write_any writer a ≡ writer ++ any_bytes a
  write_any-any_bytes writer a = write_any_bytes a writer

  pub write_multiple-bytes :
      (writer : Bytes) (any : List Any)
      → write_multiple writer any ≡ writer ++ (varint (length any) ++ items_bytes (to_items any))
  unfolding write_multiple
  write_multiple-bytes writer any =
      write_items_bytes (to_items any) (write_var_u64 writer (length any))
      ∙ rw (write_var_u64-varint writer (length any))
          (append_assoc writer (varint (length any)) (items_bytes (to_items any)))

  -- Each level of nesting takes a byte.
  mutual
    unfolding depth any_bytes

    depth-le : (a : Any) → depth a ≤ length (any_bytes a)
    depth-le undefined = omega arith
    depth-le null = omega arith
    depth-le false = omega arith
    depth-le true = omega arith
    depth-le (integer value) = omega arith
    depth-le (float32 value) = omega arith
    depth-le (float64 value) = omega arith
    depth-le (big_int64 value) = omega arith
    depth-le (string value) = omega arith
    depth-le (binary value) = omega arith
    depth-le (object value) = omega (
      arith,
      depth_fields-le value,
      length-append (varint (length (from_fields value))) (fields_bytes value),
    )
    depth-le (array values) = omega (
      arith,
      depth_items-le values,
      length-append (varint (length (from_items values))) (items_bytes values),
    )

    depth_items-le : (l : Items) → depth_items l ≤ length (items_bytes l)
    depth_items-le nil = omega arith
    depth_items-le (cons value rest) = omega (
      arith,
      depth-le value,
      depth_items-le rest,
      length-append (any_bytes value) (items_bytes rest),
    )

    depth_fields-le : (l : Fields) → depth_fields l ≤ length (fields_bytes l)
    depth_fields-le end = omega arith
    depth_fields-le (field key value rest) = omega (
      arith,
      depth-le value,
      depth_fields-le rest,
      length-append (any_bytes value) (fields_bytes rest),
      length-append (sized key) (any_bytes value ++ fields_bytes rest),
    )

  pub depth-le-length : (a : Any) → depth a ≤ length (any_bytes a)
  depth-le-length a = depth-le a
