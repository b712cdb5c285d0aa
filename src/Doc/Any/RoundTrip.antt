-- ===== src/Doc/Any/RoundTrip.antt =====
-- The binary form of values as the readers take it apart.
use octo_base.Base.{
  ℕ, zero, suc, ◌+◌, ◌-◌, ◌%◌, ◌*◌, ◌^◌, ◌<◌, ltb, true, ◌≤◌, ◌≡◌, refl, ap, List, [], ◌∷◌, ◌++◌,
  append_assoc, length, length-append, All, arith,
}
use octo_base.Base.Assoc.{AreDistinct, assoc_collect, assoc_collect_self}
use octo_base.Base.Result.{ok}
use octo_base.Crates.{Crates, Bytes, to_be}
use octo_base.Codec.Integer.{write_var_i32}
use octo_base.Codec.Integer.Spec.{IsU64, IsByte}
use octo_base.Codec.Integer.RoundTrip.{varint}
use octo_base.Codec.Buffer.{sized}
use octo_base.Doc.Io.{
  Reader, read_u8, read_u64, read_i32, read_f32_be, read_f64_be, read_i64_be, read_string,
  read_buffer, read_times, RawDecoder_new,
}
use octo_base.Doc.Io.Reads.{
  between, Reads, Reads-pure, Reads-bind, Reads-map, Reads-subst, Reads-times, concat_map, Reads-u8,
  Reads-u64, Reads-i32, Reads-f32, Reads-f64, Reads-i64, Reads-string, Reads-buffer,
}
use octo_base.Doc.Any.{
  Any, undefined, null, false, true, integer, float32, float64, big_int64, string, binary, object,
  array, Items, nil, cons, Fields, end, field, to_items, from_items, to_fields, from_fields,
  read_key_value, read_object, read_array, read_tagged, read_nested, read_any, read_multiple,
  read_values, write_any,
}
use octo_base.Doc.Any.Format.{
  IsAny, AreItems, AreFields, depth, depth_items, depth_fields, any_bytes, items_bytes,
  fields_bytes, depth-le-length, write_any-any_bytes,
}

to_fields-from_fields : (l : Fields) → to_fields (from_fields l) ≡ l
unfolding to_fields from_fields
to_fields-from_fields end = refl
to_fields-from_fields (field key value rest) = ap (field key value) (to_fields-from_fields rest)

to_items-from_items : (l : Items) → to_items (from_items l) ≡ l
unfolding to_items from_items
to_items-from_items nil = refl
to_items-from_items (cons value rest) = ap (cons value) (to_items-from_items rest)

module _ ⦃c : Crates⦄ where
  -- A tag byte and what the reader for the tag takes.
  Reads-tagged :
      (fuel index tag : ℕ) (bs : Bytes) (a : Any)
      → IsByte index
      → (127 + 256 - index) % 256 ≡ tag
      → Reads (read_tagged (read_nested fuel) tag) bs a
      → Reads (read_nested (suc fuel)) (index ∷ bs) a
  unfolding read_nested
  Reads-tagged fuel index tag bs a h e r =
      Reads-bind read_u8 (λ i. read_tagged (read_nested fuel) ((127 + 256 - i) % 256)) (index ∷ [])
        bs index (Reads-u8 index h) (rw e r)

  Reads-object :
      (rec : Reader Any) (l : Fields)
      → IsU64 (length (from_fields l))
      → AreDistinct (from_fields l)
      → Reads
          (read_times (read_key_value rec) (length (from_fields l)))
          (fields_bytes l)
          (from_fields l)
      → Reads (read_object rec) (varint (length (from_fields l)) ++ fields_bytes l) (object l)
  unfolding read_object
  Reads-object rec l count distinct h =
      Reads-bind read_u64 _ (varint (length (from_fields l))) (fields_bytes l)
        (length (from_fields l)) (Reads-u64 (length (from_fields l)) count)
        (let r =
            Reads-map (read_times (read_key_value rec) (length (from_fields l)))
              (λ entries. object (to_fields (assoc_collect [] entries))) (fields_bytes l)
              (from_fields l) h in
          rw (assoc_collect_self (from_fields l) distinct, to_fields-from_fields l) at r)

  Reads-array :
      (rec : Reader Any) (l : Items)
      → IsU64 (length (from_items l))
      → Reads (read_times rec (length (from_items l))) (items_bytes l) (from_items l)
      → Reads (read_array rec) (varint (length (from_items l)) ++ items_bytes l) (array l)
  unfolding read_array
  Reads-array rec l count h =
      Reads-bind read_u64 _ (varint (length (from_items l))) (items_bytes l) (length (from_items l))
        (Reads-u64 (length (from_items l)) count)
        (let r =
            Reads-map (read_times rec (length (from_items l))) (λ values. array (to_items values))
              (items_bytes l) (from_items l) h in
          rw (to_items-from_items l) at r)

  mutual
    unfolding IsAny depth any_bytes read_tagged read_times read_key_value from_items from_fields

    reads :
        (a : Any) (fuel : ℕ)
        → IsAny a
        → depth a ≤ fuel
        → Reads (read_nested (suc fuel)) (any_bytes a) a
    reads undefined fuel h d =
        Reads-tagged fuel 127 0 [] undefined (omega arith) refl (Reads-pure undefined)
    reads null fuel h d = Reads-tagged fuel 126 1 [] null (omega arith) refl (Reads-pure null)
    reads false fuel h d = Reads-tagged fuel 121 6 [] false (omega arith) refl (Reads-pure false)
    reads true fuel h d = Reads-tagged fuel 120 7 [] true (omega arith) refl (Reads-pure true)
    reads (integer value) fuel h d =
        Reads-tagged fuel 125 2 (write_var_i32 [] value) (integer value) (omega arith) refl
          (Reads-map read_i32 integer (write_var_i32 [] value) value (Reads-i32 value h))
    reads (float32 value) fuel h d =
        Reads-tagged fuel 124 3 (to_be 4 value) (float32 value) (omega arith) refl
          (Reads-map read_f32_be float32 (to_be 4 value) value (Reads-f32 value h))
    reads (float64 value) fuel h d =
        Reads-tagged fuel 123 4 (to_be 8 value) (float64 value) (omega arith) refl
          (Reads-map read_f64_be float64 (to_be 8 value) value (Reads-f64 value h))
    reads (big_int64 value) fuel h d =
        Reads-tagged fuel 122 5 (to_be 8 value) (big_int64 value) (omega arith) refl
          (Reads-map read_i64_be big_int64 (to_be 8 value) value (Reads-i64 value h))
    reads (string value) fuel (h, v) d =
        Reads-tagged fuel 119 8 (sized value) (string value) (omega arith) refl
          (Reads-map read_string string (sized value) value (Reads-string value h v))
    reads (binary value) fuel h d =
        Reads-tagged fuel 116 11 (sized value) (binary value) (omega arith) refl
          (Reads-map read_buffer binary (sized value) value (Reads-buffer value h))
    reads (object value) zero h d = absurd (omega arith)
    reads (object value) (suc fuel) (count, distinct, all) d =
        Reads-tagged (suc fuel) 118 9 (varint (length (from_fields value)) ++ fields_bytes value)
          (object value) (omega arith) refl
          (Reads-object (read_nested (suc fuel)) value count distinct
            (Reads-fields value fuel all (omega arith)))
    reads (array values) zero h d = absurd (omega arith)
    reads (array values) (suc fuel) (count, all) d =
        Reads-tagged (suc fuel) 117 10 (varint (length (from_items values)) ++ items_bytes values)
          (array values) (omega arith) refl
          (Reads-array (read_nested (suc fuel)) values count
            (Reads-items values fuel all (omega arith)))

    Reads-items :
        (l : Items) (fuel : ℕ)
        → AreItems l
        → depth_items l ≤ fuel
        → Reads
            (read_times (read_nested (suc fuel)) (length (from_items l)))
            (items_bytes l)
            (from_items l)
    Reads-items nil fuel all d = Reads-pure []
    Reads-items (cons value rest) fuel (h, all) d =
        Reads-bind (read_nested (suc fuel)) _ (any_bytes value) (items_bytes rest) value
          (reads value fuel h (omega arith))
          (Reads-map (read_times (read_nested (suc fuel)) (length (from_items rest)))
            (λ l. value ∷ l) (items_bytes rest) (from_items rest)
            (Reads-items rest fuel all (omega arith)))

    Reads-fields :
        (l : Fields) (fuel : ℕ)
        → AreFields l
        → depth_fields l ≤ fuel
        → Reads
            (read_times (read_key_value (read_nested (suc fuel))) (length (from_fields l)))
            (fields_bytes l)
            (from_fields l)
    Reads-fields end fuel all d = Reads-pure []
    Reads-fields (field key value rest) fuel ((hk, vk), h, all) d =
        let entry : Reads (read_key_value (read_nested (suc fuel))) (sized key ++ any_bytes value)
            (key, value) =
          Reads-bind read_string _ (sized key) (any_bytes value) key (Reads-string key hk vk) (
            Reads-map (read_nested (suc fuel)) (λ v. (key, v)) (any_bytes value) value
              (reads value fuel h (omega arith))) in
        Reads-subst
          (read_times (read_key_value (read_nested (suc fuel))) (suc (length (from_fields rest))))
          ((sized key ++ any_bytes value) ++ fields_bytes rest)
          (sized key ++ (any_bytes value ++ fields_bytes rest)) ((key, value) ∷ from_fields rest)
          (append_assoc (sized key) (any_bytes value) (fields_bytes rest))
          (Reads-bind (read_key_value (read_nested (suc fuel))) _ (sized key ++ any_bytes value)
            (fields_bytes rest) (key, value) entry
            (Reads-map
              (read_times (read_key_value (read_nested (suc fuel))) (length (from_fields rest)))
              (λ l. (key, value) ∷ l) (fields_bytes rest) (from_fields rest)
              (Reads-fields rest fuel all (omega arith))))

  pub Reads-any : (a : Any) → IsAny a → Reads read_any (any_bytes a) a
  unfolding read_any
  Reads-any a h front rest =
      reads a (length (front ++ (any_bytes a ++ rest)) - length front) h
        (omega (
          arith,
          depth-le-length a,
          length-append front (any_bytes a ++ rest),
          length-append (any_bytes a) rest,
        ))
        front rest

  AreItems-All : (l : Items) → AreItems l → All IsAny (from_items l)
  unfolding IsAny from_items
  AreItems-All nil all = tt
  AreItems-All (cons value rest) (h, all) = (h, AreItems-All rest all)

  items_bytes-concat : (l : List Any) → items_bytes (to_items l) ≡ concat_map any_bytes l
  unfolding any_bytes to_items
  items_bytes-concat [] = refl
  items_bytes-concat (a ∷ l) = ap (λ t. any_bytes a ++ t) (items_bytes-concat l)

  pub Reads-multiple :
      (l : List Any)
      → All IsAny l
      → IsU64 (length l)
      → length l * c.any_size < 2 ^ 63
      → Reads read_multiple (varint (length l) ++ items_bytes (to_items l)) l
  unfolding read_multiple read_values
  Reads-multiple l all count fits =
      let enough : ltb (length l * c.any_size) (2 ^ 63) ≡ true = ground (arith, fits) in
      Reads-bind read_u64 (λ n. read_values n) (varint (length l)) (items_bytes (to_items l))
        (length l) (Reads-u64 (length l) count)
        (rw (enough, items_bytes-concat l) (Reads-times read_any any_bytes IsAny Reads-any l all))

  -- A value whose numbers fit their types, whose strings are UTF-8, whose lengths are u64 and whose
  -- objects have no key twice reads back from what `write` appended to an empty buffer, however deep
  -- it nests, and the bytes behind it are left.
  pub read_any-write_any :
      (a : Any) (rest : Bytes)
      → IsAny a
      → read_any (RawDecoder_new (write_any [] a ++ rest)) ≡ ok (a, between (write_any [] a) rest)
  unfolding RawDecoder_new
  read_any-write_any a rest h = rw (write_any-any_bytes [] a) (Reads-any a h [] rest)
