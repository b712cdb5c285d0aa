-- ===== src/Codec/Buffer.antt =====
-- libs/jwst-codec/src/codec/buffer.rs and string.rs, on a 64-bit `usize`.
use octo_base.Base.{
  ℕ, ◌<◌, ◌≡◌, ap, ◌∙◌, false, [], ◌++◌, append_assoc, length, length-append, take-append,
  drop-append, arith,
}
use octo_base.Base.Result.{Result, ok, err, ◌>>=◌}
use octo_base.Crates.{Crates, Bytes, IResult, NomErr, error, eof, map_res}
use octo_base.Codec.Integer.{read_var_u64, write_var_u64}
use octo_base.Codec.Integer.Spec.{IsU64}
use octo_base.Codec.Integer.RoundTrip.{
  varint, write_var_u64-varint, read_var_u64-value, varint_format,
}
use octo_base.Codec.Utf8.{is_utf8, from_utf8, IsUtf8, from_utf8_valid, from_utf8_invalid}

-- What a parser does with the bytes of a value, whatever follows them.
abbrev pub Parses {ℓ} :
    {A : Type ℓ} → (Bytes → Result (Bytes × A) (NomErr Bytes)) → Bytes → A → Type ℓ
Parses p bs a = (rest : Bytes) → p (bs ++ rest) ≡ ok (rest, a)

module _ ⦃c : Crates⦄ where
  unfoldable pub read_var_buffer : Bytes → IResult Bytes
  read_var_buffer input = do
    (tail, len) ← read_var_u64 input
    (tail', val) ← c.nom_take len tail
    ok (tail', val)

  unfoldable pub write_var_buffer : Bytes → Bytes → Bytes
  write_var_buffer buffer bytes = write_var_u64 buffer (length bytes) ++ bytes

  unfoldable pub read_var_string : Bytes → IResult Bytes
  read_var_string = c.nom_map_res read_var_buffer from_utf8

  unfoldable pub write_var_string : Bytes → Bytes → Bytes
  write_var_string buffer input = write_var_buffer buffer input

  pub read_var_u64-varint : (v : ℕ) → IsU64 v → Parses read_var_u64 (varint v) v
  read_var_u64-varint v h rest =
      let (form, same, len) = varint_format v h in
      read_var_u64-value (varint v) rest form len (omega arith) ∙ ap (λ t. ok (rest, t)) same

  -- The bytes of a buffer, or of a string.
  unfoldable pub sized : Bytes → Bytes
  sized bytes = varint (length bytes) ++ bytes

  pub write_var_buffer-sized :
      (buffer bytes : Bytes) → write_var_buffer buffer bytes ≡ buffer ++ sized bytes
  unfolding write_var_buffer sized
  write_var_buffer-sized buffer bytes =
      rw (write_var_u64-varint buffer (length bytes))
        (append_assoc buffer (varint (length bytes)) bytes)

  pub write_var_string-sized : (buffer s : Bytes) → write_var_string buffer s ≡ buffer ++ sized s
  unfolding write_var_string
  write_var_string-sized = write_var_buffer-sized

  -- `read_var_buffer` gives back what `write_var_buffer` wrote, and leaves what follows.
  pub read_var_buffer-sized :
      (bytes : Bytes) → IsU64 (length bytes) → Parses read_var_buffer (sized bytes) bytes
  unfolding read_var_buffer sized
  read_var_buffer-sized bytes h rest = rw (
    append_assoc (varint (length bytes)) bytes rest,
    read_var_u64-varint (length bytes) h (bytes ++ rest),
    c.nom_take_enough (length bytes) (bytes ++ rest) (omega (arith, length-append bytes rest)),
    take-append bytes rest,
    drop-append bytes rest,
  )

  -- Where fewer bytes follow than the length tells, a u64, the buffer reader answers an `Eof`
  -- error at the bytes behind the length.
  pub read_var_buffer_short :
      (len : ℕ) (rest : Bytes)
      → IsU64 len
      → length rest < len
      → read_var_buffer (varint len ++ rest) ≡ err (error rest eof)
  unfolding read_var_buffer
  read_var_buffer_short len rest h short =
      rw (read_var_u64-varint len h rest, c.nom_take_short len rest short)

  pub read_var_string-sized :
      (s : Bytes) → IsU64 (length s) → IsUtf8 s → Parses read_var_string (sized s) s
  unfolding read_var_string
  read_var_string-sized s h v rest =
      c.nom_map_res_some read_var_buffer from_utf8 (sized s ++ rest)
        (read_var_buffer-sized s h rest) (from_utf8_valid s v)

  -- A buffer of bytes that are no UTF-8, whose length fits a u64, is a `MapRes` error of the
  -- string reader at the whole input.
  pub read_var_string_invalid :
      (bytes rest : Bytes)
      → IsU64 (length bytes)
      → is_utf8 bytes ≡ false
      → read_var_string (sized bytes ++ rest) ≡ err (error (sized bytes ++ rest) map_res)
  unfolding read_var_string
  read_var_string_invalid bytes rest h v =
      c.nom_map_res_none read_var_buffer from_utf8 (sized bytes ++ rest)
        (read_var_buffer-sized bytes h rest) (from_utf8_invalid bytes v)

  -- Where the length fits a u64 and the bytes are UTF-8, the buffer reader and the string reader
  -- each take back what their writer appended to an empty buffer, and leave the bytes behind it.
  pub read-write_var :
      (bytes rest : Bytes)
      → IsU64 (length bytes)
      → IsUtf8 bytes
      → (read_var_buffer (write_var_buffer [] bytes ++ rest) ≡ ok (rest, bytes))
        × (read_var_string (write_var_string [] bytes ++ rest) ≡ ok (rest, bytes))
  read-write_var bytes rest h v = (
    rw (write_var_buffer-sized [] bytes) (read_var_buffer-sized bytes h rest),
    rw (write_var_string-sized [] bytes) (read_var_string-sized bytes h v rest),
  )
