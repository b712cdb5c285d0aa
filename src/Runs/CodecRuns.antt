-- ===== src/Runs/CodecRuns.antt =====
-- The theorems on libs/jwst-codec/src/codec at concrete inputs.
use octo_base.Base.{◌≤◌, ◌≡◌, refl, true, false, [], ◌∷◌, ◌++◌, length, arith}
use octo_base.Base.Result.{ok}
use octo_base.Crates.{Bytes}
use octo_base.Codec.Integer.{read_var_u64, write_var_u64, negsuc, read_var_i32, write_var_i32}
use octo_base.Codec.Integer.Spec.{IsVarint, value}
use octo_base.Codec.Integer.RoundTrip.{varint, varint_format, read_var_u64-write_var_u64}
use octo_base.Codec.Integer.Signed.{read_var_i32-write_var_i32}
use octo_base.Codec.Integer.Malformed.{read_var_u64_wraps, ten_continued}
use octo_base.Codec.Utf8.{is_utf8}
use octo_base.Runs.Host.{host}

read_var_u64-write_var_u64_example :
    read_var_u64 (write_var_u64 [] 300 ++ 7 ∷ []) ≡ ok (7 ∷ [], 300)
read_var_u64-write_var_u64_example = read_var_u64-write_var_u64 300 (7 ∷ []) (omega arith)

varint_format_example :
    IsVarint (varint 300) × (value (varint 300) ≡ 300) × (length (varint 300) ≤ 10)
varint_format_example = varint_format 300 (omega arith)

read_var_i32-write_var_i32_example :
    read_var_i32 (write_var_i32 [] (negsuc 99) ++ 7 ∷ []) ≡ ok (7 ∷ [], negsuc 99)
read_var_i32-write_var_i32_example = read_var_i32-write_var_i32 (negsuc 99) (7 ∷ []) (omega arith)

read_var_u64_wraps_example : read_var_u64 (ten_continued (1 ∷ [])) ≡ ok ([], 64)
read_var_u64_wraps_example = read_var_u64_wraps 1 [] (omega arith)

-- "€"
abbrev euro : Bytes
euro = 0xe2 ∷ 0x82 ∷ 0xac ∷ []

euro-IsUtf8 : is_utf8 euro ≡ true
unfolding is_utf8
euro-IsUtf8 = refl

half-euro : is_utf8 (0xe2 ∷ 0x82 ∷ []) ≡ false
unfolding is_utf8
half-euro = refl

-- The Euro sign and a letter are UTF-8, a byte 0xff and a surrogate are not.
is_utf8_runs :
    (is_utf8 (0xe2 ∷ 0x82 ∷ 0xac ∷ 0x41 ∷ []) ≡ true)
    × (is_utf8 (0xff ∷ []) ≡ false)
    × (is_utf8 (0xed ∷ 0xa0 ∷ 0x80 ∷ []) ≡ false)
unfolding is_utf8
is_utf8_runs = (refl, refl, refl)
