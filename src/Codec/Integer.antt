-- ===== src/Codec/Integer.antt =====
-- libs/jwst-codec/src/codec/integer.rs. A writer appends to the bytes that it is given; an `i64` on
-- the way is its bit pattern, and an `i32` the integer that it stands for.
pub mod Spec
pub mod RoundTrip
pub mod Signed
pub mod Malformed
use mathlib.Core.Logic.{dite}
use mathlib.Core.WellFounded.{Acc}
use native.Mathlib.Decide.{dec_lt}
use octo_base.Base.{
  ℕ, zero, suc, ◌+◌, ◌-◌, ◌*◌, ◌/◌, ◌%◌, ◌^◌, ◌≤◌, ◌<◌, bit_and, bit_or, Bool, true, false, not, [],
  ◌∷◌, length, arith, ltb, ◌==◌, if◌then◌else◌,
}
use octo_base.Base.Order.{lt_wf}
use octo_base.Base.Result.{ok, err, ◌>>=◌}
use octo_base.Crates.{Crates, Bytes, IResult, size, incomplete}

-- `while (curr_byte >> 7) & 0b1 != 0`: `n` is the length of the whole input, the list what follows
-- `curr`. The `u32` shift may wrap at 2 ^ 32, which leaves `shift % 64` as it is.
unfoldable pub read_more : ℕ → ℕ → ℕ → ℕ → Bytes → IResult ℕ
read_more n curr num shift [] =
    if bit_and (curr / 2 ^ 7) 1 == 0 then ok ([], num) else err (incomplete (size (n + 1)))
read_more n curr num shift (b ∷ rest) =
    let num' = bit_or num (bit_and b 0x7f * 2 ^ (shift % 64) % 2 ^ 64) in
    let more = read_more n b num' (shift + 7) rest in
    if bit_and (curr / 2 ^ 7) 1 == 0 then ok (b ∷ rest, num) else more

unfoldable pub read_var_u64 : Bytes → IResult ℕ
read_var_u64 [] = err (incomplete (size 1))
read_var_u64 (b ∷ rest) = read_more (length (b ∷ rest)) b (bit_and b 0x7f) 7 rest

-- `i32`, by the integer that it stands for: `negsuc n` is -(n + 1).
pub data ℤ : Type 0 where
  pos : ℕ → ℤ
  negsuc : ℕ → ℤ

abbrev pub IsI32 : ℤ → Type 0
IsI32 (pos n) = n < 2 ^ 31
IsI32 (negsuc n) = n < 2 ^ 31

-- `num as i32` of a 64-bit pattern.
abbrev as_i32 : ℕ → ℤ
as_i32 num =
    let low = num % 2 ^ 32 in if ltb low (2 ^ 31) then pos low else negsuc (2 ^ 32 - low - 1)

-- `-num` of a 64-bit pattern.
abbrev neg_i64 : ℕ → ℕ
neg_i64 num = (2 ^ 64 - num) % 2 ^ 64

unfoldable pub read_var_i32 : Bytes → IResult ℤ
read_var_i32 [] = err (incomplete (size 1))
read_var_i32 (b ∷ rest) =
    let sign_bit = bit_and (b / 2 ^ 6) 1 in
    read_more (length (b ∷ rest)) b (bit_and b 0x3f) 6 rest >>= λ (tail, num).
    ok (tail, as_i32 (if sign_bit == 1 then neg_i64 num else num))

abbrev is_negative : ℤ → Bool
is_negative (pos n) = false
is_negative (negsuc n) = true

-- `if is_negative { num = -num }`
abbrev magnitude : ℤ → ℕ
magnitude (pos n) = n
magnitude (negsuc n) = n + 1

pub shrinks_u64 : (num : ℕ) → ¬ (num < 0x80) → num / 2 ^ 7 < num
shrinks_u64 num more = omega arith

pub shrinks_i32 : (num : ℕ) → 0 < num → num / 2 ^ 7 < num
shrinks_i32 num positive = omega arith

module _ ⦃c : Crates⦄ where
  unfoldable pub write_loop : Bytes → (num : ℕ) → Acc ◌<◌ num → Bytes
  write_loop buffer num (Acc.intro _ smaller) =
      dite (dec_lt num 0x80) (λ _. c.write_u8 buffer (bit_and num 0x7f % 256))
        (λ more.
          write_loop (c.write_u8 buffer (bit_or (bit_and (num % 256) 0x7f) 0x80)) (num / 2 ^ 7)
            (smaller (num / 2 ^ 7) (shrinks_u64 num more)))

  unfoldable pub write_var_u64 : Bytes → ℕ → Bytes
  write_var_u64 buffer num = write_loop buffer num (lt_wf.apply num)

  -- `while num > 0`
  unfoldable pub write_groups : Bytes → (num : ℕ) → Acc ◌<◌ num → Bytes
  write_groups buffer num (Acc.intro _ smaller) =
      let more_flag = if ltb 0x7f num then 0x80 else 0 in
      dite (dec_lt 0 num)
        (λ positive.
          write_groups (c.write_u8 buffer (bit_or more_flag (bit_and (num % 256) 0x7f)))
            (num / 2 ^ 7) (smaller (num / 2 ^ 7) (shrinks_i32 num positive)))
        (λ _. buffer)

  unfoldable pub write_var_i32 : Bytes → ℤ → Bytes
  write_var_i32 buffer num =
      let mag = magnitude num in
      let more_flag = if ltb 0x3f mag then 0x80 else 0 in
      let sign_flag = if is_negative num then 0x40 else 0 in
      let first = bit_or (bit_or more_flag sign_flag) (bit_and (mag % 256) 0x3f) in
      write_groups (c.write_u8 buffer first) (mag / 2 ^ 6) (lt_wf.apply (mag / 2 ^ 6))
