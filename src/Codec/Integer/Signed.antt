-- ===== src/Codec/Integer/Signed.antt =====
-- What `write_var_i32` writes, `read_var_i32` reads back.
use mathlib.Core.WellFounded.{Acc}
use mathlib.Core.Logic.{dif_pos}
use native.Mathlib.Bridge.{le_prop}
use native.Mathlib.Nat.{pow-suc, add_assoc}
use native.Mathlib.Decide.{dec_lt}
use octo_base.Base.{
  ℕ, zero, suc, ◌+◌, ◌*◌, ◌/◌, ◌%◌, ◌^◌, ◌≤◌, ◌<◌, ◌≡◌, refl, ap, bit_and, bit_or, Bool, true,
  false, [], ◌∷◌, ◌++◌, append_assoc, append-nil, length, arith, ltb, lt→ltb, ◌==◌, if◌then◌else◌,
}
use octo_base.Base.Bits.{and_0x7f, and_0x3f, and_1, all_below, table_eq}
use octo_base.Base.Order.{lt_wf}
use octo_base.Base.Result.{ok}
use octo_base.Crates.{Crates, Bytes}
use octo_base.Codec.Integer.{
  ℤ, pos, negsuc, IsI32, as_i32, neg_i64, is_negative, magnitude, read_var_i32, write_groups,
  write_var_i32, shrinks_i32,
}
use octo_base.Codec.Integer.Spec.{IsVarint, value}
use octo_base.Codec.Integer.RoundTrip.{IsVarint-cons, read_more-value}

-- The flag bits stand apart from the digits, so `|` is a sum.
zero_or : (x : ℕ) → x < 128 → bit_or 0 x ≡ x
unfolding all_below
zero_or = table_eq 128 (λ x. bit_or 0 x) (λ x. x) refl

more_or : (x : ℕ) → x < 128 → bit_or 0x80 x ≡ 128 + x
unfolding all_below
more_or = table_eq 128 (λ x. bit_or 0x80 x) (λ x. 128 + x) refl

sign_or : (x : ℕ) → x < 64 → bit_or 0x40 x ≡ 64 + x
unfolding all_below
sign_or = table_eq 64 (λ x. bit_or 0x40 x) (λ x. 64 + x) refl

more_sign_or : (x : ℕ) → x < 64 → bit_or 0xc0 x ≡ 192 + x
unfolding all_below
more_sign_or = table_eq 64 (λ x. bit_or 0xc0 x) (λ x. 192 + x) refl

abbrev more_flag : Bool → ℕ
more_flag more = if more then 128 else 0

abbrev sign_flag : Bool → ℕ
sign_flag negative = if negative then 64 else 0

first_byte :
    (more negative : Bool) (mag : ℕ)
    → bit_or (bit_or (more_flag more) (sign_flag negative)) (bit_and (mag % 256) 0x3f)
      ≡ more_flag more + sign_flag negative + mag % 64
first_byte true true mag =
    omega (arith, and_0x3f (mag % 256) (omega arith), more_sign_or (bit_and (mag % 256) 0x3f))
first_byte true false mag =
    omega (arith, and_0x3f (mag % 256) (omega arith), more_or (bit_and (mag % 256) 0x3f))
first_byte false true mag =
    omega (arith, and_0x3f (mag % 256) (omega arith), sign_or (bit_and (mag % 256) 0x3f))
first_byte false false mag =
    omega (arith, and_0x3f (mag % 256) (omega arith), zero_or (bit_and (mag % 256) 0x3f))

next_group :
    (more : Bool) (v : ℕ)
    → bit_or (more_flag more) (bit_and (v % 256) 0x7f) ≡ more_flag more + v % 128
next_group true v =
    omega (arith, and_0x7f (v % 256) (omega arith), more_or (bit_and (v % 256) 0x7f))
next_group false v =
    omega (arith, and_0x7f (v % 256) (omega arith), zero_or (bit_and (v % 256) 0x7f))

-- The sign bit and the digits of the first byte, as the reader takes them apart.
sign_bit_of :
    (more negative : Bool) (mag : ℕ)
    → (bit_and ((more_flag more + sign_flag negative + mag % 64) / 2 ^ 6) 1 == 1) ≡ negative
sign_bit_of true true mag =
    ground (arith, and_1 ((more_flag true + sign_flag true + mag % 64) / 2 ^ 6))
sign_bit_of true false mag =
    ground (arith, and_1 ((more_flag true + sign_flag false + mag % 64) / 2 ^ 6))
sign_bit_of false true mag =
    ground (arith, and_1 ((more_flag false + sign_flag true + mag % 64) / 2 ^ 6))
sign_bit_of false false mag =
    ground (arith, and_1 ((more_flag false + sign_flag false + mag % 64) / 2 ^ 6))

digits_of :
    (more negative : Bool) (mag : ℕ)
    → bit_and (more_flag more + sign_flag negative + mag % 64) 0x3f ≡ mag % 64
digits_of true true mag = omega (arith, and_0x3f (128 + 64 + mag % 64))
digits_of true false mag = omega (arith, and_0x3f (128 + 0 + mag % 64))
digits_of false true mag = omega (arith, and_0x3f (0 + 64 + mag % 64))
digits_of false false mag = omega (arith, and_0x3f (0 + 0 + mag % 64))

-- The magnitude with its sign is the integer again.
as_i32-magnitude :
    (num : ℤ)
    → IsI32 num
    → as_i32 (if is_negative num then neg_i64 (magnitude num) else magnitude num) ≡ num
as_i32-magnitude (pos n) h = ground arith
as_i32-magnitude (negsuc n) h = ground arith

flag_eq : (v : ℕ) → ltb 127 v ≡ ltb 0 (v / 2 ^ 7)
flag_eq v = ground arith

flag_group : (more : Bool) (v : ℕ) → (more_flag more + v % 128) % 128 ≡ v % 128
flag_group true v = omega arith
flag_group false v = omega arith

first_flag_eq : (v : ℕ) → ltb 63 v ≡ ltb 0 (v / 2 ^ 6)
first_flag_eq v = ground arith

magnitude_bound : (num : ℤ) → IsI32 num → magnitude num ≤ 2 ^ 31
magnitude_bound (pos n) h = omega arith
magnitude_bound (negsuc n) h = omega arith

sign_flag_le : (negative : Bool) → sign_flag negative ≤ 64
sign_flag_le true = omega arith
sign_flag_le false = omega arith

module _ ⦃c : Crates⦄ where
  write_groups_zero : (buffer : Bytes) (w : Acc ◌<◌ 0) → write_groups buffer 0 w ≡ buffer
  unfolding write_groups dec_lt
  write_groups_zero buffer (Acc.intro _ smaller) = refl

  write_groups_more :
      (buffer : Bytes) (v : ℕ) (smaller : (u : ℕ) → u < v → Acc ◌<◌ u) (h : 0 < v)
      → write_groups buffer v (Acc.intro v smaller)
        ≡ write_groups
            (buffer ++ (more_flag (ltb 0 (v / 2 ^ 7)) + v % 128) ∷ [])
            (v / 2 ^ 7)
            (smaller (v / 2 ^ 7) (shrinks_i32 v h))
  unfolding write_groups
  write_groups_more buffer v smaller h =
      rw (dif_pos (dec_lt 0 v) le_prop h)
        (rw (next_group (ltb 127 v) v, c.write_u8_append, flag_eq v))

  write_groups-append :
      (buffer : Bytes) (v : ℕ) (w : Acc ◌<◌ v)
      → write_groups buffer v w ≡ buffer ++ write_groups [] v w
  write_groups-append buffer zero w =
      rw (write_groups_zero buffer w, write_groups_zero [] w, append-nil)
  write_groups-append buffer (suc u) (Acc.intro _ smaller) =
      let v = suc u in
      let pos_v : 0 < suc u = omega arith in
      let head : Bytes = (more_flag (ltb 0 (v / 2 ^ 7)) + v % 128) ∷ [] in
      rw (
        write_groups_more buffer v smaller pos_v,
        write_groups_more [] v smaller pos_v,
        write_groups-append (buffer ++ head) (v / 2 ^ 7)
            (smaller (suc u / 2 ^ 7) (shrinks_i32 (suc u) pos_v)),
        write_groups-append head (v / 2 ^ 7) (smaller (suc u / 2 ^ 7) (shrinks_i32 (suc u) pos_v)),
        append_assoc buffer head
            (write_groups [] (v / 2 ^ 7) (smaller (suc u / 2 ^ 7) (shrinks_i32 (suc u) pos_v))),
      )

  -- The digits above the first byte: none for 0, a well-formed integer else.
  write_groups-IsVarint :
      (k v : ℕ) (w : Acc ◌<◌ v) (b : ℕ)
      → v < 128 ^ k
      → b < 128
      → IsVarint ((more_flag (ltb 0 v) + b) ∷ write_groups [] v w)
        × (value (write_groups [] v w) ≡ v)
        × (length (write_groups [] v w) ≤ k)
  write_groups-IsVarint k zero w b h hb = rw (write_groups_zero [] w) (omega arith)
  write_groups-IsVarint zero (suc u) w b h hb = absurd (omega arith)
  write_groups-IsVarint (suc k) (suc u) (Acc.intro _ smaller) b h hb =
      let pos_v : 0 < suc u = omega arith in
      let w = smaller (suc u / 2 ^ 7) (shrinks_i32 (suc u) pos_v) in
      let head : Bytes = (more_flag (ltb 0 (suc u / 2 ^ 7)) + suc u % 128) ∷ [] in
      let (form, same, len) =
        write_groups-IsVarint k (suc u / 2 ^ 7)
          (smaller (suc u / 2 ^ 7) (shrinks_i32 (suc u) pos_v)) (suc u % 128)
          (omega (arith, pow-suc 128 k)) (omega arith) in
      rw
        (
          write_groups_more [] (suc u) smaller pos_v,
          write_groups-append head (suc u / 2 ^ 7) w,
          lt→ltb 0 (suc u) pos_v,
        )
        (
          IsVarint-cons (128 + b) (head ++ write_groups [] (suc u / 2 ^ 7) w) (omega arith)
              (omega arith) form,
          omega (arith, flag_group (ltb 0 (suc u / 2 ^ 7)) (suc u)),
          omega arith,
        )

  -- `write_var_i32` in one piece: the first byte, with its flags, and the groups above it.
  write_var_i32_bytes :
      (buffer : Bytes) (num : ℤ)
      → write_var_i32 buffer num
        ≡ buffer
          ++ (more_flag (ltb 0 (magnitude num / 2 ^ 6))
              + sign_flag (is_negative num)
              + magnitude num % 64)
            ∷ write_groups [] (magnitude num / 2 ^ 6) (lt_wf.apply (magnitude num / 2 ^ 6))
  unfolding write_var_i32
  write_var_i32_bytes buffer num =
      let mag = magnitude num in
      let first = more_flag (ltb 0 (mag / 2 ^ 6)) + sign_flag (is_negative num) + mag % 64 in
      let w = lt_wf.apply (mag / 2 ^ 6) in
      rw (
        first_byte (ltb 63 mag) (is_negative num) mag,
        first_flag_eq mag,
        c.write_u8_append,
        write_groups-append (buffer ++ first ∷ []) (mag / 2 ^ 6) w,
        append_assoc buffer (first ∷ []) (write_groups [] (mag / 2 ^ 6) w),
      )

  -- `read_var_i32` gives back any i32 that `write_var_i32` appended to an empty buffer, and leaves
  -- the bytes that follow it.
  pub read_var_i32-write_var_i32 :
      (num : ℤ) (rest : Bytes)
      → IsI32 num
      → read_var_i32 (write_var_i32 [] num ++ rest) ≡ ok (rest, num)
  unfolding read_var_i32
  read_var_i32-write_var_i32 num rest h =
      let mag = magnitude num in
      let more = ltb 0 (mag / 2 ^ 6) in
      let neg = is_negative num in
      let w = lt_wf.apply (mag / 2 ^ 6) in
      let bs = write_groups [] (mag / 2 ^ 6) w in
      let (form, same, len) =
        write_groups-IsVarint 5 (mag / 2 ^ 6) w (sign_flag neg + mag % 64)
          (omega (arith, magnitude_bound num h)) (omega (arith, sign_flag_le neg)) in
      let first = more_flag more + sign_flag neg + mag % 64 in
      let whole : IsVarint (first ∷ bs) = rw (← add_assoc) at form in
      let total : mag % 64 + value bs * 2 ^ 6 ≡ mag = omega (arith, same) in
      let loop =
        read_more-value bs (length (first ∷ bs ++ rest)) first (mag % 64) 6 rest whole (omega arith)
          (omega arith) (omega (arith, total, magnitude_bound num h)) in
      rw (write_var_i32_bytes [] num) (
        rw (digits_of more neg mag, sign_bit_of more neg mag)
          (rw (loop, total) (ap (λ t. ok (rest, t)) (as_i32-magnitude num h))))

  -- What is written does not hang on what the buffer held.
  pub write_var_i32-append :
      (buffer : Bytes) (num : ℤ) → write_var_i32 buffer num ≡ buffer ++ write_var_i32 [] num
  write_var_i32-append buffer num = rw (write_var_i32_bytes buffer num, write_var_i32_bytes [] num)
