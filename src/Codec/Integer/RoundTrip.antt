-- ===== src/Codec/Integer/RoundTrip.antt =====
-- What `write_var_u64` and `write_var_i32` write, `read_var_u64` and `read_var_i32` read back.
use mathlib.Core.WellFounded.{Acc}
use mathlib.Core.Logic.{dif_neg}
use native.Mathlib.Nat.{pow-suc}
use native.Mathlib.Decide.{dec_lt}
use octo_base.Base.{
  ℕ, zero, suc, ◌+◌, ◌*◌, ◌/◌, ◌%◌, ◌^◌, ◌≤◌, ◌<◌, ◌≡◌, ap, ◌∙◌, bit_and, bit_or, [], ◌∷◌, ◌++◌,
  append_assoc, length, arith,
}
use octo_base.Base.Bits.{and_0x7f, or_0x80}
use octo_base.Base.Result.{ok}
use octo_base.Base.Order.{lt_wf}
use octo_base.Crates.{Crates, Bytes}
use octo_base.Codec.Integer.{read_more, read_var_u64, write_loop, write_var_u64, shrinks_u64}
use octo_base.Codec.Integer.Spec.{
  IsByte, IsU64, IsVarint, value, top_bit_clear, top_bit_set, or_group, group_bound, value-step,
  value-bound,
}

pub IsVarint-first : (b : ℕ) (bs : Bytes) → IsVarint (b ∷ bs) → IsByte b
IsVarint-first b [] v = omega arith
IsVarint-first b (d ∷ bs) v = v.1

-- The reading loop on the rest `bs` of a well-formed integer, `num` being read so far.
pub read_more-value :
    (bs : Bytes) (n curr num s : ℕ) (rest : Bytes)
    → IsVarint (curr ∷ bs)
    → num < 2 ^ s
    → s + 7 * length bs ≤ 70
    → num + value bs * 2 ^ s < 2 ^ 64
    → read_more n curr num s (bs ++ rest) ≡ ok (rest, num + value bs * 2 ^ s)
unfolding read_more
read_more-value [] n curr num s [] v hn hs fits =
    rw (top_bit_clear curr v) (ap (λ t. ok ([], t)) (omega arith))
read_more-value [] n curr num s (r ∷ rest) v hn hs fits =
    rw (top_bit_clear curr v) (ap (λ t. ok (r ∷ rest, t)) (omega arith))
read_more-value (b ∷ bs) n curr num s rest (lo, hi, v) hn hs fits =
    rw
      (
        top_bit_set curr lo hi,
        or_group num b s hn byte (omega arith) (omega (arith, value-bound b s bs)),
        value-step num b s bs,
      )
      (read_more-value bs n b (num + b % 128 * 2 ^ s) (s + 7) rest v (group_bound num b s hn)
        (omega arith) (omega (arith, value-step num b s bs)))
  where
    byte : IsByte b
    byte = IsVarint-first b bs v

last_group : (v : ℕ) → v < 128 → bit_and v 0x7f % 256 ≡ v
last_group v h = omega (arith, and_0x7f v (omega arith))

inner_group : (v : ℕ) → bit_or (bit_and (v % 256) 0x7f) 0x80 ≡ v % 128 + 128
inner_group v =
    rw (and_0x7f (v % 256) (omega arith)) (omega (arith, or_0x80 (v % 256 % 128) (omega arith)))

pub IsVarint-cons : (b : ℕ) (bs : Bytes) → 128 ≤ b → b < 256 → IsVarint bs → IsVarint (b ∷ bs)
IsVarint-cons b [] lo hi v = absurd v
IsVarint-cons b (d ∷ bs) lo hi v = (lo, hi, v)

-- A group with the top bit set in front of the bytes `bs` of `v / 128`.
IsVarint-more :
    (k v : ℕ) (bs : Bytes)
    → v < 128 ^ suc k
    → ¬ (v < 128)
    → ((j : ℕ)
        → v / 2 ^ 7 < 128 ^ suc j
        → IsVarint bs × (value bs ≡ v / 2 ^ 7) × (length bs ≤ suc j))
    → IsVarint ((v % 128 + 128) ∷ bs)
      × (value ((v % 128 + 128) ∷ bs) ≡ v)
      × (suc (length bs) ≤ suc k)
IsVarint-more zero v bs h p ih = absurd (omega arith)
IsVarint-more (suc k) v bs h p ih =
    let (form, same, len) = ih k (omega (arith, pow-suc 128 (suc k))) in
    (IsVarint-cons (v % 128 + 128) bs (omega arith) (omega arith) form, omega arith, omega arith)

module _ ⦃c : Crates⦄ where
  -- One round of the writing loop.
  write_loop_last :
      (buffer : Bytes) (v : ℕ) (w : Acc ◌<◌ v) → v < 128 → write_loop buffer v w ≡ buffer ++ v ∷ []
  unfolding write_loop
  write_loop_last buffer v (Acc.intro _ smaller) h =
      grind (arith, last_group v h, c.write_u8_append buffer v)

  write_loop_more :
      (buffer : Bytes) (v : ℕ) (smaller : (u : ℕ) → u < v → Acc ◌<◌ u) (h : ¬ (v < 128))
      → write_loop buffer v (Acc.intro v smaller)
        ≡ write_loop (buffer ++ (v % 128 + 128) ∷ []) (v / 2 ^ 7) (smaller _ (shrinks_u64 v h))
  unfolding write_loop
  write_loop_more buffer v smaller h =
      rw (dif_neg (dec_lt v 0x80) h) (rw (inner_group v, c.write_u8_append))

  -- What is written does not hang on what the buffer held.
  write_loop-append :
      (buffer : Bytes) (v : ℕ) (w : Acc ◌<◌ v) → write_loop buffer v w ≡ buffer ++ write_loop [] v w
  write_loop-append buffer v (Acc.intro _ smaller) = elim (dec_lt v 128) [
    | yes p ↦ rw (write_loop_last buffer v _ p, write_loop_last [] v _ p)
    | no p ↦
        let head : Bytes = (v % 128 + 128) ∷ [] in
        rw (
          write_loop_more buffer v smaller p,
          write_loop_more [] v smaller p,
          write_loop-append (buffer ++ head) (v / 2 ^ 7) (smaller (v / 2 ^ 7) (shrinks_u64 v p)),
          write_loop-append head (v / 2 ^ 7) (smaller (v / 2 ^ 7) (shrinks_u64 v p)),
          append_assoc buffer head
              (write_loop [] (v / 2 ^ 7) (smaller (v / 2 ^ 7) (shrinks_u64 v p))),
        )
  ]

  -- `k` bounds the bytes after the first.
  write_loop-IsVarint :
      (k v : ℕ) (w : Acc ◌<◌ v)
      → v < 128 ^ suc k
      → IsVarint (write_loop [] v w)
        × (value (write_loop [] v w) ≡ v)
        × (length (write_loop [] v w) ≤ suc k)
  write_loop-IsVarint k v (Acc.intro _ smaller) h = elim (dec_lt v 128) [
    | yes p ↦ rw (write_loop_last [] v _ p) (omega arith)
    | no p ↦
        let w = smaller (v / 2 ^ 7) (shrinks_u64 v p) in
        let head : Bytes = (v % 128 + 128) ∷ [] in
        rw (write_loop_more [] v smaller p, write_loop-append head (v / 2 ^ 7) w)
          (IsVarint-more k v (write_loop [] (v / 2 ^ 7) w) h p λ j bound.
            write_loop-IsVarint j (v / 2 ^ 7) (smaller (v / 2 ^ 7) (shrinks_u64 v p)) bound)
  ]

  -- The bytes that stand for `v`.
  unfoldable pub varint : ℕ → Bytes
  varint v = write_var_u64 [] v

  pub write_var_u64-varint : (buffer : Bytes) (v : ℕ) → write_var_u64 buffer v ≡ buffer ++ varint v
  unfolding write_var_u64 varint
  write_var_u64-varint buffer v = write_loop-append buffer v (lt_wf.apply v)

  -- Every u64 is written to an empty buffer as a well-formed integer of that value, in at most ten
  -- bytes.
  pub varint_format :
      (v : ℕ) → IsU64 v → IsVarint (varint v) × (value (varint v) ≡ v) × (length (varint v) ≤ 10)
  unfolding write_var_u64 varint
  varint_format v h = write_loop-IsVarint 9 v (lt_wf.apply v) (omega arith)

  -- The reader returns the value of a well-formed integer of at most ten bytes that fits a u64.
  pub read_var_u64-value :
      (bs rest : Bytes)
      → IsVarint bs
      → length bs ≤ 10
      → IsU64 (value bs)
      → read_var_u64 (bs ++ rest) ≡ ok (rest, value bs)
  unfolding read_var_u64
  read_var_u64-value [] rest v len fits = absurd v
  read_var_u64-value (b ∷ bs) rest v len fits = rw (and_0x7f b (IsVarint-first b bs v)) (
      read_more-value bs _ b (b % 128) 7 rest v (omega arith) (omega arith) (omega arith)
      ∙ ap (λ t. ok (rest, t)) (omega arith))

  -- `read_var_u64` gives back any u64 that `write_var_u64` appended to an empty buffer, and leaves
  -- the bytes that follow it.
  pub read_var_u64-write_var_u64 :
      (v : ℕ) (rest : Bytes) → IsU64 v → read_var_u64 (write_var_u64 [] v ++ rest) ≡ ok (rest, v)
  read_var_u64-write_var_u64 v rest h =
      let (form, same, len) = varint_format v h in
      rw (write_var_u64-varint [] v)
        (read_var_u64-value (varint v) rest form len (omega arith) ∙ ap (λ t. ok (rest, t)) same)
