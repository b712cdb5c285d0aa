-- ===== src/Codec/Integer/Malformed.antt =====
-- The readers on any input, well formed or not.
use octo_base.Base.{
  ℕ, ◌+◌, ◌*◌, ◌%◌, ◌^◌, ◌≤◌, ◌<◌, ◌≡◌, refl, ap, ◌∙◌, bit_and, bit_or, [], ◌∷◌, ◌++◌, length, All,
}
use octo_base.Base.Bits.{all_below, table_eq}
use octo_base.Base.Result.{ok, err}
use octo_base.Crates.{Bytes, incomplete, size}
use octo_base.Codec.Integer.{read_more, read_var_u64}
use octo_base.Codec.Integer.Spec.{top_bit_clear, top_bit_set}

-- A byte that another byte follows in the same integer.
abbrev pub IsContinued : ℕ → Type 0
IsContinued b = (128 ≤ b) × (b < 256)

read_more_unfinished :
    (bs : Bytes) (n curr num s : ℕ)
    → IsContinued curr
    → All IsContinued bs
    → read_more n curr num s bs ≡ err (incomplete (size (n + 1)))
unfolding read_more
read_more_unfinished [] n curr num s (lo, hi) all = rw (top_bit_set curr lo hi)
read_more_unfinished (b ∷ bs) n curr num s (lo, hi) (hb, all) =
    rw (top_bit_set curr lo hi) (read_more_unfinished bs n b _ (s + 7) hb all)

-- An input all of whose bytes have the top bit set is no integer: the reader answers `Incomplete`,
-- with one byte more than it was given.
pub read_var_u64_unfinished :
    (bs : Bytes) → All IsContinued bs → read_var_u64 bs ≡ err (incomplete (size (length bs + 1)))
unfolding read_var_u64
read_var_u64_unfinished [] all = refl
read_var_u64_unfinished (b ∷ bs) (hb, all) = read_more_unfinished bs _ b _ 7 hb all

read_more_takes :
    (bs : Bytes) (n curr num s b : ℕ) (rest : Bytes)
    → IsContinued curr
    → All IsContinued bs
    → b < 128
    → (v : ℕ) × (read_more n curr num s (bs ++ b ∷ rest) ≡ ok (rest, v))
unfolding read_more
read_more_takes [] n curr num s b [] (lo, hi) all h = (
  bit_or num (bit_and b 0x7f * 2 ^ (s % 64) % 2 ^ 64),
  rw (top_bit_set curr lo hi, top_bit_clear b h),
)
read_more_takes [] n curr num s b (r ∷ rest) (lo, hi) all h = (
  bit_or num (bit_and b 0x7f * 2 ^ (s % 64) % 2 ^ 64),
  rw (top_bit_set curr lo hi, top_bit_clear b h),
)
read_more_takes (d ∷ bs) n curr num s b rest (lo, hi) (hd, all) h =
    rw (top_bit_set curr lo hi) (read_more_takes bs n d _ (s + 7) b rest hd all h)

read_more_last :
    (n b num s : ℕ) (rest : Bytes) → b < 128 → read_more n b num s rest ≡ ok (rest, num)
unfolding read_more
read_more_last n b num s [] h = rw (top_bit_clear b h)
read_more_last n b num s (r ∷ rest) h = rw (top_bit_clear b h)

-- However many bytes with the top bit set come first, the reader takes them and the one byte that
-- ends them, returns some number, and leaves the rest.
pub read_var_u64_takes :
    (bs : Bytes) (b : ℕ) (rest : Bytes)
    → All IsContinued bs
    → b < 128
    → (v : ℕ) × (read_var_u64 (bs ++ b ∷ rest) ≡ ok (rest, v))
unfolding read_var_u64
read_var_u64_takes [] b rest all h = (_, read_more_last _ b _ 7 rest h)
read_var_u64_takes (d ∷ bs) b rest (hd, all) h = read_more_takes bs _ d _ 7 b rest hd all h

abbrev pub ten_continued : Bytes → Bytes
ten_continued t = 128 ∷ 128 ∷ 128 ∷ 128 ∷ 128 ∷ 128 ∷ 128 ∷ 128 ∷ 128 ∷ 128 ∷ t

wrapped_group : (b : ℕ) → b < 128 → bit_or 0 (bit_and b 0x7f * 2 ^ 6 % 2 ^ 64) ≡ b * 64
unfolding all_below
wrapped_group = table_eq 128 (λ b. bit_or 0 (bit_and b 0x7f * 2 ^ 6 % 2 ^ 64)) (λ b. b * 64) refl

-- The shift of the eleventh byte is 70, which `wrapping_shl` takes for 6: ten bytes 0x80 and a byte
-- `b` below 128, which stand for `b * 2 ^ 70`, are read as `b * 64`, without an error.
pub read_var_u64_wraps :
    (b : ℕ) (rest : Bytes) → b < 128 → read_var_u64 (ten_continued (b ∷ rest)) ≡ ok (rest, b * 64)
unfolding read_var_u64 read_more
read_var_u64_wraps b rest h =
    read_more_last _ b _ 77 rest h ∙ ap (λ t. ok (rest, t)) (wrapped_group b h)
