-- ===== src/Codec/Integer/Spec.antt =====
-- The format of a variable-length integer, told without the loops of integer.rs, and what one round
-- of each loop does in arithmetic.
use native.Mathlib.Numerals.{towards_suc}
use octo_base.Base.{
  ℕ, ◌+◌, ◌*◌, ◌/◌, ◌%◌, ◌^◌, ◌≤◌, ◌<◌, ◌≡◌, ap, ◌∙◌, bit_and, bit_or, true, false, [], ◌∷◌, arith,
  ◌==◌,
}
use octo_base.Base.Bits.{and_0x7f, and_1, bit_or-shift}
use octo_base.Crates.{Bytes}

abbrev pub IsByte : ℕ → Type 0
IsByte b = b < 256

abbrev pub IsU64 : ℕ → Type 0
IsU64 v = v < 2 ^ 64

-- Every byte but the last has the top bit set.
abbrev pub IsVarint : Bytes → Type 0
IsVarint [] = ⊥
IsVarint (b ∷ []) = b < 128
IsVarint (b ∷ d ∷ bs) = (128 ≤ b) × (b < 256) × IsVarint (d ∷ bs)

-- Seven bits to a byte, the lowest first.
abbrev pub value : Bytes → ℕ
value [] = 0
value (b ∷ bs) = b % 128 + 128 * value bs

pub top_bit_clear : (b : ℕ) → b < 128 → (bit_and (b / 2 ^ 7) 1 == 0) ≡ true
top_bit_clear b h = ground (arith, and_1 (b / 2 ^ 7))

pub top_bit_set : (b : ℕ) → 128 ≤ b → b < 256 → (bit_and (b / 2 ^ 7) 1 == 0) ≡ false
top_bit_set b h k = ground (arith, and_1 (b / 2 ^ 7))

pub shift_seven : (s : ℕ) → 2 ^ (s + 7) ≡ 128 * 2 ^ s
shift_seven s = simp towards_suc (omega arith)

-- `num |= (b & 0x7f).wrapping_shl(s)` where the shift does not wrap and nothing is shifted out.
pub or_group :
    (num b s : ℕ)
    → num < 2 ^ s
    → IsByte b
    → s < 64
    → b % 128 * 2 ^ s < 2 ^ 64
    → bit_or num (bit_and b 0x7f * 2 ^ (s % 64) % 2 ^ 64) ≡ num + b % 128 * 2 ^ s
or_group num b s hn hb hs fits = ap (bit_or num) group ∙ bit_or-shift s num (b % 128) hn
  where
    unwrapped : s % 64 ≡ s
    unwrapped = omega arith

    group : bit_and b 0x7f * 2 ^ (s % 64) % 2 ^ 64 ≡ b % 128 * 2 ^ s
    group = rw (unwrapped, and_0x7f b hb) (omega arith)

pub group_bound : (num b s : ℕ) → num < 2 ^ s → num + b % 128 * 2 ^ s < 2 ^ (s + 7)
group_bound num b s h = rw shift_seven bound
  where
    bound : num + b % 128 * 2 ^ s < 128 * 2 ^ s
    bound = grind arith

-- What the groups after `b` stand for, once `b` has been read.
pub value-step :
    (num b s : ℕ) (bs : Bytes)
    → num + value (b ∷ bs) * 2 ^ s ≡ num + b % 128 * 2 ^ s + value bs * 2 ^ (s + 7)
value-step num b s bs = omega (arith, ap (λ (t : ℕ). value bs * t) (shift_seven s))

pub value-bound : (b s : ℕ) (bs : Bytes) → b % 128 * 2 ^ s ≤ value (b ∷ bs) * 2 ^ s
value-bound b s bs = omega arith
