-- ===== src/Base/Bits.antt =====
-- The bit operations on a byte as arithmetic, by tables, and `|` of disjoint bits as a sum.
use Prim.Native.Nat.{digits, bit_or-bitwise, max}
use Prim.Native.Nat.{ℕ, zero, suc, ◌+◌, ◌*◌, ◌/◌, ◌%◌, ◌^◌, ◌≤◌, ◌<◌, bit_and, bit_or}
use mathlib.Core.Path.{◌≡◌, refl, ap}
use mathlib.Core.Bool.{Bool, true, ◌&&◌}
use native.Mathlib.Omega.{arith}
use native.Mathlib.Nat.{pow-suc}
use octo_base.Base.Tests.{◌==◌, ==_iff}

-- A claim about every byte is a table, checked by evaluation.
unfoldable pub all_below : (ℕ → Bool) → ℕ → Bool
all_below claim zero = true
all_below claim (suc bound) = all_below claim bound && claim bound

pub all_below_lem :
    (claim : ℕ → Bool) (bound x : ℕ) → x < bound → all_below claim bound ≡ true → claim x ≡ true
unfolding all_below
all_below_lem claim zero x below table = absurd (omega arith)
all_below_lem claim (suc bound) x below table = ground (arith, all_below_lem claim bound x)

-- Two functions that agree on a table agree below its bound.
pub table_eq :
    (bound : ℕ) (f g : ℕ → ℕ)
    → all_below (λ x. f x == g x) bound ≡ true
    → (x : ℕ) → x < bound
    → f x ≡ g x
table_eq bound f g table x below =
    (==_iff (f x) (g x)).0 (all_below_lem (λ x. f x == g x) bound x below table)

pub and_0x7f : (b : ℕ) → b < 256 → bit_and b 0x7f ≡ b % 128
unfolding all_below
and_0x7f = table_eq 256 (λ b. bit_and b 0x7f) (λ b. b % 128) refl

pub and_0x3f : (b : ℕ) → b < 256 → bit_and b 0x3f ≡ b % 64
unfolding all_below
and_0x3f = table_eq 256 (λ b. bit_and b 0x3f) (λ b. b % 64) refl

pub and_1 : (b : ℕ) → b < 256 → bit_and b 1 ≡ b % 2
unfolding all_below
and_1 = table_eq 256 (λ b. bit_and b 1) (λ b. b % 2) refl

pub or_0x80 : (b : ℕ) → b < 128 → bit_or b 0x80 ≡ b + 128
unfolding all_below
or_0x80 = table_eq 128 (λ b. bit_or b 0x80) (λ b. b + 128) refl

pow-double : (b s : ℕ) → b * 2 ^ suc s ≡ 2 * (b * 2 ^ s)
pow-double b s = omega (arith, ap (λ (t : ℕ). b * t) (pow-suc 2 s))

-- The recursion that `bit_or` stands for, where no bit of `low` meets one of the shifted number.
disjoint_digits :
    (s n low high : ℕ)
    → low ≤ n
    → low < 2 ^ s
    → digits (λ y. y) max n low (high * 2 ^ s) ≡ low + high * 2 ^ s
disjoint_digits s zero zero high p q = omega arith
disjoint_digits s zero (suc low) high p q = absurd (omega arith)
disjoint_digits s (suc n) zero high p q = omega arith
disjoint_digits zero (suc n) (suc low) high p q = absurd (omega arith)
disjoint_digits (suc s) (suc n) (suc low) high p q = omega (
  arith,
  pow-double high s,
  ap (digits (λ y. y) max n (suc low / 2)) halved,
  disjoint_digits s n (suc low / 2) high (omega arith) (omega (arith, pow-suc 2 s)),
)
  where
    halved : high * 2 ^ suc s / 2 ≡ high * 2 ^ s
    halved = omega (arith, pow-double high s)

-- `a | (b << s)` is a sum where `a` has only bits below `s`.
pub bit_or-shift : (s a b : ℕ) → a < 2 ^ s → bit_or a (b * 2 ^ s) ≡ a + b * 2 ^ s
bit_or-shift s a b h =
    omega (arith, bit_or-bitwise a (b * 2 ^ s), disjoint_digits s a a b (omega arith) h)
