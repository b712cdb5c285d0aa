-- ===== src/Codec/Utf8.antt =====
-- `String::from_utf8` of the standard library. A `String` is the list of its bytes, for which
-- `IsUtf8` holds.
pub mod Chars
use octo_base.Base.{
  ℕ, zero, suc, ◌≡◌, Bool, true, false, ◌&&◌, Option, none, some, [], ◌∷◌, ltb, leb, ◌==◌,
  if◌then◌else◌,
}
use octo_base.Crates.{Bytes}

-- The bytes that must follow a first byte, and the range of the next one.
lead : ℕ → Option (ℕ × ℕ × ℕ)
lead b =
    if ltb b 0x80
    then some (0, 0, 0)
    else if ltb b 0xc2
    then none
    else if ltb b 0xe0
    then some (1, 0x80, 0xbf)
    else if b == 0xe0
    then some (2, 0xa0, 0xbf)
    else if b == 0xed
    then some (2, 0x80, 0x9f)
    else if ltb b 0xf0
    then some (2, 0x80, 0xbf)
    else if b == 0xf0
    then some (3, 0x90, 0xbf)
    else if ltb b 0xf4
    then some (3, 0x80, 0xbf)
    else if b == 0xf4
    then some (3, 0x80, 0x8f)
    else none

valid : ℕ → ℕ → ℕ → Bytes → Bool
valid zero lo hi [] = true
valid (suc n) lo hi [] = false
valid zero lo hi (b ∷ bs) = elim (lead b) [ none ↦ false | some (n, l, h) ↦ valid n l h bs ]
valid (suc n) lo hi (b ∷ bs) = leb lo b && leb b hi && valid n 0x80 0xbf bs

unfoldable pub is_utf8 : Bytes → Bool
unfolding valid lead
is_utf8 bs = valid 0 0 0 bs

unfoldable pub from_utf8 : Bytes → Option Bytes
from_utf8 bs = if is_utf8 bs then some bs else none

abbrev pub IsUtf8 : Bytes → Type 0
IsUtf8 bs = is_utf8 bs ≡ true

pub from_utf8_valid : (bs : Bytes) → IsUtf8 bs → from_utf8 bs ≡ some bs
unfolding from_utf8
from_utf8_valid bs h = rw h

pub from_utf8_invalid : (bs : Bytes) → is_utf8 bs ≡ false → from_utf8 bs ≡ none
unfolding from_utf8
from_utf8_invalid bs h = rw h
