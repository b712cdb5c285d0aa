-- ===== src/Doc/ItemFlag.antt =====
-- libs/jwst-codec/src/doc/codec/item_flag.rs: the flags of an item in one byte. Each operation is one
-- atomic step on the byte, which is returned.
use octo_base.Base.{
  ℕ, ◌-◌, ◌^◌, ◌<◌, ◌≡◌, refl, Bool, true, false, not, ◌&&◌, ◌||◌, bit_and, bit_or, ◌==◌,
}
use octo_base.Base.Bits.{all_below, all_below_lem}

-- `AtomicU8`
abbrev pub ItemFlag : Type 0
ItemFlag = ℕ

abbrev pub item_keep : ℕ
item_keep = 0b0000_0001

abbrev pub item_countable : ℕ
item_countable = 0b0000_0010

abbrev pub item_deleted : ℕ
item_deleted = 0b0000_0100

unfoldable pub set : ItemFlag → ℕ → ItemFlag
set self flag = bit_or self flag

-- `!flag` of a u8
unfoldable pub clear : ItemFlag → ℕ → ItemFlag
clear self flag = bit_and self (255 - flag)

unfoldable pub check : ItemFlag → ℕ → Bool
check self flag = bit_and self flag == flag

-- `not`
unfoldable pub check_not : ItemFlag → ℕ → Bool
check_not self flag = bit_and self flag == 0

unfoldable pub keep : ItemFlag → Bool
keep self = check self item_keep

unfoldable pub set_keep : ItemFlag → ItemFlag
set_keep self = set self item_keep

unfoldable pub clear_keep : ItemFlag → ItemFlag
clear_keep self = clear self item_keep

unfoldable pub countable : ItemFlag → Bool
countable self = check self item_countable

unfoldable pub set_countable : ItemFlag → ItemFlag
set_countable self = set self item_countable

unfoldable pub clear_countable : ItemFlag → ItemFlag
clear_countable self = clear self item_countable

unfoldable pub deleted : ItemFlag → Bool
deleted self = check self item_deleted

unfoldable pub set_deleted : ItemFlag → ItemFlag
set_deleted self = set self item_deleted

unfoldable pub clear_deleted : ItemFlag → ItemFlag
clear_deleted self = clear self item_deleted

abbrev same : Bool → Bool → Bool
same true b = b
same false b = not b

same-eq : (a b : Bool) → same a b ≡ true → a ≡ b
same-eq true true h = refl
same-eq true false h = cc
same-eq false true h = cc
same-eq false false h = refl

-- The claim for the bits `i` and `j` of the byte `self`.
abbrev bits_agree : ℕ → ℕ → ℕ → Bool
bits_agree self i j =
    same (check (set self (2 ^ i)) (2 ^ j)) ((i == j) || check self (2 ^ j))
    && (same (check (clear self (2 ^ i)) (2 ^ j)) (not (i == j) && check self (2 ^ j))
        && same (check_not self (2 ^ j)) (not (check self (2 ^ j))))

and-parts : (a b : Bool) → (a && b) ≡ true → (a ≡ true) × (b ≡ true)
and-parts true b h = (refl, h)
and-parts false b h = cc

bits_agree_all : (self i j : ℕ) → self < 256 → i < 8 → j < 8 → bits_agree self i j ≡ true
unfolding all_below set clear check check_not
bits_agree_all self i j hs hi hj =
    let row = λ (self : ℕ) (i : ℕ). all_below (λ j. bits_agree self i j) 8 in
    let table = λ (self : ℕ). all_below (λ i. all_below (λ j. bits_agree self i j) 8) 8 in
    all_below_lem (λ j. bits_agree self i j) 8 j hj
      (all_below_lem (row self) 8 i hi (all_below_lem table 256 self hs refl))

-- Of a byte and any two of its eight bits: after `set` of one the check of the other holds if it is
-- the same bit or held before, after `clear` of one if it is another bit and held before, and `not`
-- of a bit is the opposite of its check.
pub check-set-clear :
    (self i j : ℕ)
    → self < 256
    → i < 8
    → j < 8
    → (check (set self (2 ^ i)) (2 ^ j) ≡ ((i == j) || check self (2 ^ j)))
      × (check (clear self (2 ^ i)) (2 ^ j) ≡ (not (i == j) && check self (2 ^ j)))
      × (check_not self (2 ^ j) ≡ not (check self (2 ^ j)))
check-set-clear self i j hs hi hj =
    let (on, rest) = and-parts _ _ (bits_agree_all self i j hs hi hj) in
    let (off, neither) = and-parts _ _ rest in
    (same-eq _ _ on, same-eq _ _ off, same-eq _ _ neither)
