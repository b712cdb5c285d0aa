-- ===== src/Codec/Utf8/Chars.antt =====
-- The characters of a string, told by their first bytes.
use octo_base.Base.{
  ℕ, zero, suc, ◌-◌, ◌≡◌, refl, true, false, Option, none, some, [], ◌∷◌, ltb, if◌then◌else◌, arith,
}
use octo_base.Crates.{Bytes}
use octo_base.Codec.Utf8.{lead, valid, is_utf8}

-- `char::len_utf8` and `char::len_utf16`
abbrev pub len_utf8 : ℕ → ℕ
len_utf8 b = if ltb b 0x80 then 1 else if ltb b 0xe0 then 2 else if ltb b 0xf0 then 3 else 4

abbrev pub len_utf16 : ℕ → ℕ
len_utf16 b = if ltb b 0xf0 then 1 else 2

-- After `skip` bytes of a character stand whole characters.
abbrev pub AreChars : ℕ → Bytes → Type 0
AreChars zero [] = Unit {0}
AreChars (suc skip) [] = ⊥
AreChars zero (b ∷ bs) = AreChars (len_utf8 b - 1) bs
AreChars (suc skip) (b ∷ bs) = AreChars skip bs

lead-len_utf8 : (b n lo hi : ℕ) → lead b ≡ some (n, lo, hi) → n ≡ len_utf8 b - 1
unfolding lead
lead-len_utf8 b n lo hi h = ground arith

valid-AreChars : (bs : Bytes) (skip lo hi : ℕ) → valid skip lo hi bs ≡ true → AreChars skip bs
unfolding valid
valid-AreChars [] zero lo hi h = tt
valid-AreChars [] (suc skip) lo hi h = absurd_of h
  where
    absurd_of : false ≡ true → ⊥
    absurd_of e = cc
valid-AreChars (b ∷ bs) zero lo hi h =
    from_lead (lead b) (lead-len_utf8 b) (λ n l u. valid-AreChars bs n l u) h
  where
    from_lead :
        (o : Option (ℕ × ℕ × ℕ))
        → ((n lo hi : ℕ) → o ≡ some (n, lo, hi) → n ≡ len_utf8 b - 1)
        → ((n lo hi : ℕ) → valid n lo hi bs ≡ true → AreChars n bs)
        → elim o [ none ↦ false | some (n, l, h) ↦ valid n l h bs ] ≡ true
        → AreChars (len_utf8 b - 1) bs
    from_lead none e rec h = cc
    from_lead (some (n, l, u)) e rec h = rw (← e n l u refl) (rec n l u h)
valid-AreChars (b ∷ bs) (suc skip) lo hi h = valid-AreChars bs skip 0x80 0xbf (ground arith)

pub is_utf8-AreChars : (s : Bytes) → is_utf8 s ≡ true → AreChars 0 s
unfolding is_utf8
is_utf8-AreChars s h = valid-AreChars s 0 0 0 h
