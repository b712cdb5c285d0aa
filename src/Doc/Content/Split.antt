-- ===== src/Doc/Content/Split.antt =====
-- The parts that a split makes of content.
use octo_base.Base.{
  ℕ, zero, suc, ◌+◌, ◌-◌, ◌^◌, ◌≤◌, ◌<◌, ◌≡◌, refl, ap, inl, inr, true, List, [], ◌∷◌, ◌++◌, length,
  take, drop, take-append-drop, length-drop, leb, Bool-cases, arith,
}
use octo_base.Base.Result.{ok}
use octo_base.Crates.{Bytes}
use octo_base.Codec.Utf8.{IsUtf8}
use octo_base.Codec.Utf8.Chars.{len_utf8, len_utf16, AreChars, is_utf8-AreChars}
use octo_base.Doc.Content.{
  Content, deleted, json, binary, string, any, embed, format, ytype, doc, utf16_sum, clock_len,
  utf8_offset, split_as_utf16_str, split_list, split,
}

-- The bytes that the loop takes: a whole number of characters that reaches the offset, by one unit
-- more at most.
record Taken (offset skip before : ℕ) (bs : Bytes) (n : ℕ) : Type 0 where
  taken_le : n ≤ length bs
  taken_sum : utf16_sum skip (take n bs) + utf16_sum 0 (drop n bs) ≡ utf16_sum skip bs
  reached : offset ≤ before + utf16_sum skip (take n bs)
  over : before + utf16_sum skip (take n bs) ≤ offset + 1

AreChars-length : (bs : Bytes) (k : ℕ) → AreChars k bs → k ≤ length bs
AreChars-length [] zero h = omega arith
AreChars-length [] (suc k) h = absurd h
AreChars-length (b ∷ bs) zero h = omega arith
AreChars-length (b ∷ bs) (suc k) h = omega (arith, AreChars-length bs k h)

utf16_sum-take_skip : (bs : Bytes) (k : ℕ) → utf16_sum k (take k bs) ≡ 0
unfolding utf16_sum
utf16_sum-take_skip bs zero = refl
utf16_sum-take_skip [] (suc k) = refl
utf16_sum-take_skip (b ∷ bs) (suc k) = utf16_sum-take_skip bs k

utf16_sum-drop_skip : (bs : Bytes) (k : ℕ) → utf16_sum 0 (drop k bs) ≡ utf16_sum k bs
unfolding utf16_sum
utf16_sum-drop_skip bs zero = refl
utf16_sum-drop_skip [] (suc k) = refl
utf16_sum-drop_skip (b ∷ bs) (suc k) = utf16_sum-drop_skip bs k

utf8_offset-Taken :
    (bs : Bytes) (offset skip before utf_8 : ℕ)
    → AreChars skip bs
    → before < offset
    → offset ≤ before + utf16_sum skip bs
    → (n : ℕ) × (utf8_offset offset skip before utf_8 bs + skip ≡ utf_8 + n)
      × Taken offset skip before bs n
unfolding utf8_offset utf16_sum
utf8_offset-Taken [] offset zero before utf_8 h lt le = absurd (omega arith)
utf8_offset-Taken [] offset (suc skip) before utf_8 h lt le = absurd h
utf8_offset-Taken (b ∷ bs) offset (suc skip) before utf_8 h lt le =
    let (n, e, t) = utf8_offset-Taken bs offset skip before utf_8 h lt le in
    (
      suc n,
      omega (arith, e),
      record {
        taken_le = omega (arith, t.taken_le);
        taken_sum = t.taken_sum;
        reached = t.reached;
        over = t.over;
      },
    )
utf8_offset-Taken (b ∷ bs) offset zero before utf_8 h lt le =
    let k = len_utf8 b - 1 in
    let whole : suc k ≡ len_utf8 b = ground arith in
    elim (Bool-cases (leb offset (before + len_utf16 b))) [
      | inl stop ↦ rw stop (
        suc k,
        omega (arith, whole),
        record {
          taken_le = omega (arith, AreChars-length bs k h);
          taken_sum = omega (arith, utf16_sum-take_skip bs k, utf16_sum-drop_skip bs k);
          reached = ground (arith, utf16_sum-take_skip bs k);
          over = ground (arith, utf16_sum-take_skip bs k);
        },
      )
      | inr more ↦
          let (n, e, t) =
            utf8_offset-Taken bs offset k (before + len_utf16 b) (utf_8 + len_utf8 b) h
              (ground arith) (omega (arith, le)) in
          rw more (
            suc n,
            omega (arith, e, whole),
            record {
              taken_le = omega (arith, t.taken_le);
              taken_sum = omega (arith, t.taken_sum);
              reached = omega (arith, t.reached);
              over = omega (arith, t.over);
            },
          )
    ]

-- The contents that split: strings, lists and deleted ranges.
abbrev CanSplit : Content → Type 0
CanSplit (string str) = IsUtf8 str
CanSplit (json strings) = Unit {0}
CanSplit (any values) = Unit {0}
CanSplit (deleted len) = len < 2 ^ 64
CanSplit _ = ⊥

-- The two parts hold what the whole holds, in its order.
abbrev pub Joins : Content → Content → Content → Type 0
Joins (string l) (string r) (string s) = l ++ r ≡ s
Joins (json l) (json r) (json s) = l ++ r ≡ s
Joins (any l) (any r) (any s) = l ++ r ≡ s
Joins (deleted l) (deleted r) (deleted s) = l + r ≡ s
Joins _ _ _ = ⊥

length-take {ℓ} : {A : Type ℓ} (n : ℕ) (xs : List A) → n ≤ length xs → length (take n xs) ≡ n
length-take zero xs h = refl
length-take (suc n) [] h = absurd (omega arith)
length-take (suc n) (x ∷ xs) h = omega (arith, length-take n xs)

split_list-ok {ℓ} :
    {A : Type ℓ} (xs : List A) (n : ℕ) → n ≤ length xs → split_list xs n ≡ ok (take n xs, drop n xs)
unfolding split_list
split_list-ok xs n h = let fits : leb n (length xs) ≡ true = ground arith in rw fits

-- A UTF-8 string, JSON strings, values or a number of deleted clocks that is a u64 split, at an offset of
-- their length at most and not 0, into two parts that hold what they hold and whose lengths add up to
-- theirs. The left part has the length of the offset, or one more.
pub split_total :
    (c : Content) (diff : ℕ)
    → CanSplit c
    → 0 < diff
    → diff ≤ clock_len c
    → (l r : Content) × (split c diff ≡ ok (l, r))
      × Joins l r c
      × (clock_len l + clock_len r ≡ clock_len c)
      × (diff ≤ clock_len l)
      × (clock_len l ≤ diff + 1)
unfolding split clock_len
split_total (string str) diff h pos le =
    let (n, e, t) =
      utf8_offset-Taken str diff 0 0 0 (is_utf8-AreChars str h) pos (omega (arith, le)) in
    let at : utf8_offset diff 0 0 0 str ≡ n = omega (arith, e) in
    (
      string (take n str),
      string (drop n str),
      unfold split_as_utf16_str in rw at,
      take-append-drop n str,
      t.taken_sum,
      omega (arith, t.reached),
      omega (arith, t.over),
    )
split_total (json strings) diff h pos le = (
  json (take diff strings),
  json (drop diff strings),
  rw (split_list-ok strings diff le),
  take-append-drop diff strings,
  omega (arith, length-take diff strings le, length-drop diff strings),
  omega (arith, length-take diff strings le),
  omega (arith, length-take diff strings le),
)
split_total (any values) diff h pos le = (
  any (take diff values),
  any (drop diff values),
  rw (split_list-ok values diff le),
  take-append-drop diff values,
  omega (arith, length-take diff values le, length-drop diff values),
  omega (arith, length-take diff values le),
  omega (arith, length-take diff values le),
)
split_total (deleted len) diff h pos le = (
  deleted diff,
  deleted (len - diff),
  ap (λ t. ok (deleted diff, deleted t)) (omega arith),
  omega arith,
  omega arith,
  omega arith,
  omega arith,
)
split_total (binary buffer) diff h pos le = elim h [ ]
split_total (embed val) diff h pos le = elim h [ ]
split_total (format key value) diff h pos le = elim h [ ]
split_total (ytype ty) diff h pos le = elim h [ ]
split_total (doc guid opts) diff h pos le = elim h [ ]

-- A string that begins with a character of two UTF-16 units, split after the first of them, has both
-- in the left part, whose length is 2 and not 1.
pub split_pair :
    (b x y z : ℕ) (rest : Bytes)
    → 0xf0 ≤ b
    → (split (string (b ∷ x ∷ y ∷ z ∷ rest)) 1 ≡ ok (string (b ∷ x ∷ y ∷ z ∷ []), string rest))
      × (clock_len (string (b ∷ x ∷ y ∷ z ∷ [])) ≡ 2)
unfolding split clock_len utf16_sum split_as_utf16_str utf8_offset
split_pair b x y z rest h =
    let two : len_utf16 b ≡ 2 = ground arith in
    let four : len_utf8 b ≡ 4 = ground arith in (rw (two, four), rw (two, four))
