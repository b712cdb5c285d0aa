-- ===== src/Runs/Host.antt =====
-- An implementation on lists of what the development takes from other crates.
use Prim.Native.Nat.{Ordering}
use octo_base.Base.{
  ℕ, zero, suc, ◌+◌, ◌≤◌, ◌<◌, ◌≡◌, refl, Bool, true, false, Option, none, some, List, [], ◌∷◌,
  ◌++◌, length, get_elem?, take, drop, leb, if◌then◌else◌, arith, Bool-cases, inl, inr,
}
use octo_base.Base.Result.{Result, ok, err, ◌>>=◌}
use octo_base.Crates.{Crates, Bytes, IResult, error, eof, map_res, to_be, from_be}
use octo_base.Doc.OrderRange.{Range, BinarySearch}

abbrev host_take : ℕ → Bytes → IResult Bytes
host_take n i = if leb n (length i) then ok (drop n i, take n i) else err (error i eof)

pub host_take_enough : (n : ℕ) (i : Bytes) → n ≤ length i → host_take n i ≡ ok (drop n i, take n i)
host_take_enough n i h = let e : leb n (length i) ≡ true = ground arith in rw e

pub host_take_short : (n : ℕ) (i : Bytes) → length i < n → host_take n i ≡ err (error i eof)
host_take_short n i h = let e : leb n (length i) ≡ false = ground arith in rw e

abbrev host_count : {A : Type 0} → (Bytes → IResult A) → ℕ → Bytes → IResult (List A)
host_count p zero i = ok (i, [])
host_count p (suc n) i = p i >>= λ (t, a). host_count p n t >>= λ (u, as'). ok (u, a ∷ as')

abbrev mapped : {B : Type 0} → Bytes → Bytes → Option B → IResult B
mapped i t none = err (error i map_res)
mapped i t (some b) = ok (t, b)

abbrev host_map_res : {A B : Type 0} → (Bytes → IResult A) → (A → Option B) → Bytes → IResult B
host_map_res p f i = p i >>= λ (t, a). mapped i t (f a)

abbrev host_read : ℕ → Bytes → ℕ → Option (ℕ × ℕ)
host_read n buffer position =
    if leb (position + n) (length buffer)
    then some (from_be 0 (take n (drop position buffer)), position + n)
    else none

pub host_read_enough :
    (n : ℕ) (buffer : Bytes) (position : ℕ)
    → position + n ≤ length buffer
    → host_read n buffer position ≡ some (from_be 0 (take n (drop position buffer)), position + n)
host_read_enough n buffer position h =
    let e : leb (position + n) (length buffer) ≡ true = ground arith in rw e

pub host_read_short :
    (n : ℕ) (buffer : Bytes) (position : ℕ)
    → length buffer < position + n
    → host_read n buffer position ≡ none
host_read_short n buffer position h =
    let e : leb (position + n) (length buffer) ≡ false = ground arith in rw e

instance abbrev pub host : Crates
host = record {
  any_size = 72;
  nom_take = host_take;
  nom_take_enough = host_take_enough;
  nom_take_short = host_take_short;
  nom_count = host_count;
  nom_count_zero = λ p i. refl;
  nom_count_suc = λ p n i. refl;
  nom_map_res = host_map_res;
  nom_map_res_err = λ p f i e. rw e;
  nom_map_res_some = λ p f i e g. rw (e, g);
  nom_map_res_none = λ p f i e g. rw (e, g);
  write_u8 = λ buffer b. buffer ++ b ∷ [];
  write_u8_append = λ buffer b. refl;
  write_be = λ n buffer v. buffer ++ to_be n v;
  write_be_append = λ n buffer v. refl;
  read_be = host_read;
  read_be_enough = host_read_enough;
  read_be_short = host_read_short;
}

abbrev is_eq : Ordering → Bool
is_eq Ordering.eq = true
is_eq _ = false

abbrev after_first : Result ℕ ℕ → Result ℕ ℕ
after_first (ok i) = ok (suc i)
after_first (err i) = err (suc i)

abbrev scan : List Range → (Range → Ordering) → Result ℕ ℕ
scan [] f = err 0
scan (r ∷ rs) f = let later = scan rs f in if is_eq (f r) then ok 0 else after_first later

is_eq-eq : (o : Ordering) → is_eq o ≡ true → o ≡ Ordering.eq
is_eq-eq Ordering.eq h = refl
is_eq-eq Ordering.lt h = cc
is_eq-eq Ordering.gt h = cc

-- What the search answers, by its result.
abbrev Answers : List Range → (Range → Ordering) → Result ℕ ℕ → Type 0
Answers l f (ok i) = (r : Range) × (get_elem? l i ≡ some r) × (f r ≡ Ordering.eq)
Answers l f (err i) = i ≤ length l

Answers-after_first :
    (r : Range) (rs : List Range) (f : Range → Ordering) (o : Result ℕ ℕ)
    → Answers rs f o
    → Answers (r ∷ rs) f (after_first o)
Answers-after_first r rs f (ok i) h = h
Answers-after_first r rs f (err i) h = omega arith

scan-Answers : (l : List Range) (f : Range → Ordering) → Answers l f (scan l f)
scan-Answers [] f = omega arith
scan-Answers (r ∷ rs) f = elim (Bool-cases (is_eq (f r))) [
  | inl found ↦ rw found (r, refl, is_eq-eq (f r) found)
  | inr not_found ↦ rw not_found (Answers-after_first r rs f (scan rs f) (scan-Answers rs f))
]

pub scan_found :
    (l : List Range) (f : Range → Ordering) {i : ℕ}
    → scan l f ≡ ok i
    → (r : Range) × (get_elem? l i ≡ some r) × (f r ≡ Ordering.eq)
scan_found l f e = rw e at (scan-Answers l f)

pub scan_missing : (l : List Range) (f : Range → Ordering) {i : ℕ} → scan l f ≡ err i → i ≤ length l
scan_missing l f e = rw e at (scan-Answers l f)

instance abbrev pub host_search : BinarySearch
host_search = record { search = scan; search_found = scan_found; search_missing = scan_missing }
