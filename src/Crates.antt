-- ===== src/Crates.antt =====
-- The calls that libs/jwst-codec/src/codec makes into the crates `nom` and `byteorder`, which are
-- not part of the repository: a parameter of the development, with their documented behaviour.
use octo_base.Base.{
  ℕ, zero, suc, ◌+◌, ◌*◌, ◌/◌, ◌%◌, ◌≤◌, ◌<◌, ◌≡◌, Option, none, some, List, [], ◌∷◌, ◌++◌, length,
  take, drop,
}
use octo_base.Base.Result.{Result, ok, err, ◌>>=◌}

-- `&[u8]` and `Vec<u8>`
abbrev pub Bytes : Type 0
Bytes = List ℕ

-- `nom::error::ErrorKind`, the kinds that the codec meets.
pub data ErrorKind : Type 0 where
  eof map_res tag : ErrorKind

-- `nom::Needed`
pub data Needed : Type 0 where
  unknown : Needed
  size : ℕ → Needed

-- `nom::Err<nom::error::Error<I>>`
pub data NomErr (I : Type 0) : Type 0 where
  incomplete : Needed → NomErr I
  error : I → ErrorKind → NomErr I
  failure : I → ErrorKind → NomErr I

-- `nom::IResult<&[u8], A>`
abbrev pub IResult : Type 0 → Type 0
IResult A = Result (Bytes × A) (NomErr Bytes)

-- The big-endian bytes of a number below 256 ^ n, and back.
unfoldable pub to_be : ℕ → ℕ → Bytes
to_be zero v = []
to_be (suc n) v = to_be n (v / 256) ++ v % 256 ∷ []

unfoldable pub from_be : ℕ → Bytes → ℕ
from_be acc [] = acc
from_be acc (b ∷ bs) = from_be (acc * 256 + b) bs

pub record Crates : Type 1 where
  -- `size_of::<Any>()`, by the layout of the map of `ahash` that a value can hold
  pub any_size : ℕ
  -- `nom::bytes::complete::take`
  pub nom_take : ℕ → Bytes → IResult Bytes
  pub nom_take_enough : (n : ℕ) (i : Bytes) → n ≤ length i → nom_take n i ≡ ok (drop n i, take n i)
  pub nom_take_short : (n : ℕ) (i : Bytes) → length i < n → nom_take n i ≡ err (error i eof)
  -- `nom::multi::count`: the parser `n` times, and its first error.
  pub nom_count : {A : Type 0} → (Bytes → IResult A) → ℕ → Bytes → IResult (List A)
  pub nom_count_zero :
      {A : Type 0} (p : Bytes → IResult A) (i : Bytes) → nom_count p 0 i ≡ ok (i, [])
  pub nom_count_suc :
      {A : Type 0} (p : Bytes → IResult A) (n : ℕ) (i : Bytes)
      → nom_count p (suc n) i ≡ (p i >>= λ (t, a). nom_count p n t >>= λ (u, as'). ok (u, a ∷ as'))
  -- `nom::combinator::map_res`; `none` is any error of the function.
  pub nom_map_res : {A B : Type 0} → (Bytes → IResult A) → (A → Option B) → Bytes → IResult B
  pub nom_map_res_err :
      {A B : Type 0} (p : Bytes → IResult A) (f : A → Option B) (i : Bytes) {e : NomErr Bytes}
      → p i ≡ err e
      → nom_map_res p f i ≡ err e
  pub nom_map_res_some :
      {A B : Type 0} (p : Bytes → IResult A) (f : A → Option B) (i : Bytes) {t : Bytes} {a : A}
      {b : B}
      → p i ≡ ok (t, a)
      → f a ≡ some b
      → nom_map_res p f i ≡ ok (t, b)
  pub nom_map_res_none :
      {A B : Type 0} (p : Bytes → IResult A) (f : A → Option B) (i : Bytes) {t : Bytes} {a : A}
      → p i ≡ ok (t, a)
      → f a ≡ none
      → nom_map_res p f i ≡ err (error i map_res)
  -- `byteorder::WriteBytesExt::write_u8`, and `write_{f32,f64,i64}::<BigEndian>` by width
  pub write_u8 : Bytes → ℕ → Bytes
  pub write_u8_append : (buffer : Bytes) (b : ℕ) → write_u8 buffer b ≡ buffer ++ b ∷ []
  pub write_be : ℕ → Bytes → ℕ → Bytes
  pub write_be_append : (n : ℕ) (buffer : Bytes) (v : ℕ) → write_be n buffer v ≡ buffer ++ to_be n v
  -- `byteorder::ReadBytesExt` at a cursor (buffer, position): the value and the new position,
  -- or `none` for `UnexpectedEof`
  pub read_be : ℕ → Bytes → ℕ → Option (ℕ × ℕ)
  pub read_be_enough :
      (n : ℕ) (buffer : Bytes) (position : ℕ)
      → position + n ≤ length buffer
      → read_be n buffer position ≡ some (from_be 0 (take n (drop position buffer)), position + n)
  pub read_be_short :
      (n : ℕ) (buffer : Bytes) (position : ℕ)
      → length buffer < position + n
      → read_be n buffer position ≡ none
