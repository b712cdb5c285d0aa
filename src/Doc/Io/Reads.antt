-- ===== src/Doc/Io/Reads.antt =====
-- Readers on the bytes of a value: a rule for each primitive, and for sequences.
use octo_base.Base.{
  ℕ, zero, suc, ◌+◌, ◌-◌, ◌*◌, ◌/◌, ◌%◌, ◌^◌, ◌≤◌, ◌<◌, min, ◌≡◌, refl, sym, ap, ◌∙◌, List, [], ◌∷◌,
  ◌++◌, append_assoc, append-nil, length, length-append, take, drop, drop-append, take-append, All,
  arith, some, leb, ◌==◌, true, false,
}
use native.Mathlib.Nat.{pow-suc}
use octo_base.Base.Result.{Result, ok}
use octo_base.Crates.{Crates, Bytes, NomErr, to_be, from_be}
use octo_base.Codec.Integer.{ℤ, IsI32, read_var_u64, read_var_i32, write_var_i32, write_var_u64}
use octo_base.Codec.Integer.Spec.{IsByte, IsU64}
use octo_base.Codec.Integer.RoundTrip.{varint, write_var_u64-varint}
use octo_base.Codec.Integer.Signed.{read_var_i32-write_var_i32}
use octo_base.Codec.Utf8.{IsUtf8}
use octo_base.Codec.Buffer.{
  Parses, sized, read_var_buffer, read_var_string, read_var_u64-varint, read_var_buffer-sized,
  read_var_string-sized,
}
use octo_base.Doc.Client.{ItemId, IsItemId, ClientMap, insert, insert_all}
use octo_base.Doc.Io.{
  RawDecoder, Reader, pure, ◌>>=◌, read_with_cursor, read_width, read_u64, read_i32, read_f32_be,
  read_f64_be, read_i64_be, read_string, read_buffer, read_u8, read_item_id, write_item_id,
  read_times, read_entries, rest_ref, drain, is_empty, len,
}

-- A decoder that has read `front` and has `rest` before it.
abbrev pub between : Bytes → Bytes → RawDecoder
between front rest = record { buffer = front ++ rest; position = length front }

-- Before the unread bytes `rest`, fewer than 2 ^ 64, `rest_ref` and `drain` return them, `len`
-- counts them, and `is_empty` tells whether there are none.
pub decoder_rest :
    (front rest : Bytes)
    → length rest < 2 ^ 64
    → (rest_ref (between front rest) ≡ rest)
      × (drain (between front rest) ≡ some rest)
      × (len (between front rest) ≡ length rest)
      × (is_empty (between front rest) ≡ (length rest == 0))
unfolding rest_ref drain len is_empty
decoder_rest [] rest h = (refl, refl, omega arith, ground arith)
decoder_rest (b ∷ front) rest h =
    let size = length-append (b ∷ front) rest in
    let at_front : min (length (b ∷ front)) (length ((b ∷ front) ++ rest)) ≡ length (b ∷ front) =
      omega arith in
    let inside : leb (length (b ∷ front)) (length ((b ∷ front) ++ rest)) ≡ true = ground arith in
    let started : (length (b ∷ front) == 0) ≡ false = ground arith in
    (
      rw (at_front, started) (drop-append (b ∷ front) rest),
      rw (inside, started) (ap some (drop-append (b ∷ front) rest)),
      omega arith,
      ground arith,
    )

-- Wherever the bytes `bs` stand, the reader takes them and returns `a`.
abbrev pub Reads {ℓ} : {A : Type ℓ} → Reader A → Bytes → A → Type ℓ
Reads m bs a =
    (front rest : Bytes) → m (between front (bs ++ rest)) ≡ ok (a, between (front ++ bs) rest)

-- The decoder after `bs`, by its buffer and its position.
moved :
    (front bs rest : Bytes) (p : ℕ)
    → p ≡ length front + length bs
    → let d : RawDecoder = record { buffer = front ++ (bs ++ rest); position = p } in
      d ≡ between (front ++ bs) rest
moved front bs rest p e = λ i. record {
  buffer = sym (append_assoc front bs rest) i;
  position = (e ∙ sym (length-append front bs)) i;
}

pub Reads-cursor {ℓ} :
    {A : Type ℓ} (p : Bytes → Result (Bytes × A) (NomErr Bytes)) (bs : Bytes) (a : A)
    → Parses p bs a
    → Reads (read_with_cursor p) bs a
unfolding read_with_cursor
Reads-cursor p bs a h front rest =
    rw (here, drop-append front (bs ++ rest), h rest)
      (ap (λ d. ok (a, d))
        (moved front bs rest (length front + length (bs ++ rest) - length rest)
          (omega (arith, length-append bs rest))))
  where
    here : min (length front) (length (front ++ (bs ++ rest))) ≡ length front
    here = omega (arith, length-append front (bs ++ rest))

pub Reads-pure {ℓ} : {A : Type ℓ} (a : A) → Reads (pure a) [] a
Reads-pure a front rest = rw (append-nil front)

-- One reader after another, on their bytes one behind the other.
pub Reads-bind {ℓ κ} :
    {A : Type ℓ} {B : Type κ} (m : Reader A) (f : A → Reader B) (bs cs : Bytes) (a : A) {b : B}
    → Reads m bs a
    → Reads (f a) cs b
    → Reads (m >>= f) (bs ++ cs) b
Reads-bind m f bs cs a h k front rest =
    rw (
      append_assoc bs cs rest,
      h front (cs ++ rest),
      k (front ++ bs) rest,
      append_assoc front bs cs,
    )

-- The last reader of a block, where the bytes are split otherwise.
pub Reads-subst {ℓ} :
    {A : Type ℓ} (m : Reader A) (bs cs : Bytes) (a : A) → bs ≡ cs → Reads m bs a → Reads m cs a
Reads-subst m bs cs a e h = rw (← e) h

-- A bind whose second part reads nothing more.
pub Reads-map {ℓ κ} :
    {A : Type ℓ} {B : Type κ} (m : Reader A) (g : A → B) (bs : Bytes) (a : A)
    → Reads m bs a
    → Reads (m >>= λ x. pure (g x)) bs (g a)
Reads-map m g bs a h front rest = rw (h front rest)

-- The bytes of a list, one value after the other.
abbrev pub concat_map {ℓ} : {A : Type ℓ} → (A → Bytes) → List A → Bytes
concat_map w [] = []
concat_map w (x ∷ xs) = w x ++ concat_map w xs

pub Reads-times {ℓ κ} :
    {A : Type ℓ} (m : Reader A) (w : A → Bytes) (P : A → Type κ)
    → ((a : A) → P a → Reads m (w a) a)
    → (xs : List A) → All P xs
    → Reads (read_times m (length xs)) (concat_map w xs) xs
unfolding read_times
Reads-times m w P h [] all = Reads-pure []
Reads-times m w P h (x ∷ xs) (hx, all) =
    Reads-bind m (λ a. read_times m (length xs) >>= λ rest. pure (a ∷ rest)) (w x) (concat_map w xs)
      x (h x hx)
      (Reads-map (read_times m (length xs)) (λ rest. x ∷ rest) (concat_map w xs) xs
        (Reads-times m w P h xs all))

pub Reads-entries {ℓ κ} :
    {V : Type ℓ} (m : Reader (ℕ × V)) (w : ℕ × V → Bytes) (P : ℕ × V → Type κ)
    → ((e : ℕ × V) → P e → Reads m (w e) e)
    → (l : ClientMap V) (map : ClientMap V) → All P l
    → Reads (read_entries m (length l) map) (concat_map w l) (insert_all map l)
unfolding read_entries insert_all
Reads-entries m w P h [] map all = Reads-pure map
Reads-entries m w P h ((k, v) ∷ l) map (hx, all) =
    Reads-bind m (λ e. read_entries m (length l) (insert map e.0 e.1)) (w (k, v)) (concat_map w l)
      (k, v) (h (k, v) hx) (Reads-entries m w P h l (insert map k v) all)

from_be-append : (xs : Bytes) (acc b : ℕ) → from_be acc (xs ++ b ∷ []) ≡ from_be acc xs * 256 + b
unfolding from_be
from_be-append [] acc b = refl
from_be-append (x ∷ xs) acc b = from_be-append xs (acc * 256 + x) b

from_be-to_be : (n v : ℕ) → v < 256 ^ n → from_be 0 (to_be n v) ≡ v
unfolding to_be
from_be-to_be zero v h = unfold from_be in omega arith
from_be-to_be (suc n) v h =
    rw (from_be-append (to_be n (v / 256)) 0 (v % 256))
      (omega (arith, from_be-to_be n (v / 256) (omega (arith, pow-suc 256 n))))

length-to_be : (n v : ℕ) → length (to_be n v) ≡ n
unfolding to_be
length-to_be zero v = refl
length-to_be (suc n) v =
    omega (arith, length-append (to_be n (v / 256)) (v % 256 ∷ []), length-to_be n (v / 256))

module _ ⦃c : Crates⦄ where
  -- A big-endian number of `n` bytes.
  pub Reads-width : (n v : ℕ) → v < 256 ^ n → Reads (read_width n) (to_be n v) v
  unfolding read_width
  Reads-width n v h front rest =
      let bs = to_be n v in
      rw (c.read_be_enough n (front ++ (bs ++ rest)) (length front) fits, taken)
        (ap (λ d. ok (v, d))
          (moved front bs rest (length front + n) (omega (arith, length-to_be n v))))
    where
      fits : length front + n ≤ length (front ++ (to_be n v ++ rest))
      fits = omega (
        arith,
        length-append front (to_be n v ++ rest),
        length-append (to_be n v) rest,
        length-to_be n v,
      )

      taken : from_be 0 (take n (drop (length front) (front ++ (to_be n v ++ rest)))) ≡ v
      taken = rw (drop-append front (to_be n v ++ rest)) (
          ap (λ k. from_be 0 (take k (to_be n v ++ rest))) (sym (length-to_be n v))
          ∙ rw (take-append (to_be n v) rest) (from_be-to_be n v h))

  pub Reads-u8 : (b : ℕ) → IsByte b → Reads read_u8 (b ∷ []) b
  unfolding read_u8 to_be
  Reads-u8 b h =
      Reads-subst (read_width 1) (b % 256 ∷ []) (b ∷ []) b (ap (λ t. t ∷ []) (omega arith))
        (Reads-width 1 b h)

  pub Reads-f32 : (v : ℕ) → v < 256 ^ 4 → Reads read_f32_be (to_be 4 v) v
  unfolding read_f32_be
  Reads-f32 v h = Reads-width 4 v h

  pub Reads-f64 : (v : ℕ) → v < 256 ^ 8 → Reads read_f64_be (to_be 8 v) v
  unfolding read_f64_be
  Reads-f64 v h = Reads-width 8 v h

  pub Reads-i64 : (v : ℕ) → v < 256 ^ 8 → Reads read_i64_be (to_be 8 v) v
  unfolding read_i64_be
  Reads-i64 v h = Reads-width 8 v h

  pub Reads-u64 : (v : ℕ) → IsU64 v → Reads read_u64 (varint v) v
  unfolding read_u64
  Reads-u64 v h = Reads-cursor read_var_u64 (varint v) v (read_var_u64-varint v h)

  pub Reads-i32 : (num : ℤ) → IsI32 num → Reads read_i32 (write_var_i32 [] num) num
  unfolding read_i32
  Reads-i32 num h =
      Reads-cursor read_var_i32 (write_var_i32 [] num) num
        (λ rest. read_var_i32-write_var_i32 num rest h)

  pub Reads-string : (s : Bytes) → IsU64 (length s) → IsUtf8 s → Reads read_string (sized s) s
  unfolding read_string
  Reads-string s h v = Reads-cursor read_var_string (sized s) s (read_var_string-sized s h v)

  pub Reads-buffer : (bytes : Bytes) → IsU64 (length bytes) → Reads read_buffer (sized bytes) bytes
  unfolding read_buffer
  Reads-buffer bytes h =
      Reads-cursor read_var_buffer (sized bytes) bytes (read_var_buffer-sized bytes h)

  -- The bytes of an id.
  unfoldable pub id_bytes : ItemId → Bytes
  id_bytes id = varint id.client ++ varint id.clock

  pub Reads-item_id : (id : ItemId) → IsItemId id → Reads read_item_id (id_bytes id) id
  unfolding read_item_id id_bytes
  Reads-item_id id (hc, hk) =
      Reads-bind read_u64 _ (varint id.client) (varint id.clock) id.client (Reads-u64 id.client hc)
        (Reads-map read_u64 (λ clock. record { client = id.client; clock = clock })
          (varint id.clock) id.clock (Reads-u64 id.clock hk))

  pub write_item_id_bytes :
      (encoder : Bytes) (id : ItemId) → write_item_id encoder id ≡ encoder ++ id_bytes id
  unfolding write_item_id id_bytes
  write_item_id_bytes encoder id = rw (
    write_var_u64-varint (write_var_u64 encoder id.client) id.clock,
    write_var_u64-varint encoder id.client,
    append_assoc encoder (varint id.client) (varint id.clock),
  )
