-- ===== src/Doc/Client.antt =====
-- `Client`, `Clock` and `Id` of libs/jwst-codec/src/doc/codec/id.rs, and `ClientMap` of
-- doc/hasher.rs. The standard library's `HashMap` is an association list without double keys, in
-- the order in which it is iterated.
use octo_base.Base.{
  ℕ, ◌+◌, ◌-◌, ◌^◌, ◌<◌, ◌%◌, ◌≡◌, refl, sym, ap, ◌∙◌, All, append_assoc, append-nil, Bool, true,
  false, ◌&&◌, Option, none, some, List, [], ◌∷◌, ◌++◌, arith, ◌==◌, if◌then◌else◌, ==_iff,
  Bool-cases, inl, inr,
}

pub record ItemId : Type 0 where
  pub client : ℕ
  pub clock : ℕ

-- `==` on ids, and on what may be an id.
abbrev pub id_eq : ItemId → ItemId → Bool
id_eq a b = (a.client == b.client) && (a.clock == b.clock)

abbrev pub same_id : Option ItemId → Option ItemId → Bool
same_id none none = true
same_id none (some b) = false
same_id (some a) none = false
same_id (some a) (some b) = id_eq a b

abbrev pub IsItemId : ItemId → Type 0
IsItemId id = (id.client < 2 ^ 64) × (id.clock < 2 ^ 64)

-- `Add` and `Sub`, which wrap in a release build.
unfoldable pub id_add : ItemId → ℕ → ItemId
id_add id rhs = record id { clock = (id.clock + rhs) % 2 ^ 64 }

unfoldable pub id_sub : ItemId → ℕ → ItemId
id_sub id rhs = record id { clock = (id.clock + 2 ^ 64 - rhs) % 2 ^ 64 }

-- On ids of u64 numbers, what `+` of a u64 moves forward, `-` moves back, across a wrap too.
pub id_sub-id_add :
    (id : ItemId) (rhs : ℕ) → IsItemId id → rhs < 2 ^ 64 → id_sub (id_add id rhs) rhs ≡ id
unfolding id_add id_sub
id_sub-id_add id rhs h k = ground arith

abbrev pub ClientMap {ℓ} : Type ℓ → Type ℓ
ClientMap V = List (ℕ × V)

module _ {ℓ} {V : Type ℓ} where
  unfoldable pub get : ClientMap V → ℕ → Option V
  get [] k = none
  get ((j, v) ∷ m) k = if j == k then some v else get m k

  unfoldable pub insert : ClientMap V → ℕ → V → ClientMap V
  insert [] k v = (k, v) ∷ []
  insert ((j, w) ∷ m) k v = if j == k then (k, v) ∷ m else (j, w) ∷ insert m k v

  unfoldable pub remove : ClientMap V → ℕ → ClientMap V
  remove [] k = []
  remove ((j, w) ∷ m) k = if j == k then m else (j, w) ∷ remove m k

  pub get-insert :
      (m : ClientMap V) (k j : ℕ) (v : V)
      → get (insert m k v) j ≡ (if k == j then some v else get m j)
  unfolding get insert
  get-insert [] k j v = refl
  get-insert ((i, w) ∷ m) k j v = ground (arith, get-insert m k j v)

  -- No key stands twice.
  abbrev pub IsMap : ClientMap V → Type ℓ
  IsMap [] = Unit {ℓ}
  IsMap ((k, v) ∷ m) = (get m k ≡ none) × IsMap m

  abbrev pub or_else : Option V → Option V → Option V
  or_else (some v) o = some v
  or_else none o = o

  -- Entries inserted one after the other.
  unfoldable pub insert_all : ClientMap V → List (ℕ × V) → ClientMap V
  insert_all m [] = m
  insert_all m ((k, v) ∷ l) = insert_all (insert m k v) l

  -- The entries of a map stand as they are, whatever order they are inserted in.
  pub get-insert_all :
      (l m : ClientMap V) (k : ℕ) → IsMap l → get (insert_all m l) k ≡ or_else (get l k) (get m k)
  unfolding insert_all get
  get-insert_all [] m k h = refl
  get-insert_all ((j, v) ∷ l) m k (fresh, h) =
      rw (get-insert_all l (insert m j v) k h, get-insert m j k v)
        (elim (Bool-cases (j == k)) [
          | inl same ↦ rw (same, (rw ((==_iff j k).0 same) at fresh))
          | inr other ↦ rw other
        ])

  or_else-none : (o : Option V) → or_else o none ≡ o
  or_else-none none = refl
  or_else-none (some v) = refl

  pub get-insert_all_empty : (l : ClientMap V) (k : ℕ) → IsMap l → get (insert_all [] l) k ≡ get l k
  unfolding get
  get-insert_all_empty l k h = get-insert_all l [] k h ∙ or_else-none (get l k)

  insert-fresh :
      (m : ClientMap V) (k : ℕ) (v : V) → get m k ≡ none → insert m k v ≡ m ++ (k, v) ∷ []
  unfolding get insert
  insert-fresh [] k v h = refl
  insert-fresh ((j, w) ∷ m) k v h = elim (Bool-cases (j == k)) [
    | inl same ↦ let e : some w ≡ none = rw same at h in cc
    | inr other ↦ rw other (ap (λ t. (j, w) ∷ t) (insert-fresh m k v (rw other at h)))
  ]

  get-snoc :
      (m : ClientMap V) (k j : ℕ) (v : V)
      → get m j ≡ none
      → (k == j) ≡ false
      → get (m ++ (k, v) ∷ []) j ≡ none
  unfolding get
  get-snoc [] k j v h ne = rw ne
  get-snoc ((i, w) ∷ m) k j v h ne = elim (Bool-cases (i == j)) [
    | inl same ↦ let e : some w ≡ none = rw same at h in cc
    | inr other ↦ rw other (get-snoc m k j v (rw other at h) ne)
  ]

  abbrev AreFresh : ClientMap V → ClientMap V → Type ℓ
  AreFresh m = All (λ e. get m e.0 ≡ none)

  fresh-snoc :
      (m l : ClientMap V) (k : ℕ) (v : V)
      → get l k ≡ none
      → AreFresh m l
      → AreFresh (m ++ (k, v) ∷ []) l
  unfolding get
  fresh-snoc m [] k v h all = tt
  fresh-snoc m ((j, w) ∷ l) k v h (fresh, all) = elim (Bool-cases (j == k)) [
    | inl same ↦ let e : some w ≡ none = rw same at h in cc
    | inr other ↦ (get-snoc m k j v fresh (ground arith), fresh-snoc m l k v (rw other at h) all)
  ]

  insert_all-fresh : (l m : ClientMap V) → IsMap l → AreFresh m l → insert_all m l ≡ m ++ l
  unfolding insert_all
  insert_all-fresh [] m h all = sym (append-nil m)
  insert_all-fresh ((k, v) ∷ l) m (fresh, h) (new, all) = rw (insert-fresh m k v new) (
      insert_all-fresh l (m ++ (k, v) ∷ []) h (fresh-snoc m l k v fresh all)
      ∙ append_assoc m ((k, v) ∷ []) l)

  all_fresh : (l : ClientMap V) → AreFresh [] l
  unfolding get
  all_fresh [] = tt
  all_fresh (e ∷ l) = (refl, all_fresh l)

  -- The entries of a map inserted in their order, into an empty map, are that map.
  pub insert_all_self : (l : ClientMap V) → IsMap l → insert_all [] l ≡ l
  insert_all_self l h = insert_all-fresh l [] h (all_fresh l)
