-- ===== src/Base/Assoc.antt =====
-- Maps with strings as keys: association lists in the order of iteration.
use mathlib.Core.Path.{◌≡◌, refl, sym, ap, ◌∙◌}
use mathlib.Core.Bool.{Bool, true, false, ◌&&◌}
use mathlib.Core.Option.{Option, none, some}
use mathlib.Core.List.{List, [], ◌∷◌, ◌++◌, append_assoc, append-nil}
use mathlib.Core.Logic.{inl, inr}
use Prim.Native.Nat.{ℕ}
use native.Mathlib.Omega.{arith}
use octo_base.Base.Tests.{==_refl, ◌==◌, if◌then◌else◌, Bool-cases}
use octo_base.Base.Lists.{All}

-- Equality of strings, byte by byte.
unfoldable pub bytes_eq : List ℕ → List ℕ → Bool
bytes_eq [] [] = true
bytes_eq [] (b ∷ bs) = false
bytes_eq (a ∷ as') [] = false
bytes_eq (a ∷ as') (b ∷ bs) = (a == b) && bytes_eq as' bs

pub bytes_eq_refl : (a : List ℕ) → bytes_eq a a ≡ true
unfolding bytes_eq
bytes_eq_refl [] = refl
bytes_eq_refl (b ∷ bs) = rw (==_refl b) (bytes_eq_refl bs)

pub bytes_eq_comm : (a b : List ℕ) → bytes_eq a b ≡ bytes_eq b a
unfolding bytes_eq
bytes_eq_comm [] [] = refl
bytes_eq_comm [] (b ∷ bs) = refl
bytes_eq_comm (a ∷ as') [] = refl
bytes_eq_comm (a ∷ as') (b ∷ bs) = ground (arith, bytes_eq_comm as' bs)

module _ {ℓ} {V : Type ℓ} where
  unfoldable pub assoc_get : List (List ℕ × V) → List ℕ → Option V
  assoc_get [] k = none
  assoc_get ((j, v) ∷ m) k = if bytes_eq j k then some v else assoc_get m k

  unfoldable pub assoc_insert : List (List ℕ × V) → List ℕ → V → List (List ℕ × V)
  assoc_insert [] k v = (k, v) ∷ []
  assoc_insert ((j, w) ∷ m) k v = if bytes_eq j k then (k, v) ∷ m else (j, w) ∷ assoc_insert m k v

  -- `collect()` into a map: one insertion after the other.
  unfoldable pub assoc_collect : List (List ℕ × V) → List (List ℕ × V) → List (List ℕ × V)
  assoc_collect m [] = m
  assoc_collect m ((k, v) ∷ l) = assoc_collect (assoc_insert m k v) l

  -- No key stands twice.
  abbrev pub AreDistinct : List (List ℕ × V) → Type ℓ
  AreDistinct [] = Unit {ℓ}
  AreDistinct ((k, v) ∷ m) = (assoc_get m k ≡ none) × AreDistinct m

  abbrev AreNew : List (List ℕ × V) → List (List ℕ × V) → Type ℓ
  AreNew m = All (λ e. assoc_get m e.0 ≡ none)

  pub assoc_get-assoc_insert :
      (m : List (List ℕ × V)) (k : List ℕ) (v : V) → assoc_get (assoc_insert m k v) k ≡ some v
  unfolding assoc_get assoc_insert
  assoc_get-assoc_insert [] k v = rw (bytes_eq_refl k) refl
  assoc_get-assoc_insert ((j, w) ∷ m) k v = elim (Bool-cases (bytes_eq j k)) [
    | inl same ↦ rw (same, bytes_eq_refl k) refl
    | inr other ↦ rw (other, other) (assoc_get-assoc_insert m k v)
  ]

  assoc_insert_new :
      (m : List (List ℕ × V)) (k : List ℕ) (v : V)
      → assoc_get m k ≡ none
      → assoc_insert m k v ≡ m ++ (k, v) ∷ []
  unfolding assoc_get assoc_insert
  assoc_insert_new [] k v h = refl
  assoc_insert_new ((j, w) ∷ m) k v h = elim (Bool-cases (bytes_eq j k)) [
    | inl same ↦ let e : some w ≡ none = rw same at h in cc
    | inr other ↦ rw other (ap (λ t. (j, w) ∷ t) (assoc_insert_new m k v (rw other at h)))
  ]

  assoc_get_snoc :
      (m : List (List ℕ × V)) (k j : List ℕ) (v : V)
      → assoc_get m j ≡ none
      → bytes_eq k j ≡ false
      → assoc_get (m ++ (k, v) ∷ []) j ≡ none
  unfolding assoc_get
  assoc_get_snoc [] k j v h ne = rw ne
  assoc_get_snoc ((i, w) ∷ m) k j v h ne = elim (Bool-cases (bytes_eq i j)) [
    | inl same ↦ let e : some w ≡ none = rw same at h in cc
    | inr other ↦ rw other (assoc_get_snoc m k j v (rw other at h) ne)
  ]

  new_snoc :
      (m l : List (List ℕ × V)) (k : List ℕ) (v : V)
      → assoc_get l k ≡ none
      → AreNew m l
      → AreNew (m ++ (k, v) ∷ []) l
  unfolding assoc_get
  new_snoc m [] k v h all = tt
  new_snoc m ((j, w) ∷ l) k v h (new, all) = elim (Bool-cases (bytes_eq j k)) [
    | inl same ↦ let e : some w ≡ none = rw same at h in cc
    | inr other ↦ (
      assoc_get_snoc m k j v new (bytes_eq_comm k j ∙ other),
      new_snoc m l k v (rw other at h) all,
    )
  ]

  collect_new : (l m : List (List ℕ × V)) → AreDistinct l → AreNew m l → assoc_collect m l ≡ m ++ l
  unfolding assoc_collect
  collect_new [] m h all = sym (append-nil m)
  collect_new ((k, v) ∷ l) m (fresh, h) (new, all) = rw (assoc_insert_new m k v new) (
      collect_new l (m ++ (k, v) ∷ []) h (new_snoc m l k v fresh all)
      ∙ append_assoc m ((k, v) ∷ []) l)

  all_new : (l : List (List ℕ × V)) → AreNew [] l
  unfolding assoc_get
  all_new [] = tt
  all_new (e ∷ l) = (refl, all_new l)

  -- The entries of a map inserted in their order, into an empty map, are that map.
  pub assoc_collect_self : (l : List (List ℕ × V)) → AreDistinct l → assoc_collect [] l ≡ l
  assoc_collect_self l h = collect_new l [] h (all_new l)
