-- ===== src/Doc/DeleteSet/Clients.antt =====
-- The clients of a delete set in the order in which they are written, and their entries.
use mathlib.Core.Path.{subst₂}
use octo_base.Base.{
  ℕ, suc, ◌≡◌, refl, ◌∙◌, ap, Bool, true, false, ◌||◌, Option, none, some, List, [], ◌∷◌, length,
  All, arith, ◌==◌, if◌then◌else◌, inl, inr, Bool-cases, ==_iff,
}
use octo_base.Doc.Client.{get, insert, insert_all, get-insert}
use octo_base.Doc.OrderRange.{OrderRange}
use octo_base.Doc.DeleteSet.{DeleteSet, insert_descending, sort_descending, keys}

unfoldable pub has : List ℕ → ℕ → Bool
has [] j = false
has (k ∷ ks) j = (k == j) || has ks j

has-insert_descending :
    (x : ℕ) (ys : List ℕ) (j : ℕ) → has (insert_descending x ys) j ≡ ((x == j) || has ys j)
unfolding insert_descending has
has-insert_descending x [] j = refl
has-insert_descending x (y ∷ ys) j = ground (arith, has-insert_descending x ys j)

has-sort_descending : (xs : List ℕ) (j : ℕ) → has (sort_descending xs) j ≡ has xs j
unfolding sort_descending has
has-sort_descending [] j = refl
has-sort_descending (x ∷ xs) j =
    has-insert_descending x (sort_descending xs) j
    ∙ ap (λ t. (x == j) || t) (has-sort_descending xs j)

length-insert_descending : (x : ℕ) (ys : List ℕ) → length (insert_descending x ys) ≡ suc (length ys)
unfolding insert_descending
length-insert_descending x [] = refl
length-insert_descending x (y ∷ ys) = ground (arith, length-insert_descending x ys)

length-sort_descending : (xs : List ℕ) → length (sort_descending xs) ≡ length xs
unfolding sort_descending
length-sort_descending [] = refl
length-sort_descending (x ∷ xs) =
    length-insert_descending x (sort_descending xs) ∙ ap suc (length-sort_descending xs)

length-keys : (self : DeleteSet) → length (keys self) ≡ length self
length-keys [] = refl
length-keys (e ∷ self) = ap suc (length-keys self)

-- As many clients are written as the set has.
pub length-clients : (self : DeleteSet) → length (sort_descending (keys self)) ≡ length self
length-clients self = length-sort_descending (keys self) ∙ length-keys self

abbrev pub Present : DeleteSet → ℕ → Type 0
Present self k = (r : OrderRange) × (get self k ≡ some r)

has-keys : (self : DeleteSet) (j : ℕ) → has (keys self) j ≡ true → Present self j
unfolding has get
has-keys [] j h = cc
has-keys ((k, r) ∷ self) j h = elim (Bool-cases (k == j)) [
  | inl same ↦ (r, rw same)
  | inr other ↦ rw other (has-keys self j (rw other at h))
]

not-has-keys : (self : DeleteSet) (j : ℕ) → has (keys self) j ≡ false → get self j ≡ none
unfolding has get
not-has-keys [] j h = refl
not-has-keys ((k, r) ∷ self) j h = ground (arith, not-has-keys self j)

All-has {ℓ} : (P : ℕ → Type ℓ) (ks : List ℕ) → ((j : ℕ) → has ks j ≡ true → P j) → All P ks
unfolding has
All-has P [] h = tt
All-has P (k ∷ ks) h = (h k (ground arith), All-has P ks (λ j e. h j (ground arith)))

-- Each client that is written has an entry.
pub clients-Present : (self : DeleteSet) → All (Present self) (sort_descending (keys self))
clients-Present self =
    All-has (Present self) (sort_descending (keys self))
      (λ j e. has-keys self j (rw has-sort_descending at e))

pub clients_complete :
    (self : DeleteSet) (j : ℕ) → has (sort_descending (keys self)) j ≡ false → get self j ≡ none
clients_complete self j h = not-has-keys self j (rw has-sort_descending at h)

unwrap-eq : {q r : OrderRange} → ◌≡◌ {A = Option OrderRange} (some q) (some r) → q ≡ r
unwrap-eq e = cc

All-get {ℓ} :
    (P : ℕ × OrderRange → Type ℓ) (self : DeleteSet) (k : ℕ) (r : OrderRange)
    → get self k ≡ some r
    → All P self
    → P (k, r)
unfolding get
All-get P [] k r e h = cc
All-get P ((j, q) ∷ self) k r e (hq, h) = elim (Bool-cases (j == k)) [
  | inl same ↦
      let e' : some q ≡ some r = rw same at e in
      subst₂ (λ a b. P (a, b)) ((==_iff j k).0 same) (unwrap-eq e') hq
  | inr other ↦ All-get P self k r (rw other at e) h
]

if-same {ℓ} : {A : Type ℓ} (b : Bool) (x : A) → (if b then x else x) ≡ x
if-same true x = refl
if-same false x = refl

module _ (f : OrderRange → OrderRange) where
  -- The entries of the clients, each by `f`.
  unfoldable pub entries :
      (self : DeleteSet) (ks : List ℕ) → All (Present self) ks → List (ℕ × OrderRange)
  entries self [] all = []
  entries self (k ∷ ks) ((r, e), all) = (k, f r) ∷ entries self ks all

  abbrev pub map_entry : Option OrderRange → Option OrderRange
  map_entry none = none
  map_entry (some r) = some (f r)

  pub get-entries :
      (self : DeleteSet) (ks : List ℕ) (all : All (Present self) ks) (m : DeleteSet) (j : ℕ)
      → get (insert_all m (entries self ks all)) j
        ≡ (if has ks j then map_entry (get self j) else get m j)
  unfolding entries insert_all has
  get-entries self [] all m j = refl
  get-entries self (k ∷ ks) ((r, e), all) m j =
      get-entries self ks all (insert m k (f r)) j
      ∙ rw (get-insert m k j (f r)) (elim (Bool-cases (k == j)) [
        | inl same ↦
            let here : get self j ≡ some r = rw ((==_iff k j).0 same) at e in
            rw (same, here) (if-same (has ks j) (some (f r)))
        | inr other ↦ rw other
      ])

  pub length-entries :
      (self : DeleteSet) (ks : List ℕ) (all : All (Present self) ks)
      → length (entries self ks all) ≡ length ks
  unfolding entries
  length-entries self [] all = refl
  length-entries self (k ∷ ks) ((r, e), all) = ap suc (length-entries self ks all)

  pub All-entries {ℓ κ} :
      (P : ℕ × OrderRange → Type ℓ) (Q : ℕ × OrderRange → Type κ)
      → ((k : ℕ) (r : OrderRange) → P (k, r) → Q (k, f r))
      → (self : DeleteSet) (ks : List ℕ) (all : All (Present self) ks) → All P self
      → All Q (entries self ks all)
  unfolding entries
  All-entries P Q h self [] all hs = tt
  All-entries P Q h self (k ∷ ks) ((r, e), all) hs =
      (h k r (All-get P self k r e hs), All-entries P Q h self ks all hs)
