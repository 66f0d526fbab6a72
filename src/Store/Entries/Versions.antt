-- ===== src/Store/Entries/Versions.antt =====
-- What holds of every version of an entry, and of the version that is found or written.
use mathlib.Core.Path.{subst}
use azure_keyvault_emulator.Prelude.{
  ℕ, zero, suc, String, ◌≡◌, ◌≢◌, none, some, List, [], ◌∷◌, ◌++◌, arith, ◌==◌, eq_iff, last?, take,
  drop, inl, inr, Bool-cases,
}
use Prim.Native.String.{compare}
use text.Mathlib.Text.{is_le}
use azure_keyvault_emulator.Prelude.Dict.{Dict, lookup, keys}
use azure_keyvault_emulator.Prelude.Sort.{insert_sorted, sort_strings}
use azure_keyvault_emulator.Store.Entries.{find_id, change_id, change_last}

abbrev pub All : {A : Type 0} → (A → Type 0) → List A → Type 0
All P [] = Unit
All P (x ∷ xs) = P x × All P xs

pub All-append :
    {A : Type 0} (P : A → Type 0) (xs : List A) (y : A) → All P xs → P y → All P (xs ++ y ∷ [])
All-append P [] y h p = (p, tt)
All-append P (x ∷ xs) y h p = (h.0, All-append P xs y h.1 p)

pub append-ne-nil : {A : Type 0} (xs : List A) (y : A) → xs ++ y ∷ [] ≢ []
append-ne-nil [] y e = cc
append-ne-nil (x ∷ xs) y e = cc

module _ {A : Type 0} (P : A → Type 0) where
  pub All-take : (n : ℕ) (xs : List A) → All P xs → All P (take n xs)
  All-take zero xs h = tt
  All-take (suc n) [] h = tt
  All-take (suc n) (x ∷ xs) h = (h.0, All-take n xs h.1)

  pub All-drop : (n : ℕ) (xs : List A) → All P xs → All P (drop n xs)
  All-drop zero xs h = h
  All-drop (suc n) [] h = tt
  All-drop (suc n) (x ∷ xs) h = All-drop n xs h.1

  pub All-last? : (xs : List A) {v : A} → All P xs → last? xs ≡ some v → P v
  All-last? [] h e = cc
  All-last? (x ∷ []) h e = subst P (cc e) h.0
  All-last? (x ∷ y ∷ xs) h e = All-last? (y ∷ xs) h.1 e

  pub All-change_last :
      (f : A → A) (xs : List A) → All P xs → ((a : A) → P a → P (f a)) → All P (change_last f xs)
  unfolding change_last
  All-change_last f [] h p = tt
  All-change_last f (x ∷ []) h p = (p x h.0, tt)
  All-change_last f (x ∷ y ∷ xs) h p = (h.0, All-change_last f (y ∷ xs) h.1 p)

  pub All-find_id :
      (id_of : A → String) (id : String) (xs : List A) {v : A}
      → All P xs
      → find_id id_of id xs ≡ some v
      → P v
  unfolding find_id
  All-find_id id_of id [] h e = cc
  All-find_id id_of id (x ∷ xs) {v} h e = elim (Bool-cases (id_of x == id)) [
    | inl hit ↦ let same : x ≡ v = ground arith in subst P same h.0
    | inr miss ↦ All-find_id id_of id xs h.1 (rw miss at e)
  ]

  pub All-change_id :
      (id_of : A → String) (id : String) (f : A → A) (xs : List A)
      → All P xs
      → ((a : A) → P a → P (f a))
      → All P (change_id id_of id f xs)
  unfolding change_id
  All-change_id id_of id f [] h p = tt
  All-change_id id_of id f (x ∷ xs) h p = elim (Bool-cases (id_of x == id)) [
    | inl hit ↦ rw hit (p x h.0, h.1)
    | inr miss ↦ rw miss (h.0, All-change_id id_of id f xs h.1 p)
  ]

module _ {A : Type 0} where
  pub change_last-ne-nil : (f : A → A) (xs : List A) → xs ≢ [] → change_last f xs ≢ []
  unfolding change_last
  change_last-ne-nil f [] h e = h e
  change_last-ne-nil f (x ∷ []) h e = cc
  change_last-ne-nil f (x ∷ y ∷ xs) h e = cc

  pub change_id-ne-nil :
      (id_of : A → String) (id : String) (f : A → A) (xs : List A)
      → xs ≢ []
      → change_id id_of id f xs ≢ []
  unfolding change_id
  change_id-ne-nil id_of id f [] h e = h e
  change_id-ne-nil id_of id f (x ∷ xs) h e = ground arith

  -- What was written through the pointer is what it points to.
  pub last?-change_last :
      (f : A → A) (xs : List A) {v : A} → last? xs ≡ some v → last? (change_last f xs) ≡ some (f v)
  unfolding change_last
  last?-change_last f [] e = cc
  last?-change_last f (x ∷ []) e = cc
  last?-change_last f (x ∷ y ∷ []) e = cc
  last?-change_last f (x ∷ y ∷ z ∷ xs) e = last?-change_last f (y ∷ z ∷ xs) e

  pub find_id-change_id :
      (id_of : A → String) (id : String) (f : A → A) (xs : List A) {v : A}
      → find_id id_of id xs ≡ some v
      → id_of (f v) ≡ id
      → find_id id_of id (change_id id_of id f xs) ≡ some (f v)
  unfolding find_id change_id
  find_id-change_id id_of id f [] e same = cc
  find_id-change_id id_of id f (x ∷ xs) {v} e same = elim (Bool-cases (id_of x == id)) [
    | inl hit ↦ ground (arith, eq_iff (id_of (f v)) id)
    | inr miss ↦ rw (miss, miss) (find_id-change_id id_of id f xs (rw miss at e) same)
  ]

-- Sorting and pages keep what holds of every name.
module _ (P : String → Type 0) where
  All-insert_sorted : (s : String) (ts : List String) → P s → All P ts → All P (insert_sorted s ts)
  unfolding insert_sorted
  All-insert_sorted s [] p h = (p, tt)
  All-insert_sorted s (t ∷ ts) p h = elim (Bool-cases (is_le (compare s t))) [
    | inl before ↦ rw before (p, h)
    | inr after ↦ rw after (h.0, All-insert_sorted s ts p h.1)
  ]

  pub All-sort_strings : (ts : List String) → All P ts → All P (sort_strings ts)
  unfolding sort_strings
  All-sort_strings [] h = tt
  All-sort_strings (s ∷ ts) h = All-insert_sorted s (sort_strings ts) h.0 (All-sort_strings ts h.1)

module _ {V : Type 0} where
  found_behind :
      (k : String) (v : V) (m : Dict V) (names : List String)
      → All (λ j. lookup j m ≢ none) names
      → All (λ j. lookup j ((k, v) ∷ m) ≢ none) names
  unfolding lookup
  found_behind k v m [] h = tt
  found_behind k v m (j ∷ names) h = (ground (arith, h.0), found_behind k v m names h.1)

  -- Every key of a map is found.
  pub All-keys : (m : Dict V) → All (λ j. lookup j m ≢ none) (keys m)
  unfolding keys
  All-keys [] = tt
  All-keys ((k, v) ∷ m) = (first, found_behind k v m (keys m) (All-keys m))
    where
      first : lookup k ((k, v) ∷ m) ≢ none
      first = unfold lookup in ground (arith, eq_iff k k)
