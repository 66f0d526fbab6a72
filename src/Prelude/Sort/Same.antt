-- ===== src/Prelude/Sort/Same.antt =====
-- Lists of the same texts, each text once, are sorted to the same list.
use Prim.Native.Nat.{Ordering}
use Prim.Native.String.{String, compare}
use mathlib.Core.List.{List, [], ◌∷◌}
use mathlib.Core.Bool.{Bool, true, false, ◌||◌}
use mathlib.Core.Path.{◌≡◌, refl, sym, ap, ◌∙◌, subst}
use mathlib.Core.Logic.{inl, inr}
use native.Mathlib.Omega.{arith}
use text.Mathlib.Text.{is_le, ◌==◌}
use text.Mathlib.TextEquality.{eq_iff}
use azure_keyvault_emulator.Prelude.Tests.{Bool-cases}
use azure_keyvault_emulator.Prelude.Sort.{insert_sorted, sort_strings}
use azure_keyvault_emulator.Prelude.Sort.Order.{compare-gt_flip, compare-lt_trans}

unfoldable pub has : String → List String → Bool
has k [] = false
has k (x ∷ xs) = x == k || has k xs

abbrev pub IsOnce : List String → Type 0
IsOnce [] = Unit
IsOnce (x ∷ xs) = (has x xs ≡ false) × IsOnce xs

-- Every text of the list comes after `x`.
abbrev pub IsAfter : String → List String → Type 0
IsAfter x [] = Unit
IsAfter x (y ∷ ys) = (compare x y ≡ Ordering.lt) × IsAfter x ys

-- In the order of their bytes, and no text twice.
abbrev pub IsSorted : List String → Type 0
IsSorted [] = Unit
IsSorted (x ∷ xs) = IsAfter x xs × IsSorted xs

IsAfter-trans :
    (x y : String) (ys : List String) → compare x y ≡ Ordering.lt → IsAfter y ys → IsAfter x ys
IsAfter-trans x y [] h k = tt
IsAfter-trans x y (z ∷ zs) h k = (compare-lt_trans x y z h k.0, IsAfter-trans x y zs h k.1)

IsAfter-has :
    (x k : String) (ys : List String) → IsAfter x ys → has k ys ≡ true → compare x k ≡ Ordering.lt
unfolding has
IsAfter-has x k [] h e = cc
IsAfter-has x k (y ∷ ys) h e = elim (Bool-cases (y == k)) [
  | inl same ↦ subst (λ z. compare x z ≡ Ordering.lt) ((eq_iff y k).0 same) h.0
  | inr other ↦ IsAfter-has x k ys h.1 (rw other at e)
]

IsAfter-absent : (x : String) (ys : List String) → IsAfter x ys → has x ys ≡ false
IsAfter-absent x ys h = elim (Bool-cases (has x ys)) [
  | inl there ↦ ground (arith, IsAfter-has x x ys h there, eq_iff x x)
  | inr absent ↦ absent
]

IsAfter-insert_sorted :
    (x s : String) (ts : List String)
    → compare x s ≡ Ordering.lt
    → IsAfter x ts
    → IsAfter x (insert_sorted s ts)
unfolding insert_sorted
IsAfter-insert_sorted x s [] h k = (h, tt)
IsAfter-insert_sorted x s (t ∷ ts) h k = elim (Bool-cases (is_le (compare s t))) [
  | inl before ↦ rw before (h, k)
  | inr after ↦ rw after (k.0, IsAfter-insert_sorted x s ts h k.1)
]

has-insert_sorted :
    (k s : String) (ts : List String) → has k (insert_sorted s ts) ≡ (s == k || has k ts)
unfolding has insert_sorted
has-insert_sorted k s [] = refl
has-insert_sorted k s (t ∷ ts) = ground (arith, has-insert_sorted k s ts)

has-sort_strings : (k : String) (ts : List String) → has k (sort_strings ts) ≡ has k ts
unfolding has sort_strings
has-sort_strings k [] = refl
has-sort_strings k (t ∷ ts) =
    has-insert_sorted k t (sort_strings ts) ∙ ap (λ b. t == k || b) (has-sort_strings k ts)

before-lt :
    (s t : String) → is_le (compare s t) ≡ true → (t == s) ≡ false → compare s t ≡ Ordering.lt
before-lt s t h k = ground (arith, eq_iff s t, eq_iff t s)

after-lt : (s t : String) → is_le (compare s t) ≡ false → compare t s ≡ Ordering.lt
after-lt s t h = ground (arith, compare-gt_flip s t)

insert_sorted-IsSorted :
    (s : String) (ts : List String) → has s ts ≡ false → IsSorted ts → IsSorted (insert_sorted s ts)
unfolding has insert_sorted
insert_sorted-IsSorted s [] h k = (tt, tt)
insert_sorted-IsSorted s (t ∷ ts) h k = elim (Bool-cases (is_le (compare s t))) [
  | inl before ↦
      let lt = before-lt s t before (ground arith) in
      rw before ((lt, IsAfter-trans s t ts lt k.0), k)
  | inr after ↦ rw after (
    IsAfter-insert_sorted t s ts (after-lt s t after) k.0,
    insert_sorted-IsSorted s ts (ground arith) k.1,
  )
]

pub sort_strings-IsSorted : (ts : List String) → IsOnce ts → IsSorted (sort_strings ts)
unfolding sort_strings
sort_strings-IsSorted [] h = tt
sort_strings-IsSorted (t ∷ ts) h =
    insert_sorted-IsSorted t (sort_strings ts) (has-sort_strings t ts ∙ h.0)
      (sort_strings-IsSorted ts h.1)

head_same :
    (x y : String) (xs ys : List String)
    → IsAfter x xs
    → IsAfter y ys
    → ((k : String) → has k (x ∷ xs) ≡ has k (y ∷ ys))
    → x ≡ y
unfolding has
head_same x y xs ys h k same = ground (
  arith,
  same x,
  same y,
  eq_iff x x,
  eq_iff y y,
  eq_iff x y,
  eq_iff y x,
  IsAfter-has x y xs h,
  IsAfter-has y x ys k,
  compare-lt_trans x y x,
)

tail_same :
    (x k : String) (xs ys : List String)
    → IsAfter x xs
    → IsAfter x ys
    → has k (x ∷ xs) ≡ has k (x ∷ ys)
    → has k xs ≡ has k ys
unfolding has
tail_same x k xs ys h h' same = elim (Bool-cases (x == k)) [
  | inl hit ↦
      subst (λ z. has z xs ≡ has z ys) ((eq_iff x k).0 hit)
        (IsAfter-absent x xs h ∙ sym (IsAfter-absent x ys h'))
  | inr miss ↦ rw miss at same
]

IsSorted-unique :
    (xs ys : List String)
    → IsSorted xs
    → IsSorted ys
    → ((k : String) → has k xs ≡ has k ys)
    → xs ≡ ys
unfolding has
IsSorted-unique [] [] h k same = refl
IsSorted-unique [] (y ∷ ys) h k same = ground (arith, same y, eq_iff y y)
IsSorted-unique (x ∷ xs) [] h k same = ground (arith, same x, eq_iff x x)
IsSorted-unique (x ∷ xs) (y ∷ ys) h k same =
    let equal = head_same x y xs ys h.0 k.0 same in
    let after : IsAfter x ys = subst (λ z. IsAfter z ys) (sym equal) k.0 in
    let same' : (k : String) → has k (x ∷ xs) ≡ has k (x ∷ ys) =
      subst (λ z. (k : String) → has k (x ∷ xs) ≡ has k (z ∷ ys)) (sym equal) same in
    rw (equal, IsSorted-unique xs ys h.1 k.1 (λ j. tail_same x j xs ys h.0 after (same' j))) refl

pub sort_strings-same :
    (xs ys : List String)
    → IsOnce xs
    → IsOnce ys
    → ((k : String) → has k xs ≡ has k ys)
    → sort_strings xs ≡ sort_strings ys
sort_strings-same xs ys h k same =
    IsSorted-unique (sort_strings xs) (sort_strings ys) (sort_strings-IsSorted xs h)
      (sort_strings-IsSorted ys k)
      (λ j. has-sort_strings j xs ∙ same j ∙ sym (has-sort_strings j ys))
