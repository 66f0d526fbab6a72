-- ===== src/Prelude/Sort.antt =====
-- `sort.Strings` of Go's `sort`: texts in the order of their bytes, as an insertion sort.
pub mod Order
pub mod Same
use Prim.Native.String.{String, compare}
use mathlib.Core.List.{List, [], ◌∷◌, Perm}
use mathlib.Core.List.Perm
use text.Mathlib.Text.{is_le}
use azure_keyvault_emulator.Prelude.Tests.{if◌then◌else◌, Bool-cases}
use mathlib.Core.Logic.{inl, inr}
use mathlib.Core.Path.{◌≡◌, refl, ap, ◌∙◌}
use Prim.Native.Nat.{suc}
use azure_keyvault_emulator.Prelude.Lists.{length}

unfoldable pub insert_sorted : String → List String → List String
insert_sorted s [] = s ∷ []
insert_sorted s (t ∷ ts) = if is_le (compare s t) then s ∷ t ∷ ts else t ∷ insert_sorted s ts

unfoldable pub sort_strings : List String → List String
unfolding insert_sorted
sort_strings [] = []
sort_strings (s ∷ ts) = insert_sorted s (sort_strings ts)

insert_sorted-perm : (s : String) (ts : List String) → Perm (insert_sorted s ts) (s ∷ ts)
unfolding insert_sorted
insert_sorted-perm s [] = Perm.refl (s ∷ [])
insert_sorted-perm s (t ∷ ts) = elim (Bool-cases (is_le (compare s t))) [
  | inl before ↦ rw before (Perm.refl (s ∷ t ∷ ts))
  | inr after ↦ rw after (Perm.trans (Perm.cons t (insert_sorted-perm s ts)) (Perm.swap s t ts))
]

pub sort_strings-perm : (ts : List String) → Perm (sort_strings ts) ts
unfolding sort_strings
sort_strings-perm [] = Perm.refl []
sort_strings-perm (s ∷ ts) =
    Perm.trans (insert_sorted-perm s (sort_strings ts)) (Perm.cons s (sort_strings-perm ts))

length-insert_sorted :
    (s : String) (ts : List String) → length (insert_sorted s ts) ≡ suc (length ts)
unfolding insert_sorted
length-insert_sorted s [] = refl
length-insert_sorted s (t ∷ ts) = elim (Bool-cases (is_le (compare s t))) [
  | inl before ↦ rw before
  | inr after ↦ rw after (ap suc (length-insert_sorted s ts))
]

pub length-sort_strings : (ts : List String) → length (sort_strings ts) ≡ length ts
unfolding sort_strings
length-sort_strings [] = refl
length-sort_strings (s ∷ ts) =
    length-insert_sorted s (sort_strings ts) ∙ ap suc (length-sort_strings ts)
