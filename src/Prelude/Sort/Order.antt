-- ===== src/Prelude/Sort/Order.antt =====
-- Texts are in order by their bytes, one after another.
use Prim.Native.Nat.{ℕ, Ordering, compare as compare_ℕ}
use Prim.Native.Char.{code}
use Prim.Native.String.compare
use Prim.Native.String.{String, [], ◌∷◌, compare, then}
use mathlib.Core.Path.{◌≡◌, sym, ◌∙◌}
use native.Mathlib.Omega.{arith}

then-gt_flip :
    (x y : ℕ) (o o' : Ordering)
    → (o ≡ Ordering.gt → o' ≡ Ordering.lt)
    → then (compare_ℕ x y) o ≡ Ordering.gt
    → then (compare_ℕ y x) o' ≡ Ordering.lt
then-gt_flip x y o o' f h = ground arith

then-lt_trans :
    (x y z : ℕ) (o o' o'' : Ordering)
    → (o ≡ Ordering.lt → o' ≡ Ordering.lt → o'' ≡ Ordering.lt)
    → then (compare_ℕ x y) o ≡ Ordering.lt
    → then (compare_ℕ y z) o' ≡ Ordering.lt
    → then (compare_ℕ x z) o'' ≡ Ordering.lt
then-lt_trans x y z o o' o'' f h k = ground arith

pub compare-gt_flip : (s t : String) → compare s t ≡ Ordering.gt → compare t s ≡ Ordering.lt
compare-gt_flip [] [] h = absurd (cc (sym compare.nil-nil ∙ h))
compare-gt_flip [] (d ∷ t) h = absurd (cc (sym (compare.nil-cons d t) ∙ h))
compare-gt_flip (c ∷ s) [] h = compare.nil-cons c s
compare-gt_flip (c ∷ s) (d ∷ t) h =
    compare.cons-cons d c t s
    ∙ then-gt_flip (code c) (code d) (compare s t) (compare t s) (compare-gt_flip s t)
        (sym (compare.cons-cons c d s t) ∙ h)

pub compare-lt_trans :
    (s t u : String)
    → compare s t ≡ Ordering.lt
    → compare t u ≡ Ordering.lt
    → compare s u ≡ Ordering.lt
compare-lt_trans [] [] u h k = absurd (cc (sym compare.nil-nil ∙ h))
compare-lt_trans [] (d ∷ t) [] h k = absurd (cc (sym (compare.cons-nil d t) ∙ k))
compare-lt_trans [] (d ∷ t) (e ∷ u) h k = compare.nil-cons e u
compare-lt_trans (c ∷ s) [] u h k = absurd (cc (sym (compare.cons-nil c s) ∙ h))
compare-lt_trans (c ∷ s) (d ∷ t) [] h k = absurd (cc (sym (compare.cons-nil d t) ∙ k))
compare-lt_trans (c ∷ s) (d ∷ t) (e ∷ u) h k =
    compare.cons-cons c e s u
    ∙ then-lt_trans (code c) (code d) (code e) (compare s t) (compare t u) (compare s u)
        (compare-lt_trans s t u) (sym (compare.cons-cons c d s t) ∙ h)
        (sym (compare.cons-cons d e t u) ∙ k)
