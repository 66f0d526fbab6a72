-- ===== src/Store/Pagination/Bounds.antt =====
-- The size of the pages of paginateNames of internal/store/store.go.
use mathlib.Core.Path.{subst}
use azure_keyvault_emulator.Prelude.{
  ℕ, zero, suc, ◌+◌, ◌≤◌, String, ◌≡◌, refl, ◌≢◌, Option, none, List, [], ◌∷◌, arith, Bool-cases,
  inl, inr, ltb, length, take, drop, length-take, length-drop,
}
use azure_keyvault_emulator.Prelude.Outcome.{Outcome, ok, err, panic, ok-injective}
use azure_keyvault_emulator.Prelude.Text.Decimal.{ℤ}
use azure_keyvault_emulator.Store.Errors.{Error}
use azure_keyvault_emulator.Store.Pagination.Complete.{page_size_bounds, page_from_lem}
use azure_keyvault_emulator.Store.Pagination.{Page, page_size, page_from, page_if, paginate_names}

module _ {T : Type 0} where
  length-take_at_most : (n : ℕ) (xs : List T) → length (take n xs) ≤ n
  length-take_at_most zero xs = omega arith
  length-take_at_most (suc n) [] = omega arith
  length-take_at_most (suc n) (x ∷ xs) = omega (arith, length-take_at_most n xs)

  -- A page is no longer than asked, and one with a token behind it is as long as asked.
  abbrev IsBounded : ℕ → Page T → Type 0
  IsBounded size (page, next) = (length page ≤ size) × (next ≢ none → length page ≡ size)

  page_from-IsBounded :
      (items : List T) (size start : ℕ) → IsBounded size (page_from items size start)
  page_from-IsBounded items size start = rw (page_from_lem items size start) (
    length-take_at_most size (drop start items),
    elim (Bool-cases (ltb (start + size) (length items))) [
      | inl more ↦
          rw more λ _. length-take size (drop start items) (ground (arith, length-drop start items))
      | inr last ↦ rw last λ given. absurd (given refl)
    ],
  )

  if-IsBounded :
      (items : List T) (size : ℕ) (o : Outcome Error ℕ) (page : List T) (next : Option String)
      → page_if items size o ≡ ok (page, next)
      → IsBounded size (page, next)
  if-IsBounded items size (ok start) page next h =
      subst (IsBounded size) (ok-injective h) (page_from-IsBounded items size start)
  if-IsBounded items size (err e) page next h = cc
  if-IsBounded items size panic page next h = cc

  -- A page of any list, for any token and any number of results, is no longer than the size asked
  -- for, which is between 1 and 100, and it is as long as that if a token comes with it.
  pub length-paginate_names :
      (items : List T) (skip_token : String) (max_results : ℤ) (page : List T)
      (next : Option String)
      → paginate_names items skip_token max_results ≡ ok (page, next)
      → (length page ≤ page_size max_results)
        × (next ≢ none → length page ≡ page_size max_results)
        × (1 ≤ page_size max_results)
        × (page_size max_results ≤ 100)
  unfolding paginate_names
  length-paginate_names items skip_token max_results page next h =
      let (short, full) = if-IsBounded items _ _ page next h in
      let (least, most) = page_size_bounds max_results in (short, full, least, most)
