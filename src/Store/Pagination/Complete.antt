-- ===== src/Store/Pagination/Complete.antt =====
-- A client that follows the continuation tokens gets every item once, in order.
use mathlib.Core.Option
use native.Mathlib.Decide.{dec_lt}
use azure_keyvault_emulator.Store.Errors.{Error}
use azure_keyvault_emulator.Prelude.{◌≢◌, refl, inl, inr, ◌⊎◌, ◌==◌, Bool-cases}
use azure_keyvault_emulator.Prelude.Text.Decimal.{atoi}
use azure_keyvault_emulator.Store.Pagination.{page_if, invalid_token}
use azure_keyvault_emulator.Prelude.{
  ℕ, zero, suc, ◌+◌, ◌-◌, ◌≤◌, ◌<◌, ◌≡◌, ap, String, false, Option, none, some, List, [], ◌++◌,
  arith, eq_iff, ltb, lt→ltb, take, drop, length, take-append-drop, drop-drop, length-drop,
  take_all, drop_all, if◌then◌else◌,
}
use azure_keyvault_emulator.Prelude.Outcome.{Outcome, ok, err}
use azure_keyvault_emulator.Prelude.Text.Decimal.{
  ℤ, pos, negsuc, itoa, atoi-itoa, itoa-ne-empty, max_int,
}
use azure_keyvault_emulator.Store.Pagination.{
  Page, page_size, parsed_start, page_start, slice, page_from, paginate_names,
}

-- A page holds one item at least and a hundred at most.
pub page_size_bounds : (m : ℤ) → (1 ≤ page_size m) × (page_size m ≤ 100)
unfolding page_size
page_size_bounds (negsuc n) = omega arith
page_size_bounds (pos zero) = omega arith
page_size_bounds (pos (suc n)) = ground arith

pub page_start-itoa : (k : ℕ) → k ≤ max_int → page_start (itoa k) ≡ ok k
unfolding page_start parsed_start
page_start-itoa k h = ground (arith, atoi-itoa k h, eq_iff (itoa k) "", itoa-ne-empty k)

cut_again : (a b : ℕ) → a + b - a ≡ b
cut_again a b = omega arith

ltb-false : (a b : ℕ) → ¬ (a < b) → ltb a b ≡ false
ltb-false a b h = ground arith

module _ {T : Type 0} where
  -- The token after a page, or none after the last one.
  abbrev pub token_after : ℕ → List T → Option String
  token_after end items = if ltb end (length items) then some (itoa end) else none

  pub page_from_lem :
      (items : List T) (size start : ℕ)
      → page_from items size start
        ≡ (take size (drop start items), token_after (start + size) items)
  unfolding page_from slice
  page_from_lem items size start = elim (dec_lt start (length items)) [
    | no past ↦ ground (arith, drop_all start items, take_all {A = T} size [])
    | yes inside ↦ ground (
      arith,
      length-drop start items,
      take_all size (drop start items),
      take_all (length items - start) (drop start items),
      cut_again start size,
    )
  ]

  -- The page that a token names.
  pub paginate_names-itoa :
      (items : List T) (m : ℤ) (k : ℕ)
      → k ≤ max_int
      → paginate_names items (itoa k) m
        ≡ ok (take (page_size m) (drop k items), token_after (k + page_size m) items)
  unfolding paginate_names
  paginate_names-itoa items m k h =
      rw (page_start-itoa k h) (ap ok (page_from_lem items (page_size m) k))

  -- The first page.
  pub paginate_names-start :
      (items : List T) (m : ℤ)
      → paginate_names items "" m
        ≡ ok (take (page_size m) (drop 0 items), token_after (0 + page_size m) items)
  unfolding paginate_names page_start
  paginate_names-start items m = ap ok (page_from_lem items (page_size m) 0)

  -- What a client has gathered: `none` if a page was an error or the rounds were not enough.
  abbrev pub gathered : Outcome Error (Page T) → (String → Option (List T)) → Option (List T)
  gathered (ok (page, none)) next = some page
  gathered (ok (page, some token)) next = Option.map (λ rest. page ++ rest) (next token)
  gathered (err e) next = none
  gathered Outcome.panic next = none

  -- A client asks for the page of a token, and for the next one as long as there is one.
  unfoldable pub walk : ℕ → List T → ℤ → String → Option (List T)
  walk zero items m token = none
  walk (suc fuel) items m token = gathered (paginate_names items token m) (walk fuel items m)

  -- One page and what the rest of the walk gathers are what is left of the list.
  gathered_step :
      (items : List T) (size k : ℕ) (next : String → Option (List T))
      → (k + size < length items → next (itoa (k + size)) ≡ some (drop (k + size) items))
      → gathered (ok (take size (drop k items), token_after (k + size) items)) next
        ≡ some (drop k items)
  gathered_step items size k next rest = elim (dec_lt (k + size) (length items)) [
    | yes more ↦ rw (lt→ltb _ _ more) (
        rw (rest more)
          (ap some (rw (← drop-drop size k items) (take-append-drop size (drop k items)))))
    | no done ↦
        rw (ltb-false (k + size) (length items) done)
          (ap some (take_all size (drop k items) (omega (arith, length-drop k items))))
  ]

  walk-itoa :
      (fuel : ℕ) (items : List T) (m : ℤ) (k : ℕ)
      → length items ≤ max_int
      → k < length items
      → length items < k + fuel
      → walk fuel items m (itoa k) ≡ some (drop k items)
  unfolding walk
  walk-itoa zero items m k fits h enough = absurd (omega arith)
  walk-itoa (suc fuel) items m k fits h enough = rw (paginate_names-itoa items m k (omega arith)) (
      gathered_step items (page_size m) k (walk fuel items m) (λ more.
        walk-itoa fuel items m (k + page_size m) fits more (omega (arith, page_size_bounds m))))

  -- A client that follows the tokens of paginateNames from the empty one, with any page size, has
  -- every item once and in order after one round more than there are items, if their number is an
  -- `int`.
  pub walk_all :
      (items : List T) (m : ℤ)
      → length items ≤ max_int
      → walk (suc (length items)) items m "" ≡ some items
  unfolding walk
  walk_all items m fits = rw (paginate_names-start items m) (
      gathered_step items (page_size m) 0 (walk (length items) items m) (λ more.
        walk-itoa (length items) items m (0 + page_size m) fits more
          (omega (arith, page_size_bounds m))))

-- Whatever the token, a page is a part of the list, or the token is refused.
pub paginate_cases :
    {T : Type 0} (items : List T) (token : String) (m : ℤ)
    → (paginate_names items token m ≡ err invalid_token)
      ⊎ ((k : ℕ) × (paginate_names items token m
            ≡ ok (take (page_size m) (drop k items), token_after (k + page_size m) items)))
unfolding paginate_names page_start parsed_start
paginate_cases items token m = elim (Bool-cases (token == "")) [
  | inl empty ↦ inr (0, rw empty (ap ok (page_from_lem items (page_size m) 0)))
  | inr given ↦ rw given (from_number (atoi token))
]
  where
    from_number :
        (o : Option ℤ)
        → (page_if items (page_size m) (parsed_start o) ≡ err invalid_token)
          ⊎ ((k : ℕ) × (page_if items (page_size m) (parsed_start o)
                ≡ ok (take (page_size m) (drop k items), token_after (k + page_size m) items)))
    from_number none = inl refl
    from_number (some (negsuc n)) = inl refl
    from_number (some (pos n)) = inr (n, ap ok (page_from_lem items (page_size m) n))

-- A token is never empty.
pub token-ne-empty :
    {T : Type 0} (items : List T) (token : String) (m : ℤ) {page : List T} {next : String}
    → paginate_names items token m ≡ ok (page, some next)
    → next ≢ ""
token-ne-empty items token m h e = elim (paginate_cases items token m) [
  | inl refused ↦ ground (arith)
  | inr (k, found) ↦ ground (arith, itoa-ne-empty (k + page_size m))
]
