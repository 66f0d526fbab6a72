-- ===== src/Store/Pagination.antt =====
-- `paginateNames` of internal/store/store.go.
pub mod Bounds
pub mod Complete
mod Tests
use azure_keyvault_emulator.Prelude.{
  ℕ, zero, suc, ◌+◌, ◌-◌, String, Bool, Option, none, some, List, [], ◌==◌, ltb, leb, take, drop,
  length, if◌then◌else◌,
}
use azure_keyvault_emulator.Prelude.Outcome.{Outcome, ok, err}
use azure_keyvault_emulator.Prelude.Text.Decimal.{ℤ, pos, negsuc, atoi, itoa}
use azure_keyvault_emulator.Store.Errors.{Error, bad_parameter}

-- `maxResults`, with 25 for what is not positive and at most 100.
unfoldable pub page_size : ℤ → ℕ
page_size (negsuc n) = 25
page_size (pos zero) = 25
page_size (pos (suc n)) = if ltb 100 (suc n) then 100 else suc n

abbrev pub invalid_token : Error
unfolding bad_parameter
invalid_token = bad_parameter "The provided $skiptoken is invalid."

-- `parsed, err := strconv.Atoi(skipToken)` and the test behind it.
unfoldable pub parsed_start : Option ℤ → Outcome Error ℕ
parsed_start none = err invalid_token
parsed_start (some (negsuc n)) = err invalid_token
parsed_start (some (pos n)) = ok n

unfoldable pub page_start : String → Outcome Error ℕ
unfolding parsed_start
page_start skip_token = if skip_token == "" then ok 0 else parsed_start (atoi skip_token)

abbrev pub Page {ℓ} : Type ℓ → Type ℓ
Page T = List T × Option String

module _ {ℓ} {T : Type ℓ} where
  -- `items[start:end]`
  unfoldable pub slice : ℕ → ℕ → List T → List T
  slice start end items = take (end - start) (drop start items)

  unfoldable pub page_from : List T → ℕ → ℕ → Page T
  unfolding slice
  page_from items max_results start =
      if leb (length items) start
      then ([], none)
      else let end =
          if ltb (length items) (start + max_results) then length items else start + max_results in
        if leb (length items) end
        then (slice start end items, none)
        else (slice start end items, some (itoa end))

  abbrev pub page_if : List T → ℕ → Outcome Error ℕ → Outcome Error (Page T)
  page_if items max_results (ok start) = ok (page_from items max_results start)
  page_if items max_results (err e) = err e
  page_if items max_results Outcome.panic = Outcome.panic

  unfoldable pub paginate_names : List T → String → ℤ → Outcome Error (Page T)
  paginate_names items skip_token max_results =
      page_if items (page_size max_results) (page_start skip_token)
