-- ===== src/Store/Pagination/Tests.antt =====
-- Pages of internal/store/store.go's `paginateNames` at concrete inputs.
use azure_keyvault_emulator.Store.Pagination.Bounds.{length-paginate_names}
use azure_keyvault_emulator.Prelude.{
  ◌≤◌, ◌≢◌, length, Option, String, ◌≡◌, refl, some, none, [], ◌∷◌, List, arith,
}
use azure_keyvault_emulator.Prelude.Outcome.{ok, err}
use azure_keyvault_emulator.Prelude.Text.Decimal.{
  pos, atoi, itoa, itoa_onto, digit, digits_from, is_digit, signed, magnitude, positive, negative,
}
use azure_keyvault_emulator.Store.Pagination.{
  paginate_names, page_start, page_from, page_size, slice, invalid_token, parsed_start,
}
use azure_keyvault_emulator.Store.Pagination.Complete.{walk, walk_all}

abbrev three : List String
three = "a" ∷ "b" ∷ "c" ∷ []

first_page : paginate_names three "" (pos 2) ≡ ok ("a" ∷ "b" ∷ [], some "2")
unfolding paginate_names page_start page_from page_size slice itoa itoa_onto digit
first_page = refl

last_page : paginate_names three "2" (pos 2) ≡ ok ("c" ∷ [], none)
unfolding paginate_names page_start parsed_start page_from page_size slice atoi signed positive
    digits_from is_digit
last_page = refl

negative_token : paginate_names three "-1" (pos 2) ≡ err invalid_token
unfolding paginate_names page_start parsed_start page_size atoi signed negative magnitude
    digits_from is_digit
negative_token = refl

walk_all_example : walk 4 three (pos 2) "" ≡ some three
walk_all_example = walk_all three (pos 2) (omega arith)

abbrev two : List String
two = "a" ∷ "b" ∷ []

abbrev token : Option String
token = some "2"

length-paginate_names_example :
    (length two ≤ page_size (pos 2))
    × (token ≢ none → length two ≡ page_size (pos 2))
    × (1 ≤ page_size (pos 2))
    × (page_size (pos 2) ≤ 100)
length-paginate_names_example = length-paginate_names three "" (pos 2) two token first_page
