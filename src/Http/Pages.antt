-- ===== src/Http/Pages.antt =====
-- A client that follows the next links of internal/handler: parsePagination of handler.go reads
-- what buildNextLink has written.
use mathlib.Core.Option
use mathlib.Core.Path.{subst}
use mathlib.Core.List.{Perm, map-append}
use azure_keyvault_emulator.Prelude.{
  ℕ, zero, suc, ◌≤◌, arith, String, ◌≡◌, refl, sym, ap, ◌∙◌, ◌≢◌, false, Option, none, some, List,
  [], ◌∷◌, ◌++◌, map, ◌==◌, eq_iff, length, if◌then◌else◌,
}
use azure_keyvault_emulator.Prelude.Dict.{lookup-insert, keys}
use azure_keyvault_emulator.Prelude.Sort.Same.{IsSorted}
use azure_keyvault_emulator.Prelude.Outcome.{Outcome, ok, err, panic, pure, continue}
use azure_keyvault_emulator.Prelude.Text.Decimal.{ℤ, max_int}
use azure_keyvault_emulator.Store.{Store, SecretRecord}
use azure_keyvault_emulator.Store.Errors.{Error}
use azure_keyvault_emulator.Store.Pagination.{Page}
use azure_keyvault_emulator.Store.Pagination.Complete.{gathered}
use azure_keyvault_emulator.Store.Entries.Versions.{All}
use azure_keyvault_emulator.Store.Secrets
use azure_keyvault_emulator.Store.Secrets.Records.{BackupCodec}
use azure_keyvault_emulator.Store.Secrets.Safety.{AreSecretsWellFormed, name_of}
use azure_keyvault_emulator.Store.Secrets.Listing.{
  walk_secrets, list_secrets-token, list_secrets_complete, ShowsLatest,
}
use azure_keyvault_emulator.Storer.{AnyError, named_error}
use azure_keyvault_emulator.Storer.Memory.{Moment, memory_secrets}
use azure_keyvault_emulator.Http.Bodies.{Body, SecretItem, secret_list}
use azure_keyvault_emulator.Http.{
  Request, Response, Packages, Values, first_given, parse_pagination, get_value, set_value,
  next_query, link_to, build_next_link, vault_base_url, json,
}
use azure_keyvault_emulator.Http.Secrets.{handle_list_secrets, secret_item}

-- Two queries that no reader tells apart.
abbrev pub Agree : Values → Values → Type 0
Agree u v = (key : String) → get_value key u ≡ get_value key v

parse_pagination-Agree :
    (r r' : Request) → Agree r'.query r.query → parse_pagination r' ≡ parse_pagination r
unfolding parse_pagination
parse_pagination-Agree r r' same =
    rw (same "$maxresults", same "maxresults", same "$skiptoken", same "skiptoken") refl

get_value-set_value :
    (key j value : String) (values : Values)
    → get_value j (set_value key value values) ≡ (if key == j then value else get_value j values)
unfolding get_value set_value
get_value-set_value key j value values = ground (arith, lookup-insert key j (value ∷ []) values)

pub next_query-token :
    (values : Values) (next : String) → get_value "$skiptoken" (next_query values next) ≡ next
unfolding next_query
next_query-token values next = ground (
  arith,
  get_value-set_value "$skiptoken" "$skiptoken" next values,
  get_value-set_value "api-version" "$skiptoken" "7.4" (set_value "$skiptoken" next values),
)

next_query-other :
    (values : Values) (next key : String)
    → ("$skiptoken" == key) ≡ false
    → ("api-version" == key) ≡ false
    → get_value key (next_query values next) ≡ get_value key values
unfolding next_query
next_query-other values next key h k = ground (
  arith,
  get_value-set_value "$skiptoken" key next values,
  get_value-set_value "api-version" key "7.4" (set_value "$skiptoken" next values),
)

-- The query of a next link asks for the same number of items, behind the token.
parse_pagination-next :
    (r : Request) (next : String) {max_results : ℤ} {skip : String}
    → parse_pagination r ≡ ok (max_results, skip)
    → next ≢ ""
    → parse_pagination (record r { query = next_query r.query next }) ≡ ok (max_results, next)
unfolding parse_pagination first_given
parse_pagination-next r next h given =
    rw
      (
        next_query-token r.query next,
        next_query-other r.query next "$maxresults" refl refl,
        next_query-other r.query next "maxresults" refl refl,
      )
      (ground (arith, eq_iff next ""))

-- What is needed of a client that asks for a link: the server reads the query that was encoded, and
-- has the same base URL for the request.
pub record IsClient (go : Packages) (client : Request → String → Request) : Type 0 where
  pub same_query :
      (r : Request) (next : String)
      → Agree (client r (link_to go r next)).query (next_query r.query next)
  pub same_base :
      (r : Request) (next : String)
      → vault_base_url go (client r (link_to go r next)) ≡ vault_base_url go r

abbrev link_after :
    List SecretItem → Option String → (String → Option (List SecretItem)) → Option (List SecretItem)
link_after items none next = some items
link_after items (some link) next = Option.map (λ rest. items ++ rest) (next link)

abbrev listed_in : Option Body → (String → Option (List SecretItem)) → Option (List SecretItem)
listed_in (some (secret_list result)) next = link_after result.value result.next_link next
listed_in _ next = none

abbrev gathered_items :
    Outcome AnyError Response → (String → Option (List SecretItem)) → Option (List SecretItem)
gathered_items (ok response) next = listed_in response.body next
gathered_items (err e) next = none
gathered_items panic next = none

module _ {M : Type 0} (go : Packages) (at : Moment) (codec : BackupCodec)
    (client : Request → String → Request) (s : Store M) where
  -- The items that a client gathers that asks for a page of secrets, and then for each next link.
  unfoldable pub walk_links : ℕ → Request → Option (List SecretItem)
  walk_links zero r = none
  walk_links (suc fuel) r =
      gathered_items (handle_list_secrets go (memory_secrets at codec) r s).0
        (λ link. walk_links fuel (client r link))

  -- What listSecrets answers to what the store answers.
  abbrev page_response : Request → Outcome Error (Page SecretRecord) → Outcome AnyError Response
  page_response r (ok (records, next)) = ok (
      json 200 (
        secret_list (record {
          value = map (secret_item (vault_base_url go r)) records;
          next_link = build_next_link go r next;
        })))
  page_response r (err e) = named_error (err e)
  page_response r panic = panic

  respond :
      (r : Request) (o : Outcome Error (Page SecretRecord)) (t : Store M)
      → (continue
          (named_error o)
          (λ a. pure (
            json 200 (
              secret_list (record {
                value = map (secret_item (vault_base_url go r)) a.0;
                next_link = build_next_link go r a.1;
              }))))
          t).0
        ≡ page_response r o
  respond r (ok (records, next)) t = refl
  respond r (err e) t = refl
  respond r panic t = refl

  handle_list_secrets-eq :
      (r : Request) {max_results : ℤ} {skip : String}
      → parse_pagination r ≡ ok (max_results, skip)
      → (handle_list_secrets go (memory_secrets at codec) r s).0
        ≡ page_response r (Secrets.list_secrets max_results skip s).0
  unfolding handle_list_secrets
  handle_list_secrets-eq r {max_results = max_results} {skip = skip} h = rw h (
      respond r (Secrets.list_secrets max_results skip s).0
        (Secrets.list_secrets max_results skip s).1)

  abbrev items_at : String → List SecretRecord → List SecretItem
  items_at base records = map (secret_item base) records

  items_at-append :
      (base : String) (records : List SecretRecord) (o : Option (List SecretRecord))
      → Option.map (λ rest. items_at base records ++ rest) (Option.map (items_at base) o)
        ≡ Option.map (items_at base) (Option.map (λ rest. records ++ rest) o)
  items_at-append base records none = refl
  items_at-append base records (some rest) =
      ap some (sym (map-append (secret_item base) records rest))

  gathered_page :
      (r : Request) (o : Outcome Error (Page SecretRecord))
      (next : String → Option (List SecretItem)) (next' : String → Option (List SecretRecord))
      → ((records : List SecretRecord) (t : String)
          → o ≡ ok (records, some t)
          → next (link_to go r t) ≡ Option.map (items_at (vault_base_url go r)) (next' t))
      → gathered_items (page_response r o) next
        ≡ Option.map (items_at (vault_base_url go r)) (gathered o next')
  unfolding build_next_link
  gathered_page r (ok (records, none)) next next' h = refl
  gathered_page r (ok (records, some t)) next next' h =
      rw (h records t refl) (items_at-append (vault_base_url go r) records (next' t))
  gathered_page r (err e) next next' h = refl
  gathered_page r panic next next' h = refl

  walk_links-eq :
      (right : IsClient go client) (fuel : ℕ) (r : Request) {max_results : ℤ} {skip : String}
      → parse_pagination r ≡ ok (max_results, skip)
      → walk_links fuel r
        ≡ Option.map (items_at (vault_base_url go r)) (walk_secrets max_results s fuel skip)
  unfolding walk_links walk_secrets
  walk_links-eq right zero r h = refl
  walk_links-eq right (suc fuel) r {max_results = max_results} {skip = skip} h =
      rw (handle_list_secrets-eq r h) (
        gathered_page r (Secrets.list_secrets max_results skip s).0
          (λ link. walk_links fuel (client r link)) (walk_secrets max_results s fuel)
          (λ records t listed.
            subst
              (λ base.
                walk_links fuel (client r (link_to go r t))
                ≡ Option.map (items_at base) (walk_secrets max_results s fuel t))
              (right.same_base r t)
              (walk_links-eq right fuel (client r (link_to go r t)) (
                parse_pagination-Agree (record r { query = next_query r.query t })
                  (client r (link_to go r t)) (right.same_query r t)
                ∙ parse_pagination-next r t h
                    (list_secrets-token max_results skip s {page = records} {next = t} listed)))))

  -- A client that asks for a first page of secrets, with any page size that the server takes, and
  -- then for each next link, ends with one item for each live secret of a well-formed store whose
  -- number of live secrets is an `int`, in the order of the names; an item has the id of the latest version of its name, and
  -- that version's attributes. The condition on the client is that the server reads the query that
  -- it has encoded, and has the same base URL for its requests.
  pub list_secrets_over_links :
      (right : IsClient go client) (r : Request) (max_results : ℤ)
      → parse_pagination r ≡ ok (max_results, "")
      → AreSecretsWellFormed s
      → length (keys s.secrets) ≤ max_int
      → (records : List SecretRecord) × (walk_links (suc (length (keys s.secrets))) r
          ≡ some (map (secret_item (vault_base_url go r)) records))
        × Perm (map name_of records) (keys s.secrets)
        × IsSorted (map name_of records)
        × All (ShowsLatest s) records
  list_secrets_over_links right r max_results h w fits =
      let (records, walked, names, sorted, latest) = list_secrets_complete max_results s w fits in
      (
        records,
        walk_links-eq right (suc (length (keys s.secrets))) r h
            ∙ ap (Option.map (items_at (vault_base_url go r))) walked,
        names,
        sorted,
        latest,
      )
