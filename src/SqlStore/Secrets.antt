-- ===== src/SqlStore/Secrets.antt =====
-- The operations of internal/store/sqlstore/sqlstore.go on live secrets, each one whole. `ts` is what
-- tsNano reads. The helpers at the top of that file (cloneTags, buildAttributes, mergeAttributes,
-- newVersion, newRecoveryID, paginateNames) are copies of those of internal/store/store.go.
use azure_keyvault_emulator.Prelude.{ℕ, String, Option, List, [], ◌∷◌, ◌==◌, not, if◌then◌else◌}
use azure_keyvault_emulator.Prelude.Outcome.{
  Outcome, ok, err, panic, pure, gets, or_raise, lift, raise_if, modify, ◌>>=◌, ◌>>◌,
}
use azure_keyvault_emulator.Prelude.Sort.{sort_strings}
use azure_keyvault_emulator.Prelude.Text.Decimal.{ℤ}
use azure_keyvault_emulator.Model.{SecretSetRequest, SecretUpdateRequest}
use azure_keyvault_emulator.Store.{SecretRecord}
use azure_keyvault_emulator.Store.Errors.{bad_parameter, currently_deleted}
use azure_keyvault_emulator.Store.Entries.{append_item}
use azure_keyvault_emulator.Store.Pagination.{Page, paginate_names}
use azure_keyvault_emulator.Store.Secrets.Records.{new_secret, updated_secret, secret_not_found}
use azure_keyvault_emulator.Storer.{AnyError, of_store, named_error}
use azure_keyvault_emulator.SqlStore.{
  SecretRow, SecretVersionSnapshot, Driver, Query, where_, any, first, oldest_first, newest_first,
  is_named, is_version, is_deleted, insert_row,
}

abbrev pub and_then :
    {A B : Type 0} → Outcome AnyError A → (A → Outcome AnyError B) → Outcome AnyError B
and_then (ok a) f = f a
and_then (err e) f = err e
and_then panic f = panic

-- A loop over rows, which the first error ends.
abbrev pub each : {A B : Type 0} → (A → Outcome AnyError B) → List A → Outcome AnyError (List B)
each f [] = ok []
each f (row ∷ rows) = append_item (f row) (each f rows)

-- `SELECT DISTINCT name`
unfoldable pub distinct_names : List SecretRow → List String
unfolding any
distinct_names [] = []
distinct_names (row ∷ rows) =
    let rest = distinct_names rows in if any (is_named row.name) rows then rest else row.name ∷ rest

-- `UPDATE kv_secrets SET content_type, attributes, tags WHERE name AND version`, on a row and on all.
abbrev pub set_columns : SecretRow → SecretRow → SecretRow
set_columns new row =
    if is_version new.name new.version row
    then record row {
      content_type = new.content_type;
      attributes = new.attributes;
      tags = new.tags;
    }
    else row

unfoldable pub updated_rows : SecretRow → List SecretRow → List SecretRow
updated_rows new [] = []
updated_rows new (row ∷ rows) = set_columns new row ∷ updated_rows new rows

unfoldable pub selected_version : String → String → List SecretRow → Option SecretRow
selected_version name version rows =
    if version == ""
    then first (newest_first (where_ (is_named name) rows))
    else first (where_ (is_version name version) rows)

module _ (driver : Driver) where
  unfoldable pub row_of : SecretRecord → ℕ → SecretRow
  row_of rec ts = record {
    name = rec.name;
    version = rec.version;
    value = rec.value;
    content_type = rec.content_type;
    attributes = (driver.attributes).marshal rec.attributes;
    tags = (driver.tags).marshal rec.tags;
    created_at = ts;
  }

  -- `rows.Scan`, and the two JSON columns.
  unfoldable pub scan : SecretRow → Outcome AnyError SecretRecord
  scan row = and_then ((driver.attributes).unmarshal row.attributes) λ attrs.
      and_then ((driver.tags).unmarshal row.tags) λ tags. ok (record {
        name = row.name;
        version = row.version;
        value = row.value;
        content_type = row.content_type;
        attributes = attrs;
        tags = tags;
      })

  unfoldable pub snapshot : SecretRow → Outcome AnyError SecretVersionSnapshot
  snapshot row = and_then ((driver.attributes).unmarshal row.attributes) λ attrs.
      and_then ((driver.tags).unmarshal row.tags) λ tags. ok (record {
        version = row.version;
        value = row.value;
        content_type = row.content_type;
        attributes = attrs;
        tags = tags;
        created_at = row.created_at;
      })

  abbrev pub without_value : Outcome AnyError SecretRecord → Outcome AnyError SecretRecord
  without_value r = and_then r (λ rec. ok (record rec { value = "" }))

  unfoldable pub insert_secret_row : SecretRecord → ℕ → Query (Unit {0})
  insert_secret_row rec ts = insert_row driver (row_of rec ts)

  unfoldable pub check_not_deleted : String → Query (Unit {0})
  check_not_deleted name = do
    deleted ← gets (λ db. any (is_deleted name) db.deleted_secrets)
    raise_if deleted (of_store (currently_deleted "Secret" name))

  unfoldable pub get_secret_version_row : String → String → Query SecretRecord
  get_secret_version_row name version = do
    selected ← gets (λ db. selected_version name version db.secrets)
    row ← or_raise selected (of_store (secret_not_found name))
    lift (scan row)

  unfoldable pub set_secret : ℕ → List ℕ → ℕ → String → SecretSetRequest → Query SecretRecord
  set_secret now buf ts name req = do
    raise_if (name == "") (of_store (bad_parameter "Secret name is required."))
    raise_if (req.value == "") (of_store (bad_parameter "Secret value is required."))
    check_not_deleted name
    let rec = new_secret now buf name req
    insert_secret_row rec ts
    pure rec

  unfoldable pub get_secret : String → String → Query SecretRecord
  get_secret name version = get_secret_version_row name version

  -- The loop of ListSecrets over a page of names.
  unfoldable pub latest_of_each : List String → Query (List SecretRecord)
  latest_of_each [] = pure []
  latest_of_each (name ∷ names) = do
    rec ← get_secret_version_row name ""
    rest ← latest_of_each names
    pure (record rec { value = "" } ∷ rest)

  unfoldable pub list_secrets : ℤ → String → Query (Page SecretRecord)
  list_secrets max_results skip_token = do
    names ← gets (λ db. sort_strings (distinct_names db.secrets))
    (page, next) ← lift (named_error (paginate_names names skip_token max_results))
    items ← latest_of_each page
    pure (items, next)

  unfoldable pub list_secret_versions : String → ℤ → String → Query (Page SecretRecord)
  list_secret_versions name max_results skip_token = do
    present ← gets (λ db. any (is_named name) db.secrets)
    raise_if (not present) (of_store (secret_not_found name))
    rows ← gets (λ db. newest_first (where_ (is_named name) db.secrets))
    versions ← lift (each (λ row. without_value (scan row)) rows)
    lift (named_error (paginate_names versions skip_token max_results))

  unfoldable pub update_secret : ℕ → String → String → SecretUpdateRequest → Query SecretRecord
  update_secret now name version req = do
    found ← get_secret_version_row name version
    let rec = updated_secret now req found
    modify (λ db. record db { secrets = updated_rows (row_of rec 0) db.secrets })
    pure rec

  unfoldable pub all_secret_version_snapshots : String → Query (List SecretVersionSnapshot)
  all_secret_version_snapshots name = do
    rows ← gets (λ db. oldest_first (where_ (is_named name) db.secrets))
    lift (each snapshot rows)
