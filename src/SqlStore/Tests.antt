-- ===== src/SqlStore/Tests.antt =====
-- A run of the operations of internal/store/sqlstore/sqlstore.go, with JSON for the values that occur.
use mathlib.Core.Path.{subst}
use azure_keyvault_emulator.Prelude.{
  ℕ, ◌≡◌, refl, ap, ◌∙◌, none, some, List, [], ◌∷◌, ◌==◌, is_empty, if◌then◌else◌,
}
use azure_keyvault_emulator.Prelude.Outcome.{ok, err, ok-injective}
use azure_keyvault_emulator.Prelude.Sort.{sort_strings, insert_sorted}
use azure_keyvault_emulator.Prelude.Text.Decimal.{pos}
use azure_keyvault_emulator.Store.Pagination.{
  paginate_names, page_size, page_start, page_from, slice,
}
use azure_keyvault_emulator.Prelude.Text.Hex.{hex_encode, hex_digit}
use azure_keyvault_emulator.Model.{Attributes, SecretSetRequest, SecretUpdateRequest}
use azure_keyvault_emulator.Store.{new_store}
use azure_keyvault_emulator.Store.Metadata.{
  build_attributes, clone_tags, merge_attributes, new_version, recovery_level, recoverable_days,
}
use azure_keyvault_emulator.Store.Secrets.Records.{
  new_secret, updated_secret, BackupCodec, SecretBackup,
}
use azure_keyvault_emulator.SqlStore.Backups.{
  recoverable, backup_secret, restore_secret, insert_versions,
}
use azure_keyvault_emulator.SqlStore.Restoration.{IsOwn, AreVersionsDistinct}
use mathlib.Core.Option.{some-injective}
use azure_keyvault_emulator.Storer.{AnyError, plain}
use azure_keyvault_emulator.SqlStore.{
  DeletedSecretRow, DeletedSecretPayload, SecretVersionSnapshot, Tables, Driver, where_, any,
  insert_by_time, oldest_first, newest_first, insert_row, insert_deleted_row, delete_rows,
  delete_deleted_rows,
}
use azure_keyvault_emulator.SqlStore.Secrets.{
  set_secret, get_secret, get_secret_version_row, selected_version, scan, snapshot, row_of,
  insert_secret_row, check_not_deleted, all_secret_version_snapshots, list_secrets, latest_of_each,
  distinct_names, list_secret_versions, update_secret, updated_rows,
}
use azure_keyvault_emulator.SqlStore.SoftDeletes.{
  delete_secret, get_deleted_secret, get_deleted_secret_row, purge_deleted_secret,
  recover_deleted_secret, insert_snapshots, record_of, list_deleted_secrets,
}
use azure_keyvault_emulator.SqlStore.Represents.{no_rows, IsPayloadReadBack, IsReadBack}
use azure_keyvault_emulator.SqlStore.Updates.Agreement.{IsUpdateReadBack}
use azure_keyvault_emulator.SqlStore.Recovery.Agreement.{IsRecoverReadBack}
use azure_keyvault_emulator.Store.Entries.Versions.{All}
use azure_keyvault_emulator.SqlStore.Requests.{Request, answers, on_tables, in_memory, AreFit}
use azure_keyvault_emulator.SqlStore.Restoration.Agreement.{IsRestoreReadBack}
use azure_keyvault_emulator.SqlStore.Refinement.{answers-on_tables}

abbrev request : SecretSetRequest
request = record { value = "s3cret"; content_type = ""; attributes = none; tags = none }

abbrev buf : List ℕ
buf = 10 ∷ 255 ∷ []

abbrev new_attributes : Attributes
new_attributes = record {
  enabled = none;
  not_before = none;
  expires = none;
  created = 100;
  updated = 100;
  recovery_level = recovery_level;
  recoverable_days = recoverable_days;
}

abbrev kept : SecretVersionSnapshot
kept = record {
  version = "0aff";
  value = "s3cret";
  content_type = "";
  attributes = new_attributes;
  tags = none;
  created_at = 7;
}

abbrev bad_json : AnyError
bad_json = plain "unexpected end of JSON input"

abbrev driver : Driver
driver = record {
  attributes = record {
    marshal = λ a. "{}";
    unmarshal = λ t. if t == "{}" then ok new_attributes else err bad_json;
  };
  tags = record {
    marshal = λ t. "null";
    unmarshal = λ t. if t == "null" then ok none else err bad_json;
  };
  payload = record {
    marshal = λ p. if is_empty p.versions then "[]" else "[{}]";
    unmarshal = λ t.
        if t == "[{}]" then ok (record { versions = kept ∷ [] }) else ok (record { versions = [] });
  };
  duplicate = plain "UNIQUE constraint failed";
}

abbrev codec : BackupCodec
codec = record {
  encode = λ _. "blob";
  decode = λ blob.
      if blob == "blob"
      then some (record { name = "db"; versions = record_of "db" kept ∷ [] })
      else none;
}

-- An update that changes nothing.
abbrev update : SecretUpdateRequest
update = record { content_type = none; attributes = none; tags = none }

-- A secret is set, read, updated, deleted, set in vain, read as a deleted one, and purged; then it is
-- set again, deleted and recovered, listed and backed up, and deleted and restored.
abbrev requests : List Request
requests =
    Request.set 100 buf 7 "db" request
    ∷ Request.get "db" ""
    ∷ Request.update 100 "db" "" update
    ∷ Request.list_versions "db" (pos 10) ""
    ∷ Request.delete 101 buf "db"
    ∷ Request.set 100 buf 9 "db" request
    ∷ Request.get_deleted "db"
    ∷ Request.purge "db"
    ∷ Request.get "db" "0aff"
    ∷ Request.set 100 buf 7 "db" request
    ∷ Request.delete 101 buf "db"
    ∷ Request.recover "db"
    ∷ Request.backup "db"
    ∷ Request.list (pos 10) ""
    ∷ Request.delete 102 buf "db"
    ∷ Request.list_deleted (pos 10) ""
    ∷ Request.restore "blob"
    ∷ Request.get "db" ""
    ∷ []

abbrev set_db : Tables
set_db = (on_tables driver codec (Request.set 100 buf 7 "db" request) no_rows).1

payload-IsReadBack : IsPayloadReadBack driver "db" set_db
unfolding set_secret new_secret new_version hex_encode hex_digit build_attributes clone_tags
    check_not_deleted insert_secret_row insert_row row_of where_ any all_secret_version_snapshots
    oldest_first insert_by_time snapshot
payload-IsReadBack snaps e =
    let same : kept ∷ [] ≡ snaps = ok-injective (ap (λ r. r.0) e) in
    subst
      (λ snaps.
        (driver.payload).unmarshal ((driver.payload).marshal (record { versions = snaps }))
        ≡ ok (record { versions = snaps }))
      same refl

update-IsReadBack : IsUpdateReadBack driver 100 "db" "" update set_db
unfolding set_secret new_secret new_version hex_encode hex_digit build_attributes clone_tags
    check_not_deleted insert_secret_row insert_row row_of where_ any oldest_first insert_by_time
    newest_first get_secret get_secret_version_row selected_version scan updated_secret
    merge_attributes
update-IsReadBack rec e =
    subst (λ rec. IsReadBack driver (updated_secret 100 update rec))
      (ok-injective (ap (λ r. r.0) e)) (refl, refl)

abbrev deleted_db : Tables
deleted_db = (on_tables driver codec (Request.delete 101 buf "db") set_db).1

recover-IsReadBack : IsRecoverReadBack driver "db" deleted_db
unfolding set_secret new_secret new_version hex_encode hex_digit build_attributes clone_tags
    check_not_deleted insert_secret_row insert_row row_of where_ any all_secret_version_snapshots
    oldest_first insert_by_time snapshot newest_first get_secret_version_row selected_version scan
    delete_secret insert_deleted_row delete_rows get_deleted_secret_row
recover-IsReadBack row snaps e payload =
    let same = ok-injective (ap (λ r. r.0) e) in
    let read : (driver.payload).unmarshal "[{}]" ≡ ok (record { versions = snaps }) =
      ap (λ (row : DeletedSecretRow). (driver.payload).unmarshal row.versions) same ∙ payload in
    subst (All (λ snap. IsReadBack driver (record_of "db" snap)))
      (ap (λ (p : DeletedSecretPayload). p.versions) (ok-injective read)) ((refl, refl), tt)

restore-IsReadBack : IsRestoreReadBack driver codec "blob"
unfolding any clone_tags
restore-IsReadBack payload e =
    subst
      (λ (payload : SecretBackup).
        All IsOwn payload.versions
        × AreVersionsDistinct payload.versions
        × All (λ ver. IsReadBack driver (recoverable payload.name ver)) payload.versions)
      (some-injective _ _ e) (((refl, refl, refl), tt), (refl, tt), ((refl, refl), tt))

requests-AreFit : AreFit driver codec requests no_rows
unfolding set_secret new_secret new_version hex_encode hex_digit build_attributes clone_tags
    check_not_deleted insert_secret_row insert_row row_of where_ any all_secret_version_snapshots
    oldest_first insert_by_time snapshot newest_first get_secret get_secret_version_row
    selected_version scan delete_secret insert_deleted_row delete_rows AreFit list_secret_versions
    update_secret updated_rows updated_secret merge_attributes get_deleted_secret
    get_deleted_secret_row purge_deleted_secret delete_deleted_rows recover_deleted_secret
    insert_snapshots backup_secret list_secrets list_deleted_secrets restore_secret insert_versions
    paginate_names page_start latest_of_each page_from sort_strings distinct_names page_size
requests-AreFit = (
  ((tt, refl), (refl, refl)),
  (
    tt,
    (
      update-IsReadBack,
      (
        tt,
        (
          payload-IsReadBack,
          (
            ((tt, refl), (refl, refl)),
            (
              tt,
              (
                tt,
                (
                  tt,
                  (
                    ((tt, refl), (refl, refl)),
                    (
                      payload-IsReadBack,
                      (
                        recover-IsReadBack,
                        (tt, (tt, (payload-IsReadBack, (tt, (restore-IsReadBack, (tt, tt)))))),
                      ),
                    ),
                  ),
                ),
              ),
            ),
          ),
        ),
      ),
    ),
  ),
)

answers-on_tables_example :
    answers (on_tables driver codec) requests no_rows
    ≡ answers (in_memory {M = Unit {0}} codec) requests new_store
answers-on_tables_example = answers-on_tables (Unit {0}) driver codec requests requests-AreFit

-- DeleteSecret and RecoverDeletedSecret bring the same row back, and ListSecrets shows no value.
recovered :
    (recover_deleted_secret driver "db" (delete_secret driver 101 buf "db" set_db).1).1 ≡ set_db
unfolding set_secret new_secret new_version hex_encode hex_digit build_attributes clone_tags
    check_not_deleted insert_secret_row insert_row row_of where_ any all_secret_version_snapshots
    oldest_first insert_by_time snapshot newest_first get_secret_version_row selected_version scan
    delete_secret insert_deleted_row delete_rows recover_deleted_secret get_deleted_secret_row
    insert_snapshots delete_deleted_rows
recovered = refl

listed :
    (list_secrets driver (pos 10) "" set_db).0
    ≡ ok (
      record {
        name = "db";
        version = "0aff";
        value = "";
        content_type = "";
        attributes = new_attributes;
        tags = none;
      }
          ∷ [],
      none,
    )
unfolding set_secret new_secret new_version hex_encode hex_digit build_attributes clone_tags
    check_not_deleted insert_secret_row insert_row row_of where_ any oldest_first insert_by_time
    newest_first get_secret_version_row selected_version scan list_secrets latest_of_each
    distinct_names sort_strings insert_sorted paginate_names page_size page_start page_from slice
listed = refl
