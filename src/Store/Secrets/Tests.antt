-- ===== src/Store/Secrets/Tests.antt =====
-- Runs of the secret operations of internal/store/secrets.go, and its theorems at concrete inputs.
use mathlib.Core.Path.{subst}
use mathlib.Core.List.{Perm}
use azure_keyvault_emulator.Prelude.{
  ℕ, ◌+◌, ap, String, ◌≡◌, refl, ◌≢◌, inl, none, some, List, [], ◌∷◌, map, arith, ◌==◌, eq_iff,
  if◌then◌else◌,
}
use azure_keyvault_emulator.Prelude.Dict.{lookup, insert, keys}
use azure_keyvault_emulator.Prelude.Outcome.{Outcome, ok, err, Ends}
use azure_keyvault_emulator.Prelude.Text.Decimal.{pos}
use azure_keyvault_emulator.Prelude.Text.Hex.{hex_encode, hex_digit}
use azure_keyvault_emulator.Model.{SecretSetRequest}
use azure_keyvault_emulator.Store.{Store, SecretRecord, new_store}
use azure_keyvault_emulator.Store.Errors.{Error, currently_deleted}
use azure_keyvault_emulator.Store.Metadata.{
  new_version, build_attributes, clone_attributes, clone_tags, recovery_level, recoverable_days,
}
use azure_keyvault_emulator.Store.Entries.{put_version, find_id}
use azure_keyvault_emulator.Store.Secrets.{set_secret, get_secret}
use azure_keyvault_emulator.Store.Secrets.Records.{
  new_secret, clone_secret_record, secret_not_found,
}
use azure_keyvault_emulator.Store.Secrets.{
  delete_secret, recover_deleted_secret, purge_deleted_secret, get_deleted_secret, backup_secret,
  restore_secret,
}
use azure_keyvault_emulator.Store.Secrets.Records.{
  deleted_record, deleted_secret, deleted_secret_not_found, BackupCodec, SecretBackup,
}
use azure_keyvault_emulator.Store.Entries.Versions.{All}
use azure_keyvault_emulator.Store.Secrets.Reads.{get-set_version, get-set_other}
use azure_keyvault_emulator.Store.Secrets.Safety.{AreSecretsWellFormed, name_of, set_secret-Ends}
use azure_keyvault_emulator.Store.Secrets.Calls.{
  SecretCall, serve, serve_safe, NeverPanics, new_store-AreSecretsWellFormed,
}
use azure_keyvault_emulator.Store.Secrets.Deletion.{
  delete_secret-effects, recover-delete, purge-delete,
}
use azure_keyvault_emulator.Prelude.Sort.Same.{IsSorted}
use azure_keyvault_emulator.Store.Secrets.Listing.{walk_secrets, ShowsLatest, list_secrets_complete}
use azure_keyvault_emulator.Store.Secrets.Backup.{restore-backup}

abbrev M : Type 0
M = Unit {0}

abbrev request : SecretSetRequest
request = record { value = "s3cret"; content_type = ""; attributes = none; tags = none }

abbrev buf : List ℕ
buf = 10 ∷ 255 ∷ []

abbrev fresh : Store M
fresh = new_store

abbrev first : SecretRecord
first = record {
  name = "db";
  version = "0aff";
  value = "s3cret";
  content_type = "";
  attributes = record {
    enabled = none;
    not_before = none;
    expires = none;
    created = 100;
    updated = 100;
    recovery_level = recovery_level;
    recoverable_days = recoverable_days;
  };
  tags = none;
}

abbrev one : Store M
one = record fresh { secrets = ("db", record { versions = first ∷ [] }) ∷ [] }

set_first : set_secret 100 buf "db" request fresh ≡ (ok first, one)
unfolding set_secret new_secret clone_secret_record put_version lookup insert new_version hex_encode
    hex_digit build_attributes clone_attributes clone_tags
set_first = refl

one-WellFormed : AreSecretsWellFormed one
one-WellFormed =
    subst (Ends AreSecretsWellFormed) set_first
      (set_secret-Ends 100 buf "db" request fresh (new_store-AreSecretsWellFormed M))

set_first_ok : (set_secret 100 buf "db" request fresh).0 ≡ ok first
set_first_ok = ap (λ (p : Outcome Error SecretRecord × Store M). p.0) set_first

version_given : new_version buf ≢ ""
unfolding new_version hex_encode hex_digit
version_given e = ground (arith, eq_iff (new_version buf) "")

get-set_version_example :
    let after = (set_secret 100 buf "db" request fresh).1 in
    get_secret "db" (new_version buf) after ≡ (ok first, after)
unfolding lookup find_id
get-set_version_example = get-set_version 100 buf "db" request fresh set_first_ok version_given refl

get-set_other_example :
    let after = (set_secret 100 buf "db" request fresh).1 in
    (get_secret "cache" "" after).0 ≡ (get_secret "cache" "" fresh).0
get-set_other_example =
    get-set_other 100 buf "db" request fresh set_first_ok "cache" ""
      (inl (λ e. ground (arith, eq_iff "cache" "db")))

live : lookup "db" one.secrets ≡ some (record { versions = first ∷ [] })
unfolding lookup
live = refl

named : ◌≢◌ {A = String} "db" ""
named e = ground (arith, eq_iff "db" "")

valued : ◌≢◌ {A = String} "s3cret" ""
valued e = ground (arith, eq_iff "s3cret" "")

abbrev deleted : Store M
deleted = (delete_secret 200 buf "db" one).1

delete_secret-effects_example :
    ((delete_secret 200 buf "db" one).0
      ≡ ok (
          deleted_record
            (deleted_secret 200 buf "db" (record { versions = first ∷ [] }))
            (clone_secret_record first)))
    × ((deleted_secret 200 buf "db" (record { versions = first ∷ [] })).scheduled_purge_date
        ≡ 200 + 7776000)
    × (get_deleted_secret "db" deleted ≡ ((delete_secret 200 buf "db" one).0, deleted))
    × (get_secret "db" "" deleted ≡ (err (secret_not_found "db"), deleted))
    × (delete_secret 300 buf "db" deleted ≡ (err (secret_not_found "db"), deleted))
    × (set_secret 300 buf "db" request deleted ≡ (err (currently_deleted "Secret" "db"), deleted))
delete_secret-effects_example =
    delete_secret-effects 200 buf "db" one one-WellFormed live refl 300 buf "" request named valued

recover-delete_example :
    ((recover_deleted_secret "db" deleted).0 ≡ (get_secret "db" "" one).0)
    × (lookup "db" (recover_deleted_secret "db" deleted).1.secrets ≡ lookup "db" one.secrets)
    × (lookup "db" (recover_deleted_secret "db" deleted).1.deleted_secrets
        ≡ lookup "db" one.deleted_secrets)
recover-delete_example = recover-delete 200 buf "db" one one-WellFormed live refl "db"

purge-delete_example :
    ((purge_deleted_secret "db" deleted).0 ≡ ok tt)
    × (lookup "db" (purge_deleted_secret "db" deleted).1.secrets ≡ none)
    × (lookup "db" (purge_deleted_secret "db" deleted).1.deleted_secrets ≡ none)
    × ((purge_deleted_secret "db" (purge_deleted_secret "db" deleted).1).0
        ≡ err (deleted_secret_not_found "db"))
purge-delete_example = purge-delete 200 buf "db" one one-WellFormed live refl "db"

list_secrets_complete_example :
    (items : List SecretRecord) × (walk_secrets (pos 1) one 2 "" ≡ some items)
    × Perm (map name_of items) (keys one.secrets)
    × IsSorted (map name_of items)
    × All (ShowsLatest one) items
unfolding keys
list_secrets_complete_example = list_secrets_complete (pos 1) one one-WellFormed (omega arith)

-- A codec for one backup.
abbrev only : SecretBackup
only = record { name = "db"; versions = first ∷ [] }

abbrev codec : BackupCodec
codec = record { encode = λ _. "blob"; decode = λ t. if t == "blob" then some only else none }

restore-backup_example :
    (backup_secret codec "db" one ≡ (ok "blob", one))
    × ((version : String)
        → (get_secret "db" version (restore_secret codec "blob" fresh).1).0
          ≡ (get_secret "db" version one).0)
    × (lookup "db" (restore_secret codec "blob" fresh).1.deleted_secrets ≡ none)
    × ((j : String)
        → j ≢ "db"
        → (lookup j (restore_secret codec "blob" fresh).1.secrets ≡ lookup j fresh.secrets)
          × (lookup j (restore_secret codec "blob" fresh).1.deleted_secrets
              ≡ lookup j fresh.deleted_secrets))
unfolding clone_secret_record clone_attributes clone_tags
restore-backup_example =
    restore-backup codec "db" one fresh one-WellFormed live
      (record { level = refl; days = refl }, tt) named refl

-- A secret is set, deleted, refused, recovered and read.
abbrev script : List SecretCall
script =
    SecretCall.set 100 buf "db" request
    ∷ SecretCall.delete 200 buf "db"
    ∷ SecretCall.set 300 buf "db" request
    ∷ SecretCall.recover_deleted "db"
    ∷ SecretCall.get "db" ""
    ∷ []

serve_safe_example :
    NeverPanics (serve codec script fresh).0 × AreSecretsWellFormed (serve codec script fresh).1
serve_safe_example = serve_safe codec script fresh (new_store-AreSecretsWellFormed M)
