-- ===== src/Store/Secrets/Records.antt =====
-- The records and the loops of the secret operations of internal/store/secrets.go, and latestSecret of
-- store.go.
use mathlib.Core.Option
use azure_keyvault_emulator.Prelude.{
  ℕ, ◌+◌, ◌*◌, String, Option, none, some, List, [], ◌∷◌, ◌==◌, last?, if◌then◌else◌,
}
use azure_keyvault_emulator.Prelude.Dict.{Dict, lookup}
use azure_keyvault_emulator.Prelude.Outcome.{Outcome, ok, panic}
use azure_keyvault_emulator.Model.{SecretSetRequest, SecretUpdateRequest}
use azure_keyvault_emulator.Store.Errors.{Error, bad_parameter, not_found, deleted_not_found}
use azure_keyvault_emulator.Store.Metadata.{
  clone_tags, clone_attributes, build_attributes, merge_attributes, new_version, new_recovery_id,
  recovery_level, recoverable_days,
}
use azure_keyvault_emulator.Store.Entries.{find_id, change_id, change_last, prepend_if, append_item}
use azure_keyvault_emulator.Store.{
  SecretRecord, DeletedSecretRecord, SecretEntry, DeletedSecretEntry,
}

unfoldable pub clone_secret_record : SecretRecord → SecretRecord
clone_secret_record in_ = record in_ {
  attributes = clone_attributes in_.attributes;
  tags = clone_tags in_.tags;
}

unfoldable pub latest_secret : SecretEntry → Option SecretRecord
latest_secret entry = last? entry.versions

abbrev pub version_of : SecretRecord → String
version_of r = r.version

unfoldable pub find_secret_version : SecretEntry → String → Option SecretRecord
find_secret_version entry version =
    if version == "" then latest_secret entry else find_id version_of version entry.versions

-- A write to the record that `find_secret_version` points to.
unfoldable pub change_secret_version :
    String → (SecretRecord → SecretRecord) → SecretEntry → SecretEntry
change_secret_version version f entry = record {
  versions =
      if version == ""
      then change_last f entry.versions
      else change_id version_of version f entry.versions;
}

unfoldable pub secret_not_found : String → Error
secret_not_found name = not_found "secret" "SecretNotFound" name

unfoldable pub deleted_secret_not_found : String → Error
deleted_secret_not_found name = deleted_not_found "secret" "SecretNotFound" name

unfoldable pub invalid_backup : Error
invalid_backup = bad_parameter "The provided backup blob is invalid."

-- The entry that DeleteSecret keeps.
unfoldable pub deleted_secret : ℕ → List ℕ → String → SecretEntry → DeletedSecretEntry
deleted_secret now buf name entry = record {
  entry = entry;
  recovery_id = new_recovery_id "secrets" name buf;
  deleted_date = now;
  scheduled_purge_date = now + recoverable_days * 24 * 60 * 60;
}

-- The deleted record of a name, with the latest version.
unfoldable pub deleted_record : DeletedSecretEntry → SecretRecord → DeletedSecretRecord
deleted_record deleted latest = record {
  secret = latest;
  recovery_id = deleted.recovery_id;
  deleted_date = deleted.deleted_date;
  scheduled_purge_date = deleted.scheduled_purge_date;
}

-- The record that SetSecret appends.
unfoldable pub new_secret : ℕ → List ℕ → String → SecretSetRequest → SecretRecord
new_secret now buf name req = record {
  name = name;
  version = new_version buf;
  value = req.value;
  content_type = req.content_type;
  attributes = build_attributes req.attributes now now;
  tags = clone_tags req.tags;
}

-- What UpdateSecret writes through the pointer.
unfoldable pub updated_secret : ℕ → SecretUpdateRequest → SecretRecord → SecretRecord
updated_secret now req ver = record ver {
  content_type = elim req.content_type [ none ↦ ver.content_type | some t ↦ t ];
  tags = elim req.tags [ none ↦ ver.tags | some t ↦ clone_tags (some t) ];
  attributes = merge_attributes now ver.attributes req.attributes;
}

-- A listing shows no values.
unfoldable pub without_value : SecretRecord → SecretRecord
without_value r = record (clone_secret_record r) { value = "" }

-- latestSecret of a pointer that may be nil.
unfoldable pub latest_of : Option SecretEntry → Option SecretRecord
latest_of none = none
latest_of (some entry) = latest_secret entry

-- The loop of ListSecrets over a page of names.
unfoldable pub listed_secrets : Dict SecretEntry → List String → List SecretRecord
listed_secrets secrets [] = []
listed_secrets secrets (name ∷ names) =
    prepend_if (Option.map without_value (latest_of (lookup name secrets)))
      (listed_secrets secrets names)

unfoldable pub item_with :
    DeletedSecretEntry → Option SecretRecord → Outcome Error DeletedSecretRecord
item_with d none = panic
item_with d (some latest) = ok (deleted_record d (without_value latest))

-- One round of the loop of ListDeletedSecrets: a name without an entry, or an entry without
-- versions, is read through a nil pointer.
unfoldable pub deleted_item : Option DeletedSecretEntry → Outcome Error DeletedSecretRecord
unfolding item_with
deleted_item none = panic
deleted_item (some d) = item_with d (latest_secret d.entry)

unfoldable pub listed_deleted_secrets :
    Dict DeletedSecretEntry → List String → Outcome Error (List DeletedSecretRecord)
listed_deleted_secrets deleted [] = ok []
listed_deleted_secrets deleted (name ∷ names) =
    append_item (deleted_item (lookup name deleted)) (listed_deleted_secrets deleted names)

-- A version of a backup under the backup's name, and as recoverable as a new one.
unfoldable pub renamed : String → SecretRecord → SecretRecord
renamed name version = record version {
  name = name;
  attributes = record (version.attributes) {
    recovery_level = recovery_level;
    recoverable_days = recoverable_days;
  };
}

-- The loop of RestoreSecret.
unfoldable pub restored_versions : String → List SecretRecord → List SecretRecord
restored_versions name [] = []
restored_versions name (version ∷ rest) =
    clone_secret_record (renamed name version) ∷ restored_versions name rest

-- `secretBackup`
pub record SecretBackup : Type 0 where
  pub name : String
  pub versions : List SecretRecord

-- Base64 over JSON, which the standard library does: `decode` fails where either one fails.
pub record BackupCodec : Type 0 where
  pub encode : SecretBackup → String
  pub decode : String → Option SecretBackup
