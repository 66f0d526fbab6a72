-- ===== src/Store/Certificates/Records.antt =====
-- The records and the loops of the certificate operations of internal/store/certificates.go, and
-- latestCertificate of store.go.
use mathlib.Core.Option
use azure_keyvault_emulator.Prelude.{
  ℕ, ◌+◌, ◌*◌, String, Option, none, some, List, [], ◌∷◌, ◌==◌, last?, if◌then◌else◌,
}
use azure_keyvault_emulator.Prelude.Dict.{Dict, lookup}
use azure_keyvault_emulator.Prelude.Outcome.{Outcome, ok, panic}
use azure_keyvault_emulator.Model.{CertificatePolicy, UpdateCertificateRequest}
use azure_keyvault_emulator.Store.Errors.{Error, not_found, deleted_not_found}
use azure_keyvault_emulator.Store.Metadata.{
  clone_tags, clone_attributes, merge_attributes, new_recovery_id, recoverable_days,
}
use azure_keyvault_emulator.Store.Entries.{find_id, change_id, change_last, prepend_if, append_item}
use azure_keyvault_emulator.Store.{
  CertificateRecord, DeletedCertificateRecord, CertificateVersion, CertificateEntry,
  DeletedCertificateEntry,
}
use azure_keyvault_emulator.Store.Certificates.Policy.{clone_policy, default_certificate_policy}

unfoldable pub clone_certificate_record : CertificateRecord → CertificateRecord
clone_certificate_record in_ = record in_ {
  attributes = clone_attributes in_.attributes;
  tags = clone_tags in_.tags;
  policy = clone_policy in_.policy;
}

unfoldable pub certificate_not_found : String → Error
certificate_not_found name = not_found "certificate" "CertificateNotFound" name

unfoldable pub deleted_certificate_not_found : String → Error
deleted_certificate_not_found name = deleted_not_found "certificate" "CertificateNotFound" name

abbrev pub certificate_version_of : CertificateVersion → String
certificate_version_of v = v.record_.version

unfoldable pub latest_certificate : CertificateEntry → Option CertificateVersion
latest_certificate entry = last? entry.versions

unfoldable pub find_certificate_version : CertificateEntry → String → Option CertificateVersion
find_certificate_version entry version =
    if version == ""
    then latest_certificate entry
    else find_id certificate_version_of version entry.versions

-- A write to the version that `find_certificate_version` points to.
unfoldable pub change_certificate_version :
    String → (CertificateVersion → CertificateVersion) → CertificateEntry → CertificateEntry
change_certificate_version version f entry = record {
  versions =
      if version == ""
      then change_last f entry.versions
      else change_id certificate_version_of version f entry.versions;
}

-- latestCertificate of a pointer that may be nil.
unfoldable pub latest_certificate_of : Option CertificateEntry → Option CertificateVersion
latest_certificate_of none = none
latest_certificate_of (some entry) = latest_certificate entry

abbrev pub certificate_of : CertificateVersion → CertificateRecord
certificate_of v = clone_certificate_record v.record_

-- What UpdateCertificate writes through the pointer.
unfoldable pub updated_certificate :
    ℕ → UpdateCertificateRequest → CertificateRecord → CertificateRecord
updated_certificate now req ver = record ver {
  attributes = merge_attributes now ver.attributes req.attributes;
  tags = elim req.tags [ none ↦ ver.tags | some t ↦ clone_tags (some t) ];
}

-- What UpdateCertificatePolicy writes.
unfoldable pub with_policy :
    ℕ → String → Option CertificatePolicy → CertificateRecord → CertificateRecord
with_policy now name policy latest = record latest {
  policy = some (default_certificate_policy name policy);
  attributes = record (latest.attributes) { updated = now };
}

unfoldable pub deleted_certificate_record :
    DeletedCertificateEntry → CertificateRecord → DeletedCertificateRecord
deleted_certificate_record deleted latest = record {
  certificate = latest;
  recovery_id = deleted.recovery_id;
  deleted_date = deleted.deleted_date;
  scheduled_purge_date = deleted.scheduled_purge_date;
}

-- The loop of ListCertificates over a page of names.
unfoldable pub listed_certificates : Dict CertificateEntry → List String → List CertificateRecord
listed_certificates entries [] = []
listed_certificates entries (name ∷ names) =
    prepend_if (Option.map certificate_of (latest_certificate_of (lookup name entries)))
      (listed_certificates entries names)

unfoldable pub certificate_item_with :
    DeletedCertificateEntry → Option CertificateVersion → Outcome Error DeletedCertificateRecord
certificate_item_with d none = panic
certificate_item_with d (some latest) = ok (deleted_certificate_record d (certificate_of latest))

-- One round of the loop of ListDeletedCertificates.
unfoldable pub deleted_certificate_item :
    Option DeletedCertificateEntry → Outcome Error DeletedCertificateRecord
unfolding certificate_item_with
deleted_certificate_item none = panic
deleted_certificate_item (some d) = certificate_item_with d (latest_certificate d.entry)

unfoldable pub listed_deleted_certificates :
    Dict DeletedCertificateEntry → List String → Outcome Error (List DeletedCertificateRecord)
listed_deleted_certificates deleted [] = ok []
listed_deleted_certificates deleted (name ∷ names) =
    append_item (deleted_certificate_item (lookup name deleted))
      (listed_deleted_certificates deleted names)

-- The entry that DeleteCertificate keeps.
unfoldable pub deleted_certificate :
    ℕ → List ℕ → String → CertificateEntry → DeletedCertificateEntry
deleted_certificate now buf name entry = record {
  entry = entry;
  recovery_id = new_recovery_id "certificates" name buf;
  deleted_date = now;
  scheduled_purge_date = now + recoverable_days * 24 * 60 * 60;
}
