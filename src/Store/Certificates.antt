-- ===== src/Store/Certificates.antt =====
-- The certificate operations of internal/store/certificates.go but for CreateCertificate and
-- ImportCertificate, which are in the child `Issuance`; and latestCertificate of store.go.
pub mod Records
pub mod Policy
pub mod Issuance
pub mod Safety
pub mod Calls
pub mod Managed
pub mod PolicyReads
pub mod Conflicts
pub mod Tests
use mathlib.Core.Option
use azure_keyvault_emulator.Prelude.{
  ℕ, ◌+◌, ◌*◌, String, Bool, true, false, Option, none, some, List, [], ◌∷◌, ◌==◌, not, last?, map,
  reverse, if◌then◌else◌,
}
use azure_keyvault_emulator.Prelude.Dict.{Dict, lookup, contains, insert, erase, keys}
use azure_keyvault_emulator.Prelude.Outcome.{
  Outcome, ok, err, panic, Method, pure, raise, gets, or_raise, deref, lift, raise_if, modify,
  continue, ◌>>=◌, ◌>>◌,
}
use azure_keyvault_emulator.Prelude.Sort.{sort_strings}
use azure_keyvault_emulator.Prelude.Text.Decimal.{ℤ}
use azure_keyvault_emulator.Model.{
  CertificatePolicy, UpdateCertificateRequest, CertificateOperation,
}
use azure_keyvault_emulator.Store.Errors.{Error, not_found, deleted_not_found, already_exists}
use azure_keyvault_emulator.Store.Metadata.{
  clone_tags, clone_attributes, merge_attributes, new_recovery_id, recoverable_days,
}
use azure_keyvault_emulator.Store.Entries.{
  Entry, DeletedEntry, find_id, change_id, change_last, prepend_if, append_item,
}
use azure_keyvault_emulator.Store.Pagination.{Page, paginate_names}
use azure_keyvault_emulator.Store.{
  Store, Call, CertificateRecord, DeletedCertificateRecord, CertificateVersion, CertificateEntry,
  DeletedCertificateEntry,
}
use Policy.{clone_policy, default_certificate_policy}
use azure_keyvault_emulator.Store.Certificates.Records.{
  certificate_item_with, certificate_not_found, certificate_of, certificate_version_of,
  change_certificate_version, clone_certificate_record, deleted_certificate,
  deleted_certificate_item, deleted_certificate_not_found, deleted_certificate_record,
  find_certificate_version, latest_certificate, latest_certificate_of, listed_certificates,
  listed_deleted_certificates, updated_certificate, with_policy,
}

module _ {M : Type 0} where
  unfoldable pub get_certificate : String → String → Call M CertificateRecord
  get_certificate name version = do
    found ← gets (λ s. lookup name s.certificates)
    entry ← or_raise found (certificate_not_found name)
    ver ← or_raise (find_certificate_version entry version) (certificate_not_found name)
    pure (certificate_of ver)

  unfoldable pub list_certificates : ℤ → String → Call M (Page CertificateRecord)
  list_certificates max_results skip_token = do
    names ← gets (λ s. sort_strings (keys s.certificates))
    (page, next) ← lift (paginate_names names skip_token max_results)
    items ← gets (λ s. listed_certificates s.certificates page)
    pure (items, next)

  unfoldable pub list_certificate_versions : String → ℤ → String → Call M (Page CertificateRecord)
  list_certificate_versions name max_results skip_token = do
    found ← gets (λ s. lookup name s.certificates)
    entry ← or_raise found (certificate_not_found name)
    lift (paginate_names (map certificate_of (reverse entry.versions)) skip_token max_results)

  -- A write to the versions of the entry of a name.
  unfoldable pub set_certificate_entry : String → CertificateEntry → Call M (Unit {0})
  set_certificate_entry name entry =
      modify (λ s. record s { certificates = insert name entry s.certificates })

  unfoldable pub update_certificate :
      ℕ → String → String → UpdateCertificateRequest → Call M CertificateRecord
  unfolding set_certificate_entry
  update_certificate now name version req = do
    found ← gets (λ s. lookup name s.certificates)
    entry ← or_raise found (certificate_not_found name)
    ver ← or_raise (find_certificate_version entry version) (certificate_not_found name)
    let changed = record ver { record_ = updated_certificate now req ver.record_ }
    set_certificate_entry name (change_certificate_version version (λ _. changed) entry)
    pure (certificate_of changed)

  unfoldable pub get_certificate_policy : String → Call M (Option CertificatePolicy)
  get_certificate_policy name = do
    found ← gets (λ s. lookup name s.certificates)
    entry ← or_raise found (certificate_not_found name)
    latest ← deref (latest_certificate entry)
    pure (clone_policy latest.record_.policy)

  unfoldable pub update_certificate_policy :
      ℕ → String → Option CertificatePolicy → Call M (Option CertificatePolicy)
  unfolding set_certificate_entry
  update_certificate_policy now name policy = do
    found ← gets (λ s. lookup name s.certificates)
    entry ← or_raise found (certificate_not_found name)
    latest ← deref (latest_certificate entry)
    let changed = record latest { record_ = with_policy now name policy latest.record_ }
    set_certificate_entry name (change_certificate_version "" (λ _. changed) entry)
    pure (clone_policy changed.record_.policy)

  unfoldable pub get_pending_certificate_operation : String → Call M CertificateOperation
  get_pending_certificate_operation name = do
    found ← gets (λ s. lookup name s.certificates)
    entry ← or_raise found (certificate_not_found name)
    latest ← deref (latest_certificate entry)
    pure (record {
      id = name;
      status = "completed";
      target = latest.record_.name;
      status_details = "";
    })

  unfoldable pub delete_certificate : ℕ → List ℕ → String → Call M DeletedCertificateRecord
  delete_certificate now buf name = do
    found ← gets (λ s. lookup name s.certificates)
    entry ← or_raise found (certificate_not_found name)
    already ← gets (λ s. contains name s.deleted_certificates)
    raise_if already (certificate_not_found name)
    modify (λ s. record s { certificates = erase name s.certificates })
    let deleted = deleted_certificate now buf name entry
    modify (λ s. record s { deleted_certificates = insert name deleted s.deleted_certificates })
    latest ← deref (latest_certificate entry)
    pure (deleted_certificate_record deleted (certificate_of latest))

  unfoldable pub list_deleted_certificates : ℤ → String → Call M (Page DeletedCertificateRecord)
  list_deleted_certificates max_results skip_token = do
    names ← gets (λ s. sort_strings (keys s.deleted_certificates))
    (page, next) ← lift (paginate_names names skip_token max_results)
    found ← gets (λ s. listed_deleted_certificates s.deleted_certificates page)
    items ← lift found
    pure (items, next)

  unfoldable pub get_deleted_certificate : String → Call M DeletedCertificateRecord
  get_deleted_certificate name = do
    found ← gets (λ s. lookup name s.deleted_certificates)
    deleted ← or_raise found (deleted_certificate_not_found name)
    latest ← deref (latest_certificate deleted.entry)
    pure (deleted_certificate_record deleted (certificate_of latest))

  unfoldable pub purge_deleted_certificate : String → Call M (Unit {0})
  purge_deleted_certificate name = do
    present ← gets (λ s. contains name s.deleted_certificates)
    raise_if (not present) (deleted_certificate_not_found name)
    modify (λ s. record s { deleted_certificates = erase name s.deleted_certificates })

  unfoldable pub recover_deleted_certificate : String → Call M CertificateRecord
  recover_deleted_certificate name = do
    present ← gets (λ s. contains name s.certificates)
    raise_if present (already_exists "Certificate" name)
    found ← gets (λ s. lookup name s.deleted_certificates)
    deleted ← or_raise found (deleted_certificate_not_found name)
    modify (λ s. record s { certificates = insert name deleted.entry s.certificates })
    modify (λ s. record s { deleted_certificates = erase name s.deleted_certificates })
    latest ← deref (latest_certificate deleted.entry)
    pure (certificate_of latest)
