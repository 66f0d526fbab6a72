-- ===== src/Store/Certificates/PolicyReads.antt =====
-- GetCertificatePolicy after UpdateCertificatePolicy, in internal/store/certificates.go.
use mathlib.Core.Option
use azure_keyvault_emulator.Prelude.{ℕ, String, ◌≡◌, Option, some, last?}
use azure_keyvault_emulator.Prelude.Dict.{lookup, insert}
use azure_keyvault_emulator.Model.{CertificatePolicy}
use azure_keyvault_emulator.Store.{Store, CertificateVersion, CertificateEntry}
use azure_keyvault_emulator.Store.Entries.{change_last}
use azure_keyvault_emulator.Store.Certificates.Records.{with_policy}

module _ {M : Type 0} (now : ℕ) (name : String) (policy : Option CertificatePolicy) (s : Store M)
    {entry : CertificateEntry} (live : lookup name s.certificates ≡ some entry)
    {latest : CertificateVersion} (newest : last? entry.versions ≡ some latest) where
  abbrev changed : CertificateVersion
  changed = record latest { record_ = with_policy now name policy latest.record_ }

  abbrev changed_entry : CertificateEntry
  changed_entry = record { versions = change_last (λ _. changed) entry.versions }

  abbrev pub rewritten : Store M
  rewritten = record s { certificates = insert name changed_entry s.certificates }
