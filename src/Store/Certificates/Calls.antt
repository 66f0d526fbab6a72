-- ===== src/Store/Certificates/Calls.antt =====
-- The certificate part of the `Storer` interface of internal/store/store.go as data: a call, and
-- what it answers.
use azure_keyvault_emulator.Prelude.{ℕ, String, Option, List, ◌≢◌}
use azure_keyvault_emulator.Prelude.Dict.{lookup}
use azure_keyvault_emulator.Prelude.Outcome.{panic, Ends}
use azure_keyvault_emulator.Prelude.Outcome.Runs.{
  NeverPanics, answered, answered-Ends, serve, Each, serve-Ends,
}
use azure_keyvault_emulator.Prelude.Text.Decimal.{ℤ}
use azure_keyvault_emulator.Model.{
  CertificatePolicy, CertificateOperation, CreateCertificateRequest, ImportCertificateRequest,
  UpdateCertificateRequest,
}
use azure_keyvault_emulator.Crypto.Interface.{CertificateCrypto, CertOptions, Bytes}
use azure_keyvault_emulator.Store.{
  Store, Call, CertificateRecord, DeletedCertificateRecord, new_store,
}
use azure_keyvault_emulator.Store.Pagination.{Page}
use azure_keyvault_emulator.Store.Certificates.{
  get_certificate, update_certificate, list_certificates, list_certificate_versions,
  delete_certificate, list_deleted_certificates, get_deleted_certificate, purge_deleted_certificate,
  recover_deleted_certificate, get_certificate_policy, update_certificate_policy,
  get_pending_certificate_operation,
}
use azure_keyvault_emulator.Store.Certificates.Issuance.{create_certificate, import_certificate}
use azure_keyvault_emulator.Store.Certificates.Safety.{
  AreCertificatesWellFormed, get_certificate-Ends, update_certificate-Ends, list_certificates-Ends,
  list_certificate_versions-Ends, delete_certificate-Ends, list_deleted_certificates-Ends,
  get_deleted_certificate-Ends, purge_deleted_certificate-Ends, recover_deleted_certificate-Ends,
  get_certificate_policy-Ends, update_certificate_policy-Ends,
  get_pending_certificate_operation-Ends,
}
use azure_keyvault_emulator.Store.Certificates.Safety.Issued.{
  NeverPanicsParsing, create_certificate-Ends, import_certificate-Ends,
}

pub data CertificateCall : Type 0 where
  create : ℕ → Bytes → Bytes → String → CreateCertificateRequest → CertificateCall
  import_ : ℕ → Bytes → String → ImportCertificateRequest → CertificateCall
  get : String → String → CertificateCall
  list : ℤ → String → CertificateCall
  list_versions : String → ℤ → String → CertificateCall
  update : ℕ → String → String → UpdateCertificateRequest → CertificateCall
  get_policy : String → CertificateCall
  update_policy : ℕ → String → Option CertificatePolicy → CertificateCall
  get_pending : String → CertificateCall
  delete : ℕ → Bytes → String → CertificateCall
  list_deleted : ℤ → String → CertificateCall
  get_deleted : String → CertificateCall
  purge_deleted : String → CertificateCall
  recover_deleted : String → CertificateCall

pub data CertificateReply : Type 0 where
  certificate : CertificateRecord → CertificateReply
  deleted : DeletedCertificateRecord → CertificateReply
  page : Page CertificateRecord → CertificateReply
  deleted_page : Page DeletedCertificateRecord → CertificateReply
  policy : Option CertificatePolicy → CertificateReply
  operation : CertificateOperation → CertificateReply
  done : CertificateReply

module _ {M C P K : Type 0} (crypto : CertificateCrypto M C P K) where
  pub run_certificate : CertificateCall → Call M CertificateReply
  run_certificate (create now buf entropy name req) =
      answered certificate (create_certificate crypto now buf entropy name req)
  run_certificate (import_ now buf name req) =
      answered certificate (import_certificate crypto now buf name req)
  run_certificate (get name version) = answered certificate (get_certificate name version)
  run_certificate (list m t) = answered page (list_certificates m t)
  run_certificate (list_versions name m t) = answered page (list_certificate_versions name m t)
  run_certificate (update now name version req) =
      answered certificate (update_certificate now name version req)
  run_certificate (get_policy name) = answered policy (get_certificate_policy name)
  run_certificate (update_policy now name p) =
      answered policy (update_certificate_policy now name p)
  run_certificate (get_pending name) = answered operation (get_pending_certificate_operation name)
  run_certificate (delete now buf name) = answered deleted (delete_certificate now buf name)
  run_certificate (list_deleted m t) = answered deleted_page (list_deleted_certificates m t)
  run_certificate (get_deleted name) = answered deleted (get_deleted_certificate name)
  run_certificate (purge_deleted name) = answered (λ _. done) (purge_deleted_certificate name)
  run_certificate (recover_deleted name) = answered certificate (recover_deleted_certificate name)

  -- The call's own use of internal/crypto does not panic.
  abbrev pub IsHarmlessCertificate : CertificateCall → Type 0
  IsHarmlessCertificate (create now buf entropy name req) =
      NeverPanicsParsing crypto
      × ((p : CertificatePolicy) (options : CertOptions C P)
          → crypto.generate_cert entropy name p options ≢ panic)
  IsHarmlessCertificate (import_ now buf name req) = NeverPanicsParsing crypto
  IsHarmlessCertificate _ = Unit

  run_certificate-Ends :
      (c : CertificateCall) (s : Store M)
      → IsHarmlessCertificate c
      → AreCertificatesWellFormed s
      → Ends AreCertificatesWellFormed (run_certificate c s)
  unfolding run_certificate
  run_certificate-Ends (create now buf entropy name req) s safe w =
      answered-Ends AreCertificatesWellFormed certificate _ _
        (create_certificate-Ends crypto now buf entropy name req s safe.0 safe.1 w)
  run_certificate-Ends (import_ now buf name req) s safe w =
      answered-Ends AreCertificatesWellFormed certificate _ _
        (import_certificate-Ends crypto now buf name req s safe w)
  run_certificate-Ends (get name version) s safe w =
      answered-Ends AreCertificatesWellFormed certificate _ _
        (get_certificate-Ends name version s w)
  run_certificate-Ends (list m t) s safe w =
      answered-Ends AreCertificatesWellFormed page _ _ (list_certificates-Ends m t s w)
  run_certificate-Ends (list_versions name m t) s safe w =
      answered-Ends AreCertificatesWellFormed page _ _ (list_certificate_versions-Ends name m t s w)
  run_certificate-Ends (update now name version req) s safe w =
      answered-Ends AreCertificatesWellFormed certificate _ _
        (update_certificate-Ends now name version req s w)
  run_certificate-Ends (get_policy name) s safe w =
      answered-Ends AreCertificatesWellFormed policy _ _ (get_certificate_policy-Ends name s w)
  run_certificate-Ends (update_policy now name p) s safe w =
      answered-Ends AreCertificatesWellFormed policy _ _
        (update_certificate_policy-Ends now name p s w)
  run_certificate-Ends (get_pending name) s safe w =
      answered-Ends AreCertificatesWellFormed operation _ _
        (get_pending_certificate_operation-Ends name s w)
  run_certificate-Ends (delete now buf name) s safe w =
      answered-Ends AreCertificatesWellFormed deleted _ _ (delete_certificate-Ends now buf name s w)
  run_certificate-Ends (list_deleted m t) s safe w =
      answered-Ends AreCertificatesWellFormed deleted_page _ _
        (list_deleted_certificates-Ends m t s w)
  run_certificate-Ends (get_deleted name) s safe w =
      answered-Ends AreCertificatesWellFormed deleted _ _ (get_deleted_certificate-Ends name s w)
  run_certificate-Ends (purge_deleted name) s safe w =
      answered-Ends AreCertificatesWellFormed (λ _. done) _ _
        (purge_deleted_certificate-Ends name s w)
  run_certificate-Ends (recover_deleted name) s safe w =
      answered-Ends AreCertificatesWellFormed certificate _ _
        (recover_deleted_certificate-Ends name s w)

  -- Whatever the sequence of certificate calls, none of them panics and the invariant of the maps of
  -- certificates holds at the end, if it held at the start and no call makes internal/crypto panic.
  pub serve_certificates_safe :
      (calls : List CertificateCall) (s : Store M)
      → Each IsHarmlessCertificate calls
      → AreCertificatesWellFormed s
      → NeverPanics (serve run_certificate calls s).0
        × AreCertificatesWellFormed (serve run_certificate calls s).1
  serve_certificates_safe =
      serve-Ends run_certificate AreCertificatesWellFormed IsHarmlessCertificate
        run_certificate-Ends

pub new_store-AreCertificatesWellFormed :
    (M : Type 0) → AreCertificatesWellFormed (new_store {M = M})
unfolding lookup
new_store-AreCertificatesWellFormed M = record {
  live_entry = λ k e h. cc;
  deleted_entry = λ k d h. cc;
  disjoint = λ k e h. cc;
  live_unique = tt;
  deleted_unique = tt;
}
