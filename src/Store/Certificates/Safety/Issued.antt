-- ===== src/Store/Certificates/Safety/Issued.antt =====
-- CreateCertificate and ImportCertificate of internal/store/certificates.go: neither reads a nil
-- pointer, and both keep the invariant of the maps of certificates, where internal/crypto does
-- not panic.
use azure_keyvault_emulator.Prelude.{
  ℕ, String, ◌≡◌, refl, ◌≢◌, Option, Option-cases, Bool-cases, inl, inr, none, some, List, arith,
  ◌==◌, false,
}
use azure_keyvault_emulator.Prelude.Dict.{Dict, lookup, contains}
use azure_keyvault_emulator.Prelude.Outcome.{
  Outcome, ok, err, panic, Ends, raise_if-Ends, lift-Ends,
}
use azure_keyvault_emulator.Model.{
  CertificatePolicy, CreateCertificateRequest, ImportCertificateRequest,
}
use azure_keyvault_emulator.Crypto.Interface.{Bytes, Fallible, CertificateCrypto, CertOptions}
use azure_keyvault_emulator.Store.{Store, SecretEntry, SecretRecord, CertificateRecord}
use azure_keyvault_emulator.Store.Errors.{Error}
use azure_keyvault_emulator.Store.Entries.WellFormed.{put_version-IsWellFormed}
use azure_keyvault_emulator.Store.Secrets.{put_secret_version}
use azure_keyvault_emulator.Store.Secrets.Records.{latest_secret}
use azure_keyvault_emulator.Store.Keys.{put_key_version}
use azure_keyvault_emulator.Store.Keys.Safety.{or_bad_request-safe}
use azure_keyvault_emulator.Store.Certificates.Records.{clone_certificate_record}
use azure_keyvault_emulator.Store.Certificates.Safety.{AreCertificatesWellFormed}
use azure_keyvault_emulator.Store.Certificates.Issuance.{
  create_certificate, import_certificate, issuer_for, get_issuer_material, issuer_of_entry,
  issuer_of_latest, issuer_parsed, parent_of, append_certificate, put_managed_key,
  put_managed_secret, put_imported_key, new_certificate,
}

module _ {M C P K : Type 0} (crypto : CertificateCrypto M C P K) where
  abbrev pub NeverPanicsParsing : Type 0
  NeverPanicsParsing = (value password : String) → crypto.parse_imported value password ≢ panic

  issuer_parsed-safe :
      (name : String) (r : Fallible (C × Option P × Bytes))
      → r ≢ panic
      → issuer_parsed crypto name r ≢ panic
  unfolding issuer_parsed
  issuer_parsed-safe name (ok (cert, none, text)) h e = cc
  issuer_parsed-safe name (ok (cert, some key, text)) h e = cc
  issuer_parsed-safe name (err t) h e = cc
  issuer_parsed-safe name panic h e = h refl

  issuer_of_entry-safe :
      NeverPanicsParsing
      → (name : String) (o : Option SecretEntry) → issuer_of_entry crypto name o ≢ panic
  unfolding issuer_of_entry issuer_of_latest
  issuer_of_entry-safe safe name none = λ e. cc
  issuer_of_entry-safe safe name (some entry) = latest_safe (latest_secret entry)
    where
      latest_safe : (o : Option SecretRecord) → issuer_of_latest crypto name o ≢ panic
      latest_safe none = λ e. cc
      latest_safe (some latest) = issuer_parsed-safe name _ (safe latest.value "")

  parent_of-safe : {A : Type 0} (r : Outcome Error A) → r ≢ panic → parent_of r ≢ panic
  parent_of-safe (ok a) h e = cc
  parent_of-safe (err t) h e = cc
  parent_of-safe panic h e = h refl

  issuer_for-safe :
      NeverPanicsParsing
      → (name : String) (secrets : Dict SecretEntry) → issuer_for crypto name secrets ≢ panic
  unfolding issuer_for get_issuer_material
  issuer_for-safe safe name secrets = elim (Bool-cases (name == "")) [
    | inl empty ↦ rw empty (λ e. cc)
    | inr given ↦ rw given (
        parent_of-safe _ (
          or_bad_request-safe "InvalidIssuer" _
            (issuer_of_entry-safe safe name (lookup name secrets))))
  ]

  -- The three appends.
  append_certificate-IsWellFormed :
      (new : CertificateRecord) (text : Bytes) (s : Store M)
      → contains new.name s.deleted_certificates ≡ false
      → AreCertificatesWellFormed s
      → AreCertificatesWellFormed (append_certificate crypto new text s).1
  unfolding append_certificate clone_certificate_record
  append_certificate-IsWellFormed new text s absent w =
      put_version-IsWellFormed new.name _ s.certificates s.deleted_certificates refl (ground arith)
        w

  pub create_certificate-Ends :
      (now : ℕ) (buf : List ℕ) (entropy : Bytes) (name : String) (req : CreateCertificateRequest)
      (s : Store M)
      → NeverPanicsParsing
      → ((policy : CertificatePolicy) (options : CertOptions C P)
          → crypto.generate_cert entropy name policy options ≢ panic)
      → AreCertificatesWellFormed s
      → Ends AreCertificatesWellFormed (create_certificate crypto now buf entropy name req s)
  unfolding create_certificate new_certificate put_managed_key put_managed_secret put_key_version
      put_secret_version append_certificate
  create_certificate-Ends now buf entropy name req s parses generates w =
      raise_if-Ends AreCertificatesWellFormed s (name == "") _ _ w λ _.
        raise_if-Ends AreCertificatesWellFormed s (contains name s.deleted_certificates) _ _ w
          λ absent.
            lift-Ends AreCertificatesWellFormed s _ _ w (issuer_for-safe parses _ s.secrets)
              λ parent.
                lift-Ends AreCertificatesWellFormed s _ _ w
                  (or_bad_request-safe "InvalidOperation" _ (generates _ _))
                  λ made. append_certificate-IsWellFormed _ _ s absent w

  pub import_certificate-Ends :
      (now : ℕ) (buf : List ℕ) (name : String) (req : ImportCertificateRequest) (s : Store M)
      → NeverPanicsParsing
      → AreCertificatesWellFormed s
      → Ends AreCertificatesWellFormed (import_certificate crypto now buf name req s)
  unfolding import_certificate new_certificate put_managed_key put_managed_secret put_key_version
      put_secret_version append_certificate put_imported_key
  import_certificate-Ends now buf name req s parses w =
      raise_if-Ends AreCertificatesWellFormed s (name == "") _ _ w λ _.
        raise_if-Ends AreCertificatesWellFormed s (req.value == "") _ _ w λ _.
          lift-Ends AreCertificatesWellFormed s _ _ w
            (or_bad_request-safe "BadParameter" _ (parses req.value req.password))
            λ (made : C × Option P × Bytes).
              raise_if-Ends AreCertificatesWellFormed s (contains name s.deleted_certificates) _ _ w
                λ absent.
                  let h = append_certificate-IsWellFormed _ _ s absent w in
                  elim (Option-cases (crypto.rsa_public_key made.0)) [
                    | inl other ↦ rw other h
                    | inr (k, e) ↦ rw e h
                  ]
