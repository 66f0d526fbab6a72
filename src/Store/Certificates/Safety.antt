-- ===== src/Store/Certificates/Safety.antt =====
-- No certificate operation of internal/store/certificates.go that changes only the maps of
-- certificates reads a nil pointer, and each one keeps their invariant.
pub mod Issued
use azure_keyvault_emulator.Prelude.{
  ℕ, String, ◌≡◌, refl, ◌≢◌, Option, inl, inr, false, none, some, List, [], ◌∷◌, arith, ◌==◌,
  Option-cases, Bool-cases, map, reverse,
}
use azure_keyvault_emulator.Prelude.Dict.{lookup, keys, contains}
use azure_keyvault_emulator.Prelude.Sort.{sort_strings}
use azure_keyvault_emulator.Store.Pagination.{page_size}
use azure_keyvault_emulator.Store.Pagination.Complete.{paginate_cases}
use azure_keyvault_emulator.Prelude.Outcome.{
  Outcome, ok, err, panic, Ends, raise_if-Ends, lift-Ends, or_raise-Ends,
}
use azure_keyvault_emulator.Prelude.Text.Decimal.{ℤ}
use azure_keyvault_emulator.Model.{UpdateCertificateRequest, CertificatePolicy}
use azure_keyvault_emulator.Store.{
  Store, CertificateVersion, CertificateEntry, DeletedCertificateRecord,
}
use azure_keyvault_emulator.Store.Entries.{put_version}
use azure_keyvault_emulator.Store.Entries.Versions.{
  All, All-take, All-drop, All-last?, All-find_id, All-change_last, All-change_id, All-keys,
  All-sort_strings, change_last-ne-nil, change_id-ne-nil,
}
use azure_keyvault_emulator.Store.Entries.WellFormed.{
  IsEntry, IsWellFormed, insert-IsWellFormed, put_version-IsWellFormed, delete-IsWellFormed,
  recover-IsWellFormed, erase_deleted-IsWellFormed, last?-IsEntry,
}
use azure_keyvault_emulator.Store.Certificates.{
  get_certificate, update_certificate, list_certificates, list_certificate_versions,
  delete_certificate, list_deleted_certificates, get_deleted_certificate, purge_deleted_certificate,
  recover_deleted_certificate, set_certificate_entry, get_certificate_policy,
  update_certificate_policy, get_pending_certificate_operation,
}
use azure_keyvault_emulator.Store.Certificates.Records.{
  deleted_certificate, latest_certificate, find_certificate_version, change_certificate_version,
  updated_certificate, certificate_of, listed_deleted_certificates, deleted_certificate_item,
  certificate_item_with, deleted_certificate_record, with_policy,
}

abbrev pub certificate_name_of : CertificateVersion → String
certificate_name_of v = v.record_.name

change-IsEntry :
    (name version : String) (changed : CertificateVersion) (entry : CertificateEntry)
    → certificate_name_of changed ≡ name
    → IsEntry certificate_name_of name entry
    → IsEntry certificate_name_of name (change_certificate_version version (λ _. changed) entry)
unfolding change_certificate_version
change-IsEntry name version changed entry same h = elim (Bool-cases (version == "")) [
  | inl empty ↦ rw empty (record {
    filled = change_last-ne-nil _ entry.versions h.filled;
    named =
        All-change_last (λ v. certificate_name_of v ≡ name) _ entry.versions h.named (λ _ _. same);
  })
  | inr given ↦ rw given (record {
    filled = change_id-ne-nil _ version _ entry.versions h.filled;
    named =
        All-change_id (λ v. certificate_name_of v ≡ name) _ version _ entry.versions h.named
          (λ _ _. same);
  })
]

find-named :
    (name version : String) (entry : CertificateEntry) {v : CertificateVersion}
    → IsEntry certificate_name_of name entry
    → find_certificate_version entry version ≡ some v
    → certificate_name_of v ≡ name
unfolding find_certificate_version latest_certificate
find-named name version entry h e = elim (Bool-cases (version == "")) [
  | inl empty ↦ All-last? (λ v. certificate_name_of v ≡ name) entry.versions h.named (rw empty at e)
  | inr given ↦
      All-find_id (λ v. certificate_name_of v ≡ name) _ version entry.versions h.named
        (rw given at e)
]

module _ {M : Type 0} where
  abbrev pub AreCertificatesWellFormed : Store M → Type 0
  AreCertificatesWellFormed s =
      IsWellFormed certificate_name_of s.certificates s.deleted_certificates

  pub get_certificate-Ends :
      (name version : String) (s : Store M)
      → AreCertificatesWellFormed s
      → Ends AreCertificatesWellFormed (get_certificate name version s)
  unfolding get_certificate
  get_certificate-Ends name version s w = ground arith

  pub update_certificate-Ends :
      (now : ℕ) (name version : String) (req : UpdateCertificateRequest) (s : Store M)
      → AreCertificatesWellFormed s
      → Ends AreCertificatesWellFormed (update_certificate now name version req s)
  unfolding update_certificate updated_certificate
  update_certificate-Ends now name version req s w =
      or_raise-Ends AreCertificatesWellFormed s (lookup name s.certificates) _ _ w λ entry found.
        or_raise-Ends AreCertificatesWellFormed s (find_certificate_version entry version) _ _ w
          λ ver e.
            let h = w.live_entry name entry found in
            insert-IsWellFormed name _ s.certificates s.deleted_certificates
              (change-IsEntry name version _ entry (find-named name version entry h e) h)
              (w.disjoint name entry found) w

  pub list_certificates-Ends :
      (m : ℤ) (token : String) (s : Store M)
      → AreCertificatesWellFormed s
      → Ends AreCertificatesWellFormed (list_certificates m token s)
  unfolding list_certificates
  list_certificates-Ends m token s w =
      elim (paginate_cases (sort_strings (keys s.certificates)) token m) [
        | inl refused ↦ rw refused w
        | inr (k, e) ↦ rw e w
      ]

  pub list_certificate_versions-Ends :
      (name : String) (m : ℤ) (token : String) (s : Store M)
      → AreCertificatesWellFormed s
      → Ends AreCertificatesWellFormed (list_certificate_versions name m token s)
  unfolding list_certificate_versions
  list_certificate_versions-Ends name m token s w =
      or_raise-Ends AreCertificatesWellFormed s (lookup name s.certificates) _ _ w λ entry found.
        elim (paginate_cases (map certificate_of (reverse entry.versions)) token m) [
          | inl refused ↦ rw refused w
          | inr (k, e) ↦ rw e w
        ]

  pub delete_certificate-Ends :
      (now : ℕ) (buf : List ℕ) (name : String) (s : Store M)
      → AreCertificatesWellFormed s
      → Ends AreCertificatesWellFormed (delete_certificate now buf name s)
  unfolding delete_certificate latest_certificate deleted_certificate
  delete_certificate-Ends now buf name s w = elim (Option-cases (lookup name s.certificates)) [
    | inl missing ↦ rw missing w
    | inr (entry, found) ↦
        let (latest, e) = last?-IsEntry entry (w.live_entry name entry found) in
        ground (
          arith,
          found,
          e,
          delete-IsWellFormed {name_of = certificate_name_of} name
              (deleted_certificate now buf name entry) s.certificates s.deleted_certificates found
              w,
        )
  ]

  -- Every name of a page of deleted names has an entry with a version.
  listed_deleted_certificates_ok :
      (s : Store M)
      → AreCertificatesWellFormed s
      → (names : List String) → All (λ k. lookup k s.deleted_certificates ≢ none) names
      → (items : List DeletedCertificateRecord) × (listed_deleted_certificates
            s.deleted_certificates names
          ≡ ok items)
  unfolding listed_deleted_certificates deleted_certificate_item certificate_item_with
      latest_certificate
  listed_deleted_certificates_ok s w [] h = ([], refl)
  listed_deleted_certificates_ok s w (name ∷ names) h =
      elim (Option-cases (lookup name s.deleted_certificates)) [
        | inl missing ↦ absurd (h.0 missing)
        | inr (d, found) ↦
            let (latest, e) = last?-IsEntry d.entry (w.deleted_entry name d found) in
            let (items, rest) = listed_deleted_certificates_ok s w names h.1 in
            (deleted_certificate_record d (certificate_of latest) ∷ items, rw (found, e, rest))
      ]

  pub list_deleted_certificates-Ends :
      (m : ℤ) (token : String) (s : Store M)
      → AreCertificatesWellFormed s
      → Ends AreCertificatesWellFormed (list_deleted_certificates m token s)
  unfolding list_deleted_certificates
  list_deleted_certificates-Ends m token s w =
      elim (paginate_cases (sort_strings (keys s.deleted_certificates)) token m) [
        | inl refused ↦ rw refused w
        | inr (k, e) ↦
            let found = λ (j : String). lookup j s.deleted_certificates ≢ none in
            let (items, all) = listed_deleted_certificates_ok s w _ (
              All-take found (page_size m) _ (
                All-drop found k _ (All-sort_strings found _ (All-keys s.deleted_certificates)))) in
            rw (e, all) w
      ]

  pub get_deleted_certificate-Ends :
      (name : String) (s : Store M)
      → AreCertificatesWellFormed s
      → Ends AreCertificatesWellFormed (get_deleted_certificate name s)
  unfolding get_deleted_certificate latest_certificate
  get_deleted_certificate-Ends name s w = elim (Option-cases (lookup name s.deleted_certificates)) [
    | inl missing ↦ rw missing w
    | inr (d, found) ↦
        let (latest, e) = last?-IsEntry d.entry (w.deleted_entry name d found) in rw (found, e) w
  ]

  pub purge_deleted_certificate-Ends :
      (name : String) (s : Store M)
      → AreCertificatesWellFormed s
      → Ends AreCertificatesWellFormed (purge_deleted_certificate name s)
  unfolding purge_deleted_certificate
  purge_deleted_certificate-Ends name s w = ground (
    arith,
    erase_deleted-IsWellFormed {name_of = certificate_name_of} name s.certificates
        s.deleted_certificates w,
  )

  pub recover_deleted_certificate-Ends :
      (name : String) (s : Store M)
      → AreCertificatesWellFormed s
      → Ends AreCertificatesWellFormed (recover_deleted_certificate name s)
  unfolding recover_deleted_certificate latest_certificate
  recover_deleted_certificate-Ends name s w =
      elim (Option-cases (lookup name s.deleted_certificates)) [
        | inl missing ↦ ground arith
        | inr (d, found) ↦
            let h = w.deleted_entry name d found in
            let (latest, e) = last?-IsEntry d.entry h in
            ground (
              arith,
              found,
              e,
              recover-IsWellFormed {name_of = certificate_name_of} name d.entry s.certificates
                  s.deleted_certificates h w,
            )
      ]

  pub get_certificate_policy-Ends :
      (name : String) (s : Store M)
      → AreCertificatesWellFormed s
      → Ends AreCertificatesWellFormed (get_certificate_policy name s)
  unfolding get_certificate_policy latest_certificate
  get_certificate_policy-Ends name s w =
      or_raise-Ends AreCertificatesWellFormed s (lookup name s.certificates) _ _ w λ entry found.
        let (latest, e) = last?-IsEntry entry (w.live_entry name entry found) in rw e w

  pub get_pending_certificate_operation-Ends :
      (name : String) (s : Store M)
      → AreCertificatesWellFormed s
      → Ends AreCertificatesWellFormed (get_pending_certificate_operation name s)
  unfolding get_pending_certificate_operation latest_certificate
  get_pending_certificate_operation-Ends name s w =
      or_raise-Ends AreCertificatesWellFormed s (lookup name s.certificates) _ _ w λ entry found.
        let (latest, e) = last?-IsEntry entry (w.live_entry name entry found) in rw e w

  pub update_certificate_policy-Ends :
      (now : ℕ) (name : String) (policy : Option CertificatePolicy) (s : Store M)
      → AreCertificatesWellFormed s
      → Ends AreCertificatesWellFormed (update_certificate_policy now name policy s)
  unfolding update_certificate_policy latest_certificate with_policy set_certificate_entry
  update_certificate_policy-Ends now name policy s w =
      or_raise-Ends AreCertificatesWellFormed s (lookup name s.certificates) _ _ w λ entry found.
        let h = w.live_entry name entry found in
        let (latest, e) = last?-IsEntry entry h in
        rw e (
          insert-IsWellFormed name _ s.certificates s.deleted_certificates
            (change-IsEntry name "" _ entry
              (All-last? (λ v. certificate_name_of v ≡ name) entry.versions h.named e) h)
            (w.disjoint name entry found) w)
