-- ===== src/Store/Secrets/Safety.antt =====
-- No secret operation of internal/store/secrets.go reads a nil pointer, and each one keeps the
-- invariant of the two maps.
use azure_keyvault_emulator.Prelude.{
  ℕ, String, ◌≡◌, refl, ◌≢◌, inl, inr, none, some, List, [], ◌∷◌, arith, ◌==◌, Option-cases,
  Bool-cases, Bool, false, ◌||◌, is_empty, map, reverse,
}
use azure_keyvault_emulator.Prelude.Dict.{lookup, keys}
use azure_keyvault_emulator.Prelude.Sort.{sort_strings}
use azure_keyvault_emulator.Store.Pagination.{page_size}
use azure_keyvault_emulator.Store.Pagination.Complete.{paginate_cases}
use azure_keyvault_emulator.Prelude.Outcome.{ok, Ends}
use azure_keyvault_emulator.Prelude.Text.Decimal.{ℤ}
use azure_keyvault_emulator.Model.{SecretSetRequest, SecretUpdateRequest}
use azure_keyvault_emulator.Store.{Store, SecretRecord, SecretEntry, DeletedSecretRecord}
use azure_keyvault_emulator.Store.Entries.Versions.{
  All, All-take, All-drop, All-last?, All-find_id, All-change_last, All-change_id, All-keys,
  All-sort_strings, change_last-ne-nil, change_id-ne-nil,
}
use azure_keyvault_emulator.Store.Entries.WellFormed.{
  IsEntry, IsWellFormed, insert-IsWellFormed, put_version-IsWellFormed, delete-IsWellFormed,
  recover-IsWellFormed, erase_deleted-IsWellFormed, last?-IsEntry,
}
use azure_keyvault_emulator.Store.Secrets.{
  set_secret, get_secret, update_secret, list_secrets, list_secret_versions, delete_secret,
  list_deleted_secrets, get_deleted_secret, purge_deleted_secret, recover_deleted_secret,
  backup_secret, restore_secret,
}
use azure_keyvault_emulator.Store.Secrets.Records.{
  new_secret, deleted_secret, latest_secret, find_secret_version, change_secret_version,
  updated_secret, without_value, listed_deleted_secrets, deleted_item, deleted_record, BackupCodec,
  restored_versions, renamed, clone_secret_record,
}

abbrev pub name_of : SecretRecord → String
name_of r = r.name

pub or_false_right : (a b : Bool) → (a || b) ≡ false → b ≡ false
or_false_right a b h = ground arith

change-IsEntry :
    (name version : String) (changed : SecretRecord) (entry : SecretEntry)
    → changed.name ≡ name
    → IsEntry name_of name entry
    → IsEntry name_of name (change_secret_version version (λ _. changed) entry)
unfolding change_secret_version
change-IsEntry name version changed entry same h = elim (Bool-cases (version == "")) [
  | inl empty ↦ rw empty (record {
    filled = change_last-ne-nil _ entry.versions h.filled;
    named = All-change_last (λ v. name_of v ≡ name) _ entry.versions h.named (λ _ _. same);
  })
  | inr given ↦ rw given (record {
    filled = change_id-ne-nil _ version _ entry.versions h.filled;
    named = All-change_id (λ v. name_of v ≡ name) _ version _ entry.versions h.named (λ _ _. same);
  })
]

find-named :
    (name version : String) (entry : SecretEntry) {v : SecretRecord}
    → IsEntry name_of name entry
    → find_secret_version entry version ≡ some v
    → v.name ≡ name
unfolding find_secret_version latest_secret
find-named name version entry {v} h e = elim (Bool-cases (version == "")) [
  | inl empty ↦ All-last? (λ v. name_of v ≡ name) entry.versions h.named (rw empty at e)
  | inr given ↦ All-find_id (λ v. name_of v ≡ name) _ version entry.versions h.named (rw given at e)
]

restored-IsEntry :
    (name : String) (versions : List SecretRecord)
    → is_empty versions ≡ false
    → IsEntry name_of name (record { versions = restored_versions name versions })
unfolding restored_versions clone_secret_record renamed
restored-IsEntry name [] h = absurd (cc h)
restored-IsEntry name (v ∷ vs) h = record { filled = λ e. cc; named = (refl, all_named vs) }
  where
    all_named : (vs : List SecretRecord) → All (λ v. name_of v ≡ name) (restored_versions name vs)
    all_named [] = tt
    all_named (v ∷ vs) = (refl, all_named vs)

module _ {M : Type 0} where
  abbrev pub AreSecretsWellFormed : Store M → Type 0
  AreSecretsWellFormed s = IsWellFormed name_of s.secrets s.deleted_secrets

  pub set_secret-Ends :
      (now : ℕ) (buf : List ℕ) (name : String) (req : SecretSetRequest) (s : Store M)
      → AreSecretsWellFormed s
      → Ends AreSecretsWellFormed (set_secret now buf name req s)
  unfolding set_secret new_secret
  set_secret-Ends now buf name req s w = ground (
    arith,
    put_version-IsWellFormed {name_of = name_of} name (new_secret now buf name req) s.secrets
        s.deleted_secrets refl,
  )

  pub get_secret-Ends :
      (name version : String) (s : Store M)
      → AreSecretsWellFormed s
      → Ends AreSecretsWellFormed (get_secret name version s)
  unfolding get_secret
  get_secret-Ends name version s w = ground arith

  pub delete_secret-Ends :
      (now : ℕ) (buf : List ℕ) (name : String) (s : Store M)
      → AreSecretsWellFormed s
      → Ends AreSecretsWellFormed (delete_secret now buf name s)
  unfolding delete_secret latest_secret deleted_secret
  delete_secret-Ends now buf name s w = elim (Option-cases (lookup name s.secrets)) [
    | inl missing ↦ rw missing w
    | inr (entry, found) ↦
        let (latest, e) = last?-IsEntry entry (w.live_entry name entry found) in
        ground (
          arith,
          found,
          e,
          delete-IsWellFormed {name_of = name_of} name (deleted_secret now buf name entry) s.secrets
              s.deleted_secrets found w,
        )
  ]

  pub update_secret-Ends :
      (now : ℕ) (name version : String) (req : SecretUpdateRequest) (s : Store M)
      → AreSecretsWellFormed s
      → Ends AreSecretsWellFormed (update_secret now name version req s)
  unfolding update_secret updated_secret
  update_secret-Ends now name version req s w = elim (Option-cases (lookup name s.secrets)) [
    | inl missing ↦ rw missing w
    | inr (entry, found) ↦ rw found (elim (Option-cases (find_secret_version entry version)) [
      | inl missing ↦ rw missing w
      | inr (ver, e) ↦
          let h = w.live_entry name entry found in
          rw e (
            insert-IsWellFormed name _ s.secrets s.deleted_secrets
              (change-IsEntry name version (updated_secret now req ver) entry
                (find-named name version entry h e) h)
              (w.disjoint name entry found) w)
    ])
  ]

  pub list_secrets-Ends :
      (m : ℤ) (token : String) (s : Store M)
      → AreSecretsWellFormed s
      → Ends AreSecretsWellFormed (list_secrets m token s)
  unfolding list_secrets
  list_secrets-Ends m token s w = elim (paginate_cases (sort_strings (keys s.secrets)) token m) [
    | inl refused ↦ rw refused w
    | inr (k, e) ↦ rw e w
  ]

  pub list_secret_versions-Ends :
      (name : String) (m : ℤ) (token : String) (s : Store M)
      → AreSecretsWellFormed s
      → Ends AreSecretsWellFormed (list_secret_versions name m token s)
  unfolding list_secret_versions
  list_secret_versions-Ends name m token s w = elim (Option-cases (lookup name s.secrets)) [
    | inl missing ↦ rw missing w
    | inr (entry, found) ↦
        rw found (elim (paginate_cases (map without_value (reverse entry.versions)) token m) [
          | inl refused ↦ rw refused w
          | inr (k, e) ↦ rw e w
        ])
  ]

  -- Every name of a page of deleted names has an entry with a version.
  listed_deleted_secrets_ok :
      (s : Store M)
      → AreSecretsWellFormed s
      → (names : List String) → All (λ k. lookup k s.deleted_secrets ≢ none) names
      → (items : List DeletedSecretRecord) × (listed_deleted_secrets s.deleted_secrets names
          ≡ ok items)
  unfolding listed_deleted_secrets deleted_item latest_secret
  listed_deleted_secrets_ok s w [] h = ([], refl)
  listed_deleted_secrets_ok s w (name ∷ names) h =
      elim (Option-cases (lookup name s.deleted_secrets)) [
        | inl missing ↦ absurd (h.0 missing)
        | inr (d, found) ↦
            let (latest, e) = last?-IsEntry d.entry (w.deleted_entry name d found) in
            let (items, rest) = listed_deleted_secrets_ok s w names h.1 in
            (deleted_record d (without_value latest) ∷ items, rw (found, e, rest))
      ]

  pub list_deleted_secrets-Ends :
      (m : ℤ) (token : String) (s : Store M)
      → AreSecretsWellFormed s
      → Ends AreSecretsWellFormed (list_deleted_secrets m token s)
  unfolding list_deleted_secrets
  list_deleted_secrets-Ends m token s w =
      elim (paginate_cases (sort_strings (keys s.deleted_secrets)) token m) [
        | inl refused ↦ rw refused w
        | inr (k, e) ↦
            let found = λ (j : String). lookup j s.deleted_secrets ≢ none in
            let (items, all) = listed_deleted_secrets_ok s w _ (
              All-take found (page_size m) _
                (All-drop found k _ (All-sort_strings found _ (All-keys s.deleted_secrets)))) in
            rw (e, all) w
      ]

  pub get_deleted_secret-Ends :
      (name : String) (s : Store M)
      → AreSecretsWellFormed s
      → Ends AreSecretsWellFormed (get_deleted_secret name s)
  unfolding get_deleted_secret latest_secret
  get_deleted_secret-Ends name s w = elim (Option-cases (lookup name s.deleted_secrets)) [
    | inl missing ↦ rw missing w
    | inr (d, found) ↦
        let (latest, e) = last?-IsEntry d.entry (w.deleted_entry name d found) in rw (found, e) w
  ]

  pub purge_deleted_secret-Ends :
      (name : String) (s : Store M)
      → AreSecretsWellFormed s
      → Ends AreSecretsWellFormed (purge_deleted_secret name s)
  unfolding purge_deleted_secret
  purge_deleted_secret-Ends name s w =
      ground
        (arith, erase_deleted-IsWellFormed {name_of = name_of} name s.secrets s.deleted_secrets w)

  pub recover_deleted_secret-Ends :
      (name : String) (s : Store M)
      → AreSecretsWellFormed s
      → Ends AreSecretsWellFormed (recover_deleted_secret name s)
  unfolding recover_deleted_secret latest_secret
  recover_deleted_secret-Ends name s w = elim (Option-cases (lookup name s.deleted_secrets)) [
    | inl missing ↦ ground arith
    | inr (d, found) ↦
        let h = w.deleted_entry name d found in
        let (latest, e) = last?-IsEntry d.entry h in
        ground (
          arith,
          found,
          e,
          recover-IsWellFormed {name_of = name_of} name d.entry s.secrets s.deleted_secrets h w,
        )
  ]

  pub backup_secret-Ends :
      (codec : BackupCodec) (name : String) (s : Store M)
      → AreSecretsWellFormed s
      → Ends AreSecretsWellFormed (backup_secret codec name s)
  unfolding backup_secret
  backup_secret-Ends codec name s w = ground arith

  pub restore_secret-Ends :
      (codec : BackupCodec) (token : String) (s : Store M)
      → AreSecretsWellFormed s
      → Ends AreSecretsWellFormed (restore_secret codec token s)
  unfolding restore_secret latest_secret
  restore_secret-Ends codec token s w = elim (Option-cases (codec.decode token)) [
    | inl bad ↦ rw bad w
    | inr (payload, decoded) ↦ elim (Bool-cases (payload.name == "" || is_empty payload.versions)) [
      | inl bad ↦ rw (decoded, bad) w
      | inr good ↦
          let h = restored-IsEntry payload.name payload.versions (or_false_right _ _ good) in
          let (latest, e) = last?-IsEntry _ h in
          rw (decoded, good, e)
            (recover-IsWellFormed payload.name _ s.secrets s.deleted_secrets h w)
    ]
  ]
