-- ===== src/SqlStore/DeletedListing.antt =====
-- ListDeletedSecrets of internal/store/sqlstore/sqlstore.go beside that of
-- internal/store/secrets.go.
use mathlib.Core.Path.{subst}
use azure_keyvault_emulator.Prelude.{
  String, ◌≡◌, refl, ◌∙◌, sym, none, some, List, [], ◌∷◌, ◌≢◌, Option-cases, inl, inr, last?-some,
}
use azure_keyvault_emulator.Prelude.Dict.{lookup, keys}
use azure_keyvault_emulator.Prelude.Dict.Keys.{has-keys, keys-IsOnce}
use azure_keyvault_emulator.Prelude.Outcome.{ok}
use azure_keyvault_emulator.Prelude.Sort.{sort_strings}
use azure_keyvault_emulator.Prelude.Sort.Same.{sort_strings-same}
use azure_keyvault_emulator.Prelude.Text.Decimal.{ℤ}
use azure_keyvault_emulator.Store.{Store, DeletedSecretRecord}
use azure_keyvault_emulator.Store.Pagination.{page_size}
use azure_keyvault_emulator.Store.Pagination.Complete.{paginate_cases}
use azure_keyvault_emulator.Store.Entries.Versions.{
  All, All-take, All-drop, All-keys, All-sort_strings,
}
use azure_keyvault_emulator.Store.Secrets
use azure_keyvault_emulator.Store.Secrets.Records.{
  latest_secret, listed_deleted_secrets, deleted_item, item_with, deleted_record, without_value,
}
use azure_keyvault_emulator.Store.Secrets.Safety.{AreSecretsWellFormed}
use azure_keyvault_emulator.SqlStore.{Tables, Driver, where_, first, is_deleted}
use azure_keyvault_emulator.SqlStore.SoftDeletes.{
  get_deleted_secret_row, deleted_of_each, list_deleted_secrets,
}
use azure_keyvault_emulator.SqlStore.Statements.{deleted_names, has-deleted_names}
use azure_keyvault_emulator.SqlStore.Represents.{HoldsDeleted, Represents}
use azure_keyvault_emulator.SqlStore.Writes.{Agree, Represents-deleted}
use azure_keyvault_emulator.SqlStore.Deleted.{HoldsDeleted-some}

module _ (driver : Driver) {M : Type 0} (db : Tables) (s : Store M) (r : Represents driver db s)
    (w : AreSecretsWellFormed s) where
  names_same :
      sort_strings (deleted_names db.deleted_secrets) ≡ sort_strings (keys s.deleted_secrets)
  names_same =
      sort_strings-same (deleted_names db.deleted_secrets) (keys s.deleted_secrets) r.once
        (keys-IsOnce s.deleted_secrets w.deleted_unique)
        (λ k.
          has-deleted_names k db.deleted_secrets
          ∙ Represents-deleted driver r k
          ∙ sym (has-keys k s.deleted_secrets))

  -- The items of a page of names, in the tables and in the memory.
  both_listed :
      (names : List String)
      → All (λ k. lookup k s.deleted_secrets ≢ none) names
      → (items : List DeletedSecretRecord) × (listed_deleted_secrets s.deleted_secrets names
          ≡ ok items)
        × (deleted_of_each driver names db ≡ (ok items, db))
  unfolding deleted_of_each listed_deleted_secrets deleted_item item_with latest_secret
      get_deleted_secret_row deleted_record without_value
  both_listed [] h = ([], refl, refl)
  both_listed (name ∷ names) h = elim (Option-cases (lookup name s.deleted_secrets)) [
    | inl missing ↦ absurd (h.0 missing)
    | inr (d, found) ↦
        let (latest, last) = last?-some d.entry.versions ((w.deleted_entry name d found).filled) in
        let (items, memory, tables) = both_listed names h.1 in
        let held =
          subst (HoldsDeleted driver (first (where_ (is_deleted name) db.deleted_secrets))) found
            (r.deleted name) in
        let (row, selected) = HoldsDeleted-some driver _ d held in
        let (answer, _) = subst (λ o. HoldsDeleted driver o (some d)) selected held in
        (
          deleted_record d (without_value latest) ∷ items,
          rw (found, last, memory) refl,
          rw (selected, answer, last, tables) refl,
        )
  ]

  pub list_deleted_secrets-agrees :
      (max_results : ℤ) (skip_token : String)
      → Agree driver
          (list_deleted_secrets driver max_results skip_token db)
          (Secrets.list_deleted_secrets max_results skip_token s)
  unfolding list_deleted_secrets Secrets.list_deleted_secrets
  list_deleted_secrets-agrees max_results skip_token =
      rw names_same
        (elim (paginate_cases (sort_strings (keys s.deleted_secrets)) skip_token max_results) [
          | inl refused ↦ rw refused (refl, r)
          | inr (k, e) ↦
              let found = λ (j : String). lookup j s.deleted_secrets ≢ none in
              let (items, memory, tables) = both_listed _ (
                All-take found (page_size max_results) _
                  (All-drop found k _ (All-sort_strings found _ (All-keys s.deleted_secrets)))) in
              rw (e, memory, tables) (refl, r)
        ])
