-- ===== src/SqlStore/Listing.antt =====
-- ListSecrets of internal/store/sqlstore/sqlstore.go beside that of internal/store/secrets.go.
use mathlib.Core.Path.{subst}
use azure_keyvault_emulator.Prelude.{
  String, ◌≡◌, refl, ap, ◌∙◌, sym, none, List, [], ◌∷◌, arith, ◌==◌, ◌||◌, ◌≢◌, eq_iff, Bool-cases,
  Option-cases, inl, inr, last?-some,
}
use azure_keyvault_emulator.Prelude.Dict.{lookup, contains, keys}
use azure_keyvault_emulator.Prelude.Dict.Keys.{has-keys, keys-IsOnce}
use azure_keyvault_emulator.Prelude.Outcome.{ok}
use azure_keyvault_emulator.Prelude.Sort.{sort_strings}
use azure_keyvault_emulator.Prelude.Sort.Same.{has, IsOnce, sort_strings-same}
use azure_keyvault_emulator.Prelude.Text.Decimal.{ℤ}
use azure_keyvault_emulator.Store.{Store}
use azure_keyvault_emulator.Store.Pagination.{page_size}
use azure_keyvault_emulator.Store.Pagination.Complete.{paginate_cases}
use azure_keyvault_emulator.Store.Entries.Versions.{
  All, All-take, All-drop, All-keys, All-sort_strings,
}
use azure_keyvault_emulator.Store.Secrets
use azure_keyvault_emulator.Store.Secrets.Records.{
  clone_secret_record, latest_of, latest_secret, listed_secrets, find_secret_version,
}
use azure_keyvault_emulator.Store.Secrets.Reads.{versions_of}
use azure_keyvault_emulator.Store.Secrets.Safety.{AreSecretsWellFormed}
use azure_keyvault_emulator.SqlStore.{SecretRow, Tables, Driver, where_, any, is_named}
use azure_keyvault_emulator.SqlStore.Secrets.{distinct_names, latest_of_each, list_secrets}
use azure_keyvault_emulator.SqlStore.Represents.{
  Holds, Represents, get_secret_version_row-eq, selected_lem,
}
use azure_keyvault_emulator.SqlStore.Writes.{Agree}
use azure_keyvault_emulator.SqlStore.Versions.{any-Holds}

has-distinct_names :
    (k : String) (rows : List SecretRow) → has k (distinct_names rows) ≡ any (is_named k) rows
unfolding has distinct_names any
has-distinct_names k [] = refl
has-distinct_names k (row ∷ rows) = elim (Bool-cases (any (is_named row.name) rows)) [
  | inl again ↦ ground (arith, has-distinct_names k rows, eq_iff row.name k)
  | inr last ↦ rw last (ap (λ b. row.name == k || b) (has-distinct_names k rows))
]

distinct_names-IsOnce : (rows : List SecretRow) → IsOnce (distinct_names rows)
unfolding distinct_names
distinct_names-IsOnce [] = tt
distinct_names-IsOnce (row ∷ rows) = elim (Bool-cases (any (is_named row.name) rows)) [
  | inl again ↦ rw again (distinct_names-IsOnce rows)
  | inr last ↦ rw last (has-distinct_names row.name rows ∙ last, distinct_names-IsOnce rows)
]

module _ (driver : Driver) {M : Type 0} (db : Tables) (s : Store M) (r : Represents driver db s)
    (w : AreSecretsWellFormed s) where
  any-contains : (name : String) → any (is_named name) db.secrets ≡ contains name s.secrets
  any-contains name = elim (Option-cases (lookup name s.secrets)) [
    | inl missing ↦
        (any-Holds driver name db.secrets _ (r.live name)).0 (rw missing refl)
        ∙ rw (missing, contains) refl
    | inr (entry, found) ↦
        (any-Holds driver name db.secrets _ (
            subst (λ o. Holds driver (where_ (is_named name) db.secrets) (versions_of o)) found
              (r.live name))).1
          ((w.live_entry name entry found).filled)
        ∙ rw (found, contains) refl
  ]

  names_same : sort_strings (distinct_names db.secrets) ≡ sort_strings (keys s.secrets)
  names_same =
      sort_strings-same (distinct_names db.secrets) (keys s.secrets)
        (distinct_names-IsOnce db.secrets) (keys-IsOnce s.secrets w.live_unique)
        (λ k. has-distinct_names k db.secrets ∙ any-contains k ∙ sym (has-keys k s.secrets))

  latest_of_each-eq :
      (names : List String)
      → All (λ k. lookup k s.secrets ≢ none) names
      → latest_of_each driver names db ≡ (ok (listed_secrets s.secrets names), db)
  unfolding latest_of_each listed_secrets latest_of find_secret_version latest_secret
      Secrets.Records.without_value
  latest_of_each-eq [] h = refl
  latest_of_each-eq (name ∷ names) h = elim (Option-cases (lookup name s.secrets)) [
    | inl missing ↦ absurd (h.0 missing)
    | inr (entry, found) ↦
        let (latest, last) = last?-some entry.versions ((w.live_entry name entry found).filled) in
        rw
          (
            get_secret_version_row-eq driver name "" db,
            selected_lem driver r name "",
            found,
            last,
            latest_of_each-eq names h.1,
          )
          refl
  ]

  pub list_secrets-agrees :
      (max_results : ℤ) (skip_token : String)
      → Agree driver
          (list_secrets driver max_results skip_token db)
          (Secrets.list_secrets max_results skip_token s)
  unfolding list_secrets Secrets.list_secrets
  list_secrets-agrees max_results skip_token =
      rw names_same (elim (paginate_cases (sort_strings (keys s.secrets)) skip_token max_results) [
        | inl refused ↦ rw refused (refl, r)
        | inr (k, e) ↦
            let found = λ (j : String). lookup j s.secrets ≢ none in
            rw
              (
                e,
                latest_of_each-eq _ (
                    All-take found (page_size max_results) _
                      (All-drop found k _ (All-sort_strings found _ (All-keys s.secrets)))),
              )
              (refl, r)
      ])
