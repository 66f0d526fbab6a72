-- ===== src/SqlStore/Versions.antt =====
-- ListSecretVersions of internal/store/sqlstore/sqlstore.go beside that of internal/store/secrets.go.
use mathlib.Core.Path.{subst}
use mathlib.Core.List.{reverse_aux}
use azure_keyvault_emulator.Prelude.{
  String, Bool, true, false, ◌≡◌, refl, ◌≢◌, none, some, List, [], ◌∷◌, map, reverse, inl, inr,
  Option-cases,
}
use azure_keyvault_emulator.Prelude.Dict.{lookup}
use azure_keyvault_emulator.Prelude.Outcome.{Outcome, ok, err}
use azure_keyvault_emulator.Prelude.Text.Decimal.{ℤ}
use azure_keyvault_emulator.Store.{Store, SecretRecord, SecretEntry}
use azure_keyvault_emulator.Store.Pagination.{Page, paginate_names}
use azure_keyvault_emulator.Store.Secrets
use azure_keyvault_emulator.Store.Secrets.Records.{clone_secret_record, secret_not_found}
use azure_keyvault_emulator.Store.Secrets.Safety.{AreSecretsWellFormed}
use azure_keyvault_emulator.Store.Secrets.Reads.{versions_of}
use azure_keyvault_emulator.Storer.{AnyError, of_store, named_error}
use azure_keyvault_emulator.SqlStore.{
  SecretRow, Tables, Driver, where_, any, first, is_named, newest_first,
}
use azure_keyvault_emulator.SqlStore.Secrets.{scan, each, without_value, list_secret_versions}
use azure_keyvault_emulator.SqlStore.Statements.{any-first, oldest_first-IsRising}
use azure_keyvault_emulator.SqlStore.Represents.{Holds, Represents}
use azure_keyvault_emulator.SqlStore.Writes.{Agree}

module _ (driver : Driver) where
  abbrev shown : SecretRow → Outcome AnyError SecretRecord
  shown row = without_value driver (scan driver row)

  -- Rows that are listed as the versions are.
  abbrev Shows : List SecretRow → List SecretRecord → Type 0
  Shows [] [] = Unit
  Shows [] (v ∷ vs) = ⊥
  Shows (row ∷ rows) [] = ⊥
  Shows (row ∷ rows) (v ∷ vs) = (shown row ≡ ok (Secrets.Records.without_value v)) × Shows rows vs

  Holds-Shows :
      (rows : List SecretRow) (vs : List SecretRecord) → Holds driver rows vs → Shows rows vs
  unfolding Secrets.Records.without_value
  Holds-Shows [] [] h = tt
  Holds-Shows [] (v ∷ vs) h = absurd h
  Holds-Shows (row ∷ rows) [] h = absurd h
  Holds-Shows (row ∷ rows) (v ∷ vs) h = (rw h.0 refl, Holds-Shows rows vs h.1)

  Shows-reverse_aux :
      (rows : List SecretRow) (vs : List SecretRecord) (rows' : List SecretRow)
      (vs' : List SecretRecord)
      → Shows rows vs
      → Shows rows' vs'
      → Shows (reverse_aux rows rows') (reverse_aux vs vs')
  Shows-reverse_aux [] [] rows' vs' h h' = h'
  Shows-reverse_aux [] (v ∷ vs) rows' vs' h h' = absurd h
  Shows-reverse_aux (row ∷ rows) [] rows' vs' h h' = absurd h
  Shows-reverse_aux (row ∷ rows) (v ∷ vs) rows' vs' h h' =
      Shows-reverse_aux rows vs (row ∷ rows') (v ∷ vs') h.1 (h.0, h')

  each-Shows :
      (rows : List SecretRow) (vs : List SecretRecord)
      → Shows rows vs
      → each shown rows ≡ ok (map Secrets.Records.without_value vs)
  each-Shows [] [] h = refl
  each-Shows [] (v ∷ vs) h = absurd h
  each-Shows (row ∷ rows) [] h = absurd h
  each-Shows (row ∷ rows) (v ∷ vs) h = rw (h.0, each-Shows rows vs h.1) refl

  pub any-Holds :
      (name : String) (rows : List SecretRow) (vs : List SecretRecord)
      → Holds driver (where_ (is_named name) rows) vs
      → (vs ≡ [] → any (is_named name) rows ≡ false) × (vs ≢ [] → any (is_named name) rows ≡ true)
  any-Holds name rows vs h = rw (any-first (is_named name) rows) (go _ vs h)
    where
      go :
          (rows : List SecretRow) (vs : List SecretRecord)
          → Holds driver rows vs
          → (vs ≡ [] → (elim (first rows) as (λ _. Bool) [ none ↦ false | some _ ↦ true ]) ≡ false)
            × (vs ≢ [] → (elim (first rows) as (λ _. Bool) [ none ↦ false | some _ ↦ true ]) ≡ true)
      go [] [] h = (λ _. refl, λ filled. absurd (filled refl))
      go [] (v ∷ vs) h = absurd h
      go (row ∷ rows) [] h = absurd h
      go (row ∷ rows) (v ∷ vs) h = (λ e. cc, λ _. refl)

  module _ {M : Type 0} (db : Tables) (s : Store M) (r : Represents driver db s) (name : String)
      (max_results : ℤ) (skip_token : String) where
    abbrev page_of : List SecretRecord → Outcome AnyError (Page SecretRecord)
    page_of vs =
        named_error
          (paginate_names (map Secrets.Records.without_value (reverse vs)) skip_token max_results)

    tables-missing :
        any (is_named name) db.secrets ≡ false
        → list_secret_versions driver name max_results skip_token db
          ≡ (err (of_store (secret_not_found name)), db)
    unfolding list_secret_versions
    tables-missing h = rw h refl

    tables-listed :
        (vs : List SecretRecord)
        → any (is_named name) db.secrets ≡ true
        → each shown (newest_first (where_ (is_named name) db.secrets))
          ≡ ok (map Secrets.Records.without_value (reverse vs))
        → list_secret_versions driver name max_results skip_token db ≡ (page_of vs, db)
    unfolding list_secret_versions
    tables-listed vs h e = rw (h, e) refl

    memory-missing :
        lookup name s.secrets ≡ none
        → Secrets.list_secret_versions name max_results skip_token s
          ≡ (err (secret_not_found name), s)
    unfolding Secrets.list_secret_versions
    memory-missing h = rw h refl

    memory-listed :
        {entry : SecretEntry}
        → lookup name s.secrets ≡ some entry
        → Secrets.list_secret_versions name max_results skip_token s ≡ (
          paginate_names
              (map Secrets.Records.without_value (reverse entry.versions))
              skip_token
              max_results,
          s,
        )
    unfolding Secrets.list_secret_versions
    memory-listed h = rw h refl

    pub list_secret_versions-agrees :
        AreSecretsWellFormed s
        → Agree driver
            (list_secret_versions driver name max_results skip_token db)
            (Secrets.list_secret_versions name max_results skip_token s)
    unfolding newest_first
    list_secret_versions-agrees w =
        let holds = r.live name in
        let rows = where_ (is_named name) db.secrets in
        elim (Option-cases (lookup name s.secrets)) [
          | inl missing ↦
              rw
                (
                  tables-missing ((any-Holds name db.secrets _ holds).0 (rw missing refl)),
                  memory-missing missing,
                )
                (refl, r)
          | inr (entry, found) ↦
              let held = subst (λ o. Holds driver rows (versions_of o)) found holds in
              rw
                (
                  tables-listed entry.versions
                      ((any-Holds name db.secrets _ held).1
                        ((w.live_entry name entry found).filled))
                      (rw (oldest_first-IsRising rows (r.rising name)) (
                        each-Shows (reverse rows) (reverse entry.versions) (
                          Shows-reverse_aux rows entry.versions [] []
                            (Holds-Shows rows entry.versions held) tt))),
                  memory-listed found,
                )
                (refl, r)
        ]
