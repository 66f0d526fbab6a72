-- ===== src/SqlStore/Writes.antt =====
-- SetSecret of internal/store/sqlstore/sqlstore.go beside that of internal/store/secrets.go.
use mathlib.Core.Path.{subst}
use azure_keyvault_emulator.Prelude.{
  ℕ, String, Bool, true, false, ◌≡◌, refl, ap, ◌∙◌, sym, Option, none, some, List, [], ◌∷◌, ◌++◌,
  arith, ◌==◌, eq_iff, if◌then◌else◌, Bool-cases, inl, inr,
}
use azure_keyvault_emulator.Prelude.Dict.{lookup, Dict, contains, lookup-insert}
use azure_keyvault_emulator.Prelude.Outcome.{Outcome, ok}
use azure_keyvault_emulator.Model.{SecretSetRequest}
use azure_keyvault_emulator.Store.{Store, SecretRecord, SecretEntry, DeletedSecretEntry}
use azure_keyvault_emulator.Store.Errors.{Error}
use azure_keyvault_emulator.Store.Entries.{appended, put_version}
use azure_keyvault_emulator.Store.Metadata.{new_version}
use azure_keyvault_emulator.Store.Metadata.Clones.{clone_attributes_lem, clone_tags_idem}
use azure_keyvault_emulator.Store.Secrets.Records.{clone_secret_record, new_secret}
use azure_keyvault_emulator.Store.Secrets
use azure_keyvault_emulator.Store.Secrets.Reads.{versions_of}
use azure_keyvault_emulator.Storer.{AnyError, named_error}
use azure_keyvault_emulator.SqlStore.{
  SecretRow, DeletedSecretRow, Tables, Driver, where_, any, is_named, is_version, is_deleted,
  insert_row,
}
use azure_keyvault_emulator.SqlStore.Secrets.{
  scan, row_of, set_secret, check_not_deleted, insert_secret_row,
}
use azure_keyvault_emulator.SqlStore.Statements.{
  if-kept, AreBefore, IsRising, any-first, where_-append, append-IsRising, AreDistinct,
  append-AreDistinct, any-is_version,
}
use azure_keyvault_emulator.SqlStore.Represents.{
  if-Holds, IsReadBack, Holds, HoldsDeleted, Represents,
}

-- The same answer, and tables that hold the store.
abbrev pub Agree :
    {M A : Type 0} → Driver → Outcome AnyError A × Tables → Outcome Error A × Store M → Type 0
Agree driver r r' = (r.0 ≡ named_error r'.0) × Represents driver r.1 r'.1

-- The reading of the clock is later than those in the rows of the name, and no row has the version.
abbrev pub IsFresh : List ℕ → ℕ → String → Tables → Type 0
IsFresh buf ts name db =
    AreBefore ts (where_ (is_named name) db.secrets)
    × (any (is_version name (new_version buf)) db.secrets ≡ false)

module _ (driver : Driver) where
  Holds-append :
      (rows : List SecretRow) (vs : List SecretRecord) (row : SecretRow) (v : SecretRecord)
      → Holds driver rows vs
      → scan driver row ≡ ok (clone_secret_record v)
      → Holds driver (rows ++ row ∷ []) (vs ++ v ∷ [])
  Holds-append [] [] row v h e = (e, tt)
  Holds-append [] (w ∷ vs) row v h e = absurd h
  Holds-append (r ∷ rows) [] row v h e = absurd h
  Holds-append (r ∷ rows) (w ∷ vs) row v h e = (h.0, Holds-append rows vs row v h.1 e)

  versions_of-appended :
      (o : Option SecretEntry) (v : SecretRecord)
      → versions_of (some (appended o v)) ≡ versions_of o ++ v ∷ []
  unfolding appended
  versions_of-appended none v = refl
  versions_of-appended (some entry) v = refl

  pub scan-row_of :
      (rec : SecretRecord) (ts : ℕ)
      → IsReadBack driver rec
      → scan driver (row_of driver rec ts) ≡ ok rec
  unfolding scan row_of
  scan-row_of rec ts back = rw (back.0, back.1) refl

  clone-new_secret :
      (now : ℕ) (buf : List ℕ) (name : String) (req : SecretSetRequest)
      → clone_secret_record (new_secret now buf name req) ≡ new_secret now buf name req
  unfolding clone_secret_record new_secret
  clone-new_secret now buf name req = simp (clone_attributes_lem, clone_tags_idem)

  -- The count of deleted rows says whether the store has a deleted secret.
  HoldsDeleted-present :
      (row : Option DeletedSecretRow) (o : Option DeletedSecretEntry)
      → HoldsDeleted driver row o
      → (elim row as (λ _. Bool) [ none ↦ false | some _ ↦ true ])
        ≡ (elim o as (λ _. Bool) [ none ↦ false | some _ ↦ true ])
  HoldsDeleted-present none none h = refl
  HoldsDeleted-present none (some d) h = absurd h
  HoldsDeleted-present (some row) none h = absurd h
  HoldsDeleted-present (some row) (some d) h = refl

  pub Represents-deleted :
      {M : Type 0} {db : Tables} {s : Store M}
      → Represents driver db s
      → (name : String) → any (is_deleted name) db.deleted_secrets ≡ contains name s.deleted_secrets
  Represents-deleted r name =
      any-first (is_deleted name) _ ∙ HoldsDeleted-present _ _ (r.deleted name)

  versions-put_version :
      (name j : String) (v : SecretRecord) (m : Dict SecretEntry)
      → versions_of (lookup j (put_version name v m))
        ≡ (if name == j then versions_of (lookup j m) ++ v ∷ [] else versions_of (lookup j m))
  unfolding put_version
  versions-put_version name j v m = ground (
    arith,
    lookup-insert name j (appended (lookup name m) v) m,
    eq_iff name j,
    versions_of-appended (lookup name m) v,
  )

  module _ {M : Type 0} (db : Tables) (s : Store M) (r : Represents driver db s) where
    set-Represents :
        (ts : ℕ) (v : SecretRecord)
        → IsReadBack driver v
        → clone_secret_record v ≡ v
        → AreBefore ts (where_ (is_named v.name) db.secrets)
        → any (is_version v.name v.version) db.secrets ≡ false
        → Represents driver
            (record db { secrets = db.secrets ++ row_of driver v ts ∷ [] })
            (record s { secrets = put_version v.name v s.secrets })
    unfolding row_of
    set-Represents ts v back same before fresh = record {
      live = λ j.
          rw (where_-append (is_named j), versions-put_version v.name j v s.secrets)
            (if-Holds driver (v.name == j) _ _ _ _ (r.live j)
              (λ _. Holds-append _ _ _ _ (r.live j) (scan-row_of v ts back ∙ ap ok (sym same))));
      rising = λ j. rw (where_-append (is_named j)) (
          if-kept IsRising (v.name == j) (r.rising j) (λ hit. append-IsRising _ _ (r.rising j) (
            subst (λ x. AreBefore ts (where_ (is_named x) db.secrets)) ((eq_iff v.name j).0 hit)
              before)));
      distinct = λ j. rw (where_-append (is_named j)) (
          if-kept AreDistinct (v.name == j) (r.distinct j) (λ hit.
            append-AreDistinct _ _ (r.distinct j) (
              subst
                (λ x.
                  any (λ row. row.version == v.version) (where_ (is_named x) db.secrets) ≡ false)
                ((eq_iff v.name j).0 hit)
                (sym (any-is_version v.name v.version db.secrets) ∙ fresh))));
      once = r.once;
      deleted = r.deleted;
    }

    pub set_secret-agrees :
        (now : ℕ) (buf : List ℕ) (ts : ℕ) (name : String) (req : SecretSetRequest)
        → IsFresh buf ts name db
        → IsReadBack driver (new_secret now buf name req)
        → Agree driver
            (set_secret driver now buf ts name req db)
            (Secrets.set_secret now buf name req s)
    unfolding set_secret Secrets.set_secret check_not_deleted insert_secret_row insert_row
        new_secret row_of
    set_secret-agrees now buf ts name req fresh back = elim (Bool-cases (name == "")) [
      | inl unnamed ↦ rw unnamed (refl, r)
      | inr named ↦ elim (Bool-cases (req.value == "")) [
        | inl unvalued ↦ rw (named, unvalued) (refl, r)
        | inr valued ↦ elim (Bool-cases (contains name s.deleted_secrets)) [
          | inl gone ↦ rw (named, valued, Represents-deleted r name, gone) (refl, r)
          | inr free ↦
              let same = clone-new_secret now buf name req in
              rw (named, valued, Represents-deleted r name, free, fresh.1)
                (
                  ap ok (sym same),
                  set-Represents ts (new_secret now buf name req) back same fresh.0 fresh.1,
                )
        ]
      ]
    ]
