-- ===== src/Store/Secrets/Reads.antt =====
-- GetSecret after SetSecret, in internal/store/secrets.go.
use azure_keyvault_emulator.Prelude.{
  ℕ, ◌⊎◌, String, ◌≡◌, refl, sym, ◌≢◌, inl, inr, Option, none, some, List, [], arith, ◌==◌, eq_iff,
  Bool-cases,
}
use azure_keyvault_emulator.Prelude.Dict.{lookup, lookup-insert}
use azure_keyvault_emulator.Prelude.Outcome.{Outcome, ok, err}
use azure_keyvault_emulator.Model.{SecretSetRequest}
use azure_keyvault_emulator.Store.{Store, SecretRecord, SecretEntry}
use azure_keyvault_emulator.Store.Errors.{Error}
use azure_keyvault_emulator.Store.Metadata.{new_version}
use azure_keyvault_emulator.Store.Entries.{appended, put_version, find_id}
use azure_keyvault_emulator.Store.Secrets.{set_secret, get_secret}
use azure_keyvault_emulator.Store.Secrets.Records.{
  new_secret, latest_secret, find_secret_version, clone_secret_record, version_of, secret_not_found,
}
use azure_keyvault_emulator.Store.Entries.Appended.{
  find_id-append_other, find_id-append_fresh, last?-appended,
}
use azure_keyvault_emulator.Store.Secrets.Versions.{set_secret-eq_ok}

-- The answer of GetSecret for the version that is found, and for the entry that the name has.
abbrev pub got_version : String → Option SecretRecord → Outcome Error SecretRecord
got_version name none = err (secret_not_found name)
got_version name (some ver) = ok (clone_secret_record ver)

abbrev pub got : String → String → Option SecretEntry → Outcome Error SecretRecord
got name version none = err (secret_not_found name)
got name version (some entry) = got_version name (find_secret_version entry version)

pub get_secret-eq :
    {M : Type 0} (name version : String) (s : Store M)
    → get_secret name version s ≡ (got name version (lookup name s.secrets), s)
unfolding get_secret
get_secret-eq name version s = ground arith

-- The versions of the entry that a name may have.
abbrev pub versions_of : Option SecretEntry → List SecretRecord
versions_of none = []
versions_of (some entry) = entry.versions

got-appended :
    (name : String) (o : Option SecretEntry) (v : SecretRecord)
    → got name "" (some (appended o v)) ≡ ok (clone_secret_record v)
unfolding find_secret_version latest_secret
got-appended name o v = ground (arith, last?-appended o v)

got-appended_fresh :
    (name version : String) (o : Option SecretEntry) (v : SecretRecord)
    → version ≢ ""
    → v.version ≡ version
    → find_id version_of version (versions_of o) ≡ none
    → got name version (some (appended o v)) ≡ ok (clone_secret_record v)
unfolding find_secret_version find_id appended
got-appended_fresh name version none v given same absent =
    ground (arith, eq_iff version "", eq_iff v.version version)
got-appended_fresh name version (some e) v given same absent =
    ground
      (arith, eq_iff version "", find_id-append_fresh version_of version e.versions v same absent)

got-appended_other :
    (name version : String) (o : Option SecretEntry) (v : SecretRecord)
    → version ≢ ""
    → v.version ≢ version
    → got name version (some (appended o v)) ≡ got name version o
unfolding find_secret_version find_id appended
got-appended_other name version none v given other =
    ground (arith, eq_iff version "", eq_iff v.version version)
got-appended_other name version (some e) v given other =
    ground (arith, eq_iff version "", find_id-append_other version_of version e.versions v other)

module _ {M : Type 0} (now : ℕ) (buf : List ℕ) (name : String) (req : SecretSetRequest)
    (s : Store M) {r : SecretRecord} (done : (set_secret now buf name req s).0 ≡ ok r) where
  abbrev after : Store M
  after = (set_secret now buf name req s).1

  set_entry :
      lookup name after.secrets
      ≡ some (appended (lookup name s.secrets) (new_secret now buf name req))
  unfolding put_version
  set_entry =
      let (_, _, e) = set_secret-eq_ok now buf name req s done in
      rw e (
        ground (
          arith,
          lookup-insert name name (appended (lookup name s.secrets) (new_secret now buf name req))
              s.secrets,
          eq_iff name name,
        ))

  set_entry_other : (j : String) → j ≢ name → lookup j after.secrets ≡ lookup j s.secrets
  unfolding put_version
  set_entry_other j differ =
      let (_, _, e) = set_secret-eq_ok now buf name req s done in
      rw e (
        ground (
          arith,
          lookup-insert name j (appended (lookup name s.secrets) (new_secret now buf name req))
              s.secrets,
          eq_iff name j,
        ))

  -- GetSecret with no version, after a successful SetSecret, answers what SetSecret answered.
  pub get-set : get_secret name "" after ≡ (ok r, after)
  get-set =
      let (_, answer, _) = set_secret-eq_ok now buf name req s done in
      rw (get_secret-eq, set_entry, got-appended, answer)

  -- GetSecret with the new version, after a successful SetSecret, answers what SetSecret answered, if
  -- the version is not empty and no version of the name has it yet.
  pub get-set_version :
      new_version buf ≢ ""
      → find_id version_of (new_version buf) (versions_of (lookup name s.secrets)) ≡ none
      → get_secret name (new_version buf) after ≡ (ok r, after)
  unfolding new_secret
  get-set_version given fresh =
      let (_, answer, _) = set_secret-eq_ok now buf name req s done in
      rw (get_secret-eq, set_entry)
        (rw
          (got-appended_fresh name (new_version buf) (lookup name s.secrets)
            (new_secret now buf name req) given refl fresh)
          (rw answer))

  got_other_name :
      (j version : String) → j ≢ name → (get_secret j version after).0 ≡ (get_secret j version s).0
  got_other_name j version differ = rw (get_secret-eq, get_secret-eq, set_entry_other j differ)

  got_other_version :
      (version : String)
      → version ≢ ""
      → version ≢ new_version buf
      → (get_secret name version after).0 ≡ (get_secret name version s).0
  unfolding new_secret
  got_other_version version given other =
      rw (get_secret-eq, get_secret-eq, set_entry)
        (got-appended_other name version (lookup name s.secrets) (new_secret now buf name req) given
          (λ e. other (sym e)))

  -- After a successful SetSecret, every other version of the name, by its id, and every version of
  -- another name is read as before.
  pub get-set_other :
      (j version : String)
      → (j ≢ name) ⊎ (version ≢ "") × (version ≢ new_version buf)
      → (get_secret j version after).0 ≡ (get_secret j version s).0
  get-set_other j version (inl differ) = got_other_name j version differ
  get-set_other j version (inr (given, other)) = elim (Bool-cases (j == name)) [
    | inl same ↦ rw ((eq_iff j name).0 same) (got_other_version version given other)
    | inr differ ↦ got_other_name j version (λ e. cc ((eq_iff j name).1 e))
  ]
