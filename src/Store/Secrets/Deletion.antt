-- ===== src/Store/Secrets/Deletion.antt =====
-- The soft-delete life cycle of internal/store/secrets.go: DeleteSecret, RecoverDeletedSecret and
-- PurgeDeletedSecret, and what the other operations answer in between.
use azure_keyvault_emulator.Prelude.{
  ℕ, ◌+◌, String, ◌≡◌, refl, ◌≢◌, ap, none, some, List, arith, ◌==◌, eq_iff, last?, if◌then◌else◌,
}
use azure_keyvault_emulator.Prelude.Dict.{lookup, insert, erase, lookup-insert, lookup-erase}
use azure_keyvault_emulator.Prelude.Outcome.{Outcome, ok, err}
use azure_keyvault_emulator.Model.{SecretSetRequest}
use azure_keyvault_emulator.Store.{Store, SecretRecord, SecretEntry, DeletedSecretRecord}
use azure_keyvault_emulator.Store.Errors.{Error, currently_deleted}
use azure_keyvault_emulator.Store.Entries.{DeletedEntry}
use azure_keyvault_emulator.Store.Secrets.{
  set_secret, get_secret, delete_secret, get_deleted_secret, recover_deleted_secret,
  purge_deleted_secret,
}
use azure_keyvault_emulator.Store.Secrets.Records.{
  deleted_secret, deleted_record, latest_secret, find_secret_version, clone_secret_record,
  secret_not_found, deleted_secret_not_found,
}
use azure_keyvault_emulator.Store.Secrets.Safety.{AreSecretsWellFormed}
use azure_keyvault_emulator.Store.Secrets.Reads.{get_secret-eq}

-- What the operations answer for a name that is in one of the two maps, or not in it.
module _ {M : Type 0} (name : String) (t : Store M) where
  get_secret_missing :
      (version : String)
      → lookup name t.secrets ≡ none
      → get_secret name version t ≡ (err (secret_not_found name), t)
  unfolding get_secret
  get_secret_missing version h = ground arith

  delete_secret_missing :
      (now : ℕ) (buf : List ℕ)
      → lookup name t.secrets ≡ none
      → delete_secret now buf name t ≡ (err (secret_not_found name), t)
  unfolding delete_secret
  delete_secret_missing now buf h = ground arith

  set_secret_deleted :
      (now : ℕ) (buf : List ℕ) (req : SecretSetRequest) {d : DeletedEntry SecretRecord}
      → name ≢ ""
      → req.value ≢ ""
      → lookup name t.deleted_secrets ≡ some d
      → set_secret now buf name req t ≡ (err (currently_deleted "Secret" name), t)
  unfolding set_secret
  set_secret_deleted now buf req named valued h =
      ground (arith, eq_iff name "", eq_iff req.value "")

  get_deleted_secret_found :
      {d : DeletedEntry SecretRecord} {latest : SecretRecord}
      → lookup name t.deleted_secrets ≡ some d
      → last? d.entry.versions ≡ some latest
      → get_deleted_secret name t ≡ (ok (deleted_record d (clone_secret_record latest)), t)
  unfolding get_deleted_secret latest_secret
  get_deleted_secret_found h e = ground arith

  recover_deleted_secret_found :
      {d : DeletedEntry SecretRecord} {latest : SecretRecord}
      → lookup name t.secrets ≡ none
      → lookup name t.deleted_secrets ≡ some d
      → last? d.entry.versions ≡ some latest
      → recover_deleted_secret name t ≡ (
        ok (clone_secret_record latest),
        record t {
          secrets = insert name d.entry t.secrets;
          deleted_secrets = erase name t.deleted_secrets;
        },
      )
  unfolding recover_deleted_secret latest_secret
  recover_deleted_secret_found absent h e = ground arith

  purge_deleted_secret_found :
      {d : DeletedEntry SecretRecord}
      → lookup name t.deleted_secrets ≡ some d
      → purge_deleted_secret name t
        ≡ (ok tt, record t { deleted_secrets = erase name t.deleted_secrets })
  unfolding purge_deleted_secret
  purge_deleted_secret_found h = ground arith

  purge_deleted_secret_missing :
      lookup name t.deleted_secrets ≡ none
      → purge_deleted_secret name t ≡ (err (deleted_secret_not_found name), t)
  unfolding purge_deleted_secret
  purge_deleted_secret_missing h = ground arith

module _ {M : Type 0} (now : ℕ) (buf : List ℕ) (name : String) (s : Store M)
    (w : AreSecretsWellFormed s) {entry : SecretEntry} (live : lookup name s.secrets ≡ some entry)
    {latest : SecretRecord} (newest : last? entry.versions ≡ some latest) where
  abbrev pub after_delete : Store M
  after_delete = (delete_secret now buf name s).1

  -- What DeleteSecret answers for a live name, and the two maps that it leaves.
  pub delete_secret_ok : delete_secret now buf name s ≡ (
    ok (deleted_record (deleted_secret now buf name entry) (clone_secret_record latest)),
    record s {
      secrets = erase name s.secrets;
      deleted_secrets = insert name (deleted_secret now buf name entry) s.deleted_secrets;
    },
  )
  unfolding delete_secret latest_secret
  delete_secret_ok = ground (arith, live, w.disjoint name entry live, newest)

  abbrev pub kept : DeletedEntry SecretRecord
  kept = deleted_secret now buf name entry

  live_after : after_delete.secrets ≡ erase name s.secrets
  live_after =
      ap (λ (p : Outcome Error DeletedSecretRecord × Store M). p.1.secrets) delete_secret_ok

  deleted_after : after_delete.deleted_secrets ≡ insert name kept s.deleted_secrets
  deleted_after =
      ap (λ (p : Outcome Error DeletedSecretRecord × Store M). p.1.deleted_secrets) delete_secret_ok

  kept_after : lookup name after_delete.deleted_secrets ≡ some kept
  kept_after =
      rw deleted_after
        (ground (arith, lookup-insert name name kept s.deleted_secrets, eq_iff name name))

  gone_after : lookup name after_delete.secrets ≡ none
  gone_after = rw live_after (ground (arith, lookup-erase name name s.secrets, eq_iff name name))

  answer_after :
      (delete_secret now buf name s).0 ≡ ok (deleted_record kept (clone_secret_record latest))
  answer_after = rw delete_secret_ok

  -- In a well-formed store, a live secret that is deleted is answered with its latest version and is purged after ninety
  -- days at the soonest. It is then found under its name among the deleted secrets, with the same
  -- answer, and no longer among the live ones; it is not deleted twice, and its name, if it is not
  -- empty, is refused for a new secret that has a value.
  pub delete_secret-effects :
      (now' : ℕ) (buf' : List ℕ) (version : String) (req : SecretSetRequest)
      → name ≢ ""
      → req.value ≢ ""
      → ((delete_secret now buf name s).0 ≡ ok (deleted_record kept (clone_secret_record latest)))
        × (kept.scheduled_purge_date ≡ now + 7776000)
        × (get_deleted_secret name after_delete ≡ ((delete_secret now buf name s).0, after_delete))
        × (get_secret name version after_delete ≡ (err (secret_not_found name), after_delete))
        × (delete_secret now' buf' name after_delete ≡ (err (secret_not_found name), after_delete))
        × (set_secret now' buf' name req after_delete
            ≡ (err (currently_deleted "Secret" name), after_delete))
  unfolding deleted_secret
  delete_secret-effects now' buf' version req named valued = (
    answer_after,
    refl,
    rw answer_after (get_deleted_secret_found name after_delete kept_after newest),
    get_secret_missing name after_delete version gone_after,
    delete_secret_missing name after_delete now' buf' gone_after,
    set_secret_deleted name after_delete now' buf' req named valued kept_after,
  )

  -- In a well-formed store, a recovery after the deletion of a live secret answers what GetSecret
  -- answered before it, and leaves every name as it was, among the live secrets and among the
  -- deleted ones.
  pub recover-delete :
      (j : String)
      → ((recover_deleted_secret name after_delete).0 ≡ (get_secret name "" s).0)
        × (lookup j (recover_deleted_secret name after_delete).1.secrets ≡ lookup j s.secrets)
        × (lookup j (recover_deleted_secret name after_delete).1.deleted_secrets
            ≡ lookup j s.deleted_secrets)
  unfolding find_secret_version latest_secret deleted_secret
  recover-delete j =
      rw
        (recover_deleted_secret_found name after_delete gone_after kept_after newest, get_secret-eq)
        (
          ground (arith, newest, live),
          rw live_after (
              ground (
                arith,
                live,
                eq_iff name j,
                lookup-insert name j entry (erase name s.secrets),
                lookup-erase name j s.secrets,
              )),
          rw deleted_after (
              ground (
                arith,
                eq_iff name j,
                w.disjoint name entry live,
                lookup-erase name j (insert name kept s.deleted_secrets),
                lookup-insert name j kept s.deleted_secrets,
              )),
        )

  -- In a well-formed store, a purge after the deletion of a live secret leaves the name neither live nor deleted and every other name as it
  -- was, and a second purge is an error.
  pub purge-delete :
      (j : String)
      → ((purge_deleted_secret name after_delete).0 ≡ ok tt)
        × (lookup j (purge_deleted_secret name after_delete).1.secrets
            ≡ (if name == j then none else lookup j s.secrets))
        × (lookup j (purge_deleted_secret name after_delete).1.deleted_secrets
            ≡ (if name == j then none else lookup j s.deleted_secrets))
        × ((purge_deleted_secret name (purge_deleted_secret name after_delete).1).0
            ≡ err (deleted_secret_not_found name))
  purge-delete j = rw (purge_deleted_secret_found name after_delete kept_after) (
    refl,
    rw live_after (lookup-erase name j s.secrets),
    rw deleted_after (
        ground (
          arith,
          eq_iff name j,
          lookup-erase name j (insert name kept s.deleted_secrets),
          lookup-insert name j kept s.deleted_secrets,
        )),
    ap (λ (p : Outcome Error (Unit {0}) × Store M). p.0)
        (purge_deleted_secret_missing name _
          (ground (arith, eq_iff name name, lookup-erase name name after_delete.deleted_secrets))),
  )
