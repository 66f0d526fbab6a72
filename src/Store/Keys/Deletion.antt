-- ===== src/Store/Keys/Deletion.antt =====
-- The soft-delete life cycle of internal/store/keys.go: DeleteKey, RecoverDeletedKey and
-- PurgeDeletedKey, and what the other operations answer in between.
use azure_keyvault_emulator.Prelude.{
  ℕ, ◌+◌, String, ◌≡◌, refl, ◌≢◌, ap, Option, none, some, List, arith, ◌==◌, eq_iff, last?,
  if◌then◌else◌,
}
use azure_keyvault_emulator.Prelude.Dict.{lookup, insert, erase, lookup-insert, lookup-erase}
use azure_keyvault_emulator.Prelude.Outcome.{Outcome, ok, err}
use azure_keyvault_emulator.Model.{CreateKeyRequest}
use azure_keyvault_emulator.Store.{Store, KeyRecord, KeyVersion, KeyEntry, DeletedKeyRecord}
use azure_keyvault_emulator.Crypto.Interface.{KeyCrypto}
use azure_keyvault_emulator.Store.Errors.{Error, currently_deleted}
use azure_keyvault_emulator.Store.Entries.{DeletedEntry}
use azure_keyvault_emulator.Store.Keys.{
  create_key, get_key, delete_key, get_deleted_key, recover_deleted_key, purge_deleted_key,
  deleted_key, latest_key, find_key_version, clone_of,
}
use azure_keyvault_emulator.Store.Keys.Records.{
  deleted_key_record, key_not_found, deleted_key_not_found,
}
use azure_keyvault_emulator.Store.Keys.Safety.{AreKeysWellFormed}

-- The answer of GetKey for the version that is found, and for the entry that the name has.
abbrev got_version : {M : Type 0} → String → Option (KeyVersion M) → Outcome Error KeyRecord
got_version name none = err (key_not_found name)
got_version name (some ver) = ok (clone_of ver)

abbrev got : {M : Type 0} → String → String → Option (KeyEntry M) → Outcome Error KeyRecord
got name version none = err (key_not_found name)
got name version (some entry) = got_version name (find_key_version entry version)

get_key-eq :
    {M : Type 0} (name version : String) (s : Store M)
    → get_key name version s ≡ (got name version (lookup name s.keys), s)
unfolding get_key
get_key-eq name version s = ground arith

-- What the operations answer for a name that is in one of the two maps, or not in it.
module _ {M : Type 0} (name : String) (t : Store M) where
  get_key_missing :
      (version : String)
      → lookup name t.keys ≡ none
      → get_key name version t ≡ (err (key_not_found name), t)
  unfolding get_key
  get_key_missing version h = ground arith

  delete_key_missing :
      (now : ℕ) (buf : List ℕ)
      → lookup name t.keys ≡ none
      → delete_key now buf name t ≡ (err (key_not_found name), t)
  unfolding delete_key
  delete_key_missing now buf h = ground arith

  create_key_deleted :
      (crypto : KeyCrypto M) (now : ℕ) (buf entropy : List ℕ) (req : CreateKeyRequest)
      {d : DeletedEntry (KeyVersion M)}
      → name ≢ ""
      → req.kty ≢ ""
      → lookup name t.deleted_keys ≡ some d
      → create_key crypto now buf entropy name req t ≡ (err (currently_deleted "Key" name), t)
  unfolding create_key
  create_key_deleted crypto now buf entropy req named valued h =
      ground (arith, eq_iff name "", eq_iff req.kty "")

  get_deleted_key_found :
      {d : DeletedEntry (KeyVersion M)} {latest : KeyVersion M}
      → lookup name t.deleted_keys ≡ some d
      → last? d.entry.versions ≡ some latest
      → get_deleted_key name t ≡ (ok (deleted_key_record d (clone_of latest)), t)
  unfolding get_deleted_key latest_key
  get_deleted_key_found h e = ground arith

  recover_deleted_key_found :
      {d : DeletedEntry (KeyVersion M)} {latest : KeyVersion M}
      → lookup name t.keys ≡ none
      → lookup name t.deleted_keys ≡ some d
      → last? d.entry.versions ≡ some latest
      → recover_deleted_key name t ≡ (
        ok (clone_of latest),
        record t { keys = insert name d.entry t.keys; deleted_keys = erase name t.deleted_keys },
      )
  unfolding recover_deleted_key latest_key
  recover_deleted_key_found absent h e = ground arith

  purge_deleted_key_found :
      {d : DeletedEntry (KeyVersion M)}
      → lookup name t.deleted_keys ≡ some d
      → purge_deleted_key name t ≡ (ok tt, record t { deleted_keys = erase name t.deleted_keys })
  unfolding purge_deleted_key
  purge_deleted_key_found h = ground arith

  purge_deleted_key_missing :
      lookup name t.deleted_keys ≡ none
      → purge_deleted_key name t ≡ (err (deleted_key_not_found name), t)
  unfolding purge_deleted_key
  purge_deleted_key_missing h = ground arith

module _ {M : Type 0} (now : ℕ) (buf : List ℕ) (name : String) (s : Store M)
    (w : AreKeysWellFormed s) {entry : KeyEntry M} (live : lookup name s.keys ≡ some entry)
    {latest : KeyVersion M} (newest : last? entry.versions ≡ some latest) where
  abbrev pub after_delete : Store M
  after_delete = (delete_key now buf name s).1

  -- What DeleteKey answers for a live name, and the two maps that it leaves.
  pub delete_key_ok : delete_key now buf name s ≡ (
    ok (deleted_key_record (deleted_key now buf name entry) (clone_of latest)),
    record s {
      keys = erase name s.keys;
      deleted_keys = insert name (deleted_key now buf name entry) s.deleted_keys;
    },
  )
  unfolding delete_key latest_key
  delete_key_ok = ground (arith, live, w.disjoint name entry live, newest)

  abbrev pub kept : DeletedEntry (KeyVersion M)
  kept = deleted_key now buf name entry

  live_after : after_delete.keys ≡ erase name s.keys
  live_after = ap (λ (p : Outcome Error DeletedKeyRecord × Store M). p.1.keys) delete_key_ok

  deleted_after : after_delete.deleted_keys ≡ insert name kept s.deleted_keys
  deleted_after =
      ap (λ (p : Outcome Error DeletedKeyRecord × Store M). p.1.deleted_keys) delete_key_ok

  kept_after : lookup name after_delete.deleted_keys ≡ some kept
  kept_after =
      rw deleted_after
        (ground (arith, lookup-insert name name kept s.deleted_keys, eq_iff name name))

  gone_after : lookup name after_delete.keys ≡ none
  gone_after = rw live_after (ground (arith, lookup-erase name name s.keys, eq_iff name name))

  answer_after : (delete_key now buf name s).0 ≡ ok (deleted_key_record kept (clone_of latest))
  answer_after = rw delete_key_ok

  -- In a well-formed store, a live key that is deleted is answered with its latest version and is purged after ninety
  -- days at the soonest. It is then found under its name among the deleted keys, with the same
  -- answer, and no longer among the live ones; it is not deleted twice, and its name, if it is
  -- not empty, is refused for a new key that has a type.
  pub delete_key-effects :
      (crypto : KeyCrypto M) (now' : ℕ) (buf' entropy : List ℕ) (version : String)
      (req : CreateKeyRequest)
      → name ≢ ""
      → req.kty ≢ ""
      → ((delete_key now buf name s).0 ≡ ok (deleted_key_record kept (clone_of latest)))
        × (kept.scheduled_purge_date ≡ now + 7776000)
        × (get_deleted_key name after_delete ≡ ((delete_key now buf name s).0, after_delete))
        × (get_key name version after_delete ≡ (err (key_not_found name), after_delete))
        × (delete_key now' buf' name after_delete ≡ (err (key_not_found name), after_delete))
        × (create_key crypto now' buf' entropy name req after_delete
            ≡ (err (currently_deleted "Key" name), after_delete))
  unfolding deleted_key
  delete_key-effects crypto now' buf' entropy version req named valued = (
    answer_after,
    refl,
    rw answer_after (get_deleted_key_found name after_delete kept_after newest),
    get_key_missing name after_delete version gone_after,
    delete_key_missing name after_delete now' buf' gone_after,
    create_key_deleted name after_delete crypto now' buf' entropy req named valued kept_after,
  )

  -- In a well-formed store, a recovery after the deletion of a live key answers what GetKey answered
  -- before it, and leaves every name as it was, among the live keys and among the deleted ones.
  pub recover_key-delete_key :
      (j : String)
      → ((recover_deleted_key name after_delete).0 ≡ (get_key name "" s).0)
        × (lookup j (recover_deleted_key name after_delete).1.keys ≡ lookup j s.keys)
        × (lookup j (recover_deleted_key name after_delete).1.deleted_keys
            ≡ lookup j s.deleted_keys)
  unfolding find_key_version latest_key deleted_key
  recover_key-delete_key j =
      rw (recover_deleted_key_found name after_delete gone_after kept_after newest, get_key-eq)
        (
          ground (arith, newest, live),
          rw live_after (
              ground (
                arith,
                live,
                eq_iff name j,
                lookup-insert name j entry (erase name s.keys),
                lookup-erase name j s.keys,
              )),
          rw deleted_after (
              ground (
                arith,
                eq_iff name j,
                w.disjoint name entry live,
                lookup-erase name j (insert name kept s.deleted_keys),
                lookup-insert name j kept s.deleted_keys,
              )),
        )

  -- A purge after a deletion leaves the name neither live nor deleted and every other name as it
  -- was, and a second purge is an error.
  pub purge_key-delete_key :
      (j : String)
      → ((purge_deleted_key name after_delete).0 ≡ ok tt)
        × (lookup j (purge_deleted_key name after_delete).1.keys
            ≡ (if name == j then none else lookup j s.keys))
        × (lookup j (purge_deleted_key name after_delete).1.deleted_keys
            ≡ (if name == j then none else lookup j s.deleted_keys))
        × ((purge_deleted_key name (purge_deleted_key name after_delete).1).0
            ≡ err (deleted_key_not_found name))
  purge_key-delete_key j = rw (purge_deleted_key_found name after_delete kept_after) (
    refl,
    rw live_after (lookup-erase name j s.keys),
    rw deleted_after (
        ground (
          arith,
          eq_iff name j,
          lookup-erase name j (insert name kept s.deleted_keys),
          lookup-insert name j kept s.deleted_keys,
        )),
    ap (λ (p : Outcome Error (Unit {0}) × Store M). p.0)
        (purge_deleted_key_missing name _
          (ground (arith, eq_iff name name, lookup-erase name name after_delete.deleted_keys))),
  )
