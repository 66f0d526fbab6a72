-- ===== src/Store/Keys/Safety.antt =====
-- No key operation of internal/store/keys.go reads a nil pointer, and each one keeps the invariant
-- of the two maps of keys. Those of `KeyCrypto` that can panic are asked not to.
pub mod Deleted
use azure_keyvault_emulator.Prelude.{
  ℕ, String, ◌≡◌, refl, ◌≢◌, inl, inr, false, none, some, List, [], ◌∷◌, arith, ◌==◌, Option-cases,
  Bool-cases, map, reverse,
}
use azure_keyvault_emulator.Prelude.Dict.{lookup, keys, contains}
use azure_keyvault_emulator.Prelude.Sort.{sort_strings}
use azure_keyvault_emulator.Store.Pagination.{page_size}
use azure_keyvault_emulator.Store.Pagination.Complete.{paginate_cases}
use azure_keyvault_emulator.Prelude.Outcome.{
  Outcome, ok, err, panic, Ends, raise_if-Ends, lift-Ends, or_raise-Ends,
}
use azure_keyvault_emulator.Prelude.Text.Decimal.{ℤ}
use azure_keyvault_emulator.Model.{JsonWebKey, CreateKeyRequest, ImportKeyRequest, UpdateKeyRequest}
use azure_keyvault_emulator.Crypto.Interface.{KeyCrypto, Fallible}
use azure_keyvault_emulator.Store.{Store, KeyRecord, KeyVersion, KeyEntry, DeletedKeyRecord}
use azure_keyvault_emulator.Store.Entries.{put_version}
use azure_keyvault_emulator.Store.Entries.Versions.{
  All, All-take, All-drop, All-last?, All-find_id, All-change_last, All-change_id, All-keys,
  All-sort_strings, change_last-ne-nil, change_id-ne-nil,
}
use azure_keyvault_emulator.Store.Entries.WellFormed.{
  IsEntry, IsWellFormed, insert-IsWellFormed, put_version-IsWellFormed, delete-IsWellFormed,
  recover-IsWellFormed, erase_deleted-IsWellFormed, last?-IsEntry,
}
use azure_keyvault_emulator.Store.Keys.{
  create_key, import_key, get_key, update_key, list_keys, list_key_versions, delete_key,
  list_deleted_keys, get_deleted_key, purge_deleted_key, recover_deleted_key, deleted_key,
  latest_key, find_key_version, change_key_version, clone_of, listed_deleted_keys, deleted_key_item,
  append_key,
}
use azure_keyvault_emulator.Store.Keys.Records.{
  new_key_record, updated_key, deleted_key_record, default_key_ops, or_bad_request,
}

-- A step of internal/crypto that does not panic.
pub or_bad_request-safe :
    {A : Type 0} (code : String) (r : Fallible A) → r ≢ panic → or_bad_request code r ≢ panic
unfolding or_bad_request
or_bad_request-safe code (ok a) h e = cc
or_bad_request-safe code (err t) h e = cc
or_bad_request-safe code panic h e = h refl

module _ {M : Type 0} where
  abbrev pub key_name_of : KeyVersion M → String
  key_name_of v = v.record_.name

  abbrev pub AreKeysWellFormed : Store M → Type 0
  AreKeysWellFormed s = IsWellFormed key_name_of s.keys s.deleted_keys

  change-IsEntry :
      (name version : String) (changed : KeyVersion M) (entry : KeyEntry M)
      → key_name_of changed ≡ name
      → IsEntry key_name_of name entry
      → IsEntry key_name_of name (change_key_version version (λ _. changed) entry)
  unfolding change_key_version
  change-IsEntry name version changed entry same h = elim (Bool-cases (version == "")) [
    | inl empty ↦ rw empty (record {
      filled = change_last-ne-nil _ entry.versions h.filled;
      named = All-change_last (λ v. key_name_of v ≡ name) _ entry.versions h.named (λ _ _. same);
    })
    | inr given ↦ rw given (record {
      filled = change_id-ne-nil _ version _ entry.versions h.filled;
      named =
          All-change_id (λ v. key_name_of v ≡ name) _ version _ entry.versions h.named
            (λ _ _. same);
    })
  ]

  find-named :
      (name version : String) (entry : KeyEntry M) {v : KeyVersion M}
      → IsEntry key_name_of name entry
      → find_key_version entry version ≡ some v
      → key_name_of v ≡ name
  unfolding find_key_version latest_key
  find-named name version entry h e = elim (Bool-cases (version == "")) [
    | inl empty ↦ All-last? (λ v. key_name_of v ≡ name) entry.versions h.named (rw empty at e)
    | inr given ↦
        All-find_id (λ v. key_name_of v ≡ name) _ version entry.versions h.named (rw given at e)
  ]

  append_key-Ends :
      (name : String) (new : KeyRecord) (material : M) (s : Store M)
      → new.name ≡ name
      → contains name s.deleted_keys ≡ false
      → AreKeysWellFormed s
      → Ends AreKeysWellFormed (append_key name new material s)
  unfolding append_key
  append_key-Ends name new material s same absent w =
      put_version-IsWellFormed name _ s.keys s.deleted_keys same (ground arith) w

  pub create_key-Ends :
      (crypto : KeyCrypto M) (now : ℕ) (buf entropy : List ℕ) (name : String)
      (req : CreateKeyRequest) (s : Store M)
      → crypto.generate_key entropy req.kty req.key_size req.crv ""
          (default_key_ops req.kty req.key_ops)
        ≢ panic
      → AreKeysWellFormed s
      → Ends AreKeysWellFormed (create_key crypto now buf entropy name req s)
  unfolding create_key new_key_record
  create_key-Ends crypto now buf entropy name req s safe w =
      raise_if-Ends AreKeysWellFormed s (name == "") _ _ w λ _.
        raise_if-Ends AreKeysWellFormed s (req.kty == "") _ _ w λ _.
          raise_if-Ends AreKeysWellFormed s (contains name s.deleted_keys) _ _ w λ absent.
            lift-Ends AreKeysWellFormed s _ _ w (or_bad_request-safe _ _ safe)
              λ made. append_key-Ends name _ made.0 s refl absent w

  pub import_key-Ends :
      (crypto : KeyCrypto M) (now : ℕ) (buf : List ℕ) (name : String) (req : ImportKeyRequest)
      (s : Store M)
      → crypto.import_key req.key "" ≢ panic
      → AreKeysWellFormed s
      → Ends AreKeysWellFormed (import_key crypto now buf name req s)
  unfolding import_key new_key_record
  import_key-Ends crypto now buf name req s safe w =
      raise_if-Ends AreKeysWellFormed s (name == "") _ _ w λ _.
        raise_if-Ends AreKeysWellFormed s (req.key.kty == "") _ _ w λ _.
          raise_if-Ends AreKeysWellFormed s (contains name s.deleted_keys) _ _ w λ absent.
            lift-Ends AreKeysWellFormed s _ _ w (or_bad_request-safe _ _ safe)
              λ made. append_key-Ends name _ made.0 s refl absent w

  pub get_key-Ends :
      (name version : String) (s : Store M)
      → AreKeysWellFormed s
      → Ends AreKeysWellFormed (get_key name version s)
  unfolding get_key
  get_key-Ends name version s w = ground arith

  pub update_key-Ends :
      (now : ℕ) (name version : String) (req : UpdateKeyRequest) (s : Store M)
      → AreKeysWellFormed s
      → Ends AreKeysWellFormed (update_key now name version req s)
  unfolding update_key updated_key
  update_key-Ends now name version req s w =
      or_raise-Ends AreKeysWellFormed s (lookup name s.keys) _ _ w λ entry found.
        or_raise-Ends AreKeysWellFormed s (find_key_version entry version) _ _ w λ ver e.
          let h = w.live_entry name entry found in
          insert-IsWellFormed name _ s.keys s.deleted_keys
            (change-IsEntry name version _ entry (find-named name version entry h e) h)
            (w.disjoint name entry found) w

  pub list_keys-Ends :
      (m : ℤ) (token : String) (s : Store M)
      → AreKeysWellFormed s
      → Ends AreKeysWellFormed (list_keys m token s)
  unfolding list_keys
  list_keys-Ends m token s w = elim (paginate_cases (sort_strings (keys s.keys)) token m) [
    | inl refused ↦ rw refused w
    | inr (k, e) ↦ rw e w
  ]

  pub list_key_versions-Ends :
      (name : String) (m : ℤ) (token : String) (s : Store M)
      → AreKeysWellFormed s
      → Ends AreKeysWellFormed (list_key_versions name m token s)
  unfolding list_key_versions
  list_key_versions-Ends name m token s w =
      or_raise-Ends AreKeysWellFormed s (lookup name s.keys) _ _ w λ entry found.
        elim (paginate_cases (map clone_of (reverse entry.versions)) token m) [
          | inl refused ↦ rw refused w
          | inr (k, e) ↦ rw e w
        ]
