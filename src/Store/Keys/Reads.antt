-- ===== src/Store/Keys/Reads.antt =====
-- GetKey after CreateKey, ImportKey and UpdateKey, in internal/store/keys.go.
use azure_keyvault_emulator.Prelude.{
  ℕ, String, ◌≡◌, refl, ◌≢◌, Option, some, List, arith, ◌==◌, eq_iff,
}
use azure_keyvault_emulator.Prelude.Dict.{lookup, contains, lookup-insert}
use azure_keyvault_emulator.Prelude.Outcome.{ok}
use azure_keyvault_emulator.Prelude.Outcome.Yields.{Yields, yielded, raise_if-Yields, lift-Yields}
use azure_keyvault_emulator.Model.{CreateKeyRequest, ImportKeyRequest}
use azure_keyvault_emulator.Crypto.Interface.{KeyCrypto}
use azure_keyvault_emulator.Store.{Store, KeyRecord, KeyVersion, KeyEntry}
use azure_keyvault_emulator.Store.Entries.{appended, put_version}
use azure_keyvault_emulator.Store.Metadata.{new_version}
use azure_keyvault_emulator.Store.Keys.{
  create_key, import_key, get_key, append_key, latest_key, find_key_version,
}
use azure_keyvault_emulator.Store.Keys.Records.{
  new_key_record, clone_key_record, default_key_ops, or_bad_request,
}
use azure_keyvault_emulator.Store.Entries.Appended.{last?-appended}

module _ {M : Type 0} where
  -- What GetKey answers of a name whose newest version has just been appended.
  get_key-appended :
      (name : String) (new : KeyVersion M) (t : Store M) (o : Option (KeyEntry M))
      → lookup name t.keys ≡ some (appended o new)
      → get_key name "" t ≡ (ok (clone_key_record new.record_), t)
  unfolding get_key find_key_version latest_key
  get_key-appended name new t o h = ground (arith, h, last?-appended o new)

  -- The answer `r` is read back, is a version of its own, and the other names are left alone.
  abbrev pub IsReadBack : String → List ℕ → Store M → KeyRecord → Store M → Type 0
  IsReadBack name buf s r t =
      (get_key name "" t ≡ (ok r, t))
      × (r.version ≡ new_version buf)
      × ((j : String) → j ≢ name → lookup j t.keys ≡ lookup j s.keys)

  append_key-Yields :
      (name : String) (buf : List ℕ) (new : KeyRecord) (material : M) (s : Store M)
      → new.version ≡ new_version buf
      → Yields (IsReadBack name buf s) (append_key name new material s)
  unfolding append_key put_version clone_key_record
  append_key-Yields name buf new material s e =
      let entry = appended (lookup name s.keys) (record { record_ = new; material = material }) in
      (
        get_key-appended name (record { record_ = new; material = material }) _ (lookup name s.keys)
            (ground (arith, lookup-insert name name entry s.keys, eq_iff name name)),
        e,
        λ j differ. ground (arith, eq_iff name j, lookup-insert name j entry s.keys),
      )

  create_key-Yields :
      (crypto : KeyCrypto M) (now : ℕ) (buf entropy : List ℕ) (name : String)
      (req : CreateKeyRequest) (s : Store M)
      → Yields (IsReadBack name buf s) (create_key crypto now buf entropy name req s)
  unfolding create_key new_key_record
  create_key-Yields crypto now buf entropy name req s =
      raise_if-Yields (IsReadBack name buf s) s (name == "") _ _ λ _.
        raise_if-Yields (IsReadBack name buf s) s (req.kty == "") _ _ λ _.
          raise_if-Yields (IsReadBack name buf s) s (contains name s.deleted_keys) _ _ λ _.
            lift-Yields (IsReadBack name buf s) s
              (or_bad_request "BadParameter" (
                crypto.generate_key entropy req.kty req.key_size req.crv ""
                  (default_key_ops req.kty req.key_ops)))
              _
              λ made _.
                append_key-Yields name buf
                  (new_key_record now buf name made.1 req.attributes req.tags) made.0 s refl

  import_key-Yields :
      (crypto : KeyCrypto M) (now : ℕ) (buf : List ℕ) (name : String) (req : ImportKeyRequest)
      (s : Store M)
      → Yields (IsReadBack name buf s) (import_key crypto now buf name req s)
  unfolding import_key new_key_record
  import_key-Yields crypto now buf name req s =
      raise_if-Yields (IsReadBack name buf s) s (name == "") _ _ λ _.
        raise_if-Yields (IsReadBack name buf s) s (req.key.kty == "") _ _ λ _.
          raise_if-Yields (IsReadBack name buf s) s (contains name s.deleted_keys) _ _ λ _.
            lift-Yields (IsReadBack name buf s) s
              (or_bad_request "BadParameter" (crypto.import_key req.key "")) _
              λ made _.
                append_key-Yields name buf
                  (new_key_record now buf name
                    (record (made.1) { key_ops = default_key_ops req.key.kty req.key.key_ops })
                    req.attributes req.tags)
                  made.0 s refl

  -- After a CreateKey that succeeds, GetKey with no version answers what CreateKey answered, under
  -- the new version, and the entry of no other name has changed.
  pub get_key-create_key :
      (crypto : KeyCrypto M) (now : ℕ) (buf entropy : List ℕ) (name : String)
      (req : CreateKeyRequest) (s : Store M) {r : KeyRecord}
      → (create_key crypto now buf entropy name req s).0 ≡ ok r
      → IsReadBack name buf s r (create_key crypto now buf entropy name req s).1
  get_key-create_key crypto now buf entropy name req s =
      yielded (IsReadBack name buf s) (create_key crypto now buf entropy name req s)
        (create_key-Yields crypto now buf entropy name req s)

  -- After an ImportKey that succeeds, GetKey with no version answers what ImportKey answered, under
  -- the new version, and the entry of no other name has changed.
  pub get_key-import_key :
      (crypto : KeyCrypto M) (now : ℕ) (buf : List ℕ) (name : String) (req : ImportKeyRequest)
      (s : Store M) {r : KeyRecord}
      → (import_key crypto now buf name req s).0 ≡ ok r
      → IsReadBack name buf s r (import_key crypto now buf name req s).1
  get_key-import_key crypto now buf name req s =
      yielded (IsReadBack name buf s) (import_key crypto now buf name req s)
        (import_key-Yields crypto now buf name req s)
