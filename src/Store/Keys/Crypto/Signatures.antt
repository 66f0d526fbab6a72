-- ===== src/Store/Keys/Crypto/Signatures.antt =====
-- CreateKey, Sign and Verify of internal/store/keys.go, through internal/crypto/keys.go.
use azure_keyvault_emulator.Prelude.{ℕ, String, ◌≡◌, true, Option, some, List, arith, ◌==◌, eq_iff}
use azure_keyvault_emulator.Prelude.Dict.{lookup, contains, lookup-insert}
use azure_keyvault_emulator.Prelude.Outcome.{ok}
use azure_keyvault_emulator.Prelude.Outcome.Yields.{Yields, yielded, raise_if-Yields, lift-Yields}
use azure_keyvault_emulator.Model.{CreateKeyRequest, SignRequest}
use azure_keyvault_emulator.Crypto.Interface.{Bytes}
use azure_keyvault_emulator.Crypto.Keys.{Packages, KeyMaterial}
use azure_keyvault_emulator.Crypto.Keys.Generation.{generate_key}
use azure_keyvault_emulator.Crypto.Keys.Operations as Ops
use azure_keyvault_emulator.Crypto.Keys.Signatures.{IsSigner, IsGenerated, generate_key-IsGenerated}
use azure_keyvault_emulator.Crypto.Keys.Signatures as Pairs
use azure_keyvault_emulator.Store.{Store, KeyRecord, KeyVersion, KeyEntry}
use azure_keyvault_emulator.Store.Entries.{appended, put_version}
use azure_keyvault_emulator.Store.Entries.Appended.{last?-appended}
use azure_keyvault_emulator.Store.Keys.{create_key, append_key, latest_key, find_key_version}
use azure_keyvault_emulator.Store.Keys.Records.{new_key_record, default_key_ops, or_bad_request}
use azure_keyvault_emulator.Store.Keys.Crypto.{key_material, sign, verify}
use azure_keyvault_emulator.Store.Keys.Crypto.RoundTrips.{
  Base64Law, Verifies, or_bad_request-ok, verify-sign,
}

module _ {M : Type 0} where
  key_material-appended :
      (name : String) (new : KeyVersion M) (t : Store M) (o : Option (KeyEntry M))
      → lookup name t.keys ≡ some (appended o new)
      → key_material name "" t ≡ (ok new, t)
  unfolding key_material find_key_version latest_key
  key_material-appended name new t o h = ground (arith, h, last?-appended o new)

module _ (go : Packages) (name : String) where
  -- The newest version of the key has a material that internal/crypto has generated.
  abbrev HasGenerated : KeyRecord → Store KeyMaterial → Type 0
  HasGenerated r t =
      (ver : KeyVersion KeyMaterial) × (key_material name "" t ≡ (ok ver, t))
      × IsGenerated go ver.material

  append_key-HasGenerated :
      (new : KeyRecord) (material : KeyMaterial) (s : Store KeyMaterial)
      → IsGenerated go material
      → Yields HasGenerated (append_key name new material s)
  unfolding append_key put_version
  append_key-HasGenerated new material s generated =
      let ver : KeyVersion KeyMaterial = record { record_ = new; material = material } in
      let entry = appended (lookup name s.keys) ver in
      (
        ver,
        key_material-appended name ver _ (lookup name s.keys)
            (ground (arith, lookup-insert name name entry s.keys, eq_iff name name)),
        generated,
      )

  create_key-HasGenerated :
      (now : ℕ) (buf entropy : List ℕ) (req : CreateKeyRequest) (s : Store KeyMaterial)
      → Yields HasGenerated (create_key (Ops.key_crypto go) now buf entropy name req s)
  unfolding create_key
  create_key-HasGenerated now buf entropy req s =
      raise_if-Yields HasGenerated s (name == "") _ _ λ _.
        raise_if-Yields HasGenerated s (req.kty == "") _ _ λ _.
          raise_if-Yields HasGenerated s (contains name s.deleted_keys) _ _ λ _.
            lift-Yields HasGenerated s
              (or_bad_request "BadParameter" (
                generate_key go entropy req.kty req.key_size req.crv ""
                  (default_key_ops req.kty req.key_ops)))
              _
              λ made e.
                append_key-HasGenerated (new_key_record now buf name made.1 req.attributes req.tags)
                  made.0 s
                  (generate_key-IsGenerated go entropy req.kty req.key_size req.crv ""
                    (default_key_ops req.kty req.key_ops) made
                    (or_bad_request-ok (Ops.key_crypto go) "BadParameter" _ e))

module _ (go : Packages) (signer : IsSigner go) (law : Base64Law (Ops.key_crypto go)) where
  generated-Verifies :
      (m : KeyMaterial) (kty : String) → IsGenerated go m → Verifies (Ops.key_crypto go) m kty
  generated-Verifies m kty generated random alg digest sig signed =
      Pairs.verify-sign go signer m generated random kty alg digest sig signed

  -- After a CreateKey that succeeds, Verify accepts, for the same algorithm and digest, what Sign
  -- answers with the new key: if base64 is undone by its inverse, and if `crypto/rsa` and
  -- `crypto/ecdsa` verify what they sign with a key pair that they have generated, the numbers of an
  -- ECDSA signature being no wider than a coordinate of its curve.
  pub verify-sign_created :
      (now : ℕ) (buf entropy : List ℕ) (name : String) (req : CreateKeyRequest)
      (s : Store KeyMaterial) {r : KeyRecord}
      → (create_key (Ops.key_crypto go) now buf entropy name req s).0 ≡ ok r
      → (random digest : Bytes) (request : SignRequest) (sig : String)
      → (Ops.key_crypto go).decode_base64_url request.value ≡ some digest
      → (sign
          (Ops.key_crypto go)
          random
          name
          ""
          request
          (create_key (Ops.key_crypto go) now buf entropy name req s).1).0
        ≡ ok sig
      → verify
          (Ops.key_crypto go)
          name
          ""
          (record { alg = request.alg; digest = request.value; value = sig })
          (create_key (Ops.key_crypto go) now buf entropy name req s).1
        ≡ (ok true, (create_key (Ops.key_crypto go) now buf entropy name req s).1)
  verify-sign_created now buf entropy name req s created random digest request sig decodes signed =
      let (ver, found, generated) =
        yielded (HasGenerated go name) (create_key (Ops.key_crypto go) now buf entropy name req s)
          (create_key-HasGenerated go name now buf entropy req s) created in
      verify-sign (Ops.key_crypto go) law name ""
        (create_key (Ops.key_crypto go) now buf entropy name req s).1 found
        (generated-Verifies ver.material ver.record_.key.kty generated) random digest request sig
        decodes signed
