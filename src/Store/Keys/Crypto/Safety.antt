-- ===== src/Store/Keys/Crypto/Safety.antt =====
-- None of the cryptographic operations of internal/store/keys.go reads a nil pointer or changes the
-- maps of keys, where internal/crypto does not panic.
use azure_keyvault_emulator.Prelude.{String, ◌≢◌, refl, arith}
use azure_keyvault_emulator.Prelude.Outcome.{
  Outcome, ok, err, panic, Ends, lift, then-Ends, lift-Ends,
}
use azure_keyvault_emulator.Model.{EncryptRequest, SignRequest, VerifyRequest}
use azure_keyvault_emulator.Crypto.Interface.{KeyCrypto, Bytes}
use azure_keyvault_emulator.Store.{Store}
use azure_keyvault_emulator.Store.Errors.{Error}
use azure_keyvault_emulator.Store.Keys.Safety.{AreKeysWellFormed, or_bad_request-safe}
use azure_keyvault_emulator.Store.Keys.Crypto.{
  key_material, decoded, decoded_iv, encrypt, decrypt, sign, verify, wrap_key, unwrap_key,
  bad_value, bad_digest,
}

module _ {M : Type 0} (crypto : KeyCrypto M) where
  key_material-Ends :
      (name version : String) (s : Store M)
      → AreKeysWellFormed s
      → Ends AreKeysWellFormed (key_material name version s)
  unfolding key_material
  key_material-Ends name version s w = ground arith

  decoded-Ends :
      (message t : String) (s : Store M)
      → AreKeysWellFormed s
      → Ends AreKeysWellFormed (decoded crypto message t s)
  unfolding decoded
  decoded-Ends message t s w = ground arith

  decoded_iv-Ends :
      (t : String) (s : Store M)
      → AreKeysWellFormed s
      → Ends AreKeysWellFormed (decoded_iv crypto t s)
  unfolding decoded_iv
  decoded_iv-Ends t s w =
      ground (arith, decoded-Ends "The provided iv is not valid base64url data." t s w)

  lifted-Ends :
      {A : Type 0} (s : Store M)
      → AreKeysWellFormed s
      → (r : Outcome Error A) → r ≢ panic
      → Ends AreKeysWellFormed (lift r s)
  lifted-Ends s w (ok a) safe = w
  lifted-Ends s w (err e) safe = w
  lifted-Ends s w panic safe = absurd (safe refl)

  pub encrypt-Ends :
      (entropy : Bytes) (name version : String) (req : EncryptRequest) (s : Store M)
      → ((m : M) (kty : String) (p iv : Bytes) → crypto.encrypt entropy m kty req.alg p iv ≢ panic)
      → AreKeysWellFormed s
      → Ends AreKeysWellFormed (encrypt crypto entropy name version req s)
  unfolding encrypt
  encrypt-Ends entropy name version req s safe w =
      then-Ends AreKeysWellFormed _ _ (key_material-Ends name version s w) λ ver s w.
        then-Ends AreKeysWellFormed _ _ (decoded-Ends bad_value req.value s w) λ value s w.
          then-Ends AreKeysWellFormed _ _ (decoded_iv-Ends req.iv s w) λ iv s w.
            lift-Ends AreKeysWellFormed s _ _ w
              (or_bad_request-safe "InvalidOperation" _
                (safe ver.material ver.record_.key.kty value iv))
              λ _. w

  pub decrypt-Ends :
      (name version : String) (req : EncryptRequest) (s : Store M)
      → ((m : M) (kty : String) (c iv : Bytes) → crypto.decrypt m kty req.alg c iv ≢ panic)
      → AreKeysWellFormed s
      → Ends AreKeysWellFormed (decrypt crypto name version req s)
  unfolding decrypt
  decrypt-Ends name version req s safe w =
      then-Ends AreKeysWellFormed _ _ (key_material-Ends name version s w) λ ver s w.
        then-Ends AreKeysWellFormed _ _ (decoded-Ends bad_value req.value s w) λ value s w.
          then-Ends AreKeysWellFormed _ _ (decoded_iv-Ends req.iv s w) λ iv s w.
            lift-Ends AreKeysWellFormed s _ _ w
              (or_bad_request-safe "InvalidOperation" _
                (safe ver.material ver.record_.key.kty value iv))
              λ _. w

  pub sign-Ends :
      (entropy : Bytes) (name version : String) (req : SignRequest) (s : Store M)
      → ((m : M) (kty : String) (d : Bytes) → crypto.sign entropy m kty req.alg d ≢ panic)
      → AreKeysWellFormed s
      → Ends AreKeysWellFormed (sign crypto entropy name version req s)
  unfolding sign
  sign-Ends entropy name version req s safe w =
      then-Ends AreKeysWellFormed _ _ (key_material-Ends name version s w) λ ver s w.
        then-Ends AreKeysWellFormed _ _ (decoded-Ends bad_value req.value s w) λ value s w.
          lift-Ends AreKeysWellFormed s _ _ w
            (or_bad_request-safe "InvalidOperation" _ (safe ver.material ver.record_.key.kty value))
            λ _. w

  pub verify-Ends :
      (name version : String) (req : VerifyRequest) (s : Store M)
      → ((m : M) (kty : String) (d sig : Bytes) → crypto.verify m kty req.alg d sig ≢ panic)
      → AreKeysWellFormed s
      → Ends AreKeysWellFormed (verify crypto name version req s)
  unfolding verify
  verify-Ends name version req s safe w =
      then-Ends AreKeysWellFormed _ _ (key_material-Ends name version s w) λ ver s w.
        then-Ends AreKeysWellFormed _ _ (decoded-Ends bad_digest req.digest s w) λ digest s w.
          then-Ends AreKeysWellFormed _ _ (decoded-Ends bad_value req.value s w) λ value s w.
            lifted-Ends s w _ (
              or_bad_request-safe "InvalidOperation" _
                (safe ver.material ver.record_.key.kty digest value))

  pub wrap_key-Ends :
      (entropy : Bytes) (name version : String) (req : EncryptRequest) (s : Store M)
      → ((m : M) (kty : String) (p : Bytes) → crypto.wrap entropy m kty req.alg p ≢ panic)
      → AreKeysWellFormed s
      → Ends AreKeysWellFormed (wrap_key crypto entropy name version req s)
  unfolding wrap_key
  wrap_key-Ends entropy name version req s safe w =
      then-Ends AreKeysWellFormed _ _ (key_material-Ends name version s w) λ ver s w.
        then-Ends AreKeysWellFormed _ _ (decoded-Ends bad_value req.value s w) λ value s w.
          lift-Ends AreKeysWellFormed s _ _ w
            (or_bad_request-safe "InvalidOperation" _ (safe ver.material ver.record_.key.kty value))
            λ _. w

  pub unwrap_key-Ends :
      (name version : String) (req : EncryptRequest) (s : Store M)
      → ((m : M) (kty : String) (c : Bytes) → crypto.unwrap m kty req.alg c ≢ panic)
      → AreKeysWellFormed s
      → Ends AreKeysWellFormed (unwrap_key crypto name version req s)
  unfolding unwrap_key
  unwrap_key-Ends name version req s safe w =
      then-Ends AreKeysWellFormed _ _ (key_material-Ends name version s w) λ ver s w.
        then-Ends AreKeysWellFormed _ _ (decoded-Ends bad_value req.value s w) λ value s w.
          lift-Ends AreKeysWellFormed s _ _ w
            (or_bad_request-safe "InvalidOperation" _ (safe ver.material ver.record_.key.kty value))
            λ _. w
