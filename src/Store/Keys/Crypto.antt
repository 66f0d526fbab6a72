-- ===== src/Store/Keys/Crypto.antt =====
-- The cryptographic operations of internal/store/keys.go: keyMaterial, and Encrypt, Decrypt, Sign,
-- Verify, WrapKey and UnwrapKey, over an implementation of `KeyCrypto`.
pub mod RoundTrips
pub mod Safety
pub mod Symmetric
pub mod Signatures
pub mod SignatureTests
pub mod Tests
use azure_keyvault_emulator.Prelude.{
  ℕ, String, Bool, none, some, List, [], ◌==◌, not, is_empty, if◌then◌else◌,
}
use azure_keyvault_emulator.Prelude.Dict.{lookup}
use azure_keyvault_emulator.Prelude.Outcome.{
  Outcome, ok, err, Method, pure, gets, or_raise, lift, continue, ◌>>=◌,
}
use azure_keyvault_emulator.Model.{EncryptRequest, SignRequest, VerifyRequest}
use azure_keyvault_emulator.Crypto.Interface.{KeyCrypto, Bytes}
use azure_keyvault_emulator.Store.Errors.{Error, bad_parameter}
use azure_keyvault_emulator.Store.{Store, Call, KeyVersion}
use azure_keyvault_emulator.Store.Keys.{find_key_version}
use azure_keyvault_emulator.Store.Keys.Records.{key_not_found, or_bad_request}

abbrev pub bad_digest : String
bad_digest = "The provided digest is not valid base64url data."

abbrev pub bad_value : String
bad_value = "The provided value is not valid base64url data."

module _ {M : Type 0} where
  unfoldable pub key_material : String → String → Call M (KeyVersion M)
  key_material name version = do
    found ← gets (λ s. lookup name s.keys)
    entry ← or_raise found (key_not_found name)
    or_raise (find_key_version entry version) (key_not_found name)

  -- `kvcrypto.DecodeBase64URL` of a field, with the error of the handler of its failure.
  unfoldable pub decoded : KeyCrypto M → String → String → Call M Bytes
  decoded crypto message text = or_raise (crypto.decode_base64_url text) (bad_parameter message)

  -- `if req.IV != "" { … }`: no vector is a nil slice.
  unfoldable pub decoded_iv : KeyCrypto M → String → Call M Bytes
  unfolding decoded
  decoded_iv crypto text =
      if text == ""
      then pure []
      else decoded crypto "The provided iv is not valid base64url data." text

  -- The text of the vector that is answered.
  unfoldable pub encoded_iv : KeyCrypto M → Bytes → String
  encoded_iv crypto iv = if is_empty iv then "" else crypto.encode_base64_url iv

  unfoldable pub encrypt :
      KeyCrypto M → Bytes → String → String → EncryptRequest → Call M (String × String)
  encrypt crypto entropy name version req = do
    ver ← key_material name version
    value ← decoded crypto bad_value req.value
    iv ← decoded_iv crypto req.iv
    (ciphertext, out_iv) ← lift (
        or_bad_request "InvalidOperation"
          (crypto.encrypt entropy ver.material ver.record_.key.kty req.alg value iv))
    pure (crypto.encode_base64_url ciphertext, encoded_iv crypto out_iv)

  unfoldable pub decrypt : KeyCrypto M → String → String → EncryptRequest → Call M (String × String)
  decrypt crypto name version req = do
    ver ← key_material name version
    value ← decoded crypto bad_value req.value
    iv ← decoded_iv crypto req.iv
    (plaintext, out_iv) ← lift (
        or_bad_request "InvalidOperation"
          (crypto.decrypt ver.material ver.record_.key.kty req.alg value iv))
    pure (crypto.encode_base64_url plaintext, encoded_iv crypto out_iv)

  unfoldable pub sign : KeyCrypto M → Bytes → String → String → SignRequest → Call M String
  sign crypto entropy name version req = do
    ver ← key_material name version
    digest ← decoded crypto bad_value req.value
    sig ← lift (
        or_bad_request "InvalidOperation"
          (crypto.sign entropy ver.material ver.record_.key.kty req.alg digest))
    pure (crypto.encode_base64_url sig)

  unfoldable pub verify : KeyCrypto M → String → String → VerifyRequest → Call M Bool
  verify crypto name version req = do
    ver ← key_material name version
    digest ← decoded crypto bad_digest req.digest
    sig ← decoded crypto bad_value req.value
    lift (
        or_bad_request "InvalidOperation"
          (crypto.verify ver.material ver.record_.key.kty req.alg digest sig))

  unfoldable pub wrap_key : KeyCrypto M → Bytes → String → String → EncryptRequest → Call M String
  wrap_key crypto entropy name version req = do
    ver ← key_material name version
    value ← decoded crypto bad_value req.value
    wrapped ← lift (
        or_bad_request "InvalidOperation"
          (crypto.wrap entropy ver.material ver.record_.key.kty req.alg value))
    pure (crypto.encode_base64_url wrapped)

  unfoldable pub unwrap_key : KeyCrypto M → String → String → EncryptRequest → Call M String
  unwrap_key crypto name version req = do
    ver ← key_material name version
    value ← decoded crypto bad_value req.value
    unwrapped ← lift (
        or_bad_request "InvalidOperation"
          (crypto.unwrap ver.material ver.record_.key.kty req.alg value))
    pure (crypto.encode_base64_url unwrapped)
