-- ===== src/Crypto/Interface.antt =====
-- What the operations of internal/store use of internal/crypto. `M` is the
-- type of `KeyMaterial`; a list of numbers is a `[]byte`; an error is its text. The bytes that an
-- operation reads from `crypto/rand` are its first argument.
use azure_keyvault_emulator.Prelude.{ℕ, String, Bool, Option, List}
use azure_keyvault_emulator.Prelude.Outcome.{Outcome}
use azure_keyvault_emulator.Prelude.Text.Decimal.{ℤ}
use azure_keyvault_emulator.Model.{JsonWebKey, CertificatePolicy}

abbrev pub Bytes : Type 0
Bytes = List ℕ

abbrev pub Fallible : Type 0 → Type 0
Fallible A = Outcome String A

pub record KeyCrypto (M : Type 0) : Type 0 where
  -- GenerateKey(kty, keySize, crv, kid, keyOps)
  pub generate_key : Bytes → String → ℤ → String → String → List String → Fallible (M × JsonWebKey)
  -- ImportKey(jwk, kid)
  pub import_key : JsonWebKey → String → Fallible (M × JsonWebKey)
  -- Encrypt(material, kty, alg, plaintext, iv) and Decrypt
  pub encrypt : Bytes → M → String → String → Bytes → Bytes → Fallible (Bytes × Bytes)
  pub decrypt : M → String → String → Bytes → Bytes → Fallible (Bytes × Bytes)
  -- Sign(material, kty, alg, digest) and Verify(material, kty, alg, digest, signature)
  pub sign : Bytes → M → String → String → Bytes → Fallible Bytes
  pub verify : M → String → String → Bytes → Bytes → Fallible Bool
  -- Wrap(material, kty, alg, plaintext) and Unwrap(material, kty, alg, ciphertext)
  pub wrap : Bytes → M → String → String → Bytes → Fallible Bytes
  pub unwrap : M → String → String → Bytes → Fallible Bytes
  pub encode_base64_url : Bytes → String
  pub decode_base64_url : String → Option Bytes

-- `CertOptions`: the parent is the two pointers, which are set together.
pub record CertOptions (C P : Type 0) : Type 0 where
  pub cert_type : String
  pub issuer : Option (C × P)

-- `C`, `P` and `K` are the types `x509.Certificate`, `rsa.PrivateKey` and `rsa.PublicKey`.
pub record CertificateCrypto (M C P K : Type 0) : Type 0 where
  -- GenerateCert(name, policy, opts)
  pub generate_cert : Bytes → String → CertificatePolicy → CertOptions C P → Fallible (P × Bytes)
  -- ParseImportedCertificate(value, password): the private key may be nil
  pub parse_imported : String → String → Fallible (C × Option P × Bytes)
  -- RSAToJWK(kid, kty, ops, pub)
  pub rsa_to_jwk : String → String → List String → K → JsonWebKey
  -- `cert.Raw`, and `cert.PublicKey` if it is of RSA
  pub raw : C → Bytes
  pub rsa_public_key : C → Option K
  -- `&priv.PublicKey`, and `KeyMaterial` of a private and of a public key
  pub public_key : P → K
  pub private_material : P → M
  pub public_material : K → M
  -- `pem.EncodeToMemory` of a type and bytes, and `x509.MarshalPKCS1PrivateKey`
  pub encode_pem : String → Bytes → Bytes
  pub marshal_private_key : P → Bytes
  -- `string(…)` of bytes, and the verb %q of `fmt`
  pub text_of : Bytes → String
  pub quoted : String → String
