-- ===== src/Crypto/Keys.antt =====
-- The data of internal/crypto/keys.go: KeyMaterial, the structs of `crypto/rsa` and `crypto/ecdsa`
-- that it holds, what is used of those packages, and the JSON web keys that are made of them.
pub mod Generation
pub mod Operations
pub mod Numbers
pub mod Signatures
use Prim.Native.String.{◌++◌ as text_append}
use azure_keyvault_emulator.Prelude.{
  ℕ, zero, suc, ◌+◌, ◌-◌, ◌*◌, ◌/◌, ◌%◌, String, Bool, Option, none, some, List, [], ◌∷◌, ◌++◌, leb,
  if◌then◌else◌, length, replicate, ◌==◌, ◌||◌,
}
use azure_keyvault_emulator.Prelude.Outcome.{Outcome, ok, err, panic}
use azure_keyvault_emulator.Prelude.Text.Decimal.{ℤ}
use azure_keyvault_emulator.Model.{JsonWebKey}
use azure_keyvault_emulator.Crypto.Interface.{Bytes, Fallible}
use azure_keyvault_emulator.Crypto.Blocks.{BlockCipher}
use azure_keyvault_emulator.Crypto.KeyWrap.{and_then}

pub record RsaPublicKey : Type 0 where
  pub n : ℕ
  pub e : ℕ

-- What `Precompute` adds is not read here.
pub record RsaPrivateKey : Type 0 where
  pub public : RsaPublicKey
  pub d : ℕ
  pub primes : List ℕ

pub data Curve : Type 0 where
  p256 : Curve
  p384 : Curve
  p521 : Curve

pub record EcdsaPublicKey : Type 0 where
  pub curve : Curve
  pub x : ℕ
  pub y : ℕ

pub record EcdsaPrivateKey : Type 0 where
  pub public : EcdsaPublicKey
  pub d : ℕ

pub record KeyMaterial : Type 0 where
  pub rsa : Option RsaPrivateKey
  pub ecdsa : Option EcdsaPrivateKey
  pub aes : Bytes
  pub rsa_pub : Option RsaPublicKey
  pub ecdsa_pub : Option EcdsaPublicKey

abbrev pub no_material : KeyMaterial
no_material = record { rsa = none; ecdsa = none; aes = []; rsa_pub = none; ecdsa_pub = none }

-- `crypto.Hash`, and the two of `sha1` and `sha256` that the OAEP padding is used with.
pub data Hash : Type 0 where
  sha1 : Hash
  sha256 : Hash
  sha384 : Hash
  sha512 : Hash

-- What is used of Go's packages. A verification answers whether it has no error,
-- and `Precompute` may panic on numbers that are no primes.
pub record Packages : Type 0 where
  pub rsa_generate_key : Bytes → ℤ → Fallible RsaPrivateKey
  pub rsa_precompute : RsaPrivateKey → Fallible (Unit {0})
  pub ecdsa_generate_key : Bytes → Curve → Fallible EcdsaPrivateKey
  pub encrypt_oaep : Hash → Bytes → RsaPublicKey → Bytes → Fallible Bytes
  pub decrypt_oaep : Hash → RsaPrivateKey → Bytes → Fallible Bytes
  pub encrypt_pkcs1v15 : Bytes → RsaPublicKey → Bytes → Fallible Bytes
  pub decrypt_pkcs1v15 : RsaPrivateKey → Bytes → Fallible Bytes
  pub sign_pss : Bytes → RsaPrivateKey → Hash → Bytes → Fallible Bytes
  pub sign_pkcs1v15 : RsaPrivateKey → Hash → Bytes → Fallible Bytes
  pub verify_pss : RsaPublicKey → Hash → Bytes → Bytes → Bool
  pub verify_pkcs1v15 : RsaPublicKey → Hash → Bytes → Bytes → Bool
  pub ecdsa_sign : Bytes → EcdsaPrivateKey → Bytes → Fallible (ℕ × ℕ)
  pub ecdsa_verify : EcdsaPublicKey → Bytes → ℕ → ℕ → Bool
  pub new_cipher : Bytes → Fallible BlockCipher
  pub encode_base64 : Bytes → String
  pub decode_base64 : String → Fallible Bytes
  pub quoted : String → String

-- `Params().BitSize`
unfoldable pub bit_size : Curve → ℕ
bit_size p256 = 256
bit_size p384 = 384
bit_size p521 = 521

-- `big.Int.SetBytes`, behind a number that has been read.
unfoldable pub set_bytes : ℕ → Bytes → ℕ
set_bytes acc [] = acc
set_bytes acc (b ∷ bs) = set_bytes (acc * 256 + b) bs

-- `big.Int.Bytes`: no zero in front. A number has no more bytes than its value.
unfoldable pub int_bytes_onto : ℕ → ℕ → Bytes → Bytes
int_bytes_onto zero n out = out
int_bytes_onto (suc fuel) zero out = out
int_bytes_onto (suc fuel) (suc n) out = int_bytes_onto fuel (suc n / 256) (suc n % 256 ∷ out)

unfoldable pub int_bytes : ℕ → Bytes
int_bytes n = int_bytes_onto n n []

unfoldable pub pad_bytes : Bytes → ℕ → Bytes
pad_bytes data_ size =
    if leb size (length data_) then data_ else replicate (size - length data_) 0 ++ data_

abbrev pub blank_key : String → String → List String → JsonWebKey
blank_key kid kty ops = record {
  kid = kid;
  kty = kty;
  key_ops = ops;
  n = "";
  e = "";
  d = "";
  p = "";
  q = "";
  dp = "";
  dq = "";
  qi = "";
  crv = "";
  x = "";
  y = "";
  k = "";
}

unfoldable pub coordinate_size : Curve → ℕ
coordinate_size curve = (bit_size curve + 7) / 8

module _ (go : Packages) where
  unfoldable pub decode_big_int : String → Fallible ℕ
  decode_big_int value = and_then (go.decode_base64 value) λ data_. ok (set_bytes 0 data_)

  unfoldable pub rsa_to_jwk : String → String → List String → RsaPublicKey → JsonWebKey
  rsa_to_jwk kid kty ops pub_ = record (blank_key kid kty ops) {
    n = go.encode_base64 (int_bytes pub_.n);
    e = go.encode_base64 (int_bytes pub_.e);
  }

  unfoldable pub ecdsa_to_jwk : String → String → List String → String → EcdsaPublicKey → JsonWebKey
  ecdsa_to_jwk kid kty ops crv pub_ =
      let size = coordinate_size pub_.curve in
      record (blank_key kid kty ops) {
        crv = crv;
        x = go.encode_base64 (pad_bytes (int_bytes pub_.x) size);
        y = go.encode_base64 (pad_bytes (int_bytes pub_.y) size);
      }

  -- A nil slice is no key.
  unfoldable pub symmetric_to_jwk : String → String → List String → Option Bytes → JsonWebKey
  symmetric_to_jwk kid kty ops none = blank_key kid kty ops
  symmetric_to_jwk kid kty ops (some key) = record (blank_key kid kty ops) {
    k = go.encode_base64 key;
  }

  unfoldable pub resolve_curve : String → Fallible (Curve × String)
  resolve_curve crv =
      if crv == "" || crv == "P-256"
      then ok (p256, "P-256")
      else if crv == "P-384"
      then ok (p384, "P-384")
      else if crv == "P-521"
      then ok (p521, "P-521")
      else err (text_append "unsupported curve " (go.quoted crv))
