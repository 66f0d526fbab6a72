-- ===== src/Store/Keys/Crypto/SignatureTests.antt =====
-- A key on a curve, created in internal/store/keys.go, that signs and verifies a digest.
use mathlib.Core.Path.{subst}
use azure_keyvault_emulator.Prelude.{
  ℕ, ◌^◌, ◌%◌, ◌<◌, String, Bool, ◌≡◌, refl, none, some, true, false, [], ◌∷◌, arith, eqb, ◌&&◌,
}
use azure_keyvault_emulator.Prelude.Outcome.{ok, ok-injective}
use azure_keyvault_emulator.Prelude.Text.Decimal.{pos}
use azure_keyvault_emulator.Prelude.Text.Hex.{
  AreBytes, hex_decode, hex_value, hex_encode, hex_digit,
}
use azure_keyvault_emulator.Model.{CreateKeyRequest, SignRequest}
use azure_keyvault_emulator.Crypto.Interface.{Bytes}
use azure_keyvault_emulator.Crypto.Keys.{
  Packages, KeyMaterial, Curve, p256, p384, p521, coordinate_size, bit_size, set_bytes, blank_key,
  resolve_curve, ecdsa_to_jwk, int_bytes, int_bytes_onto, pad_bytes,
}
use azure_keyvault_emulator.Crypto.Keys.Operations as Ops
use azure_keyvault_emulator.Crypto.Keys.Signatures.{IsSigner}
use azure_keyvault_emulator.Store.{Store, KeyRecord, new_store}
use azure_keyvault_emulator.Store.Keys.{create_key, append_key, find_key_version, latest_key}
use azure_keyvault_emulator.Store.Keys.Records.{
  default_key_ops, new_key_record, clone_key_record, or_bad_request,
}
use azure_keyvault_emulator.Prelude.Dict.{lookup, insert}
use azure_keyvault_emulator.Store.Entries.{put_version, appended}
use azure_keyvault_emulator.Crypto.Keys.Generation.{generate_key}
use azure_keyvault_emulator.Store.Metadata.{
  recovery_level, recoverable_days, build_attributes, clone_attributes, clone_tags, new_version,
}
use azure_keyvault_emulator.Store.Keys.Crypto.{sign, verify, key_material, decoded}
use azure_keyvault_emulator.Store.Keys.Crypto.RoundTrips.{Base64Law}
use azure_keyvault_emulator.Store.Keys.Crypto.Signatures.{verify-sign_created}
use azure_keyvault_emulator.Store.Keys.Crypto.Tests.{go, law}

-- A signature is the last byte of the public key and that of the digest.
abbrev mark : ℕ → Bytes → Bytes
mark key digest = key % 256 ∷ set_bytes 0 digest % 256 ∷ []

abbrev is_mark : ℕ → Bytes → Bytes → Bool
is_mark key digest [] = false
is_mark key digest (a ∷ []) = false
is_mark key digest (a ∷ b ∷ rest) = eqb a (key % 256) && eqb b (set_bytes 0 digest % 256)

abbrev signing : Packages
signing = record go {
  rsa_generate_key = λ entropy size.
      ok (record { public = record { n = set_bytes 0 entropy; e = 65537 }; d = 0; primes = [] });
  ecdsa_generate_key = λ entropy curve.
      ok (record { public = record { curve = curve; x = set_bytes 0 entropy; y = 0 }; d = 0 });
  sign_pss = λ random priv hash digest. ok (mark priv.public.n digest);
  sign_pkcs1v15 = λ priv hash digest. ok (mark priv.public.n digest);
  verify_pss = λ key hash digest sig. is_mark key.n digest sig;
  verify_pkcs1v15 = λ key hash digest sig. is_mark key.n digest sig;
  ecdsa_sign = λ random priv digest. ok (priv.public.x % 256, set_bytes 0 digest % 256);
  ecdsa_verify = λ key digest r s. is_mark key.x digest (r ∷ s ∷ []);
}

mark-AreBytes : (key : ℕ) (digest : Bytes) → AreBytes (mark key digest)
mark-AreBytes key digest = (omega arith, (omega arith, tt))

is_mark-mark : (key : ℕ) (digest : Bytes) → is_mark key digest (mark key digest) ≡ true
is_mark-mark key digest = ground arith

fits : (curve : Curve) (n : ℕ) → n % 256 < 256 ^ coordinate_size curve
unfolding coordinate_size bit_size
fits p256 n = omega arith
fits p384 n = omega arith
fits p521 n = omega arith

signing-IsSigner : IsSigner signing
signing-IsSigner = record {
  pss = λ _ _ priv _ _ _ digest sig e.
      subst (λ x. AreBytes x × (is_mark priv.public.n digest x ≡ true)) (ok-injective e)
        (mark-AreBytes priv.public.n digest, is_mark-mark priv.public.n digest);
  pkcs1v15 = λ _ _ priv _ _ digest sig e.
      subst (λ x. AreBytes x × (is_mark priv.public.n digest x ≡ true)) (ok-injective e)
        (mark-AreBytes priv.public.n digest, is_mark-mark priv.public.n digest);
  ecdsa = λ _ _ priv _ _ digest r s e.
      subst
        (λ (x : ℕ × ℕ).
          (x.0 < 256 ^ coordinate_size priv.public.curve)
          × (x.1 < 256 ^ coordinate_size priv.public.curve)
          × (is_mark priv.public.x digest (x.0 ∷ x.1 ∷ []) ≡ true))
        (ok-injective e)
        (
          fits priv.public.curve priv.public.x,
          fits priv.public.curve (set_bytes 0 digest),
          is_mark-mark priv.public.x digest,
        );
}

signing_law : Base64Law (Ops.key_crypto signing)
signing_law = record {
  decode-encode = law.decode-encode;
  decode-empty = law.decode-empty;
  decode-AreBytes = law.decode-AreBytes;
}

abbrev request : CreateKeyRequest
request = record {
  kty = "EC";
  key_size = pos 0;
  key_ops = [];
  attributes = none;
  tags = none;
  crv = "P-256";
  value = "";
}

abbrev s : Store KeyMaterial
s = new_store

abbrev buf : Bytes
buf = 10 ∷ 255 ∷ []

abbrev entropy : Bytes
entropy = 1 ∷ 2 ∷ []

abbrev first : KeyRecord
first = record {
  name = "signer";
  version = "0aff";
  key = record (blank_key "" "EC" ("sign" ∷ "verify" ∷ [])) {
    crv = "P-256";
    x = "0000000000000000000000000000000000000000000000000000000000000102";
    y = "0000000000000000000000000000000000000000000000000000000000000000";
  };
  attributes = record {
    enabled = none;
    not_before = none;
    expires = none;
    created = 100;
    updated = 100;
    recovery_level = recovery_level;
    recoverable_days = recoverable_days;
  };
  tags = none;
}

abbrev sign_request : SignRequest
sign_request = record { alg = "ES256"; value = "00ff" }

created : (create_key (Ops.key_crypto signing) 100 buf entropy "signer" request s).0 ≡ ok first
unfolding create_key append_key lookup insert or_bad_request generate_key resolve_curve
    clone_key_record new_key_record ecdsa_to_jwk hex_encode hex_digit int_bytes int_bytes_onto
    pad_bytes set_bytes bit_size coordinate_size default_key_ops build_attributes clone_attributes
    clone_tags new_version put_version appended
created = refl

abbrev signature : String
signature =
    "000000000000000000000000000000000000000000000000000000000000000200000000000000000000000000000000000000000000000000000000000000ff"

signed :
    (sign
      (Ops.key_crypto signing)
      []
      "signer"
      ""
      sign_request
      (create_key (Ops.key_crypto signing) 100 buf entropy "signer" request s).1).0
    ≡ ok signature
unfolding create_key append_key lookup insert or_bad_request generate_key resolve_curve
    clone_key_record new_key_record ecdsa_to_jwk hex_encode hex_digit int_bytes int_bytes_onto
    pad_bytes set_bytes bit_size coordinate_size default_key_ops build_attributes clone_attributes
    clone_tags new_version put_version appended sign key_material decoded find_key_version
    latest_key hex_decode hex_value Ops.sign Ops.signature_bytes
signed = refl

read : (Ops.key_crypto signing).decode_base64_url "00ff" ≡ some (0 ∷ 255 ∷ [])
unfolding hex_decode hex_value
read = refl

verify-sign_created_example :
    verify
      (Ops.key_crypto signing)
      "signer"
      ""
      (record { alg = "ES256"; digest = "00ff"; value = signature })
      (create_key (Ops.key_crypto signing) 100 buf entropy "signer" request s).1
    ≡ (ok true, (create_key (Ops.key_crypto signing) 100 buf entropy "signer" request s).1)
verify-sign_created_example =
    verify-sign_created signing signing-IsSigner signing_law 100 buf entropy "signer" request s
      created [] (0 ∷ 255 ∷ []) sign_request signature read signed
