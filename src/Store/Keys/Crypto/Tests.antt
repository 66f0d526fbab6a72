-- ===== src/Store/Keys/Crypto/Tests.antt =====
-- The theorems on symmetric keys of internal/store/keys.go at a concrete key.
use mathlib.Core.Path.{subst}
use text.Mathlib.Text.{starts_with}
use azure_keyvault_emulator.Prelude.{
  String, ◌≡◌, refl, sym, ◌∙◌, ◌≢◌, Option, none, some, true, false, [], ◌∷◌, arith, eq_iff,
}
use azure_keyvault_emulator.Prelude.Dict.{lookup, contains}
use azure_keyvault_emulator.Prelude.Outcome.{ok, err, panic, ok-injective}
use azure_keyvault_emulator.Prelude.Text.Decimal.{negsuc}
use azure_keyvault_emulator.Prelude.Text.Hex.{
  hex_encode, hex_decode, hex_digit, hex_value, hex_decode-hex_encode, hex_decode-AreBytes,
  AreBytes,
}
use azure_keyvault_emulator.Model.{EncryptRequest, CreateKeyRequest}
use azure_keyvault_emulator.Crypto.Interface.{Bytes, Fallible}
use azure_keyvault_emulator.Crypto.Blocks.{
  BlockCipher, IsPermutation, xor_bytes, xor_bytes-xor_bytes, xor_bytes-IsBlock,
}
use azure_keyvault_emulator.Crypto.KeyWrap.{
  aes_key_wrap, select_aes_key, key_of_size, aes_key_size, map_kw_alg, wrapped,
}
use azure_keyvault_emulator.Crypto.Cbc.{
  encrypt_cbc, cbc_encrypt, vector_of, padded, is_padded, has_suffix,
}
use azure_keyvault_emulator.Crypto.Keys.{Packages, KeyMaterial, no_material, blank_key}
use azure_keyvault_emulator.Crypto.Keys.Operations as Ops
use azure_keyvault_emulator.Store.{Store, KeyVersion, new_store}
use azure_keyvault_emulator.Store.Metadata.{recovery_level, recoverable_days}
use azure_keyvault_emulator.Store.Keys.{create_key, find_key_version, latest_key}
use azure_keyvault_emulator.Store.Keys.Records.{or_bad_request}
use azure_keyvault_emulator.Store.Keys.Crypto.{
  key_material, encrypt, decrypt, wrap_key, unwrap_key, decoded, decoded_iv, encoded_iv,
}
use azure_keyvault_emulator.Store.Keys.Crypto.RoundTrips.{Base64Law}
use azure_keyvault_emulator.Store.Keys.Crypto.Symmetric.{
  IsSound, symmetric-decrypt-encrypt, symmetric-unwrap_key-wrap_key, create_key-negative_size,
}

abbrev or_error : Option Bytes → Fallible Bytes
or_error none = err "illegal base64 data"
or_error (some b) = ok b

abbrev mask_cipher : Bytes → BlockCipher
mask_cipher key = record {
  encrypt_block = λ b. xor_bytes b key;
  decrypt_block = λ b. xor_bytes b key;
}

-- Only what a symmetric key needs: a cipher that xors with the key, and hexadecimal digits.
abbrev pub go : Packages
go = record {
  rsa_generate_key = λ _ _. err "none";
  rsa_precompute = λ _. ok tt;
  ecdsa_generate_key = λ _ _. err "none";
  encrypt_oaep = λ _ _ _ _. err "none";
  decrypt_oaep = λ _ _ _. err "none";
  encrypt_pkcs1v15 = λ _ _ _. err "none";
  decrypt_pkcs1v15 = λ _ _. err "none";
  sign_pss = λ _ _ _ _. err "none";
  sign_pkcs1v15 = λ _ _ _. err "none";
  verify_pss = λ _ _ _ _. false;
  verify_pkcs1v15 = λ _ _ _ _. false;
  ecdsa_sign = λ _ _ _. err "none";
  ecdsa_verify = λ _ _ _ _. false;
  new_cipher = λ key. ok (mask_cipher key);
  encode_base64 = hex_encode;
  decode_base64 = λ t. or_error (hex_decode t);
  quoted = λ t. t;
}

mask_cipher-IsPermutation : (key : Bytes) → IsPermutation (mask_cipher key)
mask_cipher-IsPermutation key = record {
  encrypt-IsBlock = λ b h. xor_bytes-IsBlock 16 b key h;
  decrypt-encrypt = λ b h. xor_bytes-xor_bytes b key h.0;
}

sound : IsSound go
sound key c e = subst IsPermutation (ok-injective e) (mask_cipher-IsPermutation key)

some_or_error : (o : Option Bytes) → Ops.decoded_or_none (or_error o) ≡ o
some_or_error none = refl
some_or_error (some b) = refl

pub law : Base64Law (Ops.key_crypto go)
unfolding hex_decode
law = record {
  decode-encode = λ b h. some_or_error (hex_decode (hex_encode b)) ∙ hex_decode-hex_encode b h;
  decode-empty = refl;
  decode-AreBytes = λ t b h. hex_decode-AreBytes t b (sym (some_or_error (hex_decode t)) ∙ h);
}

abbrev aes_key : Bytes
aes_key = 1 ∷ 2 ∷ 3 ∷ 4 ∷ 5 ∷ 6 ∷ 7 ∷ 8 ∷ 9 ∷ 10 ∷ 11 ∷ 12 ∷ 13 ∷ 14 ∷ 15 ∷ 16 ∷ []

abbrev newest : KeyVersion KeyMaterial
newest = record {
  record_ = record {
    name = "kek";
    version = "0aff";
    key = blank_key "" "oct" ("encrypt" ∷ "wrapKey" ∷ []);
    attributes = record {
      enabled = none;
      not_before = none;
      expires = none;
      created = 100;
      updated = 100;
      recovery_level = recovery_level;
      recoverable_days = recoverable_days;
    };
    tags = none;
  };
  material = record no_material { aes = aes_key };
}

abbrev one : Store KeyMaterial
one = record new_store { keys = ("kek", record { versions = newest ∷ [] }) ∷ [] }

found : key_material "kek" "" one ≡ (ok newest, one)
unfolding key_material lookup find_key_version latest_key
found = refl

no_rsa : starts_with "oct" "RSA" ≡ false
no_rsa = refl

is_oct : starts_with "oct" "oct" ≡ true
is_oct = refl

-- The text of eight bytes, and that of the code and of the vector.
abbrev plain : Bytes
plain = 10 ∷ 20 ∷ 30 ∷ 40 ∷ 50 ∷ 60 ∷ 70 ∷ 80 ∷ []

abbrev request : EncryptRequest
request = record { alg = "A128KW"; value = hex_encode plain; iv = "" }

plain-AreBytes : AreBytes plain
plain-AreBytes = (
  omega arith,
  (
    omega arith,
    (omega arith, (omega arith, (omega arith, (omega arith, (omega arith, (omega arith, tt)))))),
  ),
)

plain_read : (Ops.key_crypto go).decode_base64_url (hex_encode plain) ≡ some plain
plain_read = law.decode-encode plain plain-AreBytes

wraps :
    (wrap_key (Ops.key_crypto go) [] "kek" "" request one).0
    ≡ ok (hex_encode (wrapped (mask_cipher aes_key) plain))
unfolding wrap_key key_material lookup find_key_version latest_key decoded or_bad_request Ops.wrap
    aes_key_wrap select_aes_key key_of_size aes_key_size map_kw_alg hex_encode hex_decode hex_digit
    hex_value
wraps = refl

-- Two blocks would do; one is enough without a padding.
abbrev block : Bytes
block = 10 ∷ 20 ∷ 30 ∷ 40 ∷ 50 ∷ 60 ∷ 70 ∷ 80 ∷ 10 ∷ 20 ∷ 30 ∷ 40 ∷ 50 ∷ 60 ∷ 70 ∷ 80 ∷ []

abbrev code : Bytes
code = cbc_encrypt (mask_cipher aes_key) 1 aes_key block

abbrev encrypt_request : EncryptRequest
encrypt_request = record { alg = "A128CBC"; value = hex_encode block; iv = "" }

block-AreBytes : AreBytes block
block-AreBytes = (
  omega arith,
  (
    omega arith,
    (
      omega arith,
      (omega arith, (omega arith, (omega arith, (omega arith, (omega arith, plain-AreBytes))))),
    ),
  ),
)

aes_key-AreBytes : AreBytes aes_key
aes_key-AreBytes = (
  omega arith,
  (
    omega arith,
    (
      omega arith,
      (
        omega arith,
        (
          omega arith,
          (
            omega arith,
            (
              omega arith,
              (
                omega arith,
                (
                  omega arith,
                  (
                    omega arith,
                    (
                      omega arith,
                      (omega arith, (omega arith, (omega arith, (omega arith, (omega arith, tt))))),
                    ),
                  ),
                ),
              ),
            ),
          ),
        ),
      ),
    ),
  ),
)

encrypts :
    (encrypt (Ops.key_crypto go) aes_key "kek" "" encrypt_request one).0
    ≡ ok (hex_encode code, hex_encode aes_key)
unfolding encrypt key_material lookup find_key_version latest_key decoded decoded_iv encoded_iv
    or_bad_request Ops.encrypt encrypt_cbc vector_of padded is_padded has_suffix select_aes_key
    key_of_size aes_key_size hex_encode hex_decode hex_digit hex_value
encrypts = refl

symmetric-decrypt-encrypt_example :
    decrypt
      (Ops.key_crypto go)
      "kek"
      ""
      (record { alg = "A128CBC"; value = hex_encode code; iv = hex_encode aes_key })
      one
    ≡ (ok (hex_encode block, hex_encode aes_key), one)
symmetric-decrypt-encrypt_example =
    symmetric-decrypt-encrypt go sound law "kek" "" one found no_rsa is_oct aes_key block
      encrypt_request (hex_encode code) (hex_encode aes_key) aes_key-AreBytes
      (law.decode-encode block block-AreBytes) encrypts

symmetric-unwrap_key-wrap_key_example :
    unwrap_key
      (Ops.key_crypto go)
      "kek"
      ""
      (record { alg = "A128KW"; value = hex_encode (wrapped (mask_cipher aes_key) plain); iv = "" })
      one
    ≡ (ok (hex_encode plain), one)
symmetric-unwrap_key-wrap_key_example =
    symmetric-unwrap_key-wrap_key go sound law "kek" "" one found no_rsa is_oct [] plain request
      (hex_encode (wrapped (mask_cipher aes_key) plain)) "" tt plain_read wraps

abbrev negative_request : CreateKeyRequest
negative_request = record {
  kty = "oct";
  key_size = negsuc 7;
  key_ops = [];
  attributes = none;
  tags = none;
  crv = "";
  value = "";
}

named : ◌≢◌ {A = String} "new" ""
named e = ground (arith, eq_iff "new" "")

not_deleted : contains "new" one.deleted_keys ≡ false
unfolding lookup
not_deleted = refl

create_key-negative_size_example :
    create_key (Ops.key_crypto go) 100 [] [] "new" negative_request one ≡ (panic, one)
create_key-negative_size_example =
    create_key-negative_size go 100 [] [] "new" negative_request one 7 named not_deleted refl refl
      refl
