-- ===== src/Store/Keys/Tests.antt =====
-- Runs of the key operations of internal/store/keys.go, and its theorems at concrete inputs.
use mathlib.Core.Path.{subst}
use azure_keyvault_emulator.Prelude.{
  ℕ, ap, String, ◌≡◌, refl, ◌≢◌, true, none, some, List, [], ◌∷◌, arith, eq_iff, ◌<◌,
}
use azure_keyvault_emulator.Prelude.Dict.{lookup, insert}
use azure_keyvault_emulator.Prelude.Outcome.{Outcome, ok, err, panic, Ends}
use azure_keyvault_emulator.Prelude.Outcome.Runs.{serve, NeverPanics}
use azure_keyvault_emulator.Prelude.Text.Decimal.{pos}
use azure_keyvault_emulator.Prelude.Text.Hex.{
  hex_encode, hex_decode, hex_digit, hex_value, hex_decode-hex_encode, hex_decode-AreBytes,
  AreBytes,
}
use azure_keyvault_emulator.Model.{JsonWebKey, CreateKeyRequest, ImportKeyRequest, EncryptRequest}
use azure_keyvault_emulator.Crypto.Interface.{KeyCrypto, Bytes, Fallible}
use azure_keyvault_emulator.Store.{Store, KeyRecord, KeyVersion, new_store}
use azure_keyvault_emulator.Store.Errors.{Error, currently_deleted}
use azure_keyvault_emulator.Store.Entries.{put_version}
use azure_keyvault_emulator.Store.Metadata.{
  new_version, build_attributes, clone_attributes, clone_tags, recovery_level, recoverable_days,
}
use azure_keyvault_emulator.Store.Keys.{
  create_key, import_key, get_key, delete_key, recover_deleted_key, get_deleted_key, deleted_key,
  append_key, clone_of, latest_key, find_key_version,
}
use azure_keyvault_emulator.Store.Keys.Records.{
  deleted_key_record, new_key_record, clone_key_record, or_bad_request, default_key_ops,
  key_not_found,
}
use azure_keyvault_emulator.Store.Keys.Crypto.{
  key_material, decoded, decoded_iv, encoded_iv, encrypt, decrypt, wrap_key, unwrap_key,
}
use azure_keyvault_emulator.Store.Keys.Safety.{AreKeysWellFormed, create_key-Ends}
use azure_keyvault_emulator.Store.Keys.Calls.{
  KeyCall, run_key, serve_keys_safe, new_store-AreKeysWellFormed,
}
use azure_keyvault_emulator.Store.Keys.Deletion.{delete_key-effects, recover_key-delete_key}
use azure_keyvault_emulator.Store.Keys.Reads.{IsReadBack, get_key-create_key, get_key-import_key}
use azure_keyvault_emulator.Store.Keys.Crypto.RoundTrips.{
  Base64Law, Decrypts, Unwraps, decrypt-encrypt, unwrap_key-wrap_key,
}

-- A key is a number below 256, and it is put before what is encrypted, signed or wrapped.
abbrev without_first : Bytes → Fallible Bytes
without_first [] = err "short"
without_first (b ∷ bs) = ok bs

abbrev with_vector : Bytes → Fallible Bytes → Fallible (Bytes × Bytes)
with_vector iv (ok p) = ok (p, iv)
with_vector iv (err e) = err e
with_vector iv panic = panic

abbrev blank : JsonWebKey
blank = record {
  kid = "";
  kty = "oct";
  key_ops = "encrypt" ∷ [];
  n = "";
  e = "";
  d = "";
  p = "";
  q = "";
  dp = "";
  dq = "";
  qi = "";
  crv = "";
  x = "";
  y = "";
  k = "";
}

abbrev toy : KeyCrypto ℕ
toy = record {
  generate_key = λ _ _ _ _ _ _. ok (7, blank);
  import_key = λ jwk _. ok (7, jwk);
  encrypt = λ _ m _ _ p iv. ok (7 ∷ p, iv);
  decrypt = λ m _ _ c iv. with_vector iv (without_first c);
  sign = λ _ m _ _ d. ok (7 ∷ d);
  verify = λ m _ _ d sig. ok true;
  wrap = λ _ m _ _ p. ok (7 ∷ p);
  unwrap = λ m _ _ c. without_first c;
  encode_base64_url = hex_encode;
  decode_base64_url = hex_decode;
}

abbrev request : CreateKeyRequest
request = record {
  kty = "oct";
  key_size = pos 256;
  key_ops = "encrypt" ∷ [];
  attributes = none;
  tags = none;
  crv = "";
  value = "";
}

abbrev import_request : ImportKeyRequest
import_request = record { key = blank; attributes = none; tags = none }

abbrev buf : List ℕ
buf = 10 ∷ 255 ∷ []

abbrev fresh : Store ℕ
fresh = new_store

abbrev first : KeyRecord
first = record {
  name = "kek";
  version = "0aff";
  key = blank;
  attributes = record {
    enabled = none;
    not_before = none;
    expires = none;
    created = 100;
    updated = 100;
    recovery_level = recovery_level;
    recoverable_days = recoverable_days;
  };
  tags = none;
}

abbrev newest : KeyVersion ℕ
newest = record { record_ = first; material = 7 }

abbrev one : Store ℕ
one = record fresh { keys = ("kek", record { versions = newest ∷ [] }) ∷ [] }

create_first : create_key toy 100 buf [] "kek" request fresh ≡ (ok first, one)
unfolding create_key default_key_ops or_bad_request append_key new_key_record clone_key_record
    put_version lookup insert new_version hex_encode hex_digit build_attributes clone_attributes
    clone_tags
create_first = refl

import_first : import_key toy 100 buf "kek" import_request fresh ≡ (ok first, one)
unfolding import_key default_key_ops or_bad_request append_key new_key_record clone_key_record
    put_version lookup insert new_version hex_encode hex_digit build_attributes clone_attributes
    clone_tags
import_first = refl

answer : {A : Type 0} {r r' : Outcome Error A × Store ℕ} → r ≡ r' → r.0 ≡ r'.0
answer h = ap (λ r. r.0) h

get_key-create_key_example :
    IsReadBack "kek" buf fresh first (create_key toy 100 buf [] "kek" request fresh).1
get_key-create_key_example =
    get_key-create_key toy 100 buf [] "kek" request fresh (answer create_first)

get_key-import_key_example :
    IsReadBack "kek" buf fresh first (import_key toy 100 buf "kek" import_request fresh).1
get_key-import_key_example =
    get_key-import_key toy 100 buf "kek" import_request fresh (answer import_first)

one-WellFormed : AreKeysWellFormed one
one-WellFormed =
    subst (Ends AreKeysWellFormed) create_first
      (create_key-Ends toy 100 buf [] "kek" request fresh (λ e. cc) (new_store-AreKeysWellFormed ℕ))

live : lookup "kek" one.keys ≡ some (record { versions = newest ∷ [] })
unfolding lookup
live = refl

named : ◌≢◌ {A = String} "kek" ""
named e = ground (arith, eq_iff "kek" "")

typed : ◌≢◌ {A = String} "oct" ""
typed e = ground (arith, eq_iff "oct" "")

abbrev deleted : Store ℕ
deleted = (delete_key 200 buf "kek" one).1

delete_key-effects_example :
    ((delete_key 200 buf "kek" one).0
      ≡ ok (
          deleted_key_record
            (deleted_key 200 buf "kek" (record { versions = newest ∷ [] }))
            (clone_of newest)))
    × ((deleted_key 200 buf "kek" (record { versions = newest ∷ [] })).scheduled_purge_date
        ≡ 7776200)
    × (get_deleted_key "kek" deleted ≡ ((delete_key 200 buf "kek" one).0, deleted))
    × (get_key "kek" "" deleted ≡ (err (key_not_found "kek"), deleted))
    × (delete_key 300 buf "kek" deleted ≡ (err (key_not_found "kek"), deleted))
    × (create_key toy 300 buf [] "kek" request deleted
        ≡ (err (currently_deleted "Key" "kek"), deleted))
delete_key-effects_example =
    delete_key-effects 200 buf "kek" one one-WellFormed live refl toy 300 buf [] "" request named
      typed

recover_key-delete_key_example :
    ((recover_deleted_key "kek" deleted).0 ≡ (get_key "kek" "" one).0)
    × (lookup "kek" (recover_deleted_key "kek" deleted).1.keys ≡ lookup "kek" one.keys)
    × (lookup "kek" (recover_deleted_key "kek" deleted).1.deleted_keys
        ≡ lookup "kek" one.deleted_keys)
recover_key-delete_key_example =
    recover_key-delete_key 200 buf "kek" one one-WellFormed live refl "kek"

abbrev calls : List KeyCall
calls =
    KeyCall.create 100 buf [] "kek" request
    ∷ KeyCall.delete 200 buf "kek"
    ∷ KeyCall.recover_deleted "kek"
    ∷ KeyCall.wrap [] "kek" "" (record { alg = "A256KW"; value = "00ff"; iv = "" })
    ∷ []

serve_keys_safe_example :
    NeverPanics (serve (run_key toy) calls fresh).0
    × AreKeysWellFormed (serve (run_key toy) calls fresh).1
serve_keys_safe_example =
    serve_keys_safe toy calls fresh (λ e. cc, (tt, (tt, (λ _ _ _ e. cc, tt))))
      (new_store-AreKeysWellFormed ℕ)

law : Base64Law toy
unfolding hex_decode
law = record {
  decode-encode = hex_decode-hex_encode;
  decode-empty = refl;
  decode-AreBytes = hex_decode-AreBytes;
}

found : key_material "kek" "" one ≡ (ok newest, one)
unfolding key_material lookup find_key_version latest_key
found = refl

-- What the round trips ask of an answer of `toy`.
abbrev IsOpened : Bytes → Bytes → Fallible (Bytes × Bytes) → Type 0
IsOpened p iv (ok (c, iv')) =
    AreBytes c × AreBytes iv' × (with_vector iv' (without_first c) ≡ ok (p, iv'))
IsOpened p iv (err e) = Unit
IsOpened p iv panic = Unit

abbrev IsUnwrapped : Bytes → Fallible Bytes → Type 0
IsUnwrapped p (ok c) = AreBytes c × (without_first c ≡ ok p)
IsUnwrapped p (err e) = Unit
IsUnwrapped p panic = Unit

is_byte : 7 < 256
is_byte = omega arith

decrypts : (kty : String) → Decrypts toy 7 kty
decrypts kty entropy alg p iv c iv' r bp biv h = subst (IsOpened p iv) h ((is_byte, bp), biv, refl)

unwraps : (kty : String) → Unwraps toy 7 kty
unwraps kty entropy alg p c r bp h = subst (IsUnwrapped p) h ((is_byte, bp), refl)

abbrev encrypt_request : EncryptRequest
encrypt_request = record { alg = "A256CBC"; value = "00ff"; iv = "10" }

encrypted : (encrypt toy [] "kek" "" encrypt_request one).0 ≡ ok ("0700ff", "10")
unfolding encrypt key_material lookup find_key_version latest_key decoded decoded_iv encoded_iv
    or_bad_request hex_encode hex_decode hex_digit hex_value
encrypted = refl

bytes_read : hex_decode "00ff" ≡ some (0 ∷ 255 ∷ [])
unfolding hex_decode hex_value
bytes_read = refl

decrypt-encrypt_example :
    decrypt toy "kek" "" (record { alg = "A256CBC"; value = "0700ff"; iv = "10" }) one
    ≡ (ok (hex_encode (0 ∷ 255 ∷ []), "10"), one)
decrypt-encrypt_example =
    decrypt-encrypt toy law "kek" "" one found (decrypts "oct") [] (0 ∷ 255 ∷ []) encrypt_request
      "0700ff" "10" tt bytes_read encrypted

wrapped : (wrap_key toy [] "kek" "" encrypt_request one).0 ≡ ok "0700ff"
unfolding wrap_key key_material lookup find_key_version latest_key decoded or_bad_request hex_encode
    hex_decode hex_digit hex_value
wrapped = refl

unwrap_key-wrap_key_example :
    unwrap_key toy "kek" "" (record { alg = "A256CBC"; value = "0700ff"; iv = "" }) one
    ≡ (ok (hex_encode (0 ∷ 255 ∷ [])), one)
unwrap_key-wrap_key_example =
    unwrap_key-wrap_key toy law "kek" "" one found (unwraps "oct") [] (0 ∷ 255 ∷ []) encrypt_request
      "0700ff" "" tt bytes_read wrapped
