-- ===== src/Encryption/Secrets/Tests.antt =====
-- The theorems of internal/web/encryptedstore.go at concrete inputs.
use azure_keyvault_emulator.Prelude.{
  ℕ, String, ◌≡◌, refl, ◌≢◌, false, none, some, List, [], ◌∷◌, ◌++◌, eq_iff, arith,
}
use azure_keyvault_emulator.Prelude.Outcome.{ok}
use azure_keyvault_emulator.Prelude.Text.Hex.{hex_encode, hex_digit}
use azure_keyvault_emulator.Prelude.Dict.{lookup, insert}
use azure_keyvault_emulator.Model.{SecretSetRequest}
use azure_keyvault_emulator.Crypto.Interface.{Bytes}
use azure_keyvault_emulator.Crypto.Blocks.{IsBlock}
use azure_keyvault_emulator.Store.{Store, SecretRecord, new_store}
use azure_keyvault_emulator.Store.Metadata.{
  new_version, build_attributes, clone_attributes, clone_tags, recovery_level, recoverable_days,
}
use azure_keyvault_emulator.Store.Entries.{put_version}
use azure_keyvault_emulator.Store.Secrets.{get_secret, set_secret}
use azure_keyvault_emulator.Store.Secrets.Records.{new_secret, clone_secret_record}
use azure_keyvault_emulator.Encryption.{encrypt, new_gcm, encrypt_string}
use azure_keyvault_emulator.Encryption.Secrets.{Vault, set_encrypted, get_decrypted, value_to_store}
use azure_keyvault_emulator.Encryption.Secrets.Values.{
  get_decrypted-set_encrypted, set_encrypted-hides,
}
use azure_keyvault_emulator.Encryption.Strokes.{stroke_ciphers, stroke_ciphers-AreSound}

abbrev nonce : Bytes
nonce = 0 ∷ 1 ∷ 2 ∷ 3 ∷ 4 ∷ 5 ∷ 6 ∷ 7 ∷ 8 ∷ 9 ∷ 10 ∷ 11 ∷ []

nonce-IsBlock : IsBlock 12 nonce
nonce-IsBlock = ground arith

abbrev half : Bytes
half = 1 ∷ 2 ∷ 3 ∷ 4 ∷ 5 ∷ 6 ∷ 7 ∷ 8 ∷ 9 ∷ 10 ∷ 11 ∷ 12 ∷ 13 ∷ 14 ∷ 15 ∷ 16 ∷ []

abbrev key : Bytes
key = half ++ half

abbrev value : String
value = "!"

-- The nonce, thirty-three ones and a zero.
abbrev sealed_text : String
sealed_text =
    "000102030405060708090a0b01010101010101010101010101010101010101010101010101010101010101010100"

sealed : encrypt_string stroke_ciphers nonce key value ≡ ok sealed_text
unfolding encrypt_string encrypt new_gcm hex_encode hex_digit
sealed = refl

abbrev vault : Vault
vault = record { key = some key; is_locked = false }

abbrev request : SecretSetRequest
request = record { value = value; content_type = ""; attributes = none; tags = none }

abbrev M : Type 0
M = Unit {0}

abbrev fresh : Store M
fresh = new_store

abbrev buf : List ℕ
buf = 10 ∷ 255 ∷ []

abbrev stored : SecretRecord
stored = record {
  name = "db";
  version = "0aff";
  value = sealed_text;
  content_type = "";
  attributes = record {
    enabled = none;
    not_before = none;
    expires = none;
    created = 100;
    updated = 100;
    recovery_level = recovery_level;
    recoverable_days = recoverable_days;
  };
  tags = none;
}

set_sealed : (set_encrypted stroke_ciphers vault nonce 100 buf "db" request fresh).0 ≡ ok stored
unfolding set_encrypted value_to_store encrypt_string encrypt new_gcm set_secret new_secret
    clone_secret_record put_version lookup insert new_version hex_encode hex_digit build_attributes
    clone_attributes clone_tags
set_sealed = refl

given : value ≢ ""
given e = ground (arith, eq_iff value "")

get_decrypted-set_encrypted_example :
    let after = (set_encrypted stroke_ciphers vault nonce 100 buf "db" request fresh).1 in
    (get_decrypted stroke_ciphers vault "db" "" after).0 ≡ ok (record stored { value = "!" })
get_decrypted-set_encrypted_example =
    get_decrypted-set_encrypted stroke_ciphers stroke_ciphers-AreSound vault nonce key nonce-IsBlock
      refl 100 buf "db" request fresh given set_sealed

set_encrypted-hides_example :
    let after = (set_encrypted stroke_ciphers vault nonce 100 buf "db" request fresh).1 in
    (encrypt_string stroke_ciphers nonce key "!" ≡ ok sealed_text)
    × ((get_secret "db" "" after).0 ≡ ok stored)
set_encrypted-hides_example =
    set_encrypted-hides stroke_ciphers stroke_ciphers-AreSound vault nonce key nonce-IsBlock refl
      100 buf "db" request fresh given set_sealed
