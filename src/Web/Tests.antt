-- ===== src/Web/Tests.antt =====
-- A setup, a restart and an unlock of internal/web/handler.go, and a request without a session, at
-- concrete inputs.
use azure_keyvault_emulator.Prelude.{arith, ◌≡◌, refl, false, true, ◌⊎◌, none, some, [], ◌∷◌, ◌==◌}
use azure_keyvault_emulator.Prelude.Dict.{lookup, insert}
use azure_keyvault_emulator.Prelude.Outcome.{ok, err}
use azure_keyvault_emulator.Prelude.Text.Hex.{hex_encode, hex_digit, AreBytes}
use azure_keyvault_emulator.Crypto.Blocks.{IsBlock}
use azure_keyvault_emulator.Store.{Store, new_store}
use azure_keyvault_emulator.Auth.{
  Bcrypt, setup, validate_credentials_input, has_admin, new_user, insert_user, clashes, set_config,
}
use azure_keyvault_emulator.Encryption.{encrypt_string, encrypt, new_gcm}
use azure_keyvault_emulator.Encryption.Strokes.{stroke_ciphers, stroke_ciphers-AreSound}
use azure_keyvault_emulator.Web.Replies.{json_reply, done_body}
use azure_keyvault_emulator.Web.{
  Web, WebRequest, WebMoment, SetupRequest, scanned, no_input, decode_json, set_encryption_key,
  is_locked,
}
use azure_keyvault_emulator.Web.Setup.{
  VaultPackages, handle_setup, handle_unlock, set_config_or_rollback, or_rollback,
}
use azure_keyvault_emulator.Storer.{AnyError, Served, KeyMethods, CertificateMethods}
use azure_keyvault_emulator.Web.Accounts.{authentication_required}
use azure_keyvault_emulator.Web.Guards.{IsAllowed, IsRefused, forbidden, serve_route-guarded}
use azure_keyvault_emulator.Web.Routes.{WebPackages, for_admin, delete_user, serve_route}
use azure_keyvault_emulator.Web.Unlocking.{restarted, unlock-setup}

abbrev plain : Bcrypt
plain = record {
  generate = λ _ password. some password;
  matches = λ hash password. hash == password;
}

-- The passphrase is the body.
abbrev go : VaultPackages
go = record {
  setup_request = λ t. scanned (record { username = "root"; password = "pw"; passphrase = t });
  unlock_request = λ t. scanned t;
  ciphers = stroke_ciphers;
  bcrypt = plain;
  error_text = λ e. "error";
}

abbrev at : WebMoment
at = record {
  now = 100;
  later = 100;
  salt = 1 ∷ 2 ∷ 3 ∷ 4 ∷ 5 ∷ 6 ∷ 7 ∷ 8 ∷ 9 ∷ 10 ∷ 11 ∷ 12 ∷ 13 ∷ 14 ∷ 15 ∷ 16 ∷ [];
  nonce = 0 ∷ 1 ∷ 2 ∷ 3 ∷ 4 ∷ 5 ∷ 6 ∷ 7 ∷ 8 ∷ 9 ∷ 10 ∷ 11 ∷ [];
  random = 1 ∷ [];
  buf = 10 ∷ 255 ∷ [];
}

salt-AreBytes : AreBytes at.salt
salt-AreBytes = ground arith

nonce-IsBlock : IsBlock 12 at.nonce
nonce-IsBlock = ground arith

abbrev asked : WebRequest
asked = record { cookie = none; path_value = ""; body = some "open sesame" }

abbrev M : Type 0
M = Unit {0}

abbrev empty : Web M
empty = record {
  auth = record { users = []; config = []; sessions = [] };
  inner = new_store;
  enc_key = [];
}

abbrev request : SetupRequest
request = record { username = "root"; password = "pw"; passphrase = "open sesame" }

set_up_ok : (handle_setup go at asked empty).0 ≡ ok (json_reply 200 done_body)
unfolding handle_setup decode_json encrypt_string encrypt new_gcm hex_encode hex_digit setup
    validate_credentials_input has_admin new_user insert_user clashes set_config_or_rollback
    or_rollback set_config lookup insert set_encryption_key
set_up_ok = refl

abbrev opened : Web M
opened = (handle_setup go at asked empty).1

unlock-setup_example :
    (is_locked opened ≡ false)
    × (is_locked (restarted opened) ≡ true)
    × (handle_unlock go asked (restarted opened)
        ≡ (ok (json_reply 200 done_body), record (restarted opened) { enc_key = opened.enc_key }))
unfolding decode_json
unlock-setup_example =
    unlock-setup go stroke_ciphers-AreSound at asked empty salt-AreBytes nonce-IsBlock set_up_ok
      request refl asked refl

-- Stores of keys and certificates that refuse every call.
abbrev refuse : {A : Type 0} → Served (Store M) A
refuse s = (err (AnyError.plain "refused"), s)

abbrev no_keys : KeyMethods (Store M)
no_keys = record {
  create_key = λ a b. refuse;
  import_key = λ a b. refuse;
  get_key = λ a b. refuse;
  list_keys = λ a b. refuse;
  list_key_versions = λ a b c. refuse;
  update_key = λ a b c. refuse;
  delete_key = λ a. refuse;
  list_deleted_keys = λ a b. refuse;
  get_deleted_key = λ a. refuse;
  purge_deleted_key = λ a. refuse;
  recover_deleted_key = λ a. refuse;
  encrypt = λ a b c. refuse;
  decrypt = λ a b c. refuse;
  sign = λ a b c. refuse;
  verify = λ a b c. refuse;
  wrap_key = λ a b c. refuse;
  unwrap_key = λ a b c. refuse;
}

abbrev no_certificates : CertificateMethods (Store M)
no_certificates = record {
  create_certificate = λ a b. refuse;
  import_certificate = λ a b. refuse;
  get_certificate = λ a b. refuse;
  list_certificates = λ a b. refuse;
  list_certificate_versions = λ a b c. refuse;
  update_certificate = λ a b c. refuse;
  get_certificate_policy = λ a. refuse;
  update_certificate_policy = λ a b. refuse;
  get_pending_certificate_operation = λ a. refuse;
  delete_certificate = λ a. refuse;
  list_deleted_certificates = λ a b. refuse;
  get_deleted_certificate = λ a. refuse;
  purge_deleted_certificate = λ a. refuse;
  recover_deleted_certificate = λ a. refuse;
}

abbrev all_packages : WebPackages
all_packages = record {
  vault = go;
  account = record {
    login_request = λ t. no_input;
    user_request = λ t. no_input;
    bcrypt = plain;
    error_text = λ e. "error";
  };
  object = record {
    create_secret = λ t. no_input;
    create_key = λ t. no_input;
    generate_certificate = λ t. no_input;
    import_certificate = λ t. no_input;
    ciphers = stroke_ciphers;
  };
  detail = record {
    decode_base64url = λ t. none;
    marshal_key = λ key. none;
    parse_certificate = λ bytes. none;
    pem = λ kind bytes. "";
    sha1 = λ bytes. bytes;
  };
}

abbrev guest : WebRequest
guest = record { cookie = some "aa"; path_value = "db"; body = none }

serve_route-guarded_example :
    IsAllowed at guest (for_admin delete_user) opened
    ⊎ (IsRefused authentication_required opened
          (serve_route all_packages no_keys no_certificates at guest (for_admin delete_user) opened)
        ⊎ IsRefused forbidden opened (
            serve_route all_packages no_keys no_certificates at guest
              (for_admin delete_user)
              opened))
serve_route-guarded_example =
    serve_route-guarded at guest all_packages no_keys no_certificates (for_admin delete_user) opened
