-- ===== src/Web/Setup.antt =====
-- The status, the setup and the unlocking of the vault in internal/web/handler.go.
use azure_keyvault_emulator.Prelude.{String, not, ◌&&◌, ◌==◌}
use azure_keyvault_emulator.Prelude.Outcome.{
  Outcome, ok, err, panic, pure, gets, or_raise, lift, raise_if, modify, ◌>>=◌, ◌>>◌,
}
use azure_keyvault_emulator.Prelude.Text.Hex.{hex_encode, hex_decode}
use azure_keyvault_emulator.Auth.{
  Service, User, AuthError, already_initialized, Bcrypt, is_initialized, setup, delete_user,
  get_config, set_config,
}
use azure_keyvault_emulator.Encryption.{Ciphers, derive_key, encrypt_string, decrypt_string}
use azure_keyvault_emulator.Web.Replies.{Reply, error_reply, json_reply, done_body, status_body}
use azure_keyvault_emulator.Web.{
  WebRequest, WebMoment, SetupRequest, Scanned, WebCall, WebHandler, decode_json, or_reply, on_auth,
  set_encryption_key, is_locked,
}

-- What these handlers use of Go's packages, and the text of an error of the accounts.
pub record VaultPackages : Type 0 where
  pub setup_request : String → Scanned SetupRequest
  pub unlock_request : String → Scanned String
  pub ciphers : Ciphers
  pub bcrypt : Bcrypt
  pub error_text : AuthError → String

unfoldable pub setup_error : VaultPackages → AuthError → Reply
setup_error go already_initialized = error_reply 409 "auth service already initialized"
setup_error go e = error_reply 400 (go.error_text e)

abbrev unread_config : AuthError → Reply
unread_config e = error_reply 500 "failed to read encryption configuration"

module _ {M : Type 0} (go : VaultPackages) where
  unfoldable pub handle_status : WebHandler M
  handle_status = do
    initialized ← on_auth is_initialized (λ e. error_reply 500 (go.error_text e))
    locked ← gets is_locked
    pure (json_reply 200 (status_body initialized (initialized && locked)))

  -- A call of the accounts whose error is answered after the account that setup has made is deleted.
  unfoldable pub or_rollback : User → Outcome AuthError (Unit {0}) × Service → WebCall M (Unit {0})
  or_rollback user (ok a, t) w = (ok a, record w { auth = t })
  or_rollback user (err e, t) w =
      (err (error_reply 500 (go.error_text e)), record w { auth = (delete_user user.id t).1 })
  or_rollback user (panic, t) w = (panic, record w { auth = t })

  unfoldable pub set_config_or_rollback : User → String → String → WebCall M (Unit {0})
  unfolding or_rollback
  set_config_or_rollback user key value w = or_rollback user (set_config key value w.auth) w

  unfoldable pub handle_setup : WebMoment → WebRequest → WebHandler M
  handle_setup at r = do
    req ← lift (decode_json go.setup_request r)
    raise_if (req.passphrase == "") (error_reply 400 "passphrase is required")
    let key = derive_key go.ciphers req.passphrase at.salt
    verify ← lift (or_reply (encrypt_string go.ciphers at.nonce key "verify") (error_reply 500))
    user ← on_auth (setup go.bcrypt at.now at.random req.username req.password) (setup_error go)
    set_config_or_rollback user "enc_salt" (hex_encode at.salt)
    set_config_or_rollback user "enc_verify" verify
    modify (set_encryption_key key)
    pure (json_reply 200 done_body)

  unfoldable pub handle_unlock : WebRequest → WebHandler M
  handle_unlock r = do
    passphrase ← lift (decode_json go.unlock_request r)
    raise_if (passphrase == "") (error_reply 400 "passphrase is required")
    (salt_hex, is_configured) ← on_auth (get_config "enc_salt") unread_config
    raise_if (not is_configured) (error_reply 400 "encryption not configured")
    salt ← or_raise (hex_decode salt_hex) (error_reply 500 "invalid encryption salt")
    (enc_verify, has_verify) ← on_auth (get_config "enc_verify") unread_config
    raise_if (not has_verify) (error_reply 500 "encryption verification token missing")
    let key = derive_key go.ciphers passphrase salt
    plaintext ← lift (
        or_reply (decrypt_string go.ciphers key enc_verify)
          (λ e. error_reply 401 "incorrect passphrase"))
    raise_if (not (plaintext == "verify")) (error_reply 500 "invalid encryption verification token")
    modify (set_encryption_key key)
    pure (json_reply 200 done_body)
