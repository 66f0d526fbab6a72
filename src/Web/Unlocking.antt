-- ===== src/Web/Unlocking.antt =====
-- handleSetup and handleUnlock of internal/web/handler.go, and a restart of the process between
-- them, which forgets the key, the sessions and the in-memory store.
use azure_keyvault_emulator.Prelude.{
  arith, String, ◌≡◌, refl, sym, ap, ◌∙◌, true, false, some, [], ◌∷◌, ◌==◌, is_empty,
}
use azure_keyvault_emulator.Prelude.Dict.{lookup, insert, lookup-insert}
use azure_keyvault_emulator.Prelude.Outcome.{Outcome, ok, err, panic, ok-injective}
use azure_keyvault_emulator.Prelude.Outcome.Yields.{
  Yields, yielded, lift-Yields, raise_if-Yields, then-Yields,
}
use azure_keyvault_emulator.Prelude.Text.Hex.{hex_encode, AreBytes, hex_decode-hex_encode}
use azure_keyvault_emulator.Crypto.Interface.{Bytes}
use azure_keyvault_emulator.Crypto.Blocks.{IsBlock}
use azure_keyvault_emulator.Auth.{Service, AuthError, get_config, config_value, set_config, setup}
use azure_keyvault_emulator.Store.{new_store}
use mathlib.Core.Path.{subst}
use azure_keyvault_emulator.Encryption.{
  Ciphers, derive_key, encrypt, new_gcm, encrypt_string, decrypt_string,
}
use azure_keyvault_emulator.Encryption.RoundTrip.{AreSound, decrypt_string-encrypt_string}
use azure_keyvault_emulator.Web.Replies.{Reply, json_reply, done_body, error_reply}
use azure_keyvault_emulator.Web.{
  Web, WebRequest, WebMoment, SetupRequest, decode_json, or_reply, set_encryption_key, is_locked,
}
use azure_keyvault_emulator.Web.Setup.{
  VaultPackages, handle_setup, handle_unlock, set_config_or_rollback, or_rollback, setup_error,
}

or_reply-ok :
    {E A : Type 0} (o : Outcome E A) (reply : E → Reply) {a : A}
    → or_reply o reply ≡ ok a
    → o ≡ ok a
or_reply-ok (ok a) reply h = ground arith
or_reply-ok (err e) reply h = cc
or_reply-ok panic reply h = cc

module _ {M : Type 0} where
  abbrev SameStore : {A : Type 0} → Web M → A → Web M → Type 0
  SameStore w a t = t.inner ≡ w.inner

  on_auth-Yields :
      {A : Type 0} (o : Outcome AuthError A) (reply : AuthError → Reply) (s : Service) (w : Web M)
      → Yields (SameStore w) (or_reply o reply, record w { auth = s })
  on_auth-Yields (ok a) reply s w = refl
  on_auth-Yields (err e) reply s w = tt
  on_auth-Yields panic reply s w = tt

module _ {M : Type 0} (go : VaultPackages) (at : WebMoment) (r : WebRequest) (w : Web M) where
  -- What a setup leaves behind for a passphrase.
  pub record IsSetUp (reply : Reply) (t : Web M) : Type 0 where
    pub request : SetupRequest
    pub decoded : decode_json go.setup_request r ≡ ok request
    pub given : (request.passphrase == "") ≡ false
    pub verify : String
    pub sealed :
        encrypt_string go.ciphers at.nonce
          (derive_key go.ciphers request.passphrase at.salt)
          "verify"
        ≡ ok verify
    pub salt_kept : lookup "enc_salt" t.auth.config ≡ some (hex_encode at.salt)
    pub verify_kept : lookup "enc_verify" t.auth.config ≡ some verify
    pub key_set : t.enc_key ≡ derive_key go.ciphers request.passphrase at.salt
    pub same_store : t.inner ≡ w.inner

  handle_setup-Yields : Yields IsSetUp (handle_setup go at r w)
  unfolding handle_setup set_config_or_rollback or_rollback set_config set_encryption_key
  handle_setup-Yields = lift-Yields IsSetUp w (decode_json go.setup_request r) _ λ req decoded.
      raise_if-Yields IsSetUp w (req.passphrase == "") _ _ λ given.
        lift-Yields IsSetUp w
          (or_reply
            (encrypt_string go.ciphers at.nonce (derive_key go.ciphers req.passphrase at.salt)
              "verify")
            (error_reply 500))
          _
          λ verify sealed.
            then-Yields (SameStore w) IsSetUp _ _
              (on_auth-Yields (setup go.bcrypt at.now at.random req.username req.password w.auth).0
                (setup_error go)
                (setup go.bcrypt at.now at.random req.username req.password w.auth).1 w)
              λ user t same. record {
                request = req;
                decoded = decoded;
                given = given;
                verify = verify;
                sealed = or_reply-ok _ (error_reply 500) sealed;
                salt_kept = ground (
                  arith,
                  lookup-insert "enc_verify" "enc_salt" verify
                      (insert "enc_salt" (hex_encode at.salt) t.auth.config),
                  lookup-insert "enc_salt" "enc_salt" (hex_encode at.salt) t.auth.config,
                );
                verify_kept = ground (
                  arith,
                  lookup-insert "enc_verify" "enc_verify" verify
                      (insert "enc_salt" (hex_encode at.salt) t.auth.config),
                );
                key_set = refl;
                same_store = same;
              }

-- A process that starts again over the in-memory store has the tables of the accounts, and neither
-- objects nor sessions nor a key.
abbrev pub restarted : {M : Type 0} → Web M → Web M
restarted t = record { auth = record t.auth { sessions = [] }; inner = new_store; enc_key = [] }

module _ {M : Type 0} (go : VaultPackages) where
  unlock-eq :
      (r : WebRequest) (t : Web M) (salt : Bytes) (passphrase verify : String)
      → decode_json go.unlock_request r ≡ ok passphrase
      → (passphrase == "") ≡ false
      → lookup "enc_salt" t.auth.config ≡ some (hex_encode salt)
      → AreBytes salt
      → lookup "enc_verify" t.auth.config ≡ some verify
      → decrypt_string go.ciphers (derive_key go.ciphers passphrase salt) verify ≡ ok "verify"
      → handle_unlock go r t ≡ (
        ok (json_reply 200 done_body),
        record t { enc_key = derive_key go.ciphers passphrase salt },
      )
  unfolding handle_unlock get_config config_value set_encryption_key
  unlock-eq r t salt passphrase verify decoded given salt_kept bytes verify_kept opened =
      rw (decoded, given, salt_kept, hex_decode-hex_encode salt bytes, verify_kept, opened) refl

-- A key that encrypts is not empty.
encrypts-not_empty :
    (ciphers : Ciphers) (nonce key : Bytes) (text : String) {sealed : String}
    → encrypt_string ciphers nonce key text ≡ ok sealed
    → is_empty key ≡ false
unfolding encrypt_string encrypt new_gcm
encrypts-not_empty ciphers nonce [] text h = cc
encrypts-not_empty ciphers nonce (b ∷ bs) text h = refl

is_locked-open : {M : Type 0} (t : Web M) → is_empty t.enc_key ≡ false → is_locked t ≡ false
unfolding is_locked
is_locked-open t h = ground arith

module _ {M : Type 0} (go : VaultPackages) (sound : AreSound go.ciphers) (at : WebMoment)
    (r : WebRequest) (w : Web M) (bytes : AreBytes at.salt) (fresh : IsBlock 12 at.nonce)
    {reply : Reply} (done : (handle_setup go at r w).0 ≡ ok reply) (request : SetupRequest)
    (asked : decode_json go.setup_request r ≡ ok request) (r' : WebRequest)
    (again : decode_json go.unlock_request r' ≡ ok request.passphrase) where
  abbrev set_up : Web M
  set_up = (handle_setup go at r w).1

  abbrev key : Bytes
  key = derive_key go.ciphers request.passphrase at.salt

  -- What is known of the request that was decoded.
  record Known : Type 0 where
    given : (request.passphrase == "") ≡ false
    verify : String
    sealed : encrypt_string go.ciphers at.nonce key "verify" ≡ ok verify
    salt_kept : lookup "enc_salt" set_up.auth.config ≡ some (hex_encode at.salt)
    verify_kept : lookup "enc_verify" set_up.auth.config ≡ some verify
    key_set : set_up.enc_key ≡ key

  known : Known
  known =
      let known =
        yielded (IsSetUp go at r w) (handle_setup go at r w) (handle_setup-Yields go at r w) done in
      let same : known.request ≡ request = ok-injective (sym known.decoded ∙ asked) in
      record {
        given = subst (λ q. (q.passphrase == "") ≡ false) same known.given;
        verify = known.verify;
        sealed =
            subst
              (λ q.
                encrypt_string go.ciphers at.nonce (derive_key go.ciphers q.passphrase at.salt)
                  "verify"
                ≡ ok known.verify)
              same known.sealed;
        salt_kept = known.salt_kept;
        verify_kept = known.verify_kept;
        key_set = known.key_set ∙ ap (λ q. derive_key go.ciphers q.passphrase at.salt) same;
      }

  not_empty : is_empty key ≡ false
  not_empty = encrypts-not_empty go.ciphers at.nonce key "verify" known.sealed

  -- An unlock of a process that has the tables that a setup has left, and any store.
  unlocks :
      (t : Web M)
      → t.auth.config ≡ set_up.auth.config
      → handle_unlock go r' t ≡ (ok (json_reply 200 done_body), record t { enc_key = key })
  unlocks t same =
      unlock-eq go r' t at.salt request.passphrase known.verify again known.given
        (ap (lookup "enc_salt") same ∙ known.salt_kept) bytes
        (ap (lookup "enc_verify") same ∙ known.verify_kept)
        (decrypt_string-encrypt_string go.ciphers sound at.nonce key fresh "verify" known.verify
          known.sealed)

  -- After a setup that succeeds the vault is open. A process that is then started again, with a new
  -- in-memory store, is locked, and an unlock with the passphrase of the setup gives it the same key, and changes nothing else,
  -- if the AEAD opens what it has sealed, the salt is made of bytes, and the nonce has twelve.
  pub unlock-setup :
      (is_locked set_up ≡ false)
      × (is_locked (restarted set_up) ≡ true)
      × (handle_unlock go r' (restarted set_up)
          ≡ (ok (json_reply 200 done_body), record (restarted set_up) { enc_key = set_up.enc_key }))
  unfolding is_locked get_config config_value
  unlock-setup = (
    is_locked-open set_up (rw known.key_set not_empty),
    rw known.salt_kept refl,
    rw known.key_set (unlocks (restarted set_up) refl),
  )
