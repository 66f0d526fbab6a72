-- ===== src/Web.antt =====
-- The web interface of internal/web/handler.go: its state, requests and replies. The store under it
-- is the in-memory one, whose secrets go through the encrypted store of encryptedstore.go, and its
-- accounts are those of internal/auth. A reply that is written before a handler returns early is an
-- error value. The mutex of the key is not modelled: it is held for one read or one write.
pub mod Replies
pub mod Setup
pub mod Accounts
pub mod Objects
pub mod Details
pub mod Routes
pub mod Guards
pub mod Unlocking
mod Tests
use azure_keyvault_emulator.Prelude.{
  ℕ, String, Bool, true, false, not, ◌&&◌, Option, none, some, List, [], ◌∷◌, is_empty, ◌==◌,
  if◌then◌else◌,
}
use azure_keyvault_emulator.Prelude.Outcome.{
  Outcome, ok, err, panic, Method, pure, raise, continue, ◌>>=◌, ◌>>◌,
}
use azure_keyvault_emulator.Crypto.Interface.{Bytes, Fallible}
use azure_keyvault_emulator.Auth.{Service, AuthError, AuthCall, Bcrypt, Role, get_config}
use azure_keyvault_emulator.Store.{Store}
use azure_keyvault_emulator.Storer.{AnyError, of_store, plain, Served}
use azure_keyvault_emulator.Encryption.{Ciphers}
use azure_keyvault_emulator.Encryption.Secrets.{Vault}
use Replies.{Reply, error_reply}

-- `Handler`: the accounts, the store that is wrapped, and the key, which is empty if it is nil.
pub record Web (M : Type 0) : Type 0 where
  pub auth : Service
  pub inner : Store M
  pub enc_key : Bytes

-- What the handlers read of a request: the session cookie, the `{id}` or `{name}` of its path, and
-- its body.
pub record WebRequest : Type 0 where
  pub cookie : Option String
  pub path_value : String
  pub body : Option String

pub record SetupRequest : Type 0 where
  pub username : String
  pub password : String
  pub passphrase : String

pub record LoginRequest : Type 0 where
  pub username : String
  pub password : String

pub record UserRequest : Type 0 where
  pub username : String
  pub password : String
  pub role : Role

-- What a call reads from its surroundings: two readings of the clock, and the bytes that
-- `crypto/rand` gives to the salt, the nonce, the account or session, and the version.
pub record WebMoment : Type 0 where
  pub now : ℕ
  pub later : ℕ
  pub salt : Bytes
  pub nonce : Bytes
  pub random : Bytes
  pub buf : Bytes

-- What `json.Decoder` makes of a body: a value, the end of the input, or the text of an error.
pub data Scanned (A : Type 0) : Type 0 where
  scanned : A → Scanned A
  no_input : Scanned A
  unreadable : String → Scanned A

unfoldable pub decode_json : {A : Type 0} → (String → Scanned A) → WebRequest → Outcome Reply A
decode_json decode r = elim r.body [
  | none ↦ err (error_reply 400 "request body is required")
  | some text ↦ elim (decode text) [
    | scanned a ↦ ok a
    | no_input ↦ err (error_reply 400 "request body is required")
    | unreadable message ↦ err (error_reply 400 message)
  ]
]

abbrev pub WebCall : Type 0 → Type 0 → Type 0
WebCall M A = Method (Web M) Reply A

-- A handler that writes its reply.
abbrev pub WebHandler : Type 0 → Type 0
WebHandler M = WebCall M Reply

-- A step whose error is answered with a reply.
abbrev pub or_reply : {E A : Type 0} → Outcome E A → (E → Reply) → Outcome Reply A
or_reply (ok a) reply = ok a
or_reply (err e) reply = err (reply e)
or_reply panic reply = panic

abbrev is_known : Outcome AuthError (String × Bool) → Bool
is_known (ok (value, found)) = found
is_known (err e) = false
is_known panic = false

module _ {M : Type 0} where
  abbrev pub on_auth : {A : Type 0} → AuthCall A → (AuthError → Reply) → WebCall M A
  on_auth m reply w = let (o, t) = m w.auth in (or_reply o reply, record w { auth = t })

  abbrev pub on_store : {A : Type 0} → Served (Store M) A → (AnyError → Reply) → WebCall M A
  on_store m reply w = let (o, t) = m w.inner in (or_reply o reply, record w { inner = t })

  unfoldable pub set_encryption_key : Bytes → Web M → Web M
  set_encryption_key key w = record w { enc_key = key }

  unfoldable pub get_encryption_key : Web M → Option Bytes
  get_encryption_key w = if is_empty w.enc_key then none else some w.enc_key

  unfoldable pub is_locked : Web M → Bool
  is_locked w = is_known (get_config "enc_salt" w.auth).0 && is_empty w.enc_key

  -- What the encrypted store reads of the handler.
  unfoldable pub vault_of : Web M → Vault
  vault_of w = record { key = get_encryption_key w; is_locked = is_locked w }
