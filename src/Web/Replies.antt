-- ===== src/Web/Replies.antt =====
-- What the handlers of internal/web/handler.go write: a status, the value that is encoded, and the
-- session cookie that is set. The other attributes of the cookie are constants.
use azure_keyvault_emulator.Prelude.{ℕ, String, Bool, Option, none, some, List}
use azure_keyvault_emulator.Prelude.Text.Decimal.{ℤ}
use azure_keyvault_emulator.Auth.{Role}

pub record AuthResponse : Type 0 where
  pub username : String
  pub role : Role

pub record UserResponse : Type 0 where
  pub id : String
  pub username : String
  pub role : Role
  pub created_at : ℕ

pub record SecretResponse : Type 0 where
  pub name : String
  pub version : String
  pub enabled : Bool
  pub content_type : String
  pub created : ℕ
  pub updated : ℕ
  pub not_before : Option ℤ
  pub expires : Option ℤ

pub record SecretDetailResponse : Type 0 where
  pub secret : SecretResponse
  pub value : String

pub record KeyResponse : Type 0 where
  pub name : String
  pub version : String
  pub kty : String
  pub crv : String
  pub kid : String
  pub created : ℕ
  pub updated : ℕ
  pub not_before : Option ℤ
  pub expires : Option ℤ

pub record KeyDetailResponse : Type 0 where
  pub key : KeyResponse
  pub key_ops : List String
  pub n : String
  pub e : String
  pub x : String
  pub y : String
  pub public_key_pem : String

pub record CertificateResponse : Type 0 where
  pub name : String
  pub version : String
  pub created : ℕ
  pub updated : ℕ
  pub expires : Option ℤ

pub record CertificateDetailResponse : Type 0 where
  pub certificate : CertificateResponse
  pub subject : String
  pub issuer : String
  pub serial : String
  pub thumbprint : String
  pub not_before : ℤ
  pub not_after : ℤ
  pub pem : String

-- A value that writeJSON is given; `done_body` is `{"ok": true}`.
pub data Shown : Type 0 where
  error_body : String → Shown
  done_body : Shown
  status_body : Bool → Bool → Shown
  auth_body : AuthResponse → Shown
  user_body : UserResponse → Shown
  users_body : List UserResponse → Shown
  secret_body : SecretResponse → Shown
  secrets_body : List SecretResponse → Shown
  secret_detail_body : SecretDetailResponse → Shown
  key_body : KeyResponse → Shown
  keys_body : List KeyResponse → Shown
  key_detail_body : KeyDetailResponse → Shown
  certificate_body : CertificateResponse → Shown
  certificates_body : List CertificateResponse → Shown
  certificate_detail_body : CertificateDetailResponse → Shown

-- The cookie lasts until `expires`, or is taken away.
pub data CookieChange : Type 0 where
  kept : CookieChange
  set_cookie : String → ℕ → CookieChange
  cleared : CookieChange

pub record Reply : Type 0 where
  pub status : ℕ
  pub body : Option Shown
  pub cookie : CookieChange

abbrev pub json_reply : ℕ → Shown → Reply
json_reply status value = record { status = status; body = some value; cookie = kept }

abbrev pub error_reply : ℕ → String → Reply
error_reply status message = json_reply status (error_body message)

abbrev pub no_content : Reply
no_content = record { status = 204; body = none; cookie = kept }
