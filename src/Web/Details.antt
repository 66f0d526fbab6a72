-- ===== src/Web/Details.antt =====
-- The handlers of internal/web/handler.go that show one key or one certificate.
use azure_keyvault_emulator.Prelude.{
  ℕ, ◌-◌, ◌%◌, ◌^◌, String, ◌||◌, Option, none, some, is_empty, ltb, ◌==◌, if◌then◌else◌,
}
use azure_keyvault_emulator.Prelude.Outcome.{pure, ◌>>=◌}
use azure_keyvault_emulator.Prelude.Text.Decimal.{ℤ, pos, negsuc}
use azure_keyvault_emulator.Prelude.Text.Hex.{hex_encode}
use azure_keyvault_emulator.Crypto.Interface.{Bytes}
use azure_keyvault_emulator.Crypto.Keys.{Curve, p256, p384, p521, set_bytes}
use azure_keyvault_emulator.Model.{JsonWebKey}
use azure_keyvault_emulator.Store.{Store, KeyRecord, CertificateRecord}
use azure_keyvault_emulator.Storer.{KeyMethods, CertificateMethods}
use azure_keyvault_emulator.Web.Replies.{
  KeyDetailResponse, CertificateDetailResponse, json_reply, key_detail_body,
  certificate_detail_body,
}
use azure_keyvault_emulator.Web.{WebRequest, WebHandler, on_store}
use azure_keyvault_emulator.Web.Objects.Requests.{failed, key_response, certificate_response}

-- `rsa.PublicKey` with its exponent as an `int`, and `ecdsa.PublicKey`.
pub data AnyPublicKey : Type 0 where
  rsa_key : ℕ → ℤ → AnyPublicKey
  ec_key : Curve → ℕ → ℕ → AnyPublicKey

-- What is read of an `x509.Certificate`.
pub record Certificate : Type 0 where
  pub subject : String
  pub issuer : String
  pub serial : String
  pub not_before : ℤ
  pub not_after : ℤ

-- `encoding/base64` without padding, `x509.MarshalPKIXPublicKey`, `x509.ParseCertificate`,
-- `pem.EncodeToMemory` as a text, and `sha1.Sum`. A failure is none.
pub record DetailPackages : Type 0 where
  pub decode_base64url : String → Option Bytes
  pub marshal_key : AnyPublicKey → Option Bytes
  pub parse_certificate : Bytes → Option Certificate
  pub pem : String → Bytes → String
  pub sha1 : Bytes → Bytes

-- `Int64` of a number that is not negative: its low 64 bits, with a sign.
unfoldable pub int64_of : ℕ → ℤ
int64_of n = let low = n % 2 ^ 64 in if ltb low (2 ^ 63) then pos low else negsuc (2 ^ 64 - low - 1)

-- The bytes of a field, which must be there.
unfoldable pub field_bytes : Option Bytes → Option Bytes
field_bytes none = none
field_bytes (some bytes) = if is_empty bytes then none else some bytes

abbrev with_both : Option Bytes → Option Bytes → (ℕ → ℕ → Option AnyPublicKey) → Option AnyPublicKey
with_both (some a) (some b) make = make (set_bytes 0 a) (set_bytes 0 b)
with_both _ _ make = none

unfoldable pub curve_named : String → Option Curve
curve_named crv =
    if crv == "P-256"
    then some p256
    else if crv == "P-384"
    then some p384
    else if crv == "P-521"
    then some p521
    else none

abbrev on_curve : Option Curve → ℕ → ℕ → Option AnyPublicKey
on_curve none x y = none
on_curve (some curve) x y = some (ec_key curve x y)

module _ (go : DetailPackages) where
  unfoldable pub public_key_of : JsonWebKey → Option AnyPublicKey
  public_key_of jwk =
      if jwk.kty == "RSA" || jwk.kty == "RSA-HSM"
      then with_both (field_bytes (go.decode_base64url jwk.n))
          (field_bytes (go.decode_base64url jwk.e)) (λ n e. some (rsa_key n (int64_of e)))
      else if jwk.kty == "EC" || jwk.kty == "EC-HSM"
      then with_both (field_bytes (go.decode_base64url jwk.x))
          (field_bytes (go.decode_base64url jwk.y)) (on_curve (curve_named jwk.crv))
      else none

  abbrev pem_of : Option Bytes → String
  pem_of none = ""
  pem_of (some der) = go.pem "PUBLIC KEY" der

  abbrev marshalled : Option AnyPublicKey → Option Bytes
  marshalled none = none
  marshalled (some key) = go.marshal_key key

  -- The text of the PEM block, or "" without one.
  unfoldable pub public_key_to_pem : JsonWebKey → String
  public_key_to_pem jwk = pem_of (marshalled (public_key_of jwk))

  unfoldable pub key_detail : KeyRecord → KeyDetailResponse
  key_detail r = record {
    key = key_response r;
    key_ops = r.key.key_ops;
    n = r.key.n;
    e = r.key.e;
    x = r.key.x;
    y = r.key.y;
    public_key_pem = public_key_to_pem r.key;
  }

  abbrev blank : CertificateRecord → String → CertificateDetailResponse
  blank r pem = record {
    certificate = certificate_response r;
    subject = "";
    issuer = "";
    serial = "";
    thumbprint = "";
    not_before = pos 0;
    not_after = pos 0;
    pem = pem;
  }

  abbrev with_parsed : CertificateRecord → Option Certificate → CertificateDetailResponse
  with_parsed r none = blank r (go.pem "CERTIFICATE" r.cer)
  with_parsed r (some cert) = record {
    certificate = certificate_response r;
    subject = cert.subject;
    issuer = cert.issuer;
    serial = cert.serial;
    thumbprint = hex_encode (go.sha1 r.cer);
    not_before = cert.not_before;
    not_after = cert.not_after;
    pem = go.pem "CERTIFICATE" r.cer;
  }

  unfoldable pub certificate_detail : CertificateRecord → CertificateDetailResponse
  certificate_detail r =
      if is_empty r.cer then blank r "" else with_parsed r (go.parse_certificate r.cer)

  module _ {M : Type 0} (keys : KeyMethods (Store M))
      (certificates : CertificateMethods (Store M)) where
    unfoldable pub handle_get_key : WebRequest → WebHandler M
    handle_get_key r = do
      in_ ← on_store (keys.get_key r.path_value "") (failed 404)
      pure (json_reply 200 (key_detail_body (key_detail in_)))

    unfoldable pub handle_get_certificate : WebRequest → WebHandler M
    handle_get_certificate r = do
      in_ ← on_store (certificates.get_certificate r.path_value "") (failed 404)
      pure (json_reply 200 (certificate_detail_body (certificate_detail in_)))
