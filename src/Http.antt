-- ===== src/Http.antt =====
-- The HTTP handlers of internal/handler: requests, responses and handler.go. The handlers of each
-- kind of object are in the child modules. A response is what is written: its status, its content
-- type and the value that `json.Encoder` is given. Errors are what a handler hands to writeError
-- before it returns.
pub mod Kept
pub mod Paths
pub mod Pages
pub mod Secrets
pub mod Keys
pub mod Certificates
pub mod Resources
pub mod Routes
pub mod Runs
mod Tests
use Prim.Native.String.{◌++◌}
use azure_keyvault_emulator.Prelude.{
  ℕ, zero, suc, String, Bool, true, false, not, ◌||◌, ◌==◌, Option, none, some, List, [], ◌∷◌, ltb,
  if◌then◌else◌,
}
use azure_keyvault_emulator.Prelude.Dict.{Dict, lookup, insert}
use azure_keyvault_emulator.Prelude.Outcome.{Outcome, ok, err, panic}
use azure_keyvault_emulator.Prelude.Text.Decimal.{ℤ, pos, negsuc, atoi}
use azure_keyvault_emulator.Prelude.Text.Slashes.{
  trim_prefix, has_prefix, contains_text, trim_slashes, split_slashes,
}
use azure_keyvault_emulator.Crypto.Interface.{Bytes, Fallible}
use azure_keyvault_emulator.Model.{
  SecretSetRequest, SecretUpdateRequest, CreateKeyRequest, ImportKeyRequest, UpdateKeyRequest,
  EncryptRequest, SignRequest, VerifyRequest, CreateCertificateRequest, ImportCertificateRequest,
  UpdateCertificateRequest, CertificatePolicy, CertificateOperation,
}
use azure_keyvault_emulator.Store.Errors.{Error, new_error}
use azure_keyvault_emulator.Storer.{AnyError, of_store, plain, Served}
use Bodies.{Body, error_body}
pub mod Bodies

-- `url.Values`
abbrev pub Values : Type 0
Values = Dict (List String)

-- What the handlers read of an `http.Request`. `forwarded_proto` is a header, and "" without it;
-- `query` is `URL.Query()`.
pub record Request : Type 0 where
  pub method : String
  pub path : String
  pub host : String
  pub is_tls : Bool
  pub forwarded_proto : String
  pub query : Values
  pub body : Option String

pub record Response : Type 0 where
  pub status : ℕ
  pub content_type : String
  pub body : Option Body

-- What `json.Decoder` makes of a body, or the text of its error.
pub data Decoded (A : Type 0) : Type 0 where
  parsed : A → Decoded A
  refused : String → Decoded A

-- The decoding of each type that is decoded.
pub record Decoders : Type 0 where
  pub secret_set : String → Decoded SecretSetRequest
  pub secret_update : String → Decoded SecretUpdateRequest
  pub restore : String → Decoded String
  pub create_key : String → Decoded CreateKeyRequest
  pub import_key : String → Decoded ImportKeyRequest
  pub update_key : String → Decoded UpdateKeyRequest
  pub encrypt : String → Decoded EncryptRequest
  pub sign : String → Decoded SignRequest
  pub verify : String → Decoded VerifyRequest
  pub create_certificate : String → Decoded CreateCertificateRequest
  pub import_certificate : String → Decoded ImportCertificateRequest
  pub update_certificate : String → Decoded UpdateCertificateRequest

-- What the handlers use of Go's packages: the host of `net.SplitHostPort`, `url.Values.Encode`,
-- `strings.ToLower`, `sha1.Sum` and base64.
pub record Packages : Type 0 where
  pub decode : Decoders
  pub split_host : String → Option String
  pub encode_query : Values → String
  pub to_lower : String → String
  pub sha1 : Bytes → Bytes
  pub base64url : Bytes → String

-- A handler, over the store's state.
abbrev pub Handled : Type 0 → Type 0
Handled S = Served S Response

abbrev pub json : ℕ → Body → Response
json status value = record { status = status; content_type = "application/json"; body = some value }

-- writeJSON of nil.
abbrev pub no_json : ℕ → Response
no_json status = record { status = status; content_type = "application/json"; body = none }

-- `w.WriteHeader(http.StatusMethodNotAllowed)`
abbrev pub method_not_allowed : Response
method_not_allowed = record { status = 405; content_type = ""; body = none }

abbrev pub model_error : ℕ → String → String → AnyError
model_error status code message = of_store (new_error status code message)

abbrev pub resource_not_found : AnyError
resource_not_found = model_error 404 "NotFound" "The requested resource was not found."

abbrev pub bad_body : String → AnyError
bad_body message = model_error 400 "BadParameter" message

unfoldable pub write_error : AnyError → Response
write_error (of_store e) = json e.status (error_body e.code e.message)
write_error (plain message) = json 500 (error_body "InternalServerError" message)

unfoldable pub parse_body : {A : Type 0} → (String → Decoded A) → Request → Decoded A
parse_body decode r = elim r.body [
  | none ↦ refused "request body is required"
  | some text ↦ decode text
]

-- What follows parseBody in every handler that calls it.
unfoldable pub body_of : {A : Type 0} → (String → Decoded A) → Request → Outcome AnyError A
body_of decode r = elim (parse_body decode r) [
  | parsed a ↦ ok a
  | refused message ↦ err (bad_body message)
]

-- `url.Values.Get`: the first value, or "".
unfoldable pub get_value : String → Values → String
get_value key values = elim (lookup key values) [
  | none ↦ ""
  | some [] ↦ ""
  | some (value ∷ _) ↦ value
]

-- `url.Values.Set`
unfoldable pub set_value : String → String → Values → Values
set_value key value values = insert key (value ∷ []) values

module _ (go : Packages) where
  unfoldable pub vault_base_url : Request → String
  vault_base_url r =
      let host : String = elim (go.split_host r.host) [ none ↦ r.host | some only ↦ only ] in
      let vault = if host == "" || not (contains_text host ".vault.") then "emulator" else host in
      let scheme =
        if r.is_tls
        then "https"
        else if r.forwarded_proto == ""
        then "http"
        else r.forwarded_proto in
      scheme ++ ("://" ++ vault)

unfoldable pub split_path : String → String → List String
split_path path prefix =
    let trimmed = trim_slashes (trim_prefix path prefix) in
    if trimmed == "" then [] else split_slashes trimmed

unfoldable pub recovery_id : String → String → String
recovery_id base_url recovery_path =
    if has_prefix recovery_path "http://" || has_prefix recovery_path "https://"
    then recovery_path
    else if has_prefix recovery_path "/"
    then base_url ++ recovery_path
    else base_url ++ ("/" ++ recovery_path)

-- secretID, keyID and certificateID: `kind` is the path of the kind.
unfoldable pub object_id : String → String → String → String → String
object_id kind base_url name version =
    if version == ""
    then base_url ++ (kind ++ name)
    else base_url ++ (kind ++ (name ++ ("/" ++ version)))

abbrev pub secret_id : String → String → String → String
secret_id base_url name version = object_id "/secrets/" base_url name version

abbrev pub key_id : String → String → String → String
key_id base_url name version = object_id "/keys/" base_url name version

abbrev pub certificate_id : String → String → String → String
certificate_id base_url name version = object_id "/certificates/" base_url name version

unfoldable pub page_limit : Option ℤ → String → Outcome AnyError ℤ
page_limit none message = err (bad_body message)
page_limit (some (negsuc n)) message = err (bad_body message)
page_limit (some (pos zero)) message = err (bad_body message)
page_limit (some (pos (suc n))) message = ok (pos (suc n))

-- The value of `$maxresults`, or the other one, of `maxresults`, if that is empty.
unfoldable pub max_results_of : String → String → Outcome AnyError ℤ
max_results_of raw other =
    if raw == ""
    then (if other == ""
        then ok (pos 25)
        else page_limit (atoi other) "The provided maxresults value is invalid.")
    else page_limit (atoi raw) "The provided $maxresults value is invalid."

unfoldable pub clamped : ℤ → ℤ
clamped (pos n) = if ltb 100 n then pos 100 else pos n
clamped (negsuc n) = negsuc n

unfoldable pub first_given : String → String → String
first_given skip other = if skip == "" then other else skip

abbrev pub with_skip : Outcome AnyError ℤ → String → Outcome AnyError (ℤ × String)
with_skip (ok max_results) skip = ok (clamped max_results, skip)
with_skip (err e) skip = err e
with_skip panic skip = panic

unfoldable pub parse_pagination : Request → Outcome AnyError (ℤ × String)
parse_pagination r =
    with_skip (max_results_of (get_value "$maxresults" r.query) (get_value "maxresults" r.query))
      (first_given (get_value "$skiptoken" r.query) (get_value "skiptoken" r.query))

-- The query of the next link.
unfoldable pub next_query : Values → String → Values
next_query values next =
    let query = set_value "$skiptoken" next values in
    if get_value "api-version" query == "" then set_value "api-version" "7.4" query else query

-- The link to a page.
unfoldable pub link_to : Packages → Request → String → String
link_to go r next =
    vault_base_url go r ++ (r.path ++ ("?" ++ go.encode_query (next_query r.query next)))

unfoldable pub build_next_link : Packages → Request → Option String → Option String
build_next_link go r none = none
build_next_link go r (some next) = some (link_to go r next)
