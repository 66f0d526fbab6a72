-- ===== src/Http/Tests.antt =====
-- Requests to the handlers of internal/handler at concrete inputs. The packages are stand-ins: a
-- body is taken as the value of a secret, and a query is encoded as its `$skiptoken`.
use Prim.Native.String.{◌++◌}
use mathlib.Core.Path.{subst}
use mathlib.Core.List.{Perm}
use azure_keyvault_emulator.Prelude.{
  ap, arith, String, ◌≡◌, refl, ◌∙◌, ◌≢◌, false, none, some, List, [], ◌∷◌, map, eq_iff,
}
use azure_keyvault_emulator.Prelude.Dict.{lookup, insert, keys}
use azure_keyvault_emulator.Prelude.Outcome.{Outcome, ok, Ends}
use azure_keyvault_emulator.Prelude.Outcome.Runs.{serve, NeverPanics}
use azure_keyvault_emulator.Prelude.Text.Decimal.{
  pos, atoi, signed, positive, digits_from, is_digit,
}
use azure_keyvault_emulator.Prelude.Text.Hex.{hex_encode, hex_digit}
use azure_keyvault_emulator.Prelude.Text.Slashes.{
  trim_prefix, behind, trim_slashes, trim_left, trim_right, split_slashes, onto_first, has_slash,
  contains_text,
}
use azure_keyvault_emulator.Store.{Store, SecretRecord, new_store}
use azure_keyvault_emulator.Store.Metadata.{
  new_version, build_attributes, clone_attributes, clone_tags, recovery_level, recoverable_days,
}
use azure_keyvault_emulator.Store.Entries.{put_version, find_id}
use azure_keyvault_emulator.Store.Entries.Versions.{All}
use azure_keyvault_emulator.Store.Secrets.{set_secret}
use azure_keyvault_emulator.Store.Secrets.Records.{new_secret, clone_secret_record, BackupCodec}
use azure_keyvault_emulator.Store.Secrets.Safety.{AreSecretsWellFormed, name_of}
use azure_keyvault_emulator.Store.Secrets.Calls.{new_store-AreSecretsWellFormed}
use azure_keyvault_emulator.Store.Secrets.Listing.{ShowsLatest}
use azure_keyvault_emulator.Storer.{AnyError}
use azure_keyvault_emulator.Storer.Memory.{Moment, memory_secrets}
use azure_keyvault_emulator.Prelude.Sort.Same.{IsSorted}
use azure_keyvault_emulator.Http.Bodies.{SecretBundle, secret_body}
use azure_keyvault_emulator.Http.{
  Request, Response, Packages, Decoders, Decoded, parsed, refused, get_value, next_query, link_to,
  vault_base_url, body_of, parse_body, json, split_path, object_id, parse_pagination,
  max_results_of, first_given, clamped, page_limit,
}
use azure_keyvault_emulator.Http.Secrets.{
  secret_item, handle_secret_routes, handle_secret_segments, put_secret, secret_bundle,
}
use azure_keyvault_emulator.Http.Paths.{IsPart, trim_prefix-append}
use azure_keyvault_emulator.Http.Pages.{
  IsClient, walk_links, list_secrets_over_links, next_query-token,
}
use azure_keyvault_emulator.Http.Resources.{asks, name_path, version_path, get-put}
use azure_keyvault_emulator.Http.Routes.{list_secrets, secret_routes, handle_secrets}
use azure_keyvault_emulator.Http.Kept.{handle_secrets-Ends}
use azure_keyvault_emulator.Storer.Memory.SecretLaws.{memory_secrets-AreSecretsKept}
use azure_keyvault_emulator.Http.Runs.{Incoming, receive, requests_safe}

abbrev refuse : {A : Type 0} → String → Decoded A
refuse t = refused "unexpected body"

abbrev decoders : Decoders
decoders = record {
  secret_set =
      λ t. parsed (record { value = t; content_type = ""; attributes = none; tags = none });
  secret_update = refuse;
  restore = refuse;
  create_key = refuse;
  import_key = refuse;
  update_key = refuse;
  encrypt = refuse;
  sign = refuse;
  verify = refuse;
  create_certificate = refuse;
  import_certificate = refuse;
  update_certificate = refuse;
}

abbrev go : Packages
go = record {
  decode = decoders;
  split_host = λ host. none;
  encode_query = λ query. get_value "$skiptoken" query;
  to_lower = λ t. t;
  sha1 = λ bytes. bytes;
  base64url = hex_encode;
}

-- A client that knows what it has asked for, and reads the token behind it.
abbrev token_in : Request → String → String
token_in r link = trim_prefix (trim_prefix (trim_prefix link (vault_base_url go r)) r.path) "?"

abbrev client : Request → String → Request
client r link = record r { query = next_query r.query (token_in r link) }

token_in-link_to : (r : Request) (next : String) → token_in r (link_to go r next) ≡ next
unfolding link_to
token_in-link_to r next =
    ap (λ rest. trim_prefix (trim_prefix rest r.path) "?")
      (trim_prefix-append (vault_base_url go r) _)
    ∙ ap (λ rest. trim_prefix rest "?") (trim_prefix-append r.path _)
    ∙ trim_prefix-append "?" _
    ∙ next_query-token r.query next

client-IsClient : IsClient go client
unfolding vault_base_url
client-IsClient = record {
  same_query = λ r next key.
      ap (λ token. get_value key (next_query r.query token)) (token_in-link_to r next);
  same_base = λ r next. refl;
}

abbrev M : Type 0
M = Unit {0}

abbrev at : Moment
at = record { now = 100; buf = 10 ∷ 255 ∷ []; entropy = [] }

abbrev codec : BackupCodec
codec = record { encode = λ b. "blob"; decode = λ t. none }

abbrev asked : Request
asked = record {
  method = "GET";
  path = "/secrets";
  host = "localhost:8080";
  is_tls = false;
  forwarded_proto = "";
  query = ("maxresults", "1" ∷ []) ∷ [];
  body = some "s3cret";
}

abbrev fresh : Store M
fresh = new_store

abbrev stored : SecretRecord
stored = record {
  name = "db";
  version = "0aff";
  value = "s3cret";
  content_type = "";
  attributes = record {
    enabled = none;
    not_before = none;
    expires = none;
    created = 100;
    updated = 100;
    recovery_level = recovery_level;
    recoverable_days = recoverable_days;
  };
  tags = none;
}

abbrev answer : Response
answer = json 200 (
    secret_body (record {
      value = "s3cret";
      id = "http://emulator/secrets/db/0aff";
      content_type = "";
      attributes = stored.attributes;
      tags = none;
    }))

abbrev one : Store M
one = record fresh { secrets = ("db", record { versions = stored ∷ [] }) ∷ [] }

put_db :
    (handle_secret_routes go (memory_secrets at codec) (asks asked "PUT" "/secrets/db") fresh)
    ≡ (ok answer, one)
unfolding handle_secret_routes handle_secret_segments put_secret body_of parse_body set_secret
    new_secret clone_secret_record put_version lookup insert new_version hex_encode hex_digit
    build_attributes clone_attributes clone_tags split_path trim_prefix behind trim_slashes
    trim_left trim_right split_slashes onto_first secret_bundle object_id vault_base_url
    contains_text
put_db = refl

part : IsPart "db"
unfolding has_slash
part = (refl, λ e. ground (arith, eq_iff "db" ""))

given : new_version at.buf ≢ ""
unfolding new_version hex_encode hex_digit
given e = ground (arith, eq_iff (new_version at.buf) "")

put_db_ok :
    (handle_secret_routes go (memory_secrets at codec) (asks asked "PUT" "/secrets/db") fresh).0
    ≡ ok answer
put_db_ok = ap (λ (x : Outcome AnyError Response × Store M). x.0) put_db

get-put_example :
    let after =
      (handle_secret_routes go
        (memory_secrets at codec)
        (asks asked "PUT" (name_path "db"))
        fresh).1 in
    (bundle : SecretBundle) × (answer ≡ json 200 (secret_body bundle))
    × (bundle.id ≡ vault_base_url go asked ++ version_path "db" (new_version at.buf))
    × (handle_secret_routes go
          (memory_secrets at codec)
          (asks asked "GET" (version_path "db" (new_version at.buf)))
          after
        ≡ (ok answer, after))
    × (handle_secret_routes go (memory_secrets at codec) (asks asked "GET" (name_path "db")) after
        ≡ (ok answer, after))
unfolding lookup find_id
get-put_example = get-put go at codec asked "db" part fresh put_db_ok given refl

one-WellFormed : AreSecretsWellFormed one
unfolding handle_secrets
one-WellFormed = subst (Ends AreSecretsWellFormed) put_db (
    handle_secrets-Ends AreSecretsWellFormed go (memory_secrets at codec)
      (memory_secrets-AreSecretsKept at codec) (asks asked "PUT" "/secrets/db") fresh
      (new_store-AreSecretsWellFormed M) secret_routes)

one_page : parse_pagination asked ≡ ok (pos 1, "")
unfolding parse_pagination max_results_of first_given get_value lookup page_limit atoi signed
    positive digits_from is_digit clamped
one_page = refl

list_secrets_over_links_example :
    (records : List SecretRecord) × (walk_links go at codec client one 2 asked
      ≡ some (map (secret_item (vault_base_url go asked)) records))
    × Perm (map name_of records) (keys one.secrets)
    × IsSorted (map name_of records)
    × All (ShowsLatest one) records
unfolding keys
list_secrets_over_links_example =
    list_secrets_over_links go at codec client one client-IsClient asked (pos 1) one_page
      one-WellFormed (omega arith)

abbrev requests : List Incoming
requests =
    record { at = at; endpoint = secret_routes; request = asks asked "PUT" "/secrets/db" }
    ∷ record { at = at; endpoint = list_secrets; request = asked }
    ∷ record { at = at; endpoint = secret_routes; request = asks asked "PATCH" "/secrets/db/0aff" }
    ∷ []

requests_safe_example :
    NeverPanics (serve (receive go codec) requests fresh).0
    × AreSecretsWellFormed (serve (receive go codec) requests fresh).1
requests_safe_example = requests_safe go codec requests fresh (new_store-AreSecretsWellFormed M)
