-- ===== src/Http/Resources.antt =====
-- A secret over HTTP, in internal/handler/secrets.go: what a PUT has answered is what a GET of its
-- id answers.
use Prim.Native.String.{◌++◌}
use azure_keyvault_emulator.Prelude.{
  String, ◌≡◌, refl, sym, ap, ◌∙◌, ◌≢◌, false, none, [], ◌==◌, eq-false,
}
use azure_keyvault_emulator.Prelude.Dict.{lookup}
use azure_keyvault_emulator.Prelude.Outcome.{
  Outcome, ok, err, panic, Method, pure, lift, continue, ◌>>=◌, ok-injective,
}
use azure_keyvault_emulator.Model.{SecretSetRequest}
use azure_keyvault_emulator.Store.{Store, SecretRecord}
use azure_keyvault_emulator.Store.Errors.{Error}
use azure_keyvault_emulator.Store.Metadata.{new_version}
use azure_keyvault_emulator.Store.Entries.{find_id}
use azure_keyvault_emulator.Store.Secrets.{set_secret, get_secret}
use azure_keyvault_emulator.Store.Secrets.Records.{
  BackupCodec, version_of, new_secret, clone_secret_record,
}
use azure_keyvault_emulator.Store.Secrets.Reads.{versions_of, get-set, get-set_version}
use azure_keyvault_emulator.Store.Secrets.Versions.{set_secret-eq_ok}
use azure_keyvault_emulator.Storer.{AnyError, SecretMethods, named_error}
use azure_keyvault_emulator.Storer.Memory.{Moment, memory_secrets}
use azure_keyvault_emulator.Http.Bodies.{SecretBundle, secret_body}
use azure_keyvault_emulator.Http.{
  Request, Response, Packages, body_of, json, vault_base_url, object_id,
}
use azure_keyvault_emulator.Http.Paths.{
  IsPart, split_path-part, split_path-parts, new_version-IsPart, new_version-not_versions,
}
use azure_keyvault_emulator.Http.Secrets.{
  handle_secret_routes, handle_secret_segments, put_secret, get_secret_route, get_secret_at,
  secret_bundle,
}

-- The same request with another method and path.
abbrev pub asks : Request → String → String → Request
asks r method path = record r { method = method; path = path }

abbrev pub name_path : String → String
name_path name = "/secrets/" ++ name

abbrev pub version_path : String → String → String
version_path name version = "/secrets/" ++ (name ++ ("/" ++ version))

-- A call of the store whose answer is written has ended well, and left its state.
called :
    {S A : Type 0} (x : Outcome Error A × S) (f : A → Response) {response : Response}
    → (continue (named_error x.0) (λ a. pure {E = AnyError} (f a)) x.1).0 ≡ ok response
    → (a : A) × (x.0 ≡ ok a)
      × (f a ≡ response)
      × ((continue (named_error x.0) (λ a. pure {E = AnyError} (f a)) x.1).1 ≡ x.1)
called (ok a, t) f h = (a, refl, ok-injective h, refl)
called (err e, t) f h = cc
called (panic, t) f h = cc

lifted :
    {S A B : Type 0} (d : Outcome AnyError A) (rest : A → Method S AnyError B) (s : S) {b : B}
    → ((lift d >>= rest) s).0 ≡ ok b
    → (a : A) × (d ≡ ok a) × ((lift d >>= rest) s ≡ rest a s)
lifted (ok a) rest s h = (a, refl, refl)
lifted (err e) rest s h = cc
lifted panic rest s h = cc

module _ {M : Type 0} (go : Packages) (at : Moment) (codec : BackupCodec) (r : Request)
    (name : String) (part : IsPart name) where
  abbrev store : SecretMethods (Store M)
  store = memory_secrets at codec

  abbrev serve_ : String → String → Method (Store M) AnyError Response
  serve_ method path = handle_secret_routes go store (asks r method path)

  put-eq :
      (s : Store M)
      → serve_ "PUT" (name_path name) s
        ≡ put_secret go store (asks r "PUT" (name_path name)) name [] s
  unfolding handle_secret_routes handle_secret_segments
  put-eq s = rw (split_path-part "/secrets/" name part) refl

  get_name-eq :
      (s : Store M)
      → serve_ "GET" (name_path name) s
        ≡ get_secret_at go store (asks r "GET" (name_path name)) name "" s
  unfolding handle_secret_routes handle_secret_segments get_secret_route
  get_name-eq s = rw (split_path-part "/secrets/" name part) refl

  get_version-eq :
      (version : String) (s : Store M)
      → IsPart version
      → (version == "versions") ≡ false
      → serve_ "GET" (version_path name version) s
        ≡ get_secret_at go store (asks r "GET" (version_path name version)) name version s
  unfolding handle_secret_routes handle_secret_segments get_secret_route
  get_version-eq version s h other =
      rw (split_path-parts "/secrets/" name version part h) (rw other refl)

  -- A response for a record that is found.
  found-eq :
      (path version : String) (s : Store M) {rec : SecretRecord}
      → get_secret name version s ≡ (ok rec, s)
      → get_secret_at go store (asks r "GET" path) name version s
        ≡ (ok (json 200 (secret_body (secret_bundle go r rec))), s)
  unfolding get_secret_at secret_bundle vault_base_url
  found-eq path version s h = rw h refl

  put_secret-ok :
      (path : String) (s : Store M) {response : Response}
      → (put_secret go store (asks r "PUT" path) name [] s).0 ≡ ok response
      → (req : SecretSetRequest) × (rec : SecretRecord) × ((set_secret at.now at.buf name req s).0
          ≡ ok rec)
        × (json 200 (secret_body (secret_bundle go r rec)) ≡ response)
        × ((put_secret go store (asks r "PUT" path) name [] s).1
            ≡ (set_secret at.now at.buf name req s).1)
  unfolding put_secret secret_bundle vault_base_url
  put_secret-ok path s h =
      let (req, _, same) = lifted (body_of go.decode.secret_set (asks r "PUT" path)) _ s h in
      let (rec, set, response, after) =
        called (set_secret at.now at.buf name req s) _ (sym (ap (λ x. x.0) same) ∙ h) in
      (req, rec, set, response, ap (λ x. x.1) same ∙ after)

  -- The id of the bundle of a new secret.
  bundle-id :
      (req : SecretSetRequest) (s : Store M) {rec : SecretRecord}
      → (set_secret at.now at.buf name req s).0 ≡ ok rec
      → new_version at.buf ≢ ""
      → (secret_bundle go r rec).id ≡ vault_base_url go r ++ version_path name (new_version at.buf)
  unfolding secret_bundle object_id clone_secret_record new_secret
  bundle-id req s set given =
      let (_, stored, _) = set_secret-eq_ok at.now at.buf name req s set in
      rw stored (rw (eq-false (new_version at.buf) "" given) refl)

  module _ (s : Store M) {response : Response}
      (done : (serve_ "PUT" (name_path name) s).0 ≡ ok response) (given : new_version at.buf ≢ "")
      (unused : find_id version_of (new_version at.buf) (versions_of (lookup name s.secrets))
        ≡ none) where
    abbrev after_put : Store M
    after_put = (serve_ "PUT" (name_path name) s).1

    -- A PUT of a secret that succeeds, with a name that is a part of a path and a new version that is
    -- not empty and that the name does not have yet, answers a bundle. Its id is the base URL and a
    -- path, and a GET of that path, or of the name alone, with the same headers answers the response
    -- of the PUT, and changes nothing.
    pub get-put :
        (bundle : SecretBundle) × (response ≡ json 200 (secret_body bundle))
        × (bundle.id ≡ vault_base_url go r ++ version_path name (new_version at.buf))
        × (serve_ "GET" (version_path name (new_version at.buf)) after_put
            ≡ (ok response, after_put))
        × (serve_ "GET" (name_path name) after_put ≡ (ok response, after_put))
    get-put =
        let started = put-eq s in
        let (req, rec, set, answer, after) =
          put_secret-ok (name_path name) s (sym (ap (λ x. x.0) started) ∙ done) in
        let same : after_put ≡ (set_secret at.now at.buf name req s).1 =
          ap (λ x. x.1) started ∙ after in
        let version = new_version-IsPart at.buf given in
        (
          secret_bundle go r rec,
          sym answer,
          bundle-id req s set given,
          rw same (
              get_version-eq (new_version at.buf) _ version (new_version-not_versions at.buf)
              ∙ found-eq _ _ _ (get-set_version at.now at.buf name req s set given unused)
              ∙ ap (λ x. (ok x, (set_secret at.now at.buf name req s).1)) answer),
          rw same (
              get_name-eq _
              ∙ found-eq _ _ _ (get-set at.now at.buf name req s set)
              ∙ ap (λ x. (ok x, (set_secret at.now at.buf name req s).1)) answer),
        )
