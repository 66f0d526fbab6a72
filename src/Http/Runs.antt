-- ===== src/Http/Runs.antt =====
-- Requests to the secret handlers of internal/handler, one after another, over the in-memory store.
use azure_keyvault_emulator.Prelude.{List}
use azure_keyvault_emulator.Prelude.Outcome.{Method}
use azure_keyvault_emulator.Prelude.Outcome.Runs.{serve, serve-Ends, NeverPanics, Each}
use azure_keyvault_emulator.Store.{Store}
use azure_keyvault_emulator.Store.Secrets.Records.{BackupCodec}
use azure_keyvault_emulator.Store.Secrets.Safety.{AreSecretsWellFormed}
use azure_keyvault_emulator.Storer.{AnyError}
use azure_keyvault_emulator.Storer.Memory.{Moment, memory_secrets}
use azure_keyvault_emulator.Storer.Memory.SecretLaws.{memory_secrets-AreSecretsKept}
use azure_keyvault_emulator.Http.{Request, Response, Packages}
use azure_keyvault_emulator.Http.Routes.{SecretEndpoint, handle_secrets}
use azure_keyvault_emulator.Http.Kept.{handle_secrets-Ends}

pub record Incoming : Type 0 where
  pub at : Moment
  pub endpoint : SecretEndpoint
  pub request : Request

Each-trivial : (is : List Incoming) → Each (λ (i : Incoming). Unit {0}) is
Each-trivial List.[] = tt
Each-trivial (List.◌∷◌ i is) = (tt, Each-trivial is)

module _ {M : Type 0} (go : Packages) (codec : BackupCodec) where
  abbrev pub receive : Incoming → Method (Store M) AnyError Response
  receive i = handle_secrets go (memory_secrets i.at codec) i.endpoint i.request

  -- Whatever the sequence of requests to the secret handlers, with any method, path, query and body,
  -- over the in-memory store, none of them panics, and the invariant of the maps of secrets holds at
  -- the end, if it held at the start.
  pub requests_safe :
      (is : List Incoming) (s : Store M)
      → AreSecretsWellFormed s
      → NeverPanics (serve receive is s).0 × AreSecretsWellFormed (serve receive is s).1
  requests_safe is s w =
      serve-Ends receive AreSecretsWellFormed (λ (i : Incoming). Unit {0})
        (λ i t _ p.
          handle_secrets-Ends AreSecretsWellFormed go (memory_secrets i.at codec)
            (memory_secrets-AreSecretsKept i.at codec) i.request t p i.endpoint)
        is s (Each-trivial is) w
