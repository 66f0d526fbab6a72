-- ===== src/Store/Secrets/Calls.antt =====
-- The secret part of the `Storer` interface of internal/store/store.go as data: a call, what it
-- answers, and a run of calls one after another. An `now` is the clock's reading at a call, and
-- a `buf` the bytes that `crypto/rand` gives it.
use azure_keyvault_emulator.Prelude.{ℕ, String, List, [], ◌∷◌}
use azure_keyvault_emulator.Prelude.Dict.{lookup}
use azure_keyvault_emulator.Prelude.Outcome.{Outcome, ok, err, panic, Ends, pure, continue, ◌>>=◌}
use azure_keyvault_emulator.Prelude.Text.Decimal.{ℤ}
use azure_keyvault_emulator.Model.{SecretSetRequest, SecretUpdateRequest}
use azure_keyvault_emulator.Store.{Store, Call, SecretRecord, DeletedSecretRecord, new_store}
use azure_keyvault_emulator.Store.Pagination.{Page}
use azure_keyvault_emulator.Store.Secrets.{
  set_secret, get_secret, update_secret, list_secrets, list_secret_versions, delete_secret,
  list_deleted_secrets, get_deleted_secret, purge_deleted_secret, recover_deleted_secret,
  backup_secret, restore_secret,
}
use azure_keyvault_emulator.Store.Secrets.Records.{BackupCodec}
use azure_keyvault_emulator.Store.Secrets.Safety.{
  AreSecretsWellFormed, set_secret-Ends, get_secret-Ends, update_secret-Ends, list_secrets-Ends,
  list_secret_versions-Ends, delete_secret-Ends, list_deleted_secrets-Ends, get_deleted_secret-Ends,
  purge_deleted_secret-Ends, recover_deleted_secret-Ends, backup_secret-Ends, restore_secret-Ends,
}
use azure_keyvault_emulator.Store.Errors.{Error}

pub data SecretCall : Type 0 where
  set : ℕ → List ℕ → String → SecretSetRequest → SecretCall
  get : String → String → SecretCall
  list : ℤ → String → SecretCall
  list_versions : String → ℤ → String → SecretCall
  update : ℕ → String → String → SecretUpdateRequest → SecretCall
  delete : ℕ → List ℕ → String → SecretCall
  list_deleted : ℤ → String → SecretCall
  get_deleted : String → SecretCall
  purge_deleted : String → SecretCall
  recover_deleted : String → SecretCall
  backup : String → SecretCall
  restore : String → SecretCall

pub data SecretReply : Type 0 where
  secret : SecretRecord → SecretReply
  deleted : DeletedSecretRecord → SecretReply
  page : Page SecretRecord → SecretReply
  deleted_page : Page DeletedSecretRecord → SecretReply
  token : String → SecretReply
  done : SecretReply

abbrev answered : {M A : Type 0} → (A → SecretReply) → Call M A → Call M SecretReply
answered f m = m >>= λ a. pure (f a)

module _ {M : Type 0} where
  pub run : BackupCodec → SecretCall → Call M SecretReply
  run codec (set now buf name req) = answered secret (set_secret now buf name req)
  run codec (get name version) = answered secret (get_secret name version)
  run codec (list m t) = answered page (list_secrets m t)
  run codec (list_versions name m t) = answered page (list_secret_versions name m t)
  run codec (update now name version req) = answered secret (update_secret now name version req)
  run codec (delete now buf name) = answered deleted (delete_secret now buf name)
  run codec (list_deleted m t) = answered deleted_page (list_deleted_secrets m t)
  run codec (get_deleted name) = answered deleted (get_deleted_secret name)
  run codec (purge_deleted name) = answered (λ _. done) (purge_deleted_secret name)
  run codec (recover_deleted name) = answered secret (recover_deleted_secret name)
  run codec (backup name) = answered token (backup_secret codec name)
  run codec (restore t) = answered secret (restore_secret codec t)

  -- The store after a sequence of calls, and the answers.
  pub serve : BackupCodec → List SecretCall → Store M → List (Outcome Error SecretReply) × Store M
  serve codec [] s = ([], s)
  serve codec (c ∷ calls) s =
      let (r, s') = run codec c s in let (rs, s'') = serve codec calls s' in (r ∷ rs, s'')

  -- Naming an answer changes nothing.
  answered-Ends :
      {A : Type 0} (f : A → SecretReply) (m : Call M A) (s : Store M)
      → Ends AreSecretsWellFormed (m s)
      → Ends AreSecretsWellFormed (answered f m s)
  answered-Ends {A} f m s = go (m s)
    where
      go :
          (r : Outcome Error A × Store M)
          → Ends AreSecretsWellFormed r
          → Ends AreSecretsWellFormed (continue r.0 (λ a. pure (f a)) r.1)
      go (ok a, s) h = h
      go (err e, s) h = h
      go (panic, s) h = h

  -- Whatever the call, it does not panic and keeps the invariant.
  pub run-Ends :
      (codec : BackupCodec) (c : SecretCall) (s : Store M)
      → AreSecretsWellFormed s
      → Ends AreSecretsWellFormed (run codec c s)
  unfolding run
  run-Ends codec (set now buf name req) s w =
      answered-Ends secret (set_secret now buf name req) s (set_secret-Ends now buf name req s w)
  run-Ends codec (get name version) s w =
      answered-Ends secret (get_secret name version) s (get_secret-Ends name version s w)
  run-Ends codec (list m t) s w =
      answered-Ends page (list_secrets m t) s (list_secrets-Ends m t s w)
  run-Ends codec (list_versions name m t) s w =
      answered-Ends page (list_secret_versions name m t) s (list_secret_versions-Ends name m t s w)
  run-Ends codec (update now name version req) s w =
      answered-Ends secret (update_secret now name version req) s
        (update_secret-Ends now name version req s w)
  run-Ends codec (delete now buf name) s w =
      answered-Ends deleted (delete_secret now buf name) s (delete_secret-Ends now buf name s w)
  run-Ends codec (list_deleted m t) s w =
      answered-Ends deleted_page (list_deleted_secrets m t) s (list_deleted_secrets-Ends m t s w)
  run-Ends codec (get_deleted name) s w =
      answered-Ends deleted (get_deleted_secret name) s (get_deleted_secret-Ends name s w)
  run-Ends codec (purge_deleted name) s w =
      answered-Ends (λ _. done) (purge_deleted_secret name) s (purge_deleted_secret-Ends name s w)
  run-Ends codec (recover_deleted name) s w =
      answered-Ends secret (recover_deleted_secret name) s (recover_deleted_secret-Ends name s w)
  run-Ends codec (backup name) s w =
      answered-Ends token (backup_secret codec name) s (backup_secret-Ends codec name s w)
  run-Ends codec (restore t) s w =
      answered-Ends secret (restore_secret codec t) s (restore_secret-Ends codec t s w)

abbrev pub NeverPanics : {E A : Type 0} → List (Outcome E A) → Type 0
NeverPanics [] = Unit
NeverPanics (ok a ∷ rs) = NeverPanics rs
NeverPanics (err e ∷ rs) = NeverPanics rs
NeverPanics (panic ∷ rs) = ⊥

module _ {M : Type 0} where
  -- Whatever the sequence of secret calls, none of them panics, and the invariant of the maps of
  -- secrets holds at the end, if it held at the start.
  pub serve_safe :
      (codec : BackupCodec) (calls : List SecretCall) (s : Store M)
      → AreSecretsWellFormed s
      → NeverPanics (serve codec calls s).0 × AreSecretsWellFormed (serve codec calls s).1
  unfolding serve
  serve_safe codec [] s w = (tt, w)
  serve_safe codec (c ∷ calls) s w =
      go (run codec c s) (run-Ends codec c s w) (serve_safe codec calls (run codec c s).1)
    where
      go :
          (r : Outcome Error SecretReply × Store M)
          → Ends AreSecretsWellFormed r
          → (AreSecretsWellFormed r.1
              → NeverPanics (serve codec calls r.1).0
                × AreSecretsWellFormed (serve codec calls r.1).1)
          → NeverPanics (r.0 ∷ (serve codec calls r.1).0)
            × AreSecretsWellFormed (serve codec calls r.1).1
      go (ok a, s') h ih = ih h
      go (err e, s') h ih = ih h
      go (panic, s') h ih = absurd h

pub new_store-AreSecretsWellFormed : (M : Type 0) → AreSecretsWellFormed (new_store {M = M})
unfolding lookup
new_store-AreSecretsWellFormed M = record {
  live_entry = λ k e h. cc;
  deleted_entry = λ k d h. cc;
  disjoint = λ k e h. cc;
  live_unique = tt;
  deleted_unique = tt;
}
