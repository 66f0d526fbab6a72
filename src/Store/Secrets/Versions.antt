-- ===== src/Store/Secrets/Versions.antt =====
-- The versions of a secret: what a set, an update and a clone do to the version that is found.
use azure_keyvault_emulator.Prelude.{ℕ, String, ◌≡◌, none, List, arith}
use azure_keyvault_emulator.Prelude.Dict.{lookup}
use azure_keyvault_emulator.Prelude.Outcome.{ok}
use azure_keyvault_emulator.Model.{SecretSetRequest}
use azure_keyvault_emulator.Store.{Store, SecretRecord}
use azure_keyvault_emulator.Store.Metadata.Clones.{clone_attributes_lem, clone_tags_idem}
use azure_keyvault_emulator.Store.Entries.{put_version}
use azure_keyvault_emulator.Store.Secrets.{set_secret}
use azure_keyvault_emulator.Store.Secrets.Records.{new_secret, clone_secret_record}

pub clone_secret_record_idem :
    (r : SecretRecord) → clone_secret_record (clone_secret_record r) ≡ clone_secret_record r
unfolding clone_secret_record
clone_secret_record_idem r = simp (clone_attributes_lem, clone_tags_idem)

module _ {M : Type 0} (now : ℕ) (buf : List ℕ) (name : String) (req : SecretSetRequest)
    (s : Store M) where
  abbrev after_set : Store M
  after_set = (set_secret now buf name req s).1

  -- A successful SetSecret has appended its record, and nothing else has changed.
  pub set_secret-eq_ok :
      {r : SecretRecord}
      → (set_secret now buf name req s).0 ≡ ok r
      → (lookup name s.deleted_secrets ≡ none)
        × (r ≡ clone_secret_record (new_secret now buf name req))
        × (after_set
            ≡ record s { secrets = put_version name (new_secret now buf name req) s.secrets })
  unfolding set_secret
  set_secret-eq_ok h = ground arith
