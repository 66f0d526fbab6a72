-- ===== src/Encryption/Secrets/Values.antt =====
-- What internal/web/encryptedstore.go answers to the value that it has stored encrypted.
use azure_keyvault_emulator.Prelude.{
  ℕ, String, ◌≡◌, refl, sym, ◌∙◌, ◌≢◌, ap, false, some, List, ◌==◌, eq_iff, arith,
}
use azure_keyvault_emulator.Prelude.Outcome.{Outcome, ok, err, panic, lift, ◌>>=◌, ok-injective}
use azure_keyvault_emulator.Model.{SecretSetRequest}
use azure_keyvault_emulator.Crypto.Interface.{Bytes, Fallible}
use azure_keyvault_emulator.Crypto.Blocks.{IsBlock}
use azure_keyvault_emulator.Storer.{delegated, named_error}
use azure_keyvault_emulator.Store.{Store, SecretRecord}
use azure_keyvault_emulator.Store.Errors.{Error}
use azure_keyvault_emulator.Store.Secrets.{set_secret, get_secret}
use azure_keyvault_emulator.Store.Secrets.Records.{new_secret, clone_secret_record}
use azure_keyvault_emulator.Store.Secrets.Versions.{set_secret-eq_ok}
use azure_keyvault_emulator.Store.Secrets.Reads.{get-set}
use azure_keyvault_emulator.Encryption.{Ciphers, encrypt_string, decrypt_string}
use azure_keyvault_emulator.Encryption.RoundTrip.{AreSound, decrypt_string-encrypt_string}
use azure_keyvault_emulator.Encryption.Secrets.{
  Vault, Wrapped, plainly, decrypted_or, decrypt_record, value_to_store, set_encrypted,
  get_decrypted,
}

named_error-ok : {A : Type 0} (r : Outcome Error A) {a : A} → named_error r ≡ ok a → r ≡ ok a
named_error-ok (ok a) h = ap (λ a. ok a) (ok-injective h)
named_error-ok (err e) h = cc
named_error-ok panic h = cc

plainly-ok : {A : Type 0} (r : Fallible A) {a : A} → plainly r ≡ ok a → r ≡ ok a
plainly-ok (ok a) h = ap (λ a. ok a) (ok-injective h)
plainly-ok (err e) h = cc
plainly-ok panic h = cc

-- SetSecret refuses an empty value.
set_secret-value :
    {M : Type 0} (now : ℕ) (buf : List ℕ) (name : String) (req : SecretSetRequest) (s : Store M)
    {r : SecretRecord}
    → (set_secret now buf name req s).0 ≡ ok r
    → (req.value == "") ≡ false
unfolding set_secret
set_secret-value now buf name req s h = ground arith

-- What a store answers behind a value that can fail.
handed_on :
    {M A : Type 0} (e : Fallible String) (m : String → Wrapped M A) (s : Store M) {a : A}
    → ((lift (plainly e) >>= m) s).0 ≡ ok a
    → (text : String) × (e ≡ ok text) × ((lift (plainly e) >>= m) s ≡ m text s)
handed_on (ok text) m s h = (text, refl, refl)
handed_on (err e) m s h = cc
handed_on panic m s h = cc

module _ (go : Ciphers) (vault : Vault) (key : Bytes) (opened : vault.key ≡ some key) where
  value_to_store-eq :
      (nonce : Bytes) (value : String)
      → value ≢ ""
      → value_to_store go vault nonce value ≡ plainly (encrypt_string go nonce key value)
  unfolding value_to_store
  value_to_store-eq nonce value given = ground (arith, opened, eq_iff value "")

  decrypt_record-eq :
      (r : SecretRecord) {text : String}
      → (r.value == "") ≡ false
      → decrypt_string go key r.value ≡ ok text
      → decrypt_record go vault r ≡ record r { value = text }
  unfolding decrypt_record decrypted_or
  decrypt_record-eq r given h = rw (opened, given, h)

module _ {M : Type 0} (go : Ciphers) (sound : AreSound go) (vault : Vault) (nonce key : Bytes)
    (fresh : IsBlock 12 nonce) (opened : vault.key ≡ some key) (now : ℕ) (buf : List ℕ)
    (name : String) (req : SecretSetRequest) (s : Store M) (given : req.value ≢ "")
    {r : SecretRecord} (done : (set_encrypted go vault nonce now buf name req s).0 ≡ ok r) where
  abbrev store_text : String → Wrapped M SecretRecord
  store_text text = delegated (set_secret now buf name (record req { value = text }))

  set_encrypted-eq :
      set_encrypted go vault nonce now buf name req s
      ≡ (lift (plainly (encrypt_string go nonce key req.value)) >>= store_text) s
  unfolding set_encrypted
  set_encrypted-eq = rw (value_to_store-eq go vault key opened nonce req.value given)

  -- The value that is stored, and answered, is the encrypted one.
  pub set_encrypted-eq_ok :
      (text : String) × (encrypt_string go nonce key req.value ≡ ok text)
      × ((set_secret now buf name (record req { value = text }) s).0 ≡ ok r)
      × ((set_encrypted go vault nonce now buf name req s).1
          ≡ (set_secret now buf name (record req { value = text }) s).1)
  set_encrypted-eq_ok =
      let (text, sealed, same) =
        handed_on (encrypt_string go nonce key req.value) store_text s
          (sym (ap (λ x. x.0) set_encrypted-eq) ∙ done) in
      let all = set_encrypted-eq ∙ same in
      (text, sealed, named_error-ok _ (sym (ap (λ x. x.0) all) ∙ done), ap (λ x. x.1) all)

  answered_text :
      (text : String)
      → (set_secret now buf name (record req { value = text }) s).0 ≡ ok r
      → r.value ≡ text
  unfolding new_secret clone_secret_record
  answered_text text set =
      let (_, answer, _) = set_secret-eq_ok now buf name (record req { value = text }) s set in
      ap (λ x. x.value) answer

  read_back :
      (text : String)
      → encrypt_string go nonce key req.value ≡ ok text
      → (set_secret now buf name (record req { value = text }) s).0 ≡ ok r
      → decrypt_record go vault r ≡ record r { value = req.value }
  read_back text sealed set =
      let stored = answered_text text set in
      decrypt_record-eq go vault key opened r
        (rw stored (set_secret-value now buf name (record req { value = text }) s set))
        (rw stored (decrypt_string-encrypt_string go sound nonce key fresh req.value text sealed))

  -- In an open vault, if the AEAD opens what it has sealed and the nonce has twelve bytes, a
  -- successful SetSecret of a value that is not empty answers the record with what EncryptString makes
  -- of the value in the value's place, and GetSecret of the wrapped store with no version answers that
  -- record too.
  pub set_encrypted-hides :
      (encrypt_string go nonce key req.value ≡ ok r.value)
      × ((get_secret name "" (set_encrypted go vault nonce now buf name req s).1).0 ≡ ok r)
  set_encrypted-hides =
      let (text, sealed, set, after) = set_encrypted-eq_ok in
      (
        sealed ∙ ap (λ t. ok t) (sym (answered_text text set)),
        rw (after, get-set now buf name (record req { value = text }) s set),
      )

  -- In an open vault, if the AEAD opens what it has sealed and the nonce has twelve bytes, GetSecret with no version after a
  -- successful SetSecret of a value that is not empty answers the record that SetSecret answered, with
  -- the value of the request in place of the encrypted one.
  pub get_decrypted-set_encrypted :
      (get_decrypted go vault name "" (set_encrypted go vault nonce now buf name req s).1).0
      ≡ ok (record r { value = req.value })
  unfolding get_decrypted
  get_decrypted-set_encrypted =
      let (text, sealed, set, after) = set_encrypted-eq_ok in
      rw
        (after, get-set now buf name (record req { value = text }) s set, read_back text sealed set)
