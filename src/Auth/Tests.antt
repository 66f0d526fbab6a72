-- ===== src/Auth/Tests.antt =====
-- Runs of the accounts and sessions of internal/auth/auth.go, and its theorems at concrete inputs.
use azure_keyvault_emulator.Prelude.{
  ◌+◌, String, ◌≡◌, refl, ◌≢◌, true, none, some, List, [], ◌∷◌, arith, ◌==◌, eq_iff, leb,
  if◌then◌else◌,
}
use azure_keyvault_emulator.Prelude.Dict.{lookup, erase}
use azure_keyvault_emulator.Prelude.Outcome.{ok, err}
use azure_keyvault_emulator.Prelude.Outcome.Runs.{serve, NeverPanics}
use azure_keyvault_emulator.Prelude.Text.Hex.{hex_encode, hex_digit}
use azure_keyvault_emulator.Auth.{
  Bcrypt, User, admin, contributor, Session, Service, already_initialized, setup, login,
  validate_session, delete_user, new_session, find_user, without, has_user, has_admin, clashes,
  insert_user, new_user, validate_credentials_input, is_initialized, session_ttl, is_expired,
  session_checked,
}
use azure_keyvault_emulator.Auth.Sessions.{validate_session-login, delete_user-revokes}
use azure_keyvault_emulator.Auth.Accounts.{
  AccountCall, run_account, HasOneAdminAtMost, serve_accounts_safe, setup-once,
}

-- The hash of a password is the password.
abbrev plain : Bcrypt
plain = record {
  generate = λ _ password. some password;
  matches = λ hash password. hash == password;
}

abbrev empty : Service
empty = record { users = []; config = []; sessions = [] }

abbrev root : User
root = record { id = "01"; username = "root"; password_hash = "pw"; role = admin; created_at = 5 }

abbrev guest : Session
guest = record {
  token = "aa";
  user_id = "02";
  username = "guest";
  role = contributor;
  expires_at = 1000;
}

abbrev running : Service
running = record { users = root ∷ []; config = []; sessions = ("aa", guest) ∷ [] }

abbrev opened : Session
opened = record {
  token = "0b";
  user_id = "01";
  username = "root";
  role = admin;
  expires_at = 86500;
}

logs_in : (login plain 100 (11 ∷ []) "root" "pw" running).0 ≡ ok opened
unfolding login find_user new_session hex_encode hex_digit
logs_in = refl

abbrev logged_in : Service
logged_in = (login plain 100 (11 ∷ []) "root" "pw" running).1

token_given : ◌≢◌ {A = String} "0b" ""
token_given e = ground (arith, eq_iff "0b" "")

validate_session-login_example :
    ((u : User) × (find_user "root" running.users ≡ some u)
      × ("01" ≡ u.id)
      × (admin ≡ u.role)
      × (plain.matches u.password_hash "pw" ≡ true))
    × (validate_session 200 201 "0b" logged_in ≡ (
        if leb (100 + session_ttl) 200
        then (none, record logged_in { sessions = erase "0b" logged_in.sessions })
        else (some opened, logged_in)))
validate_session-login_example =
    validate_session-login plain 100 (11 ∷ []) "root" "pw" running 200 201 logs_in token_given
      (omega arith)

deletes : (delete_user "01" running).0 ≡ ok tt
unfolding delete_user has_user
deletes = refl

guest_valid : (validate_session 200 201 "aa" (delete_user "01" running).1).0 ≡ some guest
unfolding delete_user has_user validate_session session_checked is_expired without lookup
guest_valid = refl

delete_user-revokes_example : guest.user_id ≢ "01"
delete_user-revokes_example =
    delete_user-revokes "01" running 200 201 "aa" guest deletes guest_valid

sets_up : (setup plain 5 (1 ∷ []) "root" "pw" empty).0 ≡ ok root
unfolding setup validate_credentials_input has_admin new_user insert_user clashes hex_encode
    hex_digit
sets_up = refl

abbrev set_up : Service
set_up = (setup plain 5 (1 ∷ []) "root" "pw" empty).1

name_given : ◌≢◌ {A = String} "eve" ""
name_given e = ground (arith, eq_iff "eve" "")

password_given : ◌≢◌ {A = String} "pw" ""
password_given e = ground (arith, eq_iff "pw" "")

setup-once_example :
    (root.role ≡ admin)
    × (is_initialized set_up ≡ (ok true, set_up))
    × (setup plain 6 (2 ∷ []) "eve" "pw" set_up ≡ (err already_initialized, set_up))
setup-once_example =
    setup-once plain 5 (1 ∷ []) "root" "pw" empty 6 (2 ∷ []) "eve" "pw" sets_up name_given
      password_given

abbrev calls : List AccountCall
calls =
    AccountCall.set_up 5 (1 ∷ []) "root" "pw"
    ∷ AccountCall.create 6 (2 ∷ []) "eve" "pw" admin
    ∷ AccountCall.log_in 7 (3 ∷ []) "root" "pw"
    ∷ AccountCall.delete "01"
    ∷ []

serve_accounts_safe_example :
    NeverPanics (serve (run_account plain) calls empty).0
    × HasOneAdminAtMost (serve (run_account plain) calls empty).1
serve_accounts_safe_example = serve_accounts_safe plain calls empty (omega arith)
