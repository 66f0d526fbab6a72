-- ===== src/Auth/Accounts.antt =====
-- Setup, CreateUser and DeleteUser of internal/auth/auth.go: there is one administrator at most, as
-- the index of `migrate` demands, and Setup succeeds only once.
use azure_keyvault_emulator.Prelude.{
  ℕ, ◌+◌, ◌≤◌, String, ◌≡◌, refl, ◌≢◌, true, false, not, List, [], ◌∷◌, ◌++◌, arith, eq_iff,
  if◌then◌else◌, Bool-cases, inl, inr,
}
use azure_keyvault_emulator.Prelude.Outcome.{ok, err, Ends, pure, ◌>>◌, raise_if-Ends, then-Ends}
use azure_keyvault_emulator.Prelude.Outcome.Runs.{
  NeverPanics, answered, answered-Ends, serve, Each, serve-Ends,
}
use azure_keyvault_emulator.Prelude.Outcome.Yields.{
  Yields, yielded, raise_if-Yields, or_raise-Yields, then-Yields,
}
use azure_keyvault_emulator.Auth.{
  Bcrypt, User, Role, admin, Session, Service, already_initialized, AuthCall, setup, create_user,
  login, logout, delete_user, set_config, insert_user, new_user, validate_credentials_input,
  clashes, is_admin, is_valid, has_admin, without_user, is_initialized,
}

abbrev pub admins : List User → ℕ
admins [] = 0
admins (u ∷ us) = (if is_admin u.role then 1 else 0) + admins us

abbrev pub HasOneAdminAtMost : Service → Type 0
HasOneAdminAtMost s = admins s.users ≤ 1

admins-append :
    (us : List User) (u : User)
    → admins (us ++ u ∷ []) ≡ admins us + (if is_admin u.role then 1 else 0)
admins-append [] u = omega arith
admins-append (v ∷ us) u = rw (admins-append us u) (omega arith)

no_admins :
    (new : User) (us : List User)
    → clashes new us ≡ false
    → is_admin new.role ≡ true
    → admins us ≡ 0
unfolding clashes
no_admins new [] h a = refl
no_admins new (u ∷ us) h a = ground (arith, no_admins new us)

without_user-admins : (id : String) (us : List User) → admins (without_user id us) ≤ admins us
unfolding without_user
without_user-admins id [] = omega arith
without_user-admins id (u ∷ us) = ground (arith, without_user-admins id us)

has_admin-append :
    (us : List User) (u : User) → is_admin u.role ≡ true → has_admin (us ++ u ∷ []) ≡ true
unfolding has_admin
has_admin-append [] u h = ground arith
has_admin-append (v ∷ us) u h = ground (arith, has_admin-append us u h)

insert_user-Ends :
    (user : User) (s : Service) → HasOneAdminAtMost s → Ends HasOneAdminAtMost (insert_user user s)
unfolding insert_user
insert_user-Ends user s h = raise_if-Ends HasOneAdminAtMost s (clashes user s.users) _ _ h λ new.
    elim (Bool-cases (is_admin user.role)) [
      | inl yes_ ↦
          let none_yet = no_admins user s.users new yes_ in
          rw (admins-append s.users user, yes_, none_yet) (omega arith)
      | inr no_ ↦ rw (admins-append s.users user, no_) (omega arith)
    ]

validate_credentials_input-Ends :
    (username password : String) (s : Service)
    → HasOneAdminAtMost s
    → Ends HasOneAdminAtMost (validate_credentials_input username password s)
unfolding validate_credentials_input
validate_credentials_input-Ends username password s h = ground arith

new_user-Ends :
    (bcrypt : Bcrypt) (now : ℕ) (random : List ℕ) (username password : String) (role : Role)
    (s : Service)
    → HasOneAdminAtMost s
    → Ends HasOneAdminAtMost (new_user bcrypt now random username password role s)
unfolding new_user
new_user-Ends bcrypt now random username password role s h = ground arith

-- The last steps of Setup and of CreateUser.
inserted-Ends :
    (user : User) (s : Service)
    → HasOneAdminAtMost s
    → Ends HasOneAdminAtMost ((insert_user user >> pure user) s)
inserted-Ends user s h =
    then-Ends HasOneAdminAtMost (insert_user user s) _ (insert_user-Ends user s h) λ _ t k. k

pub data AccountCall : Type 0 where
  set_up : ℕ → List ℕ → String → String → AccountCall
  create : ℕ → List ℕ → String → String → Role → AccountCall
  log_in : ℕ → List ℕ → String → String → AccountCall
  log_out : String → AccountCall
  delete : String → AccountCall
  configure : String → String → AccountCall

pub data AccountReply : Type 0 where
  user : User → AccountReply
  session : Session → AccountReply
  done : AccountReply

module _ (bcrypt : Bcrypt) where
  setup-Ends :
      (now : ℕ) (random : List ℕ) (username password : String) (s : Service)
      → HasOneAdminAtMost s
      → Ends HasOneAdminAtMost (setup bcrypt now random username password s)
  unfolding setup
  setup-Ends now random username password s h =
      then-Ends HasOneAdminAtMost _ _ (validate_credentials_input-Ends username password s h)
        λ _ s h. raise_if-Ends HasOneAdminAtMost s (has_admin s.users) _ _ h λ _.
          then-Ends HasOneAdminAtMost _ _
            (new_user-Ends bcrypt now random username password admin s h)
            λ user t k. inserted-Ends user t k

  create_user-Ends :
      (now : ℕ) (random : List ℕ) (username password : String) (role : Role) (s : Service)
      → HasOneAdminAtMost s
      → Ends HasOneAdminAtMost (create_user bcrypt now random username password role s)
  unfolding create_user
  create_user-Ends now random username password role s h =
      then-Ends HasOneAdminAtMost _ _ (validate_credentials_input-Ends username password s h)
        λ _ s h. raise_if-Ends HasOneAdminAtMost s (not (is_valid role)) _ _ h λ _.
          then-Ends HasOneAdminAtMost _ _
            (new_user-Ends bcrypt now random username password role s h)
            λ user t k. inserted-Ends user t k

  login-Ends :
      (now : ℕ) (random : List ℕ) (username password : String) (s : Service)
      → HasOneAdminAtMost s
      → Ends HasOneAdminAtMost (login bcrypt now random username password s)
  unfolding login
  login-Ends now random username password s h = ground arith

  delete_user-Ends :
      (id : String) (s : Service) → HasOneAdminAtMost s → Ends HasOneAdminAtMost (delete_user id s)
  unfolding delete_user
  delete_user-Ends id s h = ground (arith, without_user-admins id s.users)

  pub run_account : AccountCall → AuthCall AccountReply
  run_account (set_up now random username password) =
      answered user (setup bcrypt now random username password)
  run_account (create now random username password role) =
      answered user (create_user bcrypt now random username password role)
  run_account (log_in now random username password) =
      answered session (login bcrypt now random username password)
  run_account (log_out token) = answered (λ _. done) (logout token)
  run_account (delete id) = answered (λ _. done) (delete_user id)
  run_account (configure key value) = answered (λ _. done) (set_config key value)

  abbrev Any : AccountCall → Type 0
  Any c = Unit

  run_account-Ends :
      (c : AccountCall) (s : Service)
      → Any c
      → HasOneAdminAtMost s
      → Ends HasOneAdminAtMost (run_account c s)
  unfolding run_account logout set_config
  run_account-Ends (set_up now random username password) s _ h =
      answered-Ends HasOneAdminAtMost user _ _ (setup-Ends now random username password s h)
  run_account-Ends (create now random username password role) s _ h =
      answered-Ends HasOneAdminAtMost user _ _
        (create_user-Ends now random username password role s h)
  run_account-Ends (log_in now random username password) s _ h =
      answered-Ends HasOneAdminAtMost session _ _ (login-Ends now random username password s h)
  run_account-Ends (log_out token) s _ h = h
  run_account-Ends (delete id) s _ h =
      answered-Ends HasOneAdminAtMost (λ _. done) _ _ (delete_user-Ends id s h)
  run_account-Ends (configure key value) s _ h = ground arith

  Each-Any : (calls : List AccountCall) → Each Any calls
  Each-Any [] = tt
  Each-Any (c ∷ calls) = (tt, Each-Any calls)

  -- Whatever the sequence of calls, from a service with one administrator at most: none of them
  -- panics, and there is one administrator at most at the end.
  pub serve_accounts_safe :
      (calls : List AccountCall) (s : Service)
      → HasOneAdminAtMost s
      → NeverPanics (serve run_account calls s).0 × HasOneAdminAtMost (serve run_account calls s).1
  serve_accounts_safe calls s =
      serve-Ends run_account HasOneAdminAtMost Any run_account-Ends calls s (Each-Any calls)

-- What a call that ends well has done on the way to an administrator.
abbrev Anything : Unit {0} → Service → Type 0
Anything _ t = Unit

abbrev IsOfRole : Role → User → Service → Type 0
IsOfRole role u t = u.role ≡ role

abbrev pub IsSetUp : User → Service → Type 0
IsSetUp u t = (u.role ≡ admin) × (has_admin t.users ≡ true)

validate_credentials_input-Yields :
    (username password : String) (s : Service)
    → Yields Anything (validate_credentials_input username password s)
unfolding validate_credentials_input
validate_credentials_input-Yields username password s = ground arith

new_user-Yields :
    (bcrypt : Bcrypt) (now : ℕ) (random : List ℕ) (username password : String) (role : Role)
    (s : Service)
    → Yields (IsOfRole role) (new_user bcrypt now random username password role s)
unfolding new_user
new_user-Yields bcrypt now random username password role s =
    or_raise-Yields (IsOfRole role) s (bcrypt.generate random password) _ _ λ _ _. refl

inserted-Yields :
    (u : User) (s : Service) → u.role ≡ admin → Yields IsSetUp ((insert_user u >> pure u) s)
unfolding insert_user is_admin
inserted-Yields u s same = elim (Bool-cases (clashes u s.users)) [
  | inl clash ↦ rw clash tt
  | inr new ↦ rw new (same, has_admin-append s.users u (admin_of u.role same))
]
  where
    admin_of : (r : Role) → r ≡ admin → is_admin r ≡ true
    admin_of r e = rw e

module _ (bcrypt : Bcrypt) (now : ℕ) (random : List ℕ) (username password : String)
    (s : Service) where
  setup-Yields : Yields IsSetUp (setup bcrypt now random username password s)
  unfolding setup
  setup-Yields =
      then-Yields Anything IsSetUp _ _ (validate_credentials_input-Yields username password s)
        λ _ t _. raise_if-Yields IsSetUp t (has_admin t.users) _ _ λ _.
          then-Yields (IsOfRole admin) IsSetUp _ _
            (new_user-Yields bcrypt now random username password admin t)
            λ u t' same. inserted-Yields u t' same

  refused :
      (t : Service) (now' : ℕ) (random' : List ℕ) (username' password' : String)
      → has_admin t.users ≡ true
      → username' ≢ ""
      → password' ≢ ""
      → setup bcrypt now' random' username' password' t ≡ (err already_initialized, t)
  unfolding setup validate_credentials_input
  refused t now' random' username' password' h named secret =
      ground (arith, eq_iff username' "", eq_iff password' "")

  -- A Setup that succeeds answers an administrator; IsInitialized is true after it, and a second
  -- Setup with a name and a password is refused and changes nothing.
  pub setup-once :
      (now' : ℕ) (random' : List ℕ) (username' password' : String) {u : User}
      → (setup bcrypt now random username password s).0 ≡ ok u
      → username' ≢ ""
      → password' ≢ ""
      → let t = (setup bcrypt now random username password s).1 in
        (u.role ≡ admin)
        × (is_initialized t ≡ (ok true, t))
        × (setup bcrypt now' random' username' password' t ≡ (err already_initialized, t))
  unfolding is_initialized
  setup-once now' random' username' password' made named secret =
      let t = (setup bcrypt now random username password s).1 in
      let (role, h) =
        yielded IsSetUp (setup bcrypt now random username password s) setup-Yields made in
      (role, rw h, refused t now' random' username' password' h named secret)
