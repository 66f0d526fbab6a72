-- ===== src/Auth.antt =====
-- The accounts and sessions of internal/auth/auth.go. The three tables are the two of the database
-- and the map of sessions. A statement of SQL is what it does to the rows, with the constraints of
-- `migrate`; a database that fails for another reason is not modelled. The clock's reading and
-- the bytes of `crypto/rand` are arguments, and `bcrypt` is a parameter.
pub mod Sessions
pub mod Accounts
pub mod Tests
use Prim.Native.String.{compare}
use text.Mathlib.Text.{is_le}
use azure_keyvault_emulator.Prelude.{
  ℕ, zero, suc, ◌+◌, String, Bool, true, false, not, ◌&&◌, ◌||◌, Option, none, some, List, [], ◌∷◌,
  ◌++◌, ◌==◌, leb, ltb, eqb, is_empty, if◌then◌else◌,
}
use azure_keyvault_emulator.Prelude.Dict.{Dict, lookup, insert, erase}
use azure_keyvault_emulator.Prelude.Outcome.{
  Outcome, ok, err, panic, Method, pure, raise, gets, or_raise, raise_if, modify, continue, ◌>>=◌,
  ◌>>◌,
}
use azure_keyvault_emulator.Prelude.Text.Hex.{hex_encode}

pub data Role : Type 0 where
  admin : Role
  contributor : Role
  reader : Role
  other : String → Role

pub record User : Type 0 where
  pub id : String
  pub username : String
  pub password_hash : String
  pub role : Role
  pub created_at : ℕ

pub record Session : Type 0 where
  pub token : String
  pub user_id : String
  pub username : String
  pub role : Role
  pub expires_at : ℕ

pub record Service : Type 0 where
  pub users : List User
  pub config : Dict String
  pub sessions : Dict Session

pub data AuthError : Type 0 where
  already_initialized : AuthError
  invalid_credentials : AuthError
  constraint : AuthError
  message : String → AuthError

abbrev pub AuthCall : Type 0 → Type 0
AuthCall A = Method Service AuthError A

-- `bcrypt`: a hash, which a password that is too long has not, and the comparison of the two.
pub record Bcrypt : Type 0 where
  pub generate : List ℕ → String → Option String
  pub matches : String → String → Bool

abbrev pub session_ttl : ℕ
session_ttl = 86400

unfoldable pub is_admin : Role → Bool
is_admin admin = true
is_admin contributor = false
is_admin reader = false
is_admin (other t) = false

unfoldable pub is_valid : Role → Bool
is_valid admin = true
is_valid contributor = true
is_valid reader = true
is_valid (other t) = false

-- `SELECT EXISTS(… WHERE role = 'admin')`
unfoldable pub has_admin : List User → Bool
has_admin [] = false
has_admin (u ∷ us) = is_admin u.role || has_admin us

unfoldable pub find_user : String → List User → Option User
find_user username [] = none
find_user username (u ∷ us) = if u.username == username then some u else find_user username us

-- The primary key, the unique name, and the index `users_single_admin`.
unfoldable pub clashes : User → List User → Bool
clashes new [] = false
clashes new (u ∷ us) =
    u.id == new.id
    || (u.username == new.username || (is_admin u.role && is_admin new.role || clashes new us))

unfoldable pub insert_user : User → AuthCall (Unit {0})
insert_user user = do
  clash ← gets (λ s. clashes user s.users)
  raise_if clash constraint
  modify (λ s. record s { users = s.users ++ user ∷ [] })

unfoldable pub validate_credentials_input : String → String → AuthCall (Unit {0})
validate_credentials_input username password = do
  raise_if (username == "") (message "username is required")
  raise_if (password == "") (message "password is required")

unfoldable pub new_user : Bcrypt → ℕ → List ℕ → String → String → Role → AuthCall User
new_user bcrypt now random username password role = do
  hash ← or_raise (bcrypt.generate random password) (message "bcrypt")
  pure (record {
    id = hex_encode random;
    username = username;
    password_hash = hash;
    role = role;
    created_at = now;
  })

unfoldable pub is_initialized : AuthCall Bool
is_initialized = gets (λ s. has_admin s.users)

-- The transaction: what fails before the commit changes nothing.
unfoldable pub setup : Bcrypt → ℕ → List ℕ → String → String → AuthCall User
setup bcrypt now random username password = do
  validate_credentials_input username password
  exists ← gets (λ s. has_admin s.users)
  raise_if exists already_initialized
  user ← new_user bcrypt now random username password admin
  insert_user user
  pure user

unfoldable pub create_user : Bcrypt → ℕ → List ℕ → String → String → Role → AuthCall User
create_user bcrypt now random username password role = do
  validate_credentials_input username password
  raise_if (not (is_valid role)) (message "invalid role")
  user ← new_user bcrypt now random username password role
  insert_user user
  pure user

-- The loop that deletes the entries that `drops` holds of.
unfoldable pub without : (Session → Bool) → Dict Session → Dict Session
without drops [] = []
without drops ((token, session) ∷ rest) =
    let kept = without drops rest in if drops session then kept else (token, session) ∷ kept

unfoldable pub is_expired : ℕ → Session → Bool
is_expired now session = leb session.expires_at now

unfoldable pub new_session : ℕ → List ℕ → User → Session
new_session now random user = record {
  token = hex_encode random;
  user_id = user.id;
  username = user.username;
  role = user.role;
  expires_at = now + session_ttl;
}

unfoldable pub login : Bcrypt → ℕ → List ℕ → String → String → AuthCall Session
login bcrypt now random username password = do
  raise_if (username == "" || password == "") invalid_credentials
  found ← gets (λ s. find_user username s.users)
  user ← or_raise found invalid_credentials
  raise_if (not (bcrypt.matches user.password_hash password)) invalid_credentials
  let session = new_session now random user
  modify (λ s. record s {
    sessions = insert session.token session (without (is_expired now) s.sessions);
  })
  pure session

-- The second look at a session that has expired, under the other lock and at a later time.
unfoldable pub drop_expired : ℕ → String → Option Session → Dict Session → Dict Session
drop_expired now token none sessions = sessions
drop_expired now token (some current) sessions =
    if is_expired now current then erase token sessions else sessions

-- ValidateSession: `now` and `later` are its two readings of the clock.
unfoldable pub session_checked :
    ℕ → ℕ → String → Option Session → Service → Option Session × Service
session_checked now later token none s = (none, s)
session_checked now later token (some session) s =
    if is_expired now session
    then (
      none,
      record s { sessions = drop_expired later token (lookup token s.sessions) s.sessions },
    )
    else (some session, s)

unfoldable pub validate_session : ℕ → ℕ → String → Service → Option Session × Service
validate_session now later token s =
    if token == "" then (none, s) else session_checked now later token (lookup token s.sessions) s

unfoldable pub logout : String → AuthCall (Unit {0})
logout token = modify (λ s. record s { sessions = erase token s.sessions })

-- `ORDER BY created_at ASC, username ASC`, as an insertion sort.
unfoldable pub comes_before : User → User → Bool
comes_before u v =
    ltb u.created_at v.created_at
    || (eqb u.created_at v.created_at && is_le (compare u.username v.username))

unfoldable pub insert_ordered : User → List User → List User
insert_ordered u [] = u ∷ []
insert_ordered u (v ∷ vs) =
    let rest = insert_ordered u vs in if comes_before u v then u ∷ v ∷ vs else v ∷ rest

unfoldable pub ordered : List User → List User
ordered [] = []
ordered (u ∷ us) = insert_ordered u (ordered us)

unfoldable pub list_users : AuthCall (List User)
list_users = gets (λ s. ordered s.users)

-- `DELETE FROM users WHERE id = ?`
unfoldable pub without_user : String → List User → List User
without_user id [] = []
without_user id (u ∷ us) = let kept = without_user id us in if u.id == id then kept else u ∷ kept

unfoldable pub has_user : String → List User → Bool
has_user id [] = false
has_user id (u ∷ us) = u.id == id || has_user id us

unfoldable pub delete_user : String → AuthCall (Unit {0})
delete_user id = do
  raise_if (id == "") (message "user id is required")
  present ← gets (λ s. has_user id s.users)
  raise_if (not present) (message "user not found")
  modify (λ s. record s {
    users = without_user id s.users;
    sessions = without (λ session. session.user_id == id) s.sessions;
  })

unfoldable pub config_value : Option String → String × Bool
config_value none = ("", false)
config_value (some value) = (value, true)

unfoldable pub get_config : String → AuthCall (String × Bool)
get_config key = gets (λ s. if key == "" then ("", false) else config_value (lookup key s.config))

unfoldable pub set_config : String → String → AuthCall (Unit {0})
set_config key value = do
  raise_if (key == "") (message "config key is required")
  modify (λ s. record s { config = insert key value s.config })
