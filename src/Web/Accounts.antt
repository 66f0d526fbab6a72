-- ===== src/Web/Accounts.antt =====
-- The login, the session and the accounts in internal/web/handler.go.
use azure_keyvault_emulator.Prelude.{String, not, Option, none, some, map, if◌then◌else◌}
use azure_keyvault_emulator.Prelude.Outcome.{ok, pure, raise, or_raise, lift, raise_if, ◌>>=◌, ◌>>◌}
use azure_keyvault_emulator.Auth.{
  User, Session, AuthError, invalid_credentials, Bcrypt, is_admin, is_valid, login, logout,
  validate_session, list_users, create_user, delete_user,
}
use azure_keyvault_emulator.Web.Replies.{
  UserResponse, Reply, error_reply, json_reply, no_content, auth_body, user_body, users_body,
  done_body, set_cookie, cleared,
}
use azure_keyvault_emulator.Web.{
  WebRequest, WebMoment, LoginRequest, UserRequest, Scanned, WebCall, WebHandler, decode_json,
  on_auth,
}

pub record AccountPackages : Type 0 where
  pub login_request : String → Scanned LoginRequest
  pub user_request : String → Scanned UserRequest
  pub bcrypt : Bcrypt
  pub error_text : AuthError → String

unfoldable pub login_error : AccountPackages → AuthError → Reply
login_error go invalid_credentials = error_reply 401 "invalid credentials"
login_error go e = error_reply 400 (go.error_text e)

unfoldable pub user_response : User → UserResponse
user_response user = record {
  id = user.id;
  username = user.username;
  role = user.role;
  created_at = user.created_at;
}

abbrev pub authentication_required : Reply
authentication_required = error_reply 401 "authentication required"

module _ {M : Type 0} (go : AccountPackages) where
  unfoldable pub handle_login : WebMoment → WebRequest → WebHandler M
  handle_login at r = do
    req ← lift (decode_json go.login_request r)
    session ← on_auth (login go.bcrypt at.now at.random req.username req.password) (login_error go)
    pure
        (record (json_reply 200
          (auth_body (record { username = session.username; role = session.role }))) {
            cookie = set_cookie session.token session.expires_at;
          })

  abbrev end_session : Option String → WebCall M (Unit {0})
  end_session none w = (ok tt, w)
  end_session (some token) w = on_auth (logout token) (login_error go) w

  unfoldable pub handle_logout : WebRequest → WebHandler M
  handle_logout r = do
    end_session r.cookie
    pure (record (json_reply 200 done_body) { cookie = cleared })

  unfoldable pub handle_me : Session → WebHandler M
  handle_me session =
      pure
        (json_reply 200 (auth_body (record { username = session.username; role = session.role })))

  unfoldable pub handle_list_users : WebHandler M
  handle_list_users = do
    users ← on_auth list_users (λ e. error_reply 500 (go.error_text e))
    pure (json_reply 200 (users_body (map user_response users)))

  unfoldable pub handle_create_user : WebMoment → WebRequest → WebHandler M
  handle_create_user at r = do
    req ← lift (decode_json go.user_request r)
    raise_if (not (is_valid req.role)) (error_reply 400 "invalid role")
    user ←
        on_auth (create_user go.bcrypt at.now at.random req.username req.password req.role)
          (λ e. error_reply 400 (go.error_text e))
    pure (
        json_reply 200 (
          user_body
            (record { id = user.id; username = user.username; role = user.role; created_at = 0 })))

  unfoldable pub handle_delete_user : WebRequest → WebHandler M
  handle_delete_user r = do
    on_auth (delete_user r.path_value) (λ e. error_reply 400 (go.error_text e))
    pure no_content

module _ {M : Type 0} where
  unfoldable pub validated : WebMoment → String → WebCall M (Option Session)
  validated at token w =
      let (found, t) = validate_session at.now at.later token w.auth in
      (ok found, record w { auth = t })

  unfoldable pub require_session : WebMoment → WebRequest → (Session → WebHandler M) → WebHandler M
  require_session at r next = do
    token ← or_raise r.cookie authentication_required
    found ← validated at token
    session ← or_raise found authentication_required
    next session

  unfoldable pub require_admin : WebMoment → WebRequest → (Session → WebHandler M) → WebHandler M
  require_admin at r next = require_session at r (λ session.
      if is_admin session.role
      then next session
      else raise (error_reply 403 "admin access required"))
