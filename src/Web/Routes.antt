-- ===== src/Web/Routes.antt =====
-- The routes that internal/web/handler.go registers, but those of its pages: who may call them, and
-- their handlers.
use azure_keyvault_emulator.Store.{Store}
use azure_keyvault_emulator.Storer.{KeyMethods, CertificateMethods}
use azure_keyvault_emulator.Auth.{Session}
use azure_keyvault_emulator.Web.{WebRequest, WebMoment, WebHandler}
use azure_keyvault_emulator.Web.Setup.{VaultPackages, handle_status, handle_setup, handle_unlock}
use azure_keyvault_emulator.Web.Accounts.{
  AccountPackages, handle_login, handle_logout, handle_me, handle_list_users, handle_create_user,
  handle_delete_user, require_session, require_admin,
}
use azure_keyvault_emulator.Web.Objects.{
  handle_list_secrets, handle_create_secret, handle_get_secret, handle_delete_secret,
  handle_list_keys, handle_create_key, handle_delete_key, handle_list_certificates,
  handle_generate_certificate, handle_import_certificate, handle_delete_certificate,
}
use azure_keyvault_emulator.Web.Objects.Requests.{ObjectPackages}
use azure_keyvault_emulator.Web.Details.{DetailPackages, handle_get_key, handle_get_certificate}

-- The routes that anybody may call.
pub data OpenRoute : Type 0 where
  status : OpenRoute
  setup : OpenRoute
  unlock : OpenRoute
  login : OpenRoute
  logout : OpenRoute

-- The routes behind requireSession.
pub data SessionRoute : Type 0 where
  me : SessionRoute
  list_secrets : SessionRoute
  create_secret : SessionRoute
  get_secret : SessionRoute
  delete_secret : SessionRoute
  list_keys : SessionRoute
  create_key : SessionRoute
  get_key : SessionRoute
  delete_key : SessionRoute
  list_certificates : SessionRoute
  generate_certificate : SessionRoute
  import_certificate : SessionRoute
  get_certificate : SessionRoute
  delete_certificate : SessionRoute

-- The routes behind requireAdmin.
pub data AdminRoute : Type 0 where
  list_users : AdminRoute
  create_user : AdminRoute
  delete_user : AdminRoute

pub data WebRoute : Type 0 where
  for_all : OpenRoute → WebRoute
  for_session : SessionRoute → WebRoute
  for_admin : AdminRoute → WebRoute

pub record WebPackages : Type 0 where
  pub vault : VaultPackages
  pub account : AccountPackages
  pub object : ObjectPackages
  pub detail : DetailPackages

module _ {M : Type 0} (go : WebPackages) (keys : KeyMethods (Store M))
    (certificates : CertificateMethods (Store M)) (at : WebMoment) (r : WebRequest) where
  unfoldable pub serve_open : OpenRoute → WebHandler M
  serve_open status = handle_status go.vault
  serve_open setup = handle_setup go.vault at r
  serve_open unlock = handle_unlock go.vault r
  serve_open login = handle_login go.account at r
  serve_open logout = handle_logout go.account r

  unfoldable pub serve_session : SessionRoute → Session → WebHandler M
  serve_session me session = handle_me go.account session
  serve_session list_secrets session = handle_list_secrets go.object at
  serve_session create_secret session = handle_create_secret go.object at r
  serve_session get_secret session = handle_get_secret go.object at r
  serve_session delete_secret session = handle_delete_secret go.object at r
  serve_session list_keys session = handle_list_keys go.object keys certificates
  serve_session create_key session = handle_create_key go.object keys certificates r
  serve_session get_key session = handle_get_key go.detail keys certificates r
  serve_session delete_key session = handle_delete_key go.object keys certificates r
  serve_session list_certificates session = handle_list_certificates go.object keys certificates
  serve_session generate_certificate session =
      handle_generate_certificate go.object keys certificates r
  serve_session import_certificate session = handle_import_certificate go.object keys certificates r
  serve_session get_certificate session = handle_get_certificate go.detail keys certificates r
  serve_session delete_certificate session = handle_delete_certificate go.object keys certificates r

  unfoldable pub serve_admin : AdminRoute → WebHandler M
  serve_admin list_users = handle_list_users go.account
  serve_admin create_user = handle_create_user go.account at r
  serve_admin delete_user = handle_delete_user go.account r

  unfoldable pub serve_route : WebRoute → WebHandler M
  serve_route (for_all route) = serve_open route
  serve_route (for_session route) = require_session at r (serve_session route)
  serve_route (for_admin route) = require_admin at r (λ session. serve_admin route)
