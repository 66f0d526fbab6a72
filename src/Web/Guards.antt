-- ===== src/Web/Guards.antt =====
-- requireSession and requireAdmin of internal/web/handler.go: who gets through.
use azure_keyvault_emulator.Prelude.{
  ℕ, arith, String, ◌≡◌, refl, true, false, ◌⊎◌, inl, inr, some, if◌then◌else◌, Option-cases,
  Bool-cases,
}
use azure_keyvault_emulator.Prelude.Dict.{lookup}
use azure_keyvault_emulator.Prelude.Outcome.{Outcome, err, raise}
use azure_keyvault_emulator.Store.{Store}
use azure_keyvault_emulator.Storer.{KeyMethods, CertificateMethods}
use azure_keyvault_emulator.Auth.{
  Service, Session, is_admin, is_expired, validate_session, session_checked,
}
use azure_keyvault_emulator.Web.Replies.{Reply, error_reply}
use azure_keyvault_emulator.Web.{Web, WebRequest, WebMoment, WebHandler}
use azure_keyvault_emulator.Web.Accounts.{
  require_session, require_admin, validated, authentication_required,
}
use azure_keyvault_emulator.Web.Routes.{
  WebRoute, AdminRoute, for_all, for_session, for_admin, WebPackages, serve_route, serve_session,
  serve_admin,
}

-- A validation drops a session at most.
validate_session-keeps :
    (now later : ℕ) (token : String) (s : Service)
    → ((validate_session now later token s).1.users ≡ s.users)
      × ((validate_session now later token s).1.config ≡ s.config)
unfolding validate_session session_checked
validate_session-keeps now later token s = (ground arith, ground arith)

validate_session-some :
    (now later : ℕ) (token : String) (s : Service) {v : Session}
    → (validate_session now later token s).0 ≡ some v
    → (lookup token s.sessions ≡ some v) × (is_expired now v ≡ false)
unfolding validate_session session_checked
validate_session-some now later token s h = ground arith

abbrev pub forbidden : Reply
forbidden = error_reply 403 "admin access required"

module _ {M : Type 0} where
  -- Sessions aside, nothing has changed.
  abbrev pub IsUntouched : Web M → Web M → Type 0
  IsUntouched w t =
      (t.auth.users ≡ w.auth.users)
      × (t.auth.config ≡ w.auth.config)
      × (t.inner ≡ w.inner)
      × (t.enc_key ≡ w.enc_key)

  -- A session whose token the cookie has, and which has not expired.
  abbrev pub HasSession : WebMoment → WebRequest → Web M → Session → Type 0
  HasSession at r w session =
      (token : String) × (r.cookie ≡ some token)
      × (lookup token w.auth.sessions ≡ some session)
      × (is_expired at.now session ≡ false)

  abbrev pub IsRefused : Reply → Web M → Outcome Reply Reply × Web M → Type 0
  IsRefused reply w x = (x.0 ≡ err reply) × IsUntouched w x.1

module _ {M : Type 0} (at : WebMoment) (r : WebRequest) (next : Session → WebHandler M)
    (w : Web M) where
  abbrev after_validation : String → Web M
  after_validation token = record w { auth = (validate_session at.now at.later token w.auth).1 }

  after_validation-IsUntouched : (token : String) → IsUntouched w (after_validation token)
  after_validation-IsUntouched token =
      let (users, config) = validate_session-keeps at.now at.later token w.auth in
      (users, config, refl, refl)

  with_cookie :
      (token : String)
      → r.cookie ≡ some token
      → ((session : Session) × HasSession at r w session
          × (require_session at r next w ≡ next session (after_validation token)))
        ⊎ IsRefused authentication_required w (require_session at r next w)
  unfolding require_session validated
  with_cookie token sent = elim (Option-cases (validate_session at.now at.later token w.auth).0) [
    | inl missing ↦ inr (rw sent (rw missing (refl, after_validation-IsUntouched token)))
    | inr (session, found) ↦
        let (known, lasts) = validate_session-some at.now at.later token w.auth found in
        inl (session, (token, sent, known, lasts), rw sent (rw found refl))
  ]

  require_session-cases :
      ((token : String) × (session : Session) × HasSession at r w session
        × (require_session at r next w ≡ next session (after_validation token)))
      ⊎ IsRefused authentication_required w (require_session at r next w)
  unfolding require_session
  require_session-cases = elim (Option-cases r.cookie) [
    | inl missing ↦ inr (rw missing (refl, (refl, refl, refl, refl)))
    | inr (token, sent) ↦ elim (with_cookie token sent) [
      | inl (session, known, same) ↦ inl (token, session, known, same)
      | inr refused ↦ inr refused
    ]
  ]

module _ {M : Type 0} (at : WebMoment) (r : WebRequest) where
  -- Who may call a route.
  abbrev pub IsAllowed : WebRoute → Web M → Type 0
  IsAllowed (for_all route) w = Unit
  IsAllowed (for_session route) w = (session : Session) × HasSession at r w session
  IsAllowed (for_admin route) w =
      (session : Session) × HasSession at r w session × (is_admin session.role ≡ true)

  admin_only :
      (next : Session → WebHandler M) (w : Web M)
      → IsAllowed (for_admin AdminRoute.list_users) w
        ⊎ (IsRefused authentication_required w (require_admin at r next w)
            ⊎ IsRefused forbidden w (require_admin at r next w))
  unfolding require_admin
  admin_only next w =
      elim (require_session-cases at r
        (λ session. if is_admin session.role then next session else raise forbidden) w) [
          | inr refused ↦ inr (inl refused)
          | inl (token, session, known, same) ↦ elim (Bool-cases (is_admin session.role)) [
            | inl is ↦ inl (session, known, is)
            | inr not_admin ↦ inr (
                inr (rw same (rw not_admin (refl, after_validation-IsUntouched at r next w token))))
          ]
        ]

  module _ (go : WebPackages) (keys : KeyMethods (Store M))
      (certificates : CertificateMethods (Store M)) where
    -- A request for a route behind requireSession has a cookie with the token of a session that has
    -- not expired, and for a route behind requireAdmin that session is an administrator's; or else
    -- it is refused with 401 or 403, and no account, configuration, object or key is changed.
    pub serve_route-guarded :
        (route : WebRoute) (w : Web M)
        → IsAllowed route w
          ⊎ (IsRefused authentication_required w (serve_route go keys certificates at r route w)
              ⊎ IsRefused forbidden w (serve_route go keys certificates at r route w))
    unfolding serve_route
    serve_route-guarded (for_all route) w = inl tt
    serve_route-guarded (for_session route) w =
        elim (require_session-cases at r (serve_session go keys certificates at r route) w) [
          | inl (token, session, known, same) ↦ inl (session, known)
          | inr refused ↦ inr (inl refused)
        ]
    serve_route-guarded (for_admin route) w =
        admin_only (λ session. serve_admin go keys certificates at r route) w
