-- ===== src/Auth/Sessions.antt =====
-- Login, ValidateSession, Logout and DeleteUser of internal/auth/auth.go: when a session is valid.
use mathlib.Core.Path.{subst}
use mathlib.Core.Option.{some-injective}
use azure_keyvault_emulator.Prelude.{
  ℕ, ◌+◌, ◌≤◌, String, ◌≡◌, refl, ◌≢◌, Bool, true, false, inl, inr, none, some, List, [], ◌∷◌,
  arith, ◌==◌, eq_iff, leb, not, ◌||◌, if◌then◌else◌, Bool-cases,
}
use azure_keyvault_emulator.Prelude.Dict.{Dict, lookup, erase, lookup-insert}
use azure_keyvault_emulator.Prelude.Outcome.{ok}
use azure_keyvault_emulator.Prelude.Outcome.Yields.{
  Yields, yielded, raise_if-Yields, or_raise-Yields,
}
use azure_keyvault_emulator.Auth.{
  Bcrypt, User, Session, Service, session_ttl, login, validate_session, session_checked,
  drop_expired, is_expired, without, new_session, delete_user, find_user, has_user,
}

-- What is found behind the loop is not what it deletes.
lookup-without :
    (drops : Session → Bool) (token : String) (d : Dict Session) {v : Session}
    → lookup token (without drops d) ≡ some v
    → drops v ≡ false
unfolding lookup without
lookup-without drops token [] h = cc
lookup-without drops token ((k, session) ∷ d) h = elim (Bool-cases (drops session)) [
  | inl dropped ↦ lookup-without drops token d (rw dropped at h)
  | inr kept ↦ elim (Bool-cases (k == token)) [
    | inl same ↦ subst (λ x. drops x ≡ false) (some-injective _ _ (rw (kept, same) at h)) kept
    | inr differ ↦ lookup-without drops token d (rw (kept, differ) at h)
  ]
]

-- A session that is found is answered until it expires, and then deleted.
validate_session-found :
    (now later : ℕ) (token : String) (s : Service) (v : Session)
    → token ≢ ""
    → lookup token s.sessions ≡ some v
    → now ≤ later
    → validate_session now later token s ≡ (
        if leb v.expires_at now
        then (none, record s { sessions = erase token s.sessions })
        else (some v, s))
unfolding validate_session session_checked drop_expired is_expired
validate_session-found now later token s v given found after =
    ground (arith, eq_iff token "", found)

module _ (bcrypt : Bcrypt) (now : ℕ) (random : List ℕ) (username password : String)
    (s : Service) where
  -- A session of the user of the name, whose password was checked, that is kept for a day.
  abbrev pub IsLoggedIn : Session → Service → Type 0
  IsLoggedIn v t =
      (lookup v.token t.sessions ≡ some v)
      × (v.expires_at ≡ now + session_ttl)
      × ((u : User) × (find_user username s.users ≡ some u)
          × (v.user_id ≡ u.id)
          × (v.role ≡ u.role)
          × (bcrypt.matches u.password_hash password ≡ true))
      × (t.users ≡ s.users)

  login-Yields : Yields IsLoggedIn (login bcrypt now random username password s)
  unfolding login new_session
  login-Yields = raise_if-Yields IsLoggedIn s (username == "" || password == "") _ _ λ _.
      or_raise-Yields IsLoggedIn s (find_user username s.users) _ _ λ u found.
        raise_if-Yields IsLoggedIn s (not (bcrypt.matches u.password_hash password)) _ _ λ right.
          let session = new_session now random u in
          (
            ground (
              arith,
              lookup-insert session.token session.token session
                  (without (is_expired now) s.sessions),
              eq_iff session.token session.token,
            ),
            refl,
            (u, found, refl, refl, ground arith),
            refl,
          )

  -- A Login that succeeds answers a session of the user of the name, whose password matched; the
  -- token, if it is not empty, is valid for a day from the login on, and deleted by a validation
  -- after that, whose second reading of the clock is not before its first.
  pub validate_session-login :
      (at later : ℕ) {v : Session}
      → (login bcrypt now random username password s).0 ≡ ok v
      → v.token ≢ ""
      → at ≤ later
      → let t = (login bcrypt now random username password s).1 in
        ((u : User) × (find_user username s.users ≡ some u)
          × (v.user_id ≡ u.id)
          × (v.role ≡ u.role)
          × (bcrypt.matches u.password_hash password ≡ true))
        × (validate_session at later v.token t ≡ (
            if leb (now + session_ttl) at
            then (none, record t { sessions = erase v.token t.sessions })
            else (some v, t)))
  validate_session-login at later {v} done given after =
      let (found, expiry, owner, _) =
        yielded IsLoggedIn (login bcrypt now random username password s) login-Yields done in
      (owner, rw (← expiry) (validate_session-found at later v.token _ v given found after))

-- A session that is answered is that of its token.
validate_session-lookup :
    (now later : ℕ) (token : String) (s : Service) (v : Session)
    → (validate_session now later token s).0 ≡ some v
    → lookup token s.sessions ≡ some v
unfolding validate_session session_checked
validate_session-lookup now later token s v valid = ground arith

-- What DeleteUser leaves.
module _ (id : String) (s : Service) where
  abbrev IsRevoked : Unit {0} → Service → Type 0
  IsRevoked _ t =
      (token : String) (v : Session) → lookup token t.sessions ≡ some v → (v.user_id == id) ≡ false

  delete_user-Yields : Yields IsRevoked (delete_user id s)
  unfolding delete_user
  delete_user-Yields = raise_if-Yields IsRevoked s (id == "") _ _ λ _.
      raise_if-Yields IsRevoked s (not (has_user id s.users)) _ _
        λ _ token v found. lookup-without (λ session. session.user_id == id) token s.sessions found

  -- After a DeleteUser that succeeds, no token is that of a session of the user.
  pub delete_user-revokes :
      (now later : ℕ) (token : String) (v : Session)
      → (delete_user id s).0 ≡ ok tt
      → (validate_session now later token (delete_user id s).1).0 ≡ some v
      → v.user_id ≢ id
  delete_user-revokes now later token v done valid same =
      let kept =
        yielded IsRevoked (delete_user id s) delete_user-Yields done token v
          (validate_session-lookup now later token _ v valid) in
      cc ((eq_iff v.user_id id).1 same)
