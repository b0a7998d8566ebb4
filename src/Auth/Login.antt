-- ===== src/Auth/Login.antt =====
-- `Login` and `AuthenticateRequest` of internal/auth/auth.go together: how long a session counts.
use cartolensia.Prelude.{
  ℕ, ◌+◌, true, Option, none, some, [], ◌≡◌, ◌≢◌, inl, inr, refl, arith, Text, text_eq, ltb, leb,
  is_none, same_text_iff, Bool-cases, if◌then◌else◌,
}
use cartolensia.Prelude.Dict.{lookup, Each}
use cartolensia.Texts.Trim.{normal}
use cartolensia.Auth.{unauthenticated, Result, ok, err, User, Session, session_cookie, Crypto}
use cartolensia.Auth.Store.{
  MemorySession, AuthStore, create_session, delete_expired_sessions, user_by_email, user_at,
}
use cartolensia.Auth.Service.{
  Config, Request, credential_from_request, check_password, login_user, login_principal, found_user,
  authenticate, login,
}
use cartolensia.Auth.Sessions.{
  IsKeyed, user_at-stored, delete_where-Each, create_session-counts, delete_expired_sessions-users,
}

module _ (crypto : Crypto) (cfg : Config) where
  open crypto use {sha256}

  is_none-none : (o : Option ℕ) → is_none o ≡ true → o ≡ none
  is_none-none none h = refl
  is_none-none (some n) h = cc

  -- What a login that went through found and stored.
  record Opened (now : ℕ) (session_id secret password : Text) (s : AuthStore) (session : Session)
      (s' : AuthStore) : Type 0 where
    user : User
    stored : lookup user.id s.users ≡ some user
    enabled : user.disabled_at ≡ none
    result : session ≡ record {
      id = session_id;
      principal = login_principal user;
      expires_at = now + cfg.session_ttl;
    }
    after : s' ≡ (create_session session_id user.id (sha256 secret) (now + cfg.session_ttl) s).1

  login_user-Opened :
      (now : ℕ) (session_id secret password : Text) (user : User) (s : AuthStore)
      (session : Session) (s' : AuthStore)
      → (user.password_hash ≢ [] → lookup user.id s.users ≡ some user)
      → login_user crypto cfg now session_id secret password (some user) s ≡ (ok session, s')
      → Opened now session_id secret password s session s'
  unfolding check_password
  login_user-Opened now session_id secret password user s session s' stored e =
      elim (Bool-cases (is_none user.disabled_at)) [
        | inr off ↦ cc (rw off at e)
        | inl on ↦ elim (Bool-cases (check_password crypto cfg user.password_hash password)) [
          | inr wrong ↦ cc (rw (on, wrong) at e)
          | inl right ↦ record {
            user = user;
            stored = stored (λ empty. ground (arith, same_text_iff user.password_hash []));
            enabled = is_none-none user.disabled_at on;
            result = cc (rw (on, right) at e);
            after = cc (rw (on, right) at e);
          }
        ]
      ]

  login_found-Opened :
      (now : ℕ) (session_id secret password : Text) (found : Result User) (s : AuthStore)
      (session : Session) (s' : AuthStore)
      → ((user : User)
          → found ≡ ok user
          → user.password_hash ≢ []
          → lookup user.id s.users ≡ some user)
      → login_user crypto cfg now session_id secret password (found_user found) s ≡ (ok session, s')
      → Opened now session_id secret password s session s'
  login_found-Opened now session_id secret password (err x) s session s' stored e = cc
  login_found-Opened now session_id secret password (ok user) s session s' stored e =
      login_user-Opened now session_id secret password user s session s' (stored user refl) e

  login-Opened :
      (now : ℕ) (session_id secret email password : Text) (s : AuthStore) (session : Session)
      (s' : AuthStore)
      → IsKeyed s
      → login crypto cfg now session_id secret email password s ≡ (ok session, s')
      → Opened now session_id secret password (delete_expired_sessions now s).1 session s'
  unfolding login user_by_email
  login-Opened now session_id secret email password s session s' keyed e =
      let s1 : AuthStore = (delete_expired_sessions now s).1 in
      let found : Option Text = lookup (normal (normal email)) s1.by_email in
      login_found-Opened now session_id secret password (user_at found s1) s1 session s'
        (λ user at filled.
          user_at-stored found s1 user (rw (delete_expired_sessions-users now s) keyed) filled at)
        e

  -- In the store that `Login` leaves, where users stand under their identifiers and no older session has
  -- the digest of the new secret, a request with the new session's cookie is let in as the user who
  -- logged in until the session ends, and refused as unauthenticated from then on.
  pub login-authenticate :
      (now later : ℕ) (session_id secret email password : Text) (r : Request) (s : AuthStore)
      (session : Session) (s' : AuthStore)
      → IsKeyed s
      → Each (λ _ x. MemorySession.token_hash x ≢ sha256 secret) s.sessions
      → login crypto cfg now session_id secret email password s ≡ (ok session, s')
      → credential_from_request r ≡ some (record { secret = secret; method = session_cookie })
      → (authenticate crypto cfg later r s').0
        ≡ (if ltb later session.expires_at then ok session.principal else err unauthenticated)
  unfolding authenticate
  login-authenticate now later session_id secret email password r s session s' keyed fresh e sent =
      let opened = login-Opened now session_id secret email password s session s' keyed e in
      rw (sent, opened.after, opened.result)
        (create_session-counts session_id (sha256 secret) opened.user (now + cfg.session_ttl) later
          (delete_expired_sessions now s).1 opened.stored opened.enabled
          (unfold delete_expired_sessions in
            delete_where-Each (λ x. leb (MemorySession.expires_at x) now)
              (λ _ x. MemorySession.token_hash x ≢ sha256 secret) s.sessions fresh))
