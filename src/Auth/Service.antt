-- ===== src/Auth/Service.antt =====
-- `LocalService` of internal/auth/auth.go: bootstrap, login, sessions, tokens and the CSRF check.
-- `now` is the clock, fresh identifiers and secrets come from the random source as arguments, and a
-- request is what the service reads of it.
use cartolensia.Prelude.{
  ℕ, ◌+◌, ◌*◌, ◌^◌, Bool, false, not, ◌||◌, Option, none, some, List, [], ◌++◌, Text, text_eq, ◌==◌,
  eqb, ltb, is_none, if◌then◌else◌,
}
use cartolensia.Texts.{bytes, trim_space, to_lower, has_prefix, drop_length}
use cartolensia.Texts.Trim.{normal}
use cartolensia.Auth.{
  AuthError, unauthenticated, unauthorized, failure, Result, ok, err, Principal, User, Session,
  ApiToken, AuthMethod, session_cookie, api_token, Crypto,
}
use cartolensia.Auth.Scopes.{authorize, clean_scopes}
use cartolensia.Auth.Store.{
  AuthStore, Reply, bootstrap_admin, user_by_email, user_by_id, update_password, create_session,
  principal_by_session_hash, delete_session_by_hash, delete_expired_sessions,
  principal_by_api_token_hash, store_api_token, stored_api_tokens, revoke_stored_token,
}

pub record Config : Type 0 where
  pub admin_email : Text
  pub admin_display_name : Text
  pub admin_password_env : Text
  pub rotate_bootstrap_password : Bool
  pub session_ttl : ℕ
  pub api_token_ttl : ℕ
  pub cookie_name : Text
  pub csrf_header : Text

abbrev second : ℕ
second = 10 ^ 9

abbrev or_default : Text → Text → Text
or_default value fallback = if value == [] then fallback else value

abbrev or_duration : ℕ → ℕ → ℕ
or_duration value fallback = if eqb value 0 then fallback else value

-- NewLocalService, which fills the fields that are not set
unfoldable pub new_service : Config → Config
new_service cfg = record cfg {
  session_ttl = or_duration cfg.session_ttl (24 * 3600 * second);
  api_token_ttl = or_duration cfg.api_token_ttl (90 * 24 * 3600 * second);
  cookie_name = or_default cfg.cookie_name (bytes "cartolensia_session");
  csrf_header = or_default cfg.csrf_header (bytes "X-CSRF-Token");
  admin_password_env = or_default cfg.admin_password_env (bytes "CARTOLENSIA_ADMIN_PASSWORD");
}

-- The headers of a request; `cookie` is the value of the session cookie, if there is one.
pub record Request : Type 0 where
  pub authorization : Text
  pub cookie : Option Text
  pub csrf : Text

pub record Credential : Type 0 where
  pub secret : Text
  pub method : AuthMethod

abbrev bearer : Text
bearer = bytes "bearer "

abbrev cookie_credential : Option Text → Option Credential
cookie_credential none = none
cookie_credential (some value) =
    if trim_space value == []
    then none
    else some (record { secret = value; method = session_cookie })

abbrev some_token : Text → Option Credential
some_token token =
    if token == [] then none else some (record { secret = token; method = api_token })

-- CredentialFromRequest; a bearer header is used even if its token is empty
unfoldable pub credential_from_request : Request → Option Credential
credential_from_request r =
    let value = trim_space r.authorization in
    if has_prefix (to_lower value) bearer
    then some_token (trim_space (drop_length value bearer))
    else cookie_credential r.cookie

abbrev by_method : ℕ → AuthMethod → Text → AuthStore → Reply Principal
by_method now session_cookie hash s = principal_by_session_hash hash now s
by_method now _ hash s = principal_by_api_token_hash hash now s

abbrev or_fallback : Option User → AuthStore → AuthError → Reply (User × Bool)
or_fallback (some user) s e = (ok (user, false), s)
or_fallback none s e = (err e, s)

abbrev pub found_user : Result User → Option User
found_user (ok user) = some user
found_user (err e) = none

abbrev pub sealed {ℓ} : {A : Type ℓ} → Option Text → (Text → Reply A) → AuthStore → Reply A
sealed none f s = (err (failure "password cannot be hashed"), s)
sealed (some hash) f s = f hash

abbrev pub login_principal : User → Principal
login_principal user = record {
  id = user.id;
  name = user.display_name;
  email = user.email;
  role = user.role;
  auth_method = session_cookie;
  scopes = [];
}

abbrev if_allowed {ℓ} : {A : Type ℓ} → Option AuthError → Reply A → AuthStore → Reply A
if_allowed none r s = r
if_allowed (some e) r s = (err e, s)

-- `expiresAt == nil && s.cfg.APITokenTTL > 0`
abbrev pub token_expiry : ℕ → ℕ → Option ℕ → Option ℕ
token_expiry now ttl (some t) = some t
token_expiry now ttl none = if ltb 0 ttl then some (now + ttl) else none

module _ (crypto : Crypto) (cfg : Config) where
  open crypto use {sha256, base64url, bcrypt_hash, bcrypt_matches}

  unfoldable pub check_password : Text → Text → Bool
  check_password hash password =
      if hash == [] || password == [] then false else bcrypt_matches hash password

  abbrev authenticate_with : ℕ → Option Credential → AuthStore → Reply Principal
  authenticate_with now none s = (err unauthenticated, s)
  authenticate_with now (some c) s =
      let s' = (delete_expired_sessions now s).1 in by_method now c.method (sha256 c.secret) s'

  unfoldable pub authenticate : ℕ → Request → AuthStore → Reply Principal
  authenticate now r s = authenticate_with now (credential_from_request r) s

  abbrev after_rotation : User → Text → Reply (Unit {0}) → Reply (User × Bool)
  after_rotation user hash (ok done, s) = (ok (record user { password_hash = hash }, false), s)
  after_rotation user hash (err e, s) = (err e, s)

  abbrev rotated : Bool → Text → (User × Bool) × AuthStore → Reply (User × Bool)
  rotated rotate hash ((user, created), s) =
      if created || not rotate
      then (ok (user, created), s)
      else after_rotation user hash (update_password user.id hash s)

  unfoldable pub bootstrap : Text → Text → AuthStore → Reply (User × Bool)
  bootstrap fresh_id password s =
      let email = normal cfg.admin_email in
      if email == []
      then (err (failure "auth.admin_email is required for local auth bootstrap"), s)
      else if password == []
      then or_fallback (found_user (user_by_email email s)) s
          (failure "the password must be set for local auth bootstrap")
      else sealed (bcrypt_hash password)
          (λ hash. rotated cfg.rotate_bootstrap_password hash (
            bootstrap_admin
              (record {
                id = fresh_id;
                email = email;
                display_name =
                    or_default (trim_space cfg.admin_display_name) (bytes "Cartolensia Admin");
                password_hash = hash;
                role = bytes "admin";
                disabled_at = none;
              })
              s))
          s

  abbrev pub login_user : ℕ → Text → Text → Text → Option User → AuthStore → Reply Session
  login_user now session_id secret password none s = (err unauthenticated, s)
  login_user now session_id secret password (some user) s =
      if not (is_none user.disabled_at) || not (check_password user.password_hash password)
      then (err unauthenticated, s)
      else (let expires_at = now + cfg.session_ttl in
          (
            ok (record {
              id = session_id;
              principal = login_principal user;
              expires_at = expires_at;
            }),
            (create_session session_id user.id (sha256 secret) expires_at s).1,
          ))

  -- Login; the secret is handed to the client
  unfoldable pub login : ℕ → Text → Text → Text → Text → AuthStore → Reply Session
  login now session_id secret email password s =
      let s' = (delete_expired_sessions now s).1 in
      login_user now session_id secret password (found_user (user_by_email (normal email) s')) s'

  abbrev pub change_for : Text → Option User → Text → Text → AuthStore → Reply (Unit {0})
  change_for id none old new s = (err unauthenticated, s)
  change_for id (some user) old new s =
      if check_password user.password_hash old
      then sealed (bcrypt_hash new) (λ hash. update_password id hash s) s
      else (err unauthenticated, s)

  unfoldable pub change_password : Principal → Text → Text → AuthStore → Reply (Unit {0})
  change_password p old new s =
      if p.id == []
      then (err unauthenticated, s)
      else if trim_space new == []
      then (err (failure "new password is required"), s)
      else change_for p.id (found_user (user_by_id p.id s)) old new s

  unfoldable pub logout : Text → AuthStore → Reply (Unit {0})
  logout token s = if token == [] then (ok tt, s) else delete_session_by_hash (sha256 token) s

  unfoldable pub create_api_token :
      ℕ → Text → Text → Principal → Text → List Text → Option ℕ → AuthStore → Reply ApiToken
  create_api_token now token_id secret p name scopes expires_at s =
      if_allowed (authorize p (bytes "api_tokens.create"))
        (if trim_space name == []
          then (err (failure "token name is required"), s)
          else (let token : ApiToken = record {
            id = token_id;
            user_id = p.id;
            name = trim_space name;
            scopes = clean_scopes scopes;
            expires_at = token_expiry now cfg.api_token_ttl expires_at;
            created_at = now;
            last_used_at = none;
            revoked_at = none;
          } in
              (ok token, (store_api_token token (sha256 secret) s).1)))
        s

  unfoldable pub list_api_tokens : Principal → AuthStore → Reply (List ApiToken)
  list_api_tokens p s =
      if_allowed (authorize p (bytes "api_tokens.list")) (ok (stored_api_tokens p.id s), s) s

  unfoldable pub revoke_api_token : ℕ → Principal → Text → AuthStore → Reply (Unit {0})
  revoke_api_token now p token_id s =
      if_allowed (authorize p (bytes "api_tokens.revoke")) (revoke_stored_token now p.id token_id s)
        s

  unfoldable pub csrf_token : Text → Text
  csrf_token secret = base64url (sha256 (bytes "cartolensia-csrf-v1:" ++ secret))

  abbrev pub csrf_for : Option Credential → Text → Option AuthError
  csrf_for none actual = none
  csrf_for (some c) actual = elim c.method [
    | session_cookie ↦
        if actual == [] || not (csrf_token c.secret == actual) then some unauthorized else none
    | _ ↦ none
  ]

  unfoldable pub validate_csrf : Request → Option AuthError
  validate_csrf r = csrf_for (credential_from_request r) (trim_space r.csrf)
