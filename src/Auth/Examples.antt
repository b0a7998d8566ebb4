-- ===== src/Auth/Examples.antt =====
-- Runs of the service on a small store, with a digest that keeps the text and a password that is its
-- own hash.
use cartolensia.Prelude.{
  ℕ, ◌≤◌, ◌<◌, false, none, some, [], ◌∷◌, ◌≡◌, ◌≢◌, ◌↔◌, refl, arith, Text, text_eq, ◌==◌,
  same_text_iff, ltb, if◌then◌else◌,
}
use cartolensia.Prelude.Dict.{lookup, insert, Each}
use cartolensia.Texts.{bytes, trim_space, trim_left, is_space, to_lower, lower, has_prefix}
use cartolensia.Auth.{
  unauthenticated, ok, err, Principal, User, Session, ApiToken, session_cookie, api_token, Crypto,
}
use cartolensia.Auth.Scopes.{authorize, clean_scopes, scope_read}
use cartolensia.Auth.Store.{
  create_session, delete_expired_sessions, delete_where, MemorySession, AuthStore, user_by_email,
}
use cartolensia.Auth.Service.{
  Config, Request, credential_from_request, check_password, authenticate, login, change_password,
  create_api_token, revoke_api_token,
}
use cartolensia.Auth.Permission.{IsGranted, authorize-IsGranted}
use cartolensia.Auth.Login.{login-authenticate}
use cartolensia.Auth.Passwords.{change_password-ends_sessions}
use cartolensia.Auth.Tokens.{token_made, bearer_principal, create_api_token-life}

abbrev plain : Crypto
plain = record {
  sha256 = λ s. s;
  base64url = λ s. s;
  bcrypt_hash = λ s. some s;
  bcrypt_matches = λ h p. h == p;
}

abbrev config : Config
config = record {
  admin_email = bytes "a@b";
  admin_display_name = [];
  admin_password_env = [];
  rotate_bootstrap_password = false;
  session_ttl = 100;
  api_token_ttl = 50;
  cookie_name = [];
  csrf_header = [];
}

abbrev ann : User
ann = record {
  id = bytes "u1";
  email = bytes "a@b";
  display_name = bytes "Ann";
  password_hash = bytes "pw";
  role = bytes "admin";
  disabled_at = none;
}

abbrev browser : Principal
browser = record {
  id = bytes "u1";
  name = bytes "Ann";
  email = bytes "a@b";
  role = bytes "admin";
  auth_method = session_cookie;
  scopes = [];
}

abbrev reader : Principal
reader = record browser { auth_method = api_token; scopes = scope_read ∷ [] }

abbrev other_session : MemorySession
other_session = record {
  id = bytes "s0";
  user_id = bytes "u2";
  token_hash = bytes "t0";
  expires_at = 500;
}

abbrev house : AuthStore
house = record {
  users = (bytes "u1", ann) ∷ [];
  by_email = (bytes "a@b", bytes "u1") ∷ [];
  sessions = (bytes "s0", other_session) ∷ [];
  api_tokens = [];
}

abbrev with_cookie : Request
with_cookie = record { authorization = []; cookie = some (bytes "t1"); csrf = bytes "tok" }

abbrev with_bearer : Request
with_bearer = record { authorization = bytes "Bearer t1"; cookie = none; csrf = [] }

unequal : {s t : Text} → (s == t) ≡ false → s ≢ t
unequal {s} {t} h e = ground (arith, same_text_iff s t)

authorize-IsGranted_example :
    (authorize reader (bytes "jobs.cancel") ≡ none) ↔ IsGranted reader (bytes "jobs.cancel")
authorize-IsGranted_example = authorize-IsGranted reader (bytes "jobs.cancel")

abbrev session : Session
session = record { id = bytes "s1"; principal = browser; expires_at = 110 }

abbrev entered : AuthStore
entered = (login plain config 10 (bytes "s1") (bytes "t1") (bytes " A@b") (bytes "pw") house).1

enters :
    login plain config 10 (bytes "s1") (bytes "t1") (bytes " A@b") (bytes "pw") house
    ≡ (ok session, entered)
unfolding login create_session delete_expired_sessions delete_where insert lookup user_by_email
    check_password trim_space trim_left is_space to_lower lower
enters = refl

cookie_read :
    credential_from_request with_cookie
    ≡ some (record { secret = bytes "t1"; method = session_cookie })
unfolding credential_from_request trim_space trim_left is_space to_lower lower has_prefix
cookie_read = refl

bearer_read :
    credential_from_request with_bearer ≡ some (record { secret = bytes "t1"; method = api_token })
unfolding credential_from_request trim_space trim_left is_space to_lower lower has_prefix
bearer_read = refl

login-authenticate_example :
    (authenticate plain config 60 with_cookie entered).0
    ≡ (if ltb 60 110 then ok browser else err unauthenticated)
login-authenticate_example =
    login-authenticate plain config 10 60 (bytes "s1") (bytes "t1") (bytes " A@b") (bytes "pw")
      with_cookie house session entered (refl, tt) (unequal refl, tt) enters cookie_read

new_filled : (trim_space (bytes "new") == []) ≡ false
unfolding trim_space trim_left is_space
new_filled = refl

name_filled : (trim_space (bytes "tok") == []) ≡ false
unfolding trim_space trim_left is_space
name_filled = refl

abbrev changed_hash : Text
changed_hash = bytes "new"

change_password-ends_sessions_example :
    let (result, s') = change_password plain config browser (bytes "pw") changed_hash house in
    (result ≡ ok tt)
    × ((lookup (bytes "u1") s'.users ≡ some (record ann { password_hash = changed_hash }))
        × (Each (λ _ x. MemorySession.user_id x ≢ bytes "u1") s'.sessions
            × ((id : Text) (x : MemorySession)
                → lookup id (AuthStore.sessions house) ≡ some x
                → x.user_id ≢ bytes "u1"
                → lookup id s'.sessions ≡ some x)))
change_password-ends_sessions_example =
    change_password-ends_sessions plain config browser (bytes "pw") changed_hash changed_hash ann
      house (unequal refl) (unequal new_filled) (unfold lookup in refl)
      (unfold check_password in refl) refl

create_api_token-life_example :
    let (result, s') =
      create_api_token plain config 10
        (bytes "k1")
        (bytes "t1")
        browser
        (bytes "tok")
        (scope_read ∷ [])
        none
        house in
    let token : ApiToken =
      token_made plain config 10 (bytes "k1") browser (bytes "tok") (scope_read ∷ []) none in
    let (revoking, s'') = revoke_api_token plain config 20 browser (bytes "k1") s' in
    (result ≡ ok token)
    × ((((t : ℕ) → token.expires_at ≡ some t → 30 ≤ t)
          → (authenticate plain config 30 with_bearer s').0
            ≡ ok (bearer_principal ann (clean_scopes (scope_read ∷ []))))
        × (((t : ℕ)
              → token.expires_at ≡ some t
              → t < 30
              → (authenticate plain config 30 with_bearer s').0 ≡ err unauthenticated)
            × ((revoking ≡ ok tt)
                × ((authenticate plain config 30 with_bearer s'').0 ≡ err unauthenticated))))
create_api_token-life_example =
    create_api_token-life plain config 10 30 20 (bytes "k1") (bytes "t1") (bytes "tok") browser
      (scope_read ∷ []) none ann with_bearer house (unfold authorize in refl)
      (unfold authorize in refl) (unequal name_filled) (unfold lookup in refl) refl tt bearer_read
