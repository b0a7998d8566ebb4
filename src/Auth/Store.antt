-- ===== src/Auth/Store.antt =====
-- internal/auth/memory.go: the store of users, sessions and API tokens. Its lock makes each method
-- one step.
use cartolensia.Prelude.{
  ℕ, ◌+◌, Bool, true, false, not, ◌&&◌, ◌||◌, Option, none, some, List, [], ◌∷◌, Text, text_eq,
  ◌==◌, ltb, leb, is_none, if◌then◌else◌,
}
use cartolensia.Prelude.Dict.{Dict, lookup, insert}
use cartolensia.Texts.Trim.{normal}
use cartolensia.Auth.{
  unauthenticated, not_found, Result, ok, err, Principal, User, ApiToken, session_cookie, api_token,
}

pub record MemorySession : Type 0 where
  pub id : Text
  pub user_id : Text
  pub token_hash : Text
  pub expires_at : ℕ

pub record MemoryToken : Type 0 where
  pub token : ApiToken
  pub token_hash : Text

pub record AuthStore : Type 0 where
  pub users : Dict Text User
  pub by_email : Dict Text Text
  pub sessions : Dict Text MemorySession
  pub api_tokens : Dict Text MemoryToken

abbrev pub empty_store : AuthStore
empty_store = record { users = []; by_email = []; sessions = []; api_tokens = [] }

abbrev pub Reply {ℓ} : Type ℓ → Type ℓ
Reply A = Result A × AuthStore

-- a map of users read with a key that is not there gives the zero value
abbrev pub no_user : User
no_user = record {
  id = [];
  email = [];
  display_name = [];
  password_hash = [];
  role = [];
  disabled_at = none;
}

abbrev pub user_or_zero : Option User → User
user_or_zero none = no_user
user_or_zero (some user) = user

abbrev pub bootstrap_at : Option Text → Text → User → AuthStore → (User × Bool) × AuthStore
bootstrap_at none email user s =
    let user' = record user { email = email } in
    (
      (user', true),
      record s { users = insert user.id user' s.users; by_email = insert email user.id s.by_email },
    )
bootstrap_at (some id) email user s =
    let existing = user_or_zero (lookup id s.users) in
    if existing.password_hash == [] && not (user.password_hash == [])
    then (let filled = record existing { password_hash = user.password_hash } in
        ((filled, false), record s { users = insert id filled s.users }))
    else ((existing, false), s)

-- BootstrapAdmin, with the user and whether it was created
unfoldable pub bootstrap_admin : User → AuthStore → (User × Bool) × AuthStore
bootstrap_admin user s =
    let email = normal user.email in bootstrap_at (lookup email s.by_email) email user s

abbrev pub user_at : Option Text → AuthStore → Result User
user_at none s = err not_found
user_at (some id) s = ok (user_or_zero (lookup id s.users))

unfoldable pub user_by_email : Text → AuthStore → Result User
user_by_email email s = user_at (lookup (normal email) s.by_email) s

abbrev or_not_found : Option User → Result User
or_not_found none = err not_found
or_not_found (some user) = ok user

unfoldable pub user_by_id : Text → AuthStore → Result User
user_by_id id s = or_not_found (lookup id s.users)

-- `for id, x := range m { if gone(x) { delete(m, id) } }`
module _ {V : Type 0} (gone : V → Bool) where
  unfoldable pub delete_where : Dict Text V → Dict Text V
  delete_where [] = []
  delete_where ((id, x) ∷ m) = let kept = delete_where m in if gone x then kept else (id, x) ∷ kept

  unfoldable pub count_where : Dict Text V → ℕ
  count_where [] = 0
  count_where ((id, x) ∷ m) = let n = count_where m in if gone x then n + 1 else n

abbrev set_password : Option User → Text → Text → AuthStore → Reply (Unit {0})
set_password none id hash s = (err not_found, s)
set_password (some user) id hash s = (
  ok tt,
  record s {
    users = insert id (record user { password_hash = hash }) s.users;
    sessions = delete_where (λ x. MemorySession.user_id x == id) s.sessions;
  },
)

unfoldable pub update_password : Text → Text → AuthStore → Reply (Unit {0})
update_password id hash s = set_password (lookup id s.users) id hash s

unfoldable pub create_session : Text → Text → Text → ℕ → AuthStore → Reply (Unit {0})
create_session id user_id hash expires_at s = (
  ok tt,
  record s {
    sessions =
        insert id
          (record { id = id; user_id = user_id; token_hash = hash; expires_at = expires_at })
          s.sessions;
  },
)

-- the loop of PrincipalBySessionHash: the session found, and the sessions that are left
unfoldable pub find_session :
    Text → ℕ → Dict Text MemorySession → Option MemorySession × Dict Text MemorySession
find_session hash now [] = (none, [])
find_session hash now ((id, x) ∷ m) =
    let rest = find_session hash now m in
    if ltb x.expires_at now
    then rest
    else if x.token_hash == hash
    then (some x, (id, x) ∷ m)
    else (rest.0, (id, x) ∷ rest.1)

-- `if !ok || user.DisabledAt != nil`
abbrev pub active_user : Option User → Option User
active_user none = none
active_user (some user) = if is_none user.disabled_at then some user else none

abbrev session_principal : Option User → Result Principal
session_principal none = err unauthenticated
session_principal (some user) = ok (record {
  id = user.id;
  name = user.display_name;
  email = user.email;
  role = user.role;
  auth_method = session_cookie;
  scopes = [];
})

abbrev principal_of_session : Option MemorySession → AuthStore → Result Principal
principal_of_session none s = err unauthenticated
principal_of_session (some x) s = session_principal (active_user (lookup x.user_id s.users))

unfoldable pub principal_by_session_hash : Text → ℕ → AuthStore → Reply Principal
principal_by_session_hash hash now s =
    let (found, left) = find_session hash now s.sessions in
    (principal_of_session found s, record s { sessions = left })

unfoldable pub delete_session_by_hash : Text → AuthStore → Reply (Unit {0})
delete_session_by_hash hash s = (
  ok tt,
  record s { sessions = delete_where (λ x. MemorySession.token_hash x == hash) s.sessions },
)

unfoldable pub delete_expired_sessions : ℕ → AuthStore → Reply ℕ
delete_expired_sessions now s =
    let over : MemorySession → Bool = λ x. leb x.expires_at now in
    (ok (count_where over s.sessions), record s { sessions = delete_where over s.sessions })

abbrev pub expired_at : ℕ → Option ℕ → Bool
expired_at now none = false
expired_at now (some t) = ltb t now

abbrev pub is_dead : ℕ → MemoryToken → Bool
is_dead now x = not (is_none x.token.revoked_at) || expired_at now x.token.expires_at

-- the loop of PrincipalByAPITokenHash: the token found, marked as used now, and the tokens
unfoldable pub find_token :
    Text → ℕ → Dict Text MemoryToken → Option MemoryToken × Dict Text MemoryToken
find_token hash now [] = (none, [])
find_token hash now ((id, x) ∷ m) =
    let rest = find_token hash now m in
    if is_dead now x
    then (rest.0, (id, x) ∷ rest.1)
    else if x.token_hash == hash
    then (let used = record x { token = record x.token { last_used_at = some now } } in
        (some used, (id, used) ∷ m))
    else (rest.0, (id, x) ∷ rest.1)

abbrev token_principal : Option User → List Text → Result Principal
token_principal none scopes = err unauthenticated
token_principal (some user) scopes = ok (record {
  id = user.id;
  name = user.display_name;
  email = user.email;
  role = user.role;
  auth_method = api_token;
  scopes = scopes;
})

abbrev pub principal_of_token : Option MemoryToken → AuthStore → Result Principal
principal_of_token none s = err unauthenticated
principal_of_token (some x) s =
    token_principal (active_user (lookup x.token.user_id s.users)) x.token.scopes

unfoldable pub principal_by_api_token_hash : Text → ℕ → AuthStore → Reply Principal
principal_by_api_token_hash hash now s =
    let (found, left) = find_token hash now s.api_tokens in
    (principal_of_token found s, record s { api_tokens = left })

unfoldable pub store_api_token : ApiToken → Text → AuthStore → Reply (Unit {0})
store_api_token token hash s = (
  ok tt,
  record s {
    api_tokens = insert token.id (record { token = token; token_hash = hash }) s.api_tokens;
  },
)

abbrev tokens_of : Text → Dict Text MemoryToken → List ApiToken
tokens_of user_id [] = []
tokens_of user_id ((id, x) ∷ m) =
    let rest = tokens_of user_id m in if x.token.user_id == user_id then x.token ∷ rest else rest

unfoldable pub stored_api_tokens : Text → AuthStore → List ApiToken
stored_api_tokens user_id s = tokens_of user_id s.api_tokens

abbrev revoke_at : ℕ → Option MemoryToken → Text → Text → AuthStore → Reply (Unit {0})
revoke_at now none user_id id s = (err not_found, s)
revoke_at now (some x) user_id id s =
    if not (x.token.user_id == user_id) then (err not_found, s) else (
      ok tt,
      record s {
        api_tokens =
            insert id (record x { token = record x.token { revoked_at = some now } }) s.api_tokens;
      },
    )

unfoldable pub revoke_stored_token : ℕ → Text → Text → AuthStore → Reply (Unit {0})
revoke_stored_token now user_id id s = revoke_at now (lookup id s.api_tokens) user_id id s
