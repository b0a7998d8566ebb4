-- ===== src/Auth/Scopes.antt =====
-- The scopes of API tokens, and `Authorize` of internal/auth/auth.go.
use cartolensia.Prelude.{
  Bool, true, false, not, ◌&&◌, Option, none, some, List, [], ◌∷◌, ◌++◌, Text, text_eq, ◌==◌,
  contains, if◌then◌else◌,
}
use cartolensia.Texts.{bytes, trim_space}
use cartolensia.Auth.{
  AuthError, unauthenticated, unauthorized, Result, ok, err, Principal, AuthMethod, dev_no_auth,
  api_token,
}

abbrev pub scope_read : Text
scope_read = bytes "read"

abbrev pub scope_write : Text
scope_write = bytes "write"

abbrev pub scope_jobs_write : Text
scope_jobs_write = bytes "jobs:write"

abbrev pub scope_plugins_write : Text
scope_plugins_write = bytes "plugins:write"

abbrev pub scope_media_read : Text
scope_media_read = bytes "media:read"

abbrev pub scope_admin : Text
scope_admin = bytes "admin"

abbrev job_actions : List Text
job_actions =
    bytes "jobs.cancel"
    ∷ bytes "jobs.retry"
    ∷ bytes "discovery.start"
    ∷ bytes "hash.start"
    ∷ bytes "metadata.enrich"
    ∷ bytes "previews.generate"
    ∷ []

abbrev token_actions : List Text
token_actions =
    bytes "api_tokens.create"
    ∷ bytes "api_tokens.list"
    ∷ bytes "api_tokens.revoke"
    ∷ bytes "auth.password.change"
    ∷ []

unfoldable pub scopes_for_action : Text → List Text
scopes_for_action action =
    if contains job_actions action
    then scope_jobs_write ∷ scope_write ∷ []
    else if contains (bytes "plugins.rescan" ∷ []) action
    then scope_plugins_write ∷ scope_write ∷ []
    else if contains token_actions action
    then scope_admin ∷ []
    else if contains (bytes "sync.links.save" ∷ bytes "sync.links.delete" ∷ []) action
    then scope_write ∷ []
    else scope_write ∷ []

-- the loop over the needed scopes
abbrev pub any_available : List Text → List Text → Bool
any_available available [] = false
any_available available (scope ∷ needed) =
    if contains available scope then true else any_available available needed

unfoldable pub scope_allowed : List Text → Text → Bool
unfolding scopes_for_action
scope_allowed scopes action =
    if contains scopes scope_admin then true else any_available scopes (scopes_for_action action)

abbrev pub is_api_token : AuthMethod → Bool
is_api_token api_token = true
is_api_token _ = false

-- `LocalService.Authorize`; a nil error is `none`
unfoldable pub authorize : Principal → Text → Option AuthError
authorize p action =
    if p.id == []
    then some unauthenticated
    else if not (is_api_token p.auth_method) && p.role == bytes "admin"
    then none
    else if is_api_token p.auth_method && scope_allowed p.scopes action
    then none
    else some unauthorized

-- the loop of cleanScopes; `seen` holds what `out` has
unfoldable pub clean_from : List Text → List Text → List Text
unfolding trim_space
clean_from out [] = out
clean_from out (scope ∷ scopes) =
    let trimmed = trim_space scope in
    clean_from
      (if trimmed == [] then out else if contains out trimmed then out else out ++ trimmed ∷ [])
      scopes

unfoldable pub clean_scopes : List Text → List Text
unfolding clean_from
clean_scopes scopes = clean_from [] scopes

-- The authenticators that stand in for the local service: one lets everyone in as an administrator, one
-- lets nobody in.
abbrev pub dev_authenticate : Result Principal
dev_authenticate = ok (record {
  id = bytes "dev";
  name = bytes "Development Admin";
  email = [];
  role = bytes "admin";
  auth_method = dev_no_auth;
  scopes = scope_admin ∷ [];
})

unfoldable pub dev_authorize : Principal → Text → Option AuthError
dev_authorize p action = if p.id == [] then some unauthenticated else none

abbrev pub disabled_authenticate : Result Principal
disabled_authenticate = err unauthenticated

unfoldable pub disabled_authorize : Principal → Text → Option AuthError
disabled_authorize p action =
    if p.id == []
    then some unauthenticated
    else if not (p.role == bytes "admin")
    then some unauthorized
    else none
