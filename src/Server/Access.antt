-- ===== src/Server/Access.antt =====
-- internal/server/server.go, `requireWrite`: who may change something. The authenticator, the authorizer
-- and the service are an interface that the local service of internal/auth/auth.go and `DevNoAuth` of
-- internal/auth/auth.go fill.
use cartolensia.Prelude.{ℕ, Option, none, some, [], ◌∷◌, Text, text_eq, ◌==◌, if◌then◌else◌}
use cartolensia.Texts.{bytes}
use cartolensia.Auth.{AuthError, unauthenticated, Result, ok, err, Principal, dev_no_auth, Crypto}
use cartolensia.Auth.Scopes.{authorize}
use cartolensia.Auth.Store.{AuthStore, Reply}
use cartolensia.Auth.Service.{Config, Request, authenticate, validate_csrf}
use cartolensia.Server.{Answer, refusal}

-- The check of the CSRF token lets everything through where there is no service.
pub record Gate : Type 0 where
  pub authenticates : Request → AuthStore → Reply Principal
  pub authorizes : Principal → Text → Option AuthError
  pub checks_csrf : Request → Option AuthError

unfoldable pub local_gate : Crypto → Config → ℕ → Gate
unfolding authenticate authorize validate_csrf
local_gate crypto cfg now = record {
  authenticates = authenticate crypto cfg now;
  authorizes = authorize;
  checks_csrf = validate_csrf crypto cfg;
}

abbrev pub developer : Principal
developer = record {
  id = bytes "dev";
  name = bytes "Development Admin";
  email = [];
  role = bytes "admin";
  auth_method = dev_no_auth;
  scopes = bytes "admin" ∷ [];
}

unfoldable pub dev_gate : Gate
dev_gate = record {
  authenticates = λ r s. (ok developer, s);
  authorizes = λ p action. if p.id == [] then some unauthenticated else none;
  checks_csrf = λ r. none;
}

abbrev pub answer_with : ℕ → AuthError → Answer
answer_with status e = record { status = status; body = refusal e }

abbrev pub status_of : AuthError → ℕ
status_of unauthenticated = 401
status_of _ = 403

-- The answer of a refusal, or none if the request may write.
abbrev pub refusal_of : Gate → Request → Text → Result Principal → Option Answer
refusal_of gate r action (err e) = some (answer_with 401 e)
refusal_of gate r action (ok p) = elim (gate.authorizes p action) [
  | some e ↦ some (answer_with (status_of e) e)
  | none ↦ elim (gate.checks_csrf r) [ some e ↦ some (answer_with 403 e) | none ↦ none ]
]

unfoldable pub require_write : Gate → Request → Text → AuthStore → Option Answer × AuthStore
require_write gate r action accounts =
    let (found, accounts') = gate.authenticates r accounts in
    (refusal_of gate r action found, accounts')
