-- ===== src/Auth/Tokens.antt =====
-- What an API token of internal/auth is good for, from its creation to its end or its revocation.
use cartolensia.Prelude.{
  ℕ, Bool, ◌≤◌, ◌<◌, ap, ◌∙◌, true, false, Option, none, some, List, [], ◌∷◌, ◌≡◌, ◌≢◌, ◌⊎◌, inl,
  inr, refl, arith, Text, text_eq, ◌==◌, same_text_iff, same_ne, same_refl, Bool-cases, All-mono,
  if◌then◌else◌,
}
use cartolensia.Prelude.Dict.{Dict, lookup, insert, lookup-insert_self, Each, Each-insert}
use cartolensia.Texts.{bytes, trim_space}
use cartolensia.Auth.{
  unauthenticated, Result, ok, err, Principal, User, ApiToken, api_token, Crypto,
}
use cartolensia.Auth.Store.{
  MemoryToken, AuthStore, principal_of_token, find_token, is_dead, expired_at, store_api_token,
  revoke_stored_token, principal_by_api_token_hash, delete_expired_sessions,
}
use cartolensia.Auth.Scopes.{authorize, clean_scopes}
use cartolensia.Auth.Service.{
  Config, Request, credential_from_request, authenticate, create_api_token, revoke_api_token,
  token_expiry,
}

module _ (hash : Text) where
  -- A search among tokens that have other digests or do not count finds none.
  find_token-none :
      (now : ℕ) (m : Dict Text MemoryToken)
      → Each (λ _ x. (is_dead now x ≡ true) ⊎ (MemoryToken.token_hash x ≢ hash)) m
      → (find_token hash now m).0 ≡ none
  unfolding find_token
  find_token-none now [] h = refl
  find_token-none now ((id, x) ∷ m) h =
      ground (arith, find_token-none now m h.1, same_text_iff x.token_hash hash)

  -- A token that counts, stored among others, is the one found.
  find_token-insert :
      (now : ℕ) (id : Text) (new : MemoryToken) (m : Dict Text MemoryToken)
      → Each (λ _ x. MemoryToken.token_hash x ≢ hash) m
      → new.token_hash ≡ hash
      → is_dead now new ≡ false
      → (find_token hash now (insert id new m)).0
        ≡ some (record new { token = record new.token { last_used_at = some now } })
  unfolding find_token insert
  find_token-insert now id new [] h here alive = rw (alive, here, same_refl hash)
  find_token-insert now id new ((j, x) ∷ m) h here alive = elim (Bool-cases (id == j)) [
    | inl e ↦ rw (e, alive, here, same_refl hash)
    | inr e ↦
        rw (e, same_ne x.token_hash hash h.0)
          (elim (Bool-cases (is_dead now x)) [
            | inl k ↦ rw k (find_token-insert now id new m h.1 here alive)
            | inr k ↦ rw k (find_token-insert now id new m h.1 here alive)
          ])
  ]

insert-insert :
    (id : Text) (old new : MemoryToken) (m : Dict Text MemoryToken)
    → insert id new (insert id old m) ≡ insert id new m
unfolding insert
insert-insert id old new [] = rw (same_refl id)
insert-insert id old new ((j, x) ∷ m) = elim (Bool-cases (id == j)) [
  | inl e ↦ rw (e, same_refl id)
  | inr e ↦ rw (e, e, insert-insert id old new m)
]

abbrev pub bearer_principal : User → List Text → Principal
bearer_principal user scopes = record {
  id = user.id;
  name = user.display_name;
  email = user.email;
  role = user.role;
  auth_method = api_token;
  scopes = scopes;
}

live_until :
    (later : ℕ) (end_at : Option ℕ)
    → ((t : ℕ) → end_at ≡ some t → later ≤ t)
    → expired_at later end_at ≡ false
live_until later none h = refl
live_until later (some t) h = ground (arith, h t refl)

over_after :
    (later t : ℕ) (end_at : Option ℕ) → end_at ≡ some t → t < later → expired_at later end_at ≡ true
over_after later t end_at e h = rw e (ground (arith, h))

-- Whom a request with the digest comes from while the token is stored and not revoked.
made-counts :
    (hash : Text) (later : ℕ) (id : Text) (new : MemoryToken) (user : User)
    (m : Dict Text MemoryToken) (s : AuthStore)
    → lookup new.token.user_id s.users ≡ some user
    → user.disabled_at ≡ none
    → Each (λ _ x. MemoryToken.token_hash x ≢ hash) m
    → new.token_hash ≡ hash
    → new.token.revoked_at ≡ none
    → principal_of_token (find_token hash later (insert id new m)).0 s ≡ (
        if expired_at later new.token.expires_at
        then err unauthenticated
        else ok (bearer_principal user new.token.scopes))
made-counts hash later id new user m s found enabled fresh here open_ =
    elim (Bool-cases (expired_at later new.token.expires_at)) [
      | inl e ↦ rw (
        find_token-none hash later (insert id new m) (
            Each-insert (λ _ x. (is_dead later x ≡ true) ⊎ (MemoryToken.token_hash x ≢ hash)) id new
              m (inl (rw (open_, e))) (All-mono (λ x h. inr h) m fresh)),
        e,
      )
      | inr e ↦
          rw (find_token-insert hash later id new m fresh here (rw (open_, e)), e, found, enabled)
    ]

module _ (crypto : Crypto) (cfg : Config) where
  open crypto use {sha256}

  -- The token that is stored.
  abbrev pub token_made : ℕ → Text → Principal → Text → List Text → Option ℕ → ApiToken
  token_made now token_id p name scopes expires_at = record {
    id = token_id;
    user_id = p.id;
    name = trim_space name;
    scopes = clean_scopes scopes;
    expires_at = token_expiry now cfg.api_token_ttl expires_at;
    created_at = now;
    last_used_at = none;
    revoked_at = none;
  }

  abbrev until : User → List Text → Bool → Result Principal
  until user scopes over =
      if over then err unauthenticated else ok (bearer_principal user (clean_scopes scopes))

  created-life :
      (now later revoked : ℕ) (token_id secret name : Text) (p : Principal) (scopes : List Text)
      (expires_at : Option ℕ) (user : User) (r : Request) (s : AuthStore)
      → authorize p (bytes "api_tokens.create") ≡ none
      → authorize p (bytes "api_tokens.revoke") ≡ none
      → trim_space name ≢ []
      → lookup p.id s.users ≡ some user
      → user.disabled_at ≡ none
      → Each (λ _ x. MemoryToken.token_hash x ≢ sha256 secret) s.api_tokens
      → credential_from_request r ≡ some (record { secret = secret; method = api_token })
      → let (result, s') =
          create_api_token crypto cfg now token_id secret p name scopes expires_at s in
        let token : ApiToken = token_made now token_id p name scopes expires_at in
        let (revoking, s'') = revoke_api_token crypto cfg revoked p token_id s' in
        (result ≡ ok token)
        × (((authenticate crypto cfg later r s').0 ≡ (
              if expired_at later token.expires_at
              then err unauthenticated
              else ok (bearer_principal user (clean_scopes scopes))))
            × ((revoking ≡ ok tt)
                × ((authenticate crypto cfg later r s'').0 ≡ err unauthenticated)))
  unfolding create_api_token revoke_api_token authenticate principal_by_api_token_hash
      store_api_token revoke_stored_token delete_expired_sessions
  created-life now later revoked token_id secret name p scopes expires_at user r s may_create
        may_revoke named found enabled fresh sent =
      let new : MemoryToken = record {
        token = token_made now token_id p name scopes expires_at;
        token_hash = sha256 secret;
      } in
      let gone : MemoryToken = record new {
        token = record new.token { revoked_at = some revoked };
      } in
      rw
        (
          may_create,
          may_revoke,
          same_ne (trim_space name) [] named,
          sent,
          lookup-insert_self,
          same_refl p.id,
        )
        (
          refl,
          (
            made-counts (sha256 secret) later token_id new user s.api_tokens
                (delete_expired_sessions later (store_api_token new.token (sha256 secret) s).1).1
                found enabled fresh refl refl,
            (
              refl,
              rw (
                insert-insert token_id new gone s.api_tokens,
                find_token-none (sha256 secret) later (insert token_id gone s.api_tokens) (
                    Each-insert
                      (λ _ x. (is_dead later x ≡ true) ⊎ (MemoryToken.token_hash x ≢ sha256 secret))
                      token_id gone s.api_tokens (inl refl)
                      (All-mono (λ x h. inr h) s.api_tokens fresh)),
              ),
            ),
          ),
        )

  -- A principal that may create tokens gets one for a name that is not blank. If the stored user of the
  -- principal's identifier is not disabled and no older token has the digest of the new secret, a request
  -- that bears the secret is let in as that user with the cleaned scopes at every time up to the token's
  -- end, or at every time if it has none, and refused after that end; after the token is revoked by the
  -- principal, who may revoke tokens, it is refused at every time.
  pub create_api_token-life :
      (now later revoked : ℕ) (token_id secret name : Text) (p : Principal) (scopes : List Text)
      (expires_at : Option ℕ) (user : User) (r : Request) (s : AuthStore)
      → authorize p (bytes "api_tokens.create") ≡ none
      → authorize p (bytes "api_tokens.revoke") ≡ none
      → trim_space name ≢ []
      → lookup p.id s.users ≡ some user
      → user.disabled_at ≡ none
      → Each (λ _ x. MemoryToken.token_hash x ≢ sha256 secret) s.api_tokens
      → credential_from_request r ≡ some (record { secret = secret; method = api_token })
      → let (result, s') =
          create_api_token crypto cfg now token_id secret p name scopes expires_at s in
        let token : ApiToken = token_made now token_id p name scopes expires_at in
        let (revoking, s'') = revoke_api_token crypto cfg revoked p token_id s' in
        (result ≡ ok token)
        × ((((t : ℕ) → token.expires_at ≡ some t → later ≤ t)
              → (authenticate crypto cfg later r s').0
                ≡ ok (bearer_principal user (clean_scopes scopes)))
            × (((t : ℕ)
                  → token.expires_at ≡ some t
                  → t < later
                  → (authenticate crypto cfg later r s').0 ≡ err unauthenticated)
                × ((revoking ≡ ok tt)
                    × ((authenticate crypto cfg later r s'').0 ≡ err unauthenticated))))
  create_api_token-life now later revoked token_id secret name p scopes expires_at user r s
        may_create may_revoke named found enabled fresh sent =
      let (made, (lets_in, (revoking, refused))) =
        created-life now later revoked token_id secret name p scopes expires_at user r s may_create
          may_revoke named found enabled fresh sent in
      let end_at = token_expiry now cfg.api_token_ttl expires_at in
      (
        made,
        (
          (λ before. lets_in ∙ ap (until user scopes) (live_until later end_at before)),
          (
            (λ t e after. lets_in ∙ ap (until user scopes) (over_after later t end_at e after)),
            (revoking, refused),
          ),
        ),
      )
