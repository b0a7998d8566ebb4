-- ===== src/Auth/Permission.antt =====
-- Who may do what: `Authorize`, `scopeAllowed` and `cleanScopes` of internal/auth/auth.go.

use cartolensia.Prelude.{
  true, false, none, some, List, [], ◌∷◌, ◌≡◌, ◌≢◌, ◌↔◌, ◌⊎◌, inl, inr, refl, arith, Text, text_eq,
  ◌==◌, contains, same_text_iff, All, sym, subst, Bool-cases,
}
use cartolensia.Texts.{bytes}
use cartolensia.Auth.{
  unauthorized, Principal, AuthMethod, unset, dev_no_auth, api_token, session_cookie,
}
use cartolensia.Auth.Scopes.{
  scope_read, scope_media_read, scope_admin, scope_write, scope_jobs_write, scope_plugins_write,
  is_api_token, scopes_for_action, scope_allowed, any_available, authorize,
}

-- The text stands in the list.
abbrev pub Has : Text → List Text → Type 0
Has x [] = ⊥
Has x (y ∷ ys) = (x ≡ y) ⊎ Has x ys

pub contains_iff : (xs : List Text) (x : Text) → (contains xs x ≡ true) ↔ Has x xs
contains_iff [] x = (λ h. cc h, λ h. absurd h)
contains_iff (y ∷ ys) x = ground (arith, same_text_iff x y, contains_iff ys x)

-- A scope of the list that the action needs.
abbrev pub Meets : List Text → List Text → Type 0
Meets scopes [] = ⊥
Meets scopes (x ∷ needed) = Has x scopes ⊎ Meets scopes needed

any_available_iff :
    (scopes needed : List Text) → (any_available scopes needed ≡ true) ↔ Meets scopes needed
any_available_iff scopes [] = (λ h. cc h, λ h. absurd h)
any_available_iff scopes (x ∷ needed) =
    ground (arith, contains_iff scopes x, any_available_iff scopes needed)

scope_allowed_iff :
    (scopes : List Text) (action : Text)
    → (scope_allowed scopes action ≡ true)
      ↔ (Has scope_admin scopes ⊎ Meets scopes (scopes_for_action action))
unfolding scope_allowed
scope_allowed_iff scopes action =
    let needed : List Text = scopes_for_action action in
    ground (arith, contains_iff scopes scope_admin, any_available_iff scopes needed)

-- The actions of jobs, and those of tokens and passwords.
abbrev on_jobs : List Text
on_jobs =
    bytes "jobs.cancel"
    ∷ bytes "jobs.retry"
    ∷ bytes "discovery.start"
    ∷ bytes "hash.start"
    ∷ bytes "metadata.enrich"
    ∷ bytes "previews.generate"
    ∷ []

abbrev on_tokens : List Text
on_tokens =
    bytes "api_tokens.create"
    ∷ bytes "api_tokens.list"
    ∷ bytes "api_tokens.revoke"
    ∷ bytes "auth.password.change"
    ∷ []

-- A token with the scope `admin` may do everything, one with `write` everything but the actions of tokens
-- and passwords, one with `jobs:write` the actions of jobs, one with `plugins:write` a rescan of plugins,
-- and no other scope gives anything.
abbrev pub Unlocks : List Text → Text → Type 0
Unlocks scopes action =
    Has (bytes "admin") scopes
    ⊎ ((Has (bytes "write") scopes × ¬ Has action on_tokens)
        ⊎ ((Has (bytes "jobs:write") scopes × Has action on_jobs)
            ⊎ (Has (bytes "plugins:write") scopes × (action ≡ bytes "plugins.rescan"))))

Has-All : (P : Text → Type 0) (x : Text) (xs : List Text) → Has x xs → All P xs → P x
Has-All P x [] h k = absurd h
Has-All P x (y ∷ ys) (inl e) k = subst P (sym e) k.0
Has-All P x (y ∷ ys) (inr h) k = Has-All P x ys h k.1

apart :
    (action : Text)
    → Has action (bytes "plugins.rescan" ∷ on_jobs)
    → contains on_tokens action ≡ false
apart action h =
    Has-All (λ x. contains on_tokens x ≡ false) action (bytes "plugins.rescan" ∷ on_jobs) h
      (refl, (refl, (refl, (refl, (refl, (refl, (refl, tt)))))))

not_plugin_job :
    (action : Text) → Has action on_jobs → contains (bytes "plugins.rescan" ∷ []) action ≡ false
not_plugin_job action h =
    Has-All (λ x. contains (bytes "plugins.rescan" ∷ []) x ≡ false) action on_jobs h
      (refl, (refl, (refl, (refl, (refl, (refl, tt))))))

-- What the four cases of the needed scopes come to, for any statements on the scopes and the action.
module _ {A W J P T B E : Type 0} where
  for_job : ¬ T → B → ¬ E → (A ⊎ (J ⊎ (W ⊎ ⊥))) ↔ (A ⊎ ((W × ¬ T) ⊎ ((J × B) ⊎ (P × E))))
  for_job t b e = ground (arith, t, b, e)

  for_plugin : ¬ T → ¬ B → E → (A ⊎ (P ⊎ (W ⊎ ⊥))) ↔ (A ⊎ ((W × ¬ T) ⊎ ((J × B) ⊎ (P × E))))
  for_plugin t b e = ground (arith, t, b, e)

  for_token : T → ¬ B → ¬ E → (A ⊎ (A ⊎ ⊥)) ↔ (A ⊎ ((W × ¬ T) ⊎ ((J × B) ⊎ (P × E))))
  for_token t b e = ground (arith, t, b, e)

  for_others : ¬ T → ¬ B → ¬ E → (A ⊎ (W ⊎ ⊥)) ↔ (A ⊎ ((W × ¬ T) ⊎ ((J × B) ⊎ (P × E))))
  for_others t b e = ground (arith, t, b, e)

absent : (x : Text) (xs : List Text) → contains xs x ≡ false → ¬ Has x xs
absent x xs e h = cc (e, (contains_iff xs x).1 h)

unlocked_iff :
    (scopes : List Text) (action : Text)
    → (Has scope_admin scopes ⊎ Meets scopes (scopes_for_action action)) ↔ Unlocks scopes action
unfolding scopes_for_action
unlocked_iff scopes action =
    let rescan = bytes "plugins.rescan" ∷ [] in
    let not_plugin : contains rescan action ≡ false → action ≢ bytes "plugins.rescan" =
      λ p e. absent action rescan p (inl e) in
    elim (Bool-cases (contains on_jobs action)) [
      | inl j ↦
          let here = (contains_iff on_jobs action).0 j in
          rw j (
            for_job (absent action on_tokens (apart action (inr here))) here
              (not_plugin (not_plugin_job action here)))
      | inr j ↦ elim (Bool-cases (contains rescan action)) [
        | inl p ↦
            let here : action ≡ bytes "plugins.rescan" = elim ((contains_iff rescan action).0 p) [
              | inl e ↦ e
              | inr e ↦ absurd e
            ] in
            rw (j, p)
              (for_plugin (absent action on_tokens (apart action (inl here)))
                (absent action on_jobs j) here)
        | inr p ↦ elim (Bool-cases (contains on_tokens action)) [
          | inl t ↦
              rw (j, p, t)
                (for_token ((contains_iff on_tokens action).0 t) (absent action on_jobs j)
                  (not_plugin p))
          | inr t ↦
              elim (Bool-cases
                (contains (bytes "sync.links.save" ∷ bytes "sync.links.delete" ∷ []) action)) [
                  | inl x ↦
                      rw (j, p, t, x)
                        (for_others (absent action on_tokens t) (absent action on_jobs j)
                          (not_plugin p))
                  | inr x ↦
                      rw (j, p, t, x)
                        (for_others (absent action on_tokens t) (absent action on_jobs j)
                          (not_plugin p))
                ]
        ]
      ]
    ]

-- What the principal must have for an action: an administrator outside a token, or a token with
-- a scope that unlocks the action.
abbrev pub IsGranted : Principal → Text → Type 0
IsGranted p action =
    (p.id ≢ [])
    × (((p.auth_method ≢ api_token) × (p.role ≡ bytes "admin"))
        ⊎ ((p.auth_method ≡ api_token) × Unlocks p.scopes action))

api_token_iff : (m : AuthMethod) → (is_api_token m ≡ true) ↔ (m ≡ api_token)
api_token_iff dev_no_auth = ground arith
api_token_iff unset = ground arith
api_token_iff api_token = (λ h. refl, λ h. refl)
api_token_iff session_cookie = ground arith

-- `Authorize` allows an action exactly to a principal with an identifier that is an administrator
-- and did not come with an API token, or that came with an API token. The token must have the scope
-- `admin`; or `write`, for all actions but those of tokens and passwords; or `jobs:write`, for the
-- actions of jobs; or `plugins:write`, for a rescan of the plugins.
pub authorize-IsGranted :
    (p : Principal) (action : Text) → (authorize p action ≡ none) ↔ IsGranted p action
unfolding authorize
authorize-IsGranted p action = ground (
  arith,
  same_text_iff p.id [],
  same_text_iff p.role (bytes "admin"),
  api_token_iff p.auth_method,
  scope_allowed_iff p.scopes action,
  unlocked_iff p.scopes action,
)

-- A scope that only reads.
abbrev pub IsReadScope : Text → Type 0
IsReadScope x = (x ≡ scope_read) ⊎ (x ≡ scope_media_read)

not_among :
    (y : Text) (scopes : List Text) → ¬ IsReadScope y → All IsReadScope scopes → ¬ Has y scopes
not_among y [] other reads has = has
not_among y (x ∷ scopes) other (read, reads) (inl e) = other (subst IsReadScope (sym e) read)
not_among y (x ∷ scopes) other (read, reads) (inr has) = not_among y scopes other reads has

texts_differ : (s t : Text) → (s == t) ≡ false → s ≢ t
texts_differ s t h e = ground (arith, same_text_iff s t)

admin_not_read : ¬ IsReadScope scope_admin
admin_not_read (inl e) = texts_differ scope_admin scope_read refl e
admin_not_read (inr e) = texts_differ scope_admin scope_media_read refl e

write_not_read : ¬ IsReadScope scope_write
write_not_read (inl e) = texts_differ scope_write scope_read refl e
write_not_read (inr e) = texts_differ scope_write scope_media_read refl e

jobs_not_read : ¬ IsReadScope scope_jobs_write
jobs_not_read (inl e) = texts_differ scope_jobs_write scope_read refl e
jobs_not_read (inr e) = texts_differ scope_jobs_write scope_media_read refl e

plugins_not_read : ¬ IsReadScope scope_plugins_write
plugins_not_read (inl e) = texts_differ scope_plugins_write scope_read refl e
plugins_not_read (inr e) = texts_differ scope_plugins_write scope_media_read refl e

nothing_read_met :
    (scopes : List Text) (action : Text)
    → All IsReadScope scopes
    → ¬ Meets scopes (scopes_for_action action)
unfolding scopes_for_action
nothing_read_met scopes action h = ground (
  arith,
  not_among scope_admin scopes admin_not_read h,
  not_among scope_write scopes write_not_read h,
  not_among scope_jobs_write scopes jobs_not_read h,
  not_among scope_plugins_write scopes plugins_not_read h,
)

-- An API token of a known principal whose scopes are all "read" or "media:read" is refused every
-- action with "unauthorized", whatever the principal's role.
pub authorize-IsReadScope :
    (p : Principal) (action : Text)
    → p.id ≢ []
    → p.auth_method ≡ api_token
    → All IsReadScope p.scopes
    → authorize p action ≡ some unauthorized
unfolding authorize
authorize-IsReadScope p action known token reads = ground (
  arith,
  same_text_iff p.id [],
  scope_allowed_iff p.scopes action,
  not_among scope_admin p.scopes admin_not_read reads,
  nothing_read_met p.scopes action reads,
)
