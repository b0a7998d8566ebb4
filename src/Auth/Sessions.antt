-- ===== src/Auth/Sessions.antt =====
-- How long a session of internal/auth lets a request in: from `Login` to its end, its deletion or a
-- change of the password.
use Prim.Native.Nat.{◌≤◌, ◌<◌}
use cartolensia.Prelude.{
  ℕ, Bool, false, Option, none, some, [], ◌∷◌, ◌≡◌, ◌≢◌, ◌⊎◌, inl, inr, refl, sym, ap, subst, arith,
  Text, text_eq, ltb, leb, same_text_iff, Bool-cases, All-mono, if◌then◌else◌,
}
use cartolensia.Prelude.Dict.{Dict, lookup, insert, Each, Each-insert, Each-lookup}
use cartolensia.Auth.{unauthenticated, ok, err, Principal, User, session_cookie}
use cartolensia.Auth.Store.{
  MemorySession, AuthStore, user_at, find_session, delete_where, create_session,
  principal_by_session_hash, delete_expired_sessions, user_or_zero,
}

-- Deleting the entries that a test picks keeps what holds of all, and what is left fails the test.
module _ {V : Type 0} (gone : V → Bool) where
  pub delete_where-fails : (m : Dict Text V) → Each (λ _ x. gone x ≡ false) (delete_where gone m)
  unfolding delete_where
  delete_where-fails [] = tt
  delete_where-fails ((id, x) ∷ m) = elim (Bool-cases (gone x)) [
    | inl e ↦ rw e (delete_where-fails m)
    | inr e ↦ rw e (e, delete_where-fails m)
  ]

  module _ {ℓ} (P : Text → V → Type ℓ) where
    pub delete_where-Each : (m : Dict Text V) → Each P m → Each P (delete_where gone m)
    unfolding delete_where
    delete_where-Each [] h = tt
    delete_where-Each ((id, x) ∷ m) h = elim (Bool-cases (gone x)) [
      | inl e ↦ rw e (delete_where-Each m h.1)
      | inr e ↦ rw e (h.0, delete_where-Each m h.1)
    ]

module _ (hash : Text) where
  -- A session that a request with this digest does not find at the time.
  abbrev pub IsOther : ℕ → MemorySession → Type 0
  IsOther now x = (x.expires_at < now) ⊎ (x.token_hash ≢ hash)

  -- A search among other sessions finds none.
  pub find_session-none :
      (now : ℕ) (m : Dict Text MemorySession)
      → Each (λ _ x. IsOther now x) m
      → (find_session hash now m).0 ≡ none
  unfolding find_session
  find_session-none now [] h = refl
  find_session-none now ((id, x) ∷ m) h =
      ground (arith, find_session-none now m h.1, same_text_iff x.token_hash hash)

  -- A session that has not ended, stored among others, is the one found.
  pub find_session-insert :
      (now : ℕ) (id : Text) (new : MemorySession) (m : Dict Text MemorySession)
      → Each (λ _ x. IsOther now x) m
      → new.token_hash ≡ hash
      → now ≤ new.expires_at
      → (find_session hash now (insert id new m)).0 ≡ some new
  unfolding find_session insert
  find_session-insert now id new [] h here alive = ground (arith, same_text_iff new.token_hash hash)
  find_session-insert now id new ((j, x) ∷ m) h here alive = ground (
    arith,
    find_session-insert now id new m h.1 here alive,
    same_text_iff new.token_hash hash,
    same_text_iff x.token_hash hash,
  )

  -- It is found too when entries that do not include it have been deleted.
  pub find_session-delete_where :
      (now : ℕ) (gone : MemorySession → Bool) (id : Text) (new : MemorySession)
      (m : Dict Text MemorySession)
      → Each (λ _ x. IsOther now x) m
      → new.token_hash ≡ hash
      → now ≤ new.expires_at
      → gone new ≡ false
      → (find_session hash now (delete_where gone (insert id new m))).0 ≡ some new
  unfolding find_session insert delete_where
  find_session-delete_where now gone id new [] h here alive kept =
      ground (arith, same_text_iff new.token_hash hash)
  find_session-delete_where now gone id new ((j, x) ∷ m) h here alive kept = ground (
    arith,
    find_session-delete_where now gone id new m h.1 here alive kept,
    find_session-insert now id new (delete_where gone m)
        (delete_where-Each gone (λ _ x. IsOther now x) m h.1) here alive,
    same_text_iff new.token_hash hash,
    same_text_iff x.token_hash hash,
  )

-- Deleting the sessions that have ended leaves none with a digest that all the live ones lack.
pub delete_where-ended :
    (hash : Text) (now : ℕ) (m : Dict Text MemorySession)
    → Each (λ _ x. (MemorySession.token_hash x ≢ hash) ⊎ (x.expires_at ≤ now)) m
    → Each (λ _ x. IsOther hash now x) (delete_where (λ x. leb (MemorySession.expires_at x) now) m)
unfolding delete_where
delete_where-ended hash now [] h = tt
delete_where-ended hash now ((id, x) ∷ m) h = elim (Bool-cases (leb x.expires_at now)) [
  | inl e ↦ rw e (delete_where-ended hash now m h.1)
  | inr e ↦ rw e (ground (arith, h.0), delete_where-ended hash now m h.1)
]

-- Users stand under their identifiers.
abbrev pub IsKeyed : AuthStore → Type 0
IsKeyed s = Each (λ id user. User.id user ≡ id) s.users

not_zero :
    (found : Option User) (user : User)
    → user_or_zero found ≡ user
    → user.password_hash ≢ []
    → found ≡ some user
not_zero none user e h = absurd (h (ap User.password_hash (sym e)))
not_zero (some found) user e h = ap (λ (u : User). some u) e

pub user_at-stored :
    (found : Option Text) (s : AuthStore) (user : User)
    → IsKeyed s
    → user.password_hash ≢ []
    → user_at found s ≡ ok user
    → lookup user.id s.users ≡ some user
user_at-stored none s user keyed h e = cc
user_at-stored (some id) s user keyed h e =
    let at : lookup id s.users ≡ some user = not_zero (lookup id s.users) user (cc e) h in
    let same : user.id ≡ id = Each-lookup (λ id u. User.id u ≡ id) id user s.users keyed at in
    subst (λ i. lookup i s.users ≡ some user) (sym same) at

pub delete_expired_sessions-users :
    (now : ℕ) (s : AuthStore) → (delete_expired_sessions now s).1.users ≡ s.users
unfolding delete_expired_sessions
delete_expired_sessions-users now s = refl

-- The principal of a session of the user.
abbrev pub session_of : User → Principal
session_of user = record {
  id = user.id;
  name = user.display_name;
  email = user.email;
  role = user.role;
  auth_method = session_cookie;
  scopes = [];
}

-- A stored session of an active user, with a digest that no other has, counts until its end.
pub create_session-counts :
    (id hash : Text) (user : User) (end later : ℕ) (s : AuthStore)
    → lookup user.id s.users ≡ some user
    → user.disabled_at ≡ none
    → Each (λ _ x. MemorySession.token_hash x ≢ hash) s.sessions
    → (principal_by_session_hash hash later
        (delete_expired_sessions later (create_session id user.id hash end s).1).1).0
      ≡ (if ltb later end then ok (session_of user) else err unauthenticated)
unfolding principal_by_session_hash delete_expired_sessions create_session
create_session-counts id hash user end later s stored enabled fresh =
    let new : MemorySession = record {
      id = id;
      user_id = user.id;
      token_hash = hash;
      expires_at = end;
    } in
    let over : MemorySession → Bool = λ x. leb x.expires_at later in
    elim (Bool-cases (ltb later end)) [
      | inl e ↦
          let others : Each (λ _ x. IsOther hash later x) s.sessions =
            All-mono (λ x h. inr h) s.sessions fresh in
          rw (
            find_session-delete_where hash later over id new s.sessions others refl (ground arith)
                (ground arith),
            stored,
            enabled,
            e,
          )
      | inr e ↦ rw (
        find_session-none hash later (delete_where over (insert id new s.sessions)) (
            delete_where-ended hash later (insert id new s.sessions) (
              Each-insert (λ _ x. (MemorySession.token_hash x ≢ hash) ⊎ (x.expires_at ≤ later)) id
                new s.sessions (inr (ground arith)) (All-mono (λ x h. inl h) s.sessions fresh))),
        e,
      )
    ]
