-- ===== src/Auth/Passwords.antt =====
-- `ChangePassword` of internal/auth/auth.go and what `UpdatePassword` of memory.go does to sessions;
-- `BootstrapAdmin` and `UserByEmail` of memory.go, which compare addresses in normal form.
use cartolensia.Prelude.{
  Bool, true, false, not, ◌&&◌, Option, none, some, [], ◌∷◌, ◌≡◌, ◌≢◌, inl, inr, refl, arith, Text,
  text_eq, ◌==◌, same_text_iff, same_ne, Bool-cases, All-mono,
}
use cartolensia.Prelude.Dict.{Dict, lookup, lookup-insert_self, Each}
use cartolensia.Texts.{trim_space}
use cartolensia.Texts.Trim.{normal}
use cartolensia.Auth.{ok, Principal, User, Crypto}
use cartolensia.Auth.Store.{
  MemorySession, AuthStore, delete_where, update_password, user_by_email, user_by_id,
  bootstrap_admin, bootstrap_at, user_or_zero,
}
use cartolensia.Auth.Service.{Config, check_password, change_password}
use cartolensia.Auth.Sessions.{delete_where-fails}

-- An entry that fails the test stays where it was.
delete_where-lookup :
    (gone : MemorySession → Bool) (id : Text) (x : MemorySession) (m : Dict Text MemorySession)
    → lookup id m ≡ some x
    → gone x ≡ false
    → lookup id (delete_where gone m) ≡ some x
unfolding lookup delete_where
delete_where-lookup gone id x [] found kept = cc
delete_where-lookup gone id x ((j, y) ∷ m) found kept = elim (Bool-cases (id == j)) [
  | inl e ↦ let here : y ≡ x = cc (rw e at found) in rw (here, kept, e)
  | inr e ↦
      let there : lookup id (delete_where gone m) ≡ some x =
        delete_where-lookup gone id x m (rw e at found) kept in
      elim (Bool-cases (gone y)) [ inl k ↦ rw k there | inr k ↦ rw (k, e) there ]
]

module _ (crypto : Crypto) (cfg : Config) where
  open crypto use {bcrypt_hash}

  -- With a known principal, a new password that is not blank and can be hashed, and the right old
  -- password of the stored user, `ChangePassword` succeeds: the user has the new hash and is otherwise
  -- the same, no session of the user is left, and each session of another user is kept.
  pub change_password-ends_sessions :
      (p : Principal) (old new hash : Text) (user : User) (s : AuthStore)
      → p.id ≢ []
      → trim_space new ≢ []
      → lookup p.id s.users ≡ some user
      → check_password crypto cfg user.password_hash old ≡ true
      → bcrypt_hash new ≡ some hash
      → let (result, s') = change_password crypto cfg p old new s in
        (result ≡ ok tt)
        × ((lookup p.id s'.users ≡ some (record user { password_hash = hash }))
            × (Each (λ _ x. MemorySession.user_id x ≢ p.id) s'.sessions
                × ((id : Text) (x : MemorySession)
                    → lookup id s.sessions ≡ some x
                    → x.user_id ≢ p.id
                    → lookup id s'.sessions ≡ some x)))
  unfolding change_password user_by_id update_password
  change_password-ends_sessions p old new hash user s known filled found right hashed =
      rw (same_ne p.id [] known, same_ne (trim_space new) [] filled, found, right, hashed, found)
        (
          refl,
          (
            lookup-insert_self p.id (record user { password_hash = hash }) s.users,
            (
              All-mono (λ x h e. ground (arith, same_text_iff x.1.user_id p.id))
                  (delete_where (λ x. MemorySession.user_id x == p.id) s.sessions)
                  (delete_where-fails (λ x. MemorySession.user_id x == p.id) s.sessions),
              (λ id x at other.
                  delete_where-lookup (λ x. MemorySession.user_id x == p.id) id x s.sessions at
                    (same_ne x.user_id p.id other)),
            ),
          ),
        )

-- The returned user stands under the address in the store that is left.
record Standing (email : Text) (admin : User) (s : AuthStore) : Type 0 where
  id : Text
  listed : lookup email s.by_email ≡ some id
  held : user_or_zero (lookup id s.users) ≡ admin

filled_or_same :
    (email id : Text) (user : User) (s : AuthStore)
    → lookup email s.by_email ≡ some id
    → let ((admin, created), s') = bootstrap_at (some id) email user s in Standing email admin s'
filled_or_same email id user s found =
    let existing : User = user_or_zero (lookup id s.users) in
    elim (Bool-cases (existing.password_hash == [] && not (user.password_hash == []))) [
      | inl e ↦ rw e (record {
        id = id;
        listed = found;
        held = rw (
            lookup-insert_self id (record existing { password_hash = user.password_hash }) s.users);
      })
      | inr e ↦ rw e (record { id = id; listed = found; held = refl })
    ]

created_user :
    (email : Text) (user : User) (s : AuthStore)
    → let ((admin, created), s') = bootstrap_at none email user s in Standing email admin s'
created_user email user s = record {
  id = user.id;
  listed = lookup-insert_self email user.id s.by_email;
  held = rw (lookup-insert_self user.id (record user { email = email }) s.users);
}

at_found :
    (found : Option Text) (email : Text) (user : User) (s : AuthStore)
    → lookup email s.by_email ≡ found
    → let ((admin, created), s') = bootstrap_at found email user s in Standing email admin s'
at_found none email user s e = created_user email user s
at_found (some id) email user s e = filled_or_same email id user s e

bootstrap_at-Standing :
    (email : Text) (user : User) (s : AuthStore)
    → let ((admin, created), s') = bootstrap_at (lookup email s.by_email) email user s in
      Standing email admin s'
bootstrap_at-Standing email user s = at_found (lookup email s.by_email) email user s refl

-- After `BootstrapAdmin`, the user that it returned is found by every address with the same normal
-- form, and if that user has a password hash, bootstrapping again with such an address returns the
-- same user as not created and changes nothing.
pub bootstrap_admin-stable :
    (user : User) (s : AuthStore)
    → let ((admin, created), s') = bootstrap_admin user s in
      ((email : Text) → normal email ≡ normal user.email → user_by_email email s' ≡ ok admin)
      × (admin.password_hash ≢ []
          → (again : User) → normal again.email ≡ normal user.email
          → bootstrap_admin again s' ≡ ((admin, false), s'))
unfolding bootstrap_admin user_by_email
bootstrap_admin-stable user s =
    let stood = bootstrap_at-Standing (normal user.email) user s in
    (
      (λ email same. rw (same, stood.listed, stood.held)),
      (λ filled again same.
          rw (same, stood.listed, stood.held)
            (ground (arith, same_text_iff (bootstrap_admin user s).0.0.password_hash []))),
    )
