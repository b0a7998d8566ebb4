-- ===== src/Auth.antt =====
-- internal/auth/auth.go and internal/auth/memory.go: who a request comes from and what it may do.
-- The records of the package and its errors are in this file, the in-memory store and the local
-- service in the modules below.
pub mod Scopes
pub mod Store
pub mod Service
pub mod Permission
pub mod Cleaning
pub mod Sessions
pub mod Login
pub mod Passwords
pub mod Tokens
pub mod Requests
mod Examples
use cartolensia.Prelude.{ℕ, String, Bool, Option, List, Text}

-- The package's error values; `failure` is any other error, by its text.
pub data AuthError : Type 0 where
  unauthenticated unauthorized not_found : AuthError
  failure : String → AuthError

pub data Result {ℓ} (A : Type ℓ) : Type ℓ where
  ok : A → Result A
  err : AuthError → Result A

-- The constants `AuthMethod...`; `unset` is the empty string.
pub data AuthMethod : Type 0 where
  unset dev_no_auth session_cookie api_token : AuthMethod

pub record Principal : Type 0 where
  pub id : Text
  pub name : Text
  pub email : Text
  pub role : Text
  pub auth_method : AuthMethod
  pub scopes : List Text

pub record User : Type 0 where
  pub id : Text
  pub email : Text
  pub display_name : Text
  pub password_hash : Text
  pub role : Text
  pub disabled_at : Option ℕ

pub record Session : Type 0 where
  pub id : Text
  pub principal : Principal
  pub expires_at : ℕ

pub record ApiToken : Type 0 where
  pub id : Text
  pub user_id : Text
  pub name : Text
  pub scopes : List Text
  pub expires_at : Option ℕ
  pub created_at : ℕ
  pub last_used_at : Option ℕ
  pub revoked_at : Option ℕ

-- What the service takes from outside the program: the digest and its encoding, and the password
-- hash with its test. `bcrypt_hash` is `none` where the library refuses the password.
pub record Crypto : Type 0 where
  pub sha256 : Text → Text
  pub base64url : Text → Text
  pub bcrypt_hash : Text → Option Text
  pub bcrypt_matches : Text → Text → Bool
