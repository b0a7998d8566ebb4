-- ===== src/Auth/Requests.antt =====
-- `ValidateCSRF` of internal/auth/auth.go.
use cartolensia.Prelude.{
  Option, none, some, [], ◌≡◌, ◌≢◌, ◌↔◌, refl, ap, subst, arith, Text, text_eq, same_text_iff,
}
use cartolensia.Texts.{trim_space}
use cartolensia.Auth.{AuthMethod, unset, dev_no_auth, session_cookie, api_token, Crypto}
use cartolensia.Auth.Service.{
  Config, Request, Credential, credential_from_request, csrf_token, csrf_for, validate_csrf,
}

module _ (crypto : Crypto) (cfg : Config) where
  -- A credential that is a session cookie comes with its token.
  abbrev pub IsProtected : Option Credential → Text → Type 0
  IsProtected found actual =
      (c : Credential)
      → found ≡ some c
      → c.method ≡ session_cookie
      → (actual ≢ []) × (csrf_token crypto cfg c.secret ≡ actual)

  csrf_for-session :
      (secret actual : Text)
      → (csrf_for crypto cfg (some (record { secret = secret; method = session_cookie })) actual
          ≡ none)
        ↔ ((actual ≢ []) × (csrf_token crypto cfg secret ≡ actual))
  csrf_for-session secret actual =
      ground (arith, same_text_iff actual [], same_text_iff (csrf_token crypto cfg secret) actual)

  csrf_for_method :
      (m : AuthMethod) (secret actual : Text)
      → (csrf_for crypto cfg (some (record { secret = secret; method = m })) actual ≡ none)
        ↔ (m ≡ session_cookie → (actual ≢ []) × (csrf_token crypto cfg secret ≡ actual))
  csrf_for_method session_cookie secret actual =
      let exact = csrf_for-session secret actual in ((λ h e. exact.0 h), (λ h. exact.1 (h refl)))
  csrf_for_method unset secret actual = ((λ h e. cc), (λ h. refl))
  csrf_for_method dev_no_auth secret actual = ((λ h e. cc), (λ h. refl))
  csrf_for_method api_token secret actual = ((λ h e. cc), (λ h. refl))

  abbrev credential_or : Credential → Option Credential → Credential
  credential_or c none = c
  credential_or c (some d) = d

  csrf_for-IsProtected :
      (found : Option Credential) (actual : Text)
      → (csrf_for crypto cfg found actual ≡ none) ↔ IsProtected found actual
  csrf_for-IsProtected none actual = ((λ h c e. cc), (λ h. refl))
  csrf_for-IsProtected (some c) actual =
      let exact = csrf_for_method c.method c.secret actual in
      (
        (λ h d e.
            subst
              (λ x.
                Credential.method x ≡ session_cookie
                → (actual ≢ []) × (csrf_token crypto cfg x.secret ≡ actual))
              (ap (credential_or c) e) (exact.0 h)),
        (λ h. exact.1 (h c refl)),
      )

  -- The CSRF check lets a request through exactly if its credential, where it is a session cookie, comes
  -- with a header that is not blank and, trimmed, is the token of the cookie's secret.
  pub validate_csrf-IsProtected :
      (r : Request)
      → (validate_csrf crypto cfg r ≡ none)
        ↔ IsProtected (credential_from_request r) (trim_space r.csrf)
  unfolding validate_csrf
  validate_csrf-IsProtected r = csrf_for-IsProtected (credential_from_request r) (trim_space r.csrf)
