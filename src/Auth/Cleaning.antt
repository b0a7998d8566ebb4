-- ===== src/Auth/Cleaning.antt =====
-- What `cleanScopes` of internal/auth/auth.go makes of a list of scopes.
use cartolensia.Prelude.{
  List, [], ◌∷◌, ◌++◌, ◌≡◌, ◌≢◌, ◌↔◌, ◌⊎◌, inl, inr, arith, Text, text_eq, ◌==◌, contains,
  same_text_iff, Bool-cases, sym, subst, if◌then◌else◌,
}
use cartolensia.Texts.{trim_space}
use cartolensia.Auth.Scopes.{clean_from, clean_scopes}
use cartolensia.Auth.Permission.{Has, contains_iff}

-- No text stands twice in the list, and none is empty.
abbrev pub IsClean : List Text → Type 0
IsClean [] = Unit
IsClean (x ∷ xs) = (x ≢ []) × ((¬ Has x xs) × IsClean xs)

Has-append : (x : Text) (xs ys : List Text) → Has x (xs ++ ys) ↔ (Has x xs ⊎ Has x ys)
Has-append x [] ys = ground arith
Has-append x (y ∷ xs) ys = ground (arith, Has-append x xs ys)

IsClean-append :
    (xs : List Text) (x : Text) → IsClean xs → x ≢ [] → ¬ Has x xs → IsClean (xs ++ x ∷ [])
IsClean-append [] x clean filled new = (filled, ((λ h. h), tt))
IsClean-append (y ∷ xs) x clean filled new = (
  clean.0,
  (
    (λ h. ground (arith, (Has-append y xs (x ∷ [])).0 h, clean.1.0)),
    IsClean-append xs x clean.1.1 filled (λ h. new (inr h)),
  ),
)

-- one step of the loop
abbrev step : List Text → Text → List Text
step out trimmed =
    if trimmed == [] then out else if contains out trimmed then out else out ++ trimmed ∷ []

step-IsClean : (out : List Text) (x : Text) → IsClean out → IsClean (step out x)
step-IsClean out x clean = elim (Bool-cases (x == [])) [
  | inl e ↦ rw e clean
  | inr e ↦ elim (Bool-cases (contains out x)) [
    | inl k ↦ rw (e, k) clean
    | inr k ↦
        rw (e, k)
          (IsClean-append out x clean (λ h. ground (arith, same_text_iff x []))
            (λ h. ground (arith, contains_iff out x)))
  ]
]

kept_member :
    (y x : Text) (out : List Text) → Has x out → (Has y out ⊎ ((y ≢ []) × (y ≡ x))) → Has y out
kept_member y x out has (inl h) = h
kept_member y x out has (inr (filled, e)) = subst (λ z. Has z out) (sym e) has

step-Has : (out : List Text) (x y : Text) → Has y (step out x) ↔ (Has y out ⊎ ((y ≢ []) × (y ≡ x)))
step-Has out x y = elim (Bool-cases (x == [])) [
  | inl e ↦ rw e (ground (arith, same_text_iff x []))
  | inr e ↦ elim (Bool-cases (contains out x)) [
    | inl k ↦
        let has : Has x out = (contains_iff out x).0 k in
        rw (e, k) ((λ h. inl h), kept_member y x out has)
    | inr k ↦ rw (e, k) (ground (arith, Has-append y out (x ∷ []), same_text_iff x []))
  ]
]

clean_from-IsClean : (out scopes : List Text) → IsClean out → IsClean (clean_from out scopes)
unfolding clean_from
clean_from-IsClean out [] clean = clean
clean_from-IsClean out (x ∷ scopes) clean =
    let trimmed : Text = trim_space x in
    clean_from-IsClean (step out trimmed) scopes (step-IsClean out trimmed clean)

-- A text that trimming one of the scopes gives.
abbrev pub IsTrimOf : Text → List Text → Type 0
IsTrimOf y [] = ⊥
IsTrimOf y (x ∷ xs) = (y ≡ trim_space x) ⊎ IsTrimOf y xs

clean_from-Has :
    (out scopes : List Text) (y : Text)
    → Has y (clean_from out scopes) ↔ (Has y out ⊎ ((y ≢ []) × IsTrimOf y scopes))
unfolding clean_from
clean_from-Has out [] y = ground arith
clean_from-Has out (x ∷ scopes) y =
    let trimmed : Text = trim_space x in
    ground (arith, clean_from-Has (step out trimmed) scopes y, step-Has out trimmed y)

-- Cleaning a list of scopes leaves no empty text and no text twice, and its members are exactly the
-- texts other than the empty one that trimming a scope of the list gives.
pub clean_scopes-IsClean :
    (scopes : List Text)
    → IsClean (clean_scopes scopes)
      × ((y : Text) → Has y (clean_scopes scopes) ↔ ((y ≢ []) × IsTrimOf y scopes))
unfolding clean_scopes
clean_scopes-IsClean scopes =
    (clean_from-IsClean [] scopes tt, (λ y. ground (arith, clean_from-Has [] scopes y)))
