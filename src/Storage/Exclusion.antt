-- ===== src/Storage/Exclusion.antt =====
-- internal/storage/storage.go: which folders `excludedDirectoryByPattern` excludes.
use cartolensia.Prelude.{
  Bool, true, ◌&&◌, List, [], ◌∷◌, ◌++◌, ◌≡◌, ◌≢◌, ◌↔◌, ◌⊎◌, inl, inr, refl, sym, subst, ◌∙◌, arith,
  Text, text_eq, ◌==◌, same_text_iff, same_refl, same_ne, contains, any, Bool-cases,
}
use cartolensia.Texts.{has_suffix, trim_suffix}
use cartolensia.Texts.FilePath.{slash}
use cartolensia.Texts.Prefixes.{has_prefix_iff, has_suffix_iff, trim_suffix-append}
use cartolensia.Storage.Patterns.{
  normalize_glob_path, base, below_all, under, excludes_folder, excluded_directory_by_pattern,
}

-- The folder is the prefix or below it.
abbrev pub IsUnder : Text → Text → Type 0
IsUnder path prefix = (path ≡ prefix) ⊎ ((rest : Text) × (prefix ++ (slash ∷ []) ++ rest ≡ path))

under-IsUnder : (path prefix : Text) → (under path prefix ≡ true) ↔ IsUnder path prefix
under-IsUnder path prefix = (forth, back)
  where
    forth : under path prefix ≡ true → IsUnder path prefix
    forth h = elim (Bool-cases (path == prefix)) [
      | inl e ↦ inl ((same_text_iff path prefix).0 e)
      | inr e ↦ inr ((has_prefix_iff path (prefix ++ (slash ∷ []))).0 (rw e at h))
    ]

    back : IsUnder path prefix → under path prefix ≡ true
    back (inl e) = rw (e, same_refl prefix)
    back (inr below) = ground (arith, (has_prefix_iff path (prefix ++ (slash ∷ []))).1 below)

-- The pattern is `prefix/**`, and the folder is the prefix or below it.
abbrev pub IsInTree : Text → Text → Type 0
IsInTree pattern path = (prefix : Text) × ((prefix ++ below_all ≡ pattern) × IsUnder path prefix)

tree-IsInTree :
    (pattern path : Text)
    → (has_suffix pattern below_all && under path (trim_suffix pattern below_all) ≡ true)
      ↔ IsInTree pattern path
tree-IsInTree pattern path = (forth, back)
  where
    forth :
        has_suffix pattern below_all && under path (trim_suffix pattern below_all) ≡ true
        → IsInTree pattern path
    forth h = elim (Bool-cases (has_suffix pattern below_all)) [
      | inl e ↦
          let (prefix, same) = (has_suffix_iff pattern below_all).0 e in
          (
            prefix,
            (
              same,
              (under-IsUnder path prefix).0
                  (rw (← trim_suffix-append prefix below_all, same) (ground (arith, h))),
            ),
          )
      | inr e ↦ cc (rw e at h)
    ]

    back :
        IsInTree pattern path
        → has_suffix pattern below_all && under path (trim_suffix pattern below_all) ≡ true
    back (prefix, (same, below)) =
        rw
          (
            ← same,
            (has_suffix_iff (prefix ++ below_all) below_all).1 (prefix, refl),
            trim_suffix-append prefix below_all,
          )
          ((under-IsUnder path prefix).1 below)

any_iff :
    (p : Text → Bool) (xs : List Text)
    → (any p xs ≡ true) ↔ ((x : Text) × ((contains xs x ≡ true) × (p x ≡ true)))
any_iff p xs = (forth xs, back xs)
  where
    forth :
        (ys : List Text) → any p ys ≡ true → (x : Text) × ((contains ys x ≡ true) × (p x ≡ true))
    forth [] h = cc h
    forth (y ∷ ys) h = elim (Bool-cases (p y)) [
      | inl e ↦ (y, (rw (same_refl y) refl, e))
      | inr e ↦
          let (x, (found, passes)) = forth ys (rw e at h) in (x, (ground (arith, found), passes))
    ]

    back : (ys : List Text) → (x : Text) × ((contains ys x ≡ true) × (p x ≡ true)) → any p ys ≡ true
    back [] (x, (found, passes)) = cc found
    back (y ∷ ys) (x, (found, passes)) = elim (Bool-cases (x == y)) [
      | inl e ↦ ground (arith, subst (λ z. p z ≡ true) ((same_text_iff x y).0 e) passes)
      | inr e ↦ ground (arith, back ys (x, (rw e at found, passes)))
    ]

module _ (match_ : Text → Text → Bool) where
  -- A pattern that excludes a folder: with the folder in its tree, or matching the folder's path or the
  -- last element of the path.
  abbrev pub Excludes : Text → Text → Type 0
  Excludes pattern path =
      (pattern ≢ [])
      × (IsInTree pattern path
          ⊎ ((match_ pattern path ≡ true) ⊎ (match_ pattern (base path) ≡ true)))

  excludes_folder-Excludes :
      (path pattern : Text) → (excludes_folder match_ path pattern ≡ true) ↔ Excludes pattern path
  excludes_folder-Excludes path pattern =
      ground (arith, tree-IsInTree pattern path, same_text_iff pattern [])

  excluded_by_any :
      (relative_path : Text) (patterns : List Text)
      → normalize_glob_path relative_path ≢ []
      → excluded_directory_by_pattern match_ relative_path patterns
        ≡ any
            (λ pattern.
              excludes_folder match_
                (normalize_glob_path relative_path)
                (normalize_glob_path pattern))
            patterns
  unfolding excluded_directory_by_pattern
  excluded_by_any relative_path patterns n =
      rw (same_ne (normalize_glob_path relative_path) [] n) refl

  -- `excludedDirectoryByPattern` excludes a folder other than the root exactly if, of the patterns, one in
  -- its normal form is not empty and is `prefix/**` with the folder the prefix or below it, or matches the
  -- folder's path or its last element.
  pub excluded_directory_by_pattern-Excludes :
      (relative_path : Text) (patterns : List Text)
      → normalize_glob_path relative_path ≢ []
      → (excluded_directory_by_pattern match_ relative_path patterns ≡ true) ↔ (
          (pattern : Text) × ((contains patterns pattern ≡ true)
            × Excludes (normalize_glob_path pattern) (normalize_glob_path relative_path)))
  excluded_directory_by_pattern-Excludes relative_path patterns n =
      let path : Text = normalize_glob_path relative_path in
      let excludes : Text → Bool =
        λ pattern. excludes_folder match_ path (normalize_glob_path pattern) in
      let by_any : excluded_directory_by_pattern match_ relative_path patterns
          ≡ any excludes patterns =
        excluded_by_any relative_path patterns n in
      (
        (λ h.
            let (pattern, (found, passes)) = (any_iff excludes patterns).0 (sym by_any ∙ h) in
            (
              pattern,
              (found, (excludes_folder-Excludes path (normalize_glob_path pattern)).0 passes),
            )),
        (λ (pattern, (found, e)).
            by_any
            ∙ (any_iff excludes patterns).1 (
              pattern,
              (found, (excludes_folder-Excludes path (normalize_glob_path pattern)).1 e),
            )),
      )
