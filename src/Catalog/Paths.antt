-- ===== src/Catalog/Paths.antt =====
-- The paths of the explorer in internal/catalog/catalog.go: `joinExplorerPath` and `pathRemainder`.
use cartolensia.Prelude.{
  true, Option, none, some, [], ◌∷◌, ◌++◌, ◌≡◌, ◌≢◌, ◌↔◌, ◌∙◌, Text, text_eq, ◌==◌, same_text_iff,
  if◌then◌else◌, Bool-cases, inl, inr, ap,
}
use cartolensia.Texts.{has_prefix, drop_length, trim_prefix}
use cartolensia.Texts.Prefixes.{has_prefix-append, drop_length-append, append_drop}

abbrev pub slash : Text
slash = b'/' ∷ []

unfoldable pub join_explorer_path : Text → Text → Text
join_explorer_path parent name = if parent == [] then name else parent ++ slash ++ name

-- pathRemainder; `none` where the file is not below the folder
unfoldable pub path_remainder : Text → Text → Option Text
unfolding trim_prefix
path_remainder relative_path current =
    if current == []
    then some relative_path
    else if relative_path == current
    then none
    else if has_prefix relative_path (current ++ slash)
    then some (trim_prefix relative_path (current ++ slash))
    else none

longer : (p s : Text) → p ++ slash ++ s ≢ p
longer [] s e = cc
longer (c ∷ p) s e = longer p s (cc e)

below :
    (relative_path current rest : Text)
    → has_prefix relative_path (current ++ slash) ≡ true
    → drop_length relative_path (current ++ slash) ≡ rest
    → current ++ slash ++ rest ≡ relative_path
below relative_path current rest b h = rw (← h) (append_drop (current ++ slash) relative_path b)

rest_of :
    (relative_path current rest : Text)
    → current ++ slash ++ rest ≡ relative_path
    → drop_length relative_path (current ++ slash) ≡ rest
rest_of relative_path current rest h = rw (← h) (drop_length-append (current ++ slash) rest)

-- A file below a folder is one whose path is the folder's, a slash and the rest: `pathRemainder` finds a
-- rest exactly if joining it to the folder gives the file's path.
pub path_remainder-join_explorer_path :
    (relative_path current rest : Text)
    → (path_remainder relative_path current ≡ some rest)
      ↔ (join_explorer_path current rest ≡ relative_path)
unfolding path_remainder join_explorer_path trim_prefix
path_remainder-join_explorer_path relative_path current rest =
    let prefix : Text = current ++ slash in
    elim (Bool-cases (current == [])) [
      | inl e ↦ rw e ((λ h. cc h), (λ h. cc h))
      | inr e ↦ elim (Bool-cases (relative_path == current)) [
        | inl k ↦
            rw (e, k)
              (
                (λ h. cc h),
                (λ h. absurd (longer current rest (h ∙ (same_text_iff relative_path current).0 k))),
              )
        | inr k ↦ elim (Bool-cases (has_prefix relative_path prefix)) [
          | inl b ↦
              rw (e, k, b)
                (
                  (λ h. below relative_path current rest b (cc h)),
                  (λ h. ap (λ (t : Text). some t) (rest_of relative_path current rest h)),
                )
          | inr b ↦ rw (e, k, b) ((λ h. cc h), (λ h. cc (has_prefix-append prefix rest, h, b)))
        ]
      ]
    ]
