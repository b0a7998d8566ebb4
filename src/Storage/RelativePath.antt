-- ===== src/Storage/RelativePath.antt =====
-- internal/storage/storage.go, `NormalizeRelativePath`, and the paths of the explorer in
-- internal/catalog/catalog.go, `normalizeExplorerPath` and `parentExplorerPath`.
use cartolensia.Prelude.{
  Bool, false, ◌||◌, [], ◌∷◌, ◌≡◌, ◌≢◌, inl, inr, subst, arith, Text, text_eq, ◌==◌, contains,
  same_text_iff, Bool-cases, if◌then◌else◌,
}
use cartolensia.Texts.{trim_space, has_prefix, replace_byte, split}
use cartolensia.Texts.FilePath.{slash, dot, dots, dots_slash, clean, dir, IsInside, clean-IsInside}
use cartolensia.Storage.{Result, ok, err, traversal}

-- what both functions do first
unfoldable pub slashed : Text → Text
unfolding trim_space replace_byte
slashed input = trim_space (replace_byte 92 slash input)

unfoldable pub normalize_relative_path : Text → Result Text
unfolding slashed has_prefix split clean
normalize_relative_path input =
    let s = slashed input in
    if s == [] || has_prefix s (slash ∷ [])
    then err traversal
    else if contains (split slash s) dots
    then err traversal
    else if clean s == dot || clean s == dots || has_prefix (clean s) dots_slash
    then err traversal
    else ok (clean s)

-- normalizeExplorerPath; its two errors are texts of their own
pub data ExplorerPath : Type 0 where
  at : Text → ExplorerPath
  not_relative escapes_root : ExplorerPath

unfoldable pub normalize_explorer_path : Text → ExplorerPath
unfolding slashed has_prefix clean
normalize_explorer_path input =
    let s = slashed input in
    if s == [] || s == slash ∷ []
    then at []
    else if has_prefix s (slash ∷ [])
    then not_relative
    else if clean s == dot
    then at []
    else if clean s == dots || has_prefix (clean s) dots_slash
    then escapes_root
    else at (clean s)

unfoldable pub parent_explorer_path : Text → Text
unfolding dir
parent_explorer_path current =
    if current == [] then [] else if dir current == dot then [] else dir current

refused : (s p : Text) → (s == p) ≡ false → s ≢ p
refused s p h e = cc (h, (same_text_iff s p).1 e)

accepted :
    (s path : Text)
    → (clean s == dot) ≡ false
    → (clean s == dots) ≡ false
    → has_prefix (clean s) dots_slash ≡ false
    → clean s ≡ path
    → IsInside path
accepted s path a b c e =
    subst IsInside e (clean-IsInside s (refused (clean s) dot a) (refused (clean s) dots b) c)

-- A path that `NormalizeRelativePath` returns has no empty element, no `.` and no `..`, so that it stays
-- below the folder it is joined to.
pub normalize_relative_path-IsInside :
    (input path : Text) → normalize_relative_path input ≡ ok path → IsInside path
unfolding normalize_relative_path
normalize_relative_path-IsInside input path h =
    let s : Text = slashed input in
    let above : Bool = has_prefix (clean s) dots_slash in
    elim (Bool-cases (s == [] || has_prefix s (slash ∷ []))) [
      | inl a ↦ cc (rw a at h)
      | inr a ↦ elim (Bool-cases (contains (split slash s) dots)) [
        | inl b ↦ cc (rw (a, b) at h)
        | inr b ↦ elim (Bool-cases (clean s == dot || clean s == dots || above)) [
          | inl c ↦ cc (rw (a, b, c) at h)
          | inr c ↦
              accepted s path (ground (arith, c)) (ground (arith, c)) (ground (arith, c))
                (cc (rw (a, b, c) at h))
        ]
      ]
    ]

-- A path that `normalizeExplorerPath` returns is empty or has no empty element, no `.` and no `..`.
pub normalize_explorer_path-IsInside :
    (input path : Text) → normalize_explorer_path input ≡ at path → path ≢ [] → IsInside path
unfolding normalize_explorer_path
normalize_explorer_path-IsInside input path h n =
    let s : Text = slashed input in
    elim (Bool-cases (s == [] || s == slash ∷ [])) [
      | inl a ↦ absurd (n (cc (rw a at h)))
      | inr a ↦ elim (Bool-cases (has_prefix s (slash ∷ []))) [
        | inl b ↦ cc (rw (a, b) at h)
        | inr b ↦ elim (Bool-cases (clean s == dot)) [
          | inl c ↦ absurd (n (cc (rw (a, b, c) at h)))
          | inr c ↦ elim (Bool-cases (clean s == dots || has_prefix (clean s) dots_slash)) [
            | inl d ↦ cc (rw (a, b, c, d) at h)
            | inr d ↦
                accepted s path c (ground (arith, d)) (ground (arith, d))
                  (cc (rw (a, b, c, d) at h))
          ]
        ]
      ]
    ]
