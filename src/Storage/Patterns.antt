-- ===== src/Storage/Patterns.antt =====
-- internal/storage/storage.go: which extensions a walk includes and which patterns exclude a file or a
-- folder. `path.Match` is a parameter, which answers false where Go reports a bad pattern.
use cartolensia.Prelude.{
  Bool, true, false, ◌&&◌, ◌||◌, not, List, [], ◌∷◌, ◌++◌, Text, text_eq, ◌==◌, contains, any,
  if◌then◌else◌,
}
use mathlib.Core.List.{reverse}
use cartolensia.Texts.{
  bytes, trim_space, trim_byte, drop_byte, replace_byte, to_lower, has_prefix, has_suffix,
  trim_suffix, trim_prefix, split,
}
use cartolensia.Texts.FilePath.{slash, dot}

unfoldable pub normalize_glob_path : Text → Text
unfolding replace_byte trim_space trim_byte
normalize_glob_path value = trim_byte slash (trim_space (replace_byte 92 slash value))

abbrev last_or : Text → List Text → Text
last_or part [] = part
last_or part (next ∷ parts) = last_or next parts

-- path.Base
unfoldable pub base : Text → Text
unfolding split drop_byte
base s =
    if s == []
    then dot
    else (let kept : Text = reverse (drop_byte slash (reverse s)) in
        if kept == [] then slash ∷ [] else last_or [] (split slash kept))

-- what extensionSet makes of one of the extensions
unfoldable pub plain_extension : Text → Text
unfolding to_lower trim_prefix trim_space
plain_extension value = to_lower (trim_prefix (trim_space value) (bytes "."))

-- extensionSet; the set is the list of what is in it
unfoldable pub extension_set : List Text → List Text
unfolding plain_extension
extension_set [] = []
extension_set (value ∷ values) =
    let rest = extension_set values in
    let ext = plain_extension value in if ext == [] then rest else ext ∷ rest

unfoldable pub extension_allowed : Text → List Text → Bool
unfolding to_lower trim_prefix
extension_allowed ext [] = true
extension_allowed ext (value ∷ values) =
    contains (value ∷ values) (to_lower (trim_prefix ext (bytes ".")))

abbrev pub below_all : Text
below_all = bytes "/**"

abbrev pub under : Text → Text → Bool
under path prefix = path == prefix || has_prefix path (prefix ++ (slash ∷ []))

module _ (match_ : Text → Text → Bool) where
  abbrev pub excludes_file : Text → Text → Bool
  excludes_file path pattern =
      not (pattern == []) && (match_ pattern path || match_ pattern (base path))

  unfoldable pub excluded_by_pattern : Text → List Text → Bool
  unfolding normalize_glob_path base
  excluded_by_pattern relative_path patterns =
      any
        (λ pattern. excludes_file (normalize_glob_path relative_path) (normalize_glob_path pattern))
        patterns

  abbrev pub excludes_folder : Text → Text → Bool
  excludes_folder path pattern =
      not (pattern == [])
      && ((has_suffix pattern below_all && under path (trim_suffix pattern below_all))
          || (match_ pattern path || match_ pattern (base path)))

  unfoldable pub excluded_directory_by_pattern : Text → List Text → Bool
  unfolding normalize_glob_path base has_suffix has_prefix trim_suffix
  excluded_directory_by_pattern relative_path patterns =
      let path = normalize_glob_path relative_path in
      if path == []
      then false
      else any (λ pattern. excludes_folder path (normalize_glob_path pattern)) patterns
