-- ===== src/Storage/Examples.antt =====
-- internal/storage/storage.go on concrete storages, paths and walks.
use cartolensia.Prelude.{
  ℕ, String, ◌+◌, Bool, true, Option, none, some, List, [], ◌∷◌, ◌≡◌, refl, Text, length, text_eq,
  ◌==◌,
}
use cartolensia.Prelude.Dict.{lookup, insert}
use cartolensia.Texts.{bytes}
use cartolensia.Texts.FilePath.{IsInside}
use cartolensia.Catalog.{FileInfo}
use cartolensia.Storage.{ok, Config, Storages}
use cartolensia.Storage.RelativePath.{normalize_relative_path, normalize_relative_path-IsInside}
use cartolensia.Storage.Registry.{Resolver, leads_to, fs, strict_read_only, new_registry}
use cartolensia.Storage.Consistency.{
  Change, IsConsistent, add, update, run, new_registry-run-IsConsistent,
}
use cartolensia.Storage.Refinement.{answers, promises, left, kept, Serves, new_registry-answers}
use cartolensia.Storage.Patterns.{excluded_directory_by_pattern}
use cartolensia.Storage.Walk.{WalkOptions, with_defaults, interleave}
use cartolensia.Storage.Counts.{AtMost, total}
use cartolensia.Storage.Limits.{walked, walked-AtMost, walked-complete}

normalize_relative_path-IsInside_example : IsInside (bytes "a/b")
unfolding normalize_relative_path
normalize_relative_path-IsInside_example =
    normalize_relative_path-IsInside (bytes "a/./b//") (bytes "a/b") refl

abbrev plain_resolver : Resolver
plain_resolver = record {
  absolute = λ root. ok root;
  eval_symlinks = λ path. leads_to path;
  clean_root = λ path. path;
}

abbrev config_of : Text → Config
config_of name = record {
  name = name;
  kind = fs;
  root = bytes "/data";
  mode = [];
  source_url = [];
  smb = none;
}

abbrev one_storage : Storages
one_storage = record {
  adapters = (bytes "photos", record { name = bytes "photos"; root = bytes "/data" }) ∷ [];
  configs = (bytes "photos", record (config_of (bytes "photos")) { mode = strict_read_only }) ∷ [];
}

new_registry-run-IsConsistent_example : IsConsistent (
    run plain_resolver
      (add (config_of (bytes "tracks")) ∷ update (bytes "photos") (config_of []) ∷ [])
      one_storage)
unfolding new_registry lookup insert
new_registry-run-IsConsistent_example =
    new_registry-run-IsConsistent plain_resolver (config_of (bytes "photos") ∷ []) one_storage
      (add (config_of (bytes "tracks")) ∷ update (bytes "photos") (config_of []) ∷ []) refl

abbrev given_config : Config
given_config = record (config_of (bytes " tracks ")) { mode = bytes "read_only" }

abbrev tracks_config : Config
tracks_config = record (config_of (bytes "tracks")) { mode = bytes "read_only" }

abbrev two_storages : Storages
two_storages = record {
  adapters =
      (bytes "photos", record { name = bytes "photos"; root = bytes "/data" })
      ∷ (bytes "tracks", record { name = bytes "tracks"; root = bytes "/data" })
      ∷ [];
  configs =
      (bytes "photos", record (config_of (bytes "photos")) { mode = strict_read_only })
      ∷ (bytes "tracks", tracks_config)
      ∷ [];
}

abbrev literal_match : Text → Text → Bool
literal_match pattern name = pattern == name

excluded_example :
    excluded_directory_by_pattern literal_match (bytes "raw/old/2019") (bytes "/raw/**" ∷ []) ≡ true
unfolding excluded_directory_by_pattern
excluded_example = refl

abbrev file_of : ℕ → FileInfo
file_of size = record {
  storage_name = "photos";
  storage_url = "fs://photos/a.jpg";
  relative_path = "a.jpg";
  name = "a.jpg";
  extension = "jpg";
  mime = "image/jpeg";
  media_kind = "photo";
  size_bytes = size;
  mtime = 1;
}

abbrev options : WalkOptions
options = record { max_files = some 2; max_bytes = some 100; include = []; exclude_patterns = [] }

-- three files whose workers take turns
abbrev stats : List (Option FileInfo)
stats = some (file_of 40) ∷ none ∷ some (file_of 50) ∷ []

-- the links that a folder worker leaves out
abbrev folder_skips : List String
folder_skips = "symlink" ∷ []

abbrev turns_of_all : List ℕ
turns_of_all = 0 ∷ 1 ∷ 2 ∷ 2 ∷ 1 ∷ 0 ∷ 0 ∷ 1 ∷ 2 ∷ 1 ∷ 0 ∷ 2 ∷ 1 ∷ 2 ∷ 0 ∷ 3 ∷ []

walked-AtMost_example :
    AtMost (some 2) (
      length
        (walked literal_match (λ info. none) options stats folder_skips turns_of_all).1.visited)
    × AtMost (some 100) (
        total
          (λ info. info.size_bytes)
          (walked literal_match (λ info. none) options stats folder_skips turns_of_all).1.visited)
unfolding with_defaults
walked-AtMost_example =
    walked-AtMost literal_match (λ info. none) options stats folder_skips turns_of_all

walked-complete_example :
    let w = (walked literal_match (λ info. none) options stats folder_skips turns_of_all).1 in
    (w.report.files_returned ≡ length w.visited)
    × (length w.visited + w.report.files_skipped ≡ 3 + 1)
unfolding interleave with_defaults
walked-complete_example =
    walked-complete literal_match (λ info. none) options stats folder_skips turns_of_all
      (refl, (refl, (refl, (refl, tt)))) refl

abbrev two_calls : List Change
two_calls = add (config_of (bytes "tracks")) ∷ update (bytes "cats") (config_of []) ∷ []

new_registry-answers_example :
    (answers plain_resolver two_calls one_storage
      ≡ promises plain_resolver two_calls (λ key. lookup key one_storage.configs))
    × Serves plain_resolver
        (left plain_resolver two_calls one_storage)
        (kept plain_resolver two_calls (λ key. lookup key one_storage.configs))
unfolding new_registry lookup insert
new_registry-answers_example =
    new_registry-answers plain_resolver (config_of (bytes "photos") ∷ []) one_storage two_calls refl
