-- ===== src/Discovery/Targets.antt =====
-- internal/discovery/discovery.go: which assets a hash job is for, and the checks that keep it within a bound. The
-- path of an absolute prefix relative to a root, with the links in it followed, comes from Go's `filepath`, and is
-- a parameter.
use cartolensia.Prelude.{
  ℕ, String, Bool, true, false, not, ◌&&◌, ◌||◌, Option, none, some, List, [], ◌∷◌, ◌++◌, Text,
  text_eq, string_eq, ◌==◌, contains, any, eqb, if◌then◌else◌,
}
use cartolensia.Texts.{bytes, trim_space, to_lower, has_prefix}
use cartolensia.Texts.FilePath.{slash, dot, dots}
use cartolensia.Catalog.{Asset, Location, hashed}
use cartolensia.Storage as storage
use cartolensia.Storage.{Storages, FsAdapter, traversal}
use cartolensia.Storage.Registry.{adapter}
use cartolensia.Storage.Patterns.{under}
use cartolensia.Storage.RelativePath.{normalize_relative_path}

-- A hash payload after DecodeHashPayload; `none` is a negative MaxFiles.
pub record HashPayload : Type 0 where
  pub scope : Text
  pub asset_id : String
  pub storage : Text
  pub prefix : Text
  pub prefixes : List Text
  pub asset_ids : List String
  pub album_id : String
  pub max_files : Option ℕ

-- strings.EqualFold(s, "all")
abbrev pub is_all : Text → Bool
is_all s = to_lower s == bytes "all"

abbrev pub and_then {ℓ κ} :
    {A : Type ℓ} {B : Type κ} → storage.Result A → (A → storage.Result B) → storage.Result B
and_then (storage.err e) f = storage.err e
and_then (storage.ok a) f = f a

-- the tests of what `filepath.Rel` gives, behind `filepath.ToSlash`
abbrev pub below_root : Text → storage.Result Text
below_root rel =
    if rel == dot || rel == dots || has_prefix rel (dots ++ slash ∷ []) || rel == []
    then storage.err traversal
    else normalize_relative_path rel

module _ (relative_to : Text → Text → storage.Result Text) where
  -- one prefix of normalizeScanPrefixes
  unfoldable pub scan_prefix : Text → Text → storage.Result Text
  unfolding normalize_relative_path trim_space has_prefix
  scan_prefix root given =
      let prefix = trim_space given in
      if prefix == [] || prefix == dot || prefix == slash ∷ [] || prefix == dots
      then storage.err traversal
      else if has_prefix prefix (slash ∷ [])
      then and_then (relative_to root prefix) below_root
      else normalize_relative_path prefix

  -- normalizeScanPrefixes
  unfoldable pub normalize_scan_prefixes : Text → List Text → storage.Result (List Text)
  unfolding scan_prefix
  normalize_scan_prefixes root [] = storage.ok []
  normalize_scan_prefixes root (prefix ∷ prefixes) =
      and_then (scan_prefix root prefix)
        (λ rel. and_then (normalize_scan_prefixes root prefixes) (λ rest. storage.ok (rel ∷ rest)))

-- relativePathInPrefixes
unfoldable pub relative_path_in_prefixes : Text → List Text → Bool
relative_path_in_prefixes relative_path prefixes =
    any (λ prefix. under relative_path prefix) prefixes

abbrev pub is_empty {ℓ} : {A : Type ℓ} → List A → Bool
is_empty [] = true
is_empty (x ∷ xs) = false

-- the tests of the loop of filterHashTargets on the first location of an asset
unfoldable pub is_wanted : List String → HashPayload → List Text → String → Location → Bool
unfolding relative_path_in_prefixes to_lower
is_wanted asset_filter payload prefixes asset_id loc =
    not (loc.hash_status == hashed)
    && ((is_empty asset_filter || contains asset_filter asset_id)
        && ((payload.storage == []
              || is_all payload.storage
              || bytes loc.storage_name == payload.storage)
            && (not (bytes loc.storage_name == payload.storage)
                || is_empty prefixes
                || relative_path_in_prefixes (bytes loc.relative_path) prefixes)))

abbrev wants : List String → HashPayload → List Text → String → List Location → Bool
wants asset_filter payload prefixes asset_id [] = false
wants asset_filter payload prefixes asset_id (loc ∷ locs) =
    is_wanted asset_filter payload prefixes asset_id loc

unfoldable pub targets_of : List String → HashPayload → List Text → List Asset → List Asset
unfolding is_wanted
targets_of asset_filter payload prefixes [] = []
targets_of asset_filter payload prefixes (asset ∷ assets) =
    let rest = targets_of asset_filter payload prefixes assets in
    if wants asset_filter payload prefixes asset.id asset.locations then asset ∷ rest else rest

abbrev pub is_zero : Option ℕ → Bool
is_zero none = false
is_zero (some n) = eqb n 0

-- filepath.Clean("/mnt/Models/rclone")
abbrev pub real_root : Text
real_root = bytes "/mnt/Models/rclone"

module _ (clean_root : Text → Text) where
  -- isRealArchiveRoot
  unfoldable pub is_real_archive_root : Text → Bool
  unfolding has_prefix
  is_real_archive_root root = under (clean_root root) real_root

  unfoldable pub contains_real_archive_storage : List storage.Config → Bool
  unfolding is_real_archive_root
  contains_real_archive_storage configs = any (λ c. is_real_archive_root c.root) configs

-- What ValidateHashSafety refuses; the last is an error of the registry or of a prefix.
pub data Unsafe : Type 0 where
  needs_selection needs_prefix needs_max_files : Unsafe
  refused_by : storage.StorageError → Unsafe

abbrev pub prefix_check : storage.Result (List Text) → Option Unsafe
prefix_check (storage.ok prefixes) = none
prefix_check (storage.err e) = some (refused_by e)

abbrev pub adapter_check :
    (Text → List Text → storage.Result (List Text))
    → List Text
    → storage.Result FsAdapter
    → Option Unsafe
adapter_check normalize prefixes (storage.err e) = some (refused_by e)
adapter_check normalize prefixes (storage.ok a) = prefix_check (normalize a.root prefixes)

-- ValidateHashSafety of a configured registry, with the configurations that ListStorages gives; `none` is a nil
-- error
unfoldable pub validate_hash_safety :
    (Text → Text)
    → (Text → Text → storage.Result Text)
    → List storage.Config
    → Storages
    → HashPayload
    → Option Unsafe
unfolding contains_real_archive_storage normalize_scan_prefixes adapter to_lower
validate_hash_safety clean_root relative_to configs registry payload =
    if not (contains_real_archive_storage clean_root configs)
    then none
    else if not (is_empty payload.asset_ids)
    then none
    else if payload.storage == [] || is_all payload.storage
    then some needs_selection
    else if is_empty payload.prefixes
    then some needs_prefix
    else if is_zero payload.max_files
    then some needs_max_files
    else adapter_check (normalize_scan_prefixes relative_to) payload.prefixes
        (adapter payload.storage registry)
