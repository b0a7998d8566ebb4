-- ===== src/Storage/Registry.antt =====
-- internal/storage/storage.go: the registry of storages. Resolving a root is the operating system's part
-- and a parameter: the absolute path, what its symbolic links lead to, and the clean form of it.
use cartolensia.Prelude.{
  Bool, ◌&&◌, not, Option, none, some, List, [], ◌∷◌, map, Text, text_eq, ◌==◌, is_none,
  if◌then◌else◌,
}
use cartolensia.Prelude.Dict.{lookup, insert}
use cartolensia.Texts.{bytes, trim_space, trim_byte}
use cartolensia.Storage.{
  StorageError, name_required, unknown_storage, unsupported_kind, mode_not_enabled,
  duplicate_storage, already_exists, Result, ok, err, SmbConfig, Config, FsAdapter, Storages,
}

abbrev pub fs : Text
fs = b'f' ∷ b's' ∷ []

abbrev pub strict_read_only : Text
strict_read_only = bytes "strict_read_only"

abbrev pub read_only_mode : Text
read_only_mode = bytes "read_only"

-- What filepath.EvalSymlinks answers; `unreachable` is an error that nonFatalSymlinkResolutionError
-- lets pass, such as a path that does not exist.
pub data Evaluated : Type 0 where
  leads_to : Text → Evaluated
  unreachable : Evaluated
  fails : StorageError → Evaluated

pub record Resolver : Type 0 where
  pub absolute : Text → Result Text
  pub eval_symlinks : Text → Evaluated
  pub clean_root : Text → Text

abbrev blank_smb : SmbConfig → Bool
blank_smb c =
    c.host == []
    && (c.share == []
        && (c.path == []
            && (c.domain == []
                && (c.username == [] && (c.credentials_file == [] && c.password_env == [])))))

unfoldable pub trim_smb_config : SmbConfig → SmbConfig
unfolding trim_space trim_byte
trim_smb_config c = record {
  host = trim_space c.host;
  share = trim_byte b'/' (trim_space c.share);
  path = trim_byte b'/' (trim_space c.path);
  domain = trim_space c.domain;
  username = trim_space c.username;
  credentials_file = trim_space c.credentials_file;
  password_env = trim_space c.password_env;
}

unfoldable pub clone_smb_config : Option SmbConfig → Option SmbConfig
unfolding trim_smb_config
clone_smb_config none = none
clone_smb_config (some c) = if blank_smb (trim_smb_config c) then none else some (trim_smb_config c)

unfoldable pub clone_config : Config → Config
unfolding clone_smb_config
clone_config c = record c { smb = clone_smb_config c.smb }

abbrev pub or_unknown {ℓ} : {A : Type ℓ} → Text → Option A → Result A
or_unknown name none = err (unknown_storage name)
or_unknown name (some x) = ok x

-- GetStorage
unfoldable pub get_storage : Text → Storages → Result Config
unfolding clone_config
get_storage name r =
    or_unknown name (elim (lookup name r.configs) [ none ↦ none | some c ↦ some (clone_config c) ])

-- Adapter
unfoldable pub adapter : Text → Storages → Result FsAdapter
adapter name r = or_unknown name (lookup name r.adapters)

abbrev config_or_zero : Option Config → Config
config_or_zero (some c) = c
config_or_zero none = record {
  name = [];
  kind = [];
  root = [];
  mode = [];
  source_url = [];
  smb = none;
}

-- ListStorages, over what sort.Strings makes of the names
unfoldable pub list_storages : (List Text → List Text) → Storages → List Config
unfolding clone_config
list_storages sort r =
    map (λ name. clone_config (config_or_zero (lookup name r.configs)))
      (sort (map (λ entry. entry.0) r.adapters))

abbrev pub or_default : Text → Text → Text
or_default value s = if s == [] then value else s

abbrev pub adapter_of : Text → Result Text → Result FsAdapter
adapter_of name (err e) = err e
adapter_of name (ok root) = ok (record { name = name; root = root })

abbrev pub with_root : Config → Result FsAdapter → Result (Config × FsAdapter)
with_root c (err e) = err e
with_root c (ok a) = ok (record c { root = a.root; smb = clone_smb_config c.smb }, a)

abbrev pub put : Text → Config → FsAdapter → Storages → Storages
put name c a r = record { adapters = insert name a r.adapters; configs = insert name c r.configs }

abbrev pub config_alone : Result (Config × FsAdapter) → Result Config
config_alone (err e) = err e
config_alone (ok (c, a)) = ok c

abbrev pub added : Storages → Result (Config × FsAdapter) → Result Config × Storages
added r (err e) = (err e, r)
added r (ok (c, a)) =
    if not (is_none (lookup c.name r.adapters))
    then (err (already_exists c.name), r)
    else (ok c, put c.name c a r)

abbrev pub updated : Text → Storages → Result (Config × FsAdapter) → Result Config × Storages
updated name r (err e) = (err e, r)
updated name r (ok (c, a)) =
    if is_none (lookup name r.adapters)
    then (err (unknown_storage name), r)
    else (ok c, put name c a r)

abbrev pub registered : Config → Storages → Result FsAdapter → Result Storages
registered c r (err e) = err e
registered c r (ok a) =
    if not (is_none (lookup c.name r.adapters))
    then err (duplicate_storage c.name)
    else ok (put c.name (record c { root = a.root; smb = clone_smb_config c.smb }) a r)

abbrev pub then_register : (Storages → Result Storages) → Result Storages → Result Storages
then_register rest (err e) = err e
then_register rest (ok r) = rest r

module _ (system_ : Resolver) where
  -- the root of a new adapter, from what EvalSymlinks answers
  abbrev resolved : Text → Evaluated → Result Text
  resolved path (leads_to target) = ok (system_.clean_root target)
  resolved path unreachable = ok (system_.clean_root path)
  resolved path (fails e) = err e

  abbrev pub resolve_root : Result Text → Result Text
  resolve_root (err e) = err e
  resolve_root (ok path) = resolved path (system_.eval_symlinks path)

  unfoldable pub new_fs_adapter : Text → Text → Result FsAdapter
  unfolding trim_space
  new_fs_adapter name root =
      if trim_space name == []
      then err name_required
      else adapter_of name (resolve_root (system_.absolute root))

  -- normalizeConfig before the adapter is made
  unfoldable pub trimmed_config : Config → Config
  unfolding trim_space
  trimmed_config c = record c {
    name = trim_space c.name;
    kind = or_default fs (trim_space c.kind);
    mode = or_default strict_read_only (trim_space c.mode);
    source_url = trim_space c.source_url;
  }

  unfoldable pub normalize_config : Config → Result (Config × FsAdapter)
  unfolding new_fs_adapter trimmed_config clone_smb_config
  normalize_config given =
      let c = trimmed_config given in
      if not (c.kind == fs)
      then err (unsupported_kind c.kind)
      else if not (c.mode == strict_read_only) && not (c.mode == read_only_mode)
      then err (mode_not_enabled c.mode)
      else with_root c (new_fs_adapter c.name c.root)

  -- ValidateConfig
  unfoldable pub validate_config : Config → Result Config
  unfolding normalize_config
  validate_config c = config_alone (normalize_config c)

  -- AddStorage
  unfoldable pub add_storage : Config → Storages → Result Config × Storages
  unfolding normalize_config
  add_storage c r = added r (normalize_config c)

  -- UpdateStorage
  unfoldable pub update_storage : Text → Config → Storages → Result Config × Storages
  unfolding normalize_config trim_space
  update_storage name c r =
      if trim_space name == []
      then (err name_required, r)
      else updated name r (normalize_config (record c { name = name }))

  -- one round of the loop of NewRegistry
  unfoldable pub register : Config → Storages → Result Storages
  unfolding new_fs_adapter clone_smb_config
  register c r =
      let c' = record c { mode = or_default strict_read_only c.mode } in
      if not (c.kind == fs)
      then err (unsupported_kind c.kind)
      else registered c' r (new_fs_adapter c'.name c'.root)

  unfoldable pub register_all : List Config → Storages → Result Storages
  unfolding register
  register_all [] r = ok r
  register_all (c ∷ cs) r = then_register (register_all cs) (register c r)

  -- NewRegistry
  unfoldable pub new_registry : List Config → Result Storages
  unfolding register_all
  new_registry cs = register_all cs (record { adapters = []; configs = [] })
