-- ===== src/Storage.antt =====
-- internal/storage/storage.go: the storages that files are read from. The records of the package and
-- its errors are in this file, the registry, the paths, the patterns and the walk in the modules below.
pub mod RelativePath
pub mod Registry
pub mod Consistency
pub mod Lookup
pub mod Refinement
pub mod Patterns
pub mod Exclusion
pub mod Kinds
pub mod Walk
pub mod Counts
pub mod Limits
mod Examples
use cartolensia.Prelude.{String, Option, Text}
use cartolensia.Prelude.Dict.{Dict}

-- The package's error values and the errors that its functions make on the spot; `system` is any error
-- of the operating system or of a library, by its text.
pub data StorageError : Type 0 where
  read_only traversal name_required : StorageError
  unknown_storage unsupported_kind mode_not_enabled duplicate_storage already_exists :
      Text → StorageError
  system : String → StorageError

pub data Result {ℓ} (A : Type ℓ) : Type ℓ where
  ok : A → Result A
  err : StorageError → Result A

pub record SmbConfig : Type 0 where
  pub host : Text
  pub share : Text
  pub path : Text
  pub domain : Text
  pub username : Text
  pub credentials_file : Text
  pub password_env : Text

pub record Config : Type 0 where
  pub name : Text
  pub kind : Text
  pub root : Text
  pub mode : Text
  pub source_url : Text
  pub smb : Option SmbConfig

pub record FsAdapter : Type 0 where
  pub name : Text
  pub root : Text

-- The registry's lock makes each of its methods one step.
pub record Storages : Type 0 where
  pub adapters : Dict Text FsAdapter
  pub configs : Dict Text Config
