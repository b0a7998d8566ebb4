-- ===== src/Archives.antt =====
-- internal/server/components.go: the archives of components that the server unpacks. A path is Unix, and
-- the folder `dest` is an absolute clean path, so that joining a clean relative path to it puts one slash
-- between them, and filepath.Rel gives that path back. The entries of an archive are given, as archive/tar
-- and archive/zip read them; the bytes that are copied are left out.
mod Inside
mod Examples
use cartolensia.Prelude.{
  Bool, true, false, not, ◌&&◌, ◌||◌, Option, none, some, List, [], ◌∷◌, ◌++◌, map, String, Text,
  text_eq, ◌==◌, if◌then◌else◌,
}
use cartolensia.Texts.{has_prefix, drop_length}
use cartolensia.Texts.FilePath.{slash, dot, dots, dots_slash, clean}

pub data ArchiveError : Type 0 where
  absolute_path traversal escaped link_rejected unsupported_type : Text → ArchiveError
  system_error : String → ArchiveError

pub data Target : Type 0 where
  at : Text → Target
  rejected : ArchiveError → Target

abbrev pub below : Text → Text → Text
below dest name = dest ++ (slash ∷ name)

-- filepath.Rel(root, path) for two absolute clean paths of which the second begins with the first and a
-- slash; of any other it begins with `..`.
abbrev pub relative_to : Text → Text → Text
relative_to root path =
    if path == root
    then dot
    else if has_prefix path (below root [])
    then drop_length path (below root [])
    else dots

unfoldable pub is_path_inside : Text → Text → Bool
unfolding has_prefix
is_path_inside path root =
    let rel = relative_to root path in
    rel == dot || (not (has_prefix rel dots) && not (has_prefix rel (slash ∷ [])))

unfoldable pub safe_archive_target : Text → Text → Target
unfolding has_prefix clean is_path_inside
safe_archive_target dest name =
    let clean_name = clean name in
    if has_prefix name (slash ∷ [])
    then rejected (absolute_path name)
    else if clean_name == dot || has_prefix clean_name dots_slash || clean_name == dots
    then rejected (traversal name)
    else if not (is_path_inside (below dest clean_name) dest)
    then rejected (escaped name)
    else at (below dest clean_name)

pub data EntryType : Type 0 where
  link folder file other_type : EntryType

pub record Entry : Type 0 where
  pub name : Text
  pub entry_type : EntryType

-- What is done to the file system: a folder with its parents, or a file with its parents.
pub data Write : Type 0 where
  make_folder write_file : Text → Write

abbrev pub path_of : Write → Text
path_of (make_folder path) = path
path_of (write_file path) = path

-- The error that ends the unpacking, if there is one, and what was done before, the last first.
abbrev pub Unpacked : Type 0
Unpacked = Option ArchiveError × List Write

abbrev pub zip_type : EntryType → EntryType
zip_type other_type = file
zip_type kind = kind

abbrev pub as_zip : Entry → Entry
as_zip entry = record entry { entry_type = zip_type entry.entry_type }

module _ (fails : Write → Option String) where
  -- A step of the system and the rest of the loop.
  abbrev pub unless_failed : Write → (List Write → Unpacked) → List Write → Unpacked
  unless_failed write rest done = elim (fails write) [
    | some e ↦ (some (system_error e), write ∷ done)
    | none ↦ rest (write ∷ done)
  ]

  abbrev pub unpack_at : EntryType → Text → Target → (List Write → Unpacked) → List Write → Unpacked
  unpack_at link name target rest done = (some (link_rejected name), done)
  unpack_at kind name (rejected e) rest done = (some e, done)
  unpack_at folder name (at path) rest done = unless_failed (make_folder path) rest done
  unpack_at file name (at path) rest done = unless_failed (write_file path) rest done
  unpack_at _ name (at path) rest done = (some (unsupported_type name), done)

  -- the loop of extractTarGzSafe
  unfoldable pub extract_tar : Text → List Entry → List Write → Unpacked
  unfolding safe_archive_target
  extract_tar dest [] done = (none, done)
  extract_tar dest (entry ∷ entries) done =
      unpack_at entry.entry_type entry.name (safe_archive_target dest entry.name)
        (extract_tar dest entries) done

  -- the loop of extractZipSafe, which takes what is neither a link nor a folder as a file
  unfoldable pub extract_zip : Text → List Entry → List Write → Unpacked
  unfolding extract_tar
  extract_zip dest entries done = extract_tar dest (map as_zip entries) done
