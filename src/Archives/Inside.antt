-- ===== src/Archives/Inside.antt =====
-- internal/server/components.go: an archive writes nothing outside its folder.
use cartolensia.Prelude.{
  ◌||◌, Option, List, [], ◌∷◌, map, ◌≡◌, ◌≢◌, inl, inr, refl, arith, String, Text, text_eq, ◌==◌,
  same_text_iff, All, Bool-cases, Option-cases,
}
use cartolensia.Texts.{has_prefix}
use cartolensia.Texts.FilePath.{slash, dot, dots, dots_slash, clean, IsInside, clean-IsInside}
use cartolensia.Archives.{
  Target, at, rejected, below, is_path_inside, safe_archive_target, Entry, EntryType, link, folder,
  file, other_type, Write, make_folder, write_file, path_of, Unpacked, unless_failed, unpack_at,
  extract_tar, extract_zip, as_zip,
}

-- The path is the folder's with a path behind it that has no empty element, no `.` and no `..`.
abbrev pub IsBelow : Text → Text → Type 0
IsBelow dest path = (inner : Text) × (path ≡ below dest inner) × IsInside inner

abbrev at-IsBelow : Text → Target → Type 0
at-IsBelow dest (at path) = IsBelow dest path
at-IsBelow dest (rejected e) = Unit

safe_archive_target-IsBelow : (dest name : Text) → at-IsBelow dest (safe_archive_target dest name)
unfolding safe_archive_target
safe_archive_target-IsBelow dest name = elim (Bool-cases (has_prefix name (slash ∷ []))) [
  | inl a ↦ rw (safe_archive_target, a) tt
  | inr a ↦
      let c = clean name in
      elim (Bool-cases (c == dot || has_prefix c dots_slash || c == dots)) [
        | inl b ↦ rw (safe_archive_target, a, b) tt
        | inr b ↦
            let no_dot : c ≢ dot = λ e. absurd (ground (arith, b, (same_text_iff c dot).1 e)) in
            let no_dots : c ≢ dots = λ e. absurd (ground (arith, b, (same_text_iff c dots).1 e)) in
            let inside : IsInside c = clean-IsInside name no_dot no_dots (ground (arith, b)) in
            elim (Bool-cases (is_path_inside (below dest c) dest)) [
              | inl i ↦ rw (safe_archive_target, a, b, i) (c, refl, inside)
              | inr i ↦ rw (safe_archive_target, a, b, i) tt
            ]
      ]
]

module _ (fails : Write → Option String) (dest : Text) where
  abbrev AreBelow : List Write → Type 0
  AreBelow = All (λ write. IsBelow dest (path_of write))

  unless_failed-AreBelow :
      (write : Write) (rest : List Write → Unpacked) (done : List Write)
      → ((d : List Write) → AreBelow d → AreBelow (rest d).1)
      → IsBelow dest (path_of write)
      → AreBelow done
      → AreBelow (unless_failed fails write rest done).1
  unless_failed-AreBelow write rest done g w h = elim (Option-cases (fails write)) [
    | inl e ↦ rw (unless_failed, e) (g (write ∷ done) (w, h))
    | inr (m, e) ↦ rw (unless_failed, e) (w, h)
  ]

  unpack_at-AreBelow :
      (kind : EntryType) (name : Text) (target : Target) (rest : List Write → Unpacked)
      (done : List Write)
      → ((d : List Write) → AreBelow d → AreBelow (rest d).1)
      → at-IsBelow dest target
      → AreBelow done
      → AreBelow (unpack_at fails kind name target rest done).1
  unpack_at-AreBelow link name target rest done g t h = h
  unpack_at-AreBelow folder name (rejected e) rest done g t h = h
  unpack_at-AreBelow file name (rejected e) rest done g t h = h
  unpack_at-AreBelow other_type name (rejected e) rest done g t h = h
  unpack_at-AreBelow folder name (at path) rest done g t h =
      unless_failed-AreBelow (make_folder path) rest done g t h
  unpack_at-AreBelow file name (at path) rest done g t h =
      unless_failed-AreBelow (write_file path) rest done g t h
  unpack_at-AreBelow other_type name (at path) rest done g t h = h

  extract_tar-done :
      (entries : List Entry) (done : List Write)
      → AreBelow done
      → AreBelow (extract_tar fails dest entries done).1
  unfolding extract_tar
  extract_tar-done [] done h = h
  extract_tar-done (entry ∷ entries) done h =
      unpack_at-AreBelow entry.entry_type entry.name (safe_archive_target dest entry.name)
        (extract_tar fails dest entries) done (λ d. extract_tar-done entries d)
        (safe_archive_target-IsBelow dest entry.name) h

  -- Whatever names the entries of a tar or zip archive have, and whether or not the unpacking ends with an
  -- error, each folder and file that it makes has the path of the folder with a path behind it that has no
  -- empty element, no `.` and no `..`.
  pub extract-AreBelow :
      (entries : List Entry)
      → All (λ write. IsBelow dest (path_of write)) (extract_tar fails dest entries []).1
        × All (λ write. IsBelow dest (path_of write)) (extract_zip fails dest entries []).1
  unfolding extract_zip
  extract-AreBelow entries =
      (extract_tar-done entries [] tt, extract_tar-done (map as_zip entries) [] tt)
