-- ===== src/Archives/Examples.antt =====
-- Examples of the properties of Archives, and tests.
use cartolensia.Prelude.{none, Option, [], ◌∷◌, List, ◌≡◌, refl, All, String, text_eq}
use cartolensia.Texts.{bytes}
use cartolensia.Archives.{
  Entry, file, Write, path_of, extract_tar, extract_zip, safe_archive_target, rejected, escaped,
}
use cartolensia.Archives.Inside.{IsBelow, extract-AreBelow}

abbrev never : Write → Option String
never write = none

abbrev two : List Entry
two =
    record { name = bytes "bin/../ffmpeg"; entry_type = file }
    ∷ record { name = bytes "../../etc/passwd"; entry_type = file }
    ∷ []

extract-AreBelow_example :
    All
      (λ write. IsBelow (bytes "/opt/c") (path_of write))
      (extract_tar never (bytes "/opt/c") two []).1
    × All
        (λ write. IsBelow (bytes "/opt/c") (path_of write))
        (extract_zip never (bytes "/opt/c") two []).1
extract-AreBelow_example = extract-AreBelow never (bytes "/opt/c") two

-- A file whose name begins with two dots lies inside, and is refused all the same.
dotted : safe_archive_target (bytes "/opt/c") (bytes "..data") ≡ rejected (escaped (bytes "..data"))
unfolding safe_archive_target
dotted = refl
