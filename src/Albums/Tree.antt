-- ===== src/Albums/Tree.antt =====
-- internal/catalog/extended_store.go: `DeleteAlbum` and the recursion of `deleteAlbumTreeLocked`, on fuel;
-- `none` is a recursion that is deeper than the fuel.
use cartolensia.Prelude.{
  ℕ, zero, suc, String, Bool, false, Option, none, some, List, [], ◌∷◌, string_eq, ◌==◌, is_none,
  if◌then◌else◌,
}
use cartolensia.Prelude.Dict.{Dict, lookup, remove}
use cartolensia.Albums.{Album, Gallery}

abbrev pub drop_album : String → Gallery → Gallery
drop_album album_id s = record s {
  albums = remove album_id s.albums;
  album_items = remove album_id s.album_items;
}

abbrev pub and_then : Option Gallery → (Gallery → Option Gallery) → Option Gallery
and_then none rest = none
and_then (some s) rest = rest s

-- whether the entry that the loop comes to is still there and is a child
abbrev pub is_child : String → Option Album → Bool
is_child album_id none = false
is_child album_id (some album) = album.parent_id == album_id

-- the loop over the albums, by their keys at its start; an entry that is gone is not visited
unfoldable pub delete_children :
    (String → Gallery → Option Gallery) → String → List String → Gallery → Option Gallery
delete_children again album_id [] s = some s
delete_children again album_id (key ∷ keys) s =
    if is_child album_id (lookup key s.albums)
    then and_then (again key s) (delete_children again album_id keys)
    else delete_children again album_id keys s

abbrev pub keys_of : Dict String Album → List String
keys_of [] = []
keys_of ((key, album) ∷ albums) = key ∷ keys_of albums

-- deleteAlbumTreeLocked
unfoldable pub delete_album_tree : ℕ → String → Gallery → Option Gallery
unfolding delete_children
delete_album_tree zero album_id s = none
delete_album_tree (suc fuel) album_id s =
    and_then (delete_children (delete_album_tree fuel) album_id (keys_of s.albums) s)
      (λ t. some (drop_album album_id t))

-- What DeleteAlbum comes to: ErrNotFound, the store that is left, or more recursion than there is fuel.
pub data Deleted : Type 0 where
  not_found out_of_fuel : Deleted
  leaves : Gallery → Deleted

abbrev pub deleted : Option Gallery → Deleted
deleted none = out_of_fuel
deleted (some s) = leaves s

-- DeleteAlbum
unfoldable pub delete_album : ℕ → String → Gallery → Deleted
unfolding delete_album_tree
delete_album fuel album_id s =
    if is_none (lookup album_id s.albums)
    then not_found
    else deleted (delete_album_tree fuel album_id s)
