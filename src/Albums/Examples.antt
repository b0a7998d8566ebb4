-- ===== src/Albums/Examples.antt =====
-- internal/catalog/extended_store.go on a small tree of albums.
use cartolensia.Prelude.{
  ℕ, ◌<◌, String, none, List, [], ◌∷◌, ◌≡◌, refl, arith, string_eq, ◌==◌, if◌then◌else◌,
}
use cartolensia.Prelude.Dict.{lookup, remove, Each-lookup}
use cartolensia.Texts.{bytes}
use cartolensia.Catalog.{no_asset}
use cartolensia.Albums.{Album, AssetGeo, Gallery, create_album}
use cartolensia.Albums.Tree.{delete_album, leaves, out_of_fuel}
use cartolensia.Albums.Pruning.{IsBelow}
use cartolensia.Albums.Deletion.{delete_album-IsBelow}
use cartolensia.Albums.Ending.{IsAcyclic, delete_album-ends, delete_album-endless}
use cartolensia.Albums.Items.{new_item}
use cartolensia.Albums.Steps.{creates, start, next, IsTidy, Reach-IsTidy}

abbrev album_of : String → String → Album
album_of id parent_id = record {
  id = id;
  parent_id = parent_id;
  slug = bytes "album";
  title = bytes "Album";
  description = "";
  sort_order = 0;
  item_count = 0;
  created_at = 1;
  updated_at = 1;
}

abbrev no_albums : Gallery
no_albums = record { assets = ("a1", no_asset) ∷ []; albums = []; album_items = []; asset_geo = [] }

-- an album, one below it, and one beside them
abbrev three_albums : Gallery
three_albums = record no_albums {
  albums =
      ("trips", album_of "trips" "")
      ∷ ("alps", album_of "alps" "trips")
      ∷ ("cats", album_of "cats" "")
      ∷ [];
  album_items = ("alps", ("a1", new_item 3 "alps" no_asset) ∷ []) ∷ [];
}

abbrev one_album : Gallery
one_album = record no_albums { albums = ("cats", album_of "cats" "") ∷ [] }

delete_album-IsBelow_example :
    (IsBelow three_albums "trips" "alps"
      → (lookup "alps" one_album.albums ≡ none) × (lookup "alps" one_album.album_items ≡ none))
    × (¬ (IsBelow three_albums "trips" "alps")
        → (lookup "alps" one_album.albums ≡ lookup "alps" three_albums.albums)
          × (lookup "alps" one_album.album_items ≡ lookup "alps" three_albums.album_items))
unfolding delete_album lookup remove
delete_album-IsBelow_example = delete_album-IsBelow 3 "trips" three_albums one_album refl "alps"

-- the empty identifier, which no album has, stands above all
abbrev height_of : String → ℕ
height_of id = if id == "" then 9 else if id == "alps" then 1 else 2

heights : IsAcyclic height_of three_albums
unfolding lookup
heights key album h =
    Each-lookup (λ k a. height_of k < height_of a.parent_id) key album three_albums.albums
      (omega arith, (omega arith, (omega arith, tt))) h

delete_album-ends_example : (t : Gallery) × (delete_album 3 "trips" three_albums ≡ leaves t)
unfolding lookup
delete_album-ends_example =
    delete_album-ends height_of 3 "trips" three_albums heights (omega arith) refl

abbrev looped : Gallery
looped = record no_albums { albums = ("loop", album_of "loop" "loop") ∷ [] }

delete_album-endless_example : delete_album 100 "loop" looped ≡ out_of_fuel
unfolding lookup
delete_album-endless_example =
    delete_album-endless 100 "loop" looped (album_of "loop" "loop", (refl, refl))

abbrev geo_of : String → AssetGeo
geo_of source = record {
  asset_id = "a1";
  lat = bytes "47.1";
  lon = bytes "11.2";
  source = source;
  confidence = none;
  taken_at = none;
  track_asset_id = "";
  metadata = none;
  created_at = none;
  updated_at = 0;
}

abbrev reports : List (ℕ × AssetGeo)
reports = (1, geo_of "estimated") ∷ (2, geo_of "exif") ∷ (3, geo_of "track_snapped") ∷ []

no_albums-IsTidy : IsTidy no_albums
unfolding lookup
no_albums-IsTidy key = tt

Reach-IsTidy_example : IsTidy (create_album 5 "x1" (album_of "" "") no_albums).1
Reach-IsTidy_example =
    Reach-IsTidy no_albums-IsTidy (next start (creates 5 "x1" (album_of "" "") no_albums))
