-- ===== src/Catalog/Examples.antt =====
-- Runs on two files with the same content.
use cartolensia.Prelude.{
  ℕ, String, none, some, List, [], ◌∷◌, ◌≡◌, ◌≢◌, inl, refl, string_eq, eq_iff,
}
use cartolensia.Prelude.Dict.{lookup}
use cartolensia.Catalog.{
  Asset, Location, FileInfo, TrackLink, AssetStore, discovered, hash_location,
}
use cartolensia.Catalog.Indexing.{
  IsIndexed, Event, finds, hashes, describes, run, AreFresh, run-IsIndexed,
}
use cartolensia.Catalog.Merging.{Stored, Some, Bears, IsMerged, update_location_hash-merges}

abbrev photo : FileInfo
photo = record {
  storage_name = "main";
  storage_url = "main:a";
  relative_path = "a";
  name = "a";
  extension = "";
  mime = "";
  media_kind = "photo";
  size_bytes = 5;
  mtime = 1;
}

abbrev copy : FileInfo
copy = record photo { storage_url = "main:b"; relative_path = "b"; name = "b" }

abbrev first_location : Location
first_location = record {
  id = "l1";
  asset_id = "a1";
  storage_name = "main";
  storage_url = "main:a";
  relative_path = "a";
  file_name = "a";
  extension = "";
  mime = "";
  media_kind = "photo";
  size_bytes = 5;
  mtime = 1;
  hash_status = "unhashed";
  sha512_hex = "";
  content_id = "";
  last_seen_at = 1;
}

abbrev first_asset : Asset
first_asset = record (discovered 1 "a1" "l1" photo) {
  locations = hash_location "h" "c1" (some 5) first_location ∷ [];
}

abbrev library : AssetStore
library = record {
  assets = ("a1", first_asset) ∷ ("a2", discovered 1 "a2" "l2" copy) ∷ [];
  by_url = ("main:a", "a1") ∷ ("main:b", "a2") ∷ [];
  location_by_asset = [];
  track_links = [];
}

abbrev empty_library : AssetStore
empty_library = record { assets = []; by_url = []; location_by_asset = []; track_links = [] }

abbrev events : List Event
events = finds 1 "a1" "l1" photo ∷ hashes 2 "c1" "a1" "h" (some 5) ∷ describes 3 "a1" none [] ∷ []

events_fresh : AreFresh events empty_library
unfolding AreFresh lookup
events_fresh = (refl, (tt, (tt, tt)))

empty-IsIndexed : IsIndexed empty_library
unfolding lookup
empty-IsIndexed url id h = cc

run-IsIndexed_example : IsIndexed (run events empty_library)
run-IsIndexed_example = run-IsIndexed events empty_library events_fresh empty-IsIndexed

copy_stored : lookup "a2" (AssetStore.assets library) ≡ some (discovered 1 "a2" "l2" copy)
unfolding lookup
copy_stored = refl

update_location_hash-merges_example :
    (target_id : String) × (content : String) × (target : Asset) × (Stored target_id target
        library.assets
      × (Some (Bears "h" (some 5) content) target.locations
          × IsMerged 2 "c2" "a2" "h"
              (some 5)
              (discovered 1 "a2" "l2" copy)
              target_id
              content
              library))
update_location_hash-merges_example =
    update_location_hash-merges 2 "c2" "a2" "h" (some 5) (discovered 1 "a2" "l2" copy) "a1"
      first_asset library copy_stored (inl (refl, refl)) (λ e. cc ((eq_iff "a1" "a2").1 e))
      (inl (refl, (refl, refl)))

abbrev both : Asset
both = record first_asset {
  locations = first_location ∷ record first_location { id = "l2"; storage_url = "main:b" } ∷ [];
}

abbrev merged : AssetStore
merged = record library {
  assets = ("a1", both) ∷ [];
  by_url = ("main:a", "a1") ∷ ("main:b", "a1") ∷ [];
}

index_knows : lookup "main:b" (AssetStore.by_url merged) ≡ some "a1"
unfolding lookup
index_knows = refl

both_stored : lookup "a1" (AssetStore.assets merged) ≡ some both
unfolding lookup
both_stored = refl

abbrev link : TrackLink
link = record {
  id = "";
  asset_id = "a1";
  track_asset_id = "a2";
  match_status = "";
  overlap_start = none;
  overlap_end = none;
  time_offset_ms = 0;
  confidence = none;
  created_at = none;
  updated_at = 0;
}

known_asset : lookup "a1" (AssetStore.assets library) ≢ none
unfolding lookup
known_asset h = cc

known_track : lookup "a2" (AssetStore.assets library) ≢ none
unfolding lookup
known_track h = cc

abbrev numbers : List ℕ
numbers = 3 ∷ 1 ∷ 2 ∷ []
