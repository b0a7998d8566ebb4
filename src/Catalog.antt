-- ===== src/Catalog.antt =====
-- internal/catalog/catalog.go: the assets of the in-memory store, their locations, and links between
-- assets and tracks. Sizes and times are natural numbers, and a metadata value is its text.
pub mod Links
pub mod Indexing
pub mod Stats
pub mod Merging
pub mod Paths
pub mod Paging
mod Examples
use cartolensia.Prelude.{
  ℕ, ◌+◌, String, Bool, true, false, ◌&&◌, Option, none, some, List, [], ◌∷◌, ◌++◌, map, eqb,
  is_none, string_eq, ◌==◌, length, ltb, if◌then◌else◌,
}
use cartolensia.Prelude.Dict.{Dict, lookup, insert, remove}

abbrev pub hashed : String
hashed = "hashed"

abbrev pub unhashed : String
unhashed = "unhashed"

pub record Location : Type 0 where
  pub id : String
  pub asset_id : String
  pub storage_name : String
  pub storage_url : String
  pub relative_path : String
  pub file_name : String
  pub extension : String
  pub mime : String
  pub media_kind : String
  pub size_bytes : ℕ
  pub mtime : ℕ
  pub hash_status : String
  pub sha512_hex : String
  pub content_id : String
  pub last_seen_at : ℕ

-- `none` is a nil map
abbrev pub Metadata : Type 0
Metadata = Option (Dict String String)

pub record Asset : Type 0 where
  pub id : String
  pub media_kind : String
  pub display_name : String
  pub taken_at : Option ℕ
  pub metadata : Metadata
  pub first_seen_at : ℕ
  pub updated_at : ℕ
  pub locations : List Location

-- what storage.FileInfo says of a file
pub record FileInfo : Type 0 where
  pub storage_name : String
  pub storage_url : String
  pub relative_path : String
  pub name : String
  pub extension : String
  pub mime : String
  pub media_kind : String
  pub size_bytes : ℕ
  pub mtime : ℕ

-- A link between an asset and a track; a zero CreatedAt is `none`.
pub record TrackLink : Type 0 where
  pub id : String
  pub asset_id : String
  pub track_asset_id : String
  pub match_status : String
  pub overlap_start : Option ℕ
  pub overlap_end : Option ℕ
  pub time_offset_ms : ℕ
  pub confidence : Option ℕ
  pub created_at : Option ℕ
  pub updated_at : ℕ

-- The fields of MemoryStore that hold assets.
pub record AssetStore : Type 0 where
  pub assets : Dict String Asset
  pub by_url : Dict String String
  pub location_by_asset : Dict String String
  pub track_links : Dict String TrackLink

-- `err` is ErrNotFound, the only error of these methods
pub data Found {ℓ} (A : Type ℓ) : Type ℓ where
  ok : A → Found A
  not_found : Found A

-- a map of assets read with a key that is not there gives the zero value
abbrev pub no_asset : Asset
no_asset = record {
  id = "";
  media_kind = "";
  display_name = "";
  taken_at = none;
  metadata = none;
  first_seen_at = 0;
  updated_at = 0;
  locations = [];
}

abbrev pub asset_or_zero : Option Asset → Asset
asset_or_zero none = no_asset
asset_or_zero (some a) = a

-- `if len(asset.Locations) > 0 { ... }`
abbrev pub refresh_first : ℕ → FileInfo → List Location → List Location
refresh_first now info [] = []
refresh_first now info (loc ∷ locs) =
    record loc {
      size_bytes = info.size_bytes;
      mtime = info.mtime;
      mime = info.mime;
      last_seen_at = now;
      media_kind = info.media_kind;
      extension = info.extension;
    }
    ∷ locs

abbrev pub rediscovered : ℕ → FileInfo → Asset → Asset
rediscovered now info a = record a {
  locations = refresh_first now info a.locations;
  media_kind = info.media_kind;
  display_name = info.name;
  updated_at = now;
}

abbrev pub discovered : ℕ → String → String → FileInfo → Asset
discovered now asset_id location_id info = record {
  id = asset_id;
  media_kind = info.media_kind;
  display_name = info.name;
  taken_at = none;
  metadata = some [];
  first_seen_at = now;
  updated_at = now;
  locations =
      record {
        id = location_id;
        asset_id = asset_id;
        storage_name = info.storage_name;
        storage_url = info.storage_url;
        relative_path = info.relative_path;
        file_name = info.name;
        extension = info.extension;
        mime = info.mime;
        media_kind = info.media_kind;
        size_bytes = info.size_bytes;
        mtime = info.mtime;
        hash_status = unhashed;
        sha512_hex = "";
        content_id = "";
        last_seen_at = now;
      }
      ∷ [];
}

abbrev pub upsert_at :
    Option String → ℕ → String → String → FileInfo → AssetStore → (Asset × Bool) × AssetStore
upsert_at (some id) now asset_id location_id info s =
    let asset = rediscovered now info (asset_or_zero (lookup id s.assets)) in
    ((asset, false), record s { assets = insert id asset s.assets })
upsert_at none now asset_id location_id info s =
    let asset = discovered now asset_id location_id info in
    (
      (asset, true),
      record s {
        assets = insert asset_id asset s.assets;
        by_url = insert info.storage_url asset_id s.by_url;
        location_by_asset = insert asset_id location_id s.location_by_asset;
      },
    )

-- UpsertDiscoveredFile, with the asset and whether it was created; the fresh identifiers are arguments
unfoldable pub upsert_discovered_file :
    ℕ → String → String → FileInfo → AssetStore → (Asset × Bool) × AssetStore
upsert_discovered_file now asset_id location_id info s =
    upsert_at (lookup info.storage_url s.by_url) now asset_id location_id info s

abbrev found_asset : Option Asset → Found Asset
found_asset none = not_found
found_asset (some a) = ok a

unfoldable pub get_asset : String → AssetStore → Found Asset
get_asset id s = found_asset (lookup id s.assets)

-- The size that hashing read; `none` is a negative number, which no stored size equals.
abbrev pub size_is : Option ℕ → ℕ → Bool
size_is none n = false
size_is (some bytes) n = eqb n bytes

abbrev pub size_or : Option ℕ → ℕ → ℕ
size_or none n = n
size_or (some bytes) n = bytes

-- the inner loop over a candidate's locations: the content of the first that matches
unfoldable pub matching_content : String → Option ℕ → List Location → Option String
matching_content hash bytes [] = none
matching_content hash bytes (loc ∷ locs) =
    if loc.hash_status == hashed && (loc.sha512_hex == hash && size_is bytes loc.size_bytes)
    then some loc.content_id
    else matching_content hash bytes locs

abbrev pub or_candidate :
    Option String → String → Option (String × String) → Option (String × String)
or_candidate none id rest = rest
or_candidate (some content) id rest = some (id, content)

-- the loop over the candidates: the first other asset with a location of the content, and the content
unfoldable pub find_candidate :
    String → String → Option ℕ → Dict String Asset → Option (String × String)
unfolding matching_content
find_candidate asset_id hash bytes [] = none
find_candidate asset_id hash bytes ((id, candidate) ∷ m) =
    let rest = find_candidate asset_id hash bytes m in
    if id == asset_id
    then rest
    else or_candidate (matching_content hash bytes candidate.locations) id rest

abbrev pub hash_location : String → String → Option ℕ → Location → Location
hash_location hash content bytes loc = record loc {
  sha512_hex = hash;
  content_id = content;
  hash_status = hashed;
  size_bytes = size_or bytes loc.size_bytes;
}

abbrev pub moved_to : String → Location → Location
moved_to target loc = record loc { asset_id = target }

-- s.byURL[loc.StorageURL] = targetAssetID, for each location
unfoldable pub point_urls : String → List Location → Dict String String → Dict String String
point_urls target [] m = m
point_urls target (loc ∷ locs) m = point_urls target locs (insert loc.storage_url target m)

-- `if _, exists := target.Metadata[key]; !exists { target.Metadata[key] = value }`, for each entry
unfoldable pub fill_metadata : Dict String String → Dict String String → Dict String String
fill_metadata [] target = target
fill_metadata ((key, value) ∷ m) target =
    fill_metadata m (if is_none (lookup key target) then insert key value target else target)

abbrev pub merge_metadata : Metadata → Metadata → Metadata
merge_metadata none target = target
merge_metadata (some m) none = some (fill_metadata m [])
merge_metadata (some m) (some target) = some (fill_metadata m target)

abbrev pub or_taken : Option ℕ → Option ℕ → Option ℕ
or_taken none taken = taken
or_taken (some t) taken = some t

abbrev pub merged_asset : ℕ → String → Asset → List Location → Asset → Asset
merged_asset now target_id target locs asset = record target {
  locations = target.locations ++ map (moved_to target_id) locs;
  taken_at = or_taken target.taken_at asset.taken_at;
  metadata = merge_metadata asset.metadata target.metadata;
  updated_at = now;
}

abbrev pub hash_into :
    Option (String × String)
    → ℕ
    → String
    → String
    → String
    → Option ℕ
    → Asset
    → AssetStore
    → AssetStore
hash_into none now fresh asset_id hash bytes asset s =
    let asset' = record asset {
      locations = map (hash_location hash fresh bytes) asset.locations;
      updated_at = now;
    } in
    record s { assets = insert asset_id asset' s.assets }
hash_into (some (target_id, content)) now fresh asset_id hash bytes asset s =
    let locs = map (hash_location hash content bytes) asset.locations in
    let target = asset_or_zero (lookup target_id s.assets) in
    record s {
      assets =
          remove asset_id
            (insert target_id (merged_asset now target_id target locs asset) s.assets);
      by_url = point_urls target_id locs s.by_url;
      location_by_asset = remove asset_id s.location_by_asset;
    }

abbrev pub hash_at :
    Option Asset
    → ℕ
    → String
    → String
    → String
    → Option ℕ
    → AssetStore
    → Found (Unit {0}) × AssetStore
hash_at none now fresh asset_id hash bytes s = (not_found, s)
hash_at (some asset) now fresh asset_id hash bytes s = (
  ok tt,
  hash_into (find_candidate asset_id hash bytes s.assets) now fresh asset_id hash bytes asset s,
)

-- UpdateLocationHash; `fresh` is the new content identifier
unfoldable pub update_location_hash :
    ℕ → String → String → String → Option ℕ → AssetStore → Found (Unit {0}) × AssetStore
update_location_hash now fresh asset_id hash bytes s =
    hash_at (lookup asset_id s.assets) now fresh asset_id hash bytes s

-- asset.Metadata[key] = value, for each entry
unfoldable pub set_metadata : Dict String String → Dict String String → Dict String String
set_metadata [] m = m
set_metadata ((key, value) ∷ entries) m = set_metadata entries (insert key value m)

abbrev pub entries_of : Metadata → Dict String String
entries_of none = []
entries_of (some m) = m

abbrev pub metadata_at :
    Option Asset
    → ℕ
    → String
    → Option ℕ
    → Dict String String
    → AssetStore
    → Found (Unit {0}) × AssetStore
metadata_at none now asset_id taken_at entries s = (not_found, s)
metadata_at (some a) now asset_id taken_at entries s = (
  ok tt,
  record s {
    assets =
        insert asset_id
          (record a {
            taken_at = or_taken taken_at a.taken_at;
            metadata = some (set_metadata entries (entries_of a.metadata));
            updated_at = now;
          })
          s.assets;
  },
)

unfoldable pub update_asset_metadata :
    ℕ → String → Option ℕ → Dict String String → AssetStore → Found (Unit {0}) × AssetStore
update_asset_metadata now asset_id taken_at entries s =
    metadata_at (lookup asset_id s.assets) now asset_id taken_at entries s
