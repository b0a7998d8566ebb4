-- ===== src/Enrichment/Scopes.antt =====
-- internal/metadata/metadata.go: which assets of a payload are taken, and through which location.
use cartolensia.Prelude.{
  ℕ, String, Bool, false, not, ◌&&◌, ◌||◌, Option, none, some, List, [], ◌∷◌, Text, text_eq,
  string_eq, ◌==◌, is_none, any, contains, leb, if◌then◌else◌,
}
use cartolensia.Prelude.Dict.{lookup}
use cartolensia.Texts.{bytes, trim_space, trim_byte, to_lower}
use cartolensia.Storage.Patterns.{under}
use cartolensia.Catalog.{Asset, Location, Metadata, entries_of}
use cartolensia.Discovery.Targets.{is_empty}
use cartolensia.Enrichment.{Payload, Extractor, image, video, audio, document, gpx, kml, kmz}

-- strings.Trim(strings.TrimSpace(s), "/")
abbrev pub bare : Text → Text
bare s = trim_byte b'/' (trim_space s)

unfoldable pub is_in_prefixes : Text → List Text → Bool
unfolding trim_space trim_byte
is_in_prefixes relative_path prefixes =
    any (λ prefix. not (bare prefix == []) && under (bare relative_path) (bare prefix)) prefixes

unfoldable pub is_in_scope : Payload → Location → Bool
unfolding is_in_prefixes
is_in_scope payload loc =
    (payload.storage == "" || loc.storage_name == payload.storage)
    && ((is_empty payload.prefixes || is_in_prefixes (bytes loc.relative_path) payload.prefixes)
        && (payload.media_kind == "" || loc.media_kind == payload.media_kind))

unfoldable pub scoped_location : Payload → List Location → Option Location
unfolding is_in_scope
scoped_location payload [] = none
scoped_location payload (loc ∷ locs) =
    let rest = scoped_location payload locs in if is_in_scope payload loc then some loc else rest

abbrev pub at_location : Asset → Location → Asset
at_location asset loc = record asset {
  locations = loc ∷ [];
  media_kind = if asset.media_kind == "" then loc.media_kind else asset.media_kind;
}

unfoldable pub scoped_asset : Payload → Asset → Option Asset
unfolding scoped_location
scoped_asset payload asset = elim (scoped_location payload asset.locations) [
  | none ↦ none
  | some loc ↦ some (at_location asset loc)
]

-- asset.Metadata[key] == nil
abbrev pub lacks : Metadata → String → Bool
lacks metadata key = is_none (lookup key (entries_of metadata))

unfoldable pub metadata_missing : Asset → Bool
metadata_missing asset =
    let m = asset.metadata in
    if asset.media_kind == "photo"
    then lacks m "width" || lacks m "height"
    else if asset.media_kind == "video"
    then lacks m "duration_seconds" || lacks m "ffprobe_available"
    else if asset.media_kind == "audio"
    then lacks m "duration_seconds" || lacks m "audio_codec" || lacks m "ffprobe_available"
    else if asset.media_kind == "track"
    then lacks m "track_point_count"
    else if asset.media_kind == "document"
    then lacks m "document_metadata_extracted_at"
    else false

-- The kind of the first location, or else the asset's own.
abbrev pub kind_at : String → List Location → String
kind_at kind [] = kind
kind_at kind (loc ∷ locs) = if loc.media_kind == "" then kind else loc.media_kind

unfoldable pub should_skip_asset : Payload → Asset → Bool
unfolding metadata_missing
should_skip_asset payload asset =
    let kind = kind_at asset.media_kind asset.locations in
    (not (payload.media_kind == "") && not (kind == payload.media_kind))
    || (not payload.include_images && kind == "photo")
    || (not payload.include_video && kind == "video")
    || (not payload.include_tracks && kind == "track")
    || (not payload.include_audio && kind == "audio")
    || (not payload.include_documents && kind == "document")
    || (payload.only_missing && not (metadata_missing asset))

-- The asset through its location in scope, if it is not passed over.
unfoldable pub target_of : Payload → Asset → Option Asset
unfolding scoped_asset should_skip_asset
target_of payload asset = elim (scoped_asset payload asset) [
  | none ↦ none
  | some scoped ↦ if should_skip_asset payload scoped then none else some scoped
]

-- payload.MaxFiles > 0 && n >= payload.MaxFiles
abbrev pub is_full : Payload → ℕ → Bool
is_full payload n = not (leb payload.max_files 0) && leb payload.max_files n

abbrev pub is_named : Payload → Asset → Bool
is_named payload asset = is_empty payload.asset_ids || contains payload.asset_ids asset.id

-- Which function reads the file of a location, if any does.
unfoldable pub extractor_of : Location → Option Extractor
unfolding to_lower
extractor_of loc =
    let extension = to_lower (bytes loc.extension) in
    if loc.media_kind == "photo"
    then some image
    else if loc.media_kind == "video"
    then some video
    else if loc.media_kind == "audio"
    then some audio
    else if loc.media_kind == "document"
    then some document
    else if loc.media_kind == "track"
    then (if extension == bytes "gpx"
        then some gpx
        else if extension == bytes "kml"
        then some kml
        else if extension == bytes "kmz"
        then some kmz
        else none)
    else none
