-- ===== src/Catalog/Stats.antt =====
-- `Stats` of internal/catalog/catalog.go: counting the stored locations.
use cartolensia.Prelude.{
  ℕ, ◌+◌, ◌*◌, ◌∙◌, String, not, Option, none, some, List, [], ◌∷◌, string_eq, ◌==◌, ◌≡◌, ◌≤◌, refl,
  arith, length, ltb, Bool-cases, inl, inr, if◌then◌else◌,
}
use cartolensia.Prelude.Dict.{Dict, lookup, insert}
use cartolensia.Catalog.{Asset, Location, hashed}

pub record Stats : Type 0 where
  pub assets : ℕ
  pub locations : ℕ
  pub photos : ℕ
  pub videos : ℕ
  pub audio : ℕ
  pub documents : ℕ
  pub tracks : ℕ
  pub unhashed : ℕ
  pub hashed : ℕ
  pub duplicate_groups : ℕ
  pub duplicate_locations : ℕ
  pub total_bytes : ℕ

abbrev no_stats : Stats
no_stats = record {
  assets = 0;
  locations = 0;
  photos = 0;
  videos = 0;
  audio = 0;
  documents = 0;
  tracks = 0;
  unhashed = 0;
  hashed = 0;
  duplicate_groups = 0;
  duplicate_locations = 0;
  total_bytes = 0;
}

-- the switch on loc.MediaKind
abbrev count_kind : String → Stats → Stats
count_kind kind s =
    if kind == "photo"
    then record s { photos = s.photos + 1 }
    else if kind == "video"
    then record s { videos = s.videos + 1 }
    else if kind == "audio"
    then record s { audio = s.audio + 1 }
    else if kind == "document"
    then record s { documents = s.documents + 1 }
    else if kind == "track"
    then record s { tracks = s.tracks + 1 }
    else s

abbrev count_or_zero : Option ℕ → ℕ
count_or_zero none = 0
count_or_zero (some n) = n

-- duplicateCounts[key]++
abbrev bump : String → Dict String ℕ → Dict String ℕ
bump key m = insert key (count_or_zero (lookup key m) + 1) m

abbrev Counting : Type 0
Counting = Stats × Dict String ℕ

-- the body of the inner loop
abbrev pub count_location : Location → Counting → Counting
count_location loc (s, counts) =
    let s1 =
      count_kind loc.media_kind
        (record s { locations = s.locations + 1; total_bytes = s.total_bytes + loc.size_bytes }) in
    if loc.hash_status == hashed
    then (
      record s1 { hashed = s1.hashed + 1 },
      (if not (loc.content_id == "")
          then bump loc.content_id counts
          else if not (loc.sha512_hex == "")
          then bump loc.sha512_hex counts
          else counts),
    )
    else (record s1 { unhashed = s1.unhashed + 1 }, counts)

unfoldable pub count_locations : List Location → Counting → Counting
count_locations [] acc = acc
count_locations (loc ∷ locs) acc = count_locations locs (count_location loc acc)

unfoldable pub count_assets : Dict String Asset → Counting → Counting
unfolding count_locations
count_assets [] acc = acc
count_assets ((id, a) ∷ m) acc = count_assets m (count_locations a.locations acc)

-- the loop over duplicateCounts
unfoldable pub count_duplicates : Dict String ℕ → Stats → Stats
count_duplicates [] s = s
count_duplicates ((key, count) ∷ m) s = count_duplicates m (
    if ltb 1 count
    then record s {
      duplicate_groups = s.duplicate_groups + 1;
      duplicate_locations = s.duplicate_locations + count;
    }
    else s)

unfoldable pub stats : Dict String Asset → Stats
unfolding count_assets count_duplicates
stats assets =
    let (s, counts) = count_assets assets (record no_stats { assets = length assets }, []) in
    count_duplicates counts s

abbrev pub location_total : Dict String Asset → ℕ
location_total [] = 0
location_total ((id, a) ∷ m) = length a.locations + location_total m

abbrev size_total : List Location → ℕ
size_total [] = 0
size_total (loc ∷ locs) = loc.size_bytes + size_total locs

abbrev pub byte_total : Dict String Asset → ℕ
byte_total [] = 0
byte_total ((id, a) ∷ m) = size_total a.locations + byte_total m

-- the locations that have a counted kind
abbrev kinds : Stats → ℕ
kinds s = s.photos + s.videos + s.audio + s.documents + s.tracks

-- What counting some more locations adds.
record Added (n bytes : ℕ) (before after : Counting) : Type 0 where
  located : after.0.locations ≡ n + before.0.locations
  sized : after.0.total_bytes ≡ bytes + before.0.total_bytes
  hash_parts : after.0.hashed + after.0.unhashed ≡ n + (before.0.hashed + before.0.unhashed)
  kept : after.0.assets ≡ before.0.assets

count_location-Added :
    (loc : Location) (acc : Counting) → Added 1 loc.size_bytes acc (count_location loc acc)
count_location-Added loc acc = record {
  located = ground arith;
  sized = ground arith;
  hash_parts = ground arith;
  kept = ground arith;
}

count_locations-Added :
    (locs : List Location) (acc : Counting)
    → Added (length locs) (size_total locs) acc (count_locations locs acc)
unfolding count_locations
count_locations-Added [] acc = record {
  located = omega arith;
  sized = omega arith;
  hash_parts = omega arith;
  kept = refl;
}
count_locations-Added (loc ∷ locs) acc =
    let one = count_location-Added loc acc in
    let more = count_locations-Added locs (count_location loc acc) in
    record {
      located = omega (arith, one.located, more.located);
      sized = omega (arith, one.sized, more.sized);
      hash_parts = omega (arith, one.hash_parts, more.hash_parts);
      kept = more.kept ∙ one.kept;
    }

count_assets-Added :
    (m : Dict String Asset) (acc : Counting)
    → Added (location_total m) (byte_total m) acc (count_assets m acc)
unfolding count_assets
count_assets-Added [] acc = record {
  located = omega arith;
  sized = omega arith;
  hash_parts = omega arith;
  kept = refl;
}
count_assets-Added ((id, a) ∷ m) acc =
    let one = count_locations-Added a.locations acc in
    let more = count_assets-Added m (count_locations a.locations acc) in
    record {
      located = omega (arith, one.located, more.located);
      sized = omega (arith, one.sized, more.sized);
      hash_parts = omega (arith, one.hash_parts, more.hash_parts);
      kept = more.kept ∙ one.kept;
    }

-- Counting duplicates changes only the two numbers of duplicates, and each group brings at least two.
count_duplicates-groups :
    (m : Dict String ℕ) (s : Stats)
    → 2 * s.duplicate_groups ≤ s.duplicate_locations
    → let t = count_duplicates m s in
      ((t.locations ≡ s.locations)
        × ((t.total_bytes ≡ s.total_bytes)
            × ((t.hashed ≡ s.hashed) × ((t.unhashed ≡ s.unhashed) × (t.assets ≡ s.assets)))))
      × (2 * t.duplicate_groups ≤ t.duplicate_locations)
unfolding count_duplicates
count_duplicates-groups [] s h = ((refl, (refl, (refl, (refl, refl)))), h)
count_duplicates-groups ((key, count) ∷ m) s h = elim (Bool-cases (ltb 1 count)) [
  | inl e ↦
      rw (count_duplicates, e)
        (count_duplicates-groups m
          (record s {
            duplicate_groups = s.duplicate_groups + 1;
            duplicate_locations = s.duplicate_locations + count;
          })
          (ground arith))
  | inr e ↦ rw (count_duplicates, e) (count_duplicates-groups m s h)
]

count_location-groups :
    (loc : Location) (acc : Counting)
    → ((count_location loc acc).0.duplicate_groups ≡ acc.0.duplicate_groups)
      × ((count_location loc acc).0.duplicate_locations ≡ acc.0.duplicate_locations)
count_location-groups loc acc = (ground arith, ground arith)

count_locations-groups :
    (locs : List Location) (acc : Counting)
    → ((count_locations locs acc).0.duplicate_groups ≡ acc.0.duplicate_groups)
      × ((count_locations locs acc).0.duplicate_locations ≡ acc.0.duplicate_locations)
unfolding count_locations
count_locations-groups [] acc = (refl, refl)
count_locations-groups (loc ∷ locs) acc =
    let one = count_location-groups loc acc in
    let more = count_locations-groups locs (count_location loc acc) in
    (more.0 ∙ one.0, more.1 ∙ one.1)

count_assets-groups :
    (m : Dict String Asset) (acc : Counting)
    → ((count_assets m acc).0.duplicate_groups ≡ acc.0.duplicate_groups)
      × ((count_assets m acc).0.duplicate_locations ≡ acc.0.duplicate_locations)
unfolding count_assets
count_assets-groups [] acc = (refl, refl)
count_assets-groups ((id, a) ∷ m) acc =
    let one = count_locations-groups a.locations acc in
    let more = count_assets-groups m (count_locations a.locations acc) in
    (more.0 ∙ one.0, more.1 ∙ one.1)

-- The statistics count every asset, location and byte: each location is either hashed or not, and a
-- group of duplicates has at least two locations.
pub stats-totals :
    (assets : Dict String Asset)
    → let t = stats assets in
      (t.assets ≡ length assets)
      × ((t.locations ≡ location_total assets)
          × ((t.total_bytes ≡ byte_total assets)
              × ((t.hashed + t.unhashed ≡ location_total assets)
                  × (2 * t.duplicate_groups ≤ t.duplicate_locations))))
unfolding stats
stats-totals assets =
    let start : Counting = (record no_stats { assets = length assets }, []) in
    let counted = count_assets-Added assets start in
    let (s, counts) = count_assets assets start in
    let zero_groups = count_assets-groups assets start in
    let grouped = count_duplicates-groups counts s (omega (arith, zero_groups.0, zero_groups.1)) in
    (
      grouped.0.1.1.1.1 ∙ counted.kept,
      (
        omega (arith, grouped.0.0, counted.located),
        (
          omega (arith, grouped.0.1.0, counted.sized),
          (omega (arith, grouped.0.1.1.0, grouped.0.1.1.1.0, counted.hash_parts), grouped.1),
        ),
      ),
    )
