-- ===== src/Catalog/Indexing.antt =====
-- The index from a file's URL to its asset, through `UpsertDiscoveredFile`, `UpdateLocationHash` and
-- `UpdateAssetMetadata` of internal/catalog/catalog.go.
use cartolensia.Prelude.{
  ℕ, String, Option, none, some, List, [], ◌∷◌, ◌++◌, map, ◌≡◌, ◌≢◌, ◌⊎◌, inl, inr, refl, sym, ◌∙◌,
  subst, arith, string_eq, ◌==◌, same_ne, Bool-cases, eq_iff,
}
use cartolensia.Prelude.Dict.{Dict, lookup, insert, remove, lookup-insert, lookup-remove}
use cartolensia.Catalog.{
  Asset, Location, FileInfo, AssetStore, asset_or_zero, refresh_first, rediscovered, discovered,
  upsert_at, upsert_discovered_file, find_candidate, or_candidate, matching_content, hash_location,
  moved_to, point_urls, merged_asset, hash_into, hash_at, update_location_hash, metadata_at,
  update_asset_metadata,
}

abbrev pub HasUrl : String → List Location → Type 0
HasUrl url [] = ⊥
HasUrl url (loc ∷ locs) = (loc.storage_url ≡ url) ⊎ HasUrl url locs

-- There is an asset and it has a location with the URL.
abbrev pub Holds : String → Option Asset → Type 0
Holds url none = ⊥
Holds url (some a) = HasUrl url a.locations

-- Every URL of the index belongs to a location of a stored asset, the one that the index names.
abbrev pub IsIndexed : AssetStore → Type 0
IsIndexed s = (url id : String) → lookup url s.by_url ≡ some id → Holds url (lookup id s.assets)

Holds-asset_or_zero :
    (url : String) (found : Option Asset)
    → Holds url found
    → HasUrl url (asset_or_zero found).locations
Holds-asset_or_zero url none h = h
Holds-asset_or_zero url (some a) h = h

HasUrl-refresh_first :
    (now : ℕ) (info : FileInfo) (url : String) (locs : List Location)
    → HasUrl url locs
    → HasUrl url (refresh_first now info locs)
HasUrl-refresh_first now info url [] h = h
HasUrl-refresh_first now info url (loc ∷ locs) h = h

pub HasUrl-map :
    (f : Location → Location) (url : String) (locs : List Location)
    → ((loc : Location) → (f loc).storage_url ≡ loc.storage_url)
    → HasUrl url locs
    → HasUrl url (map f locs)
HasUrl-map f url [] keeps h = h
HasUrl-map f url (loc ∷ locs) keeps (inl e) = inl (keeps loc ∙ e)
HasUrl-map f url (loc ∷ locs) keeps (inr h) = inr (HasUrl-map f url locs keeps h)

HasUrl-append_left : (url : String) (xs ys : List Location) → HasUrl url xs → HasUrl url (xs ++ ys)
HasUrl-append_left url [] ys h = absurd h
HasUrl-append_left url (x ∷ xs) ys (inl e) = inl e
HasUrl-append_left url (x ∷ xs) ys (inr h) = inr (HasUrl-append_left url xs ys h)

HasUrl-append_right : (url : String) (xs ys : List Location) → HasUrl url ys → HasUrl url (xs ++ ys)
HasUrl-append_right url [] ys h = h
HasUrl-append_right url (x ∷ xs) ys h = inr (HasUrl-append_right url xs ys h)

-- Storing an asset under an identifier keeps what another asset holds.
pub Holds-insert :
    (url id at : String) (a : Asset) (m : Dict String Asset)
    → (id ≡ at → HasUrl url a.locations)
    → (id ≢ at → Holds url (lookup id m))
    → Holds url (lookup id (insert at a m))
Holds-insert url id at a m here there = elim (Bool-cases (id == at)) [
  | inl e ↦ rw (lookup-insert at id a m, e) (here ((eq_iff id at).0 e))
  | inr e ↦ rw (lookup-insert at id a m, e) (there (λ k. ground (arith, eq_iff id at)))
]

-- Where a URL points after the URLs of some locations are pointed to a target.
point_urls-lookup :
    (target url id : String) (locs : List Location) (m : Dict String String)
    → lookup url (point_urls target locs m) ≡ some id
    → (HasUrl url locs × (id ≡ target)) ⊎ ((¬ HasUrl url locs) × (lookup url m ≡ some id))
unfolding point_urls
point_urls-lookup target url id [] m h = inr ((λ k. k), h)
point_urls-lookup target url id (loc ∷ locs) m h = ground (
  arith,
  point_urls-lookup target url id locs (insert loc.storage_url target m) h,
  lookup-insert loc.storage_url url target m,
  eq_iff url loc.storage_url,
)

or_candidate-here :
    (found : Option String) (j : String) (rest : Option (String × String)) (id content : String)
    → or_candidate found j rest ≡ some (id, content)
    → (j ≡ id) ⊎ (rest ≡ some (id, content))
or_candidate-here none j rest id content h = inr h
or_candidate-here (some c) j rest id content h = inl (cc h)

-- A candidate is another asset.
pub find_candidate-other :
    (asset_id hash : String) (bytes : Option ℕ) (m : Dict String Asset) (id content : String)
    → find_candidate asset_id hash bytes m ≡ some (id, content)
    → id ≢ asset_id
unfolding find_candidate
find_candidate-other asset_id hash bytes [] id content h = cc
find_candidate-other asset_id hash bytes ((j, a) ∷ m) id content h =
    elim (Bool-cases (j == asset_id)) [
      | inl e ↦ find_candidate-other asset_id hash bytes m id content (rw e at h)
      | inr e ↦
          elim (or_candidate-here (matching_content hash bytes a.locations) j
            (find_candidate asset_id hash bytes m) id content (rw e at h)) [
              | inl here ↦ (λ same. ground (arith, eq_iff j asset_id))
              | inr later ↦ find_candidate-other asset_id hash bytes m id content later
            ]
    ]

-- What may come to the store: a file found while walking a storage, with the identifiers made for it,
-- the hash of an asset's file, or metadata.
pub data Event : Type 0 where
  finds : (now : ℕ) → (asset_id location_id : String) → FileInfo → Event
  hashes : (now : ℕ) → (fresh asset_id hash : String) → Option ℕ → Event
  describes : (now : ℕ) → (asset_id : String) → Option ℕ → Dict String String → Event

unfoldable pub apply : Event → AssetStore → AssetStore
unfolding upsert_discovered_file update_location_hash update_asset_metadata
apply (finds now asset_id location_id info) s =
    (upsert_discovered_file now asset_id location_id info s).1
apply (hashes now fresh asset_id hash bytes) s =
    (update_location_hash now fresh asset_id hash bytes s).1
apply (describes now asset_id taken_at entries) s =
    (update_asset_metadata now asset_id taken_at entries s).1

-- An identifier made for a new asset is not in use.
abbrev pub IsFresh : Event → AssetStore → Type 0
IsFresh (finds now asset_id location_id info) s = lookup asset_id s.assets ≡ none
IsFresh _ s = Unit

-- What the index says after one URL is pointed to an asset.
lookup-index :
    (new at url id : String) (m : Dict String String)
    → lookup url (insert new at m) ≡ some id
    → ((url ≡ new) × (id ≡ at)) ⊎ (lookup url m ≡ some id)
lookup-index new at url id m h = elim (Bool-cases (url == new)) [
  | inl e ↦ inl ((eq_iff url new).0 e, cc (rw (lookup-insert new url at m, e) at h))
  | inr e ↦ inr (rw (lookup-insert new url at m, e) at h)
]

-- Removing an asset keeps what another one holds.
Holds-kept :
    (url id gone : String) (m : Dict String Asset)
    → id ≢ gone
    → Holds url (lookup id m)
    → Holds url (lookup id (remove gone m))
Holds-kept url id gone m other h = rw (lookup-remove gone id m, same_ne id gone other) h

upsert_at-IsIndexed :
    (found : Option String) (now : ℕ) (asset_id location_id : String) (info : FileInfo)
    (s : AssetStore)
    → lookup info.storage_url s.by_url ≡ found
    → lookup asset_id s.assets ≡ none
    → IsIndexed s
    → IsIndexed (upsert_at found now asset_id location_id info s).1
upsert_at-IsIndexed (some at) now asset_id location_id info s e fresh indexed url id h =
    let old : Asset = asset_or_zero (lookup at s.assets) in
    Holds-insert url id at (rediscovered now info old) s.assets
      (λ same. HasUrl-refresh_first now info url old.locations (
        Holds-asset_or_zero url (lookup at s.assets)
          (subst (λ i. Holds url (lookup i s.assets)) same (indexed url id h))))
      (λ other. indexed url id h)
upsert_at-IsIndexed none now asset_id location_id info s e fresh indexed url id h =
    Holds-insert url id asset_id (discovered now asset_id location_id info) s.assets
      (λ same. elim (lookup-index info.storage_url asset_id url id s.by_url h) [
        | inl (u, i) ↦ inl (sym u)
        | inr old ↦ absurd (
            subst (Holds url) fresh
              (subst (λ i. Holds url (lookup i s.assets)) same (indexed url id old)))
      ])
      (λ other. elim (lookup-index info.storage_url asset_id url id s.by_url h) [
        | inl (u, i) ↦ absurd (other i)
        | inr old ↦ indexed url id old
      ])

hash_into-IsIndexed :
    (found : Option (String × String)) (now : ℕ) (fresh asset_id hash : String) (bytes : Option ℕ)
    (asset : Asset) (s : AssetStore)
    → ((id content : String) → found ≡ some (id, content) → id ≢ asset_id)
    → lookup asset_id s.assets ≡ some asset
    → IsIndexed s
    → IsIndexed (hash_into found now fresh asset_id hash bytes asset s)
hash_into-IsIndexed none now fresh asset_id hash bytes asset s other here indexed url id h =
    let f : Location → Location = hash_location hash fresh bytes in
    Holds-insert url id asset_id
      (record asset { locations = map f asset.locations; updated_at = now }) s.assets
      (λ same.
        HasUrl-map f url asset.locations (λ loc. refl)
          (subst (Holds url) here
            (subst (λ i. Holds url (lookup i s.assets)) same (indexed url id h))))
      (λ k. indexed url id h)
hash_into-IsIndexed (some (target_id, content)) now fresh asset_id hash bytes asset s other here
      indexed url id h =
    let f : Location → Location = hash_location hash content bytes in
    let locs : List Location = map f asset.locations in
    let moved : List Location = map (moved_to target_id) locs in
    let target : Asset = asset_or_zero (lookup target_id s.assets) in
    let merged : Asset = merged_asset now target_id target locs asset in
    let kept = Holds-kept url id asset_id (insert target_id merged s.assets) in
    elim (point_urls-lookup target_id url id locs s.by_url h) [
      | inl (has, at) ↦
          kept (λ k. other target_id content refl (sym at ∙ k))
            (Holds-insert url id target_id merged s.assets
              (λ same.
                HasUrl-append_right url target.locations moved
                  (HasUrl-map (moved_to target_id) url locs (λ loc. refl) has))
              (λ k. absurd (k at)))
      | inr (lacks, old) ↦
          let holds : Holds url (lookup id s.assets) = indexed url id old in
          kept
            (λ k. lacks (
              HasUrl-map f url asset.locations (λ loc. refl)
                (subst (Holds url) here (subst (λ i. Holds url (lookup i s.assets)) k holds))))
            (Holds-insert url id target_id merged s.assets
              (λ same. HasUrl-append_left url target.locations moved (
                Holds-asset_or_zero url (lookup target_id s.assets)
                  (subst (λ i. Holds url (lookup i s.assets)) same holds)))
              (λ k. holds))
    ]

hash_at-IsIndexed :
    (found : Option Asset) (now : ℕ) (fresh asset_id hash : String) (bytes : Option ℕ)
    (s : AssetStore)
    → lookup asset_id s.assets ≡ found
    → IsIndexed s
    → IsIndexed (hash_at found now fresh asset_id hash bytes s).1
hash_at-IsIndexed none now fresh asset_id hash bytes s e indexed = indexed
hash_at-IsIndexed (some a) now fresh asset_id hash bytes s e indexed =
    hash_into-IsIndexed (find_candidate asset_id hash bytes s.assets) now fresh asset_id hash bytes
      a s (find_candidate-other asset_id hash bytes s.assets) e indexed

metadata_at-IsIndexed :
    (found : Option Asset) (now : ℕ) (asset_id : String) (taken_at : Option ℕ)
    (entries : Dict String String) (s : AssetStore)
    → lookup asset_id s.assets ≡ found
    → IsIndexed s
    → IsIndexed (metadata_at found now asset_id taken_at entries s).1
metadata_at-IsIndexed none now asset_id taken_at entries s e indexed url id h = indexed url id h
metadata_at-IsIndexed (some a) now asset_id taken_at entries s e indexed url id h =
    let holds : Holds url (lookup id s.assets) = indexed url id h in
    Holds-insert url id asset_id _ s.assets
      (λ same. subst (Holds url) e (subst (λ i. Holds url (lookup i s.assets)) same holds))
      (λ k. holds)

apply-IsIndexed :
    (event : Event) (s : AssetStore) → IsFresh event s → IsIndexed s → IsIndexed (apply event s)
unfolding apply upsert_discovered_file update_location_hash update_asset_metadata
apply-IsIndexed (finds now asset_id location_id info) s fresh indexed =
    upsert_at-IsIndexed (lookup info.storage_url s.by_url) now asset_id location_id info s refl
      fresh indexed
apply-IsIndexed (hashes now fresh asset_id hash bytes) s free indexed =
    hash_at-IsIndexed (lookup asset_id s.assets) now fresh asset_id hash bytes s refl indexed
apply-IsIndexed (describes now asset_id taken_at entries) s free indexed =
    metadata_at-IsIndexed (lookup asset_id s.assets) now asset_id taken_at entries s refl indexed

unfoldable pub run : List Event → AssetStore → AssetStore
run [] s = s
run (event ∷ events) s = run events (apply event s)

-- Every event makes its identifiers fresh when its turn comes.
unfoldable pub AreFresh : List Event → AssetStore → Type 0
AreFresh [] s = Unit
AreFresh (event ∷ events) s = IsFresh event s × AreFresh events (apply event s)

-- After any discoveries, hashes and metadata, in any order, from a store whose index names for every
-- URL a stored asset that has a location with it, the index still does, if new assets get identifiers
-- that are not in use.
pub run-IsIndexed :
    (events : List Event) (s : AssetStore)
    → AreFresh events s
    → IsIndexed s
    → IsIndexed (run events s)
unfolding run AreFresh
run-IsIndexed [] s fresh indexed = indexed
run-IsIndexed (event ∷ events) s (fresh, rest) indexed =
    run-IsIndexed events (apply event s) rest (apply-IsIndexed event s fresh indexed)
