-- ===== src/Catalog/Merging.antt =====
-- What `UpdateLocationHash` does when another asset has the same content, and which location
-- `UpsertDiscoveredFile` of internal/catalog/catalog.go refreshes.
use cartolensia.Prelude.{
  ℕ, String, Bool, true, false, Option, none, some, List, [], ◌∷◌, ◌++◌, map, ◌≡◌, ◌≢◌, ◌⊎◌, inl,
  inr, refl, sym, subst, ◌∙◌, ◌==◌, ◌&&◌, ◌↔◌, eq_iff, Bool-cases, Option-cases, arith, string_eq,
  same_refl, same_ne, All,
}
use cartolensia.Prelude.Dict.{
  Dict, lookup, insert, lookup-insert, lookup-remove, lookup-insert_self,
}
use cartolensia.Catalog.{
  Asset, Location, FileInfo, AssetStore, ok, hashed, asset_or_zero, upsert_discovered_file, size_is,
  matching_content, find_candidate, hash_location, moved_to, point_urls, update_location_hash,
}
use cartolensia.Catalog.Indexing.{HasUrl, HasUrl-map, find_candidate-other}

-- A URL of the locations, or one that pointed to the target before, points to the target.
point_urls-target :
    (target url : String) (locs : List Location) (m : Dict String String)
    → (HasUrl url locs ⊎ (lookup url m ≡ some target))
    → lookup url (point_urls target locs m) ≡ some target
unfolding point_urls
point_urls-target target url [] m (inl h) = absurd h
point_urls-target target url [] m (inr h) = h
point_urls-target target url (loc ∷ locs) m (inl (inr h)) =
    point_urls-target target url locs (insert loc.storage_url target m) (inl h)
point_urls-target target url (loc ∷ locs) m (inl (inl e)) =
    point_urls-target target url locs (insert loc.storage_url target m)
      (inr (rw (e, lookup-insert_self) refl))
point_urls-target target url (loc ∷ locs) m (inr h) =
    point_urls-target target url locs (insert loc.storage_url target m)
      (inr (ground (arith, lookup-insert loc.storage_url url target m)))

-- Each location carries the content and belongs to the asset.
abbrev pub IsContent : String → String → String → Location → Type 0
IsContent asset_id hash content loc =
    (loc.asset_id ≡ asset_id)
    × ((loc.hash_status ≡ hashed) × ((loc.sha512_hex ≡ hash) × (loc.content_id ≡ content)))

moved-IsContent :
    (target hash content : String) (bytes : Option ℕ) (locs : List Location)
    → All
        (IsContent target hash content)
        (map (moved_to target) (map (hash_location hash content bytes) locs))
moved-IsContent target hash content bytes [] = tt
moved-IsContent target hash content bytes (loc ∷ locs) =
    ((refl, (refl, (refl, refl))), moved-IsContent target hash content bytes locs)

abbrev SizeIs : Option ℕ → ℕ → Type 0
SizeIs none n = ⊥
SizeIs (some bytes) n = n ≡ bytes

-- The location has been hashed, with this hash and a file of this size.
abbrev pub HasContent : String → Option ℕ → Location → Type 0
HasContent hash bytes loc =
    (loc.hash_status ≡ hashed) × ((loc.sha512_hex ≡ hash) × SizeIs bytes loc.size_bytes)

-- Some location of the list satisfies the predicate.
abbrev pub Some : (Location → Type 0) → List Location → Type 0
Some P [] = ⊥
Some P (loc ∷ locs) = P loc ⊎ Some P locs

-- The asset is stored under the identifier.
abbrev pub Stored : String → Asset → Dict String Asset → Type 0
Stored id asset [] = ⊥
Stored id asset ((j, a) ∷ m) = ((j ≡ id) × (a ≡ asset)) ⊎ Stored id asset m

-- A location of the content, with the given content identifier.
abbrev pub Bears : String → Option ℕ → String → Location → Type 0
Bears hash bytes content loc = HasContent hash bytes loc × (loc.content_id ≡ content)

abbrev test : String → Option ℕ → Location → Bool
test hash bytes loc =
    loc.hash_status == hashed && (loc.sha512_hex == hash && size_is bytes loc.size_bytes)

size_is_iff : (bytes : Option ℕ) (n : ℕ) → (size_is bytes n ≡ true) ↔ SizeIs bytes n
size_is_iff none n = ((λ h. cc h), (λ h. absurd h))
size_is_iff (some bytes) n = ground arith

test_iff :
    (hash : String) (bytes : Option ℕ) (loc : Location)
    → (test hash bytes loc ≡ true) ↔ HasContent hash bytes loc
test_iff hash bytes loc = ground (
  arith,
  eq_iff loc.hash_status hashed,
  eq_iff loc.sha512_hex hash,
  size_is_iff bytes loc.size_bytes,
)

matching_content-Bears :
    (hash : String) (bytes : Option ℕ) (locs : List Location) (content : String)
    → matching_content hash bytes locs ≡ some content
    → Some (Bears hash bytes content) locs
unfolding matching_content
matching_content-Bears hash bytes [] content h = cc h
matching_content-Bears hash bytes (loc ∷ locs) content h = elim (Bool-cases (test hash bytes loc)) [
  | inl e ↦ inl ((test_iff hash bytes loc).0 e, cc (rw e at h))
  | inr e ↦ inr (matching_content-Bears hash bytes locs content (rw e at h))
]

matching_content-found :
    (hash : String) (bytes : Option ℕ) (locs : List Location)
    → Some (HasContent hash bytes) locs
    → (content : String) × (matching_content hash bytes locs ≡ some content)
unfolding matching_content
matching_content-found hash bytes [] h = absurd h
matching_content-found hash bytes (loc ∷ locs) h = elim (Bool-cases (test hash bytes loc)) [
  | inl e ↦ (loc.content_id, rw e refl)
  | inr e ↦ elim h [
    | inl here ↦ absurd (cc (e, (test_iff hash bytes loc).1 here))
    | inr later ↦
        let (content, k) = matching_content-found hash bytes locs later in (content, rw e k)
  ]
]

module _ (asset_id hash : String) (bytes : Option ℕ) where
  -- A candidate that the search returns is stored and has the content.
  find_candidate-Bears :
      (m : Dict String Asset) (id content : String)
      → find_candidate asset_id hash bytes m ≡ some (id, content)
      → (a : Asset) × (Stored id a m × Some (Bears hash bytes content) a.locations)
  unfolding find_candidate
  find_candidate-Bears [] id content h = cc h
  find_candidate-Bears ((j, a) ∷ m) id content h = elim (Bool-cases (j == asset_id)) [
    | inl e ↦
        let (b, (stored, bears)) = find_candidate-Bears m id content (rw e at h) in
        (b, (inr stored, bears))
    | inr e ↦ elim (Option-cases (matching_content hash bytes a.locations)) [
      | inl n ↦
          let (b, (stored, bears)) = find_candidate-Bears m id content (rw (e, n) at h) in
          (b, (inr stored, bears))
      | inr (found, n) ↦
          let k : some (j, found) ≡ some (id, content) = rw (e, n) at h in
          (a, (inl (cc k, refl), matching_content-Bears hash bytes a.locations content (cc (n, k))))
    ]
  ]

  -- If another stored asset has the content, the search returns one.
  find_candidate-found :
      (m : Dict String Asset) (other : String) (a : Asset)
      → Stored other a m
      → other ≢ asset_id
      → Some (HasContent hash bytes) a.locations
      → (id : String) × (content : String) × (find_candidate asset_id hash bytes m
          ≡ some (id, content))
  unfolding find_candidate
  find_candidate-found [] other a stored differs has = absurd stored
  find_candidate-found ((j, b) ∷ m) other a (inl (same, e)) differs has =
      let (content, k) =
        matching_content-found hash bytes b.locations
          (subst (λ (x : Asset). Some (HasContent hash bytes) x.locations) (sym e) has) in
      (j, content, rw (same_ne j asset_id (λ f. differs (sym same ∙ f)), k) refl)
  find_candidate-found ((j, b) ∷ m) other a (inr stored) differs has =
      let (id, content, k) = find_candidate-found m other a stored differs has in
      elim (Bool-cases (j == asset_id)) [
        | inl e ↦ (id, content, rw e k)
        | inr e ↦ elim (Option-cases (matching_content hash bytes b.locations)) [
          | inl n ↦ (id, content, rw (e, n) k)
          | inr (found, n) ↦ (j, found, rw (e, n) refl)
        ]
      ]

-- What hashing comes to when the content is found in the asset of `target_id`: the asset is gone, the
-- target, which is another one, has its locations as before followed by the asset's, which carry the hash
-- and the content identifier and belong to the target, and every URL of the asset's locations points to it.
abbrev pub IsMerged :
    ℕ → String → String → String → Option ℕ → Asset → String → String → AssetStore → Type 0
IsMerged now fresh asset_id hash bytes asset target_id content s =
    let moved = map (moved_to target_id) (map (hash_location hash content bytes) asset.locations) in
    let target : Asset = asset_or_zero (lookup target_id s.assets) in
    let (result, s') = update_location_hash now fresh asset_id hash bytes s in
    (result ≡ ok tt)
    × ((target_id ≢ asset_id)
        × ((lookup asset_id s'.assets ≡ none)
            × (((asset_or_zero (lookup target_id s'.assets)).locations ≡ target.locations ++ moved)
                × (All (IsContent target_id hash content) moved
                    × ((url : String)
                        → HasUrl url asset.locations
                        → lookup url s'.by_url ≡ some target_id)))))

update_location_hash-IsMerged :
    (now : ℕ) (fresh asset_id hash : String) (bytes : Option ℕ) (asset : Asset)
    (target_id content : String) (s : AssetStore)
    → lookup asset_id s.assets ≡ some asset
    → find_candidate asset_id hash bytes s.assets ≡ some (target_id, content)
    → IsMerged now fresh asset_id hash bytes asset target_id content s
unfolding update_location_hash
update_location_hash-IsMerged now fresh asset_id hash bytes asset target_id content s here found =
    let other : target_id ≢ asset_id =
      find_candidate-other asset_id hash bytes s.assets target_id content found in
    rw (here, found)
      (
        refl,
        (
          other,
          (
            rw (lookup-remove asset_id asset_id, same_refl asset_id) refl,
            (
              rw
                  (
                    lookup-remove asset_id target_id,
                    same_ne target_id asset_id other,
                    lookup-insert_self,
                  )
                  refl,
              (
                moved-IsContent target_id hash content bytes asset.locations,
                (λ url has.
                    point_urls-target target_id url
                      (map (hash_location hash content bytes) asset.locations) s.by_url
                      (inl (
                        HasUrl-map (hash_location hash content bytes) url asset.locations
                          (λ loc. refl) has))),
              ),
            ),
          ),
        ),
      )

-- If another stored asset has a location that was hashed with the same hash and a file of the same size,
-- hashing a stored asset's file finds such an asset: it is stored with a location of that hash and size,
-- whose content identifier is taken. The hashed asset is gone, the other has its locations as before
-- followed by the hashed asset's, which carry the hash and the content identifier and belong to the
-- other, and every URL of these locations points to it.
pub update_location_hash-merges :
    (now : ℕ) (fresh asset_id hash : String) (bytes : Option ℕ) (asset : Asset) (other : String)
    (candidate : Asset) (s : AssetStore)
    → lookup asset_id s.assets ≡ some asset
    → Stored other candidate s.assets
    → other ≢ asset_id
    → Some (HasContent hash bytes) candidate.locations
    → (target_id : String) × (content : String) × (target : Asset) × (Stored target_id target
          s.assets
        × (Some (Bears hash bytes content) target.locations
            × IsMerged now fresh asset_id hash bytes asset target_id content s))
update_location_hash-merges now fresh asset_id hash bytes asset other candidate s here stored
      differs has =
    let (target_id, content, found) =
      find_candidate-found asset_id hash bytes s.assets other candidate stored differs has in
    let (target, (kept, bears)) =
      find_candidate-Bears asset_id hash bytes s.assets target_id content found in
    (
      target_id,
      content,
      target,
      (
        kept,
        (
          bears,
          update_location_hash-IsMerged now fresh asset_id hash bytes asset target_id content s here
              found,
        ),
      ),
    )

-- Finding a file again whose URL the index knows refreshes the first location of its asset, with the size
-- of the file, even if that location has another URL, and leaves all later locations as they were.
pub upsert_discovered_file-first :
    (now : ℕ) (fresh fresh_location id : String) (info : FileInfo) (asset : Asset) (loc : Location)
    (locs : List Location) (s : AssetStore)
    → lookup info.storage_url s.by_url ≡ some id
    → lookup id s.assets ≡ some asset
    → asset.locations ≡ loc ∷ locs
    → let ((result, created), s') = upsert_discovered_file now fresh fresh_location info s in
      (created ≡ false)
      × ((lookup id s'.assets ≡ some result)
          × (result.locations
              ≡ record loc {
                size_bytes = info.size_bytes;
                mtime = info.mtime;
                mime = info.mime;
                last_seen_at = now;
                media_kind = info.media_kind;
                extension = info.extension;
              }
                ∷ locs))
unfolding upsert_discovered_file
upsert_discovered_file-first now fresh fresh_location id info asset loc locs s known stored listed =
    rw (known, stored, lookup-insert_self, listed) (refl, (refl, refl))
