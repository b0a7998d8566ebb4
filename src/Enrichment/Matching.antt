-- ===== src/Enrichment/Matching.antt =====
-- internal/metadata/metadata.go: what the loops of a metadata job leave as it is in the catalog, where every
-- extractor leaves it.
use cartolensia.Prelude.{
  ℕ, suc, String, Option, none, some, List, [], ◌∷◌, ◌≡◌, inl, inr, refl, sym, ap, ◌∙◌,
  Option-cases,
}
use cartolensia.Failure.{sentinel, not_found}
use cartolensia.Catalog.{Asset, Location, AssetStore}
use cartolensia.Discovery.{Run, Outcome}
use cartolensia.Discovery.Hashing.{reported}
use cartolensia.Discovery.Counting.{unless_ended-goes_on}
use cartolensia.Enrichment.{Payload, Extractor, World, count_scanned, count_skipped}
use cartolensia.Enrichment.Scopes.{extractor_of, target_of}
use cartolensia.Enrichment.Loops.{
  goes_on, keep, check, enrich_asset, counted_asset, process_asset, page_each,
}
use cartolensia.Enrichment.Counting.{
  reported-assets, check_enrichment-goes_on, unless_returned-goes_on, never_full,
}

-- Whatever an extractor does, the number stays.
abbrev pub IsKept : World → (AssetStore → ℕ) → Type 0
IsKept world f =
    (extractor : Extractor) (asset : Asset) (loc : Location) (s : AssetStore)
    → f (world.extract extractor asset loc s).1 ≡ f s

module _ (worker_id : String) (world : World) (f : AssetStore → ℕ) (kept : IsKept world f) where
  abbrev extracted : Asset → Location → AssetStore → Option Extractor → Outcome × AssetStore
  extracted asset loc s none = (none, s)
  extracted asset loc s (some extractor) = world.extract extractor asset loc s

  with_extractor-kept :
      (asset : Asset) (loc : Location) (s : AssetStore) (o : Option Extractor)
      → f (extracted asset loc s o).1 ≡ f s
  with_extractor-kept asset loc s none = refl
  with_extractor-kept asset loc s (some extractor) = kept extractor asset loc s

  abbrev read_first : Asset → AssetStore → List Location → Outcome × AssetStore
  read_first asset s [] = (some (sentinel not_found), s)
  read_first asset s (loc ∷ locs) = extracted asset loc s (extractor_of loc)

  read_first-kept :
      (asset : Asset) (s : AssetStore) (locs : List Location) → f (read_first asset s locs).1 ≡ f s
  read_first-kept asset s [] = refl
  read_first-kept asset s (loc ∷ locs) = with_extractor-kept asset loc s (extractor_of loc)

  enrich_asset-kept :
      (asset : Asset) (s : AssetStore) → f (enrich_asset worker_id world asset s).1 ≡ f s
  enrich_asset-kept asset s = read_first-kept asset s asset.locations

  counted_asset-assets :
      (asset : Asset) (o : Outcome) (r : Run)
      → (counted_asset worker_id world asset o r).assets ≡ r.assets
  counted_asset-assets asset none r = refl
  counted_asset-assets asset (some e) r = refl

  process_asset-kept :
      (asset : Asset) (r t : Run)
      → process_asset worker_id world asset r ≡ (none, t)
      → f t.assets ≡ f r.assets
  unfolding process_asset
  process_asset-kept asset r t h =
      let (u, (checked, rest)) =
        unless_ended-goes_on (check worker_id world r)
          (λ r'.
            let (outcome, assets) = enrich_asset worker_id world asset r'.assets in
            reported worker_id keep
              (counted_asset worker_id world asset outcome (record r' { assets = assets })))
          t h in
      let same : r ≡ u =
        check_enrichment-goes_on worker_id (world.clock r.job.progress_current)
          (world.stopped r.job.progress_current) r u checked in
      let (outcome, assets) = enrich_asset worker_id world asset u.assets in
      let read : Run = record u { assets = assets } in
      ap f (reported-assets worker_id (counted_asset worker_id world asset outcome read) t rest)
      ∙ ap f (counted_asset-assets asset outcome read)
      ∙ enrich_asset-kept asset u.assets
      ∙ ap (λ (x : Run). f x.assets) (sym same)

  module _ (payload : Payload) (unbounded : payload.max_files ≡ 0) where
    pub page_each-kept :
        (assets : List Asset) (n m : ℕ) (r t : Run)
        → page_each worker_id world payload assets n r ≡ (goes_on m, t)
        → f t.assets ≡ f r.assets
    unfolding page_each
    page_each-kept [] n m r t h = let same : r ≡ t = cc h in ap (λ (x : Run). f x.assets) (sym same)
    page_each-kept (asset ∷ assets) n m r t h = elim (Option-cases (target_of payload asset)) [
      | inl e ↦
          let (u, (told, rest)) =
            unless_returned-goes_on worker_id world payload unbounded _
              (page_each worker_id world payload assets n) m t
              (rw (never_full worker_id world payload unbounded n, e) at h) in
          page_each-kept assets n m u t rest
          ∙ ap f (
              reported-assets worker_id (record r { job = count_skipped (count_scanned r.job) }) u
                told)
      | inr (scoped, e) ↦
          let (u, (told, rest)) =
            unless_returned-goes_on worker_id world payload unbounded _
              (page_each worker_id world payload assets (suc n)) m t
              (rw (never_full worker_id world payload unbounded n, e) at h) in
          page_each-kept assets (suc n) m u t rest
          ∙ process_asset-kept scoped (record r { job = count_scanned r.job }) u told
    ]
