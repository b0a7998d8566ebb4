-- ===== src/Enrichment/Examples.antt =====
-- Examples of the properties of Enrichment: a run without a worker over a list of one photo.
use cartolensia.Prelude.{
  ◌-◌, String, true, false, none, some, List, [], ◌∷◌, ◌≡◌, ◌≢◌, refl, arith, string_eq, length,
}
use cartolensia.Prelude.Dict.{Dict, lookup, insert}
use cartolensia.Jobs.{Job, new}
use cartolensia.Catalog.{Asset, AssetStore, discovered}
use cartolensia.Discovery.{Run, report}
use cartolensia.Enrichment.{Payload, World, page}
use cartolensia.Enrichment.Loops.{goes_on, enrich_queried}
use cartolensia.Enrichment.Counting.{IsHandled}
use cartolensia.Enrichment.Matching.{IsKept}
use cartolensia.Enrichment.Resuming.{page_at, enrich_queried-IsHandled, enrich_queried-ends}

abbrev photo : Asset
photo = discovered 1 "a1" "l1" (record {
  storage_name = "main";
  storage_url = "fs://main/a.jpg";
  relative_path = "a.jpg";
  name = "a.jpg";
  extension = "jpg";
  mime = "image/jpeg";
  media_kind = "photo";
  size_bytes = 5;
  mtime = 1;
})

abbrev dated : Asset → Asset
dated asset = record asset { taken_at = some 3 }

abbrev all_dated : Dict String Asset → Dict String Asset
all_dated [] = []
all_dated ((id, asset) ∷ m) = (id, dated asset) ∷ all_dated m

abbrev values : Dict String Asset → List Asset
values [] = []
values ((id, asset) ∷ m) = asset ∷ values m

dated_length : (m : Dict String Asset) → length (values (all_dated m)) ≡ length (values m)
dated_length [] = refl
dated_length ((id, asset) ∷ m) = omega (arith, dated_length m)

-- every stored asset matches
abbrev matching : AssetStore → List Asset
matching s = values s.assets

-- reading any file dates all stored assets
abbrev world : World
world = record {
  clock = λ n. n;
  stopped = λ n. false;
  extract = λ extractor asset loc s. (none, record s { assets = all_dated s.assets });
  query_assets = λ offset s. page (page_at (matching s) offset);
  trim = λ s. s;
}

abbrev payload : Payload
payload = record {
  asset_ids = [];
  storage = "";
  prefixes = [];
  media_kind = "";
  only_missing = false;
  max_files = 0;
  include_video = true;
  include_images = true;
  include_tracks = true;
  include_audio = true;
  include_documents = true;
}

abbrev job : Job
job = new "j1" 1 "metadata" "{}"

abbrev store : AssetStore
store = record {
  assets = ("a1", photo) ∷ [];
  by_url = [];
  location_by_asset = [];
  track_links = [];
}

extracting_keeps : IsKept world (λ s. length (matching s))
extracting_keeps extractor asset loc s = dated_length s.assets

abbrev before : Run
before = record { job = job; queue = ("j1", job) ∷ []; assets = store }

abbrev after : Run
after = (enrich_queried "" world payload 2 0 before).1

enrich_queried-IsHandled_example : IsHandled (1 - 0) (1 - 0) job after.job
unfolding enrich_queried new lookup report insert
enrich_queried-IsHandled_example =
    enrich_queried-IsHandled "" world payload refl matching (λ offset s. refl) extracting_keeps 2 0
      before after (omega arith) refl

enrich_queried-ends_example : enrich_queried "" world payload 2 0 before ≢ (goes_on 0, after)
unfolding new
enrich_queried-ends_example =
    enrich_queried-ends "" world payload refl matching (λ offset s. refl) extracting_keeps 2 0 0
      before after (omega arith) (omega arith)
