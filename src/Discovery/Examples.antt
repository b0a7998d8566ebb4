-- ===== src/Discovery/Examples.antt =====
-- internal/discovery/discovery.go on one job, one file and one archive.
use cartolensia.Prelude.{false, none, some, [], ◌∷◌, ◌≡◌, refl, Text, string_eq}
use cartolensia.Prelude.Dict.{lookup}
use cartolensia.Texts.{bytes}
use cartolensia.Failure.{sentinel, job_canceled}
use cartolensia.Jobs.{Job, new}
use cartolensia.Jobs.States.{running, cancel_requested, canceled}
use cartolensia.Catalog.{Asset, AssetStore, discovered, update_location_hash}
use cartolensia.Storage as storage
use cartolensia.Storage.{Storages}
use cartolensia.Discovery.{Run, content, report}
use cartolensia.Discovery.Hashing.{World, hash_each}
use cartolensia.Discovery.Counting.{IsCounted, hash_each-IsCounted}
use cartolensia.Discovery.Canceling.{hash_each-cancels}
use cartolensia.Discovery.Targets.{HashPayload, validate_hash_safety, real_root}
use cartolensia.Discovery.Bounding.{IsBounded, validate_hash_safety-IsBounded}

abbrev leased : Job
leased = record (new "j1" 1 "hash" "") {
  status = running;
  worker_id = "w1";
  lease_expires_at = some 90;
  attempts = 1;
}

abbrev photo : Asset
photo = discovered 1 "a1" "l1" (record {
  storage_name = "main";
  storage_url = "fs://main/a.jpg";
  relative_path = "a.jpg";
  name = "a.jpg";
  extension = "jpg";
  mime = "image/jpeg";
  media_kind = "photo";
  size_bytes = 5;
  mtime = 1;
})

abbrev store : AssetStore
store = record {
  assets = ("a1", photo) ∷ [];
  by_url = ("fs://main/a.jpg", "a1") ∷ [];
  location_by_asset = ("a1", "l1") ∷ [];
  track_links = [];
}

abbrev run_of : Job → Run
run_of queued_job = record { job = leased; queue = ("j1", queued_job) ∷ []; assets = store }

-- every file has the same content
abbrev world : World
world = record {
  clock = λ left. 10;
  fresh = λ left. "c1";
  stopped = λ left. false;
  open_by_url = λ url. content "h" 5;
}

abbrev after : Run
after = (hash_each "w1" world (photo ∷ []) (run_of leased)).1

hash_each-IsCounted_example : IsCounted 1 (run_of leased) after
unfolding hash_each lookup new update_location_hash report
hash_each-IsCounted_example = hash_each-IsCounted "w1" world (photo ∷ []) (run_of leased) after refl

abbrev asked : Job
asked = record leased { status = cancel_requested; cancel_requested_at = some 5 }

hash_each-cancels_example :
    (let end = hash_each "w1" world (photo ∷ []) (run_of asked) in
      (end.0 ≡ some (sentinel job_canceled))
      × (end.1.assets ≡ store)
      × ((job : Job) × ((lookup "j1" end.1.queue ≡ some job) × (job.status ≡ canceled))))
unfolding lookup new
hash_each-cancels_example =
    hash_each-cancels "w1" world photo [] (run_of asked) asked (λ e. cc e) refl refl refl refl

abbrev archive : storage.Config
archive = record {
  name = bytes "raw";
  kind = bytes "fs";
  root = real_root;
  mode = [];
  source_url = [];
  smb = none;
}

abbrev registry : Storages
registry = record {
  adapters = (bytes "raw", record { name = bytes "raw"; root = real_root }) ∷ [];
  configs = (bytes "raw", archive) ∷ [];
}

abbrev no_rel : Text → Text → storage.Result Text
no_rel root path = storage.err storage.traversal

abbrev payload : HashPayload
payload = record {
  scope = [];
  asset_id = "";
  storage = bytes "raw";
  prefix = [];
  prefixes = bytes "2019/may" ∷ [];
  asset_ids = [];
  album_id = "";
  max_files = some 10;
}

validate_hash_safety-IsBounded_example : IsBounded no_rel registry payload
unfolding validate_hash_safety lookup
validate_hash_safety-IsBounded_example =
    validate_hash_safety-IsBounded no_rel (λ root. root) (archive ∷ []) registry payload refl refl
