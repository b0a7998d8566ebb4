-- ===== src/Enrichment.antt =====
-- internal/metadata/metadata.go: the runner of metadata jobs, on the job queue and the catalog. What reading
-- a file and storing its metadata comes to is a parameter, as are `QueryAssets` of the store, whose SQL
-- or in-memory filter is another component's, and `strings.TrimSpace` on identifiers.
pub mod Scopes
pub mod Loops
mod Counting
mod Matching
mod Resuming
mod Examples
use Prim.Native.String.{◌++◌ as string_append}
use cartolensia.Prelude.{ℕ, ◌+◌, String, Bool, Option, none, some, List, Text, if◌then◌else◌}
use cartolensia.Failure.{Failure, plain, sentinel, not_found, error_text, context_canceled}
use cartolensia.Jobs as jobs
use cartolensia.Jobs.{Job, add_log}
use cartolensia.Queue.{get_job}
use cartolensia.Catalog.{Asset, Location, AssetStore}
use cartolensia.Discovery.{Run, Outcome, cancel_run, asks_to_stop}

pub record Payload : Type 0 where
  pub asset_ids : List String
  pub storage : String
  pub prefixes : List Text
  pub media_kind : String
  pub only_missing : Bool
  pub max_files : ℕ
  pub include_video : Bool
  pub include_images : Bool
  pub include_tracks : Bool
  pub include_audio : Bool
  pub include_documents : Bool

-- Which of the functions reads a file: those of images, videos, audio, documents, or tracks of a format.
pub data Extractor : Type 0 where
  image video audio document gpx kml kmz : Extractor

-- A page of QueryAssets.
pub record Page : Type 0 where
  pub assets : List Asset
  pub offset : ℕ
  pub total : ℕ

pub data Queried : Type 0 where
  page : Page → Queried
  query_failed : Failure → Queried

-- The world of a run: the clock and whether the context is done, by the progress of the job; what an
-- extractor comes to; and a page of the assets that match the payload, from an offset on.
pub record World : Type 0 where
  pub clock : ℕ → ℕ
  pub stopped : ℕ → Bool
  pub extract : Extractor → Asset → Location → AssetStore → Outcome × AssetStore
  pub query_assets : ℕ → AssetStore → Queried
  pub trim : String → String

abbrev pub count_failed : ℕ → String → Job → Job
count_failed now message job =
    add_log now (record job { counters = record job.counters { errors = job.counters.errors + 1 } })
      "warn" message

abbrev pub count_updated : Job → Job
count_updated job = record job {
  counters = record job.counters { updated = job.counters.updated + 1 };
}

abbrev pub count_scanned : Job → Job
count_scanned job = record job {
  counters = record job.counters { scanned = job.counters.scanned + 1 };
}

abbrev pub count_skipped : Job → Job
count_skipped job = record job {
  counters = record job.counters { files_skipped = job.counters.files_skipped + 1 };
  progress_current = job.progress_current + 1;
}

abbrev pub move_on : Job → Job
move_on job = record job { progress_current = job.progress_current + 1 }

abbrev pub job_of : jobs.Result Job → Option Job
job_of (jobs.ok job) = some job
job_of (jobs.err e) = none

module _ (worker_id : String) (now : ℕ) where
  abbrev pub stop_or : Option Job → Run → Outcome × Run
  stop_or none r = (none, r)
  stop_or (some latest) r = if asks_to_stop latest then cancel_run worker_id now r else (none, r)

  -- checkCanceled, which leaves the status of the runner's copy as it is
  unfoldable pub check_enrichment : Bool → Run → Outcome × Run
  unfolding get_job cancel_run
  check_enrichment stopped r =
      if stopped
      then (some (sentinel context_canceled), r)
      else stop_or (job_of (get_job r.job.id r.queue).0) r
