-- ===== src/Discovery.antt =====
-- internal/discovery/discovery.go: the runner of hash jobs, which joins the job queue, the catalog and the
-- storages. Opening and reading a file is the operating system's part and a parameter.
pub mod Targets
pub mod Bounding
pub mod Hashing
pub mod Counting
pub mod Canceling
mod Examples
use Prim.Native.String.{◌++◌ as string_append}
use cartolensia.Prelude.{
  ℕ, ◌+◌, String, Bool, true, false, not, ◌||◌, Option, none, some, List, [], ◌∷◌, ◌==◌, string_eq,
  length, is_none, if◌then◌else◌,
}
use cartolensia.Failure.{
  Failure, plain, sentinel, job_canceled, context_canceled, not_found, classified, permanent,
  error_text,
}
use cartolensia.Jobs.{Job, Result, ok, err, complete, fail, cancel, add_log}
use cartolensia.Jobs.States.{Status, cancel_requested, canceled, status_eq}
use cartolensia.Queue.{
  JobMap, Reply, update_job, get_job, update_leased_job, complete_leased_job, fail_leased_job,
  cancel_leased_job,
}
use cartolensia.Catalog as catalog
use cartolensia.Catalog.{Asset, AssetStore, Location, update_location_hash}

-- What the runner works on: its copy of the job and the two parts of the store.
pub record Run : Type 0 where
  pub job : Job
  pub queue : JobMap
  pub assets : AssetStore

-- `none` is a nil error
abbrev pub Outcome : Type 0
Outcome = Option Failure

-- what is left of the store by a call that gives an error or nothing
abbrev pub error_of {ℓ} : {A : Type ℓ} → Result A → Outcome
error_of (ok a) = none
error_of (err e) = some e

abbrev stored_after : Result Job → JobMap → Reply (Unit {0})
stored_after (err e) s = (err e, s)
stored_after (ok job) s = update_job job s

-- updateJob
unfoldable pub report : String → Job → JobMap → Reply (Unit {0})
unfolding update_leased_job update_job
report worker_id job s =
    if not (worker_id == "") then update_leased_job job worker_id s else update_job job s

abbrev pub or_canceled : Reply (Unit {0}) → Job → AssetStore → Outcome × Run
or_canceled (err e, s) job assets = (some e, record { job = job; queue = s; assets = assets })
or_canceled (ok x, s) job assets =
    (some (sentinel job_canceled), record { job = job; queue = s; assets = assets })

-- the job that jobs.Cancel leaves, which is the given one after an error
abbrev canceled_or : Job → Result Job → Job
canceled_or job (ok other) = other
canceled_or job (err e) = job

-- whether the job in the queue asks the runner to stop
abbrev pub asks_to_stop : Job → Bool
asks_to_stop latest =
    latest.status == cancel_requested
    || latest.status == canceled
    || not (is_none latest.cancel_requested_at)

abbrev job_of : Result Job → Option Job
job_of (ok job) = some job
job_of (err e) = none

module _ (worker_id : String) (now : ℕ) where
  -- completeJob
  unfoldable pub complete_run : Job → JobMap → Reply (Unit {0})
  unfolding complete_leased_job update_job
  complete_run job s =
      if not (worker_id == "")
      then complete_leased_job now job worker_id s
      else stored_after (complete now job) s

  -- failJob
  unfoldable pub fail_run : Job → Failure → JobMap → Reply (Unit {0})
  unfolding fail_leased_job update_job
  fail_run job cause s =
      if not (worker_id == "")
      then fail_leased_job now job worker_id (some cause) s
      else stored_after (fail now job (some cause)) s

  -- cancelJob
  unfoldable pub cancel_run : Run → Outcome × Run
  unfolding cancel_leased_job update_job add_log
  cancel_run r =
      let job = add_log now r.job "info" "job canceled" in
      if not (worker_id == "")
      then or_canceled (cancel_leased_job now job worker_id r.queue) job r.assets
      else or_canceled (stored_after (cancel now job) r.queue) (canceled_or job (cancel now job))
          r.assets

  abbrev pub stop_or : Option Job → Run → Outcome × Run
  stop_or none r = (none, r)
  stop_or (some latest) r =
      if asks_to_stop latest
      then cancel_run (record r {
        job = record r.job {
          status = latest.status;
          cancel_requested_at = latest.cancel_requested_at;
        };
      })
      else (none, r)

  -- checkCanceled; the only error of GetJob is ErrNotFound, which it passes over
  unfoldable pub check_canceled : Bool → Run → Outcome × Run
  unfolding get_job cancel_run
  check_canceled stopped r =
      if stopped
      then (some (sentinel context_canceled), r)
      else stop_or (job_of (get_job r.job.id r.queue).0) r

-- What opening, reading and closing the file of a location comes to; a refusal is an error of opening, with
-- isStorageSafetyError of it.
pub data Reading : Type 0 where
  refused : Failure → Bool → Reading
  broken : Failure → Reading
  content : String → ℕ → Reading

-- job.Counters.Errors++ and the log line
abbrev pub count_error : ℕ → String → String → Job → Job
count_error now url text job =
    add_log now (record job { counters = record job.counters { errors = job.counters.errors + 1 } })
      "error" (string_append url (string_append ": " text))

abbrev pub count_hashed : ℕ → Job → Job
count_hashed bytes job = record job {
  counters = record job.counters {
    hashed = job.counters.hashed + 1;
    bytes = job.counters.bytes + bytes;
  };
  progress_current = job.progress_current + 1;
}

-- catalog.FirstLocation
abbrev pub first_url : List Location → String
first_url [] = ""
first_url (loc ∷ locs) = loc.storage_url
