-- ===== src/Discovery/Canceling.antt =====
-- internal/discovery/discovery.go: a hash job whose cancellation is requested.
use cartolensia.Prelude.{
  ℕ, String, true, false, none, some, List, ◌∷◌, ◌≡◌, ◌≢◌, refl, length, string_eq, same_ne,
}
use cartolensia.Prelude.Dict.{lookup, insert, lookup-insert_self}
use cartolensia.Failure.{sentinel, job_canceled}
use cartolensia.Jobs as jobs
use cartolensia.Jobs.{Job, set_if_nil, cancel, add_log}
use cartolensia.Jobs.States.{cancel_requested, canceled, status_eq}
use cartolensia.Queue.{JobMap, get_job, holds_lease, cancel_leased_job, with_lease_of}
use cartolensia.Catalog.{Asset}
use cartolensia.Discovery.{Run, cancel_run, check_canceled, asks_to_stop}
use cartolensia.Discovery.Hashing.{World, hash_each}

-- The runner's copy of the job when it learns of the request.
abbrev told : Job → Job → Job
told latest job = record job {
  status = latest.status;
  cancel_requested_at = latest.cancel_requested_at;
}

-- the job that the cancellation of a job with a request leaves
abbrev ended : ℕ → Job → Job
ended now job = record job {
  status = canceled;
  cancel_requested_at = set_if_nil now job.cancel_requested_at;
  finished_at = some now;
  worker_id = "";
  lease_expires_at = none;
}

cancel-ended :
    (now : ℕ) (job : Job) → job.status ≡ cancel_requested → cancel now job ≡ jobs.ok (ended now job)
unfolding cancel
cancel-ended now job h = simp h refl

cancel_leased_job-ended :
    (now : ℕ) (job current : Job) (worker_id : String) (s : JobMap)
    → lookup job.id s ≡ some current
    → holds_lease worker_id current ≡ true
    → job.status ≡ cancel_requested
    → cancel_leased_job now job worker_id s
      ≡ (jobs.ok tt, insert job.id (ended now (with_lease_of current job)) s)
unfolding cancel_leased_job
cancel_leased_job-ended now job current worker_id s found holds asked =
    rw (found, holds, cancel-ended now (with_lease_of current job) asked) refl

cancel_run-ended :
    (worker_id : String) (now : ℕ) (r : Run) (current : Job)
    → worker_id ≢ ""
    → lookup r.job.id r.queue ≡ some current
    → holds_lease worker_id current ≡ true
    → r.job.status ≡ cancel_requested
    → (let job = add_log now r.job "info" "job canceled" in
        cancel_run worker_id now r ≡ (
          some (sentinel job_canceled),
          record {
            job = job;
            queue = insert r.job.id (ended now (with_lease_of current job)) r.queue;
            assets = r.assets;
          },
        ))
unfolding cancel_run add_log
cancel_run-ended worker_id now r current named found holds asked =
    let job : Job = add_log now r.job "info" "job canceled" in
    rw
      (
        same_ne worker_id "" named,
        cancel_leased_job-ended now job current worker_id r.queue found holds asked,
      )
      refl

asks : (current : Job) → current.status ≡ cancel_requested → asks_to_stop current ≡ true
asks current h = simp h refl

check_canceled-ended :
    (worker_id : String) (now : ℕ) (r : Run) (current : Job)
    → worker_id ≢ ""
    → lookup r.job.id r.queue ≡ some current
    → holds_lease worker_id current ≡ true
    → current.status ≡ cancel_requested
    → (let job = add_log now (told current r.job) "info" "job canceled" in
        check_canceled worker_id now false r ≡ (
          some (sentinel job_canceled),
          record {
            job = job;
            queue = insert r.job.id (ended now (with_lease_of current job)) r.queue;
            assets = r.assets;
          },
        ))
unfolding check_canceled get_job
check_canceled-ended worker_id now r current named found holds asked =
    rw (found, asks current asked)
      (cancel_run-ended worker_id now (record r { job = told current r.job }) current named found
        holds asked)

-- A hash job that still has targets, whose worker holds the lease and whose cancellation is requested in the queue,
-- ends with the cancellation before the next file is opened: the catalog stays as it is and the job in the
-- queue is canceled.
pub hash_each-cancels :
    (worker_id : String) (world : World) (asset : Asset) (targets : List Asset) (r : Run)
    (current : Job)
    → worker_id ≢ ""
    → lookup r.job.id r.queue ≡ some current
    → current.status ≡ cancel_requested
    → holds_lease worker_id current ≡ true
    → world.stopped (length targets) ≡ false
    → (let end = hash_each worker_id world (asset ∷ targets) r in
        (end.0 ≡ some (sentinel job_canceled))
        × (end.1.assets ≡ r.assets)
        × ((job : Job) × ((lookup r.job.id end.1.queue ≡ some job) × (job.status ≡ canceled))))
unfolding hash_each
hash_each-cancels worker_id world asset targets r current named found asked holds goes =
    let now : ℕ = world.clock (length targets) in
    let job : Job = add_log now (told current r.job) "info" "job canceled" in
    rw
      (
        goes,
        check_canceled-ended worker_id (world.clock (length targets)) r current named found holds
            asked,
      )
      (
        refl,
        refl,
        (
          ended now (with_lease_of current job),
          (lookup-insert_self r.job.id (ended now (with_lease_of current job)) r.queue, refl),
        ),
      )
