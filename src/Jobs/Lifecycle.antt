-- ===== src/Jobs/Lifecycle.antt =====
-- What a sequence of the operations of internal/jobs/jobs.go does to one job.
use cartolensia.Prelude.{ℕ, String, false, Option, none, List, [], ◌∷◌, ◌≡◌, is_none}
use cartolensia.Failure.{Failure}
use cartolensia.Jobs.{
  Job, Result, ok, err, start, complete, fail, request_cancel, cancel, retry, retry_now, add_log,
}
use cartolensia.Jobs.States.{
  Status, queued, running, cancel_requested, succeeded, failed, canceled, other,
}

-- The exported operations on a job, with their arguments.
pub data Operation : Type 0 where
  starts completes requests_cancel cancels : Operation
  fails : Option Failure → Operation
  retries : ℕ → Option Failure → Operation
  retries_now : Option Failure → Operation
  logs : String → String → Operation

unfoldable pub apply : ℕ → Operation → Job → Result Job
unfolding start complete fail request_cancel cancel retry retry_now add_log
apply now starts job = start now job
apply now completes job = complete now job
apply now requests_cancel job = request_cancel now job
apply now cancels job = cancel now job
apply now (fails cause) job = fail now job cause
apply now (retries delay cause) job = retry now job delay cause
apply now (retries_now cause) job = retry_now now job cause
apply now (logs level message) job = ok (add_log now job level message)

-- The caller keeps the job as it was when an operation is refused.
abbrev pub after : Job → Result Job → Job
after job (ok changed) = changed
after job (err e) = job

-- A history is a list of operations with their times.
unfoldable pub run : Job → List (ℕ × Operation) → Job
unfolding apply
run job [] = job
run job ((now, op) ∷ rest) = run (after job (apply now op job)) rest

-- No worker holds the job, and it has no lease.
abbrev pub IsUnowned : Job → Type 0
IsUnowned job = (job.worker_id ≡ "") × (job.lease_expires_at ≡ none)

-- What the status promises about the other fields.
abbrev pub Promise : Status → Job → Type 0
Promise queued job = IsUnowned job
Promise running job = Unit {0}
Promise cancel_requested job = is_none job.cancel_requested_at ≡ false
Promise succeeded job = IsUnowned job × (is_none job.finished_at ≡ false)
Promise failed job = IsUnowned job × (is_none job.finished_at ≡ false)
Promise canceled job =
    IsUnowned job × (is_none job.finished_at ≡ false) × (is_none job.cancel_requested_at ≡ false)
Promise (other s) job = Unit {0}

abbrev pub IsConsistent : Job → Type 0
IsConsistent job = Promise job.status job
