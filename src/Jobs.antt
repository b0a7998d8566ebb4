-- ===== src/Jobs.antt =====
-- internal/jobs/jobs.go: the record of a background job and the operations on it. A pointer method
-- takes the job and returns the new job; on an error the job is as it was. `time.Now().UTC()` is the
-- argument `now`, in nanoseconds. The counts and times are natural numbers: none of these operations
-- makes a negative one.
pub mod States
pub mod Lifecycle
pub mod Logs
pub mod Consistency
mod Examples
use Prim.Native.String.{◌++◌ as string_append}
use cartolensia.Prelude.{
  ℕ, ◌+◌, ◌-◌, String, Bool, Option, none, some, List, [], ◌∷◌, ◌++◌, ◌==◌, ltb, is_none, length,
  drop, if◌then◌else◌,
}
use cartolensia.Failure.{Failure, plain, error_text}
use cartolensia.Jobs.States.{
  Status, queued, running, cancel_requested, succeeded, failed, canceled, other, status_eq,
  transition,
}

pub record Counters : Type 0 where
  pub scanned : ℕ
  pub created : ℕ
  pub updated : ℕ
  pub hashed : ℕ
  pub bytes : ℕ
  pub errors : ℕ
  pub folders_queued : ℕ
  pub folders_scanned : ℕ
  pub files_seen : ℕ
  pub files_returned : ℕ
  pub files_skipped : ℕ

abbrev pub no_counts : Counters
no_counts = record {
  scanned = 0;
  created = 0;
  updated = 0;
  hashed = 0;
  bytes = 0;
  errors = 0;
  folders_queued = 0;
  folders_scanned = 0;
  files_seen = 0;
  files_returned = 0;
  files_skipped = 0;
}

pub record LogLine : Type 0 where
  pub id : ℕ
  pub level : String
  pub message : String
  pub created_at : ℕ

-- `payload` is the JSON text of the payload; a nil pointer to a time is `none`.
pub record Job : Type 0 where
  pub id : String
  pub kind : String
  pub status : Status
  pub payload : String
  pub progress_current : ℕ
  pub progress_total : Option ℕ
  pub counters : Counters
  pub attempts : ℕ
  pub max_attempts : ℕ
  pub worker_id : String
  pub lease_expires_at : Option ℕ
  pub cancel_requested_at : Option ℕ
  pub next_run_at : Option ℕ
  pub created_at : ℕ
  pub started_at : Option ℕ
  pub finished_at : Option ℕ
  pub error : String
  pub logs : List LogLine

pub data Result {ℓ} (A : Type ℓ) : Type ℓ where
  ok : A → Result A
  err : Failure → Result A

-- `if err := Transition(...); err != nil { return err }`
abbrev pub unless_failed {ℓ} : {A : Type ℓ} → Option Failure → A → Result A
unless_failed none a = ok a
unless_failed (some e) a = err e

-- New, with the identifier that the random source gives
unfoldable pub new : String → ℕ → String → String → Job
new fresh_id now kind payload = record {
  id = fresh_id;
  kind = kind;
  status = queued;
  payload = payload;
  progress_current = 0;
  progress_total = none;
  counters = no_counts;
  attempts = 0;
  max_attempts = 3;
  worker_id = "";
  lease_expires_at = none;
  cancel_requested_at = none;
  next_run_at = none;
  created_at = now;
  started_at = none;
  finished_at = none;
  error = "";
  logs = [];
}

abbrev pub set_if_nil : ℕ → Option ℕ → Option ℕ
set_if_nil now none = some now
set_if_nil now (some t) = some t

unfoldable pub start : ℕ → Job → Result Job
unfolding transition
start now job =
    if job.status == running
    then ok (record job { started_at = set_if_nil now job.started_at })
    else unless_failed (transition job.status running) (record job {
      status = running;
      started_at = some now;
      attempts = job.attempts + 1;
      error = "";
    })

unfoldable pub complete : ℕ → Job → Result Job
unfolding transition
complete now job = unless_failed (transition job.status succeeded) (record job {
  status = succeeded;
  finished_at = some now;
  worker_id = "";
  lease_expires_at = none;
})

unfoldable pub fail : ℕ → Job → Option Failure → Result Job
unfolding transition error_text
fail now job none = err (plain "job failure cause is required")
fail now job (some cause) = unless_failed (transition job.status failed) (record job {
  status = failed;
  finished_at = some now;
  error = error_text cause;
  worker_id = "";
  lease_expires_at = none;
})

-- the switch of RequestCancel; an unknown status falls to its default
abbrev request_cancel_from : Status → ℕ → Job → Result Job
request_cancel_from queued now job =
    ok (record job { status = canceled; cancel_requested_at = some now; finished_at = some now })
request_cancel_from running now job =
    ok (record job { status = cancel_requested; cancel_requested_at = some now })
request_cancel_from cancel_requested now job =
    ok (record job { cancel_requested_at = set_if_nil now job.cancel_requested_at })
request_cancel_from canceled now job =
    ok (record job { cancel_requested_at = set_if_nil now job.cancel_requested_at })
request_cancel_from succeeded now job = ok job
request_cancel_from failed now job = ok job
request_cancel_from (other s) now job =
    err (plain (string_append "invalid job status \"" (string_append s "\"")))

unfoldable pub request_cancel : ℕ → Job → Result Job
request_cancel now job = request_cancel_from job.status now job

unfoldable pub cancel : ℕ → Job → Result Job
unfolding transition
cancel now job =
    if job.status == canceled
    then ok job
    else unless_failed (transition job.status canceled) (record job {
      status = canceled;
      cancel_requested_at = set_if_nil now job.cancel_requested_at;
      finished_at = some now;
      worker_id = "";
      lease_expires_at = none;
    })

unfoldable pub retry : ℕ → Job → ℕ → Option Failure → Result Job
unfolding transition error_text
retry now job delay none = err (plain "job retry cause is required")
retry now job delay (some cause) = unless_failed (transition job.status queued) (record job {
  status = queued;
  next_run_at = some (now + delay);
  worker_id = "";
  lease_expires_at = none;
  error = error_text cause;
})

abbrev pub log_limit : ℕ
log_limit = 200

abbrev pub trim_logs : List LogLine → List LogLine
trim_logs logs = if ltb log_limit (length logs) then drop (length logs - log_limit) logs else logs

unfoldable pub add_log : ℕ → Job → String → String → Job
add_log now job level message =
    let line : LogLine = record { id = 0; level = level; message = message; created_at = now } in
    record job { logs = trim_logs (job.logs ++ line ∷ []) }

abbrev cause_or_manual : Option Failure → Failure
cause_or_manual none = plain "manual retry requested"
cause_or_manual (some e) = e

unfoldable pub retry_now : ℕ → Job → Option Failure → Result Job
unfolding transition error_text add_log
retry_now now job given =
    let cause = cause_or_manual given in
    unless_failed (transition job.status queued) (
      add_log now
        (record job {
          status = queued;
          next_run_at = none;
          worker_id = "";
          lease_expires_at = none;
          finished_at = none;
          cancel_requested_at = none;
          error = error_text cause;
        })
        "info" (error_text cause))
