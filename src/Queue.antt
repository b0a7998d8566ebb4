-- ===== src/Queue.antt =====
-- The job queue of internal/catalog/catalog.go: the methods of `MemoryStore` that read and write its
-- field `jobs`, and no other field. Each takes the map and returns its result with the new map; the
-- store's lock makes each of them one step. `clock` is what `time.Now().UTC()` reads, in nanoseconds.
pub mod Order
pub mod Selection
mod Identity
pub mod Ownership
pub mod Expiry
pub mod Failing
pub mod Invariant
pub mod Soundness
mod Examples
use Prim.Native.String.{compare, ◌++◌ as string_append}
use Prim.Native.Nat.{Ordering}
use cartolensia.Prelude.{
  ℕ, ◌+◌, ◌*◌, ◌/◌, ◌^◌, String, Bool, true, false, not, ◌&&◌, ◌||◌, Option, none, some, List, [],
  ◌∷◌, ◌==◌, string_eq, eqb, ltb, leb, contains, if◌then◌else◌,
}
use cartolensia.Prelude.Dict.{Dict, lookup, insert}
use cartolensia.Failure.{Failure, plain, sentinel, not_found, lease_lost, error_text, should_retry}
use cartolensia.Jobs.{Job, Result, ok, err, complete, fail, cancel, retry, request_cancel, add_log}
use cartolensia.Jobs.Lifecycle.{after}
use cartolensia.Jobs.States.{Status, queued, running, cancel_requested, status_eq}

abbrev pub JobMap : Type 0
JobMap = Dict String Job

abbrev pub Reply {ℓ} : Type ℓ → Type ℓ
Reply A = Result A × JobMap

abbrev pub second : ℕ
second = 10 ^ 9

unfoldable pub enqueue_job : Job → JobMap → Reply Job
enqueue_job job s =
    let job' = if eqb job.max_attempts 0 then record job { max_attempts = 3 } else job in
    (ok job', insert job'.id job' s)

abbrev pub known {ℓ} : {A : Type ℓ} → Option Job → (Job → Reply A) → JobMap → Reply A
known none f s = (err (sentinel not_found), s)
known (some job) f s = f job

unfoldable pub update_job : Job → JobMap → Reply (Unit {0})
update_job job s = known (lookup job.id s) (λ _. (ok tt, insert job.id job s)) s

unfoldable pub get_job : String → JobMap → Reply Job
get_job id s = known (lookup id s) (λ job. (ok job, s)) s

-- job.Status == StatusRunning || job.Status == StatusCancelRequested
abbrev pub is_leased : Status → Bool
is_leased status = status == running || status == cancel_requested

abbrev pub lease_over : ℕ → Status → Option ℕ → Bool
lease_over now status none = status == cancel_requested
lease_over now status (some t) = ltb t now

unfoldable pub is_expired : ℕ → Job → Bool
is_expired now job = is_leased job.status && lease_over now job.status job.lease_expires_at

abbrev finalized_message : Option ℕ → String
finalized_message none = "unowned cancellation request finalized"
finalized_message (some t) = "expired lease cancelled after cancellation request"

-- the part for a requested cancellation; the error of `Cancel` is dropped
unfoldable pub finalize_cancellation : ℕ → Job → Job
unfolding cancel add_log
finalize_cancellation clock job =
    let job' = after job (cancel clock job) in
    add_log clock job' "warn" (finalized_message job'.lease_expires_at)

unfoldable pub return_to_queue : ℕ → ℕ → Job → Job
unfolding add_log
return_to_queue clock now job =
    add_log clock
      (record job {
        status = queued;
        worker_id = "";
        lease_expires_at = none;
        next_run_at = some now;
        error = if job.error == "" then "job lease expired; retry queued" else job.error;
      })
      "warn" "expired lease returned to queue"

-- the body of the loop in releaseExpiredLeasesLocked
unfoldable pub release : ℕ → ℕ → Job → Job
release clock now job =
    if is_expired now job
    then (if job.status == cancel_requested
        then finalize_cancellation clock job
        else return_to_queue clock now job)
    else job

unfoldable pub release_all : ℕ → ℕ → JobMap → JobMap
release_all clock now [] = []
release_all clock now ((id, job) ∷ s) = (id, release clock now job) ∷ release_all clock now s

unfoldable pub count_expired : ℕ → JobMap → ℕ
count_expired now [] = 0
count_expired now ((id, job) ∷ s) =
    let rest = count_expired now s in if is_expired now job then rest + 1 else rest

unfoldable pub release_expired_leases : ℕ → ℕ → JobMap → Reply ℕ
release_expired_leases clock now s = (ok (count_expired now s), release_all clock now s)

unfoldable pub job_kind_allowed : String → List String → Bool
job_kind_allowed kind [] = true
job_kind_allowed kind (k ∷ kinds) = contains (k ∷ kinds) kind

abbrev pub waits_until : ℕ → Option ℕ → Bool
waits_until now none = false
waits_until now (some t) = ltb now t

unfoldable pub may_run : ℕ → List String → Job → Bool
unfolding job_kind_allowed
may_run now kinds job =
    job.status == queued && not (waits_until now job.next_run_at) && job_kind_allowed job.kind kinds

-- Go's `<` on strings
unfoldable pub string_before : String → String → Bool
string_before a b = elim (compare a b) [ Ordering.lt ↦ true | _ ↦ false ]

unfoldable pub precedes : Job → Job → Bool
unfolding string_before
precedes a b =
    ltb a.created_at b.created_at || (eqb a.created_at b.created_at && string_before a.id b.id)

abbrev prefer : Job → Option Job → Option Job
prefer job none = some job
prefer job (some best) = if precedes job best then some job else some best

-- the loop of LeaseNextJob; the second argument is `selected`
unfoldable pub select : ℕ → List String → Option Job → JobMap → Option Job
unfolding may_run precedes
select now kinds selected [] = selected
select now kinds selected ((id, job) ∷ s) =
    select now kinds (if may_run now kinds job then prefer job selected else selected) s

abbrev start_time : ℕ → Option ℕ → ℕ
start_time now none = now
start_time now (some t) = t

unfoldable pub take_lease : ℕ → String → ℕ → Job → Job
take_lease now worker duration job = record job {
  status = running;
  worker_id = worker;
  lease_expires_at = some (now + duration);
  started_at = some (start_time now job.started_at);
  attempts = job.attempts + 1;
  next_run_at = none;
  error = "";
}

abbrev lease_selected : ℕ → String → ℕ → Option Job → JobMap → Reply Job
lease_selected now worker duration none s = (err (sentinel not_found), s)
lease_selected now worker duration (some job) s =
    let job' = take_lease now worker duration job in (ok job', insert job'.id job' s)

unfoldable pub lease_next_job : ℕ → String → List String → ℕ → JobMap → Reply Job
unfolding release_all select take_lease
lease_next_job clock worker kinds duration s =
    let s' = release_all clock clock s in
    lease_selected clock worker duration (select clock kinds none s') s'

-- current.WorkerID == workerID, with a status under which a lease is held
abbrev pub holds_lease : String → Job → Bool
holds_lease worker current = current.worker_id == worker && is_leased current.status

abbrev pub guarded {ℓ} : {A : Type ℓ} → Bool → Reply A → JobMap → Reply A
guarded true r s = r
guarded false r s = (err (sentinel lease_lost), s)

unfoldable pub heartbeat_job : ℕ → String → String → ℕ → JobMap → Reply (Unit {0})
heartbeat_job clock id worker duration s =
    known (lookup id s)
      (λ job.
        guarded (holds_lease worker job)
          (ok tt, insert id (record job { lease_expires_at = some (clock + duration) }) s) s)
      s

-- a running copy cannot hide a cancellation that was asked for in the meantime
abbrev pub keep_cancellation : Job → Job → Job
keep_cancellation current job =
    if current.status == cancel_requested && job.status == running
    then record job { status = cancel_requested; cancel_requested_at = current.cancel_requested_at }
    else job

abbrev pub with_lease_of : Job → Job → Job
with_lease_of current job = record job {
  worker_id = current.worker_id;
  lease_expires_at = current.lease_expires_at;
}

unfoldable pub update_leased_job : Job → String → JobMap → Reply (Unit {0})
update_leased_job job worker s =
    known (lookup job.id s)
      (λ current.
        guarded (holds_lease worker current)
          (ok tt, insert job.id (with_lease_of current (keep_cancellation current job)) s) s)
      s

-- `if err := ...; err != nil { return err }`, and then the job is stored
abbrev pub stored : Result Job → JobMap → Reply (Unit {0})
stored (ok job) s = (ok tt, insert job.id job s)
stored (err e) s = (err e, s)

unfoldable pub complete_leased_job : ℕ → Job → String → JobMap → Reply (Unit {0})
unfolding complete
complete_leased_job clock job worker s =
    known (lookup job.id s)
      (λ current.
        guarded (current.worker_id == worker && current.status == running)
          (stored (complete clock (with_lease_of current job)) s) s)
      s

unfoldable pub retry_delay : ℕ → ℕ
retry_delay attempts =
    if eqb attempts 0 then second else if ltb 5 attempts then 5 * second else attempts * second

-- The text of a `time.Duration` of whole seconds, for the five that `retry_delay` gives.
duration_text : ℕ → String
duration_text d =
    let n = d / second in
    if eqb n 1
    then "1s"
    else if eqb n 2
    then "2s"
    else if eqb n 3
    then "3s"
    else if eqb n 4
    then "4s"
    else "5s"

retry_message : ℕ → Failure → String
unfolding duration_text error_text
retry_message delay cause =
    string_append "will retry after "
      (string_append (duration_text delay) (string_append ": " (error_text cause)))

abbrev pub cause_or_failed : Option Failure → Failure
cause_or_failed none = plain "job failed"
cause_or_failed (some e) = e

abbrev pub attempt_limit : ℕ → ℕ
attempt_limit n = if eqb n 0 then 1 else n

abbrev pub with_log : ℕ → Result Job → String → String → Result Job
with_log clock (ok job) level text = ok (add_log clock job level text)
with_log clock (err e) level text = err e

-- the test of failLeasedLocked, on the copy that the worker hands back
unfoldable pub will_retry : Job → Failure → Bool
will_retry job cause =
    ltb job.attempts (attempt_limit job.max_attempts)
    && not (job.status == cancel_requested)
    && should_retry (some cause)

unfoldable pub retried_job : ℕ → Job → Failure → Result Job
unfolding retry add_log retry_message
retried_job clock job cause =
    let delay = retry_delay job.attempts in
    with_log clock (retry clock job delay (some cause)) "warn" (retry_message delay cause)

unfoldable pub given_up_job : ℕ → Job → Failure → Result Job
unfolding fail add_log error_text
given_up_job clock job cause =
    with_log clock (fail clock job (some cause)) "error" (error_text cause)

unfoldable pub failed_job : ℕ → Job → Failure → Result Job
failed_job clock job cause =
    if will_retry job cause then retried_job clock job cause else given_up_job clock job cause

unfoldable pub fail_leased_locked : ℕ → Job → Option Failure → JobMap → Reply (Unit {0})
fail_leased_locked clock job cause s = stored (failed_job clock job (cause_or_failed cause)) s

unfoldable pub fail_leased_job : ℕ → Job → String → Option Failure → JobMap → Reply (Unit {0})
fail_leased_job clock job worker cause s =
    known (lookup job.id s)
      (λ current.
        guarded (holds_lease worker current)
          (fail_leased_locked clock (with_lease_of current job) cause s) s)
      s

unfoldable pub cancel_leased_job : ℕ → Job → String → JobMap → Reply (Unit {0})
unfolding cancel
cancel_leased_job clock job worker s =
    known (lookup job.id s)
      (λ current.
        guarded (holds_lease worker current) (stored (cancel clock (with_lease_of current job)) s)
          s)
      s

abbrev pub stored_result : String → Result Job → JobMap → Reply Job
stored_result id (ok job) s = (ok job, insert id job s)
stored_result id (err e) s = (err e, s)

unfoldable pub request_cancel_job : ℕ → String → JobMap → Reply Job
unfolding request_cancel add_log
request_cancel_job clock id s =
    known (lookup id s)
      (λ job.
        stored_result id (with_log clock (request_cancel clock job) "info" "cancellation requested")
          s)
      s
