-- ===== src/Queue/Failing.antt =====
-- What `FailLeasedJob` and `failLeasedLocked` of internal/catalog/catalog.go make of a failed run.
use Prim.Native.Nat.{max, min}
use cartolensia.Prelude.{
  ℕ, ◌+◌, ◌*◌, ◌≤◌, ◌<◌, String, true, Option, some, ◌≡◌, ◌≢◌, ◌⊎◌, inl, inr, refl, arith,
  string_eq, eq_iff, Bool-cases, ◌↔◌, ap,
}
use cartolensia.Prelude.Dict.{lookup, insert}
use cartolensia.Failure.{Failure, error_text, should_retry}
use cartolensia.Jobs.{Job, Result, ok, err}
use cartolensia.Jobs.Lifecycle.{IsUnowned}
use cartolensia.Jobs.States.{Status, queued, running, cancel_requested, failed, status_eq}
use cartolensia.Queue.Identity.{Keeps, failed_job-id}
use cartolensia.Queue.{
  JobMap, second, retry_delay, attempt_limit, failed_job, fail_leased_job, fail_leased_locked,
  stored, holds_lease, will_retry, retried_job, given_up_job, with_lease_of, cause_or_failed,
}

-- The delay before another try is one to five seconds, and never falls as the attempts grow.
pub retry_delay_bounds :
    (m n : ℕ)
    → m ≤ n
    → (second ≤ retry_delay m) × (retry_delay n ≤ 5 * second) × (retry_delay m ≤ retry_delay n)
unfolding retry_delay
retry_delay_bounds m n h = (ground arith, ground arith, ground arith)

retry_delay-max : (n : ℕ) → retry_delay n ≡ max 1 (min 5 n) * second
unfolding retry_delay
retry_delay-max n = ground arith

-- The outcome of a failed run of a job, by the copy that the worker hands back.
pub record IsRetried (clock : ℕ) (job : Job) (cause : Failure) (job' : Job) : Type 0 where
  pub status : job'.status ≡ queued
  pub due : job'.next_run_at ≡ some (clock + max 1 (min 5 job.attempts) * second)
  pub unowned : IsUnowned job'
  pub reason : job'.error ≡ error_text cause
  pub attempts : job'.attempts ≡ job.attempts

pub record IsFailed (clock : ℕ) (job : Job) (cause : Failure) (job' : Job) : Type 0 where
  pub status : job'.status ≡ failed
  pub finished : job'.finished_at ≡ some clock
  pub unowned : IsUnowned job'
  pub reason : job'.error ≡ error_text cause
  pub attempts : job'.attempts ≡ job.attempts

-- A copy that a worker may hand back: the job runs, or its cancellation was asked for.
abbrev pub IsActive : Status → Type 0
IsActive status = (status ≡ running) ⊎ (status ≡ cancel_requested)

-- The result is a job of which `P` holds.
abbrev pub Returns : (Job → Type 0) → Result Job → Type 0
Returns P (ok job) = P job
Returns P (err e) = ⊥

module _ (clock : ℕ) (job : Job) (cause : Failure) where
  retried_job-IsRetried :
      IsActive job.status → Returns (IsRetried clock job cause) (retried_job clock job cause)
  unfolding retried_job
  retried_job-IsRetried (inl h) = ground (arith, retry_delay-max job.attempts)
  retried_job-IsRetried (inr h) = ground (arith, retry_delay-max job.attempts)

  given_up_job-IsFailed :
      IsActive job.status → Returns (IsFailed clock job cause) (given_up_job clock job cause)
  unfolding given_up_job
  given_up_job-IsFailed (inl h) = ground arith
  given_up_job-IsFailed (inr h) = ground arith

-- A job is tried again exactly if attempts are left, its copy does not say that its cancellation was
-- asked for, and the error allows it.
pub will_retry_iff :
    (job : Job) (cause : Failure)
    → (will_retry job cause ≡ true) ↔ (
        (job.attempts < attempt_limit job.max_attempts)
        × (job.status ≢ cancel_requested)
        × (should_retry (some cause) ≡ true))
unfolding will_retry
will_retry_iff job cause = ground arith

Returns-cases :
    (P : Job → Type 0) (r : Result Job) → Returns P r → (job : Job) × (r ≡ ok job) × P job
Returns-cases P (ok job) h = (job, refl, h)
Returns-cases P (err e) h = absurd h

-- Attempts are left: fewer than the limit were made, or none where the limit is not set.
abbrev pub HasAttempts : Job → Type 0
HasAttempts job = (job.attempts < job.max_attempts) ⊎ ((job.max_attempts ≡ 0) × (job.attempts ≡ 0))

-- Attempts are left, the copy does not say that the cancellation was asked for, and the error is one that
-- is tried again.
abbrev pub MayRetry : Job → Failure → Type 0
MayRetry job cause =
    HasAttempts job × (job.status ≢ cancel_requested) × (should_retry (some cause) ≡ true)

attempts_left : (m n : ℕ) → (m < attempt_limit n) ↔ ((m < n) ⊎ ((n ≡ 0) × (m ≡ 0)))
attempts_left m n = ground arith

will_retry-MayRetry :
    (job : Job) (cause : Failure) → will_retry job cause ≡ true → MayRetry job cause
will_retry-MayRetry job cause h =
    let (left, running_, again) = (will_retry_iff job cause).0 h in
    ((attempts_left job.attempts job.max_attempts).0 left, running_, again)

MayRetry-will_retry :
    (job : Job) (cause : Failure) → MayRetry job cause → will_retry job cause ≡ true
MayRetry-will_retry job cause (left, running_, again) =
    (will_retry_iff job cause).1
      ((attempts_left job.attempts job.max_attempts).1 left, running_, again)

-- What the outcome of a failed run is.
abbrev pub Outcome : ℕ → Job → Failure → Job → Type 0
Outcome clock job cause job' =
    (MayRetry job cause × IsRetried clock job cause job')
    ⊎ ((¬ MayRetry job cause) × IsFailed clock job cause job')

pub failed_job-Outcome :
    (clock : ℕ) (job : Job) (cause : Failure)
    → IsActive job.status
    → (job' : Job) × (failed_job clock job cause ≡ ok job') × Outcome clock job cause job'
unfolding failed_job
failed_job-Outcome clock job cause active = elim (Bool-cases (will_retry job cause)) [
  | inl again ↦
      let (job', e, o) =
        Returns-cases (IsRetried clock job cause) (retried_job clock job cause)
          (retried_job-IsRetried clock job cause active) in
      (job', rw again e, inl (will_retry-MayRetry job cause again, o))
  | inr over ↦
      let (job', e, o) =
        Returns-cases (IsFailed clock job cause) (given_up_job clock job cause)
          (given_up_job-IsFailed clock job cause active) in
      (job', rw over e, inr ((λ may. cc (over, MayRetry-will_retry job cause may)), o))
]

retried :
    {clock : ℕ} (job : Job) (cause : Failure) (job' : Job)
    → Outcome clock job cause job'
    → MayRetry job cause
    → job'.status ≡ queued
retried job cause job' (inl (may, o)) h = o.status
retried job cause job' (inr (never, o)) h = absurd (never h)

stored_ok :
    (id : String) (r : Result Job) (job : Job) (s : JobMap)
    → r ≡ ok job
    → Keeps id r
    → stored r s ≡ (ok tt, insert id job s)
stored_ok id (ok j) job s e k = rw (← k) (ap (λ (x : Job). (ok tt, insert j.id x s)) (cc))
stored_ok id (err f) job s e k = cc

module _ (clock : ℕ) (worker : String) (cause : Option Failure) (s : JobMap)
    (current job : Job) where
  -- The failure that a worker reports for a job under its lease, with a copy that says that the job runs or
  -- that its cancellation was asked for, is recorded. If the copy has attempts left and does not say that
  -- the cancellation was asked for, and the error is one that is tried again, the stored job waits for
  -- its next try after as many seconds as there were attempts, but at least one and at most five; else
  -- it has failed for good. It has the error's text, no owner, no lease and the attempts of the copy.
  pub fail_leased_job-Outcome :
      lookup job.id s ≡ some current
      → holds_lease worker current ≡ true
      → IsActive job.status
      → (job' : Job) × (fail_leased_job clock job worker cause s ≡ (ok tt, insert job.id job' s))
        × Outcome clock (with_lease_of current job) (cause_or_failed cause) job'
  unfolding fail_leased_job fail_leased_locked
  fail_leased_job-Outcome found held active =
      let copy : Job = with_lease_of current job in
      let e : Failure = cause_or_failed cause in
      let (job', made, o) = failed_job-Outcome clock copy e active in
      (
        job',
        rw (found, held)
            (stored_ok job.id (failed_job clock copy e) job' s made (failed_job-id clock copy e)),
        o,
      )

  -- A cancellation that was asked for is lost if the worker, whose copy still says that the job runs,
  -- reports an error that is tried again while attempts are left: the job goes back to the queue.
  pub fail_leased_job_loses_cancellation :
      lookup job.id s ≡ some current
      → current.worker_id ≡ worker
      → current.status ≡ cancel_requested
      → job.status ≡ running
      → job.attempts < attempt_limit job.max_attempts
      → should_retry (some (cause_or_failed cause)) ≡ true
      → (job' : Job) × (fail_leased_job clock job worker cause s ≡ (ok tt, insert job.id job' s))
        × (job'.status ≡ queued)
  fail_leased_job_loses_cancellation found mine asked runs left again =
      let (job', e, o) =
        fail_leased_job-Outcome found (ground (arith, eq_iff current.worker_id worker))
          (inl runs) in
      let copy : Job = with_lease_of current job in
      (
        job',
        e,
        retried copy (cause_or_failed cause) job' o
            ((attempts_left job.attempts job.max_attempts).0 left, (λ p. cc), again),
      )
