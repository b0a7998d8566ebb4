-- ===== src/Queue/Identity.antt =====
-- No operation changes the identifier of a job, so a job stays under its key.
use cartolensia.Prelude.{ℕ, String, some, ◌≡◌, ◌≢◌, refl, arith, string_eq}
use cartolensia.Prelude.Dict.{lookup, lookup-insert_ne}
use cartolensia.Failure.{Failure}
use cartolensia.Jobs.{Job, Result, ok, err, complete, fail, cancel, retry}
use cartolensia.Queue.{JobMap, failed_job, retried_job, given_up_job, stored}

-- A result that has the identifier, if it is a job.
abbrev pub Keeps : String → Result Job → Type 0
Keeps id (ok job) = job.id ≡ id
Keeps id (err e) = Unit {0}

module _ (now : ℕ) (job : Job) where
  pub complete-id : Keeps job.id (complete now job)
  unfolding complete
  complete-id = ground arith

  pub cancel-id : Keeps job.id (cancel now job)
  unfolding cancel
  cancel-id = ground arith

  pub fail-id : (cause : Failure) → Keeps job.id (fail now job (some cause))
  unfolding fail
  fail-id cause = ground arith

  pub retry-id : (delay : ℕ) (cause : Failure) → Keeps job.id (retry now job delay (some cause))
  unfolding retry
  retry-id delay cause = ground arith

  pub failed_job-id : (cause : Failure) → Keeps job.id (failed_job now job cause)
  unfolding failed_job retried_job given_up_job
  failed_job-id cause = ground arith

pub lookup-stored :
    (id j : String) (r : Result Job) (s : JobMap)
    → Keeps id r
    → j ≢ id
    → lookup j (stored r s).1 ≡ lookup j s
lookup-stored id j (ok job) s k h = lookup-insert_ne job s (rw (← k) at h)
lookup-stored id j (err e) s k h = refl
