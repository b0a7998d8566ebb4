-- ===== src/Jobs/Examples.antt =====
-- Runs of the operations of internal/jobs/jobs.go.
use cartolensia.Prelude.{ℕ, none, some, List, [], ◌∷◌, ◌≡◌, refl}
use cartolensia.Jobs.{Job, ok, no_counts, start}
use cartolensia.Jobs.States.{queued, running, succeeded}
use cartolensia.Jobs.Lifecycle.{
  Operation, starts, completes, requests_cancel, cancels, retries, retries_now, apply, after, run,
  IsConsistent,
}
use cartolensia.Jobs.Consistency.{apply-IsConsistent, run-IsConsistent}

abbrev job : Job
job = record {
  id = "j1";
  kind = "discovery";
  status = queued;
  payload = "{}";
  progress_current = 0;
  progress_total = none;
  counters = no_counts;
  attempts = 0;
  max_attempts = 3;
  worker_id = "";
  lease_expires_at = none;
  cancel_requested_at = none;
  next_run_at = none;
  created_at = 5;
  started_at = none;
  finished_at = none;
  error = "";
  logs = [];
}

abbrev started : Job
started = record job { status = running; started_at = some 7; attempts = 1 }

abbrev history : List (ℕ × Operation)
history = (7, starts) ∷ (8, requests_cancel) ∷ (9, cancels) ∷ (10, retries_now none) ∷ []

starts_job : start 7 job ≡ ok started
unfolding start
starts_job = refl

cancels_and_retries : (run job history).status ≡ queued
unfolding run
cancels_and_retries = refl

completes_job : (run job ((7, starts) ∷ (8, completes) ∷ (9, starts) ∷ [])).status ≡ succeeded
unfolding run
completes_job = refl

apply-IsConsistent_example : IsConsistent (after started (apply 8 requests_cancel started))
apply-IsConsistent_example = apply-IsConsistent 8 requests_cancel started tt

-- a worker's job, which fails for now, is started again and then cancelled
abbrev leased : Job
leased = record started { worker_id = "w1"; lease_expires_at = some 40 }

abbrev retried : List (ℕ × Operation)
retried = (9, retries 5 none) ∷ (14, starts) ∷ (15, requests_cancel) ∷ (16, cancels) ∷ []

run-IsConsistent_example : IsConsistent (run leased retried)
run-IsConsistent_example = run-IsConsistent retried leased tt
