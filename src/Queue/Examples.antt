-- ===== src/Queue/Examples.antt =====
-- Runs of the job queue of internal/catalog/catalog.go.
use cartolensia.Prelude.{
  ℕ, true, Option, none, some, List, [], ◌∷◌, ◌≡◌, inl, refl, string_eq, eq_iff, All,
}
use cartolensia.Prelude.Dict.{lookup, insert}
use cartolensia.Failure.{Failure, plain, sentinel, lease_lost, not_found, should_retry}
use cartolensia.Jobs.{Job, ok, err, no_counts}
use cartolensia.Jobs.States.{queued, running, cancel_requested}
use cartolensia.Queue.{
  JobMap, take_lease, lease_next_job, release_all, release, fail_leased_job, cause_or_failed,
  with_lease_of, is_expired,
}
use cartolensia.Queue.Selection.{IsNext, IsDue, lease_next_job-IsNext, lease_next_job-NoneRuns}
use cartolensia.Queue.Ownership.{heartbeats, fails, call, call-lease_next_job}
use cartolensia.Queue.Expiry.{Released, release-Released}
use cartolensia.Queue.Failing.{Outcome, fail_leased_job-Outcome}
use cartolensia.Queue.Invariant.{
  IsSound, Request, replaces, leases, calls, releases, requests_cancel, serve, handle,
}
use cartolensia.Queue.Soundness.{handle-IsSound, serve-IsSound}

abbrev waiting : Job
waiting = record {
  id = "j1";
  kind = "discovery";
  status = queued;
  payload = "{}";
  progress_current = 0;
  progress_total = none;
  counters = no_counts;
  attempts = 0;
  max_attempts = 3;
  worker_id = "";
  lease_expires_at = none;
  cancel_requested_at = none;
  next_run_at = none;
  created_at = 5;
  started_at = none;
  finished_at = none;
  error = "";
  logs = [];
}

-- leased by worker w1 at time 10 for 30
abbrev leased : Job
leased = record waiting {
  status = running;
  worker_id = "w1";
  lease_expires_at = some 40;
  started_at = some 10;
  attempts = 1;
}

-- its cancellation was asked for at time 12
abbrev canceling : Job
canceling = record leased { status = cancel_requested; cancel_requested_at = some 12 }

abbrev older : Job
older = record waiting { id = "j0"; created_at = 4 }

abbrev queue : JobMap
queue = ("j1", waiting) ∷ ("j0", older) ∷ []

abbrev old_leased : Job
old_leased = record older {
  status = running;
  worker_id = "w1";
  lease_expires_at = some 40;
  started_at = some 10;
  attempts = 1;
}

hands_out_oldest :
    lease_next_job 10 "w1" [] 30 queue ≡ (ok old_leased, ("j1", waiting) ∷ ("j0", old_leased) ∷ [])
unfolding lease_next_job release_all release is_expired insert
hands_out_oldest = refl

nothing_runs : lease_next_job 10 "w1" ("hash" ∷ []) 30 queue ≡ (err (sentinel not_found), queue)
unfolding lease_next_job release_all release is_expired
nothing_runs = refl

lease_next_job-NoneRuns_example :
    All (λ e. ¬ IsDue 10 ("hash" ∷ []) e.1) (release_all 10 10 queue)
    × (sentinel not_found ≡ sentinel not_found)
    × (queue ≡ release_all 10 10 queue)
lease_next_job-NoneRuns_example =
    lease_next_job-NoneRuns 10 "w1" ("hash" ∷ []) 30 queue nothing_runs

lease_next_job-IsNext_example :
    (best : Job) × IsNext 10 [] (release_all 10 10 queue) best
    × (old_leased ≡ take_lease 10 "w1" 30 best)
    × ((("j1", waiting) ∷ ("j0", old_leased) ∷ [])
        ≡ insert "j0" old_leased (release_all 10 10 queue))
lease_next_job-IsNext_example = lease_next_job-IsNext 10 "w1" [] 30 queue hands_out_oldest

abbrev one : JobMap
one = ("j1", leased) ∷ []

found_leased : lookup "j1" one ≡ some leased
unfolding lookup
found_leased = refl

call-lease_next_job_example :
    call 50 "w2" (heartbeats "j0" 30) (("j1", waiting) ∷ ("j0", old_leased) ∷ [])
    ≡ (err (sentinel lease_lost), ("j1", waiting) ∷ ("j0", old_leased) ∷ [])
call-lease_next_job_example =
    call-lease_next_job 10 50 "w1" "w2" [] 30 queue (heartbeats "j0" 30) hands_out_oldest refl
      (λ e. cc ((eq_iff "w2" "w1").1 e))

release-Released_example : Released 50 50 leased (release 50 50 leased)
release-Released_example = release-Released 50 50 leased

abbrev disk_error : Option Failure
disk_error = some (plain "disk is gone")

fail_leased_job-Outcome_example :
    (job' : Job) × (fail_leased_job 20 leased "w1" disk_error one ≡ (ok tt, insert "j1" job' one))
    × Outcome 20 (with_lease_of leased leased) (cause_or_failed disk_error) job'
fail_leased_job-Outcome_example =
    fail_leased_job-Outcome 20 "w1" disk_error one leased leased found_leased refl (inl refl)

abbrev one_canceling : JobMap
one_canceling = ("j1", canceling) ∷ []

found_canceling : lookup "j1" one_canceling ≡ some canceling
unfolding lookup
found_canceling = refl

disk_error_retries : should_retry disk_error ≡ true
unfolding should_retry
disk_error_retries = refl

queue-IsSound : IsSound queue
queue-IsSound = ((refl, (refl, refl)), ((refl, (refl, refl)), tt))

handle-IsSound_example : IsSound (handle 10 (leases "w1" [] 30) queue)
handle-IsSound_example = handle-IsSound 10 (leases "w1" [] 30) queue tt queue-IsSound

abbrev requests : List (ℕ × Request)
requests =
    (10, leases "w1" [] 30)
    ∷ (12, requests_cancel "j0")
    ∷ (20, calls "w1" (fails old_leased disk_error))
    ∷ (50, releases 50)
    ∷ (60, replaces older)
    ∷ []

serve-IsSound_example : IsSound (serve queue requests)
serve-IsSound_example =
    serve-IsSound queue requests queue-IsSound (tt, (tt, (tt, (tt, ((refl, refl), tt)))))
