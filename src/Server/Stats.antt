-- ===== src/Server/Stats.antt =====
-- internal/server/server.go, `buildJobStats`: the numbers of jobs, the workers and the last errors. The
-- times of the errors are left out.
use cartolensia.Prelude.{
  ℕ, ◌+◌, String, Bool, true, not, ◌&&◌, Option, none, some, List, [], ◌∷◌, ◌++◌, ltb, string_eq,
  ◌==◌, take, contains, if◌then◌else◌,
}
use cartolensia.Prelude.Dict.{Dict, lookup, insert}
use cartolensia.Jobs.{Job}
use cartolensia.Jobs.States.{
  Status, status_text, queued, running, cancel_requested, succeeded, failed, canceled, status_eq,
}
use cartolensia.Queue.{is_leased, string_before}

abbrev pub or_zero : Option ℕ → ℕ
or_zero none = 0
or_zero (some n) = n

-- counts[key]
abbrev pub count_of : String → Dict String ℕ → ℕ
count_of key counts = or_zero (lookup key counts)

-- the loop over the jobs, for `counts`
unfoldable pub tally : Dict String ℕ → List Job → Dict String ℕ
tally counts [] = counts
tally counts (job ∷ jobs) =
    let key = status_text job.status in tally (insert key (count_of key counts + 1) counts) jobs

unfoldable pub is_working : Job → Bool
is_working job = not (job.worker_id == "") && is_leased job.status

-- the loop for `workers`, each of them once
unfoldable pub working : List String → List Job → List String
unfolding is_working
working ids [] = ids
working ids (job ∷ jobs) =
    working
      (if is_working job && not (contains ids job.worker_id) then job.worker_id ∷ ids else ids) jobs

unfoldable pub put_id : String → List String → List String
unfolding string_before
put_id id [] = id ∷ []
put_id id (other ∷ ids) =
    let rest = put_id id ids in if string_before other id then other ∷ rest else id ∷ other ∷ ids

unfoldable pub sort_ids : List String → List String
unfolding put_id
sort_ids [] = []
sort_ids (id ∷ ids) = put_id id (sort_ids ids)

abbrev pub replaces_oldest : Job → Option ℕ → Bool
replaces_oldest job none = true
replaces_oldest job (some t) = ltb job.created_at t

-- the loop for `oldestQueued`
unfoldable pub oldest_queued : Option ℕ → List Job → Option ℕ
oldest_queued oldest [] = oldest
oldest_queued oldest (job ∷ jobs) =
    oldest_queued
      (if job.status == queued && replaces_oldest job oldest then some job.created_at else oldest)
      jobs

pub record JobError : Type 0 where
  pub id : String
  pub kind : String
  pub status : Status
  pub error : String

-- the loop for `lastErrors`, which keeps the first ten
unfoldable pub errors_of : List JobError → List Job → List JobError
errors_of errors [] = errors
errors_of errors (job ∷ jobs) =
    let entry : JobError = record {
      id = job.id;
      kind = job.kind;
      status = job.status;
      error = job.error;
    } in
    errors_of (if job.error == "" then errors else take 10 (errors ++ (entry ∷ []))) jobs

pub record JobStats : Type 0 where
  pub queued_count : ℕ
  pub running_count : ℕ
  pub cancel_requested_count : ℕ
  pub failed_count : ℕ
  pub succeeded_count : ℕ
  pub canceled_count : ℕ
  pub oldest : Option ℕ
  pub active_worker_ids : List String
  pub last_errors : List JobError

unfoldable pub build_job_stats : List Job → JobStats
unfolding tally working sort_ids oldest_queued errors_of
build_job_stats jobs =
    let counts = tally [] jobs in
    record {
      queued_count = count_of (status_text queued) counts;
      running_count = count_of (status_text running) counts;
      cancel_requested_count = count_of (status_text cancel_requested) counts;
      failed_count = count_of (status_text failed) counts;
      succeeded_count = count_of (status_text succeeded) counts;
      canceled_count = count_of (status_text canceled) counts;
      oldest = oldest_queued none jobs;
      active_worker_ids = sort_ids (working [] jobs);
      last_errors = errors_of [] jobs;
    }
