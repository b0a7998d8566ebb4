-- ===== src/Server/Examples.antt =====
-- Examples of the properties of Server: a site with one canceled job, without authentication.
use cartolensia.Prelude.{
  true, ℕ, String, false, none, [], ◌∷◌, ◌≡◌, ◌⊎◌, refl, arith, string_eq, length, Text,
}
use cartolensia.Prelude.Dict.{lookup}
use cartolensia.Texts.{bytes}
use cartolensia.Jobs.{Job, LogLine, new}
use cartolensia.Jobs.States.{
  status_text, queued, running, cancel_requested, succeeded, failed, canceled,
}
use cartolensia.Auth.Store.{empty_store}
use cartolensia.Server.{post_method, Site}
use cartolensia.Server.Access.{dev_gate, require_write}
use cartolensia.Server.JobCalls.{JobRequest, retry_allowed, job_action, handle_job_by_id}
use cartolensia.Server.JobList.{job_before}
use cartolensia.Server.Stats.{build_job_stats}
use cartolensia.Server.Granting.{MayChange, handle_job_by_id-MayChange}
use cartolensia.Server.Retrying.{IsRetried, job_action-IsRetried}
use cartolensia.Server.Following.{follow, follow_complete}
use cartolensia.Server.Selecting.{job_before_trans}
use cartolensia.Server.Counting.{with_status, shown, build_job_stats-counts}

abbrev job : Job
job = record (new "j1" 3 "hash" "{}") { status = canceled; error = "canceled by hand" }

abbrev site : Site
site = record { accounts = empty_store; jobs = ("j1", job) ∷ [] }

abbrev request : JobRequest
request = record {
  method = post_method;
  credential = record { authorization = []; cookie = none; csrf = [] };
  force = false;
  after_id = 0;
  limit = 0;
}

abbrev string_of : Text → String
string_of s = "j1"

handle_job_by_id-MayChange_example :
    ((handle_job_by_id string_of dev_gate 9 request (bytes "/api/v1/jobs/j1/cancel") site).1.jobs
      ≡ site.jobs)
    ⊎ MayChange dev_gate request site
handle_job_by_id-MayChange_example =
    handle_job_by_id-MayChange string_of dev_gate 9 request (bytes "/api/v1/jobs/j1/cancel") site

job_action-IsRetried_example : IsRetried (retry_allowed job false) "j1" job site.jobs (
  (job_action dev_gate 9 request "j1" (bytes "retry") site).0,
  (job_action dev_gate 9 request "j1" (bytes "retry") site).1.jobs,
)
unfolding require_write dev_gate lookup new
job_action-IsRetried_example =
    job_action-IsRetried dev_gate 9 request "j1" job site refl refl refl refl

abbrev line : ℕ → LogLine
line id = record { id = id; level = "info"; message = "scanned"; created_at = id }

follow_complete_example :
    follow 3 0 2 (line 1 ∷ line 4 ∷ line 6 ∷ []) ≡ line 1 ∷ line 4 ∷ line 6 ∷ []
follow_complete_example =
    follow_complete 3 2 (line 1 ∷ line 4 ∷ line 6 ∷ [])
      (omega arith, (omega arith, (omega arith, tt))) (omega arith)

abbrev queued_at : ℕ → Job
queued_at time = new "j2" time "hash" "{}"

job_before_trans_example :
    (job_before (bytes "active") (queued_at 1) job ≡ true)
    × (job_before (bytes "active") job (queued_at 1) ≡ false)
unfolding job_before new
job_before_trans_example =
    job_before_trans (bytes "active") (queued_at 1) (queued_at 2) job refl refl

build_job_stats-counts_example :
    (let stats = build_job_stats (job ∷ []) in
      (stats.queued_count ≡ with_status (status_text queued) (job ∷ []))
      × (stats.running_count ≡ with_status (status_text running) (job ∷ []))
      × (stats.cancel_requested_count ≡ with_status (status_text cancel_requested) (job ∷ []))
      × (stats.failed_count ≡ with_status (status_text failed) (job ∷ []))
      × (stats.succeeded_count ≡ with_status (status_text succeeded) (job ∷ []))
      × (stats.canceled_count ≡ with_status (status_text canceled) (job ∷ []))
      × (shown stats ≡ length (job ∷ [])))
build_job_stats-counts_example = build_job_stats-counts (job ∷ []) (tt, tt)
