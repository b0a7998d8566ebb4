-- ===== src/Server/JobCalls.antt =====
-- internal/server/server.go, `handleJobByID`: reading, canceling and retrying a job, and its log.
use cartolensia.Prelude.{
  ℕ, String, Bool, true, false, not, ◌&&◌, ◌||◌, Option, none, some, List, [], ◌∷◌, Text, text_eq,
  ◌==◌, any, if◌then◌else◌,
}
use cartolensia.Texts.{bytes, to_lower, trim_prefix, trim_byte, split}
use cartolensia.Texts.Search.{has_part}
use cartolensia.Failure.{Failure, plain, not_found, is}
use cartolensia.Jobs.{Job, Result, ok, err, retry_now}
use cartolensia.Jobs.States.{queued, running, cancel_requested, failed, canceled, status_eq}
use cartolensia.Queue.{JobMap, Reply, get_job, update_job, request_cancel_job}
use cartolensia.Auth.Service.{Request}
use cartolensia.Server.{
  Method, get_method, post_method, Body, page_not_found, method_not_allowed, retry_refused,
  failure_body, job_body, logs_body, Answer, Site,
}
use cartolensia.Server.Access.{Gate, require_write}
use cartolensia.Server.Logs.{paginate_logs}

abbrev pub answer : ℕ → Body → Answer
answer status body = record { status = status; body = body }

abbrev pub hints : List Text
hints =
    bytes "read-only"
    ∷ bytes "read only"
    ∷ bytes "traversal"
    ∷ bytes "escapes"
    ∷ bytes "unknown storage"
    ∷ bytes "not configured"
    ∷ bytes "unsupported storage"
    ∷ bytes "permission denied"
    ∷ []

unfoldable pub looks_permanent_job_error : String → Bool
unfolding to_lower has_part
looks_permanent_job_error message = any (λ hint. has_part (to_lower (bytes message)) hint) hints

unfoldable pub retry_allowed : Job → Bool → Bool
unfolding looks_permanent_job_error
retry_allowed job force =
    if not (job.status == failed) && not (job.status == canceled)
    then false
    else if force
    then true
    else not (looks_permanent_job_error job.error)

unfoldable pub can_cancel_job : Job → Bool
can_cancel_job job = job.status == queued || job.status == running || job.status == cancel_requested

-- An error of the store: not found is 404, any other 500.
unfoldable pub store_error : Failure → Answer
unfolding is
store_error e = if is e not_found then answer 404 (failure_body e) else answer 500 (failure_body e)

abbrev pub answer_job : Result Job → Answer
answer_job (ok job) = answer 200 (job_body job)
answer_job (err e) = store_error e

abbrev pub answer_logs : ℕ → ℕ → Result Job → Answer
answer_logs after_id limit (ok job) =
    let (lines, next) = paginate_logs after_id limit job.logs in answer 200 (logs_body lines next)
answer_logs after_id limit (err e) = store_error e

abbrev pub cancel_call : ℕ → String → Site → Answer × Site
cancel_call clock id site =
    let (result, jobs) = request_cancel_job clock id site.jobs in
    (answer_job result, record site { jobs = jobs })

abbrev pub answer_stored : Job → Reply (Unit {0}) → Answer × JobMap
answer_stored job (ok done, jobs) = (answer 200 (job_body job), jobs)
answer_stored job (err e, jobs) = (answer 500 (failure_body e), jobs)

abbrev pub store_retried : Job → JobMap → Answer × JobMap
store_retried job jobs = answer_stored job (update_job job jobs)

abbrev pub retry_found : ℕ → Bool → Job → JobMap → Answer × JobMap
retry_found clock force job jobs =
    if not (retry_allowed job force)
    then (answer 409 retry_refused, jobs)
    else elim (retry_now clock job (some (plain "manual retry requested"))) [
      | err e ↦ (answer 400 (failure_body e), jobs)
      | ok retried ↦ store_retried retried jobs
    ]

abbrev pub retry_got : ℕ → Bool → Reply Job → Answer × JobMap
retry_got clock force (ok job, jobs) = retry_found clock force job jobs
retry_got clock force (err e, jobs) = (store_error e, jobs)

abbrev pub retry_stored : ℕ → Bool → String → JobMap → Answer × JobMap
retry_stored clock force id jobs = retry_got clock force (get_job id jobs)

abbrev pub retry_call : ℕ → Bool → String → Site → Answer × Site
retry_call clock force id site =
    let (result, jobs) = retry_stored clock force id site.jobs in
    (result, record site { jobs = jobs })

-- A call that a refusal keeps away.
abbrev pub unless_refused : (Site → Answer × Site) → Site → Option Answer → Answer × Site
unless_refused f site none = f site
unless_refused f site (some a) = (a, site)

-- A call behind `requireWrite`, by POST alone.
abbrev pub behind_write :
    Gate → Request → Text → Method → (Site → Answer × Site) → Site → Answer × Site
behind_write gate r action post_method f site =
    let (refused, accounts) = require_write gate r action site.accounts in
    unless_refused f (record site { accounts = accounts }) refused
behind_write gate r action _ f site = (answer 405 method_not_allowed, site)

abbrev pub reading : Method → Answer → Site → Answer × Site
reading get_method a site = (a, site)
reading _ a site = (answer 405 method_not_allowed, site)

-- What a request to the paths of a job holds beside its credential: the method, the flag `force` of the
-- body (false where it cannot be read), and the two numbers of the query.
pub record JobRequest : Type 0 where
  pub method : Method
  pub credential : Request
  pub force : Bool
  pub after_id : ℕ
  pub limit : ℕ

unfoldable pub job_action : Gate → ℕ → JobRequest → String → Text → Site → Answer × Site
unfolding get_job request_cancel_job update_job retry_now require_write paginate_logs
job_action gate clock r id action site =
    if action == bytes "cancel"
    then behind_write gate r.credential (bytes "jobs.cancel") r.method (cancel_call clock id) site
    else if action == bytes "retry"
    then behind_write gate r.credential (bytes "jobs.retry") r.method (retry_call clock r.force id)
        site
    else if action == bytes "logs"
    then reading r.method (answer_logs r.after_id r.limit (get_job id site.jobs).0) site
    else (answer 404 page_not_found, site)

-- The parts of the path behind `/api/v1/jobs/`.
unfoldable pub job_parts : Text → List Text
unfolding trim_prefix trim_byte split
job_parts path = split b'/' (trim_byte b'/' (trim_prefix path (bytes "/api/v1/jobs/")))

module _ (string_of : Text → String) where
  abbrev pub job_call : Gate → ℕ → JobRequest → List Text → Site → Answer × Site
  job_call gate clock r [] site = (answer 404 page_not_found, site)
  job_call gate clock r (id ∷ []) site =
      if id == []
      then (answer 404 page_not_found, site)
      else reading r.method (answer_job (get_job (string_of id) site.jobs).0) site
  job_call gate clock r (id ∷ action ∷ []) site =
      if id == []
      then (answer 404 page_not_found, site)
      else job_action gate clock r (string_of id) action site
  job_call gate clock r _ site = (answer 404 page_not_found, site)

  unfoldable pub handle_job_by_id : Gate → ℕ → JobRequest → Text → Site → Answer × Site
  unfolding job_parts get_job job_action
  handle_job_by_id gate clock r path site = job_call gate clock r (job_parts path) site
