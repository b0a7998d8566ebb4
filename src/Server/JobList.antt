-- ===== src/Server/JobList.antt =====
-- internal/server/server.go, `filterJobs`: a page of the jobs that pass the filters of a query, in the
-- order that it asks for. `sort.Slice` is the parameter `sort`. A time that is not given, or that cannot
-- be parsed, is none; an offset or a limit below zero is 0, which the code treats alike.
use cartolensia.Prelude.{
  ℕ, ◌+◌, ◌-◌, String, Bool, false, not, ◌&&◌, ◌||◌, Option, none, some, List, [], ◌∷◌, eqb, ltb,
  leb, Text, text_eq, string_eq, ◌==◌, length, take, drop, if◌then◌else◌,
}
use cartolensia.Texts.{bytes, trim_space, to_lower}
use cartolensia.Texts.Search.{equal_fold}
use cartolensia.Jobs.{Job}
use cartolensia.Jobs.States.{
  Status, status_text, queued, running, cancel_requested, succeeded, failed, canceled, other,
  status_eq,
}
use cartolensia.Queue.{string_before}

-- The values of the query; no text where a key is missing.
pub record JobQuery : Type 0 where
  pub status : String
  pub kind : String
  pub failed_only : Text
  pub running_only : Text
  pub created_after : Option ℕ
  pub created_before : Option ℕ
  pub sort_key : Text
  pub offset : ℕ
  pub limit : ℕ

abbrev pub is_set : Text → Bool
is_set value = value == bytes "1" || equal_fold value (bytes "true")

unfoldable pub truthy_query : Text → Bool
unfolding to_lower trim_space
truthy_query value =
    let v = trim_space (to_lower value) in
    v == bytes "1" || v == bytes "true" || v == bytes "yes" || v == bytes "on"

unfoldable pub job_status_priority : Status → ℕ
job_status_priority running = 0
job_status_priority cancel_requested = 1
job_status_priority queued = 2
job_status_priority failed = 3
job_status_priority canceled = 4
job_status_priority succeeded = 5
job_status_priority (other s) = 6

unfoldable pub is_active_job_status : Status → Bool
is_active_job_status status = status == running || status == cancel_requested

abbrev pub is_before : Option ℕ → ℕ → Bool
is_before none t = false
is_before (some limit) t = ltb t limit

abbrev pub is_after : Option ℕ → ℕ → Bool
is_after none t = false
is_after (some limit) t = ltb limit t

-- The job is not passed over by any of the filters.
unfoldable pub passes : JobQuery → Job → Bool
unfolding equal_fold
passes q job =
    not (not (q.status == "") && not (status_text job.status == q.status))
    && not (not (q.kind == "") && not (job.kind == q.kind))
    && not (is_set q.failed_only && not (job.status == failed))
    && not (
        is_set q.running_only
        && not (job.status == running)
        && not (job.status == cancel_requested))
    && not (is_before q.created_after job.created_at)
    && not (is_after q.created_before job.created_at)

unfoldable pub passing : JobQuery → List Job → List Job
unfolding passes
passing q [] = []
passing q (job ∷ jobs) = let rest = passing q jobs in if passes q job then job ∷ rest else rest

abbrev pub is_newer : Job → Job → Bool
is_newer a b = ltb b.created_at a.created_at

abbrev pub is_older : Job → Job → Bool
is_older a b = ltb a.created_at b.created_at

unfoldable pub active_before : Job → Job → Bool
unfolding job_status_priority is_active_job_status
active_before a b =
    if not (eqb (job_status_priority a.status) (job_status_priority b.status))
    then ltb (job_status_priority a.status) (job_status_priority b.status)
    else if a.status == queued && b.status == queued
    then is_older a b
    else if is_active_job_status a.status && is_active_job_status b.status
    then is_older a b
    else is_newer a b

unfoldable pub kind_before : Job → Job → Bool
unfolding string_before
kind_before a b = if a.kind == b.kind then is_newer a b else string_before a.kind b.kind

unfoldable pub status_before : Job → Job → Bool
unfolding string_before
status_before a b =
    if a.status == b.status
    then is_newer a b
    else string_before (status_text a.status) (status_text b.status)

-- The comparison that the query's order sorts by.
unfoldable pub job_before : Text → Job → Job → Bool
unfolding active_before kind_before status_before
job_before key =
    if key == bytes "active"
    then active_before
    else if key == bytes "created_at"
    then is_older
    else if key == bytes "kind"
    then kind_before
    else if key == bytes "status"
    then status_before
    else is_newer

unfoldable pub job_page_limit : ℕ → ℕ
job_page_limit limit = if eqb limit 0 || ltb 500 limit then 100 else limit

abbrev pub page_of : ℕ → ℕ → List Job → List Job
page_of offset limit jobs =
    if leb (length jobs) offset
    then []
    else if ltb (length jobs) (offset + limit)
    then take (length jobs - offset) (drop offset jobs)
    else take limit (drop offset jobs)

module _ (sort : (Job → Job → Bool) → List Job → List Job) where
  unfoldable pub filter_jobs : JobQuery → List Job → List Job
  unfolding passing job_before job_page_limit
  filter_jobs q jobs =
      page_of q.offset (job_page_limit q.limit) (sort (job_before q.sort_key) (passing q jobs))
