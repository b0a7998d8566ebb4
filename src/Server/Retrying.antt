-- ===== src/Server/Retrying.antt =====
-- internal/server/server.go: a retried job can be leased again.
use cartolensia.Prelude.{
  ℕ, String, Bool, true, false, Option, none, some, [], ◌≡◌, ◌⊎◌, inl, inr, refl, sym, arith, ap,
  subst, ◌∙◌, text_eq, string_eq, ◌==◌, Bool-cases,
}
use cartolensia.Prelude.Dict.{lookup, insert, lookup-insert_self}
use cartolensia.Texts.{bytes}
use cartolensia.Failure.{Failure, plain}
use cartolensia.Jobs.{Job, Result, ok, err, retry_now, add_log}
use cartolensia.Jobs.States.{
  Status, queued, failed, canceled, status_eq, transition, same_status_iff,
}
use cartolensia.Queue.{JobMap, get_job, update_job, may_run}
use cartolensia.Server.{post_method, Answer, Site, retry_refused, failure_body, job_body}
use cartolensia.Server.Access.{Gate, require_write}
use cartolensia.Server.JobCalls.{
  JobRequest, answer, retry_allowed, answer_stored, store_retried, retry_found, retry_got,
  retry_stored, job_action,
}

retry_allowed-status :
    (job : Job) (force : Bool)
    → retry_allowed job force ≡ true
    → (job.status ≡ failed) ⊎ (job.status ≡ canceled)
unfolding retry_allowed
retry_allowed-status job force h = elim (Bool-cases (job.status == failed)) [
  | inl a ↦ inl ((same_status_iff job.status failed).0 a)
  | inr a ↦ elim (Bool-cases (job.status == canceled)) [
    | inl b ↦ inr ((same_status_iff job.status canceled).0 b)
    | inr b ↦ absurd (ground (arith, h, a, b))
  ]
]

-- What a retry by hand leaves: a job under the same identifier that any worker may lease at any time.
abbrev IsDue : Job → Job → Type 0
IsDue job retried = (retried.id ≡ job.id) × ((now : ℕ) → may_run now [] retried ≡ true)

abbrev IsDueResult : Job → Result Job → Type 0
IsDueResult job (ok retried) = IsDue job retried
IsDueResult job (err e) = ⊥

retry_now-IsDue :
    (clock : ℕ) (job : Job) (cause : Option Failure)
    → transition job.status queued ≡ none
    → IsDueResult job (retry_now clock job cause)
unfolding retry_now add_log may_run
retry_now-IsDue clock job cause h = rw (retry_now, h) (refl, λ now. refl)

may_return :
    (status : Status) → (status ≡ failed) ⊎ (status ≡ canceled) → transition status queued ≡ none
unfolding transition
may_return status (inl e) = rw e refl
may_return status (inr e) = rw e refl

-- What the answer and the jobs are after a request to retry a stored job.
abbrev pub IsRetried : Bool → String → Job → JobMap → Answer × JobMap → Type 0
IsRetried false id job jobs (a, jobs') = (a ≡ answer 409 retry_refused) × (jobs' ≡ jobs)
IsRetried true id job jobs (a, jobs') =
    (retried : Job) × (a ≡ answer 200 (job_body retried))
    × (lookup id jobs' ≡ some retried)
    × ((now : ℕ) → may_run now [] retried ≡ true)

store_retried-known :
    (job retried : Job) (jobs : JobMap)
    → lookup retried.id jobs ≡ some job
    → store_retried retried jobs ≡ (answer 200 (job_body retried), insert retried.id retried jobs)
unfolding update_job
store_retried-known job retried jobs found =
    let stored : update_job retried jobs ≡ (ok tt, insert retried.id retried jobs) =
      rw (update_job, found) refl in
    ap (answer_stored retried) stored

stored-IsRetried :
    (id : String) (job retried : Job) (jobs : JobMap)
    → job.id ≡ id
    → lookup id jobs ≡ some job
    → IsDue job retried
    → IsRetried true id job jobs (store_retried retried jobs)
stored-IsRetried id job retried jobs same found (kept, due) =
    let e : retried.id ≡ id = kept ∙ same in
    rw (store_retried-known job retried jobs (ap (λ k. lookup k jobs) e ∙ found)) (
      retried,
      refl,
      subst (λ k. lookup k (insert retried.id retried jobs) ≡ some retried) e
          (lookup-insert_self retried.id retried jobs),
      due,
    )

module _ (id : String) (job : Job) (jobs : JobMap) (same : job.id ≡ id)
    (found : lookup id jobs ≡ some job) where
  after_retry :
      (r : Result Job)
      → IsDueResult job r
      → IsRetried true id job jobs (elim r [
        | err e ↦ (answer 400 (failure_body e), jobs)
        | ok retried ↦ store_retried retried jobs
      ])
  after_retry (ok retried) due = stored-IsRetried id job retried jobs same found due
  after_retry (err e) due = absurd due

found-IsRetried :
    (clock : ℕ) (force : Bool) (id : String) (job : Job) (jobs : JobMap)
    → job.id ≡ id
    → lookup id jobs ≡ some job
    → IsRetried (retry_allowed job force) id job jobs (retry_found clock force job jobs)
found-IsRetried clock force id job jobs same found = elim (Bool-cases (retry_allowed job force)) [
  | inl a ↦
      let due =
        retry_now-IsDue clock job (some (plain "manual retry requested"))
          (may_return job.status (retry_allowed-status job force a)) in
      rw (retry_found, a)
        (after_retry id job jobs same found
          (retry_now clock job (some (plain "manual retry requested"))) due)
  | inr a ↦ rw (retry_found, a) (refl, refl)
]

retry_stored-IsRetried :
    (clock : ℕ) (force : Bool) (id : String) (job : Job) (jobs : JobMap)
    → job.id ≡ id
    → lookup id jobs ≡ some job
    → IsRetried (retry_allowed job force) id job jobs (retry_stored clock force id jobs)
unfolding get_job
retry_stored-IsRetried clock force id job jobs same found =
    let got : get_job id jobs ≡ (ok job, jobs) = rw (get_job, found) refl in
    subst (λ g. IsRetried (retry_allowed job force) id job jobs (retry_got clock force g)) (sym got)
      (found-IsRetried clock force id job jobs same found)

module _ (gate : Gate) (clock : ℕ) (r : JobRequest) (id : String) (job : Job) (site : Site) where
  -- A POST to retry a stored job that may write is answered by what `retry_allowed` says. Where it allows
  -- the retry, the answer is 200 with the job that is stored then, which any worker may lease at any
  -- time. Where it does not, the answer is 409 and the jobs are as before. The job stands under its own
  -- identifier.
  pub job_action-IsRetried :
      r.method ≡ post_method
      → (require_write gate r.credential (bytes "jobs.retry") site.accounts).0 ≡ none
      → lookup id site.jobs ≡ some job
      → job.id ≡ id
      → (let (a, site') = job_action gate clock r id (bytes "retry") site in
          IsRetried (retry_allowed job r.force) id job site.jobs (a, site'.jobs))
  unfolding job_action
  job_action-IsRetried post granted found same =
      rw (job_action, post, granted)
        (retry_stored-IsRetried clock r.force id job site.jobs same found)
