-- ===== src/Server/Granting.antt =====
-- internal/server/server.go: a request to the paths of a job changes the jobs only if it may write.
use cartolensia.Prelude.{
  ℕ, String, Option, none, some, List, [], ◌∷◌, ◌≡◌, ◌⊎◌, inl, inr, refl, Text, text_eq, ◌==◌,
  Bool-cases,
}
use cartolensia.Texts.{bytes}
use cartolensia.Queue.{get_job}
use cartolensia.Server.{Method, get_method, post_method, other_method, Answer, Site}
use cartolensia.Server.Access.{Gate, require_write}
use cartolensia.Server.JobCalls.{
  JobRequest, unless_refused, behind_write, reading, answer_job, answer_logs, cancel_call,
  retry_call, job_action, job_parts, job_call, handle_job_by_id,
}
use cartolensia.Auth.Service.{Request}

-- The request is a POST that may write one of the two actions on a job.
abbrev pub MayChange : Gate → JobRequest → Site → Type 0
MayChange gate r site =
    (r.method ≡ post_method)
    × (((require_write gate r.credential (bytes "jobs.cancel") site.accounts).0 ≡ none)
        ⊎ ((require_write gate r.credential (bytes "jobs.retry") site.accounts).0 ≡ none))

abbrev Kept : Gate → JobRequest → Site → Answer × Site → Type 0
Kept gate r site (a, site') = (site'.jobs ≡ site.jobs) ⊎ MayChange gate r site

unless_refused-Kept :
    (f : Site → Answer × Site) (site : Site) (o : Option Answer)
    → ((unless_refused f site o).1.jobs ≡ site.jobs) ⊎ (o ≡ none)
unless_refused-Kept f site none = inr refl
unless_refused-Kept f site (some a) = inl refl

behind_write-Kept :
    (gate : Gate) (r : Request) (action : Text) (method : Method) (f : Site → Answer × Site)
    (site : Site)
    → ((behind_write gate r action method f site).1.jobs ≡ site.jobs)
      ⊎ ((method ≡ post_method) × ((require_write gate r action site.accounts).0 ≡ none))
behind_write-Kept gate r action post_method f site =
    let (refused, accounts) = require_write gate r action site.accounts in
    elim (unless_refused-Kept f (record site { accounts = accounts }) refused) [
      | inl a ↦ inl a
      | inr a ↦ inr (refl, a)
    ]
behind_write-Kept gate r action get_method f site = inl refl
behind_write-Kept gate r action other_method f site = inl refl

reading-jobs :
    (method : Method) (a : Answer) (site : Site) → (reading method a site).1.jobs ≡ site.jobs
reading-jobs get_method a site = refl
reading-jobs post_method a site = refl
reading-jobs other_method a site = refl

job_action-Kept :
    (gate : Gate) (clock : ℕ) (r : JobRequest) (id : String) (action : Text) (site : Site)
    → Kept gate r site (job_action gate clock r id action site)
unfolding job_action
job_action-Kept gate clock r id action site = elim (Bool-cases (action == bytes "cancel")) [
  | inl a ↦
      rw (job_action, a)
        (elim (behind_write-Kept gate r.credential (bytes "jobs.cancel") r.method
          (cancel_call clock id) site) [ inl k ↦ inl k | inr (m, g) ↦ inr (m, inl g) ])
  | inr a ↦ elim (Bool-cases (action == bytes "retry")) [
    | inl b ↦
        rw (job_action, a, b)
          (elim (behind_write-Kept gate r.credential (bytes "jobs.retry") r.method
            (retry_call clock r.force id) site) [ inl k ↦ inl k | inr (m, g) ↦ inr (m, inr g) ])
    | inr b ↦ elim (Bool-cases (action == bytes "logs")) [
      | inl c ↦
          rw (job_action, a, b, c)
            (inl (
              reading-jobs r.method (answer_logs r.after_id r.limit (get_job id site.jobs).0) site))
      | inr c ↦ rw (job_action, a, b, c) (inl refl)
    ]
  ]
]

module _ (string_of : Text → String) (gate : Gate) (clock : ℕ) (r : JobRequest) where
  job_call-Kept :
      (parts : List Text) (site : Site)
      → Kept gate r site (job_call string_of gate clock r parts site)
  job_call-Kept [] site = inl refl
  job_call-Kept (id ∷ []) site = elim (Bool-cases (id == [])) [
    | inl a ↦ rw (job_call, a) (inl refl)
    | inr a ↦
        rw (job_call, a)
          (inl (reading-jobs r.method (answer_job (get_job (string_of id) site.jobs).0) site))
  ]
  job_call-Kept (id ∷ action ∷ []) site = elim (Bool-cases (id == [])) [
    | inl a ↦ rw (job_call, a) (inl refl)
    | inr a ↦ rw (job_call, a) (job_action-Kept gate clock r (string_of id) action site)
  ]
  job_call-Kept (id ∷ action ∷ next ∷ rest) site = inl refl

  -- A request to the paths of a job leaves every job as it is, unless it is a POST whose credential is
  -- let through for canceling or for retrying a job.
  pub handle_job_by_id-MayChange :
      (path : Text) (site : Site)
      → ((handle_job_by_id string_of gate clock r path site).1.jobs ≡ site.jobs)
        ⊎ MayChange gate r site
  unfolding handle_job_by_id
  handle_job_by_id-MayChange path site = job_call-Kept (job_parts path) site
