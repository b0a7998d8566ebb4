-- ===== src/Workers/Dispatch.antt =====
-- What a pass of the worker loop of internal/workers/workers.go starts, and what a panic leads to.
use Prim.Native.String.{◌++◌ as string_append}
use cartolensia.Prelude.{
  ℕ, zero, suc, ◌≤◌, String, true, false, Option, none, some, List, [], ◌∷◌, ◌≡◌, inl, inr, refl,
  ap, arith, string_eq, contains, All, length, if◌then◌else◌,
}
use cartolensia.Prelude.Dict.{lookup, insert}
use cartolensia.Failure.{Failure, plain, panic_error, should_retry}
use cartolensia.Failure.Retry.{should_retry-classified}
use cartolensia.Jobs.{Job, ok, err}
use cartolensia.Jobs.States.{running, failed}
use cartolensia.Queue.{JobMap, Reply, take_lease, lease_next_job, holds_lease, fail_leased_job}
use cartolensia.Queue.Selection.{lease_next_job-IsNext}
use cartolensia.Queue.Failing.{IsActive, Outcome, fail_leased_job-Outcome}
use cartolensia.Workers.{
  Config, panics, starting, if_leased, no_handler, dispatch_available, run_job,
}

-- The job runs under the worker's lease and has a handler.
abbrev pub IsStarted : List String → String → Job → Type 0
IsStarted kinds worker job =
    (contains kinds job.kind ≡ true) × ((job.worker_id ≡ worker) × (job.status ≡ running))

take_lease-kind :
    (clock : ℕ) (worker : String) (duration : ℕ) (job : Job)
    → ((take_lease clock worker duration job).kind ≡ job.kind)
      × (((take_lease clock worker duration job).worker_id ≡ worker)
          × ((take_lease clock worker duration job).status ≡ running))
unfolding take_lease
take_lease-kind clock worker duration job = (refl, (refl, refl))

module _ (clock : ℕ) (cfg : Config) (k : String) (ks : List String) where
  abbrev kinds : List String
  kinds = k ∷ ks

  leased-IsStarted :
      (s t : JobMap) (job : Job)
      → lease_next_job clock cfg.worker_id kinds cfg.lease_duration s ≡ (ok job, t)
      → IsStarted kinds cfg.worker_id job
  leased-IsStarted s t job h =
      let (best, next, made, kept) =
        lease_next_job-IsNext clock cfg.worker_id kinds cfg.lease_duration s h in
      let (kind, (owner, state)) = take_lease-kind clock cfg.worker_id cfg.lease_duration best in
      rw made (rw kind next.runs.wanted, (owner, state))

  -- What a pass gives: jobs that are started, no more than the free slots.
  abbrev pub Starts : ℕ → Option (List Job × JobMap) → Type 0
  Starts free none = ⊥
  Starts free (some (jobs, s)) = (length jobs ≤ free) × All (IsStarted kinds cfg.worker_id) jobs

  Starts-starting :
      (free : ℕ) (job : Job) (rest : Option (List Job × JobMap))
      → IsStarted kinds cfg.worker_id job
      → Starts free rest
      → Starts (suc free) (starting job rest)
  Starts-starting free job none h k = k
  Starts-starting free job (some (jobs, s)) h (n, all) = (omega (arith, n), (h, all))

  leased-Starts :
      (fuel free : ℕ) (r : Reply Job)
      → ((job : Job) (t : JobMap) → r ≡ (ok job, t) → IsStarted kinds cfg.worker_id job)
      → ((t : JobMap) → Starts free (dispatch_available clock cfg kinds fuel free t))
      → Starts (suc free) (
          if_leased
            (λ t. some ([], t))
            (λ job t.
              let started = starting job (dispatch_available clock cfg kinds fuel free t) in
              let refused =
                dispatch_available clock cfg kinds fuel
                  (suc free)
                  (fail_leased_job clock job cfg.worker_id (no_handler job.kind) t).1 in
              if contains kinds job.kind then started else refused)
            r)
  leased-Starts fuel free (err e, t) leased rest = (omega arith, tt)
  leased-Starts fuel free (ok job, t) leased rest =
      let fresh = leased job t refl in rw fresh.0 (Starts-starting free job _ fresh (rest t))

  -- A pass of the loop for at least one kind of jobs, with as much fuel as there are free slots, comes to
  -- an end: it starts at most as many jobs as there are free slots, each of a kind that has a handler and
  -- running under the worker's lease.
  pub dispatch_available-Starts :
      (fuel free : ℕ) (s : JobMap)
      → free ≤ fuel
      → Starts free (dispatch_available clock cfg kinds fuel free s)
  unfolding dispatch_available
  dispatch_available-Starts fuel zero s h = (omega arith, tt)
  dispatch_available-Starts zero (suc free) s h = absurd (omega (arith, h))
  dispatch_available-Starts (suc fuel) (suc free) s h =
      leased-Starts fuel free (lease_next_job clock cfg.worker_id kinds cfg.lease_duration s)
        (λ job t e. leased-IsStarted s t job e)
        (λ t. dispatch_available-Starts fuel free t (omega (arith, h)))

ended :
    {clock : ℕ} {job : Job} {cause : Failure} {job' : Job}
    → Outcome clock job cause job'
    → should_retry (some cause) ≡ false
    → job'.status ≡ failed
ended (inl ((left, runs, again), o)) h = absurd (cc (again, h))
ended (inr (never, o)) h = o.status

-- A panic of a handler that still owns its job ends the job for good, whatever attempts are left: it is
-- stored as failed, and no other job changes.
pub run_job-panics :
    (clock : ℕ) (worker : String) (job current : Job) (text : String) (s : JobMap)
    → lookup job.id s ≡ some current
    → holds_lease worker current ≡ true
    → IsActive job.status
    → (job' : Job) × (run_job clock worker job (panics text) s ≡ insert job.id job' s)
      × (job'.status ≡ failed)
unfolding run_job
run_job-panics clock worker job current text s found held active =
    let reason : Failure = plain (string_append "panic: " text) in
    let cause : Failure = panic_error (some reason) in
    let (job', e, o) =
      fail_leased_job-Outcome clock worker (some cause) s current job found held active in
    let final : should_retry (some cause) ≡ false = (should_retry-classified reason).1 in
    (job', ap (λ (r : Reply (Unit {0})). r.1) e, ended o final)
