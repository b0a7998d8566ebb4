-- ===== src/Workers.antt =====
-- internal/workers/workers.go: the loop that hands jobs to handlers. A pass of the loop is taken at one
-- time, a handler is what it leaves of its job and how it ends, and a duration that is not positive is 0.
pub mod Dispatch
pub mod Heartbeat
mod Examples
use Prim.Native.String.{◌++◌ as string_append}
use cartolensia.Prelude.{
  ℕ, zero, suc, ◌*◌, ◌^◌, ◌/◌, String, Bool, true, false, ◌||◌, Option, none, some, List, [], ◌∷◌,
  eqb, string_eq, ◌==◌, contains, if◌then◌else◌,
}
use cartolensia.Failure.{Failure, plain, job_canceled, lease_lost, is, panic_error}
use cartolensia.Jobs.{Job, Result, ok, err}
use cartolensia.Queue.{
  JobMap, Reply, lease_next_job, fail_leased_job, heartbeat_job, release_expired_leases,
}

pub record Config : Type 0 where
  pub worker_id : String
  pub poll_interval : ℕ
  pub lease_duration : ℕ
  pub heartbeat_interval : ℕ
  pub max_concurrency : ℕ

abbrev or_positive : ℕ → ℕ → ℕ
or_positive value fallback = if eqb value 0 then fallback else value

-- New, which fills the fields that are not set; `fresh` is the identifier made from the clock
unfoldable pub new_config : String → Config → Config
new_config fresh cfg =
    let lease = or_positive cfg.lease_duration (30 * 10 ^ 9) in
    record {
      worker_id = if cfg.worker_id == "" then fresh else cfg.worker_id;
      poll_interval = or_positive cfg.poll_interval (10 ^ 9);
      lease_duration = lease;
      heartbeat_interval = or_positive cfg.heartbeat_interval (lease / 3);
      max_concurrency = or_positive cfg.max_concurrency 1;
    }

-- How a handler ends.
pub data Ending : Type 0 where
  returns : Option Failure → Ending
  panics : String → Ending

abbrev pub no_handler : String → Option Failure
no_handler kind =
    some (plain (string_append "no handler registered for job kind \"" (string_append kind "\"")))

-- Jobs started before are put in front of those started later.
abbrev pub starting : Job → Option (List Job × JobMap) → Option (List Job × JobMap)
starting job none = none
starting job (some (jobs, s)) = some (job ∷ jobs, s)

abbrev pub if_leased {ℓ} : {A : Type ℓ} → (JobMap → A) → (Job → JobMap → A) → Reply Job → A
if_leased stop go (err e, s) = stop s
if_leased stop go (ok job, s) = go job s

module _ (clock : ℕ) (cfg : Config) (kinds : List String) where
  -- dispatchAvailable with so many slots free and handlers for the kinds: the jobs that are started, in
  -- order, and the jobs that are stored then; `none` is the end of the fuel
  unfoldable pub dispatch_available : ℕ → ℕ → JobMap → Option (List Job × JobMap)
  dispatch_available fuel zero s = some ([], s)
  dispatch_available zero (suc free) s = none
  dispatch_available (suc fuel) (suc free) s =
      if_leased (λ s'. some ([], s'))
        (λ job s'.
          let started = starting job (dispatch_available fuel free s') in
          let refused =
            dispatch_available fuel (suc free)
              (fail_leased_job clock job cfg.worker_id (no_handler job.kind) s').1 in
          if contains kinds job.kind then started else refused)
        (lease_next_job clock cfg.worker_id kinds cfg.lease_duration s)

-- One round of loop: expired leases are returned, whether or not that fails, and free slots are filled.
unfoldable pub round : ℕ → Config → List String → ℕ → ℕ → JobMap → Option (List Job × JobMap)
unfolding dispatch_available
round clock cfg kinds fuel free s =
    dispatch_available clock cfg kinds fuel free (release_expired_leases clock clock s).1

abbrev while_held : Reply (Unit {0}) → (JobMap → JobMap) → JobMap
while_held (ok done, s) f = f s
while_held (err e, s) f = s

-- heartbeat, with the times of its ticks: it stops at the first error
unfoldable pub heartbeat : Config → String → List ℕ → JobMap → JobMap
heartbeat cfg id [] s = s
heartbeat cfg id (clock ∷ ticks) s =
    while_held (heartbeat_job clock id cfg.worker_id cfg.lease_duration s)
      (λ s'. heartbeat cfg id ticks s')

-- run, once the handler has ended and left the job so
unfoldable pub run_job : ℕ → String → Job → Ending → JobMap → JobMap
run_job clock worker job (returns none) s = s
run_job clock worker job (returns (some e)) s =
    if is e job_canceled || is e lease_lost
    then s
    else (fail_leased_job clock job worker (some e) s).1
run_job clock worker job (panics text) s =
    (fail_leased_job clock job worker
      (some (panic_error (some (plain (string_append "panic: " text))))) s).1
