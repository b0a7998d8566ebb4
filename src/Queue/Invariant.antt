-- ===== src/Queue/Invariant.antt =====
-- The whole queue over time: every request to it, and what holds of every job in it.
use cartolensia.Prelude.{ℕ, String, false, List, [], ◌∷◌, ◌≡◌, string_eq, is_none}
use cartolensia.Prelude.Dict.{Each}
use cartolensia.Jobs.{Job}
use cartolensia.Jobs.Lifecycle.{IsConsistent, IsUnowned}
use cartolensia.Jobs.States.{Status, queued, running, cancel_requested, status_eq}
use cartolensia.Queue.{
  JobMap, enqueue_job, update_job, request_cancel_job, release_expired_leases, lease_next_job,
}
use cartolensia.Queue.Ownership.{Call, heartbeats, updates, completes, cancels, fails, call}

-- An entry stands under its job's identifier, and the job keeps what its status promises.
abbrev pub IsSoundAt : String → Job → Type 0
IsSoundAt id job = (job.id ≡ id) × IsConsistent job

abbrev pub IsSound : JobMap → Type 0
IsSound = Each IsSoundAt

-- A request to the queue, from the server, a worker or the worker loop.
pub data Request : Type 0 where
  enqueues : Job → Request
  requests_cancel : String → Request
  replaces : Job → Request
  releases : ℕ → Request
  leases : String → List String → ℕ → Request
  calls : String → Call → Request

-- The copies that workers hand back say that the job runs, or that its cancellation was asked for;
-- a new job waits; a job that `UpdateJob` stores, whoever may own it, keeps what its status promises.
abbrev pub IsActiveCopy : Status → Job → Type 0
IsActiveCopy running job = Unit {0}
IsActiveCopy cancel_requested job = is_none job.cancel_requested_at ≡ false
IsActiveCopy _ job = ⊥

abbrev pub Admissible : Request → Type 0
Admissible (enqueues job) = (job.status ≡ queued) × IsUnowned job
Admissible (replaces job) = IsConsistent job
Admissible (calls worker (heartbeats id d)) = Unit {0}
Admissible (calls worker (updates job)) = IsActiveCopy job.status job
Admissible (calls worker (completes job)) = IsActiveCopy job.status job
Admissible (calls worker (cancels job)) = IsActiveCopy job.status job
Admissible (calls worker (fails job cause)) = IsActiveCopy job.status job
Admissible _ = Unit {0}

unfoldable pub handle : ℕ → Request → JobMap → JobMap
handle clock (enqueues job) s = (enqueue_job job s).1
handle clock (requests_cancel id) s = (request_cancel_job clock id s).1
handle clock (replaces job) s = (update_job job s).1
handle clock (releases now) s = (release_expired_leases clock now s).1
handle clock (leases worker kinds duration) s = (lease_next_job clock worker kinds duration s).1
handle clock (calls worker c) s = (call clock worker c s).1

unfoldable pub serve : JobMap → List (ℕ × Request) → JobMap
serve s [] = s
serve s ((clock, r) ∷ rs) = serve (handle clock r s) rs
