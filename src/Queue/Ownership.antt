-- ===== src/Queue/Ownership.antt =====
-- The five methods that a worker calls for a job under lease: who may call them, and what they touch.
use cartolensia.Prelude.{
  ℕ, ◌+◌, String, Bool, false, Option, some, List, ◌≡◌, ◌≢◌, inl, inr, arith, Bool-cases,
  Option-cases, ◌==◌, ◌&&◌, string_eq, eq_iff,
}
use cartolensia.Prelude.Dict.{insert, lookup, lookup-insert_self, lookup-insert_ne}
use cartolensia.Failure.{Failure, sentinel, lease_lost}
use cartolensia.Jobs.{Job, ok, err, complete, cancel}
use cartolensia.Jobs.States.{running, status_eq}
use cartolensia.Queue.{
  JobMap, Reply, holds_lease, release_all, take_lease, lease_next_job, heartbeat_job,
  update_leased_job, complete_leased_job, fail_leased_job, cancel_leased_job, fail_leased_locked,
  with_lease_of, cause_or_failed, known, guarded, keep_cancellation, stored, failed_job,
}
use cartolensia.Queue.Identity.{lookup-stored, complete-id, cancel-id, failed_job-id}
use cartolensia.Queue.Selection.{lease_next_job-IsNext}

-- What a worker asks for, with the copy of the job that it works on.
pub data Call : Type 0 where
  heartbeats : String → ℕ → Call
  updates completes cancels : Job → Call
  fails : Job → Option Failure → Call

abbrev pub target : Call → String
target (heartbeats id d) = id
target (updates job) = job.id
target (completes job) = job.id
target (cancels job) = job.id
target (fails job cause) = job.id

unfoldable pub call : ℕ → String → Call → JobMap → Reply (Unit {0})
call clock worker (heartbeats id d) s = heartbeat_job clock id worker d s
call clock worker (updates job) s = update_leased_job job worker s
call clock worker (completes job) s = complete_leased_job clock job worker s
call clock worker (cancels job) s = cancel_leased_job clock job worker s
call clock worker (fails job cause) s = fail_leased_job clock job worker cause s

module _ (clock : ℕ) (worker : String) (s : JobMap) (current : Job) where
  -- Any call for a job that the worker holds no lease on is refused, and changes nothing.
  pub call-lease_lost :
      (c : Call)
      → lookup (target c) s ≡ some current
      → holds_lease worker current ≡ false
      → call clock worker c s ≡ (err (sentinel lease_lost), s)
  unfolding call heartbeat_job update_leased_job complete_leased_job cancel_leased_job
      fail_leased_job
  call-lease_lost (heartbeats id d) found h = ground arith
  call-lease_lost (updates job) found h = ground arith
  call-lease_lost (completes job) found h = ground arith
  call-lease_lost (cancels job) found h = ground arith
  call-lease_lost (fails job cause) found h = ground arith

module _ (j : String) (s : JobMap) where
  -- what holds of a lookup after the guarded part holds after the whole call
  leased-frame :
      (id : String) (test : Job → Bool) (f : Job → Reply (Unit {0}))
      → ((job : Job) → lookup j (f job).1 ≡ lookup j s)
      → lookup j (known (lookup id s) (λ job. guarded (test job) (f job) s) s).1 ≡ lookup j s
  leased-frame id test f h = elim (Option-cases (lookup id s)) [
    | inl e ↦ rw e
    | inr (job, e) ↦ elim (Bool-cases (test job)) [ inl t ↦ rw (e, t) (h job) | inr t ↦ rw (e, t) ]
  ]

module _ (clock : ℕ) (worker : String) (s : JobMap) where
  -- A call touches no other job than its own, also where it is refused.
  pub call-frame :
      (c : Call) (j : String) → j ≢ target c → lookup j (call clock worker c s).1 ≡ lookup j s
  unfolding call heartbeat_job update_leased_job complete_leased_job cancel_leased_job
      fail_leased_job fail_leased_locked
  call-frame (heartbeats id d) j ne =
      leased-frame j s id (holds_lease worker)
        (λ job. (ok tt, insert id (record job { lease_expires_at = some (clock + d) }) s))
        (λ job. lookup-insert_ne _ s ne)
  call-frame (updates job) j ne =
      leased-frame j s job.id (holds_lease worker)
        (λ current.
          (ok tt, insert job.id (with_lease_of current (keep_cancellation current job)) s))
        (λ current. lookup-insert_ne _ s ne)
  call-frame (completes job) j ne =
      leased-frame j s job.id (λ current. current.worker_id == worker && current.status == running)
        (λ current. stored (complete clock (with_lease_of current job)) s)
        (λ current. lookup-stored job.id j _ s (complete-id clock (with_lease_of current job)) ne)
  call-frame (cancels job) j ne =
      leased-frame j s job.id (holds_lease worker)
        (λ current. stored (cancel clock (with_lease_of current job)) s)
        (λ current. lookup-stored job.id j _ s (cancel-id clock (with_lease_of current job)) ne)
  call-frame (fails job cause) j ne =
      let e = cause_or_failed cause in
      leased-frame j s job.id (holds_lease worker)
        (λ current. stored (failed_job clock (with_lease_of current job) e) s)
        (λ current.
          lookup-stored job.id j _ s (failed_job-id clock (with_lease_of current job) e) ne)

-- Once a job is handed to a worker, every call that another worker still makes for it is refused and
-- changes nothing.
pub call-lease_next_job :
    (clock now : ℕ) (worker stale : String) (kinds : List String) (duration : ℕ) (s : JobMap)
    (c : Call) {job : Job} {t : JobMap}
    → lease_next_job clock worker kinds duration s ≡ (ok job, t)
    → target c ≡ job.id
    → stale ≢ worker
    → call now stale c t ≡ (err (sentinel lease_lost), t)
call-lease_next_job clock now worker stale kinds duration s c {job} {t} h e ne =
    let (best, next, taken, stored) = lease_next_job-IsNext clock worker kinds duration s h in
    call-lease_lost now stale t job c
      (rw (e, stored) (lookup-insert_self job.id job (release_all clock clock s)))
      (rw taken (unfold take_lease in ground (arith, eq_iff worker stale)))
