-- ===== src/Queue/Expiry.antt =====
-- `releaseExpiredLeasesLocked` of internal/catalog/catalog.go.
use cartolensia.Prelude.{
  ℕ, ◌<◌, String, true, false, Option, none, some, [], ◌∷◌, ◌≡◌, ◌⊎◌, inl, inr, refl, arith,
  Bool-cases, string_eq, ap, subst, sym, ◌==◌,
}
use mathlib.Core.Option
use cartolensia.Prelude.Dict.{lookup}
use cartolensia.Jobs.{Job, ok, add_log, cancel}
use cartolensia.Jobs.Lifecycle.{IsUnowned}
use cartolensia.Jobs.States.{queued, running, cancel_requested, canceled}
use cartolensia.Queue.{
  JobMap, is_expired, release, release_all, count_expired, is_leased, lease_over,
  finalize_cancellation, return_to_queue, release_expired_leases,
}

-- The lease of the job has run out at `now`: the job runs, or its cancellation is asked for, under a
-- lease until a time before, or its cancellation is asked for and it has no lease.
abbrev pub IsOver : ℕ → Job → Type 0
IsOver now job =
    (((job.status ≡ running) ⊎ (job.status ≡ cancel_requested))
      × ((t : ℕ) × (job.lease_expires_at ≡ some t) × (t < now)))
    ⊎ ((job.status ≡ cancel_requested) × (job.lease_expires_at ≡ none))

-- What becomes of one job when expired leases are released at `now`.
pub data Released (clock now : ℕ) (job : Job) : Job → Type 0 where
  untouched : ¬ IsOver now job → Released clock now job job
  requeued :
      {job' : Job}
      → IsOver now job
      → job.status ≡ running
      → job'.status ≡ queued
      → IsUnowned job'
      → job'.next_run_at ≡ some now
      → job'.attempts ≡ job.attempts
      → Released clock now job job'
  finalized :
      {job' : Job}
      → IsOver now job
      → job.status ≡ cancel_requested
      → job'.status ≡ canceled
      → IsUnowned job'
      → job'.finished_at ≡ some clock
      → job'.attempts ≡ job.attempts
      → Released clock now job job'

lease_over-IsOver :
    (now : ℕ) (job : Job) (o : Option ℕ)
    → job.lease_expires_at ≡ o
    → is_leased job.status ≡ true
    → lease_over now job.status o ≡ true
    → IsOver now job
lease_over-IsOver now job none e h k = ground (arith, e, k)
lease_over-IsOver now job (some t) e h k = inl (ground (arith, h), (t, e, ground (arith, k)))

is_expired-IsOver : (now : ℕ) (job : Job) → is_expired now job ≡ true → IsOver now job
unfolding is_expired
is_expired-IsOver now job h =
    lease_over-IsOver now job job.lease_expires_at refl (ground (arith, h)) (ground (arith, h))

IsOver-is_expired : (now : ℕ) (job : Job) → IsOver now job → is_expired now job ≡ true
unfolding is_expired
IsOver-is_expired now job (inl (inl s, (t, e, h))) = rw (s, e) (ground (arith, h))
IsOver-is_expired now job (inl (inr s, (t, e, h))) = rw (s, e) (ground (arith, h))
IsOver-is_expired now job (inr (s, e)) = rw (s, e) refl

live-not-IsOver : (now : ℕ) (job : Job) → is_expired now job ≡ false → ¬ IsOver now job
live-not-IsOver now job h k = cc (h, IsOver-is_expired now job k)

not-IsOver-live : (now : ℕ) (job : Job) → ¬ IsOver now job → is_expired now job ≡ false
not-IsOver-live now job h = elim (Bool-cases (is_expired now job)) [
  | inl e ↦ absurd (h (is_expired-IsOver now job e))
  | inr e ↦ e
]

pub expired_leased :
    (now : ℕ) (job : Job)
    → is_expired now job ≡ true
    → (job.status ≡ running) ⊎ (job.status ≡ cancel_requested)
unfolding is_expired
expired_leased now job h = ground arith

module _ (clock now : ℕ) (job : Job) where
  pub release_live : is_expired now job ≡ false → release clock now job ≡ job
  unfolding release
  release_live h = rw h

  pub release_running :
      is_expired now job ≡ true
      → job.status ≡ running
      → release clock now job ≡ return_to_queue clock now job
  unfolding release
  release_running h e = ground arith

  pub release_canceling :
      is_expired now job ≡ true
      → job.status ≡ cancel_requested
      → release clock now job ≡ finalize_cancellation clock job
  unfolding release
  release_canceling h e = ground arith

  return_to_queue-requeued :
      is_expired now job ≡ true
      → job.status ≡ running
      → Released clock now job (return_to_queue clock now job)
  unfolding return_to_queue
  return_to_queue-requeued h e =
      requeued (is_expired-IsOver now job h) e refl (refl, refl) refl refl

  finalize_cancellation-finalized :
      is_expired now job ≡ true
      → job.status ≡ cancel_requested
      → Released clock now job (finalize_cancellation clock job)
  unfolding finalize_cancellation
  finalize_cancellation-finalized h e =
      finalized (is_expired-IsOver now job h) e (ground arith) (ground arith) (ground arith)
        (ground arith)

-- Every job is left as it is, returned to the queue, or cancelled. It is left if no lease has run out: a
-- lease of a running job, or of one whose cancellation is asked for, has run out if its time lies
-- before, and a job whose cancellation is asked for needs none. Else it is returned, to run at once, if
-- it ran, and cancelled, with the time, if its cancellation was asked for. Both have no owner and no
-- lease and keep their count of attempts.
pub release-Released : (clock now : ℕ) (job : Job) → Released clock now job (release clock now job)
release-Released clock now job = elim (Bool-cases (is_expired now job)) [
  | inr live ↦
      subst (Released clock now job) (sym (release_live clock now job live))
        (untouched (live-not-IsOver now job live))
  | inl over ↦ elim (expired_leased now job over) [
    | inl e ↦
        subst (Released clock now job) (sym (release_running clock now job over e))
          (return_to_queue-requeued clock now job over e)
    | inr e ↦
        subst (Released clock now job) (sym (release_canceling clock now job over e))
          (finalize_cancellation-finalized clock now job over e)
  ]
]

not_leased :
    (now : ℕ) (job : Job)
    → (job.status ≡ queued) ⊎ (job.status ≡ canceled)
    → is_expired now job ≡ false
unfolding is_expired
not_leased now job h = ground arith

is_expired-Released :
    (clock now : ℕ) (job job' : Job) → Released clock now job job' → is_expired now job' ≡ false
is_expired-Released clock now job job' (untouched h) = not-IsOver-live now job h
is_expired-Released clock now job job' (requeued _ _ e _ _ _) = not_leased now job' (inl e)
is_expired-Released clock now job job' (finalized _ _ e _ _ _) = not_leased now job' (inr e)

is_expired-release : (clock now : ℕ) (job : Job) → is_expired now (release clock now job) ≡ false
is_expired-release clock now job =
    is_expired-Released clock now job (release clock now job) (release-Released clock now job)

module _ (clock later now : ℕ) where
  count_expired-release_all : (s : JobMap) → count_expired now (release_all clock now s) ≡ 0
  unfolding count_expired release_all
  count_expired-release_all [] = refl
  count_expired-release_all ((id, job) ∷ s) =
      rw (is_expired-release clock now job) (count_expired-release_all s)

  release_all-release_all :
      (s : JobMap) → release_all later now (release_all clock now s) ≡ release_all clock now s
  unfolding release_all
  release_all-release_all [] = refl
  release_all-release_all ((id, job) ∷ s) =
      rw (release_live later now (release clock now job) (is_expired-release clock now job))
        (ap (λ (m : JobMap). (id, release clock now job) ∷ m) (release_all-release_all s))

  -- After a pass no lease is over, so a second pass at the same time changes nothing and counts none.
  pub release_expired_leases-idempotent :
      (s : JobMap)
      → release_expired_leases later now (release_expired_leases clock now s).1
        ≡ (ok 0, (release_expired_leases clock now s).1)
  unfolding release_expired_leases
  release_expired_leases-idempotent s = rw (count_expired-release_all s, release_all-release_all s)

-- The pass treats every job of the map by itself, and adds and removes none.
pub lookup-release_all :
    (clock now : ℕ) (id : String) (s : JobMap)
    → lookup id (release_all clock now s) ≡ Option.map (release clock now) (lookup id s)
unfolding lookup release_all
lookup-release_all clock now id [] = refl
lookup-release_all clock now id ((k, job) ∷ s) = elim (Bool-cases (id == k)) [
  | inl e ↦ rw e
  | inr e ↦ rw e (lookup-release_all clock now id s)
]

abbrev request_time : ℕ → Option ℕ → ℕ
request_time clock none = clock
request_time clock (some t) = t

-- The log line for a finalized cancellation says that nobody owned the job even where a lease was set
-- and has run out: the lease is looked at after `Cancel` has cleared it.
pub release_canceling_log :
    (clock now until : ℕ) (job : Job)
    → job.status ≡ cancel_requested
    → job.lease_expires_at ≡ some until
    → until < now
    → (canceled_job : Job) × (cancel clock job ≡ ok canceled_job)
      × (release clock now job
          ≡ add_log clock canceled_job "warn" "unowned cancellation request finalized")
unfolding cancel release finalize_cancellation is_expired
release_canceling_log clock now until job s l h = (
  record job {
    status = canceled;
    cancel_requested_at = some (request_time clock job.cancel_requested_at);
    finished_at = some clock;
    worker_id = "";
    lease_expires_at = none;
  },
  ground arith,
  ground arith,
)
