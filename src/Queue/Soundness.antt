-- ===== src/Queue/Soundness.antt =====
-- Every request keeps the queue sound.
use cartolensia.Prelude.{
  ℕ, ◌+◌, String, Bool, true, none, some, List, [], ◌∷◌, ◌≡◌, inl, inr, refl, arith, string_eq,
  Bool-cases, Option-cases, subst, sym, ◌==◌, All, ◌&&◌, eqb,
}
use cartolensia.Prelude.Dict.{lookup, insert, Each-insert, Each-lookup}
use cartolensia.Failure.{Failure}
use cartolensia.Jobs.{Job, Result, ok, err, complete, cancel, request_cancel, add_log}
use cartolensia.Jobs.Lifecycle.{
  Promise, IsConsistent, IsUnowned, after, apply, completes as op_completes, cancels as op_cancels,
  requests_cancel as op_requests_cancel,
}
use cartolensia.Jobs.Consistency.{apply-IsConsistent, Promise-add_log}
use cartolensia.Jobs.States.{Status, queued, running, cancel_requested, status_eq}
use cartolensia.Queue.{
  JobMap, Reply, enqueue_job, update_job, request_cancel_job, release_expired_leases, release,
  release_all, lease_next_job, take_lease, holds_lease, with_lease_of, keep_cancellation, stored,
  guarded, known, select, heartbeat_job, update_leased_job, complete_leased_job, cancel_leased_job,
  fail_leased_job, fail_leased_locked, failed_job, cause_or_failed, finalize_cancellation,
  return_to_queue, stored_result, with_log, is_expired,
}
use cartolensia.Queue.Identity.{Keeps, complete-id, cancel-id, failed_job-id}
use cartolensia.Queue.Failing.{Outcome, IsActive, failed_job-Outcome}
use cartolensia.Queue.Expiry.{release_live, release_running, release_canceling, expired_leased}
use cartolensia.Queue.Ownership.{Call, heartbeats, updates, completes, cancels, fails, call}
use cartolensia.Queue.Invariant.{
  IsSoundAt, IsSound, Request, enqueues, requests_cancel, replaces, releases, leases, calls,
  IsActiveCopy, Admissible, handle, serve,
}

-- A result that is sound under the identifier, if it is a job.
abbrev SoundResult : String → Result Job → Type 0
SoundResult id (ok job) = IsSoundAt id job
SoundResult id (err e) = Unit {0}

after-SoundResult :
    (id : String) (job : Job) (r : Result Job)
    → IsConsistent (after job r)
    → Keeps id r
    → SoundResult id r
after-SoundResult id job (ok job') c k = (k, c)
after-SoundResult id job (err e) c k = tt

stored-IsSound :
    (id : String) (r : Result Job) (s : JobMap)
    → SoundResult id r
    → IsSound s
    → IsSound (stored r s).1
stored-IsSound id (ok job) s (k, c) h = Each-insert IsSoundAt job.id job s (refl, c) h
stored-IsSound id (err e) s k h = h

copy-IsConsistent :
    (current job : Job) → IsActiveCopy job.status job → IsConsistent (with_lease_of current job)
copy-IsConsistent current job a = ground arith

copy-IsActive : (status : Status) (job : Job) → IsActiveCopy status job → IsActive status
copy-IsActive running job a = inl refl
copy-IsActive cancel_requested job a = inr refl
copy-IsActive queued job a = absurd a
copy-IsActive _ job a = absurd a

Outcome-IsConsistent :
    (clock : ℕ) (job : Job) (cause : Failure) (job' : Job)
    → Outcome clock job cause job'
    → IsConsistent job'
Outcome-IsConsistent clock job cause job' (inl (_, r)) =
    subst (λ st. Promise st job') (sym r.status) r.unowned
Outcome-IsConsistent clock job cause job' (inr (_, r)) =
    subst (λ st. Promise st job') (sym r.status) (r.unowned, ground (arith, r.finished))

module _ (clock : ℕ) (current job : Job) (active : IsActiveCopy job.status job) where
  complete-Sound : SoundResult job.id (complete clock (with_lease_of current job))
  complete-Sound =
      let copy = with_lease_of current job in
      after-SoundResult job.id copy (complete clock copy)
        (unfold apply in
          apply-IsConsistent clock op_completes copy (copy-IsConsistent current job active))
        (complete-id clock copy)

  cancel-Sound : SoundResult job.id (cancel clock (with_lease_of current job))
  cancel-Sound =
      let copy = with_lease_of current job in
      after-SoundResult job.id copy (cancel clock copy)
        (unfold apply in
          apply-IsConsistent clock op_cancels copy (copy-IsConsistent current job active))
        (cancel-id clock copy)

  failed_job-Sound :
      (cause : Failure) → SoundResult job.id (failed_job clock (with_lease_of current job) cause)
  failed_job-Sound cause =
      let copy = with_lease_of current job in
      let (job', e, o) =
        failed_job-Outcome clock copy cause (copy-IsActive job.status job active) in
      after-SoundResult job.id copy (failed_job clock copy cause)
        (rw e (Outcome-IsConsistent clock copy cause job' o)) (failed_job-id clock copy cause)

  update-id : (with_lease_of current (keep_cancellation current job)).id ≡ job.id
  update-id = ground arith

  update-Sound :
      IsConsistent current → IsConsistent (with_lease_of current (keep_cancellation current job))
  update-Sound h = ground arith

module _ (clock now : ℕ) (id : String) (job : Job) where
  return_to_queue-Sound : IsSoundAt id job → IsSoundAt id (return_to_queue clock now job)
  unfolding return_to_queue
  return_to_queue-Sound h = (h.0, (refl, refl))

  finalize_cancellation-Sound :
      job.status ≡ cancel_requested
      → IsSoundAt id job
      → IsSoundAt id (finalize_cancellation clock job)
  unfolding finalize_cancellation
  finalize_cancellation-Sound e h = (ground (arith, h.0), ground (arith, h.1))

  release-Sound : IsSoundAt id job → IsSoundAt id (release clock now job)
  release-Sound h = elim (Bool-cases (is_expired now job)) [
    | inr live ↦ rw (release_live clock now job live) h
    | inl over ↦ elim (expired_leased now job over) [
      | inl e ↦ rw (release_running clock now job over e) (return_to_queue-Sound h)
      | inr e ↦ rw (release_canceling clock now job over e) (finalize_cancellation-Sound e h)
    ]
  ]

release_all-IsSound : (clock now : ℕ) (s : JobMap) → IsSound s → IsSound (release_all clock now s)
unfolding release_all
release_all-IsSound clock now [] h = tt
release_all-IsSound clock now ((id, job) ∷ s) h =
    (release-Sound clock now id job h.0, release_all-IsSound clock now s h.1)

lease_next_job-IsSound :
    (clock : ℕ) (worker : String) (kinds : List String) (duration : ℕ) (s : JobMap)
    → IsSound s
    → IsSound (lease_next_job clock worker kinds duration s).1
unfolding lease_next_job take_lease
lease_next_job-IsSound clock worker kinds duration s h =
    let s' : JobMap = release_all clock clock s in
    let h' : IsSound s' = release_all-IsSound clock clock s h in
    elim (Option-cases (select clock kinds none s')) [
      | inl e ↦ rw e h'
      | inr (job, e) ↦
          rw e
            (Each-insert IsSoundAt job.id (take_lease clock worker duration job) s' (refl, tt) h')
    ]

enqueue_job-IsSound :
    (job : Job) (s : JobMap)
    → job.status ≡ queued
    → IsUnowned job
    → IsSound s
    → IsSound (enqueue_job job s).1
unfolding enqueue_job
enqueue_job-IsSound job s q u h = elim (Bool-cases (eqb job.max_attempts 0)) [
  | inl e ↦
      let job' : Job = record job { max_attempts = 3 } in
      rw e (Each-insert IsSoundAt job.id job' s (refl, subst (λ st. Promise st job') (sym q) u) h)
  | inr e ↦
      rw e (Each-insert IsSoundAt job.id job s (refl, subst (λ st. Promise st job) (sym q) u) h)
]

module _ (id : String) (s : JobMap) (h : IsSound s) where
  known-IsSound :
      {A : Type 0} (f : Job → Reply A)
      → ((job : Job) → IsSoundAt id job → IsSound (f job).1)
      → IsSound (known (lookup id s) f s).1
  known-IsSound f k = elim (Option-cases (lookup id s)) [
    | inl e ↦ rw e h
    | inr (job, e) ↦ rw e (k job (Each-lookup IsSoundAt id job s h e))
  ]

  leased-IsSound :
      (test : Job → Bool) (f : Job → Reply (Unit {0}))
      → ((job : Job) → IsSoundAt id job → test job ≡ true → IsSound (f job).1)
      → IsSound (known (lookup id s) (λ job. guarded (test job) (f job) s) s).1
  leased-IsSound test f k =
      known-IsSound (λ job. guarded (test job) (f job) s)
        λ job sound. elim (Bool-cases (test job)) [ inl t ↦ rw t (k job sound t) | inr t ↦ rw t h ]

heartbeat-Sound :
    (id worker : String) (until : ℕ) (job : Job)
    → IsSoundAt id job
    → holds_lease worker job ≡ true
    → IsConsistent (record job { lease_expires_at = some until })
heartbeat-Sound id worker until job sound held = ground (arith, sound.1)

call-IsSound :
    (clock : ℕ) (worker : String) (c : Call) (s : JobMap)
    → Admissible (calls worker c)
    → IsSound s
    → IsSound (call clock worker c s).1
unfolding call heartbeat_job update_leased_job complete_leased_job cancel_leased_job fail_leased_job
    fail_leased_locked
call-IsSound clock worker (heartbeats id d) s a h =
    leased-IsSound id s h (holds_lease worker) _ λ job sound held.
      Each-insert IsSoundAt id _ s (sound.0, heartbeat-Sound id worker (clock + d) job sound held) h
call-IsSound clock worker (updates job) s a h =
    leased-IsSound job.id s h (holds_lease worker) _ λ current sound held.
      Each-insert IsSoundAt job.id _ s
        (update-id clock current job a, update-Sound clock current job a sound.1) h
call-IsSound clock worker (completes job) s a h =
    leased-IsSound job.id s h (λ current. current.worker_id == worker && current.status == running)
      (λ current. stored (complete clock (with_lease_of current job)) s)
      λ current sound held. stored-IsSound job.id _ s (complete-Sound clock current job a) h
call-IsSound clock worker (cancels job) s a h =
    leased-IsSound job.id s h (holds_lease worker) _
      λ current sound held. stored-IsSound job.id _ s (cancel-Sound clock current job a) h
call-IsSound clock worker (fails job cause) s a h =
    leased-IsSound job.id s h (holds_lease worker) _ λ current sound held.
      stored-IsSound job.id _ s (failed_job-Sound clock current job a (cause_or_failed cause)) h

with_log-Sound :
    (clock : ℕ) (id level text : String) (job : Job) (r : Result Job)
    → IsConsistent (after job r)
    → Keeps id r
    → SoundResult id (with_log clock r level text)
with_log-Sound clock id level text job (ok job') c k =
    (unfold add_log in k, unfold add_log in Promise-add_log job'.status clock level text job' c)
with_log-Sound clock id level text job (err e) c k = tt

request_cancel-Sound :
    (clock : ℕ) (id : String) (job : Job)
    → IsSoundAt id job
    → SoundResult id (with_log clock (request_cancel clock job) "info" "cancellation requested")
request_cancel-Sound clock id job sound =
    with_log-Sound clock id "info" "cancellation requested" job (request_cancel clock job)
      (unfold apply in apply-IsConsistent clock op_requests_cancel job sound.1)
      (unfold request_cancel in ground (arith, sound.0))

stored_result-IsSound :
    (id : String) (r : Result Job) (s : JobMap)
    → SoundResult id r
    → IsSound s
    → IsSound (stored_result id r s).1
stored_result-IsSound id (ok job) s k h = Each-insert IsSoundAt id job s k h
stored_result-IsSound id (err e) s k h = h

-- Every request, refused or not, keeps a sound queue sound: each job stays under its identifier, and
-- what its status promises holds.
pub handle-IsSound :
    (clock : ℕ) (r : Request) (s : JobMap) → Admissible r → IsSound s → IsSound (handle clock r s)
unfolding handle update_job request_cancel_job release_expired_leases
handle-IsSound clock (enqueues job) s a h = enqueue_job-IsSound job s a.0 a.1 h
handle-IsSound clock (requests_cancel id) s a h =
    known-IsSound id s h _
      λ job sound. stored_result-IsSound id _ s (request_cancel-Sound clock id job sound) h
handle-IsSound clock (replaces job) s a h =
    known-IsSound job.id s h (λ _. (ok tt, insert job.id job s))
      λ current sound. Each-insert IsSoundAt job.id job s (refl, a) h
handle-IsSound clock (releases now) s a h = release_all-IsSound clock now s h
handle-IsSound clock (leases worker kinds duration) s a h =
    lease_next_job-IsSound clock worker kinds duration s h
handle-IsSound clock (calls worker c) s a h = call-IsSound clock worker c s a h

-- After any admissible requests to a sound queue, such as an empty one, each job stands under its
-- identifier and keeps what its status promises of its owner, its lease and its times. Admissible
-- are new jobs that wait without owner, workers' copies that say that the job runs or that its
-- cancellation was asked for, with its time, and jobs for `UpdateJob` that keep what their status
-- promises; all other requests are admissible as they are.
pub serve-IsSound :
    (s : JobMap) (requests : List (ℕ × Request))
    → IsSound s
    → All (λ r. Admissible r.1) requests
    → IsSound (serve s requests)
unfolding serve
serve-IsSound s [] h a = h
serve-IsSound s ((clock, r) ∷ rs) h a =
    serve-IsSound (handle clock r s) rs (handle-IsSound clock r s a.0 h) a.1
