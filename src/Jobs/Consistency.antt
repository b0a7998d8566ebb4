-- ===== src/Jobs/Consistency.antt =====
-- The operations of internal/jobs/jobs.go against the state machine of `Transition`, and the
-- invariant that they keep.
use cartolensia.Prelude.{ℕ, String, none, some, List, [], ◌∷◌, ◌≡◌, refl, arith}
use cartolensia.Jobs.{Job, ok, add_log}
use cartolensia.Jobs.States.{Status, queued, succeeded, transition, transition_self}
use cartolensia.Jobs.Lifecycle.{
  Operation, starts, completes, requests_cancel, cancels, fails, retries, retries_now, logs, apply,
  after, run, Promise, IsConsistent,
}

status-add_log : (now : ℕ) (job : Job) (l m : String) → (add_log now job l m).status ≡ job.status
unfolding add_log
status-add_log now job l m = refl

logs-transition :
    (now : ℕ) (l m : String) (job changed : Job)
    → apply now (logs l m) job ≡ ok changed
    → transition job.status changed.status ≡ none
unfolding apply
logs-transition now l m job changed h = ground (arith, transition_self job.status)

-- Every operation that is not refused moves the status along an edge that `Transition` allows, also
-- the cancellation request, which does not call it.
pub apply-transition :
    (now : ℕ) (op : Operation) (job changed : Job)
    → apply now op job ≡ ok changed
    → transition job.status changed.status ≡ none
unfolding apply transition
apply-transition now starts job changed h = ground arith
apply-transition now completes job changed h = ground arith
apply-transition now requests_cancel job changed h = ground arith
apply-transition now cancels job changed h = ground arith
apply-transition now (fails none) job changed h = ground arith
apply-transition now (fails (some e)) job changed h = ground arith
apply-transition now (retries d none) job changed h = ground arith
apply-transition now (retries d (some e)) job changed h = ground arith
apply-transition now (retries_now e) job changed h = ground arith
apply-transition now (logs l m) job changed h = logs-transition now l m job changed h

pub Promise-add_log :
    (s : Status) (now : ℕ) (l m : String) (job : Job)
    → Promise s job
    → Promise s (add_log now job l m)
unfolding add_log
Promise-add_log queued now l m job h = h
Promise-add_log _ now l m job h = h

-- A job that keeps what its status promises keeps it after any operation, refused or not.
pub apply-IsConsistent :
    (now : ℕ) (op : Operation) (job : Job)
    → IsConsistent job
    → IsConsistent (after job (apply now op job))
unfolding apply transition
apply-IsConsistent now starts job h = ground arith
apply-IsConsistent now completes job h = ground arith
apply-IsConsistent now requests_cancel job h = ground arith
apply-IsConsistent now cancels job h = ground arith
apply-IsConsistent now (fails none) job h = ground arith
apply-IsConsistent now (fails (some e)) job h = ground arith
apply-IsConsistent now (retries d none) job h = ground arith
apply-IsConsistent now (retries d (some e)) job h = ground arith
apply-IsConsistent now (retries_now e) job h = ground arith
apply-IsConsistent now (logs l m) job h = Promise-add_log job.status now l m job h

-- From any job that keeps what its status promises, such as a new one or one that a worker runs under a
-- lease, whatever operations it goes through, and in whatever order: while it waits or once it is settled no
-- worker owns it and it has no lease; a settled job has its time of finishing; a job whose cancellation is
-- asked for or done has the time of the request.
pub run-IsConsistent :
    (history : List (ℕ × Operation)) (job : Job) → IsConsistent job → IsConsistent (run job history)
unfolding run
run-IsConsistent [] job h = h
run-IsConsistent ((now, op) ∷ rest) job h =
    run-IsConsistent rest (after job (apply now op job)) (apply-IsConsistent now op job h)

settled-apply :
    (now : ℕ) (op : Operation) (job : Job)
    → job.status ≡ succeeded
    → (after job (apply now op job)).status ≡ succeeded
unfolding apply transition
settled-apply now starts job h = ground arith
settled-apply now completes job h = ground arith
settled-apply now requests_cancel job h = ground arith
settled-apply now cancels job h = ground arith
settled-apply now (fails none) job h = ground arith
settled-apply now (fails (some e)) job h = ground arith
settled-apply now (retries d none) job h = ground arith
settled-apply now (retries d (some e)) job h = ground arith
settled-apply now (retries_now e) job h = ground arith
settled-apply now (logs l m) job h = h

-- Success is final: no operations, a manual retry among them, take a job out of it.
pub run-succeeded :
    (history : List (ℕ × Operation)) (job : Job)
    → job.status ≡ succeeded
    → (run job history).status ≡ succeeded
unfolding run
run-succeeded [] job h = h
run-succeeded ((now, op) ∷ rest) job h =
    run-succeeded rest (after job (apply now op job)) (settled-apply now op job h)
