-- ===== src/Server/Counting.antt =====
-- internal/server/server.go: the numbers of `buildJobStats` count the jobs of a status.
use cartolensia.Prelude.{
  ℕ, suc, ◌+◌, String, List, [], ◌∷◌, ◌≡◌, inl, inr, refl, ap, ◌∙◌, arith, string_eq, ◌==◌, eq_iff,
  length, All, Bool-cases, if◌then◌else◌,
}
use cartolensia.Prelude.Dict.{Dict, lookup, insert, lookup-insert}
use cartolensia.Jobs.{Job}
use cartolensia.Jobs.States.{
  Status, status_text, queued, running, cancel_requested, succeeded, failed, canceled, other,
  status_eq,
}
use cartolensia.Server.Stats.{count_of, tally, JobStats, build_job_stats}

-- How many of the jobs have the text as their status.
abbrev pub with_status : String → List Job → ℕ
with_status text [] = 0
with_status text (job ∷ jobs) =
    let rest = with_status text jobs in if text == status_text job.status then suc rest else rest

count_of-insert :
    (key new : String) (n : ℕ) (counts : Dict String ℕ)
    → count_of key (insert new n counts) ≡ (if key == new then n else count_of key counts)
count_of-insert key new n counts = elim (Bool-cases (key == new)) [
  | inl e ↦ rw (lookup-insert new key n counts, e) refl
  | inr e ↦ rw (lookup-insert new key n counts, e) refl
]

count_of-tally :
    (key : String) (counts : Dict String ℕ) (jobs : List Job)
    → count_of key (tally counts jobs) ≡ count_of key counts + with_status key jobs
unfolding tally
count_of-tally key counts [] = omega arith
count_of-tally key counts (job ∷ jobs) =
    let text = status_text job.status in
    let n = count_of text counts + 1 in
    ground (
      arith,
      count_of-tally key (insert text n counts) jobs,
      count_of-insert key text n counts,
      eq_iff key text,
    )

tallied : (key : String) (jobs : List Job) → count_of key (tally [] jobs) ≡ with_status key jobs
unfolding lookup
tallied key jobs = omega (arith, count_of-tally key [] jobs)

-- The numbers that the answer shows are added up.
abbrev pub shown : JobStats → ℕ
shown s =
    s.queued_count
    + (s.running_count
        + (s.cancel_requested_count + (s.failed_count + (s.succeeded_count + s.canceled_count))))

-- The status is one of the six constants.
abbrev pub IsNamed : Status → Type 0
IsNamed (other s) = ⊥
IsNamed _ = Unit

abbrev bumped : String → Status → ℕ → ℕ
bumped text status n = if text == status_text status then suc n else n

one_more :
    (status : Status) (a b c d e f : ℕ)
    → IsNamed status
    → bumped (status_text queued) status a
        + (bumped (status_text running) status b
            + (bumped (status_text cancel_requested) status c
                + (bumped (status_text failed) status d
                    + (bumped (status_text succeeded) status e
                        + bumped (status_text canceled) status f))))
      ≡ suc (a + (b + (c + (d + (e + f)))))
one_more queued a b c d e f n = omega arith
one_more running a b c d e f n = omega arith
one_more cancel_requested a b c d e f n = omega arith
one_more failed a b c d e f n = omega arith
one_more succeeded a b c d e f n = omega arith
one_more canceled a b c d e f n = omega arith
one_more (other s) a b c d e f n = absurd n

with_status-total :
    (jobs : List Job)
    → All (λ job. IsNamed job.status) jobs
    → with_status (status_text queued) jobs
        + (with_status (status_text running) jobs
            + (with_status (status_text cancel_requested) jobs
                + (with_status (status_text failed) jobs
                    + (with_status (status_text succeeded) jobs
                        + with_status (status_text canceled) jobs))))
      ≡ length jobs
with_status-total [] h = refl
with_status-total (job ∷ jobs) (n, h) =
    one_more job.status (with_status (status_text queued) jobs)
      (with_status (status_text running) jobs) (with_status (status_text cancel_requested) jobs)
      (with_status (status_text failed) jobs) (with_status (status_text succeeded) jobs)
      (with_status (status_text canceled) jobs) n
    ∙ ap (λ k. suc k) (with_status-total jobs h)

-- Where every job has one of the six statuses, each number that the answer shows is the number of the jobs
-- of that status, and the numbers add up to the number of jobs.
pub build_job_stats-counts :
    (jobs : List Job)
    → All (λ job. IsNamed job.status) jobs
    → (let stats = build_job_stats jobs in
        (stats.queued_count ≡ with_status (status_text queued) jobs)
        × (stats.running_count ≡ with_status (status_text running) jobs)
        × (stats.cancel_requested_count ≡ with_status (status_text cancel_requested) jobs)
        × (stats.failed_count ≡ with_status (status_text failed) jobs)
        × (stats.succeeded_count ≡ with_status (status_text succeeded) jobs)
        × (stats.canceled_count ≡ with_status (status_text canceled) jobs)
        × (shown stats ≡ length jobs))
unfolding build_job_stats
build_job_stats-counts jobs h =
    let count = λ (s : Status). tallied (status_text s) jobs in
    (
      count queued,
      count running,
      count cancel_requested,
      count failed,
      count succeeded,
      count canceled,
      rw
          (
            count queued,
            count running,
            count cancel_requested,
            count failed,
            count succeeded,
            count canceled,
          )
          (with_status-total jobs h),
    )
