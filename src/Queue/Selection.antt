-- ===== src/Queue/Selection.antt =====
-- Which job `LeaseNextJob` of internal/catalog/catalog.go hands out.
use Prim.Native.String.{compare}
use Prim.Native.Nat.{Ordering}
use cartolensia.Prelude.{
  ℕ, String, true, false, Option, none, some, List, [], ◌∷◌, ◌≡◌, ◌≢◌, ◌⊎◌, inl, inr, refl, arith,
  Bool-cases, Option-cases, All, All-mono, string_eq, ◌≤◌, ◌<◌, ◌↔◌, contains,
}
use cartolensia.Prelude.Dict.{insert}
use cartolensia.Failure.{Failure, sentinel, not_found}
use cartolensia.Jobs.{Job, ok, err}
use cartolensia.Jobs.States.{queued, status_eq}
use cartolensia.Queue.{
  waits_until, job_kind_allowed, string_before, JobMap, may_run, precedes, select, take_lease,
  release_all, lease_next_job,
}
use cartolensia.Queue.Order.{precedes_trans, precedes_irrefl, precedes-false}

-- The job stands in the map.
abbrev pub Holds : Job → JobMap → Type 0
Holds job [] = ⊥
Holds job ((id, j) ∷ s) = (j ≡ job) ⊎ Holds job s

-- No job of the map that may run now comes before `best`.
abbrev pub NoneBefore : ℕ → List String → Job → JobMap → Type 0
NoneBefore now kinds best = All (λ e. may_run now kinds e.1 ≡ true → precedes e.1 best ≡ false)

abbrev NoneRuns : ℕ → List String → JobMap → Type 0
NoneRuns now kinds = All (λ e. may_run now kinds e.1 ≡ false)

-- The kind is one of those asked for; no kinds ask for all.
abbrev pub IsWanted : List String → Job → Type 0
IsWanted [] job = Unit {0}
IsWanted (k ∷ kinds) job = contains (k ∷ kinds) job.kind ≡ true

-- The job is queued, it is not to wait for a time that is still to come, and its kind is wanted.
pub record IsDue (now : ℕ) (kinds : List String) (job : Job) : Type 0 where
  pub waiting : job.status ≡ queued
  pub due : (t : ℕ) → job.next_run_at ≡ some t → t ≤ now
  pub wanted : IsWanted kinds job

-- It was created earlier, or at the same time with an identifier that is less.
abbrev pub IsEarlier : Job → Job → Type 0
IsEarlier a b =
    (a.created_at < b.created_at)
    ⊎ ((a.created_at ≡ b.created_at) × (compare a.id b.id ≡ Ordering.lt))

-- `best` is a due job of the map, and no due job of the map is earlier.
pub record IsNext (now : ℕ) (kinds : List String) (s : JobMap) (best : Job) : Type 0 where
  pub held : Holds best s
  pub runs : IsDue now kinds best
  pub first : All (λ e. IsDue now kinds e.1 → ¬ IsEarlier e.1 best) s

due_by : (now : ℕ) (o : Option ℕ) → waits_until now o ≡ false → (t : ℕ) → o ≡ some t → t ≤ now
due_by now none h t e = cc e
due_by now (some u) h t e = ground (arith, h, e)

waits-due : (now : ℕ) (o : Option ℕ) → ((t : ℕ) → o ≡ some t → t ≤ now) → waits_until now o ≡ false
waits-due now none h = refl
waits-due now (some u) h = ground (arith, h u refl)

IsWanted-iff :
    (kinds : List String) (job : Job)
    → (job_kind_allowed job.kind kinds ≡ true) ↔ IsWanted kinds job
unfolding job_kind_allowed
IsWanted-iff [] job = (λ h. tt, λ h. refl)
IsWanted-iff (k ∷ kinds) job = (λ h. h, λ h. h)

pub may_run-IsDue :
    (now : ℕ) (kinds : List String) (job : Job) → may_run now kinds job ≡ true → IsDue now kinds job
unfolding may_run
may_run-IsDue now kinds job h = record {
  waiting = ground (arith, h);
  due = due_by now job.next_run_at (ground (arith, h));
  wanted = (IsWanted-iff kinds job).0 (ground (arith, h));
}

IsDue-may_run :
    (now : ℕ) (kinds : List String) (job : Job) → IsDue now kinds job → may_run now kinds job ≡ true
unfolding may_run
IsDue-may_run now kinds job h =
    let soon = waits-due now job.next_run_at h.due in
    let wanted = (IsWanted-iff kinds job).1 h.wanted in
    let waiting = h.waiting in ground (arith, soon, wanted, waiting)

compare-before : (a b : String) → compare a b ≡ Ordering.lt → string_before a b ≡ true
unfolding string_before
compare-before a b h = rw (h, string_before) refl

IsEarlier-precedes : (a b : Job) → IsEarlier a b → precedes a b ≡ true
unfolding precedes
IsEarlier-precedes a b (inl h) = ground arith
IsEarlier-precedes a b (inr (e, h)) = ground (arith, e, compare-before a.id b.id h)

none_earlier :
    (now : ℕ) (kinds : List String) (best job : Job)
    → (may_run now kinds job ≡ true → precedes job best ≡ false)
    → IsDue now kinds job
    → ¬ IsEarlier job best
none_earlier now kinds best job h due earlier =
    cc (h (IsDue-may_run now kinds job due), IsEarlier-precedes job best earlier)

-- What the loop makes of a choice among all jobs of the map, by the tests of the code.
record IsChosen (now : ℕ) (kinds : List String) (s : JobMap) (best : Job) : Type 0 where
  held : Holds best s
  runs : may_run now kinds best ≡ true
  first : NoneBefore now kinds best s

IsChosen-IsNext :
    (now : ℕ) (kinds : List String) (s : JobMap) (best : Job)
    → IsChosen now kinds s best
    → IsNext now kinds s best
IsChosen-IsNext now kinds s best h = record {
  held = h.held;
  runs = may_run-IsDue now kinds best h.runs;
  first = All-mono (λ e k. none_earlier now kinds best e.1 k) s h.first;
}

-- What the loop makes of the choice `old` over the rest of the map.
record Picks (now : ℕ) (kinds : List String) (old : Job) (s : JobMap) (best : Job) : Type 0 where
  chosen : (old ≡ best) ⊎ (Holds best s × (may_run now kinds best ≡ true))
  ahead : (old ≡ best) ⊎ (precedes best old ≡ true)
  first : NoneBefore now kinds best s

not_before :
    (a old best : Job)
    → precedes a old ≡ false
    → (old ≡ best) ⊎ (precedes best old ≡ true)
    → precedes a best ≡ false
not_before a old best h (inl e) = rw (← e) h
not_before a old best h (inr p) = precedes-false a old best p h

further :
    (old new best : Job)
    → precedes new old ≡ true
    → (new ≡ best) ⊎ (precedes best new ≡ true)
    → precedes best old ≡ true
further old new best h (inl e) = rw (← e) h
further old new best h (inr p) = precedes_trans best new old p h

module _ (now : ℕ) (kinds : List String) where
  select-Picks :
      (s : JobMap) (old best : Job)
      → select now kinds (some old) s ≡ some best
      → Picks now kinds old s best
  unfolding select
  select-Picks [] old best h = record { chosen = inl (cc); ahead = inl (cc); first = tt }
  select-Picks ((id, job) ∷ s) old best h = elim (Bool-cases (may_run now kinds job)) [
    | inr idle ↦
        let p = select-Picks s old best (rw idle at h) in
        record {
          chosen = ground (arith, p.chosen);
          ahead = p.ahead;
          first = (λ r. cc (r, idle), p.first);
        }
    | inl runs ↦ elim (Bool-cases (precedes job old)) [
      | inr behind ↦
          let p = select-Picks s old best (rw (runs, behind) at h) in
          record {
            chosen = ground (arith, p.chosen);
            ahead = p.ahead;
            first = (λ r. not_before job old best behind p.ahead, p.first);
          }
      | inl better ↦
          let p = select-Picks s job best (rw (runs, better) at h) in
          record {
            chosen = ground (arith, p.chosen, runs);
            ahead = inr (further old job best better p.ahead);
            first = (λ r. not_before job job best (precedes_irrefl job) p.ahead, p.first);
          }
    ]
  ]

  select-none : (s : JobMap) (old : Job) → select now kinds (some old) s ≢ none
  unfolding select
  select-none [] old = λ e. cc e
  select-none ((id, job) ∷ s) old = ground (arith, select-none s old, select-none s job)

  select-IsChosen :
      (s : JobMap) (best : Job) → select now kinds none s ≡ some best → IsChosen now kinds s best
  unfolding select
  select-IsChosen [] best h = cc
  select-IsChosen ((id, job) ∷ s) best h = elim (Bool-cases (may_run now kinds job)) [
    | inr idle ↦
        let p = select-IsChosen s best (rw idle at h) in
        record { held = inr p.held; runs = p.runs; first = (λ r. cc (r, idle), p.first) }
    | inl runs ↦
        let p = select-Picks s job best (rw runs at h) in
        record {
          held = ground (arith, p.chosen);
          runs = ground (arith, p.chosen, runs);
          first = (λ r. not_before job job best (precedes_irrefl job) p.ahead, p.first);
        }
  ]

  select-NoneRuns : (s : JobMap) → select now kinds none s ≡ none → NoneRuns now kinds s
  unfolding select
  select-NoneRuns [] h = tt
  select-NoneRuns ((id, job) ∷ s) h = elim (Bool-cases (may_run now kinds job)) [
    | inr idle ↦ (idle, select-NoneRuns s (rw idle at h))
    | inl runs ↦ absurd (select-none s job (rw runs at h))
  ]

module _ (clock : ℕ) (worker : String) (kinds : List String) (duration : ℕ) (s : JobMap) where
  -- The job that a worker is given is queued, of the worker's kinds and does not wait for a later time,
  -- and no such job was created earlier, or at the same time with a lesser identifier, expired leases
  -- having been returned before. It is marked
  -- as running under the worker's lease with one more attempt, and only its entry changes.
  pub lease_next_job-IsNext :
      {job : Job} {t : JobMap}
      → lease_next_job clock worker kinds duration s ≡ (ok job, t)
      → (best : Job) × IsNext clock kinds (release_all clock clock s) best
        × (job ≡ take_lease clock worker duration best)
        × (t ≡ insert job.id job (release_all clock clock s))
  unfolding lease_next_job
  lease_next_job-IsNext h =
      elim (Option-cases (select clock kinds none (release_all clock clock s))) [
        | inl e ↦ cc (rw e at h)
        | inr (best, e) ↦ (
          best,
          IsChosen-IsNext clock kinds (release_all clock clock s) best
              (select-IsChosen clock kinds (release_all clock clock s) best e),
          cc (rw e at h),
          cc (rw e at h),
        )
      ]

  -- A worker goes without a job only if no job of its kinds is queued and does not wait for a later time,
  -- expired leases having been returned before; they stay returned.
  pub lease_next_job-NoneRuns :
      {e : Failure} {t : JobMap}
      → lease_next_job clock worker kinds duration s ≡ (err e, t)
      → All (λ e. ¬ IsDue clock kinds (e.1)) (release_all clock clock s)
        × (e ≡ sentinel not_found)
        × (t ≡ release_all clock clock s)
  unfolding lease_next_job
  lease_next_job-NoneRuns h =
      elim (Option-cases (select clock kinds none (release_all clock clock s))) [
        | inl e ↦ (
          All-mono (λ x h due. cc (h, IsDue-may_run clock kinds x.1 due))
              (release_all clock clock s)
              (select-NoneRuns clock kinds (release_all clock clock s) e),
          cc (rw e at h),
          cc (rw e at h),
        )
        | inr (best, e) ↦ cc (rw e at h)
      ]
