-- ===== src/Discovery/Counting.antt =====
-- internal/discovery/discovery.go: the counters of a hash job.
use cartolensia.Prelude.{
  ℕ, ◌+◌, String, Bool, true, false, Option, none, some, List, [], ◌∷◌, ◌≡◌, ◌≢◌, inl, inr, refl,
  sym, subst, arith, Bool-cases, length, string_eq, ◌==◌,
}
use cartolensia.Failure.{error_text}
use cartolensia.Jobs as jobs
use cartolensia.Jobs.{Job, Result, add_log}
use cartolensia.Queue.{Reply}
use cartolensia.Catalog.{Asset, AssetStore, Found, ok, not_found, update_location_hash}
use cartolensia.Discovery.{
  Run, Outcome, error_of, report, cancel_run, or_canceled, check_canceled, stop_or, asks_to_stop,
  Reading, refused, broken, content, count_error, count_hashed, first_url,
}
use cartolensia.Discovery.Hashing.{World, reported, hashed_or, handle, unless_ended, hash_each}

-- From one state of the loop to another `n` targets are counted as hashed or as errors, and the progress is that
-- of the hashed ones.
pub record IsCounted (n : ℕ) (r t : Run) : Type 0 where
  pub each_counted :
      t.job.counters.hashed + t.job.counters.errors
      ≡ r.job.counters.hashed + r.job.counters.errors + n
  pub progress :
      t.job.progress_current + r.job.counters.hashed
      ≡ r.job.progress_current + t.job.counters.hashed

abbrev Counts : ℕ → (Run → Outcome × Run) → Type 0
Counts n rest = (r t : Run) → rest r ≡ (none, t) → IsCounted n r t

or_canceled-ends :
    (reply : Reply (Unit {0})) (job : Job) (assets : AssetStore) (t : Run)
    → or_canceled reply job assets ≢ (none, t)
or_canceled-ends (jobs.ok x, s) job assets t h = cc h
or_canceled-ends (jobs.err e, s) job assets t h = cc h

pub cancel_run-ends :
    (worker_id : String) (now : ℕ) (r t : Run) → cancel_run worker_id now r ≢ (none, t)
unfolding cancel_run
cancel_run-ends worker_id now r t h = elim (Bool-cases (worker_id == "")) [
  | inl e ↦ or_canceled-ends _ _ r.assets t (rw e at h)
  | inr e ↦ or_canceled-ends _ _ r.assets t (rw e at h)
]

stop_or-goes_on :
    (worker_id : String) (now : ℕ) (found : Option Job) (r t : Run)
    → stop_or worker_id now found r ≡ (none, t)
    → r ≡ t
stop_or-goes_on worker_id now none r t h = cc h
stop_or-goes_on worker_id now (some latest) r t h = elim (Bool-cases (asks_to_stop latest)) [
  | inl e ↦ absurd (
      cancel_run-ends worker_id now
        (record r {
          job = record r.job {
            status = latest.status;
            cancel_requested_at = latest.cancel_requested_at;
          };
        })
        t (rw e at h))
  | inr e ↦ cc (rw e at h)
]

-- a check that lets the loop go on changes nothing
pub check_canceled-goes_on :
    (worker_id : String) (now : ℕ) (stopped : Bool) (r t : Run)
    → check_canceled worker_id now stopped r ≡ (none, t)
    → r ≡ t
unfolding check_canceled
check_canceled-goes_on worker_id now true r t h = cc h
check_canceled-goes_on worker_id now false r t h = stop_or-goes_on worker_id now _ r t h

-- an error that is counted, and the rest of the loop
after_error :
    (n now : ℕ) (url text : String) (assets : AssetStore) (rest : Run → Outcome × Run) (r t : Run)
    → Counts n rest
    → rest (record r { job = count_error now url text r.job; assets = assets }) ≡ (none, t)
    → IsCounted (n + 1) r t
unfolding add_log
after_error n now url text assets rest r t counts h =
    let c : IsCounted n (record r { job = count_error now url text r.job; assets = assets }) t =
      counts (record r { job = count_error now url text r.job; assets = assets }) t h in
    record { each_counted = omega (arith, c.each_counted); progress = omega (arith, c.progress) }

module _ (worker_id : String) where
  reported-counts :
      (n bytes : ℕ) (assets : AssetStore) (rest : Run → Outcome × Run) (r t : Run)
      → Counts n rest
      → reported worker_id rest (record r { job = count_hashed bytes r.job; assets = assets })
        ≡ (none, t)
      → IsCounted (n + 1) r t
  reported-counts n bytes assets rest r t counts h =
      go (report worker_id (count_hashed bytes r.job) r.queue) h
    where
      go :
          (reply : Reply (Unit {0}))
          → (elim (error_of reply.0) [
            | none ↦
                rest (record r { job = count_hashed bytes r.job; queue = reply.1; assets = assets })
            | some e ↦ (
              some e,
              record r { job = count_hashed bytes r.job; queue = reply.1; assets = assets },
            )
          ])
            ≡ (none, t)
          → IsCounted (n + 1) r t
      go (jobs.err e, s) k = cc k
      go (jobs.ok x, s) k =
          let c : IsCounted n
              (record r { job = count_hashed bytes r.job; queue = s; assets = assets }) t =
            counts (record r { job = count_hashed bytes r.job; queue = s; assets = assets }) t k in
          record {
            each_counted = omega (arith, c.each_counted);
            progress = omega (arith, c.progress);
          }

  hashed_or-counts :
      (n now : ℕ) (url : String) (result : Found (Unit {0}) × AssetStore) (bytes : ℕ)
      (rest : Run → Outcome × Run) (r t : Run)
      → Counts n rest
      → hashed_or worker_id now url result bytes rest r ≡ (none, t)
      → IsCounted (n + 1) r t
  hashed_or-counts n now url (not_found, assets) bytes rest r t counts h =
      after_error n now url "not found" assets rest r t counts h
  hashed_or-counts n now url (ok x, assets) bytes rest r t counts h =
      reported-counts n bytes assets rest r t counts h

  handle-counts :
      (n now : ℕ) (fresh : String) (asset : Asset) (reading : Reading) (rest : Run → Outcome × Run)
      (r t : Run)
      → Counts n rest
      → handle worker_id now fresh asset reading rest r ≡ (none, t)
      → IsCounted (n + 1) r t
  handle-counts n now fresh asset (refused e true) rest r t counts h = cc h
  handle-counts n now fresh asset (refused e false) rest r t counts h =
      after_error n now (first_url asset.locations) (error_text e) r.assets rest r t counts h
  handle-counts n now fresh asset (broken e) rest r t counts h =
      after_error n now (first_url asset.locations) (error_text e) r.assets rest r t counts h
  handle-counts n now fresh asset (content hash bytes) rest r t counts h =
      hashed_or-counts n now (first_url asset.locations)
        (update_location_hash now fresh asset.id hash (some bytes) r.assets) bytes rest r t counts h

pub unless_ended-goes_on :
    (first : Outcome × Run) (rest : Run → Outcome × Run) (t : Run)
    → unless_ended first rest ≡ (none, t)
    → (r : Run) × ((first ≡ (none, r)) × (rest r ≡ (none, t)))
unless_ended-goes_on (some e, r) rest t h = cc h
unless_ended-goes_on (none, r) rest t h = (r, (refl, h))

-- If the loop of a hash job comes to its end, each target is counted once, as hashed or as an error, and the
-- progress has grown by the hashed ones.
pub hash_each-IsCounted :
    (worker_id : String) (world : World) (targets : List Asset) (r t : Run)
    → hash_each worker_id world targets r ≡ (none, t)
    → IsCounted (length targets) r t
unfolding hash_each
hash_each-IsCounted worker_id world [] r t h =
    subst (λ x. IsCounted 0 r x) {x = r} {y = t} (cc h)
      (record { each_counted = omega arith; progress = omega arith })
hash_each-IsCounted worker_id world (asset ∷ targets) r t h =
    let left : ℕ = length targets in
    let (u, (checked, handled)) =
      unless_ended-goes_on (check_canceled worker_id (world.clock left) (world.stopped left) r)
        (handle worker_id (world.clock left) (world.fresh left) asset
          (world.open_by_url (first_url asset.locations)) (hash_each worker_id world targets))
        t h in
    let same : r ≡ u =
      check_canceled-goes_on worker_id (world.clock left) (world.stopped left) r u checked in
    let c : IsCounted (left + 1) u t =
      handle-counts worker_id left (world.clock left) (world.fresh left) asset
        (world.open_by_url (first_url asset.locations)) (hash_each worker_id world targets) u t
        (hash_each-IsCounted worker_id world targets) handled in
    subst (λ x. IsCounted (length (asset ∷ targets)) x t) (sym same)
      (record { each_counted = omega (arith, c.each_counted); progress = c.progress })
