-- ===== src/Enrichment/Counting.antt =====
-- internal/metadata/metadata.go: what the loops of a metadata job add to its counters.
use cartolensia.Prelude.{
  ℕ, suc, ◌+◌, String, Bool, true, false, Option, none, some, List, [], ◌∷◌, ◌≡◌, inl, inr, refl,
  sym, ap, subst, arith, string_eq, length, Bool-cases, Option-cases,
}
use cartolensia.Jobs.{Job, add_log}
use cartolensia.Catalog.{Asset}
use cartolensia.Discovery.{Run, Outcome, error_of, report, asks_to_stop}
use cartolensia.Discovery.Hashing.{reported}
use cartolensia.Discovery.Counting.{cancel_run-ends, unless_ended-goes_on}
use cartolensia.Enrichment.{Payload, World, stop_or, check_enrichment, count_scanned, count_skipped}
use cartolensia.Enrichment.Scopes.{is_full, target_of}
use cartolensia.Enrichment.Loops.{
  PageEnd, goes_on, unless_returned, keep, check, enrich_asset, counted_asset, process_asset,
  process_each, page_each,
}

stop_or-goes_on :
    (worker_id : String) (now : ℕ) (found : Option Job) (r t : Run)
    → stop_or worker_id now found r ≡ (none, t)
    → r ≡ t
stop_or-goes_on worker_id now none r t h = cc h
stop_or-goes_on worker_id now (some latest) r t h = elim (Bool-cases (asks_to_stop latest)) [
  | inl e ↦ absurd (cancel_run-ends worker_id now r t (rw e at h))
  | inr e ↦ cc (rw e at h)
]

pub check_enrichment-goes_on :
    (worker_id : String) (now : ℕ) (stopped : Bool) (r t : Run)
    → check_enrichment worker_id now stopped r ≡ (none, t)
    → r ≡ t
unfolding check_enrichment
check_enrichment-goes_on worker_id now true r t h = cc h
check_enrichment-goes_on worker_id now false r t h = stop_or-goes_on worker_id now _ r t h

after_report :
    (o : Outcome) (r t : Run)
    → (elim o [ none ↦ keep r | some e ↦ (some e, r) ]) ≡ (none, t)
    → r ≡ t
after_report none r t h = cc h
after_report (some e) r t h = cc h

-- A report that succeeds leaves the runner's copy of the job, and the catalog, as they are.
pub reported-assets :
    (worker_id : String) (r t : Run) → reported worker_id keep r ≡ (none, t) → t.assets ≡ r.assets
reported-assets worker_id r t h =
    let reply = report worker_id r.job r.queue in
    let same = after_report (error_of reply.0) (record r { queue = reply.1 }) t h in
    sym (ap (λ (x : Run). x.assets) same)

pub reported-job :
    (worker_id : String) (r t : Run) → reported worker_id keep r ≡ (none, t) → t.job ≡ r.job
reported-job worker_id r t h =
    let reply = report worker_id r.job r.queue in
    let same = after_report (error_of reply.0) (record r { queue = reply.1 }) t h in
    sym (ap (λ (x : Run). x.job) same)

-- Each of `n` assets was updated, failed or passed over, and moved the progress by one; `m` of them were
-- counted as scanned.
pub record IsHandled (n m : ℕ) (before after : Job) : Type 0 where
  pub handled :
      after.counters.updated + (after.counters.errors + after.counters.files_skipped)
      ≡ before.counters.updated + (before.counters.errors + before.counters.files_skipped) + n
  pub progress : after.progress_current ≡ before.progress_current + n
  pub scanned : after.counters.scanned ≡ before.counters.scanned + m

pub both-IsHandled :
    (k l : ℕ) {n m n' m' : ℕ} (a b c : Job)
    → IsHandled n m a b
    → IsHandled n' m' b c
    → k ≡ n + n'
    → l ≡ m + m'
    → IsHandled k l a c
both-IsHandled k l a b c h g e f = record {
  handled = omega (arith, h.handled, g.handled, e);
  progress = omega (arith, h.progress, g.progress, e);
  scanned = omega (arith, h.scanned, g.scanned, f);
}

module _ (worker_id : String) (world : World) where
  counted_asset-IsHandled :
      (asset : Asset) (outcome : Outcome) (r : Run)
      → IsHandled 1 0 r.job (counted_asset worker_id world asset outcome r).job
  unfolding add_log
  counted_asset-IsHandled asset none r = record {
    handled = omega arith;
    progress = omega arith;
    scanned = omega arith;
  }
  counted_asset-IsHandled asset (some e) r = record {
    handled = omega arith;
    progress = omega arith;
    scanned = omega arith;
  }

  process_asset-IsHandled :
      (asset : Asset) (r t : Run)
      → process_asset worker_id world asset r ≡ (none, t)
      → IsHandled 1 0 r.job t.job
  unfolding process_asset
  process_asset-IsHandled asset r t h =
      let (u, (checked, rest)) =
        unless_ended-goes_on (check worker_id world r)
          (λ r'.
            let (outcome, assets) = enrich_asset worker_id world asset r'.assets in
            reported worker_id keep
              (counted_asset worker_id world asset outcome (record r' { assets = assets })))
          t h in
      let same : r ≡ u =
        check_enrichment-goes_on worker_id (world.clock r.job.progress_current)
          (world.stopped r.job.progress_current) r u checked in
      let c =
        counted_asset-IsHandled asset (enrich_asset worker_id world asset u.assets).0
          (record u { assets = (enrich_asset worker_id world asset u.assets).1 }) in
      let e =
        reported-job worker_id
          (counted_asset worker_id world asset (enrich_asset worker_id world asset u.assets).0
            (record u { assets = (enrich_asset worker_id world asset u.assets).1 }))
          t rest in
      subst (λ j. IsHandled 1 0 j t.job) (sym (ap (λ (x : Run). x.job) same))
        (subst (λ j. IsHandled 1 0 u.job j) (sym e) c)

  -- If the loop over the targets of a metadata job comes to its end, each target was updated or counted_asset as
  -- an error, and moved the progress by one.
  process_each-IsHandled :
      (targets : List Asset) (r t : Run)
      → process_each worker_id world targets r ≡ (none, t)
      → IsHandled (length targets) 0 r.job t.job
  unfolding process_each
  process_each-IsHandled [] r t h =
      let same : r ≡ t = cc h in
      subst (λ j. IsHandled 0 0 r.job j) (ap (λ (x : Run). x.job) same)
        (record { handled = omega arith; progress = omega arith; scanned = omega arith })
  process_each-IsHandled (asset ∷ targets) r t h =
      let (u, (one, rest)) =
        unless_ended-goes_on (process_asset worker_id world asset r)
          (process_each worker_id world targets) t h in
      both-IsHandled (suc (length targets)) 0 r.job u.job t.job
        (process_asset-IsHandled asset r u one) (process_each-IsHandled targets u t rest)
        (omega arith) (omega arith)

  scan_one : (r : Run) → IsHandled 0 1 r.job (count_scanned r.job)
  scan_one r = record { handled = omega arith; progress = omega arith; scanned = omega arith }

  skip_one : (r : Run) → IsHandled 1 1 r.job (count_skipped (count_scanned r.job))
  skip_one r = record { handled = omega arith; progress = omega arith; scanned = omega arith }

  module _ (payload : Payload) (unbounded : payload.max_files ≡ 0) where
    pub unless_returned-goes_on :
        (first : Outcome × Run) (rest : Run → PageEnd × Run) (n : ℕ) (t : Run)
        → unless_returned first rest ≡ (goes_on n, t)
        → (r : Run) × ((first ≡ (none, r)) × (rest r ≡ (goes_on n, t)))
    unless_returned-goes_on (some e, r) rest n t h = cc h
    unless_returned-goes_on (none, r) rest n t h = (r, (refl, h))

    pub never_full : (n : ℕ) → is_full payload n ≡ false
    never_full n = ground (arith, unbounded)

    pub page_each-IsHandled :
        (assets : List Asset) (n m : ℕ) (r t : Run)
        → page_each worker_id world payload assets n r ≡ (goes_on m, t)
        → IsHandled (length assets) (length assets) r.job t.job
    unfolding page_each
    page_each-IsHandled [] n m r t h =
        let same : r ≡ t = cc h in
        subst (λ j. IsHandled 0 0 r.job j) (ap (λ (x : Run). x.job) same)
          (record { handled = omega arith; progress = omega arith; scanned = omega arith })
    page_each-IsHandled (asset ∷ assets) n m r t h = elim (Option-cases (target_of payload asset)) [
      | inl e ↦
          let (u, (told, rest)) =
            unless_returned-goes_on _ (page_each worker_id world payload assets n) m t
              (rw (never_full n, e) at h) in
          let skipped : Run = record r { job = count_skipped (count_scanned r.job) } in
          both-IsHandled (suc (length assets)) (suc (length assets)) r.job u.job t.job
            (subst (λ j. IsHandled 1 1 r.job j) (sym (reported-job worker_id skipped u told))
              (skip_one r))
            (page_each-IsHandled assets n m u t rest) (omega arith) (omega arith)
      | inr (scoped, e) ↦
          let (u, (told, rest)) =
            unless_returned-goes_on _ (page_each worker_id world payload assets (suc n)) m t
              (rw (never_full n, e) at h) in
          let scanned : Run = record r { job = count_scanned r.job } in
          let one =
            both-IsHandled 1 1 r.job scanned.job u.job (scan_one r)
              (process_asset-IsHandled scoped scanned u told) (omega arith) (omega arith) in
          both-IsHandled (suc (length assets)) (suc (length assets)) r.job u.job t.job one
            (page_each-IsHandled assets (suc n) m u t rest) (omega arith) (omega arith)
    ]
