-- ===== src/Discovery/Hashing.antt =====
-- internal/discovery/discovery.go: the loop of `HashUnhashed` over its targets. The clock, the fresh identifiers and
-- whether the context is done are functions of how many targets are left.
use cartolensia.Prelude.{ℕ, String, Bool, true, false, Option, none, some, List, [], ◌∷◌, length}
use cartolensia.Failure.{Failure, error_text, permanent_error}
use cartolensia.Catalog.{Asset, AssetStore, Found, ok, not_found, update_location_hash}
use cartolensia.Discovery.{
  Run, Outcome, error_of, report, fail_run, check_canceled, Reading, refused, broken, content,
  count_error, count_hashed, first_url,
}

-- What the loop meets in the world while `n` targets are left.
pub record World : Type 0 where
  pub clock : ℕ → ℕ
  pub fresh : ℕ → String
  pub stopped : ℕ → Bool
  pub open_by_url : String → Reading

abbrev or_cause : Failure → Option Failure → Failure
or_cause cause none = cause
or_cause cause (some e) = e

module _ (worker_id : String) where
  -- the job fails for good, whatever failJob answers
  abbrev give_up : ℕ → Failure → Run → Outcome × Run
  give_up now cause r =
      (some cause, record r { queue = (fail_run worker_id now r.job cause r.queue).1 })

  -- the update after a file is hashed, and the rest of the loop
  abbrev pub reported : (Run → Outcome × Run) → Run → Outcome × Run
  reported rest r =
      let reply = report worker_id r.job r.queue in
      let r' : Run = record r { queue = reply.1 } in
      (elim (error_of reply.0) [ none ↦ rest r' | some e ↦ (some e, r') ])

  abbrev pub hashed_or :
      ℕ → String → Found (Unit {0}) × AssetStore → ℕ → (Run → Outcome × Run) → Run → Outcome × Run
  hashed_or now url (not_found, assets) bytes rest r =
      rest (record r { job = count_error now url "not found" r.job; assets = assets })
  hashed_or now url (ok x, assets) bytes rest r =
      reported rest (record r { job = count_hashed bytes r.job; assets = assets })

  -- what is done with what reading the file comes to
  abbrev pub handle : ℕ → String → Asset → Reading → (Run → Outcome × Run) → Run → Outcome × Run
  handle now fresh asset (refused e true) rest r =
      let r' : Run = record r {
        job = count_error now (first_url asset.locations) (error_text e) r.job;
      } in
      give_up now (or_cause e (permanent_error (some e))) r'
  handle now fresh asset (refused e false) rest r =
      rest (record r { job = count_error now (first_url asset.locations) (error_text e) r.job })
  handle now fresh asset (broken e) rest r =
      rest (record r { job = count_error now (first_url asset.locations) (error_text e) r.job })
  handle now fresh asset (content hash bytes) rest r =
      hashed_or now (first_url asset.locations)
        (update_location_hash now fresh asset.id hash (some bytes) r.assets) bytes rest r

abbrev pub unless_ended : Outcome × Run → (Run → Outcome × Run) → Outcome × Run
unless_ended (some e, r) rest = (some e, r)
unless_ended (none, r) rest = rest r

unfoldable pub hash_each : String → World → List Asset → Run → Outcome × Run
unfolding check_canceled
hash_each worker_id world [] r = (none, r)
hash_each worker_id world (asset ∷ targets) r =
    let left = length targets in
    unless_ended (check_canceled worker_id (world.clock left) (world.stopped left) r) (
      handle worker_id (world.clock left) (world.fresh left) asset
        (world.open_by_url (first_url asset.locations)) (hash_each worker_id world targets))
