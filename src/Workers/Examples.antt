-- ===== src/Workers/Examples.antt =====
-- A pass of the loop over one waiting job, and a panic of the handler that has it.
use cartolensia.Prelude.{none, some, [], ◌∷◌, ◌≡◌, refl, arith, string_eq}
use cartolensia.Prelude.Dict.{lookup}
use cartolensia.Jobs.{Job, no_counts}
use cartolensia.Jobs.States.{queued, running}
use cartolensia.Queue.{JobMap}
use cartolensia.Workers.{Config, dispatch_available}
use cartolensia.Workers.Dispatch.{Starts, dispatch_available-Starts}

abbrev hashing : Job
hashing = record {
  id = "j7";
  kind = "hash";
  status = queued;
  payload = "";
  progress_current = 0;
  progress_total = some 4;
  counters = no_counts;
  attempts = 0;
  max_attempts = 0;
  worker_id = "";
  lease_expires_at = none;
  cancel_requested_at = none;
  next_run_at = some 3;
  created_at = 2;
  started_at = none;
  finished_at = none;
  error = "";
  logs = [];
}

abbrev taken : Job
taken = record hashing {
  status = running;
  worker_id = "w9";
  lease_expires_at = some 99;
  attempts = 1;
}

abbrev pool : Config
pool = record {
  worker_id = "w9";
  poll_interval = 1;
  lease_duration = 60;
  heartbeat_interval = 20;
  max_concurrency = 2;
}

dispatch_available-Starts_example :
    Starts 8 pool "hash" [] 2 (dispatch_available 8 pool ("hash" ∷ []) 2 2 (("j7", hashing) ∷ []))
dispatch_available-Starts_example =
    dispatch_available-Starts 8 pool "hash" [] 2 2 (("j7", hashing) ∷ []) (omega arith)

abbrev busy : JobMap
busy = ("j7", taken) ∷ []

busy_found : lookup "j7" busy ≡ some taken
unfolding lookup
busy_found = refl
