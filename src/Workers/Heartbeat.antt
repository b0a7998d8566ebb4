-- ===== src/Workers/Heartbeat.antt =====
-- What the ticks of a worker's heartbeat in internal/workers/workers.go do to the lease of its job.
use cartolensia.Prelude.{
  ℕ, ◌+◌, String, true, false, some, List, [], ◌∷◌, ◌++◌, ◌≡◌, refl, string_eq,
}
use cartolensia.Prelude.Dict.{lookup, insert, lookup-insert_self}
use cartolensia.Jobs.{Job}
use cartolensia.Queue.{JobMap, holds_lease, heartbeat_job}
use cartolensia.Workers.{Config, heartbeat}

module _ (cfg : Config) (id : String) where
  -- As long as nothing else touches the job of a worker that holds its lease, the ticks of its heartbeat
  -- move the end of the lease to the lease duration after the last tick, and change nothing else of it.
  pub heartbeat-last :
      (ticks : List ℕ) (last : ℕ) (job : Job) (s : JobMap)
      → lookup id s ≡ some job
      → holds_lease cfg.worker_id job ≡ true
      → lookup id (heartbeat cfg id (ticks ++ last ∷ []) s)
        ≡ some (record job { lease_expires_at = some (last + cfg.lease_duration) })
  unfolding heartbeat heartbeat_job
  heartbeat-last [] last job s found held =
      rw (found, held)
        (lookup-insert_self id (record job { lease_expires_at = some (last + cfg.lease_duration) })
          s)
  heartbeat-last (tick ∷ ticks) last job s found held =
      let kept : Job = record job { lease_expires_at = some (tick + cfg.lease_duration) } in
      rw (found, held)
        (heartbeat-last ticks last kept (insert id kept s) (lookup-insert_self id kept s) held)

  -- A heartbeat whose worker does not hold the lease stops at its first tick and changes nothing.
  pub heartbeat-stops :
      (ticks : List ℕ) (job : Job) (s : JobMap)
      → lookup id s ≡ some job
      → holds_lease cfg.worker_id job ≡ false
      → heartbeat cfg id ticks s ≡ s
  unfolding heartbeat heartbeat_job
  heartbeat-stops [] job s found lost = refl
  heartbeat-stops (tick ∷ ticks) job s found lost = rw (found, lost)
