-- ===== src/Jobs/Logs.antt =====
-- The log of a job: `AddLog` of internal/jobs/jobs.go.
use cartolensia.Prelude.{
  ℕ, ◌+◌, ◌-◌, ◌≤◌, String, List, [], ◌∷◌, ◌++◌, ◌≡◌, arith, length, drop, take, length-append,
  length-drop, take-append-drop, length-take,
}
use cartolensia.Jobs.{Job, LogLine, add_log, log_limit, trim_logs}

abbrev pub log_line : ℕ → String → String → LogLine
log_line now level text = record { id = 0; level = level; message = text; created_at = now }

trim_logs_lem : (lines : List LogLine) → trim_logs lines ≡ drop (length lines - log_limit) lines
trim_logs_lem lines = ground (arith, drop_none lines (length lines - log_limit))
  where
    drop_none : (l : List LogLine) (n : ℕ) → n ≡ 0 → drop n l ≡ l
    drop_none l n e = rw e

-- A new line stands at the end of the log, and what is given up for it are the oldest lines alone: at
-- most 200 lines stay, none is given up while fewer than 200 are there, and never more than needed.
pub add_log_keeps_newest :
    (now : ℕ) (job : Job) (level text : String)
    → (dropped : List LogLine) × (dropped ++ (add_log now job level text).logs
        ≡ job.logs ++ log_line now level text ∷ [])
      × (length (add_log now job level text).logs ≤ log_limit)
      × (length dropped ≡ length job.logs + 1 - log_limit)
unfolding add_log
add_log_keeps_newest now job level text =
    let lines : List LogLine = job.logs ++ log_line now level text ∷ [] in
    let n : ℕ = length lines - log_limit in
    (
      take n lines,
      rw (trim_logs_lem lines) (take-append-drop n lines),
      rw (trim_logs_lem lines) (omega (arith, length-drop n lines)),
      omega (arith, length-take n lines, length-append job.logs (log_line now level text ∷ [])),
    )
