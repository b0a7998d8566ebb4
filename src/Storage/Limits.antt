-- ===== src/Storage/Limits.antt =====
-- internal/storage/storage.go, `WalkRecursiveBounded`: the limits of a walk and the counts of its report,
-- for every interleaving of the file workers.
use cartolensia.Prelude.{
  ℕ, String, ◌+◌, ◌≤◌, Bool, true, Option, none, some, List, [], ◌∷◌, ◌++◌, ◌≡◌, refl, arith, Text,
  All, length,
}
use cartolensia.Catalog.{FileInfo}
use cartolensia.Storage.Walk.{
  WalkOptions, Walk, Stage, folder_tasks, finished, with_defaults, new_walk, interleave, tasks_of,
}
use cartolensia.Storage.Counts.{
  visits, visit_bytes, owed, total, AtMost, IsCounted, in_front, TasksAreCounted,
  interleave-IsCounted,
}

AtMost-zero : (limit : Option ℕ) → AtMost limit 0
AtMost-zero none = tt
AtMost-zero (some limit) = omega arith

AtMost-mono : (limit : Option ℕ) {m n : ℕ} → m ≤ n → AtMost limit n → AtMost limit m
AtMost-mono none h k = tt
AtMost-mono (some limit) h k = omega (arith, h, k)

-- a walk that has read no file
new_walk-IsCounted : (opts : WalkOptions) (n : ℕ) → IsCounted opts n 0 0 n new_walk
new_walk-IsCounted opts n = record {
  files = AtMost-zero opts.max_files;
  sizes = AtMost-zero opts.max_bytes;
  visited_files = omega arith;
  visited_bytes = omega arith;
  all_counted = λ go. omega arith;
  limit_noted = λ e. refl;
}

none_visits : (stats : List (Option FileInfo)) → total visits (tasks_of stats) ≡ 0
none_visits [] = refl
none_visits (stat ∷ stats) = omega (arith, none_visits stats)

none_visit_bytes : (stats : List (Option FileInfo)) → total visit_bytes (tasks_of stats) ≡ 0
none_visit_bytes [] = refl
none_visit_bytes (stat ∷ stats) = omega (arith, none_visit_bytes stats)

folder_visits : (reasons : List String) → total visits (folder_tasks reasons) ≡ 0
folder_visits [] = refl
folder_visits (reason ∷ reasons) = omega (arith, folder_visits reasons)

folder_visit_bytes : (reasons : List String) → total visit_bytes (folder_tasks reasons) ≡ 0
folder_visit_bytes [] = refl
folder_visit_bytes (reason ∷ reasons) = omega (arith, folder_visit_bytes reasons)

folder_owed : (reasons : List String) → total owed (folder_tasks reasons) ≡ length reasons
folder_owed [] = refl
folder_owed (reason ∷ reasons) = omega (arith, folder_owed reasons)

total-append : (f : Stage → ℕ) (xs ys : List Stage) → total f (xs ++ ys) ≡ total f xs + total f ys
total-append f [] ys = omega arith
total-append f (x ∷ xs) ys = omega (arith, total-append f xs ys)

all_owed : (stats : List (Option FileInfo)) → total owed (tasks_of stats) ≡ length stats
all_owed [] = refl
all_owed (stat ∷ stats) = omega (arith, all_owed stats)

total_of_finished :
    (f : Stage → ℕ)
    → f finished ≡ 0
    → (tasks : List Stage) → All (λ task. task ≡ finished) tasks
    → total f tasks ≡ 0
total_of_finished f e [] h = refl
total_of_finished f e (task ∷ tasks) (done, h) =
    rw done (omega (arith, e, total_of_finished f e tasks h))

module _ (match_ : Text → Text → Bool) (visit : FileInfo → Option String) (given : WalkOptions)
    (stats : List (Option FileInfo)) (skips : List String) (schedule : List ℕ) where
  -- the files that the folders gave to the workers, and the entries that the folder workers skip
  abbrev pub tasks : List Stage
  tasks = tasks_of stats ++ folder_tasks skips

  -- the tasks and the shared state after the schedule
  abbrev pub walked : List Stage × Walk
  walked = interleave match_ visit (with_defaults given) schedule tasks new_walk

  walked-IsCounted :
      TasksAreCounted match_ visit (with_defaults given) (length stats + length skips) 0 0 0 walked
  walked-IsCounted =
      interleave-IsCounted match_ visit (with_defaults given) (length stats + length skips) schedule
        tasks new_walk
        (in_front
          (omega (
            arith,
            none_visits stats,
            folder_visits skips,
            total-append visits (tasks_of stats) (folder_tasks skips),
          ))
          (omega (
            arith,
            none_visit_bytes stats,
            folder_visit_bytes skips,
            total-append visit_bytes (tasks_of stats) (folder_tasks skips),
          ))
          (omega (
            arith,
            all_owed stats,
            folder_owed skips,
            total-append owed (tasks_of stats) (folder_tasks skips),
          ))
          (new_walk-IsCounted (with_defaults given) (length stats + length skips)))

  -- However the file workers interleave, the files that the walk has visited are at most as many as
  -- the limit of files and have together at most as many bytes as the limit of bytes.
  pub walked-AtMost :
      AtMost (with_defaults given).max_files (length walked.1.visited)
      × AtMost (with_defaults given).max_bytes (total (λ info. info.size_bytes) walked.1.visited)
  walked-AtMost =
      let h : TasksAreCounted match_ visit (with_defaults given) (length stats + length skips) 0 0 0
          walked =
        walked-IsCounted in
      (
        AtMost-mono (with_defaults given).max_files (omega (arith, h.visited_files)) h.files,
        AtMost-mono (with_defaults given).max_bytes (omega (arith, h.visited_bytes)) h.sizes,
      )

  -- However the file workers interleave with each other and with the folder workers' calls of
  -- `addSkipped`, once all are done a report that says the walk is complete counts each of these once:
  -- those returned, which are the visited files, and those skipped are together the files that the
  -- folders gave to the workers and the entries that the folder workers skipped.
  pub walked-complete :
      All (λ task. task ≡ finished) walked.0
      → walked.1.report.complete ≡ true
      → (walked.1.report.files_returned ≡ length walked.1.visited)
        × (length walked.1.visited + walked.1.report.files_skipped ≡ length stats + length skips)
  walked-complete done e =
      let h : TasksAreCounted match_ visit (with_defaults given) (length stats + length skips) 0 0 0
          walked =
        walked-IsCounted in
      let idle : total visits walked.0 ≡ 0 = total_of_finished visits refl walked.0 done in
      let settled : total owed walked.0 ≡ 0 = total_of_finished owed refl walked.0 done in
      (
        omega (arith, h.visited_files, idle),
        omega (arith, h.visited_files, idle, settled, h.all_counted (h.limit_noted e)),
      )
