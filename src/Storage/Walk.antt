-- ===== src/Storage/Walk.antt =====
-- internal/storage/storage.go, `WalkRecursiveBounded`: its file workers. What they share (the report, the
-- limit and the first error) is one state under a lock; a file that the folders gave to the workers is a
-- task, and a step is one locked part of `processFile`, so that a schedule is any interleaving of them.
-- The folder workers, whose reading of directories is input, add to the same counts of skipped files: each
-- such call of `addSkipped` is a task of its own.
use cartolensia.Prelude.{
  ℕ, zero, suc, ◌+◌, String, Bool, true, false, ◌||◌, not, Option, none, some, List, [], ◌∷◌, Text,
  ltb, leb, eqb, is_none, if◌then◌else◌, string_eq,
}
use cartolensia.Prelude.Dict.{Dict, lookup, insert}
use cartolensia.Texts.{bytes}
use cartolensia.Catalog.{FileInfo}
use cartolensia.Storage.Patterns.{extension_allowed, excluded_by_pattern}

-- The limits of WalkOptions; `none` is a negative number, which means no limit.
pub record WalkOptions : Type 0 where
  pub max_files : Option ℕ
  pub max_bytes : Option ℕ
  pub include : List Text
  pub exclude_patterns : List Text

pub record WalkReport : Type 0 where
  pub folders_queued : ℕ
  pub folders_scanned : ℕ
  pub files_seen : ℕ
  pub files_returned : ℕ
  pub files_skipped : ℕ
  pub bytes_seen : ℕ
  pub complete : Bool
  pub skipped_reasons : Dict String ℕ

-- The variables that the workers share, with the files that `visit` was called for, the last one first.
pub record Walk : Type 0 where
  pub report : WalkReport
  pub limit_reached : Bool
  pub first_err : Option String
  pub visited : List FileInfo

-- Where a worker is in `processFile`; a task carries what `Stat` answers for its file. A folder worker is
-- about to call `addSkipped` for an entry, with the reason.
pub data Stage : Type 0 where
  waiting statting : Option FileInfo → Stage
  checking : FileInfo → Stage
  over_limit : Stage
  visiting : FileInfo → Stage
  failing : String → Stage
  skipping : String → Stage
  finished : Stage

abbrev default_limit : ℕ → Option ℕ → Option ℕ
default_limit value none = none
default_limit value (some n) = if eqb n 0 then some value else some n

-- the defaults of the limits
unfoldable pub with_defaults : WalkOptions → WalkOptions
with_defaults opts = record opts {
  max_files = default_limit 50 opts.max_files;
  max_bytes = default_limit 2147483648 opts.max_bytes;
}

abbrev pub new_walk : Walk
new_walk = record {
  report = record {
    folders_queued = 0;
    folders_scanned = 0;
    files_seen = 0;
    files_returned = 0;
    files_skipped = 0;
    bytes_seen = 0;
    complete = true;
    skipped_reasons = [];
  };
  limit_reached = false;
  first_err = none;
  visited = [];
}

abbrev or_nought : Option ℕ → ℕ
or_nought none = 0
or_nought (some n) = n

-- report.SkippedReasons[reason]++
abbrev pub count_reason : String → Dict String ℕ → Dict String ℕ
count_reason reason m = insert reason (or_nought (lookup reason m) + 1) m

unfoldable pub add_skipped : String → Walk → Walk
add_skipped reason w = record w {
  report = record w.report {
    files_skipped = w.report.files_skipped + 1;
    skipped_reasons = count_reason reason w.report.skipped_reasons;
  };
}

abbrev incomplete : String → WalkReport → WalkReport
incomplete reason r = record r {
  complete = false;
  skipped_reasons = count_reason reason r.skipped_reasons;
}

unfoldable pub set_err : String → Walk → Walk
set_err e w =
    if is_none w.first_err
    then record w { first_err = some e; report = incomplete "callback_error" w.report }
    else w

unfoldable pub mark_limit : Walk → Walk
mark_limit w =
    if w.limit_reached
    then w
    else record w { limit_reached = true; report = incomplete "limit" w.report }

abbrev pub full : Option ℕ → ℕ → Bool
full none n = false
full (some limit) n = leb limit n

abbrev pub exceeds : Option ℕ → ℕ → Bool
exceeds none n = false
exceeds (some limit) n = ltb limit n

-- the two comparisons of limitHit
abbrev pub limit_hit : WalkOptions → FileInfo → WalkReport → Bool
limit_hit opts info r =
    full opts.max_files r.files_returned || exceeds opts.max_bytes (r.bytes_seen + info.size_bytes)

abbrev seen : Walk → Walk
seen w = record w { report = record w.report { files_seen = w.report.files_seen + 1 } }

abbrev returned : FileInfo → Walk → Walk
returned info w = record w {
  report = record w.report {
    files_returned = w.report.files_returned + 1;
    bytes_seen = w.report.bytes_seen + info.size_bytes;
  };
}

abbrev pub after_visit : Option String → Stage
after_visit none = finished
after_visit (some e) = failing e

module _ (match_ : Text → Text → Bool) (visit : FileInfo → Option String) (opts : WalkOptions) where
  -- the next locked part of `processFile` for one file
  unfoldable pub process : Stage → Walk → Stage × Walk
  unfolding extension_allowed excluded_by_pattern add_skipped mark_limit set_err
  process (waiting stat) w = if w.limit_reached then (finished, w) else (statting stat, w)
  process (statting none) w = (finished, add_skipped "stat_error" w)
  process (statting (some info)) w = (checking info, seen w)
  process (checking info) w =
      if not (extension_allowed (bytes info.extension) opts.include)
      then (finished, add_skipped "extension" w)
      else if excluded_by_pattern match_ (bytes info.relative_path) opts.exclude_patterns
      then (finished, add_skipped "pattern" w)
      else if limit_hit opts info w.report
      then (over_limit, w)
      else (visiting info, returned info w)
  process over_limit w = (finished, mark_limit w)
  process (visiting info) w = (after_visit (visit info), record w { visited = info ∷ w.visited })
  process (failing e) w = (finished, set_err e w)
  process (skipping reason) w = (finished, add_skipped reason w)
  process finished w = (finished, w)

  -- a step of the worker that has the file of the given place
  unfoldable pub advance : ℕ → List Stage → Walk → List Stage × Walk
  unfolding process
  advance n [] w = ([], w)
  advance zero (task ∷ tasks) w = let next = process task w in (next.0 ∷ tasks, next.1)
  advance (suc n) (task ∷ tasks) w = let next = advance n tasks w in (task ∷ next.0, next.1)

  -- the steps of a schedule, each by the place of the file it is for
  unfoldable pub interleave : List ℕ → List Stage → Walk → List Stage × Walk
  unfolding advance
  interleave [] tasks w = (tasks, w)
  interleave (n ∷ schedule) tasks w =
      let next = advance n tasks w in interleave schedule next.0 next.1

abbrev pub tasks_of : List (Option FileInfo) → List Stage
tasks_of [] = []
tasks_of (stat ∷ stats) = waiting stat ∷ tasks_of stats

-- the calls of `addSkipped` in enqueueFolder and processFolder, by their reasons
abbrev pub folder_tasks : List String → List Stage
folder_tasks [] = []
folder_tasks (reason ∷ reasons) = skipping reason ∷ folder_tasks reasons
