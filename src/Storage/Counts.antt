-- ===== src/Storage/Counts.antt =====
-- internal/storage/storage.go, `WalkRecursiveBounded`: what the counts of the report say at every step.
use cartolensia.Prelude.{
  ℕ, zero, suc, String, ◌+◌, ◌≤◌, Bool, true, false, not, Option, none, some, List, [], ◌∷◌, ◌≡◌,
  inl, inr, refl, arith, Text, length, is_none, Bool-cases,
}
use cartolensia.Texts.{bytes}
use cartolensia.Catalog.{FileInfo}
use cartolensia.Storage.Patterns.{extension_allowed, excluded_by_pattern}
use cartolensia.Storage.Walk.{
  WalkOptions, Walk, Stage, waiting, statting, checking, over_limit, visiting, failing, skipping,
  finished, full, exceeds, limit_hit, add_skipped, set_err, mark_limit, process, advance,
  interleave, after_visit,
}

-- The files of a task that are to be visited and their bytes, and whether the task is still to be counted.
abbrev pub visits : Stage → ℕ
visits (visiting info) = 1
visits _ = 0

abbrev pub visit_bytes : Stage → ℕ
visit_bytes (visiting info) = info.size_bytes
visit_bytes _ = 0

abbrev pub owed : Stage → ℕ
owed (waiting stat) = 1
owed (statting stat) = 1
owed (checking info) = 1
owed over_limit = 1
owed (skipping reason) = 1
owed _ = 0

abbrev pub total {ℓ} : {A : Type ℓ} → (A → ℕ) → List A → ℕ
total f [] = 0
total f (x ∷ xs) = f x + total f xs

abbrev pub AtMost : Option ℕ → ℕ → Type 0
AtMost none n = Unit
AtMost (some limit) n = n ≤ limit

AtMost-full : (limit : Option ℕ) (n : ℕ) → full limit n ≡ false → AtMost limit (n + 1)
AtMost-full none n h = tt
AtMost-full (some limit) n h = ground (arith, h)

AtMost-exceeds : (limit : Option ℕ) (n : ℕ) → exceeds limit n ≡ false → AtMost limit n
AtMost-exceeds none n h = tt
AtMost-exceeds (some limit) n h = ground (arith, h)

-- What the counts say of the visited files, and of a walk of `n` files with `a` files of `b` bytes about to
-- be visited and `c` still to be counted.
pub record IsCounted (opts : WalkOptions) (n a b c : ℕ) (w : Walk) : Type 0 where
  pub files : AtMost opts.max_files w.report.files_returned
  pub sizes : AtMost opts.max_bytes w.report.bytes_seen
  pub visited_files : a + length w.visited ≡ w.report.files_returned
  pub visited_bytes : b + total (λ info. info.size_bytes) w.visited ≡ w.report.bytes_seen
  pub all_counted :
      w.limit_reached ≡ false → c + w.report.files_returned + w.report.files_skipped ≡ n
  pub limit_noted : w.report.complete ≡ true → w.limit_reached ≡ false

visits-after_visit : (failure : Option String) → visits (after_visit failure) ≡ 0
visits-after_visit none = refl
visits-after_visit (some e) = refl

visit_bytes-after_visit : (failure : Option String) → visit_bytes (after_visit failure) ≡ 0
visit_bytes-after_visit none = refl
visit_bytes-after_visit (some e) = refl

owed-after_visit : (failure : Option String) → owed (after_visit failure) ≡ 0
owed-after_visit none = refl
owed-after_visit (some e) = refl

-- A walk whose limit is reached owes nothing for the tasks that it drops.
dropped :
    {opts : WalkOptions} {n a b c d : ℕ} {w : Walk}
    → w.limit_reached ≡ true
    → IsCounted opts n a b c w
    → IsCounted opts n a b d w
dropped stop h = record {
  files = h.files;
  sizes = h.sizes;
  visited_files = h.visited_files;
  visited_bytes = h.visited_bytes;
  all_counted = λ go. cc (stop, go);
  limit_noted = h.limit_noted;
}

pub in_front :
    {opts : WalkOptions} {n a b c a' b' c' : ℕ} {w : Walk}
    → a ≡ a'
    → b ≡ b'
    → c ≡ c'
    → IsCounted opts n a b c w
    → IsCounted opts n a' b' c' w
in_front ea eb ec h = record {
  files = h.files;
  sizes = h.sizes;
  visited_files = omega (arith, ea, h.visited_files);
  visited_bytes = omega (arith, eb, h.visited_bytes);
  all_counted = λ go. omega (arith, ec, h.all_counted go);
  limit_noted = h.limit_noted;
}

mark_limit-IsCounted :
    {opts : WalkOptions} {n a b c d : ℕ} {w : Walk}
    → IsCounted opts n a b c w
    → IsCounted opts n a b d (mark_limit w)
unfolding mark_limit
mark_limit-IsCounted {w} h = elim (Bool-cases w.limit_reached) [
  | inl stop ↦ simp stop (dropped stop h)
  | inr go ↦ simp go (record {
    files = h.files;
    sizes = h.sizes;
    visited_files = h.visited_files;
    visited_bytes = h.visited_bytes;
    all_counted = λ e. cc e;
    limit_noted = λ e. cc e;
  })
]

set_err-IsCounted :
    {opts : WalkOptions} {n a b c : ℕ} (e : String) {w : Walk}
    → IsCounted opts n a b c w
    → IsCounted opts n a b c (set_err e w)
unfolding set_err
set_err-IsCounted e {w} h = elim (Bool-cases (is_none w.first_err)) [
  | inl first ↦ rw first (record {
    files = h.files;
    sizes = h.sizes;
    visited_files = h.visited_files;
    visited_bytes = h.visited_bytes;
    all_counted = h.all_counted;
    limit_noted = λ k. cc k;
  })
  | inr later ↦ rw later h
]

add_skipped-IsCounted :
    {opts : WalkOptions} {n a b : ℕ} (reason : String) (c : ℕ) {w : Walk}
    → IsCounted opts n a b (1 + c) w
    → IsCounted opts n a b (0 + c) (add_skipped reason w)
unfolding add_skipped
add_skipped-IsCounted reason c {w} h = record {
  files = h.files;
  sizes = h.sizes;
  visited_files = h.visited_files;
  visited_bytes = h.visited_bytes;
  all_counted = λ go. omega (arith, h.all_counted go);
  limit_noted = h.limit_noted;
}

module _ (match_ : Text → Text → Bool) (visit : FileInfo → Option String) (opts : WalkOptions)
    (n : ℕ) where
  process-IsCounted :
      (a b c : ℕ) (task : Stage) (w : Walk)
      → IsCounted opts n (visits task + a) (visit_bytes task + b) (owed task + c) w
      → (let next = process match_ visit opts task w in
          IsCounted opts n (visits next.0 + a) (visit_bytes next.0 + b) (owed next.0 + c) next.1)
  unfolding process
  process-IsCounted a b c (waiting stat) w h = elim (Bool-cases w.limit_reached) [
    | inl stop ↦ simp stop (dropped stop h)
    | inr go ↦ simp go h
  ]
  process-IsCounted a b c (statting none) w h = add_skipped-IsCounted "stat_error" c h
  process-IsCounted a b c (statting (some info)) w h = record {
    files = h.files;
    sizes = h.sizes;
    visited_files = h.visited_files;
    visited_bytes = h.visited_bytes;
    all_counted = h.all_counted;
    limit_noted = h.limit_noted;
  }
  process-IsCounted a b c (checking info) w h =
      elim (Bool-cases (not (extension_allowed (bytes info.extension) opts.include))) [
        | inl x ↦ rw x (add_skipped-IsCounted "extension" c h)
        | inr x ↦
            elim (Bool-cases
              (excluded_by_pattern match_ (bytes info.relative_path) opts.exclude_patterns)) [
                | inl p ↦ rw (x, p) (add_skipped-IsCounted "pattern" c h)
                | inr p ↦ elim (Bool-cases (limit_hit opts info w.report)) [
                  | inl hit ↦ rw (x, p, hit) h
                  | inr room ↦
                      rw (x, p, room)
                        (record {
                          files =
                              AtMost-full opts.max_files w.report.files_returned
                                (ground (arith, room));
                          sizes =
                              AtMost-exceeds opts.max_bytes (w.report.bytes_seen + info.size_bytes)
                                (ground (arith, room));
                          visited_files = omega (arith, h.visited_files);
                          visited_bytes = omega (arith, h.visited_bytes);
                          all_counted = λ go. omega (arith, h.all_counted go);
                          limit_noted = h.limit_noted;
                        })
                ]
              ]
      ]
  process-IsCounted a b c over_limit w h = mark_limit-IsCounted h
  process-IsCounted a b c (visiting info) w h = record {
    files = h.files;
    sizes = h.sizes;
    visited_files = omega (arith, h.visited_files, visits-after_visit (visit info));
    visited_bytes = omega (arith, h.visited_bytes, visit_bytes-after_visit (visit info));
    all_counted = λ go. omega (arith, h.all_counted go, owed-after_visit (visit info));
    limit_noted = h.limit_noted;
  }
  process-IsCounted a b c (failing e) w h = set_err-IsCounted e h
  process-IsCounted a b c (skipping reason) w h = add_skipped-IsCounted reason c h
  process-IsCounted a b c finished w h = h

  -- the counts of all tasks, and those of the tasks in front
  abbrev pub TasksAreCounted : ℕ → ℕ → ℕ → List Stage × Walk → Type 0
  TasksAreCounted a b c (tasks, w) =
      IsCounted opts n (total visits tasks + a) (total visit_bytes tasks + b) (total owed tasks + c)
        w

  advance-IsCounted :
      (a b c place : ℕ) (tasks : List Stage) (w : Walk)
      → TasksAreCounted a b c (tasks, w)
      → TasksAreCounted a b c (advance match_ visit opts place tasks w)
  unfolding advance
  advance-IsCounted a b c place [] w h = h
  advance-IsCounted a b c zero (task ∷ tasks) w h =
      let next : Stage × Walk = process match_ visit opts task w in
      in_front (omega arith) (omega arith) (omega arith) (
        process-IsCounted (total visits tasks + a) (total visit_bytes tasks + b)
          (total owed tasks + c) task w (in_front (omega arith) (omega arith) (omega arith) h))
  advance-IsCounted a b c (suc place) (task ∷ tasks) w h =
      in_front (omega arith) (omega arith) (omega arith) (
        advance-IsCounted (visits task + a) (visit_bytes task + b) (owed task + c) place tasks w
          (in_front (omega arith) (omega arith) (omega arith) h))

  pub interleave-IsCounted :
      (schedule : List ℕ) (tasks : List Stage) (w : Walk)
      → TasksAreCounted 0 0 0 (tasks, w)
      → TasksAreCounted 0 0 0 (interleave match_ visit opts schedule tasks w)
  unfolding interleave
  interleave-IsCounted [] tasks w h = h
  interleave-IsCounted (place ∷ schedule) tasks w h =
      let next : List Stage × Walk = advance match_ visit opts place tasks w in
      interleave-IsCounted schedule next.0 next.1 (advance-IsCounted 0 0 0 place tasks w h)
