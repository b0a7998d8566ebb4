-- ===== src/Previews.antt =====
-- internal/preview/preview.go, `Cleanup`: the files of the preview cache that are removed because they are
-- old or because the cache is too large. The walk over the folder is the list `entries`; its paths lie
-- inside the cache, so that the second look at that cannot fail. `refuses` is what os.Remove answers for a
-- path, where that is an error other than that the file is not there. `sort` is sort.Slice.
pub mod Fitting
mod Examples
use cartolensia.Prelude.{
  ℕ, ◌+◌, ◌≤◌, Bool, true, false, ◌&&◌, ◌||◌, Option, none, some, List, [], ◌∷◌, ◌++◌, String, Text,
  eqb, ltb, leb, if◌then◌else◌,
}

pub record CacheEntry : Type 0 where
  pub path : Text
  pub size_bytes : ℕ
  pub mod_time : ℕ

-- The loops' variables: the files that were removed, and `total` as what was added to it and what was
-- taken from it, since it may fall below zero.
pub record Sweep : Type 0 where
  pub removed : List CacheEntry
  pub added : ℕ
  pub taken : ℕ

-- The error that ended a loop, if there is one, with the variables.
abbrev pub Swept : Type 0
Swept = Option String × Sweep

-- total <= maxBytes
abbrev pub fits : ℕ → Sweep → Bool
fits max_bytes s = leb s.added (max_bytes + s.taken)

-- ttl > 0 && now.Sub(entry.ModTime) > ttl
unfoldable pub is_stale : ℕ → ℕ → CacheEntry → Bool
is_stale ttl now entry = ltb 0 ttl && ltb (entry.mod_time + ttl) now

abbrev pub taking : CacheEntry → Sweep → Sweep
taking entry s = record s {
  removed = s.removed ++ (entry ∷ []);
  taken = s.taken + entry.size_bytes;
}

abbrev pub adding : CacheEntry → Sweep → Sweep
adding entry s = record s { added = s.added + entry.size_bytes }

abbrev pub empty_sweep : Sweep
empty_sweep = record { removed = []; added = 0; taken = 0 }

abbrev pub after_sweep : (Sweep → Swept) → Swept → Swept
after_sweep f (some e, s) = (some e, s)
after_sweep f (none, s) = f s

module _ (refuses : Text → Option String) where
  -- the first loop, which removes what has expired
  unfoldable pub remove_expired : ℕ → ℕ → List CacheEntry → Sweep → Swept
  unfolding is_stale
  remove_expired ttl now [] s = (none, s)
  remove_expired ttl now (entry ∷ entries) s =
      let s' = adding entry s in
      let kept = remove_expired ttl now entries s' in
      let dropped = remove_expired ttl now entries (taking entry s') in
      if is_stale ttl now entry
      then (elim (refuses entry.path) [ some e ↦ (some e, s') | none ↦ dropped ])
      else kept

  -- the second loop, which removes until the total fits
  unfoldable pub remove_until : ℕ → List CacheEntry → Sweep → Swept
  remove_until max_bytes [] s = (none, s)
  remove_until max_bytes (entry ∷ entries) s =
      let dropped = remove_until max_bytes entries (taking entry s) in
      if fits max_bytes s
      then (none, s)
      else (elim (refuses entry.path) [ some e ↦ (some e, s) | none ↦ dropped ])

  module _ (sort : List CacheEntry → List CacheEntry) where
    unfoldable pub cleanup : ℕ → ℕ → ℕ → List CacheEntry → Swept
    unfolding remove_expired remove_until
    cleanup max_bytes ttl now entries =
        after_sweep
          (λ s.
            if eqb max_bytes 0 || fits max_bytes s
            then (none, s)
            else remove_until max_bytes (sort entries) s)
          (remove_expired ttl now entries empty_sweep)
