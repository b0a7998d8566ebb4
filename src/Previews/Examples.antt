-- ===== src/Previews/Examples.antt =====
-- Examples of the properties of Previews, and tests.
use mathlib.Core.List.Permᴰ
use cartolensia.Prelude.{ℕ, ◌+◌, ◌≤◌, none, List, [], ◌∷◌, ◌≡◌, refl, arith, String, Text, Option}
use cartolensia.Texts.{bytes}
use cartolensia.Previews.{CacheEntry, cleanup}
use cartolensia.Previews.Fitting.{size_of, left, expired, cleanup-Fits}

abbrev entry : Text → ℕ → ℕ → CacheEntry
entry path size time = record { path = path; size_bytes = size; mod_time = time }

abbrev three : List CacheEntry
three = entry (bytes "a") 10 1 ∷ entry (bytes "b") 10 8 ∷ entry (bytes "c") 10 9 ∷ []

abbrev never : Text → Option String
never path = none

abbrev in_order : List CacheEntry → List CacheEntry
in_order l = l

cleanup-Fits_example :
    (let (outcome, s) = cleanup never in_order 15 5 10 three in
      (outcome ≡ none) × (size_of (left s.removed three) ≤ 15 + size_of (expired 5 10 three)))
cleanup-Fits_example =
    cleanup-Fits never (λ path. refl) in_order (λ l. Permᴰ.refl l) 15 5 10 three (omega arith)

-- An old file is taken from the total once more: with a limit of 15 bytes, 20 are left.
twice : size_of (left (cleanup never in_order 15 5 10 three).1.removed three) ≡ 20
unfolding cleanup
twice = refl
