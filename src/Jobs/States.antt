-- ===== src/Jobs/States.antt =====
-- The states of a job, and `Transition` of internal/jobs/jobs.go. `Status` is a string there: `other`
-- is any string that is not one of the six constants.
use Prim.Native.String.{◌++◌ as string_append}
use cartolensia.Prelude.{
  String, Bool, true, false, Option, none, some, List, [], ◌∷◌, ◌≡◌, ◌↔◌, arith, HasEq, string_eq,
  ◌==◌, eq_iff, same_refl, contains, if◌then◌else◌,
}
use cartolensia.Failure.{Failure, plain}

pub data Status : Type 0 where
  queued running cancel_requested succeeded failed canceled : Status
  other : String → Status

abbrev pub status_text : Status → String
status_text queued = "queued"
status_text running = "running"
status_text cancel_requested = "cancel_requested"
status_text succeeded = "succeeded"
status_text failed = "failed"
status_text canceled = "canceled"
status_text (other s) = s

abbrev pub same_status : Status → Status → Bool
same_status queued queued = true
same_status running running = true
same_status cancel_requested cancel_requested = true
same_status succeeded succeeded = true
same_status failed failed = true
same_status canceled canceled = true
same_status (other s) (other t) = s == t
same_status _ _ = false

pub same_status_iff : (a b : Status) → (same_status a b ≡ true) ↔ (a ≡ b)
same_status_iff (other s) (other t) = ground (arith, eq_iff s t)
same_status_iff _ _ = ground arith

instance abbrev pub status_eq : HasEq Status
status_eq = record { same = same_status; same_iff = same_status_iff }

-- the map `allowed`; a missing key gives the empty list
abbrev allowed : Status → List Status
allowed queued = running ∷ cancel_requested ∷ canceled ∷ []
allowed running = succeeded ∷ failed ∷ cancel_requested ∷ canceled ∷ queued ∷ []
allowed cancel_requested = canceled ∷ failed ∷ queued ∷ []
allowed failed = queued ∷ []
allowed canceled = queued ∷ []
allowed _ = []

unfoldable pub transition : Status → Status → Option Failure
transition current next =
    if current == next
    then none
    else if contains (allowed current) next
    then none
    else some (
        plain (
          string_append "invalid job transition "
            (string_append (status_text current) (string_append " -> " (status_text next)))))

pub transition_self : (s : Status) → transition s s ≡ none
unfolding transition
transition_self s = rw (same_refl s)
