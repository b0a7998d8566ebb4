-- ===== src/Failure/Examples.antt =====
-- Runs of the error functions of internal/jobs/jobs.go.
use cartolensia.Prelude.{some, [], ◌∷◌, ◌≡◌, refl}
use cartolensia.Failure.{
  Failure, plain, sentinel, job_canceled, not_found, canceled, classify, is, error_text,
}
use cartolensia.Failure.Retry.{wrap_all}

abbrev disk_error : Failure
disk_error = plain "disk is gone"

canceled_inside : classify (some (wrap_all ("a: " ∷ "b: " ∷ []) (sentinel job_canceled))) ≡ canceled
unfolding classify is
canceled_inside = refl

wrapped_text : error_text (wrap_all ("scan: " ∷ []) (sentinel not_found)) ≡ "scan: not found"
unfolding error_text
wrapped_text = refl
