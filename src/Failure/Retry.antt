-- ===== src/Failure/Retry.antt =====
-- Which failures of a job are tried again: `Classify` and `ShouldRetry` of internal/jobs/jobs.go.
use cartolensia.Prelude.{String, false, not, some, List, [], ◌∷◌, ◌≡◌, refl, arith}
use cartolensia.Failure.{
  Failure, wrapped, Sentinel, job_canceled, is, as_classified, permanent_error, transient_error,
  panic_error, classify, should_retry,
}

-- `fmt.Errorf("...: %w", err)` round an error, once for each text
abbrev pub wrap_all : List String → Failure → Failure
wrap_all [] e = e
wrap_all (s ∷ ss) e = wrapped s (wrap_all ss e)

is-wrap_all : (ss : List String) (e : Failure) (t : Sentinel) → is (wrap_all ss e) t ≡ is e t
unfolding is
is-wrap_all [] e t = refl
is-wrap_all (s ∷ ss) e t = is-wrap_all ss e t

as_classified-wrap_all :
    (ss : List String) (e : Failure) → as_classified (wrap_all ss e) ≡ as_classified e
unfolding as_classified
as_classified-wrap_all [] e = refl
as_classified-wrap_all (s ∷ ss) e = as_classified-wrap_all ss e

-- Wrapping an error in any number of `%w` texts changes neither its class nor whether the job is
-- tried again.
pub classify-wrap_all :
    (ss : List String) (e : Failure)
    → (classify (some (wrap_all ss e)) ≡ classify (some e))
      × (should_retry (some (wrap_all ss e)) ≡ should_retry (some e))
unfolding classify should_retry
classify-wrap_all ss e = ground (arith, is-wrap_all ss e job_canceled, as_classified-wrap_all ss e)

-- A permanent error and a panic are never tried again, whatever they wrap; a transient one is tried
-- again exactly if it does not wrap the cancellation of the job.
pub should_retry-classified :
    (e : Failure)
    → (should_retry (permanent_error (some e)) ≡ false)
      × (should_retry (some (panic_error (some e))) ≡ false)
      × (should_retry (transient_error (some e)) ≡ not (is e job_canceled))
unfolding should_retry is as_classified permanent_error transient_error panic_error
should_retry-classified e = (ground arith, ground arith, ground arith)
