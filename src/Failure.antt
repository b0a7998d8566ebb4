-- ===== src/Failure.antt =====
-- Go's error values, as internal/jobs/jobs.go and internal/catalog/catalog.go build and inspect
-- them. A nil error is `none` of `Option Failure`. `errors.Is` and `errors.As` walk the chain that
-- `Unwrap` gives; the texts are what `Error()` returns.
pub mod Retry
mod Examples
use Prim.Native.String.{◌++◌ as string_append}
use cartolensia.Prelude.{String, Bool, true, false, Option, none, some, if◌then◌else◌}

-- The package-level error values, which the code compares by identity.
pub data Sentinel : Type 0 where
  job_canceled not_found lease_lost invalid_input context_canceled : Sentinel

abbrev pub is_same : Sentinel → Sentinel → Bool
is_same job_canceled job_canceled = true
is_same not_found not_found = true
is_same lease_lost lease_lost = true
is_same invalid_input invalid_input = true
is_same context_canceled context_canceled = true
is_same _ _ = false

pub data ErrorClass : Type 0 where
  unknown permanent transient canceled panicked : ErrorClass

-- `plain` is `errors.New` or `fmt.Errorf` with no `%w`, `wrapped` is `fmt.Errorf` with one at the
-- end, `classified` is `ClassifiedError` with an inner error.
pub data Failure : Type 0 where
  plain : String → Failure
  sentinel : Sentinel → Failure
  classified : ErrorClass → Failure → Failure
  wrapped : String → Failure → Failure

abbrev sentinel_text : Sentinel → String
sentinel_text job_canceled = "job canceled"
sentinel_text not_found = "not found"
sentinel_text lease_lost = "job lease is not owned by worker"
sentinel_text invalid_input = "invalid catalog input"
sentinel_text context_canceled = "context canceled"

-- err.Error()
unfoldable pub error_text : Failure → String
error_text (plain s) = s
error_text (sentinel s) = sentinel_text s
error_text (classified c e) = error_text e
error_text (wrapped s e) = string_append s (error_text e)

-- errors.Is(err, target)
unfoldable pub is : Failure → Sentinel → Bool
is (plain s) t = false
is (sentinel s) t = is_same s t
is (classified c e) t = is e t
is (wrapped s e) t = is e t

-- errors.As(err, &classified), which finds the outermost `ClassifiedError`
unfoldable pub as_classified : Failure → Option ErrorClass
as_classified (plain s) = none
as_classified (sentinel s) = none
as_classified (classified c e) = some c
as_classified (wrapped s e) = as_classified e

unfoldable pub permanent_error : Option Failure → Option Failure
permanent_error none = none
permanent_error (some e) = some (classified permanent e)

unfoldable pub transient_error : Option Failure → Option Failure
transient_error none = none
transient_error (some e) = some (classified transient e)

unfoldable pub panic_error : Option Failure → Failure
panic_error none = classified panicked (plain "panic")
panic_error (some e) = classified panicked e

abbrev class_or_unknown : Option ErrorClass → ErrorClass
class_or_unknown none = unknown
class_or_unknown (some c) = c

unfoldable pub classify : Option Failure → ErrorClass
unfolding is as_classified
classify none = unknown
classify (some e) = if is e job_canceled then canceled else class_or_unknown (as_classified e)

abbrev class_retries : ErrorClass → Bool
class_retries permanent = false
class_retries canceled = false
class_retries panicked = false
class_retries _ = true

unfoldable pub should_retry : Option Failure → Bool
unfolding classify
should_retry e = class_retries (classify e)
