-- ===== src/WorkerErrors.antt =====
-- Go errors with their chains, and competition-api/internal/worker_errors/worker_errors.go.
use competition_api.Prelude.{String, Bool, Option, none, some, Result, ok, err, Exec}
use competition_api.Types.Status.{SubmissionStatus}

-- An error value: `errors.New`, `fmt.Errorf("…: %w", err)`, and a `StatusError` whose `Err` is nil
-- or an error.
pub data GoError : Type 0 where
  message : String → GoError
  wrapped : String → GoError → GoError
  bare_status : SubmissionStatus → Bool → GoError
  status_error : SubmissionStatus → Bool → GoError → GoError

pub record StatusError : Type 0 where
  pub status : SubmissionStatus
  pub patch_tests_failed : Bool

-- `StatusErrorWrap(status, patchTestsFailed, err)`
abbrev pub status_error_wrap : SubmissionStatus → Bool → Option GoError → GoError
status_error_wrap status tests_failed none = bare_status status tests_failed
status_error_wrap status tests_failed (some e) = status_error status tests_failed e

-- `errors.As(err, &se)`: the first `StatusError` on the chain of `Unwrap`.
unfoldable pub as_status_error : GoError → Option StatusError
as_status_error (message s) = none
as_status_error (wrapped s e) = as_status_error e
as_status_error (bare_status st f) = some (record { status = st; patch_tests_failed = f })
as_status_error (status_error st f e) = some (record { status = st; patch_tests_failed = f })

-- `if err != nil { return fmt.Errorf("…: %w", err) }`
abbrev pub wrap : {A : Type 0} → String → Result GoError A → Result GoError A
wrap text (ok a) = ok a
wrap text (err e) = err (wrapped text e)

abbrev pub wrapping : {W A : Type 0} → String → Exec W GoError A → Exec W GoError A
wrapping text m w = let (r, w') = m w in (wrap text r, w')
