-- ===== src/Engine/BuildRetry.antt =====
-- competition-api/cmd/worker/internal/engine/build_retry.go: an engine whose `Build` is retried.
pub mod Verdict
use competition_api.Prelude.{
  ℕ, Bool, true, false, Option, none, some, List, [], ◌∷◌, ◌++◌, any, Result, ok, err, Exec,
  if◌then◌else◌,
}
use competition_api.WorkerErrors.{GoError, StatusError, as_status_error, status_error_wrap}
use competition_api.Types.Status.{is_errored, failed}
use competition_api.Retry.{Attempt, nil, retryable, Retry}
use competition_api.Engine.{Params, Engine, err_building_failed, err_building_errored}

-- `retry.WithMaxRetries(3, retry.NewConstant(time.Second * 30))`
abbrev pub max_build_retries : ℕ
max_build_retries = 3

-- `!errors.As(err, &se) || se.Status == types.SubmissionStatusErrored`
abbrev pub is_infrastructure_status : Option StatusError → Bool
is_infrastructure_status none = true
is_infrastructure_status (some se) = is_errored se.status

unfoldable pub is_infrastructure_error : GoError → Bool
unfolding as_status_error
is_infrastructure_error e = is_infrastructure_status (as_status_error e)

-- What `Build` returns once the loop is over: nil, or the sum of the errors that were collected.
unfoldable pub conclude : Result GoError (Unit {0}) → List GoError → Result GoError (Unit {0})
unfolding is_infrastructure_error
conclude (ok _) errs = ok tt
conclude (err _) errs =
    if any is_infrastructure_error errs
    then err err_building_errored
    else err (status_error_wrap failed false (some err_building_failed))

module _ {W : Type 0} where
  -- The closure's step: an error is collected, and may be retried.
  abbrev pub collect : Result GoError (Unit {0}) → List GoError → W → Attempt × (W × List GoError)
  collect (ok _) errs w = (nil, (w, errs))
  collect (err e) errs w = (retryable e, (w, errs ++ e ∷ []))

  unfoldable pub build_attempt : Engine W → Params → W × List GoError → Attempt × (W × List GoError)
  build_attempt inner params (w, errs) = let (r, w') = inner.build params w in collect r errs w'

  unfoldable pub build : Retry (W × List GoError) → Engine W → Params → Exec W GoError (Unit {0})
  unfolding build_attempt conclude
  build retry inner params w =
      let (r, s) = retry.do_max max_build_retries (build_attempt inner params) (w, []) in
      let (w', errs) = s in (conclude r errs, w')

  -- The wrapper; the other methods are passed through.
  abbrev pub build_retry_engine : Retry (W × List GoError) → Engine W → Engine W
  build_retry_engine retry inner = record inner { build = build retry inner }
