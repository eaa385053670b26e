-- ===== src/Evaluate.antt =====
-- competition-api/cmd/worker/internal/evaluate/evaluator.go: the evaluation of a submission.
pub mod Plan
use competition_api.Prelude.{
  ℕ, String, Bool, true, false, Option, none, some, Result, ok, err, Exec, pure, deferring,
  on_error, ◌>>=◌, ◌>>◌, if◌then◌else◌,
}
use competition_api.WorkerErrors.{GoError, StatusError, as_status_error, status_error_wrap}
use competition_api.Types.Status.{
  SubmissionStatus, passed, errored, inconclusive, result_ctx_head_repo_test,
  result_ctx_base_repo_test,
}
use competition_api.WorkerQueue.{WorkerQueuer, send_final_message}
use competition_api.Engine.{Engine, Params, with_repo, with_fuzz_tooling_dir}
use competition_api.Aixcc.{Handle}
use competition_api.Aixcc.Files.{is_blank}

-- What the evaluator calls beside its engine and its queue.
pub record Host (W : Type 0) : Type 0 where
  -- the method of `fetch.Fetcher`
  pub fetch : String → Exec W GoError Handle
  -- the method of `extract.Extractor`
  pub extract : Handle → String → Exec W GoError (Unit {0})
  pub mkdir_temp : Exec W GoError String
  pub create_temp : Exec W GoError Handle
  -- `io.Copy(to, from)`
  pub copy : Handle → Handle → Exec W GoError (Unit {0})
  pub close : Handle → W → W
  pub remove_all : String → W → W
  pub name : Handle → String

pub record Evaluator (W : Type 0) : Type 0 where
  pub host : Host W
  pub open host use *
  pub engine : Engine W
  pub queuer : WorkerQueuer W

-- The arguments of `Evaluate`.
pub record Job : Type 0 where
  pub fuzz_tooling_url : String
  pub head_repo_url : String
  pub base_repo_url : String
  pub trigger_url : String
  pub patch_url : String
  pub skip_patch_tests : Bool
  pub params : Params

-- `ctx.Err()`
pub data ContextError : Type 0 where
  canceled deadline_passed : ContextError

-- What the `select` of `Evaluate` takes: the end of the context, in the world that the evaluation
-- going on beside it has come to, or the result of the evaluation, with `ctx.Err()` after it.
pub data Arrival (W : Type 0) : Type 0 where
  context_done : ContextError → W → Arrival W
  evaluated : Option ContextError → Arrival W

-- `status` and `patchTestsFailed`
pub record Report : Type 0 where
  pub status : SubmissionStatus
  pub patch_tests_failed : Bool

abbrev pub initial_report : Report
initial_report = record { status = passed; patch_tests_failed = false }

abbrev pub report_status_error : Option StatusError → Report
report_status_error none = record initial_report { status = errored }
report_status_error (some se) = record {
  status = se.status;
  patch_tests_failed = se.patch_tests_failed;
}

unfoldable pub report_result : Result GoError (Unit {0}) → Report
unfolding as_status_error
report_result (ok _) = initial_report
report_result (err e) = report_status_error (as_status_error e)

-- `if ctx.Err() == context.DeadlineExceeded { status = types.SubmissionStatusInconclusive }`
abbrev pub report_context : Option ContextError → Report → Report
report_context (some deadline_passed) r = record r { status = inconclusive }
report_context _ r = r

module _ {W : Type 0} (e : Evaluator W) where
  unfoldable pub fetch_extract_repo : String → Exec W GoError String
  fetch_extract_repo url = do
    repo_compressed ← e.fetch url
    deferring (e.close repo_compressed)
        do repo_dir ← e.mkdir_temp; e.extract repo_compressed repo_dir; pure repo_dir

  unfoldable pub fetch_file : String → Exec W GoError Handle
  fetch_file url = do
    file ← e.create_temp
    buffer ← on_error (e.close file) (e.fetch url)
    deferring (e.close buffer) do on_error (e.close file) (e.copy file buffer); pure file

  -- An error that replaces the engine's keeps it inside.
  abbrev pub wrap_errored : Result GoError (Unit {0}) → Result GoError (Unit {0})
  wrap_errored (ok x) = ok x
  wrap_errored (err x) = err (status_error_wrap errored false (some x))

  unfoldable pub build_or_errored : Params → Exec W GoError (Unit {0})
  build_or_errored challenge w = let (r, w') = e.engine.build challenge w in (wrap_errored r, w')

  unfoldable pub run_pov_tests : Params → String → Bool → Exec W GoError (Unit {0})
  unfolding build_or_errored
  run_pov_tests challenge trigger_path should_crash = do
    build_or_errored challenge
    e.engine.run_pov challenge trigger_path should_crash

  unfoldable pub run_base_tests : Params → String → String → Exec W GoError (Unit {0})
  unfolding fetch_extract_repo run_pov_tests with_repo
  run_base_tests head_challenge base_repo_url trigger_path = do
    base_repo_dir ← fetch_extract_repo base_repo_url
    deferring (e.remove_all base_repo_dir) (
        run_pov_tests (with_repo head_challenge result_ctx_base_repo_test base_repo_dir)
          trigger_path false)

  unfoldable pub run_patch_tests : Params → String → String → Bool → Exec W GoError (Unit {0})
  unfolding fetch_file
  run_patch_tests head_challenge trigger_path patch_url skip_patch_functionality_tests = do
    patch ← fetch_file patch_url
    deferring (e.close patch) do
      e.engine.apply_patch head_challenge (e.name patch)
      e.engine.build head_challenge
      if is_blank trigger_path then pure tt else e.engine.run_pov head_challenge trigger_path false
      if skip_patch_functionality_tests then pure tt else e.engine.run_tests head_challenge true

  -- The trigger on the repository before and after the vulnerable change; not for patches.
  unfoldable pub run_trigger : Job → Params → String → Exec W GoError (Unit {0})
  unfolding run_base_tests run_pov_tests
  run_trigger job head_challenge trigger_path = do
    if is_blank job.base_repo_url
        then pure tt
        else run_base_tests head_challenge job.base_repo_url trigger_path
    run_pov_tests head_challenge trigger_path true

  unfoldable pub run_patch : Job → Params → String → Exec W GoError (Unit {0})
  unfolding run_patch_tests
  run_patch job head_challenge trigger_path =
      if is_blank job.patch_url
      then pure tt
      else run_patch_tests head_challenge trigger_path job.patch_url job.skip_patch_tests

  -- From the test of `triggerURL` to the end of `evaluate`.
  unfoldable pub run_submission : Job → Params → Exec W GoError (Unit {0})
  unfolding fetch_file run_trigger run_patch
  run_submission job head_challenge =
      if is_blank job.trigger_url then run_patch job head_challenge "" else do
        trigger ← fetch_file job.trigger_url
        deferring (e.close trigger) do
          if is_blank job.patch_url
              then run_trigger job head_challenge (e.name trigger)
              else pure tt
          run_patch job head_challenge (e.name trigger)

  -- The method `evaluate`.
  unfoldable pub evaluate_job : Job → Exec W GoError (Unit {0})
  unfolding fetch_extract_repo run_submission with_repo with_fuzz_tooling_dir
  evaluate_job job = do
    fuzz_tooling_dir ← fetch_extract_repo job.fuzz_tooling_url
    deferring (e.remove_all fuzz_tooling_dir) do
      head_repo_dir ← fetch_extract_repo job.head_repo_url
      let head_challenge =
          with_repo (with_fuzz_tooling_dir job.params fuzz_tooling_dir) result_ctx_head_repo_test
            head_repo_dir
      deferring (e.remove_all head_repo_dir)
          do e.engine.check_params head_challenge; run_submission job head_challenge

  -- What `Evaluate` has found once the `select` is over, and the world then.
  unfoldable pub outcome : Arrival W → Job → W → Report × W
  unfolding evaluate_job report_result
  outcome (context_done reason w') job w = (report_context (some reason) initial_report, w')
  outcome (evaluated reason) job w =
      let (r, w') = evaluate_job job w in (report_context reason (report_result r), w')

  -- The method `Evaluate`: one final message, with what was found.
  unfoldable pub evaluate : Arrival W → Job → Exec W GoError (Unit {0})
  unfolding outcome send_final_message
  evaluate arrival job w =
      let (report, w') = outcome arrival job w in
      send_final_message e.queuer report.status report.patch_tests_failed w'
