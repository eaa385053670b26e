-- ===== src/Aixcc/Commands.antt =====
-- `Build`, `RunPov` and `RunTests` of competition-api/cmd/worker/internal/engine/aixcc.go.
pub mod Rounds
use Prim.Native.String.{len}
use competition_api.Prelude.{
  ℕ, zero, suc, String, Bool, true, false, not, ◌&&◌, ◌||◌, Option, none, some, List, [], ◌∷◌, ◌++◌,
  Result, ok, err, Exec, pure, raise, lift, check, try, ◌>>=◌, ◌>>◌, str_eq, if◌then◌else◌,
}
use competition_api.WorkerErrors.{GoError, message, status_error_wrap}
use competition_api.Types.Status.{
  SubmissionStatus, failed, ResultContext, result_ctx_base_repo_test, ArchivedFile, fuzz_out_head,
  fuzz_out_base,
}
use competition_api.Types.ExitCode.{ℤ, has_code}
use competition_api.Types.Worker.{Blob, JobResult, JobArtifact}
use competition_api.Upload.{Uploader, hashed}
use competition_api.WorkerQueue.{send_command_result, send_artifact}
use competition_api.GoStrings.{contains}
use competition_api.Engine.{Params, err_building_failed, err_apt_unreachable, err_maven_unreachable}
use competition_api.Aixcc.{System, AixccEngine, Command, CommandResult}
use competition_api.Aixcc.Files.{is_blank, get_fuzz_tooling_dir}

abbrev pub when : Bool → List String → List String
when b args = if b then args else []

-- How `Build` reads the result of `build_cr.sh`.
unfoldable pub classify_build : CommandResult → Result GoError (Unit {0})
classify_build result =
    if has_code result.exit_code 202
    then (if contains result.stderr "Unable to fetch some archives"
        then err err_apt_unreachable
        else if contains result.stdout "Could not transfer"
        then err err_maven_unreachable
        else err (status_error_wrap failed false (some err_building_failed)))
    else if has_code result.exit_code 0
    then ok tt
    else err (message "problem executing build")

-- How `RunPov` reads the result of the last `run_pov.sh`.
unfoldable pub classify_pov : CommandResult → Result GoError (Unit {0})
classify_pov result =
    if has_code result.exit_code 0
    then ok tt
    else if has_code result.exit_code 202
    then err (status_error_wrap failed false none)
    else err (message "unexpected exit code")

-- How `RunTests` reads the result of `run_tests.sh`.
unfoldable pub classify_tests : CommandResult → Result GoError (Unit {0})
classify_tests result =
    if has_code result.exit_code 202
    then err (status_error_wrap failed true none)
    else if has_code result.exit_code 0
    then ok tt
    else err (message "unexpected exit code")

abbrev pub archived_name : ResultContext → ArchivedFile
archived_name context =
    if str_eq context result_ctx_base_repo_test then fuzz_out_base else fuzz_out_head

-- An object without a URL.
abbrev pub blob : String → Blob
blob object_name = record { presigned_url = none; object_name = object_name }

-- `loopCount`, less the first round.
abbrev pub rounds_after_first : Bool → ℕ
rounds_after_first crash_expected = if crash_expected then 0 else 2

-- The call parameters that `RunPov` wants.
unfoldable pub has_pov_params : Params → String → Bool
has_pov_params params trigger_path = not (
    is_blank params.architecture
    || is_blank params.project_name
    || is_blank params.fuzz_tooling_dir
    || is_blank params.harness
    || is_blank params.engine
    || is_blank params.sanitizer
    || is_blank trigger_path
    || is_blank params.result_context)

module _ {W : Type 0} (c : AixccEngine W) where
  unfoldable pub build_args : Params → String → List String
  build_args params fuzz_tooling_dir =
      "-e"
      ∷ (when (not (is_blank params.sanitizer)) ("-s" ∷ params.sanitizer ∷ [])
          ++ "-a"
            ∷ params.architecture
            ∷ "-p"
            ∷ params.project_name
            ∷ "-r"
            ∷ c.join (params.repo_dir ∷ params.focus ∷ [])
            ∷ "-o"
            ∷ fuzz_tooling_dir
            ∷ [])

  unfoldable pub build : Params → Exec W GoError (Unit {0})
  build params = do
    check
        (not (
          is_blank params.architecture
          || is_blank params.project_name
          || is_blank params.repo_dir
          || is_blank params.fuzz_tooling_dir
          || is_blank params.focus))
        (message "missing call params")
    fuzz_tooling_dir ← get_fuzz_tooling_dir c params
    result ←
        c.execute (record { program = "./build_cr.sh"; args = build_args params fuzz_tooling_dir })
    lift (classify_build result)

  unfoldable pub pov_args : Params → String → String → Bool → List String
  pov_args params fuzz_tooling_dir trigger_path crash_expected =
      when (not crash_expected) ("-x" ∷ [])
      ++ "-a" ∷ params.architecture ∷ "-p" ∷ params.project_name ∷ "-o" ∷ fuzz_tooling_dir ∷ "-f"
        ∷ params.harness ∷ "-e" ∷ params.engine ∷ "-s" ∷ params.sanitizer ∷ "-b" ∷ trigger_path
        ∷ "-n" ∷ "-t" ∷ "1800" ∷ []

  -- The loop `for range loopCount`, with the rounds that may follow this one; it is left early when
  -- a crash shows that must not.
  unfoldable pub run_rounds : ℕ → Bool → Command → Exec W GoError CommandResult
  run_rounds zero crash_expected cmd = c.execute cmd
  run_rounds (suc rounds) crash_expected cmd = do
    result ← c.execute cmd
    if not crash_expected && has_code result.exit_code 202
        then pure result
        else run_rounds rounds crash_expected cmd

  -- The output of the last run is stored and reported.
  unfoldable pub report_result : Params → CommandResult → Exec W GoError (Unit {0})
  report_result params result = do
    stdout_hash ←
        hashed c.sha256 c.artifact_uploader (c.bytes_reader result.stdout) (len result.stdout)
    stderr_hash ←
        hashed c.sha256 c.artifact_uploader (c.bytes_reader result.stderr) (len result.stderr)
    send_command_result c.worker_queuer (record {
      stdout_blob = blob stdout_hash;
      stderr_blob = blob stderr_hash;
      exit_code = some result.exit_code;
      context = params.result_context;
      cmd = result.cmd;
    })

  unfoldable pub store_fuzz_out : Params → ℕ → Exec W GoError (Unit {0})
  store_fuzz_out params size = do
    fuzz_out_file ← c.open_file "/tmp/fuzz.out"
    fuzz_out_hash ← hashed c.sha256 c.artifact_uploader (c.file_reader fuzz_out_file) size
    send_artifact c.worker_queuer (record {
      blob = blob fuzz_out_hash;
      archived_file = archived_name params.result_context;
      filename = c.file_name fuzz_out_file;
      context = params.result_context;
    })

  -- What `os.Stat` of the output says: there, not there, or an error.
  abbrev pub on_fuzz_out_stat : Params → Result GoError ℕ → Exec W GoError (Unit {0})
  on_fuzz_out_stat params (ok size) = store_fuzz_out params size
  on_fuzz_out_stat params (err e) = if c.is_not_exist e then pure tt else raise e

  unfoldable pub archive_fuzz_out : Params → Exec W GoError (Unit {0})
  unfolding store_fuzz_out
  archive_fuzz_out params = do
    stat ← try (c.stat_size "/tmp/fuzz.out")
    on_fuzz_out_stat params stat

  -- What follows the runs.
  unfoldable pub finish_pov : Params → CommandResult → Exec W GoError (Unit {0})
  finish_pov params result = do
    report_result params result
    archive_fuzz_out params
    lift (classify_pov result)

  unfoldable pub pov_rounds : Params → String → Bool → String → Exec W GoError CommandResult
  pov_rounds params trigger_path crash_expected fuzz_tooling_dir =
      run_rounds (rounds_after_first crash_expected) crash_expected (record {
        program = "./run_pov.sh";
        args = pov_args params fuzz_tooling_dir trigger_path crash_expected;
      })

  -- The method `RunPov`, once its parameters are there.
  unfoldable pub run_pov_checked : Params → String → Bool → Exec W GoError (Unit {0})
  run_pov_checked params trigger_path crash_expected = do
    fuzz_tooling_dir ← get_fuzz_tooling_dir c params
    result ← pov_rounds params trigger_path crash_expected fuzz_tooling_dir
    finish_pov params result

  unfoldable pub run_pov : Params → String → Bool → Exec W GoError (Unit {0})
  run_pov params trigger_path crash_expected = do
    check (has_pov_params params trigger_path) (message "missing call params")
    run_pov_checked params trigger_path crash_expected

  unfoldable pub tests_args : Params → Bool → List String
  tests_args params success_expected =
      when (not success_expected) ("-x" ∷ [])
      ++ "-p" ∷ params.project_name ∷ "-r" ∷ c.join (params.repo_dir ∷ params.focus ∷ []) ∷ []

  unfoldable pub run_tests : Params → Bool → Exec W GoError (Unit {0})
  run_tests params success_expected = do
    check (not (is_blank params.project_name || is_blank params.repo_dir || is_blank params.focus))
        (message "missing call params")
    result ←
        c.execute (record { program = "./run_tests.sh"; args = tests_args params success_expected })
    lift (classify_tests result)
