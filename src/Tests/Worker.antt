-- ===== src/Tests/Worker.antt =====
-- The worker: the retried build, the runs of a trigger, a patch and a whole evaluation.
use competition_api.Prelude.{
  str_append, ◌≡◌, refl, ◌≤◌, ◌⊎◌, String, true, false, List, [], ◌∷◌, ◌++◌, length, is_ok, Result,
  ok,
}
use competition_api.WorkerErrors.{GoError}
use competition_api.WorkerQueue.{send_command_result, send_artifact}
use competition_api.Upload.Stored.{IsStored, hashed-IsStored}
use competition_api.Upload.{hash_reader, hashed}
use competition_api.Types.ExitCode.{has_code}
use competition_api.Engine.BuildRetry.{build}
use competition_api.Engine.BuildRetry.Verdict.{Builds, verdict, build-verdict}
use competition_api.Aixcc.{CommandResult}
use competition_api.Aixcc.Files.{get_fuzz_tooling_dir}
use competition_api.Aixcc.Commands.{
  has_pov_params, classify_pov, run_rounds, pov_rounds, report_result, store_fuzz_out,
  archive_fuzz_out, finish_pov, run_pov_checked, run_pov,
}
use competition_api.Aixcc.Commands.Rounds.{
  CleanRuns, Executions, has_crashed, pov_command, run_pov-CleanRuns, run_pov_crash,
}
use competition_api.Aixcc.Patches.{
  get_language, remove_patch_prefix, parse_patch, check_file, check_files, git_apply, check_applied,
  apply_checked, apply_files, apply_patch,
}
use competition_api.Aixcc.Patches.Allowed.{Applied, apply_patch-Applied}
use competition_api.Evaluate.{evaluate_job}
use competition_api.Evaluate.Plan.{Call, traced, plan}
use competition_api.Evaluate.Plan.Order.{HasNames, evaluate_job-plan}
use competition_api.GoStrings.{trim_space}
use competition_api.Tests.Fixtures.{
  sample_uploader, sample_reader, sample_params, sample_engine, flaky_engine, patient_retry,
  sample_evaluator, sample_job,
}

build-verdict_example :
    (rs : List (Result GoError (Unit {0}))) × Builds flaky_engine sample_params 0 rs
      (build patient_retry flaky_engine sample_params 0).1
    × (length rs ≤ 4)
    × ((build patient_retry flaky_engine sample_params 0).0 ≡ verdict rs)
build-verdict_example = build-verdict flaky_engine sample_params patient_retry 0

run_pov_succeeds : (run_pov sample_engine sample_params "/tmp/pov" false 0).0 ≡ ok tt
unfolding run_pov has_pov_params run_pov_checked get_fuzz_tooling_dir pov_rounds run_rounds
    finish_pov report_result hashed hash_reader send_command_result archive_fuzz_out store_fuzz_out
    send_artifact classify_pov
run_pov_succeeds = refl

run_pov-CleanRuns_example :
    (dir : String) × (r : CommandResult) × CleanRuns sample_engine
      (pov_command sample_engine sample_params "/tmp/pov" dir false)
      2
      r
      (get_fuzz_tooling_dir sample_engine sample_params 0).1
      (pov_rounds sample_engine sample_params "/tmp/pov" false dir
        (get_fuzz_tooling_dir sample_engine sample_params 0).1).1
    × (has_code r.exit_code 0 ≡ true)
    × (has_crashed r ≡ false)
run_pov-CleanRuns_example =
    run_pov-CleanRuns sample_engine sample_params "/tmp/pov" 0 run_pov_succeeds

run_pov_crashes : (run_pov sample_engine sample_params "/tmp/pov" true 0).0 ≡ ok tt
unfolding run_pov has_pov_params run_pov_checked get_fuzz_tooling_dir pov_rounds run_rounds
    finish_pov report_result hashed hash_reader send_command_result archive_fuzz_out store_fuzz_out
    send_artifact classify_pov
run_pov_crashes = refl

run_pov_crash_example :
    (dir : String) × (r : CommandResult) × Executions sample_engine
      (pov_command sample_engine sample_params "/tmp/pov" dir true)
      (get_fuzz_tooling_dir sample_engine sample_params 0).1
      (r ∷ [])
      (pov_rounds sample_engine sample_params "/tmp/pov" true dir
        (get_fuzz_tooling_dir sample_engine sample_params 0).1).1
    × (has_code r.exit_code 0 ≡ true)
run_pov_crash_example = run_pov_crash sample_engine sample_params "/tmp/pov" 0 run_pov_crashes

apply_patch_succeeds : (apply_patch sample_engine sample_params "/tmp/patch" 0).0 ≡ ok tt
unfolding apply_patch apply_files apply_checked check_applied git_apply check_files check_file
    parse_patch remove_patch_prefix get_language trim_space
apply_patch_succeeds = refl

apply_patch-Applied_example : Applied sample_engine sample_params "/tmp/patch" 0
apply_patch-Applied_example =
    apply_patch-Applied sample_engine sample_params "/tmp/patch" 0 apply_patch_succeeds

sample_names : HasNames sample_evaluator
sample_names file = refl

evaluate_job-plan_example :
    (made left : List Call) × (plan sample_job ≡ made ++ left)
    × ((evaluate_job (traced sample_evaluator) sample_job (0, [])).1.1 ≡ [] ++ made)
    × ((is_ok (evaluate_job (traced sample_evaluator) sample_job (0, [])).0 ≡ false) ⊎ (left ≡ []))
evaluate_job-plan_example = evaluate_job-plan sample_evaluator sample_names sample_job (0, [])

hashed_succeeds :
    (hashed (str_append "sha256-") sample_uploader (sample_reader "content") 7 0).0
    ≡ ok "sha256-content"
unfolding hashed hash_reader
hashed_succeeds = refl

hashed-IsStored_example :
    IsStored (str_append "sha256-") sample_uploader (sample_reader "content") 7 "sha256-content" 0
hashed-IsStored_example =
    hashed-IsStored (str_append "sha256-") sample_uploader (sample_reader "content") 7 0
      "sha256-content" hashed_succeeds
