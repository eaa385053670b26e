-- ===== src/Tests/Jobrunner.antt =====
-- A job with one artifact and one result, and requests for jobs.
use competition_api.Prelude.{ℕ, String, ◌≡◌, refl, sym, ap, true, none, some, [], ◌∷◌, ok, pure}
use competition_api.Types.Status.{passed, fuzz_out_head}
use competition_api.Types.ExitCode.{pos}
use competition_api.Types.Worker.{Blob}
use competition_api.Upload.{Uploader, hash_reader, hashed}
use competition_api.Models.Sources.{base_repo_url, get_source_urls}
use competition_api.Validator.{validate_trigger_size}
use competition_api.Routes.Jobrunner.{
  JobArgs, JobTask, JobRow, JobResponse, JobHandler, Prepared, job_task, overridden_task, job_args,
  cache_parts,
}
use competition_api.Routes.Jobrunner.Work.{
  presigned_artifacts, presigned_results, job_response, load_task, add_trigger, add_patch,
  prepare_job,
}
use competition_api.Routes.Jobrunner.Presigned.{
  ok_inv, AreSigned, ResultsSigned, job_response-AreSigned,
}
use competition_api.Routes.Jobrunner.Lines.{ReadsBack, IsTaskOf, key_lines}
use competition_api.Routes.Jobrunner.Keyed.{prepare_job-key}
use competition_api.Tests.Fixtures.{sample_task}

abbrev blobs : Uploader ℕ
blobs = record {
  upload = λ reader size name. pure tt;
  exists = λ name. pure true;
  store_identifier = pure "bucket";
  presigned_read_url = λ name duration. pure name;
}

abbrev row : JobRow
row = record {
  id = 7;
  status = passed;
  functionality_tests_passing = some true;
  results =
      record {
        stdout_blob = record { presigned_url = none; object_name = "out" };
        stderr_blob = record { presigned_url = none; object_name = "err" };
        exit_code = some (pos 0);
        context = "";
        cmd = [];
      }
      ∷ [];
  artifacts =
      record {
        blob = record { presigned_url = none; object_name = "fuzz" };
        archived_file = fuzz_out_head;
        filename = "fuzz.tar.gz";
        context = "";
      }
      ∷ [];
}

abbrev runner : JobHandler ℕ
runner = record {
  job_client = some (λ job. pure tt);
  submission_uploader = blobs;
  artifacts_uploader = blobs;
  sources_uploader = blobs;
  config_cache_key = some "1";
  bytes_reader = λ text. record { seek_start = pure tt; read_all = pure text };
  sha256 = λ text. text;
  join_lines = λ lines. "lines";
  decode_base64 = λ text. ok text;
  parse_id = λ text. ok 5;
  id_text = λ id. "7";
  task_by_id = λ id. pure (some sample_task);
  create_job = λ key. pure row;
  first_or_create = λ key. pure (record { row = row; is_new = true });
  transaction = λ body. body;
}

abbrev signed : String → Blob
signed name = record { presigned_url = some name; object_name = name }

abbrev response : JobResponse
response = record {
  job_id = "7";
  status = passed;
  functionality_tests_passing = some true;
  results =
      record {
        stdout_blob = signed "out";
        stderr_blob = signed "err";
        exit_code = some (pos 0);
        context = "";
        cmd = [];
      }
      ∷ [];
  artifacts =
      record {
        blob = signed "fuzz";
        archived_file = fuzz_out_head;
        filename = "fuzz.tar.gz";
        context = "";
      }
      ∷ [];
}

responded : (job_response runner row 0).0 ≡ ok response
unfolding job_response presigned_artifacts presigned_results
responded = refl

job_response-AreSigned_example :
    (response.job_id ≡ "7")
    × (response.status ≡ row.status)
    × (response.functionality_tests_passing ≡ row.functionality_tests_passing)
    × AreSigned runner row.artifacts response.artifacts
    × ResultsSigned runner row.results response.results
job_response-AreSigned_example = job_response-AreSigned runner row 0 response responded

-- A request that names nothing.
abbrev empty : JobArgs
empty = record {
  task_id = none;
  architecture = none;
  fuzzer_name = none;
  sanitizer = none;
  engine = none;
  testcase_b64 = none;
  testcase_hash = none;
  patch_b64 = none;
  patch_hash = none;
  skip_patch_tests = none;
  head_repo_tarball_url = none;
  oss_fuzz_tarball_url = none;
  focus = none;
  project_name = none;
  base_tarball_url = none;
  memory_gb = none;
  cpus = none;
  cache_key = none;
  override_cache = none;
}

-- A request for a task, with a testcase.
abbrev asked : JobArgs
asked = record empty {
  task_id = some "5";
  architecture = some "x86_64";
  fuzzer_name = some "fuzz";
  sanitizer = some "address";
  engine = some "libfuzzer";
  testcase_b64 = some "boom";
  cache_key = some "2";
}

abbrev prepared : Prepared
prepared = record {
  task = overridden_task asked (job_task sample_task);
  args =
      "--head-repo-url" ∷ sample_task.unstripped_source.head_repo.url ∷ "--oss-fuzz-url"
      ∷ sample_task.unstripped_source.fuzz_tooling.url ∷ "--focus" ∷ "libxml2" ∷ "--project-name"
      ∷ "libxml2" ∷ "--architecture" ∷ "x86_64" ∷ "--export-results" ∷ "--trigger-url" ∷ "boom"
      ∷ "--sanitizer" ∷ "address" ∷ "--harness-name" ∷ "fuzz" ∷ "--engine" ∷ "libfuzzer" ∷ [];
  key = "lines";
}

asked-prepared : (prepare_job runner asked 0).0 ≡ ok prepared
unfolding prepare_job load_task get_source_urls add_trigger add_patch cache_parts job_args hashed
    hash_reader base_repo_url validate_trigger_size
asked-prepared = refl

runner-ReadsBack : ReadsBack runner
runner-ReadsBack = record { reads = λ content found w w₁ w₂ e f. ok_inv (sym (ap (λ s. s.0) f)) }

prepare_job-key_example :
    (config_key : String) × (t : JobTask) × (runner.config_cache_key ≡ some config_key)
    × IsTaskOf runner (some "5") t
    × (prepared.key ≡ runner.sha256 (runner.join_lines (key_lines runner config_key asked t)))
prepare_job-key_example = prepare_job-key runner runner-ReadsBack asked prepared 0 asked-prepared
