-- ===== src/Routes/Submission/Pov.antt =====
-- competition-api/cmd/server/internal/routes/v1/pov.go: triggers that are tried by a job.
use Prim.Native.String.{len}
use competition_api.Prelude.{
  ℕ, String, not, ◌&&◌, Option, none, some, List, [], ◌∷◌, ◌++◌, Exec, pure, lift, check, act,
  or_return, ◌>>=◌, ◌>>◌, str_eq, ◌==◌, if◌then◌else◌,
}
use competition_api.Types.Status.{SubmissionStatus, JobType, pov, pov_trigger}
use competition_api.Types.Bundle.{Uuid}
use competition_api.Upload.{hashed}
use competition_api.Validator.{validate_trigger_size}
use competition_api.Audit.{entity_pov}
use competition_api.Audit.Log.{log_pov_submission}
use competition_api.Archive.{FileMetadata, archive_file}
use competition_api.Models.Rows.{Auth, Task}
use competition_api.Models.Sources.{PresignedSourceUrls, get_source_urls}
use competition_api.Models.Submissions.{PovSubmission}
use competition_api.Http.{
  HttpError, internal_server_error, not_found_error, bad_request, from_context,
}
use competition_api.Routes.Context.{is_late, status_at, audit_context}
use competition_api.Routes.Submission.{
  EvalJob, has_client, Handler, SubmissionRequest, expiration, start_with,
}

-- `types.POVSubmission`
pub record PovBody : Type 0 where
  pub testcase : String
  pub fuzzer_name : String
  pub sanitizer : String
  pub architecture : String
  pub engine : String

-- `types.POVSubmissionResponse`
pub record PovResponse : Type 0 where
  pub pov_id : String
  pub status : SubmissionStatus

unfoldable pub new_pov : Auth → Task → ℕ → PovBody → String → PovSubmission
new_pov auth task time rdata blob_name = record {
  id = 0;
  submitter_id = auth.id;
  task_id = task.id;
  status = status_at time task;
  testcase_path = blob_name;
  fuzzer_name = rdata.fuzzer_name;
  sanitizer = rdata.sanitizer;
  architecture = rdata.architecture;
  engine = rdata.engine;
}

abbrev base_repo_args : PresignedSourceUrls → List String
base_repo_args sources =
    if str_eq sources.base_repo "" then [] else "--base-repo-url" ∷ sources.base_repo ∷ []

-- The arguments of the worker.
unfoldable pub pov_job_args :
    Task → PovSubmission → PresignedSourceUrls → (trigger_url pov_id : String) → List String
pov_job_args task p sources trigger_url pov_id =
    ("--head-repo-url" ∷ sources.head_repo ∷ "--focus" ∷ task.focus ∷ "--project-name"
      ∷ task.project_name ∷ "--oss-fuzz-url" ∷ sources.fuzz_tooling ∷ "--architecture"
      ∷ p.architecture ∷ "--trigger-url" ∷ trigger_url ∷ "--sanitizer" ∷ p.sanitizer
      ∷ "--harness-name" ∷ p.fuzzer_name ∷ "--engine" ∷ p.engine ∷ "--pov-id" ∷ pov_id
      ∷ "--archive-s3" ∷ [])
    ++ base_repo_args sources

unfoldable pub eval_job : (Uuid → String) → JobType → Auth → Task → Uuid → List String → EvalJob
eval_job id_text kind auth task id args = record {
  job_type = kind;
  id = id_text id;
  args = args;
  memory_gb = task.memory_gb;
  cpus = task.cpus;
  round_id = some task.round_id;
  task_id = some (id_text task.id);
  team_id = some (id_text auth.id);
}

abbrev pub no_harnesses : HttpError
no_harnesses = bad_request "cannot submit pov for vuln with no harnesses. use freeform pov instead"

module _ {W : Type 0} (h : Handler W) where
  -- The file that is archived.
  abbrev pub pov_file : String → PovSubmission → FileMetadata
  pov_file vuln_data p = record {
    local_file_path = none;
    buffer = some vuln_data;
    archived_file = pov_trigger;
    entity = entity_pov;
    entity_id = h.id_text p.id;
  }

  abbrev pub pov_job : Auth → Task → PovSubmission → String → PresignedSourceUrls → EvalJob
  pov_job auth task p trigger_url sources =
      eval_job h.id_text pov auth task p.id
        (pov_job_args task p sources trigger_url (h.id_text p.id))

  -- The job that tries the trigger, where there is a client and the deadline has not passed.
  unfoldable pub start_pov_job : Auth → Task → ℕ → PovSubmission → Exec W HttpError (Unit {0})
  unfolding get_source_urls
  start_pov_job auth task time p =
      if not (is_late time task) && has_client h.job_client
      then start_with h.job_client
          (h.submission_uploader.presigned_read_url p.testcase_path expiration)
          (get_source_urls task h.sources_uploader expiration) (pov_job auth task p)
      else pure tt

  -- `SubmitPOV`, once the trigger is stored.
  unfoldable pub take_pov :
      Auth → Task → ℕ → PovBody → (vuln_data blob_name : String) → Exec W HttpError PovResponse
  unfolding new_pov
  take_pov auth task time rdata vuln_data blob_name = do
    p ← or_return (h.create_pov (new_pov auth task time rdata blob_name)) internal_server_error
    or_return
        (archive_file h.archive_system (audit_context h.id_text auth task) h.archiver
          (pov_file vuln_data p))
        internal_server_error
    start_pov_job auth task time p
    act (
        h.print_line (
          log_pov_submission (audit_context h.id_text auth task) (record {
            pov_id = h.id_text p.id;
            fuzzer_name = rdata.fuzzer_name;
            testcase_sha256 = blob_name;
            sanitizer = rdata.sanitizer;
            architecture = rdata.architecture;
            status = p.status;
            engine = p.engine;
          })))
    pure (record { pov_id = h.id_text p.id; status = p.status })

  -- `SubmitPOV`
  unfoldable pub submit_pov : SubmissionRequest W PovBody → Exec W HttpError PovResponse
  unfolding new_pov
  submit_pov c = do
    auth ← from_context c.auth
    task ← from_context c.task
    time ← from_context c.time
    check task.harnesses_included no_harnesses
    rdata ← or_return c.bind (bad_request "failed to parse request data")
    or_return (lift (c.validate rdata)) (bad_request "validation error")
    check (validate_trigger_size (len rdata.testcase)) (bad_request "validation error")
    vuln_data ←
        or_return (lift (h.decode_base64 rdata.testcase)) (bad_request "failed to decode base64")
    blob_name ←
        or_return (hashed h.sha256 h.submission_uploader (h.bytes_reader vuln_data) (len vuln_data))
          internal_server_error
    take_pov auth task time rdata vuln_data blob_name

  -- `POVStatus`, for the row that the middleware has found.
  unfoldable pub pov_status :
      Option Auth → Option PovSubmission → Option Task → Exec W HttpError PovResponse
  pov_status auth_in_context pov_in_context task_in_context = do
    auth ← from_context auth_in_context
    vuln ← from_context pov_in_context
    task ← from_context task_in_context
    check (vuln.submitter_id == auth.id && vuln.task_id == task.id) not_found_error
    pure (record { pov_id = h.id_text vuln.id; status = vuln.status })
