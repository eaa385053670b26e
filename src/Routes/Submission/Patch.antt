-- ===== src/Routes/Submission/Patch.antt =====
-- competition-api/cmd/server/internal/routes/v1/patch.go: patches that are tried by a job.
use Prim.Native.String.{len}
use competition_api.Prelude.{
  ℕ, String, Bool, not, ◌&&◌, Option, none, some, List, [], ◌∷◌, Exec, pure, lift, check, act,
  or_return, ◌>>=◌, ◌>>◌, ◌==◌, if◌then◌else◌,
}
use competition_api.Types.Status.{SubmissionStatus, patch, patch_file}
use competition_api.Upload.{hashed}
use competition_api.Validator.{validate_patch_size}
use competition_api.Audit.{entity_patch}
use competition_api.Audit.Log.{log_patch_submission}
use competition_api.Archive.{FileMetadata, archive_file}
use competition_api.Models.Rows.{Auth, Task}
use competition_api.Models.Sources.{PresignedSourceUrls, get_source_urls}
use competition_api.Models.Submissions.{PatchSubmission}
use competition_api.Aixcc.Patches.{language_c, language_java}
use competition_api.Http.{
  HttpError, internal_server_error, not_found_error, bad_request, from_context,
}
use competition_api.Routes.Context.{is_late, status_at, audit_context}
use competition_api.Routes.Submission.{
  EvalJob, has_client, Handler, SubmissionRequest, expiration, start_with,
}
use competition_api.Routes.Submission.Pov.{eval_job}

-- `types.PatchSubmission`
pub record PatchBody : Type 0 where
  pub patch : String

-- `types.PatchSubmissionResponse`
pub record PatchResponse : Type 0 where
  pub patch_id : String
  pub status : SubmissionStatus
  pub functionality_tests_passing : Option Bool

unfoldable pub new_patch : Auth → Task → ℕ → String → PatchSubmission
new_patch auth task time blob_name = record {
  id = 0;
  submitter_id = auth.id;
  task_id = task.id;
  status = status_at time task;
  patch_file_path = blob_name;
  functionality_tests_passing = none;
}

-- The arguments of the worker.
unfoldable pub patch_job_args :
    Task → PresignedSourceUrls → (patch_url patch_id : String) → List String
patch_job_args task sources patch_url patch_id =
    "--head-repo-url" ∷ sources.head_repo ∷ "--focus" ∷ task.focus ∷ "--project-name"
    ∷ task.project_name ∷ "--oss-fuzz-url" ∷ sources.fuzz_tooling ∷ "--architecture" ∷ "x86_64"
    ∷ "--patch-url" ∷ patch_url ∷ "--allowed-languages" ∷ language_c ∷ "--allowed-languages"
    ∷ language_java ∷ "--patch-id" ∷ patch_id ∷ []

abbrev pub no_harnesses : HttpError
no_harnesses =
    bad_request
      "cannot submit patch against task with no harnesses. use freeform patch endpoint instead"

module _ {W : Type 0} (h : Handler W) where
  -- The file that is archived.
  abbrev pub patch_metadata : String → PatchSubmission → FileMetadata
  patch_metadata patch_data p = record {
    local_file_path = none;
    buffer = some patch_data;
    archived_file = patch_file;
    entity = entity_patch;
    entity_id = h.id_text p.id;
  }

  abbrev pub patch_job : Auth → Task → PatchSubmission → String → PresignedSourceUrls → EvalJob
  patch_job auth task p patch_url sources =
      eval_job h.id_text patch auth task p.id
        (patch_job_args task sources patch_url (h.id_text p.id))

  -- The job that tries the patch, where there is a client and the deadline has not passed.
  unfoldable pub start_patch_job : Auth → Task → ℕ → PatchSubmission → Exec W HttpError (Unit {0})
  unfolding get_source_urls
  start_patch_job auth task time p =
      if not (is_late time task) && has_client h.job_client
      then start_with h.job_client
          (h.submission_uploader.presigned_read_url p.patch_file_path expiration)
          (get_source_urls task h.sources_uploader expiration) (patch_job auth task p)
      else pure tt

  unfoldable pub patch_response : PatchSubmission → PatchResponse
  patch_response p = record {
    patch_id = h.id_text p.id;
    status = p.status;
    functionality_tests_passing = p.functionality_tests_passing;
  }

  -- `SubmitPatch`, once the patch is stored.
  unfoldable pub take_patch :
      Auth → Task → ℕ → (patch_data blob_name : String) → Exec W HttpError PatchResponse
  unfolding new_patch
  take_patch auth task time patch_data blob_name = do
    p ← or_return (h.create_patch (new_patch auth task time blob_name)) internal_server_error
    or_return
        (archive_file h.archive_system (audit_context h.id_text auth task) h.archiver
          (patch_metadata patch_data p))
        internal_server_error
    start_patch_job auth task time p
    act (
        h.print_line (
          log_patch_submission (audit_context h.id_text auth task) (h.id_text p.id) p.status
            blob_name))
    pure (patch_response p)

  -- `SubmitPatch`
  unfoldable pub submit_patch : SubmissionRequest W PatchBody → Exec W HttpError PatchResponse
  unfolding new_patch
  submit_patch c = do
    auth ← from_context c.auth
    task ← from_context c.task
    time ← from_context c.time
    check task.harnesses_included no_harnesses
    rdata ← or_return c.bind (bad_request "failed to parse request data")
    or_return (lift (c.validate rdata)) (bad_request "validation error")
    check (validate_patch_size (len rdata.patch)) (bad_request "validation error")
    patch_data ←
        or_return (lift (h.decode_base64 rdata.patch)) (bad_request "failed to decode base64")
    blob_name ←
        or_return
          (hashed h.sha256 h.submission_uploader (h.bytes_reader patch_data) (len patch_data))
          internal_server_error
    take_patch auth task time patch_data blob_name

  -- `PatchStatus`, for the row that the middleware has found.
  unfoldable pub patch_status :
      Option Auth → Option PatchSubmission → Option Task → Exec W HttpError PatchResponse
  unfolding patch_response
  patch_status auth_in_context patch_in_context task_in_context = do
    auth ← from_context auth_in_context
    p ← from_context patch_in_context
    task ← from_context task_in_context
    check (p.submitter_id == auth.id && task.id == p.task_id) not_found_error
    pure (patch_response p)
