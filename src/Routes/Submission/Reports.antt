-- ===== src/Routes/Submission/Reports.antt =====
-- Submissions that no job tries: submitted_sarif.go, freeform.go and broadcast_sarif.go of
-- competition-api/cmd/server/internal/routes/v1.
use Prim.Native.String.{len}
use competition_api.Prelude.{
  ℕ, String, Option, none, some, Result, Exec, pure, lift, check, act, or_return, ◌>>=◌, ◌>>◌, ◌==◌,
}
use competition_api.WorkerErrors.{GoError}
use competition_api.Types.Status.{SubmissionStatus, sarif_submission, freeform_pov}
use competition_api.Validator.{validate_freeform_size}
use competition_api.Audit.{entity_sarif_submission, entity_freeform_pov}
use competition_api.Audit.Log.{log_sarif_submission, log_freeform_submission, log_sarif_assessment}
use competition_api.Archive.{FileMetadata, archive_file}
use competition_api.Models.Rows.{Auth, Task}
use competition_api.Models.Submissions.{
  SarifSubmission, FreeformSubmission, SarifBroadcast, SarifAssessment, Assessment, correct,
  incorrect,
}
use competition_api.Http.{
  HttpError, internal_server_error, not_found_error, bad_request, from_context,
}
use competition_api.Routes.Context.{status_at, audit_context}
use competition_api.Routes.Submission.{Handler, SubmissionRequest}

-- The id of a new submission and its status: `types.SARIFSubmissionResponse`, `types.FreeformResponse`.
pub record ReportResponse : Type 0 where
  pub id : String
  pub status : SubmissionStatus

unfoldable pub new_sarif : Auth → Task → ℕ → String → SarifSubmission
new_sarif auth task time raw_sarif = record {
  id = 0;
  submitter_id = auth.id;
  task_id = task.id;
  status = status_at time task;
  sarif = raw_sarif;
}

unfoldable pub new_freeform : Auth → Task → ℕ → String → FreeformSubmission
new_freeform auth task time submission = record {
  id = 0;
  submitter_id = auth.id;
  task_id = task.id;
  status = status_at time task;
  submission = submission;
}

unfoldable pub new_assessment : Auth → Task → ℕ → SarifBroadcast → Assessment → SarifAssessment
new_assessment auth task time broadcast a = record {
  id = 0;
  submitter_id = auth.id;
  sarif_broadcast_id = broadcast.id;
  status = status_at time task;
  assessment = a;
}

abbrev pub assessment_text : Assessment → String
assessment_text correct = "correct"
assessment_text incorrect = "incorrect"

-- `types.SarifAssessmentSubmission`
pub record AssessmentBody : Type 0 where
  pub assessment : Assessment
  pub description : String

module _ {W : Type 0} (h : Handler W) where
  abbrev pub sarif_file : String → SarifSubmission → FileMetadata
  sarif_file raw_sarif p = record {
    local_file_path = none;
    buffer = some raw_sarif;
    archived_file = sarif_submission;
    entity = entity_sarif_submission;
    entity_id = h.id_text p.id;
  }

  -- `SubmitSarif`, once the body is read.
  unfoldable pub take_sarif :
      Auth → Task → ℕ → (raw_sarif : String) → Exec W HttpError ReportResponse
  unfolding new_sarif
  take_sarif auth task time raw_sarif = do
    p ← or_return (h.create_sarif (new_sarif auth task time raw_sarif)) internal_server_error
    or_return
        (archive_file h.archive_system (audit_context h.id_text auth task) h.archiver
          (sarif_file raw_sarif p))
        internal_server_error
    act (
        h.print_line
          (log_sarif_submission (audit_context h.id_text auth task) (h.id_text p.id) p.status))
    pure (record { id = h.id_text p.id; status = p.status })

  -- `SubmitSarif`. A report is parsed JSON, `Json`; the schema's test and the encoding are a library's.
  unfoldable pub submit_sarif :
      {Json : Type 0}
      → (validate_schema : Json → Result GoError (Unit {0}))
        (marshal : Json → Result GoError String)
      → SubmissionRequest W Json
      → Exec W HttpError ReportResponse
  unfolding new_sarif
  submit_sarif validate_schema marshal c = do
    auth ← from_context c.auth
    task ← from_context c.task
    time ← from_context c.time
    sarif ← or_return c.bind (bad_request "failed to parse request data")
    or_return (lift (c.validate sarif)) (bad_request "validation error")
    or_return (lift (validate_schema sarif)) (bad_request "sarif failed to validate")
    raw_sarif ← or_return (lift (marshal sarif)) internal_server_error
    take_sarif auth task time raw_sarif

  -- What is archived is the text that was sent, not what it stands for.
  abbrev pub freeform_file : String → FreeformSubmission → FileMetadata
  freeform_file sent p = record {
    local_file_path = none;
    buffer = some sent;
    archived_file = freeform_pov;
    entity = entity_freeform_pov;
    entity_id = h.id_text p.id;
  }

  -- `SubmitFreeform`, once the body is read.
  unfoldable pub take_freeform :
      Auth → Task → ℕ → (sent submission : String) → Exec W HttpError ReportResponse
  unfolding new_freeform
  take_freeform auth task time sent submission = do
    p ← or_return (h.create_freeform (new_freeform auth task time submission)) internal_server_error
    or_return
        (archive_file h.archive_system (audit_context h.id_text auth task) h.archiver
          (freeform_file sent p))
        internal_server_error
    act (h.print_line (log_freeform_submission (audit_context h.id_text auth task)))
    pure (record { id = h.id_text p.id; status = p.status })

  -- `SubmitFreeform`; the body is the text of `types.FreeformSubmission`.
  unfoldable pub submit_freeform : SubmissionRequest W String → Exec W HttpError ReportResponse
  unfolding new_freeform
  submit_freeform c = do
    task ← from_context c.task
    auth ← from_context c.auth
    time ← from_context c.time
    sent ← or_return c.bind (bad_request "failed to parse request data")
    or_return (lift (c.validate sent)) (bad_request "validation error")
    check (validate_freeform_size (len sent)) (bad_request "validation error")
    submission ← or_return (lift (h.decode_base64 sent)) (bad_request "failed to decode base64")
    take_freeform auth task time sent submission

  -- `SubmitSarifAssessment`, for the broadcast that the middleware has found.
  unfoldable pub submit_sarif_assessment :
      Option SarifBroadcast → SubmissionRequest W AssessmentBody → Exec W HttpError SubmissionStatus
  unfolding new_assessment
  submit_sarif_assessment sarif_in_context c = do
    auth ← from_context c.auth
    task ← from_context c.task
    sarif ← from_context sarif_in_context
    time ← from_context c.time
    rdata ← or_return c.bind (bad_request "failed to parse request data")
    or_return (lift (c.validate rdata)) (bad_request "validation error")
    check (sarif.task_id == task.id) not_found_error
    p ←
        or_return (h.create_assessment (new_assessment auth task time sarif rdata.assessment))
          internal_server_error
    act (
        h.print_line (
          log_sarif_assessment (audit_context h.id_text auth task) (h.id_text p.id)
            (assessment_text rdata.assessment) (h.id_text sarif.id)))
    pure p.status
