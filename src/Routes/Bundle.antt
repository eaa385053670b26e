-- ===== src/Routes/Bundle.antt =====
-- competition-api/cmd/server/internal/routes/v1/bundle.go: bundles of submissions.
pub mod Recorded
pub mod Sound
pub mod Guarded
use competition_api.Prelude.{
  ℕ, String, Bool, true, false, not, ◌&&◌, ◌||◌, Option, none, some, List, Result, ok, err, Exec,
  pure, lift, check, act, or_return, ◌>>=◌, ◌>>◌, ltb, ◌==◌, if◌then◌else◌,
}
use competition_api.WorkerErrors.{GoError}
use competition_api.Types.Status.{SubmissionStatus, accepted, deadline_exceeded}
use competition_api.Types.Bundle.{
  Uuid, BundleSubmission, BundleSubmissionParsed, validate_field_count, parse_bundle,
}
use competition_api.Models.Rows.{Auth, Task}
use competition_api.Models.Bundle.{Bundle, Requirement, requirements, set_relations, count_not_null}
use competition_api.Audit.{AuditLine, BundleSubmissionEvent}
use competition_api.Audit.Log.{log_bundle_submission, log_bundle_delete}
use competition_api.Routes.Context.{is_late, audit_context, status_at}
use competition_api.Http.{
  HttpError, internal_server_error, not_found_error, bad_request, from_context,
}

-- What the handlers call outside: the database, the audit log and the library for UUIDs.
pub record BundleServer (W : Type 0) : Type 0 where
  -- the query of `CheckAndSetRelations`: are all the rows there, for this task and submitter?
  pub exists_all : List Requirement → Uuid → Uuid → Exec W GoError Bool
  -- `db.Create`: the row as it is inserted, with its new id
  pub create : Bundle → Exec W GoError Bundle
  pub save : Bundle → Exec W GoError (Unit {0})
  pub delete : Bundle → Exec W GoError (Unit {0})
  pub print_line : AuditLine → W → W
  -- `uuid.UUID.String`
  pub id_text : Uuid → String
  -- `uuid.Parse`
  pub parse_id : String → Result GoError Uuid

-- What the middleware has put into the context, and the body of the request.
pub record Request (W : Type 0) : Type 0 where
  pub auth : Option Auth
  pub task : Option Task
  pub bundle : Option Bundle
  pub time : Option ℕ
  pub bind : Exec W GoError BundleSubmission
  pub validate : BundleSubmission → Result GoError (Unit {0})

-- `types.BundleSubmissionResponse`, and `types.BundleSubmissionResponseVerbose`.
pub record Response : Type 0 where
  pub bundle_id : Uuid
  pub status : SubmissionStatus

pub record VerboseResponse : Type 0 where
  pub bundle_id : Uuid
  pub status : SubmissionStatus
  pub pov_id : Option Uuid
  pub patch_id : Option Uuid
  pub broadcast_sarif_id : Option Uuid
  pub submitted_sarif_id : Option Uuid
  pub description : Option String
  pub freeform_id : Option Uuid

-- `bundle.SubmitterID != auth.ID || bundle.TaskID != task.ID` does not hold.
abbrev pub is_own : Auth → Task → Bundle → Bool
is_own auth task b = b.submitter_id == auth.id && b.task_id == task.id

abbrev pub deadline_passed : HttpError
deadline_passed = bad_request "deadline to modify submission passed"

-- A bundle before its relations are set. The database gives the id.
unfoldable pub new_bundle : Auth → Task → ℕ → Bundle
new_bundle auth task time = record {
  id = 0;
  status = status_at time task;
  description = none;
  pov_id = none;
  patch_id = none;
  broadcast_sarif_id = none;
  submitted_sarif_id = none;
  freeform_id = none;
  submitter_id = auth.id;
  task_id = task.id;
}

unfoldable pub verbose_response : Bundle → VerboseResponse
verbose_response b = record {
  bundle_id = b.id;
  status = b.status;
  pov_id = b.pov_id;
  patch_id = b.patch_id;
  broadcast_sarif_id = b.broadcast_sarif_id;
  submitted_sarif_id = b.submitted_sarif_id;
  description = b.description;
  freeform_id = b.freeform_id;
}

-- The line that `SubmitBundle` and `PatchBundle` print.
unfoldable pub bundle_line : (Uuid → String) → Auth → Task → Bundle → AuditLine
bundle_line id_text auth task b = log_bundle_submission (audit_context id_text auth task) (record {
  bundle_id = id_text b.id;
  pov_id = b.pov_id;
  patch_id = b.patch_id;
  submitted_sarif_id = b.submitted_sarif_id;
  broadcast_sarif_id = b.broadcast_sarif_id;
  description = b.description;
  freeform_id = b.freeform_id;
  status = b.status;
})

module _ {W : Type 0} (h : BundleServer W) where
  unfoldable pub submit_bundle : Request W → Exec W HttpError Response
  submit_bundle c = do
    auth ← from_context c.auth
    task ← from_context c.task
    time ← from_context c.time
    rdata ← or_return c.bind (bad_request "failed to parse request data")
    or_return (lift (c.validate rdata)) (bad_request "validation error")
    or_return (lift (validate_field_count rdata)) (bad_request "must set at least 2 fields")
    parsed ← or_return (lift (parse_bundle h.parse_id rdata)) (bad_request "failed to parse fields")
    valid ← or_return (h.exists_all (requirements parsed) task.id auth.id) internal_server_error
    check valid not_found_error
    bundle ←
        or_return (h.create (set_relations (new_bundle auth task time) parsed))
          internal_server_error
    act (h.print_line (bundle_line h.id_text auth task bundle))
    pure (record { bundle_id = bundle.id; status = bundle.status })

  unfoldable pub patch_bundle : Request W → Exec W HttpError VerboseResponse
  unfolding verbose_response
  patch_bundle c = do
    auth ← from_context c.auth
    task ← from_context c.task
    bundle ← from_context c.bundle
    time ← from_context c.time
    check (is_own auth task bundle) not_found_error
    check (not (is_late time task)) deadline_passed
    rdata ← or_return c.bind (bad_request "failed to parse request data")
    or_return (lift (c.validate rdata)) (bad_request "validation error")
    parsed ← or_return (lift (parse_bundle h.parse_id rdata)) (bad_request "failed to parse fields")
    check (not (ltb (count_not_null bundle parsed) 2))
        (bad_request "must have at least 2 fields set after update")
    valid ←
        or_return (h.exists_all (requirements parsed) bundle.task_id bundle.submitter_id)
          internal_server_error
    check valid not_found_error
    or_return (h.save (set_relations bundle parsed)) internal_server_error
    act (h.print_line (bundle_line h.id_text auth task (set_relations bundle parsed)))
    pure (verbose_response (set_relations bundle parsed))

  unfoldable pub get_bundle : Request W → Exec W HttpError VerboseResponse
  unfolding verbose_response
  get_bundle c = do
    auth ← from_context c.auth
    task ← from_context c.task
    bundle ← from_context c.bundle
    time ← from_context c.time
    check (is_own auth task bundle) not_found_error
    pure (verbose_response bundle)

  unfoldable pub delete_bundle : Request W → Exec W HttpError (Unit {0})
  delete_bundle c = do
    auth ← from_context c.auth
    task ← from_context c.task
    bundle ← from_context c.bundle
    time ← from_context c.time
    check (is_own auth task bundle) not_found_error
    check (not (is_late time task)) deadline_passed
    or_return (h.delete bundle) internal_server_error
    act (h.print_line (log_bundle_delete (audit_context h.id_text auth task) (h.id_text bundle.id)))
