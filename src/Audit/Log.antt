-- ===== src/Audit/Log.antt =====
-- The lines that competition-api/internal/audit/logger.go prints.
use competition_api.Prelude.{ℕ, String, Bool, false, Option, none, some, List, if◌then◌else◌}
use competition_api.Types.Status.{
  SubmissionStatus, accepted, passed, failed, deadline_exceeded, errored, inconclusive,
  ArchivedFile,
}
use competition_api.Audit.{
  AuditContext, AuditLine, AuditEvent, Disposition, neutral, good, bad, FileArchivedEntity,
  NewDeltaScanEvent, NewFullScanEvent, PovSubmissionEvent, BundleSubmissionEvent, StatusState,
  file_archived_event, new_delta_scan, new_full_scan, new_sarif_broadcast, pov_submission_event,
  pov_submission_result, patch_submission_event, patch_submission_result, sarif_assessment,
  sarif_submission_event, out_of_budget, crs_status_check, bundle_submission, bundle_delete,
  broadcast_succeeded, broadcast_failed, freeform_submission_event,
}

-- `dispForStatus`
abbrev pub disp_for_status : SubmissionStatus → Disposition
disp_for_status accepted = neutral
disp_for_status errored = bad
disp_for_status passed = good
disp_for_status failed = bad
disp_for_status deadline_exceeded = bad
disp_for_status inconclusive = neutral

-- A line with all of its context, and one of a task that no team has been named for.
abbrev line : AuditContext → Disposition → AuditEvent → AuditLine
line c disposition event = record {
  task_id = c.task_id;
  team_id = c.team_id;
  round_id = c.round_id;
  disposition = disposition;
  event = event;
}

abbrev teamless : AuditContext → AuditEvent → AuditLine
teamless c event = record (line c neutral event) { team_id = none }

unfoldable pub log_file_archived :
    AuditContext
    → (bucket_name object_name : String) → ArchivedFile
    → FileArchivedEntity
    → String
    → AuditLine
log_file_archived c bucket_name object_name file_archived entity entity_id = line c neutral (
    file_archived_event (record {
      bucket_name = bucket_name;
      object_name = object_name;
      file_archived = file_archived;
      entity = entity;
      entity_id = entity_id;
    }))

unfoldable pub log_new_delta_scan : AuditContext → NewDeltaScanEvent → AuditLine
log_new_delta_scan c e = teamless c (new_delta_scan e)

unfoldable pub log_new_full_scan : AuditContext → NewFullScanEvent → AuditLine
log_new_full_scan c e = teamless c (new_full_scan e)

abbrev pub or_blank : Option String → String
or_blank none = ""
or_blank (some s) = s

unfoldable pub log_new_sarif_broadcast : AuditContext → String → Option String → String → AuditLine
log_new_sarif_broadcast c repo_url commit_hash sarif_id =
    teamless c (new_sarif_broadcast repo_url (or_blank commit_hash) sarif_id)

unfoldable pub log_pov_submission : AuditContext → PovSubmissionEvent → AuditLine
log_pov_submission c e = line c neutral (pov_submission_event e)

unfoldable pub log_pov_submission_result : AuditContext → String → SubmissionStatus → AuditLine
log_pov_submission_result c pov_id status =
    line c (disp_for_status status) (pov_submission_result pov_id status)

unfoldable pub log_patch_submission : AuditContext → String → SubmissionStatus → String → AuditLine
log_patch_submission c patch_id status patch_sha256 =
    line c neutral (patch_submission_event patch_id patch_sha256 status)

unfoldable pub log_patch_submission_result :
    AuditContext → String → SubmissionStatus → Option Bool → AuditLine
log_patch_submission_result c patch_id status functionality_tests_pass =
    line c (disp_for_status status)
      (patch_submission_result patch_id status functionality_tests_pass)

unfoldable pub log_sarif_assessment : AuditContext → (a b d : String) → AuditLine
log_sarif_assessment c assessment_id assessment sarif_broadcast_id =
    line c neutral (sarif_assessment assessment_id assessment sarif_broadcast_id)

unfoldable pub log_sarif_submission : AuditContext → String → SubmissionStatus → AuditLine
log_sarif_submission c submission_id status =
    line c (disp_for_status status) (sarif_submission_event submission_id status)

unfoldable pub log_bundle_submission : AuditContext → BundleSubmissionEvent → AuditLine
log_bundle_submission c e = line c (disp_for_status e.status) (bundle_submission e)

unfoldable pub log_bundle_delete : AuditContext → String → AuditLine
log_bundle_delete c bundle_id = line c neutral (bundle_delete bundle_id)

unfoldable pub log_out_of_budget : AuditContext → AuditLine
log_out_of_budget c = line c bad out_of_budget

-- `types.Status`, as far as it is logged; `details` may be nil.
pub record Status : Type 0 where
  pub ready : Bool
  pub version : String
  pub details : Option (List (String × String))
  pub state : StatusState

unfoldable pub log_crs_status : AuditContext → String → Status → AuditLine
log_crs_status c crs_url status =
    record (line c (if status.ready then good else bad) (
      crs_status_check (record {
        version = some status.version;
        details = status.details;
        state = some status.state;
        error = none;
        crs_url = crs_url;
        ready = status.ready;
      }))) { task_id = none }

unfoldable pub log_crs_status_failed : AuditContext → String → String → AuditLine
log_crs_status_failed c crs_url err_str =
    record (line c bad (
      crs_status_check (record {
        version = none;
        details = none;
        state = none;
        error = some err_str;
        crs_url = crs_url;
        ready = false;
      }))) { task_id = none }

unfoldable pub log_broadcast_succeeded : AuditContext → ℕ → AuditLine
log_broadcast_succeeded c retries = line c good (broadcast_succeeded retries)

unfoldable pub log_broadcast_failed : AuditContext → String → ℕ → AuditLine
log_broadcast_failed c payload retries = line c bad (broadcast_failed payload retries)

unfoldable pub log_freeform_submission : AuditContext → AuditLine
log_freeform_submission c = line c neutral freeform_submission_event
