-- ===== src/Audit.antt =====
-- The lines of the audit log: competition-api/internal/audit/models.go. The log's name, the version of
-- its schema and the time of a line are added where the line is printed.
pub mod Log
use competition_api.Prelude.{ℕ, String, Bool, Option, List}
use competition_api.Types.Status.{SubmissionStatus, ArchivedFile}
use competition_api.Types.Bundle.{Uuid}
use competition_api.Types.ExitCode.{ℤ}

-- The pointers may be nil.
pub record AuditContext : Type 0 where
  pub team_id : Option String
  pub task_id : Option String
  pub round_id : String

pub data Disposition : Type 0 where
  neutral good bad : Disposition

-- `FileArchivedEntity` is a text in the source, and is also made from a job type.
pub data FileArchivedEntity : Type 0 where
  entity_task entity_pov entity_patch entity_sarif_submission : FileArchivedEntity
  entity_sarif_broadcast entity_freeform_pov : FileArchivedEntity

-- The counts of `types.StatusState`, which are 32 bits wide with a sign.
pub record StatusState : Type 0 where
  pub pending : ℤ
  pub errored : ℤ
  pub processing : ℤ
  pub canceled : ℤ
  pub waiting : ℤ
  pub succeeded : ℤ
  pub failed : ℤ

pub record FileArchivedEvent : Type 0 where
  pub bucket_name : String
  pub object_name : String
  pub file_archived : ArchivedFile
  pub entity : FileArchivedEntity
  pub entity_id : String

pub record NewDeltaScanEvent : Type 0 where
  pub repo_url : String
  pub base_commit_hash : String
  pub delta_commit_hash : String
  pub fuzz_tooling_url : String
  pub fuzz_tooling_hash : String
  pub challenge_name : String
  pub deadline : ℕ
  pub unharnessed : Bool

pub record NewFullScanEvent : Type 0 where
  pub repo_url : String
  pub commit_hash : String
  pub fuzz_tooling_url : String
  pub fuzz_tooling_hash : String
  pub challenge_name : String
  pub deadline : ℕ
  pub unharnessed : Bool

pub record PovSubmissionEvent : Type 0 where
  pub pov_id : String
  pub fuzzer_name : String
  pub testcase_sha256 : String
  pub sanitizer : String
  pub architecture : String
  pub status : SubmissionStatus
  pub engine : String

pub record CrsStatusEvent : Type 0 where
  pub version : Option String
  pub details : Option (List (String × String))
  pub state : Option StatusState
  pub error : Option String
  pub crs_url : String
  pub ready : Bool

pub record BundleSubmissionEvent : Type 0 where
  pub bundle_id : String
  pub pov_id : Option Uuid
  pub patch_id : Option Uuid
  pub submitted_sarif_id : Option Uuid
  pub broadcast_sarif_id : Option Uuid
  pub description : Option String
  pub freeform_id : Option Uuid
  pub status : SubmissionStatus

-- The events, each with its type and its data. The task type of a scan is that of its event.
pub data AuditEvent : Type 0 where
  file_archived_event : FileArchivedEvent → AuditEvent
  new_delta_scan : NewDeltaScanEvent → AuditEvent
  new_full_scan : NewFullScanEvent → AuditEvent
  new_sarif_broadcast : (repo_url commit_hash sarif_id : String) → AuditEvent
  pov_submission_event : PovSubmissionEvent → AuditEvent
  pov_submission_result : (pov_id : String) → SubmissionStatus → AuditEvent
  patch_submission_event : (patch_id patch_sha256 : String) → SubmissionStatus → AuditEvent
  patch_submission_result : (patch_id : String) → SubmissionStatus → Option Bool → AuditEvent
  sarif_assessment : (assessment_id assessment sarif_broadcast_id : String) → AuditEvent
  sarif_submission_event : (submission_id : String) → SubmissionStatus → AuditEvent
  out_of_budget : AuditEvent
  crs_status_check : CrsStatusEvent → AuditEvent
  bundle_submission : BundleSubmissionEvent → AuditEvent
  bundle_delete : (bundle_id : String) → AuditEvent
  broadcast_succeeded : (retries : ℕ) → AuditEvent
  broadcast_failed : (payload : String) → (retries : ℕ) → AuditEvent
  freeform_submission_event : AuditEvent

-- `Message`, with its event.
pub record AuditLine : Type 0 where
  pub task_id : Option String
  pub team_id : Option String
  pub round_id : String
  pub disposition : Disposition
  pub event : AuditEvent
