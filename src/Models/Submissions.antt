-- ===== src/Models/Submissions.antt =====
-- The rows of submissions: pov.go, patch.go, sarif.go and freeform.go of
-- competition-api/cmd/server/internal/models.
use competition_api.Prelude.{String, Bool, Option}
use competition_api.Types.Status.{SubmissionStatus}
use competition_api.Types.Bundle.{Uuid}

pub record PovSubmission : Type 0 where
  pub id : Uuid
  pub submitter_id : Uuid
  pub task_id : Uuid
  pub status : SubmissionStatus
  pub testcase_path : String
  pub fuzzer_name : String
  pub sanitizer : String
  pub architecture : String
  pub engine : String

pub record PatchSubmission : Type 0 where
  pub id : Uuid
  pub submitter_id : Uuid
  pub task_id : Uuid
  pub status : SubmissionStatus
  pub patch_file_path : String
  pub functionality_tests_passing : Option Bool

-- The SARIF report is kept as its text.
pub record SarifSubmission : Type 0 where
  pub id : Uuid
  pub submitter_id : Uuid
  pub task_id : Uuid
  pub status : SubmissionStatus
  pub sarif : String

pub record FreeformSubmission : Type 0 where
  pub id : Uuid
  pub submitter_id : Uuid
  pub task_id : Uuid
  pub status : SubmissionStatus
  pub submission : String

pub record SarifBroadcast : Type 0 where
  pub id : Uuid
  pub sarif : String
  pub task_id : Uuid

-- `Assessment`; the validator lets no other text through.
pub data Assessment : Type 0 where
  correct incorrect : Assessment

pub record SarifAssessment : Type 0 where
  pub id : Uuid
  pub submitter_id : Uuid
  pub sarif_broadcast_id : Uuid
  pub status : SubmissionStatus
  pub assessment : Assessment
