-- ===== src/Types/Status.antt =====
-- competition-api/internal/types/submission_status.go, and the enumerations of worker.go and jobs.go.
use competition_api.Prelude.{Bool, true, false, String}

pub data SubmissionStatus : Type 0 where
  accepted passed failed deadline_exceeded errored inconclusive : SubmissionStatus

pub SubmissionStatus-discrete : Discrete SubmissionStatus
SubmissionStatus-discrete = hlevel

-- `status == types.SubmissionStatusAccepted`
abbrev pub is_accepted : SubmissionStatus → Bool
is_accepted accepted = true
is_accepted _ = false

-- A status as it is decoded or stored: one of those above, the empty text, or another text.
pub data StatusText : Type 0 where
  known : SubmissionStatus → StatusText
  no_status : StatusText
  unknown : String → StatusText

-- `status == types.SubmissionStatusFailed`, of a decoded text
abbrev pub is_failed_text : StatusText → Bool
is_failed_text (known failed) = true
is_failed_text _ = false

-- `status == types.SubmissionStatusErrored`
abbrev pub is_errored : SubmissionStatus → Bool
is_errored errored = true
is_errored _ = false

-- `status == types.SubmissionStatusFailed`
abbrev pub is_failed : SubmissionStatus → Bool
is_failed failed = true
is_failed _ = false

pub data JobType : Type 0 where
  pov patch job : JobType

-- `entity == types.JobTypeJob`
abbrev pub is_job : JobType → Bool
is_job job = true
is_job _ = false

-- The kinds of files that are kept in the store.
pub data ArchivedFile : Type 0 where
  fuzz_out_head fuzz_out_base pov_trigger patch_file : ArchivedFile
  unstripped_head_tarball unstripped_base_tarball diff_tarball stripped_repo_tarball : ArchivedFile
  unstripped_repo_tarball oss_fuzz_tarball sarif_submission sarif_broadcast freeform_pov :
      ArchivedFile

-- `ResultContext` is a text in the source, and empty until a repository is chosen.
abbrev pub ResultContext : Type 0
ResultContext = String

abbrev pub result_ctx_head_repo_test : ResultContext
result_ctx_head_repo_test = "pov_test_head_repo"

abbrev pub result_ctx_base_repo_test : ResultContext
result_ctx_base_repo_test = "delta_test_base_repo"
