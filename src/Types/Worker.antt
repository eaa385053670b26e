-- ===== src/Types/Worker.antt =====
-- The messages from a worker to the server: competition-api/internal/types/worker.go and jobs.go.
use competition_api.Prelude.{String, Bool, false, Option, none, some, List, str_eq, if◌then◌else◌}
use competition_api.Types.Status.{
  SubmissionStatus, JobType, pov, patch, job, ArchivedFile, ResultContext,
}
use competition_api.Types.ExitCode.{ℤ}

pub data MsgType : Type 0 where
  final artifact command_result : MsgType

pub record Blob : Type 0 where
  pub presigned_url : Option String
  pub object_name : String

pub record JobArtifact : Type 0 where
  pub blob : Blob
  pub archived_file : ArchivedFile
  pub filename : String
  pub context : ResultContext

pub record JobResult : Type 0 where
  pub stdout_blob : Blob
  pub stderr_blob : Blob
  pub exit_code : Option ℤ
  pub context : ResultContext
  pub cmd : List String

pub record WorkerMsg : Type 0 where
  pub msg_type : MsgType
  pub entity : JobType
  pub entity_id : String

pub record WorkerMsgArtifact : Type 0 where
  pub worker_msg : WorkerMsg
  pub open worker_msg use *
  pub artifact : JobArtifact

-- The pointer `Result` may be nil.
pub record WorkerMsgCommandResult : Type 0 where
  pub worker_msg : WorkerMsg
  pub open worker_msg use *
  pub result : Option JobResult

pub record WorkerMsgFinal : Type 0 where
  pub worker_msg : WorkerMsg
  pub open worker_msg use *
  pub status : SubmissionStatus
  pub patch_tests_failed : Bool

-- What is enqueued: `message any`, at the three types that are.
pub data Message : Type 0 where
  artifact_msg : WorkerMsgArtifact → Message
  command_result_msg : WorkerMsgCommandResult → Message
  final_msg : WorkerMsgFinal → Message

unfoldable pub new_worker_msg_artifact : JobType → String → JobArtifact → WorkerMsgArtifact
new_worker_msg_artifact entity entity_id a = record {
  worker_msg = record { msg_type = artifact; entity = entity; entity_id = entity_id };
  artifact = a;
}

unfoldable pub new_worker_msg_command_result :
    JobType → String → Option JobResult → WorkerMsgCommandResult
new_worker_msg_command_result entity entity_id result = record {
  worker_msg = record { msg_type = command_result; entity = entity; entity_id = entity_id };
  result = result;
}

-- `failed := false; if patchTestsFailed != nil { failed = *patchTestsFailed }`
abbrev or_false : Option Bool → Bool
or_false none = false
or_false (some b) = b

unfoldable pub new_worker_msg_final :
    JobType → String → SubmissionStatus → Option Bool → WorkerMsgFinal
new_worker_msg_final entity entity_id status patch_tests_failed = record {
  worker_msg = record { msg_type = final; entity = entity; entity_id = entity_id };
  status = status;
  patch_tests_failed = or_false patch_tests_failed;
}

-- The text of a `JobType`.
abbrev pub job_type_text : JobType → String
job_type_text pov = "pov"
job_type_text patch = "patch"
job_type_text job = "job"

-- `JobTypeFromString`, and the switch over the text of a label: none is an error there, the default here.
unfoldable pub job_type_from_string : String → Option JobType
job_type_from_string s =
    if str_eq s (job_type_text pov)
    then some pov
    else if str_eq s (job_type_text patch)
    then some patch
    else if str_eq s (job_type_text job)
    then some job
    else none
