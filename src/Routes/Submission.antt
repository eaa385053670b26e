-- ===== src/Routes/Submission.antt =====
-- What the handlers of submissions in competition-api/cmd/server/internal/routes/v1 call: the
-- `Handler`, a request, and the jobs that they start.
pub mod Pov
pub mod Patch
pub mod Reports
pub mod Traced
use competition_api.Prelude.{
  ℕ, ◌*◌, String, Bool, true, false, Option, none, some, List, Result, Exec, pure, or_return, ◌>>=◌,
}
use competition_api.WorkerErrors.{GoError}
use competition_api.Types.Status.{JobType}
use competition_api.Types.Bundle.{Uuid}
use competition_api.Upload.{Uploader}
use competition_api.Archive.{ArchiveSystem}
use competition_api.Models.Rows.{Auth, Task}
use competition_api.Models.Sources.{PresignedSourceUrls}
use competition_api.Http.{HttpError, internal_server_error}
use competition_api.Models.Submissions.{
  PovSubmission, PatchSubmission, SarifSubmission, FreeformSubmission, SarifAssessment,
}

-- The arguments of `CreateEvalJob`; the last three are pointers.
pub record EvalJob : Type 0 where
  pub job_type : JobType
  pub id : String
  pub args : List String
  pub memory_gb : ℕ
  pub cpus : ℕ
  pub round_id : Option String
  pub task_id : Option String
  pub team_id : Option String

-- A client that is nil creates no jobs.
abbrev pub JobClient : Type 0 → Type 0
JobClient W = Option (EvalJob → Exec W GoError (Unit {0}))

abbrev pub has_client : {W : Type 0} → JobClient W → Bool
has_client none = false
has_client (some create) = true

pub record Handler (W : Type 0) : Type 0 where
  pub archive_system : ArchiveSystem W
  pub open archive_system use *
  pub submission_uploader : Uploader W
  pub sources_uploader : Uploader W
  pub archiver : Uploader W
  pub job_client : JobClient W
  -- `base64.StdEncoding.DecodeString`
  pub decode_base64 : String → Result GoError String
  -- `uuid.UUID.String`
  pub id_text : Uuid → String
  -- `db.Create`: the row as it is inserted, with its new id
  pub create_pov : PovSubmission → Exec W GoError PovSubmission
  pub create_patch : PatchSubmission → Exec W GoError PatchSubmission
  pub create_sarif : SarifSubmission → Exec W GoError SarifSubmission
  pub create_freeform : FreeformSubmission → Exec W GoError FreeformSubmission
  pub create_assessment : SarifAssessment → Exec W GoError SarifAssessment

-- What the middleware has put into the context, and the body of the request.
pub record SubmissionRequest (W Body : Type 0) : Type 0 where
  pub auth : Option Auth
  pub task : Option Task
  pub time : Option ℕ
  pub bind : Exec W GoError Body
  pub validate : Body → Result GoError (Unit {0})

-- `time.Hour * 100`, in seconds.
abbrev pub expiration : ℕ
expiration = 100 * 3600

-- What the handlers of triggers and patches do with a client: the job is made of the URL of the
-- submitted file and the URLs of the task's sources.
abbrev pub start_with :
    {W : Type 0}
    → JobClient W
    → Exec W GoError String
    → Exec W GoError PresignedSourceUrls
    → (String → PresignedSourceUrls → EvalJob)
    → Exec W HttpError (Unit {0})
start_with none file_url source_urls job = pure tt
start_with (some create) file_url source_urls job = do
  url ← or_return file_url internal_server_error
  sources ← or_return source_urls internal_server_error
  or_return (create (job url sources)) internal_server_error
