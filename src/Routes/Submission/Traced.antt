-- ===== src/Routes/Submission/Traced.antt =====
-- The handlers of submissions with what they insert, print and start written down, and the order in
-- which a request justifies that.
pub mod Rules
pub mod Triggers
pub mod Patches
pub mod Reported
pub mod Assessed
use competition_api.Prelude.{
  ℕ, ◌≤◌, ◌<◌, ◌≡◌, Bool, true, false, ◌⊎◌, String, Option, none, some, List, [], ◌∷◌, ◌++◌, Result,
  ok, err, Exec,
}
use competition_api.WorkerErrors.{GoError}
use competition_api.Types.Status.{ArchivedFile}
use competition_api.Types.Bundle.{Uuid}
use competition_api.Upload.{ReadSeeker, Uploader}
use competition_api.Audit.{AuditLine, AuditContext, FileArchivedEntity}
use competition_api.Audit.Log.{log_file_archived}
use competition_api.Archive.{ArchiveSystem}
use competition_api.Models.Rows.{Auth, Task}
use competition_api.Models.Submissions.{
  PovSubmission, PatchSubmission, SarifSubmission, FreeformSubmission, SarifAssessment,
}
use competition_api.Models.Sources.{PresignedSourceUrls}
use competition_api.Writes.{Recorded, unrecorded}
use competition_api.Traces.{noted, noted_act}
use competition_api.Routes.Submission.{
  EvalJob, JobClient, has_client, Handler, SubmissionRequest, expiration,
}

pub data SubmittedRow : Type 0 where
  pov_row : PovSubmission → SubmittedRow
  patch_row : PatchSubmission → SubmittedRow
  sarif_row : SarifSubmission → SubmittedRow
  freeform_row : FreeformSubmission → SubmittedRow
  assessment_row : SarifAssessment → SubmittedRow

-- A row is inserted, with the row that the database has made of it; a line is printed; a job started.
pub data SubmissionEvent : Type 0 where
  inserted : (given row : SubmittedRow) → SubmissionEvent
  printed : AuditLine → SubmissionEvent
  started : EvalJob → SubmissionEvent

abbrev pub World : Type 0 → Type 0
World W = Recorded SubmissionEvent W

module _ {W : Type 0} where
  abbrev lower : {A : Type 0} → Exec (World W) GoError A → Exec W GoError A
  lower m w = let (r, s) = m (w, []) in (r, s.0)

  abbrev lowered : ReadSeeker (World W) → ReadSeeker W
  lowered reader = record { seek_start = lower reader.seek_start; read_all = lower reader.read_all }

  abbrev raised : ReadSeeker W → ReadSeeker (World W)
  raised reader = record {
    seek_start = unrecorded reader.seek_start;
    read_all = unrecorded reader.read_all;
  }

  abbrev raised_result : Result GoError (ReadSeeker W) → Result GoError (ReadSeeker (World W))
  raised_result (ok reader) = ok (raised reader)
  raised_result (err e) = err e

  abbrev pub recorded_uploader : Uploader W → Uploader (World W)
  recorded_uploader u = record {
    upload = λ reader size name. unrecorded (u.upload (lowered reader) size name);
    exists = λ name. unrecorded (u.exists name);
    store_identifier = unrecorded u.store_identifier;
    presigned_read_url = λ name duration. unrecorded (u.presigned_read_url name duration);
  }

  abbrev pub recorded_system : ArchiveSystem W → ArchiveSystem (World W)
  recorded_system h = record {
    stat_size = λ path. unrecorded (h.stat_size path);
    open_reader = λ path s. let (r, w) = h.open_reader path s.0 in (raised_result r, (w, s.1));
    bytes_reader = λ text. raised (h.bytes_reader text);
    sha256 = h.sha256;
    print_line = λ line. noted_act (printed line) (h.print_line line);
  }

  abbrev pub recorded_client : JobClient W → JobClient (World W)
  recorded_client none = none
  recorded_client (some create) = some (λ job. noted (λ _. started job) (create job))

  abbrev pub recorded_handler : Handler W → Handler (World W)
  recorded_handler h = record {
    archive_system = recorded_system h.archive_system;
    submission_uploader = recorded_uploader h.submission_uploader;
    sources_uploader = recorded_uploader h.sources_uploader;
    archiver = recorded_uploader h.archiver;
    job_client = recorded_client h.job_client;
    decode_base64 = h.decode_base64;
    id_text = h.id_text;
    create_pov = λ p. noted (λ row. inserted (pov_row p) (pov_row row)) (h.create_pov p);
    create_patch = λ p. noted (λ row. inserted (patch_row p) (patch_row row)) (h.create_patch p);
    create_sarif = λ p. noted (λ row. inserted (sarif_row p) (sarif_row row)) (h.create_sarif p);
    create_freeform =
        λ p. noted (λ row. inserted (freeform_row p) (freeform_row row)) (h.create_freeform p);
    create_assessment = λ p.
        noted (λ row. inserted (assessment_row p) (assessment_row row)) (h.create_assessment p);
  }

  abbrev pub recorded_request :
      {Body : Type 0} → SubmissionRequest W Body → SubmissionRequest (World W) Body
  recorded_request c = record {
    auth = c.auth;
    task = c.task;
    time = c.time;
    bind = unrecorded c.bind;
    validate = c.validate;
  }

-- Who sends a request, for which task and when.
pub record Caller : Type 0 where
  pub auth : Auth
  pub task : Task
  pub time : ℕ

pub record IsCaller {W Body : Type 0} (c : SubmissionRequest W Body) (who : Caller) : Type 0 where
  pub authenticated : c.auth ≡ some who.auth
  pub on_task : c.task ≡ some who.task
  pub on_time : c.time ≡ some who.time

-- The line of a file that was stored somewhere, under some name.
pub record IsArchiveLine (context : AuditContext) (file : ArchivedFile)
    (entity : FileArchivedEntity) (id : String) (line : AuditLine) : Type 0 where
  pub store : String
  pub object_name : String
  pub is_line : line ≡ log_file_archived context store object_name file entity id

module _ {W : Type 0} (h : Handler W) where
  -- What is started for a request: nothing if it is late or there is no client, else the one job, made
  -- of URLs that the two stores have given.
  pub data JobsFor (who : Caller) (path : String) (job : String → PresignedSourceUrls → EvalJob)
      : List SubmissionEvent → Type 0 where
    no_client : has_client h.job_client ≡ false → JobsFor who path job []
    too_late : who.task.deadline < who.time → JobsFor who path job []
    one_job :
        (url : String) (sources : PresignedSourceUrls) (w : W)
        → who.time ≤ who.task.deadline
        → has_client h.job_client ≡ true
        → (h.submission_uploader.presigned_read_url path expiration w).0 ≡ ok url
        → JobsFor who path job (started (job url sources) ∷ [])

-- What a handler that archives owes for a row that it was `given`, and the `row` made of it.
pub record Duty (Row : Type 0) : Type 1 where
  pub in_table : Row → SubmittedRow
  pub Inserts : Caller → (given row : Row) → Type 0
  pub Archives : Caller → Row → AuditLine → Type 0
  pub Jobs : Caller → Row → List SubmissionEvent → Type 0
  pub report : Caller → (given row : Row) → AuditLine

-- The row first, then the line of its file, then its jobs, then the line of the submission, which is
-- there exactly if the handler succeeds.
pub data Trace {Row : Type 0} (d : Duty Row) : Bool → List SubmissionEvent → Type 0 where
  rejected : Trace d false []
  only_inserted :
      (who : Caller) (given row : Row)
      → d.Inserts who given row
      → Trace d false (inserted (d.in_table given) (d.in_table row) ∷ [])
  only_archived :
      (who : Caller) (given row : Row) (line : AuditLine)
      → d.Inserts who given row
      → d.Archives who row line
      → Trace d false (inserted (d.in_table given) (d.in_table row) ∷ printed line ∷ [])
  reported :
      (who : Caller) (given row : Row) (line : AuditLine) (jobs : List SubmissionEvent)
      → d.Inserts who given row
      → d.Archives who row line
      → d.Jobs who row jobs
      → Trace d true (
          inserted (d.in_table given) (d.in_table row) ∷ printed line ∷ jobs
          ++ printed (d.report who given row) ∷ [])
