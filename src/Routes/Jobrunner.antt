-- ===== src/Routes/Jobrunner.antt =====
-- competition-api/cmd/server/internal/routes/jobrunner: evaluations that are asked for by hand, and kept
-- under a key of what they were made of.
pub mod Work
pub mod Presigned
pub mod Lines
pub mod Keyed
use Prim.Native.String.{len}
use competition_api.Prelude.{
  ℕ, String, Bool, true, false, not, ◌||◌, Option, none, some, List, [], ◌∷◌, ◌++◌, Result, ok, err,
  Exec, pure, raise, lift, check, ◌>>=◌, ◌>>◌, str_eq, ltb, length, if◌then◌else◌,
}
use competition_api.WorkerErrors.{GoError}
use competition_api.Types.Status.{SubmissionStatus, job}
use competition_api.Types.Bundle.{Uuid}
use competition_api.Types.Worker.{Blob, JobArtifact, JobResult}
use competition_api.Upload.{ReadSeeker, Uploader, hashed}
use competition_api.Validator.{validate_trigger_size, validate_patch_size}
use competition_api.Models.Rows.{Task, Source}
use competition_api.Models.Sources.{PresignedSourceUrls, get_source_urls}
use competition_api.Aixcc.Patches.{language_c, language_java}
use competition_api.Http.{HttpError, internal_server_error, bad_request}
use competition_api.Jobs.{format_bool}
use competition_api.Routes.Submission.{EvalJob, JobClient, expiration}

-- `types.JobArgs`: all of it pointers.
pub record JobArgs : Type 0 where
  pub task_id : Option String
  pub architecture : Option String
  pub fuzzer_name : Option String
  pub sanitizer : Option String
  pub engine : Option String
  pub testcase_b64 : Option String
  pub testcase_hash : Option String
  pub patch_b64 : Option String
  pub patch_hash : Option String
  pub skip_patch_tests : Option Bool
  pub head_repo_tarball_url : Option String
  pub oss_fuzz_tarball_url : Option String
  pub focus : Option String
  pub project_name : Option String
  pub base_tarball_url : Option String
  pub memory_gb : Option ℕ
  pub cpus : Option ℕ
  pub cache_key : Option String
  pub override_cache : Option Bool

-- The row of a job.
pub record JobRow : Type 0 where
  pub id : Uuid
  pub status : SubmissionStatus
  pub functionality_tests_passing : Option Bool
  pub results : List JobResult
  pub artifacts : List JobArtifact

pub record JobResponse : Type 0 where
  pub job_id : String
  pub status : SubmissionStatus
  pub functionality_tests_passing : Option Bool
  pub results : List JobResult
  pub artifacts : List JobArtifact

-- A handler returns an error of HTTP, or a nil pointer is followed, which is a panic.
pub data JobFailure : Type 0 where
  refused : HttpError → JobFailure
  nil_pointer : JobFailure

-- The row as it was created, or found under its key.
pub record Cached : Type 0 where
  pub row : JobRow
  pub is_new : Bool

pub record JobHandler (W : Type 0) : Type 0 where
  pub job_client : JobClient W
  pub submission_uploader : Uploader W
  pub artifacts_uploader : Uploader W
  pub sources_uploader : Uploader W
  -- the configuration's key
  pub config_cache_key : Option String
  pub bytes_reader : String → ReadSeeker W
  -- the digests, in hexadecimal
  pub sha256 : String → String
  pub join_lines : List String → String
  pub decode_base64 : String → Result GoError String
  pub parse_id : String → Result GoError Uuid
  pub id_text : Uuid → String
  -- `ByID`: none if there is no such row
  pub task_by_id : Uuid → Exec W GoError (Option Task)
  pub create_job : (cache_key : String) → Exec W GoError JobRow
  pub first_or_create : (cache_key : String) → Exec W GoError Cached
  pub transaction : Exec W JobFailure JobRow → Exec W JobFailure JobRow

abbrev pub deref : {W A : Type 0} → Option A → Exec W JobFailure A
deref none w = (err nil_pointer, w)
deref (some a) w = (ok a, w)

abbrev pub or_refused : {A : Type 0} → HttpError → Result GoError A → Result JobFailure A
or_refused e (ok a) = ok a
or_refused e (err x) = err (refused e)

abbrev pub or_refuse : {W A : Type 0} → HttpError → Exec W GoError A → Exec W JobFailure A
or_refuse e m w = let (r, w') = m w in (or_refused e r, w')

abbrev pub or_given : {A : Type 0} → Option A → A → A
or_given none a = a
or_given (some b) a = b

-- What is read of a task; zero values where no task is named.
pub record JobTask : Type 0 where
  pub project_name : String
  pub focus : String
  pub memory_gb : ℕ
  pub cpus : ℕ
  pub head_sha256 : String
  pub fuzz_tooling_sha256 : String
  pub base_sha256 : Option String

abbrev pub no_task : JobTask
no_task = record {
  project_name = "";
  focus = "";
  memory_gb = 0;
  cpus = 0;
  head_sha256 = "";
  fuzz_tooling_sha256 = "";
  base_sha256 = none;
}

abbrev pub no_sources : PresignedSourceUrls
no_sources = record { head_repo = ""; fuzz_tooling = ""; base_repo = "" }

abbrev pub sha_of : Option Source → Option String
sha_of none = none
sha_of (some source) = some source.sha256

abbrev pub job_task : Task → JobTask
job_task t = record {
  project_name = t.project_name;
  focus = t.focus;
  memory_gb = t.memory_gb;
  cpus = t.cpus;
  head_sha256 = t.unstripped_source.head_repo.sha256;
  fuzz_tooling_sha256 = t.unstripped_source.fuzz_tooling.sha256;
  base_sha256 = sha_of t.unstripped_source.base_repo;
}

-- The task and its sources, as the request overrides them.
abbrev pub overridden_task : JobArgs → JobTask → JobTask
overridden_task a t = record t {
  project_name = or_given a.project_name t.project_name;
  focus = or_given a.focus t.focus;
  memory_gb = or_given a.memory_gb t.memory_gb;
  cpus = or_given a.cpus t.cpus;
}

abbrev pub overridden_sources : JobArgs → PresignedSourceUrls → PresignedSourceUrls
overridden_sources a s = record {
  head_repo = or_given a.head_repo_tarball_url s.head_repo;
  fuzz_tooling = or_given a.oss_fuzz_tarball_url s.fuzz_tooling;
  base_repo = or_given a.base_tarball_url s.base_repo;
}

-- A source is in the key by the URL that was given, else by its digest.
abbrev pub source_key : Option String → String → String → String
source_key none url sha = sha
source_key (some given) url sha = url

abbrev pub base_key : Option String → String → Option String → List String
base_key (some given) url sha = url ∷ []
base_key none url none = []
base_key none url (some sha) = sha ∷ []

-- The part of the key that is there for every job; the sources are the overridden ones.
unfoldable pub cache_parts :
    (config_key request_key : String) → JobArgs → JobTask → PresignedSourceUrls → List String
cache_parts config_key request_key a t s =
    (config_key
      ∷ request_key
      ∷ source_key a.head_repo_tarball_url s.head_repo t.head_sha256
      ∷ source_key a.oss_fuzz_tarball_url s.fuzz_tooling t.fuzz_tooling_sha256
      ∷ [])
    ++ base_key a.base_tarball_url s.base_repo t.base_sha256
    ++ t.focus ∷ t.project_name ∷ format_bool (or_given a.skip_patch_tests false) ∷ []

unfoldable pub job_args :
    JobArgs → JobTask → PresignedSourceUrls → (architecture : String) → List String
job_args a t s architecture =
    ("--head-repo-url" ∷ s.head_repo ∷ "--oss-fuzz-url" ∷ s.fuzz_tooling ∷ "--focus" ∷ t.focus
      ∷ "--project-name" ∷ t.project_name ∷ "--architecture" ∷ architecture ∷ "--export-results"
      ∷ [])
    ++ (if or_given a.skip_patch_tests false then "--skip-patch-tests" ∷ [] else [])
    ++ (if str_eq s.base_repo "" then [] else "--base-repo-url" ∷ s.base_repo ∷ [])

-- What a trigger or a patch adds to the arguments and to the key.
pub record Added : Type 0 where
  pub args : List String
  pub parts : List String

-- What a request has been made into: the key is under which the job is looked up.
pub record Prepared : Type 0 where
  pub task : JobTask
  pub args : List String
  pub key : String

abbrev pub unprocessable : String → HttpError
unprocessable text = record { code = 422; message = text }
