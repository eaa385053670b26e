-- ===== src/Aixcc.antt =====
-- What the engine of competition-api/cmd/worker/internal/engine/aixcc.go is given: the operating
-- system, the executor of commands, the store for artifacts and the queue to the server.
pub mod Files
pub mod Commands
pub mod Patches
pub mod Languages
use competition_api.Prelude.{ℕ, String, Bool, List, Result, Exec}
use competition_api.WorkerErrors.{GoError}
use competition_api.Types.Status.{JobType}
use competition_api.Types.ExitCode.{ℤ}
use competition_api.Upload.{ReadSeeker, Uploader}
use competition_api.WorkerQueue.{WorkerQueuer}

-- `command.New(program, args...)`
pub record Command : Type 0 where
  pub program : String
  pub args : List String

-- `command.Result`
pub record CommandResult : Type 0 where
  pub cmd : List String
  pub stdout : String
  pub stderr : String
  pub exit_code : ℤ

pub record ProjectYaml : Type 0 where
  pub language : String
  pub sanitizers : List String

-- competition-api/internal/types/challenge_yaml.go
pub record ChallengeYaml : Type 0 where
  pub fuzz_tooling_project_name : String
  pub fuzz_tooling_url : String
  pub fuzz_tooling_ref : String
  pub harnesses_list : List String
  pub memory_gb : ℕ
  pub cpus : ℕ

-- A file of a parsed patch, `gitdiff.File`, as far as it is used.
pub record DiffFile : Type 0 where
  pub old_name : String
  pub new_name : String
  pub is_new : Bool
  pub is_delete : Bool

-- An open file.
abbrev pub Handle : Type 0
Handle = ℕ

-- What the engine calls outside the repository, over the outside world `W`.
pub record System (W : Type 0) : Type 0 where
  -- the method of `command.Executor`
  pub execute : Command → Exec W GoError CommandResult
  -- `os.ReadDir`, the names alone
  pub read_dir : String → Exec W GoError (List String)
  pub read_file : String → Exec W GoError String
  pub open_file : String → Exec W GoError Handle
  pub create_file : String → Exec W GoError Handle
  -- `os.OpenFile` with `O_CREATE|O_WRONLY|O_APPEND`
  pub append_file : String → Exec W GoError Handle
  -- `io.Copy(to, from)`
  pub copy_file : Handle → Handle → Exec W GoError (Unit {0})
  -- `fmt.Fprint`; its error is not looked at
  pub print_to : Handle → String → W → W
  -- `os.Stat`, the size alone
  pub stat_size : String → Exec W GoError ℕ
  pub file_name : Handle → String
  pub file_reader : Handle → ReadSeeker W
  -- `bytes.NewReader`
  pub bytes_reader : String → ReadSeeker W
  -- `os.IsNotExist`
  pub is_not_exist : GoError → Bool
  -- `filepath.Join`
  pub join : List String → String
  pub unmarshal_project : String → Result GoError ProjectYaml
  -- `yaml.Unmarshal` into the given value
  pub unmarshal_challenge : String → ChallengeYaml → Result GoError ChallengeYaml
  pub validate_challenge : ChallengeYaml → Result GoError (Unit {0})
  -- `gitdiff.Parse`
  pub parse_diff : Handle → Exec W GoError (List DiffFile)
  -- `enry.GetLanguages`
  pub guess_languages : String → String → List String
  pub sha256 : String → String

pub record AixccEngine (W : Type 0) : Type 0 where
  pub system : System W
  pub open system use *
  pub artifact_uploader : Uploader W
  pub worker_queuer : WorkerQueuer W
  pub entity : JobType
