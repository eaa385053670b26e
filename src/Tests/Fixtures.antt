-- ===== src/Tests/Fixtures.antt =====
-- Concrete instances of what the code calls outside the repository.
use competition_api.Prelude.{
  some, none, ℕ, zero, suc, ◌≡◌, refl, String, true, false, List, [], ◌∷◌, Result, ok, err, Exec,
  pure, str_append, ltb, if◌then◌else◌,
}
use competition_api.WorkerErrors.{GoError}
use competition_api.Types.Status.{pov}
use competition_api.Types.ExitCode.{pos}
use competition_api.Upload.{ReadSeeker, Uploader}
use competition_api.WorkerQueue.{WorkerQueuer}
use competition_api.Retry.{
  Attempt, nil, permanent, retryable, Runs, succeeded, stopped, exhausted, again, Retry,
}
use competition_api.Engine.{Params, Engine, err_apt_unreachable}
use competition_api.Aixcc.{System, AixccEngine, Command, CommandResult, ChallengeYaml, DiffFile}
use competition_api.Models.Rows.{Permissions, Auth, Source, Task, full}
use competition_api.Evaluate.{Host, Evaluator, Job}

module _ {S : Type 0} where
  abbrev retried : Attempt → S → (S → Result GoError (Unit {0}) × S) → Result GoError (Unit {0}) × S
  retried nil s next = (ok tt, s)
  retried (permanent e) s next = (err e, s)
  retried (retryable e) s next = next s

  abbrev last_attempt : Attempt → S → Result GoError (Unit {0}) × S
  last_attempt nil s = (ok tt, s)
  last_attempt (permanent e) s = (err e, s)
  last_attempt (retryable e) s = (err e, s)

  -- A context that never ends.
  abbrev pub attempts : ℕ → (S → Attempt × S) → S → Result GoError (Unit {0}) × S
  attempts zero body s = let (a, s') = body s in last_attempt a s'
  attempts (suc n) body s = let (a, s') = body s in retried a s' (attempts n body)

  last_attempt-Runs :
      {ended : GoError → Type 0} (body : S → Attempt × S) (s s' : S) (a : Attempt)
      → body s ≡ (a, s')
      → Runs ended body 0 s (last_attempt a s').0 (last_attempt a s').1
  last_attempt-Runs body s s' nil e = succeeded e
  last_attempt-Runs body s s' (permanent x) e = stopped e
  last_attempt-Runs body s s' (retryable x) e = exhausted e

  retried-Runs :
      {ended : GoError → Type 0} (n : ℕ) (body : S → Attempt × S) (s s' : S) (a : Attempt)
      → body s ≡ (a, s')
      → Runs ended body n s' (attempts n body s').0 (attempts n body s').1
      → Runs ended body
          (suc n)
          s
          (retried a s' (attempts n body)).0
          (retried a s' (attempts n body)).1
  retried-Runs n body s s' nil e rest = succeeded e
  retried-Runs n body s s' (permanent x) e rest = stopped e
  retried-Runs n body s s' (retryable x) e rest = again e rest

  pub attempts-Runs :
      {ended : GoError → Type 0} (n : ℕ) (body : S → Attempt × S) (s : S)
      → Runs ended body n s (attempts n body s).0 (attempts n body s).1
  attempts-Runs zero body s = last_attempt-Runs body s (body s).1 (body s).0 refl
  attempts-Runs (suc n) body s =
      retried-Runs n body s (body s).1 (body s).0 refl (attempts-Runs n body (body s).1)

  abbrev pub patient_retry : Retry S
  patient_retry = record { do_max = attempts; runs = λ n body s. attempts-Runs n body s }

-- The world of the worker: how many commands were run.
abbrev pub Commands : Type 0
Commands = ℕ

abbrev pub sample_params : Params
sample_params = record {
  result_context = "pov_test_head_repo";
  repo_dir = "/repo";
  fuzz_tooling_dir = "/tooling";
  sanitizer = "address";
  architecture = "x86_64";
  engine = "libfuzzer";
  harness = "parse";
  project_name = "libxml2";
  focus = "libxml2";
  allowed_languages = "c" ∷ [];
}

abbrev pub sample_reader : String → ReadSeeker Commands
sample_reader content = record { seek_start = pure tt; read_all = pure content }

abbrev pub sample_uploader : Uploader Commands
sample_uploader = record {
  upload = λ r n name. pure tt;
  exists = λ name. pure false;
  store_identifier = pure "store";
  presigned_read_url = λ name n. pure (str_append "https://store/" name);
}

abbrev pub sample_queuer : WorkerQueuer Commands
sample_queuer = record { enqueue = λ m. pure tt; entity_id = "17"; entity_type = pov }

abbrev run_command : Command → Exec Commands GoError CommandResult
run_command c w =
    (ok (record { cmd = c.program ∷ []; stdout = ""; stderr = ""; exit_code = pos 0 }), suc w)

-- One changed file, and one that the patch adds.
abbrev sample_diff : List DiffFile
sample_diff =
    record { old_name = "a/parser.c"; new_name = "b/parser.c"; is_new = false; is_delete = false }
    ∷ record { old_name = ""; new_name = "b/new.h"; is_new = true; is_delete = false }
    ∷ []

abbrev sample_challenge : ChallengeYaml
sample_challenge = record {
  fuzz_tooling_project_name = "libxml2";
  fuzz_tooling_url = "https://tooling";
  fuzz_tooling_ref = "main";
  harnesses_list = "parse" ∷ [];
  memory_gb = 16;
  cpus = 2;
}

abbrev pub sample_system : System Commands
sample_system = record {
  execute = run_command;
  read_dir = λ dir. pure ("tooling" ∷ []);
  read_file = λ name. pure "content";
  open_file = λ name. pure 1;
  create_file = λ name. pure 2;
  append_file = λ name. pure 3;
  copy_file = λ to from. pure tt;
  print_to = λ file text w. w;
  stat_size = λ name. pure 64;
  file_name = λ file. "/tmp/file";
  file_reader = λ file. sample_reader "content";
  bytes_reader = sample_reader;
  is_not_exist = λ e. false;
  join = λ parts. "/joined";
  unmarshal_project = λ text. ok (record { language = "c"; sanitizers = "address" ∷ [] });
  unmarshal_challenge = λ text c. ok sample_challenge;
  validate_challenge = λ c. ok tt;
  parse_diff = λ file. pure sample_diff;
  guess_languages = λ name content. [];
  sha256 = λ text. str_append "sha256-" text;
}

abbrev pub sample_engine : AixccEngine Commands
sample_engine = record {
  system = sample_system;
  artifact_uploader = sample_uploader;
  worker_queuer = sample_queuer;
  entity = pov;
}

-- An engine whose first two builds cannot reach apt.
abbrev flaky_build : Commands → Result GoError (Unit {0})
flaky_build w = if ltb w 2 then err err_apt_unreachable else ok tt

abbrev pub flaky_engine : Engine Commands
flaky_engine = record {
  check_params = λ p. pure tt;
  build = λ p w. (flaky_build w, suc w);
  run_pov = λ p trigger crash w. (ok tt, suc w);
  apply_patch = λ p patch w. (ok tt, suc w);
  run_tests = λ p success w. (ok tt, suc w);
}

abbrev sample_host : Host Commands
sample_host = record {
  fetch = λ url. pure 4;
  extract = λ from dir. pure tt;
  mkdir_temp = pure "/tmp/dir";
  create_temp = pure 5;
  copy = λ to from. pure tt;
  close = λ file w. w;
  remove_all = λ dir w. w;
  name = λ file. "/tmp/file";
}

abbrev pub sample_evaluator : Evaluator Commands
sample_evaluator = record { host = sample_host; engine = flaky_engine; queuer = sample_queuer }

-- A patch that is tried with a trigger.
abbrev pub sample_job : Job
sample_job = record {
  fuzz_tooling_url = "https://tooling";
  head_repo_url = "https://head";
  base_repo_url = "";
  trigger_url = "https://trigger";
  patch_url = "https://patch";
  skip_patch_tests = false;
  params = sample_params;
}

abbrev sample_source : Source
sample_source = record { kind = "repo"; url = "https://source"; sha256 = "digest" }

abbrev pub sample_task : Task
sample_task = record {
  id = 5;
  unstripped_source = record {
    base_repo = none;
    head_repo = sample_source;
    fuzz_tooling = sample_source;
  };
  deadline = 100;
  task_type = full;
  round_id = "final";
  project_name = "libxml2";
  focus = "libxml2";
  commit = "main";
  source = [];
  memory_gb = 16;
  cpus = 2;
  harnesses_included = true;
}

abbrev pub crs_only : Permissions
crs_only = record { crs = true; competition_management = false; job_runner = false }

abbrev pub sample_team : Auth
sample_team = record {
  id = 3;
  token = "old";
  note = "team";
  permissions = crs_only;
  active = some true;
}
