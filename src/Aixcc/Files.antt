-- ===== src/Aixcc/Files.antt =====
-- `getFuzzToolingDir` and `Check` of competition-api/cmd/worker/internal/engine/aixcc.go, and
-- `ParseChallengeYAML` of competition-api/internal/types/challenge_yaml.go.
use competition_api.Prelude.{
  String, Bool, false, not, ◌||◌, some, List, [], ◌∷◌, any, Result, ok, err, Exec, pure, lift,
  check, act, ◌>>=◌, ◌>>◌, str_eq, str_append, if◌then◌else◌,
}
use competition_api.WorkerErrors.{GoError, message, status_error_wrap}
use competition_api.Types.Status.{failed, is_job}
use competition_api.Engine.{Params}
use competition_api.Aixcc.{AixccEngine, ChallengeYaml}

-- `slices.Contains`
abbrev pub contains_name : List String → String → Bool
contains_name names name = any (λ n. str_eq n name) names

abbrev pub is_blank : String → Bool
is_blank s = str_eq s ""

-- A failure that is the submission's own.
abbrev pub submission_failed : GoError → GoError
submission_failed e = status_error_wrap failed false (some e)

abbrev first_entry : List String → Result GoError String
first_entry [] = err (message "invalid format for fuzz tooling tar")
first_entry (name ∷ _) = ok name

unfoldable pub default_challenge : ChallengeYaml
default_challenge = record {
  fuzz_tooling_project_name = "";
  fuzz_tooling_url = "";
  fuzz_tooling_ref = "";
  harnesses_list = [];
  memory_gb = 16;
  cpus = 2;
}

module _ {W : Type 0} (c : AixccEngine W) where
  -- The override of `infra/helper.py`, made for jobs only.
  unfoldable pub override_helper : String → Exec W GoError (Unit {0})
  override_helper fuzz_tooling_dir = do
    override ← c.open_file "./helper.py"
    helper ← c.create_file (c.join (fuzz_tooling_dir ∷ "infra" ∷ "helper.py" ∷ []))
    c.copy_file helper override

  unfoldable pub get_fuzz_tooling_dir : Params → Exec W GoError String
  unfolding override_helper
  get_fuzz_tooling_dir params = do
    entries ← c.read_dir params.fuzz_tooling_dir
    name ← lift (first_entry entries)
    let fuzz_tooling_dir = c.join (params.fuzz_tooling_dir ∷ name ∷ [])
    if is_job c.entity
        then (override_helper fuzz_tooling_dir >> pure fuzz_tooling_dir)
        else pure fuzz_tooling_dir

  unfoldable pub parse_challenge_yaml : String → Exec W GoError ChallengeYaml
  unfolding default_challenge
  parse_challenge_yaml repo_path = do
    content ← c.read_file (c.join (repo_path ∷ ".aixcc" ∷ "challenge.yaml" ∷ []))
    challenge ← lift (c.unmarshal_challenge content default_challenge)
    lift (c.validate_challenge challenge)
    pure challenge

  -- The settings for Maven, copied into a project in Java.
  unfoldable pub add_maven_settings : String → Params → Exec W GoError (Unit {0})
  add_maven_settings fuzz_tooling_dir params = do
    settings ← c.open_file "./settings.xml"
    local ←
        c.create_file
          (c.join (fuzz_tooling_dir ∷ "projects" ∷ params.project_name ∷ "settings.xml" ∷ []))
    c.copy_file local settings
    dockerfile ←
        c.append_file
          (c.join (fuzz_tooling_dir ∷ "projects" ∷ params.project_name ∷ "Dockerfile" ∷ []))
    act (c.print_to dockerfile "\nCOPY settings.xml /root/.m2/settings.xml\n")

  -- The method `Check`.
  unfoldable pub check_params : Params → Exec W GoError (Unit {0})
  unfolding get_fuzz_tooling_dir parse_challenge_yaml add_maven_settings
  check_params params = do
    check
        (not (
          is_blank params.repo_dir
          || is_blank params.fuzz_tooling_dir
          || is_blank params.focus
          || is_blank params.project_name))
        (message "missing source path information")
    fuzz_tooling_dir ← get_fuzz_tooling_dir params
    check (str_eq params.architecture "x86_64")
        (submission_failed (message (str_append "invalid architecture: " params.architecture)))
    check (str_eq params.engine "libfuzzer")
        (submission_failed (message (str_append "invalid engine: " params.engine)))
    project_yaml ←
        c.read_file
          (c.join (fuzz_tooling_dir ∷ "projects" ∷ params.project_name ∷ "project.yaml" ∷ []))
    project ← lift (c.unmarshal_project project_yaml)
    if str_eq project.language "jvm" then add_maven_settings fuzz_tooling_dir params else pure tt
    check (is_blank params.sanitizer || contains_name project.sanitizers params.sanitizer)
        (submission_failed (message (str_append "invalid sanitizer: " params.sanitizer)))
    challenge ← parse_challenge_yaml (c.join (params.repo_dir ∷ params.focus ∷ []))
    check (is_blank params.harness || contains_name challenge.harnesses_list params.harness)
        (submission_failed (message (str_append "invalid harness: " params.harness)))
