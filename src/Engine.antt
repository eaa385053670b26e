-- ===== src/Engine.antt =====
-- The interface `Engine` of competition-api/cmd/worker/internal/engine/engine.go, its sentinel
-- errors, and the parameters of params.go.
pub mod BuildRetry
use competition_api.Prelude.{String, Bool, List, Exec}
use competition_api.WorkerErrors.{GoError, message}
use competition_api.Types.Status.{ResultContext}

pub record Params : Type 0 where
  pub result_context : ResultContext
  pub repo_dir : String
  pub fuzz_tooling_dir : String
  pub sanitizer : String
  pub architecture : String
  pub engine : String
  pub harness : String
  pub project_name : String
  pub focus : String
  pub allowed_languages : List String

-- The fields that are not given are empty.
unfoldable pub new_params :
    (sanitizer architecture engine harness project_name focus : String) → List String → Params
new_params sanitizer architecture engine harness project_name focus allowed_languages = record {
  result_context = "";
  repo_dir = "";
  fuzz_tooling_dir = "";
  sanitizer = sanitizer;
  architecture = architecture;
  engine = engine;
  harness = harness;
  project_name = project_name;
  focus = focus;
  allowed_languages = allowed_languages;
}

unfoldable pub with_repo : Params → ResultContext → String → Params
with_repo d result_context repo_dir = record d {
  result_context = result_context;
  repo_dir = repo_dir;
}

unfoldable pub with_fuzz_tooling_dir : Params → String → Params
with_fuzz_tooling_dir d fuzz_tooling_dir = record d { fuzz_tooling_dir = fuzz_tooling_dir }

-- The parameters are read by the methods and not written.
pub record Engine (W : Type 0) : Type 0 where
  pub check_params : Params → Exec W GoError (Unit {0})
  pub build : Params → Exec W GoError (Unit {0})
  pub run_pov : Params → String → Bool → Exec W GoError (Unit {0})
  pub apply_patch : Params → String → Exec W GoError (Unit {0})
  pub run_tests : Params → Bool → Exec W GoError (Unit {0})

abbrev pub err_building_failed : GoError
err_building_failed = message "building failed"

abbrev pub err_building_errored : GoError
err_building_errored = message "building errored"

abbrev pub err_apt_unreachable : GoError
err_apt_unreachable = message "failed to reach apt"

abbrev pub err_maven_unreachable : GoError
err_maven_unreachable = message "failed to reach maven"
