-- ===== src/Evaluate/Plan.antt =====
-- The evaluator with its calls of the engine written down, and the calls that a submission is due.
pub mod Follows
pub mod Order
use competition_api.Prelude.{String, Bool, true, false, List, [], ◌∷◌, ◌++◌, Exec, if◌then◌else◌}
use competition_api.WorkerErrors.{GoError}
use competition_api.Types.Status.{
  ResultContext, result_ctx_head_repo_test, result_ctx_base_repo_test,
}
use competition_api.WorkerQueue.{WorkerQueuer}
use competition_api.Engine.{Engine}
use competition_api.Aixcc.Files.{is_blank}
use competition_api.Evaluate.{Host, Evaluator, Job}

-- A call of the engine: a build or a run of the trigger says in which repository, and a run whether
-- a crash is expected.
pub data Call : Type 0 where
  checks patches tests : Call
  builds : ResultContext → Call
  runs : ResultContext → Bool → Call

-- A world with the calls made in it, the last one at the end.
abbrev pub Traced : Type 0 → Type 0
Traced W = W × List Call

module _ {W A : Type 0} where
  abbrev pub quiet : Exec W GoError A → Exec (Traced W) GoError A
  quiet m s = let (r, w') = m s.0 in (r, (w', s.1))

  abbrev pub logged : Call → Exec W GoError A → Exec (Traced W) GoError A
  logged call m s = let (r, w') = m s.0 in (r, (w', s.1 ++ call ∷ []))

module _ {W : Type 0} where
  abbrev pub quietly : (W → W) → Traced W → Traced W
  quietly f s = (f s.0, s.1)

  abbrev pub traced_host : Host W → Host (Traced W)
  traced_host h = record {
    fetch = λ url. quiet (h.fetch url);
    extract = λ from dir. quiet (h.extract from dir);
    mkdir_temp = quiet h.mkdir_temp;
    create_temp = quiet h.create_temp;
    copy = λ to from. quiet (h.copy to from);
    close = λ file. quietly (h.close file);
    remove_all = λ dir. quietly (h.remove_all dir);
    name = h.name;
  }

  abbrev pub traced_engine : Engine W → Engine (Traced W)
  traced_engine e = record {
    check_params = λ p. logged checks (e.check_params p);
    build = λ p. logged (builds p.result_context) (e.build p);
    run_pov = λ p trigger crash. logged (runs p.result_context crash) (e.run_pov p trigger crash);
    apply_patch = λ p patch. logged patches (e.apply_patch p patch);
    run_tests = λ p success. logged tests (e.run_tests p success);
  }

  abbrev pub traced_queuer : WorkerQueuer W → WorkerQueuer (Traced W)
  traced_queuer q = record {
    enqueue = λ m. quiet (q.enqueue m);
    entity_id = q.entity_id;
    entity_type = q.entity_type;
  }

  abbrev pub traced : Evaluator W → Evaluator (Traced W)
  traced e = record {
    host = traced_host e.host;
    engine = traced_engine e.engine;
    queuer = traced_queuer e.queuer;
  }

-- A trigger is run after a build, in the repository that the context names.
abbrev pub pov_calls : ResultContext → Bool → List Call
pov_calls context crash = builds context ∷ runs context crash ∷ []

abbrev pub trigger_plan : Job → List Call
trigger_plan job =
    (if is_blank job.base_repo_url then [] else pov_calls result_ctx_base_repo_test false)
    ++ pov_calls result_ctx_head_repo_test true

abbrev pub patch_plan : Job → List Call
patch_plan job =
    patches
    ∷ builds result_ctx_head_repo_test
    ∷ ((if is_blank job.trigger_url then [] else runs result_ctx_head_repo_test false ∷ [])
        ++ (if job.skip_patch_tests then [] else tests ∷ []))

-- What a submission is due: a patch is applied, built, tried with the trigger if there is one, and
-- tested; a trigger alone is tried on the repository before the change, if there is one, and after.
abbrev pub plan : Job → List Call
plan job =
    checks
    ∷ (if is_blank job.patch_url
        then (if is_blank job.trigger_url then [] else trigger_plan job)
        else patch_plan job)
