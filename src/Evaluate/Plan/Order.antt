-- ===== src/Evaluate/Plan/Order.antt =====
-- The evaluator's calls of the engine, against the plan.
use mathlib.Core.List.{append-nil}
use competition_api.Prelude.{
  String, ◌≡◌, refl, sym, ◌∙◌, subst, Bool, true, false, List, [], ◌∷◌, ◌++◌, pure, deferring,
  ◌>>=◌, ◌>>◌, if◌then◌else◌, ◌⊎◌, inl, inr, Result, ok, err, is_ok,
}
use competition_api.WorkerErrors.{GoError}
use competition_api.Types.Status.{result_ctx_head_repo_test, result_ctx_base_repo_test}
use competition_api.Engine.{Params, with_repo, with_fuzz_tooling_dir}
use competition_api.Aixcc.{Handle}
use competition_api.Aixcc.Files.{is_blank}
use competition_api.Evaluate.{
  Evaluator, Job, fetch_extract_repo, fetch_file, build_or_errored, run_pov_tests, run_base_tests,
  run_patch_tests, run_trigger, run_patch, run_submission, evaluate_job,
}
use competition_api.Evaluate.Plan.{
  Call, checks, patches, tests, builds, runs, Traced, traced, pov_calls, trigger_plan, patch_plan,
  plan,
}
use competition_api.Evaluate.Plan.Follows.{
  Follows, Follows-pure, Follows-quiet, Follows-logged, Follows-deferring, Follows-on_error,
  Follows-if, Follows-bind, Follows-bind_quiet, follows_rules,
}

module _ {W : Type 0} (e : Evaluator W) where
  fetch_extract_repo-Follows : (url : String) → Follows (fetch_extract_repo (traced e) url) []
  unfolding fetch_extract_repo
  fetch_extract_repo-Follows url = search follows_rules depth 8

  fetch_file-Follows : (url : String) → Follows (fetch_file (traced e) url) []
  unfolding fetch_file
  fetch_file-Follows url = Follows-bind_quiet e.create_temp _ λ file.
      Follows-bind _ _ (Follows-on_error (e.close file) _ (Follows-quiet (e.fetch url))) λ buffer.
        Follows-deferring (e.close buffer) _ (
          Follows-bind _ _ (Follows-on_error (e.close file) _ (Follows-quiet (e.copy file buffer)))
            λ _. Follows-pure file)

  build_or_errored-Follows :
      (p : Params) → Follows (build_or_errored (traced e) p) (builds p.result_context ∷ [])
  unfolding build_or_errored
  build_or_errored-Follows p = record {
    at = λ s. record {
      made = builds p.result_context ∷ [];
      left = [];
      planned = refl;
      written = refl;
      complete = λ _. refl;
    };
  }

  run_pov_tests-Follows :
      (p : Params) (trigger : String) (crash : Bool)
      → Follows (run_pov_tests (traced e) p trigger crash) (pov_calls p.result_context crash)
  unfolding run_pov_tests
  run_pov_tests-Follows p trigger crash =
      Follows-bind _ _ (build_or_errored-Follows p)
        λ _. Follows-logged (runs p.result_context crash) (e.engine.run_pov p trigger crash)

  run_base_tests-Follows :
      (p : Params) (url trigger : String)
      → Follows
          (run_base_tests (traced e) p url trigger)
          (pov_calls result_ctx_base_repo_test false)
  unfolding run_base_tests
  run_base_tests-Follows p url trigger = Follows-bind _ _ (fetch_extract_repo-Follows url) λ dir.
      Follows-deferring (e.remove_all dir) _
        (run_pov_tests-Follows (with_repo p result_ctx_base_repo_test dir) trigger false)

  run_trigger-Follows :
      (job : Job) (p : Params) (trigger : String)
      → p.result_context ≡ result_ctx_head_repo_test
      → Follows (run_trigger (traced e) job p trigger) (trigger_plan job)
  unfolding run_trigger
  run_trigger-Follows job p trigger head =
      Follows-bind _ _
        (Follows-if (is_blank job.base_repo_url) _ _ (Follows-pure tt)
          (run_base_tests-Follows p job.base_repo_url trigger))
        λ _.
          subst (λ c. Follows (run_pov_tests (traced e) p trigger true) (pov_calls c true)) head
            (run_pov_tests-Follows p trigger true)

  run_patch_tests-Follows :
      (job : Job) (p : Params) (trigger url : String)
      → p.result_context ≡ result_ctx_head_repo_test
      → is_blank trigger ≡ is_blank job.trigger_url
      → Follows (run_patch_tests (traced e) p trigger url job.skip_patch_tests) (patch_plan job)
  unfolding run_patch_tests
  run_patch_tests-Follows job p trigger url head given =
      rw (← head, ← given)
        (Follows-bind _ _ (fetch_file-Follows url) λ patch. Follows-deferring (e.close patch) _ (
          Follows-bind _ _ (Follows-logged patches (e.engine.apply_patch p (e.name patch))) λ _.
            Follows-bind _ _ (Follows-logged (builds p.result_context) (e.engine.build p)) λ _.
              Follows-bind _ _
                (Follows-if (is_blank trigger) _ _ (Follows-pure tt)
                  (Follows-logged (runs p.result_context false) (e.engine.run_pov p trigger false)))
                λ _.
                  Follows-if job.skip_patch_tests _ _ (Follows-pure tt)
                    (Follows-logged tests (e.engine.run_tests p true))))

  run_patch-Follows :
      (job : Job) (p : Params) (trigger : String)
      → p.result_context ≡ result_ctx_head_repo_test
      → is_blank trigger ≡ is_blank job.trigger_url
      → Follows
          (run_patch (traced e) job p trigger)
          (if is_blank job.patch_url then [] else patch_plan job)
  unfolding run_patch
  run_patch-Follows job p trigger head given =
      Follows-if (is_blank job.patch_url) _ _ (Follows-pure tt)
        (run_patch_tests-Follows job p trigger job.patch_url head given)

  -- A file that `os.CreateTemp` has made has a name.
  abbrev pub HasNames : Type 0
  HasNames = (file : Handle) → is_blank (e.name file) ≡ false

  abbrev submission_plan : Job → List Call
  submission_plan job =
      if is_blank job.patch_url
      then (if is_blank job.trigger_url then [] else trigger_plan job)
      else patch_plan job

  either_plan :
      (b : Bool) (p q : List Call)
      → (if b then p else []) ++ (if b then [] else q) ≡ (if b then p else q)
  either_plan true p q = append-nil p
  either_plan false p q = refl

  -- Both cases of the test for a trigger, `b` being its value.
  submission_cases :
      (job : Job) (p : Params)
      → HasNames
      → p.result_context ≡ result_ctx_head_repo_test
      → (b : Bool) → is_blank job.trigger_url ≡ b
      → Follows
          (if b then run_patch (traced e) job p "" else (do
            trigger ← fetch_file (traced e) job.trigger_url
            deferring ((traced e).close trigger) do
              if is_blank job.patch_url
                  then run_trigger (traced e) job p (e.name trigger)
                  else pure tt
              run_patch (traced e) job p (e.name trigger)))
          (if is_blank job.patch_url then (if b then [] else trigger_plan job) else patch_plan job)
  submission_cases job p names head true h = run_patch-Follows job p "" head (sym h)
  submission_cases job p names head false h =
      rw (← either_plan (is_blank job.patch_url) (trigger_plan job) (patch_plan job)) (
        Follows-bind _ _ (fetch_file-Follows job.trigger_url) λ file.
          Follows-deferring (e.close file) _ (
            Follows-bind _ _
              (Follows-if (is_blank job.patch_url) _ _
                (run_trigger-Follows job p (e.name file) head) (Follows-pure tt))
              λ _. run_patch-Follows job p (e.name file) head (names file ∙ sym h)))

  run_submission-Follows :
      (job : Job) (p : Params)
      → HasNames
      → p.result_context ≡ result_ctx_head_repo_test
      → Follows (run_submission (traced e) job p) (submission_plan job)
  unfolding run_submission
  run_submission-Follows job p names head =
      submission_cases job p names head (is_blank job.trigger_url) refl

  evaluate_job-Follows : (job : Job) → HasNames → Follows (evaluate_job (traced e) job) (plan job)
  unfolding evaluate_job
  evaluate_job-Follows job names =
      Follows-bind _ _ (fetch_extract_repo-Follows job.fuzz_tooling_url) λ tooling.
        Follows-deferring (e.remove_all tooling) _ (
          Follows-bind _ _ (fetch_extract_repo-Follows job.head_repo_url) λ repo.
            let p =
              with_repo (with_fuzz_tooling_dir job.params tooling) result_ctx_head_repo_test repo in
            Follows-deferring (e.remove_all repo) _ (
              Follows-bind _ _ (Follows-logged checks (e.engine.check_params p))
                λ _. run_submission-Follows job p names refl))

  either_complete :
      (r : Result GoError (Unit {0})) (left : List Call)
      → (is_ok r ≡ true → left ≡ [])
      → (is_ok r ≡ false) ⊎ (left ≡ [])
  either_complete (ok x) left complete = inr (complete refl)
  either_complete (err x) left complete = inl refl

  -- However the calls of the world outside go, the calls of the engine that an evaluation makes are
  -- written down after those before it and begin the plan of the submission, and the evaluation fails
  -- or they are the whole plan; provided that files made by `os.CreateTemp` have names.
  pub evaluate_job-plan :
      HasNames
      → (job : Job) (s : Traced W)
      → (made left : List Call) × (plan job ≡ made ++ left)
        × ((evaluate_job (traced e) job s).1.1 ≡ s.1 ++ made)
        × ((is_ok (evaluate_job (traced e) job s).0 ≡ false) ⊎ (left ≡ []))
  evaluate_job-plan names job s =
      let t = (evaluate_job-Follows job names).at s in
      (t.made, t.left, t.planned, t.written, either_complete _ t.left t.complete)
