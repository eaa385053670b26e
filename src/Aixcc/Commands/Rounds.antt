-- ===== src/Aixcc/Commands/Rounds.antt =====
-- How often a trigger is run, and what a success of `RunPov` rests on.
use competition_api.Prelude.{
  ℕ, zero, suc, String, ◌≡◌, refl, inl, inr, Bool, true, false, not, ◌&&◌, List, [], ◌∷◌, all,
  length, ap, ◌++◌, Result, ok, err, lift, pure, continue, ◌>>=◌, >>=-eq-ok, guard_inv, Bool-cases,
  arith, if◌then◌else◌,
}
use competition_api.WorkerErrors.{GoError}
use competition_api.Types.ExitCode.{has_code}
use competition_api.Engine.{Params}
use competition_api.Aixcc.{AixccEngine, Command, CommandResult}
use competition_api.Aixcc.Files.{get_fuzz_tooling_dir}
use competition_api.Aixcc.Commands.{
  run_rounds, report_result, archive_fuzz_out, classify_pov, finish_pov, pov_rounds,
  run_pov_checked, run_pov, pov_args,
}

-- `Runs c cmd w rs w'`: runs of the command, one after the other from the world `w`, gave the
-- results `rs`, and left the world `w'`.
pub data Executions {W : Type 0} (c : AixccEngine W) (cmd : Command)
    : W → List CommandResult → W → Type 0 where
  none_made : {w : W} → Executions c cmd w [] w
  execution :
      {w w' w'' : W} {r : CommandResult} {rs : List CommandResult}
      → c.execute cmd w ≡ (ok r, w')
      → Executions c cmd w' rs w''
      → Executions c cmd w (r ∷ rs) w''

-- The run reports a crash.
abbrev pub has_crashed : CommandResult → Bool
has_crashed r = has_code r.exit_code 202

module _ {W : Type 0} (c : AixccEngine W) (cmd : Command) where
  execute_inv :
      (w : W) (r : CommandResult)
      → (c.execute cmd w).0 ≡ ok r
      → c.execute cmd w ≡ (ok r, (c.execute cmd w).1)
  execute_inv w r h = ground arith

  -- Where a crash is expected, and in the last round, the command runs once.
  run_rounds_once :
      (crash : Bool) (w : W) {r : CommandResult}
      → (run_rounds c 0 crash cmd w).0 ≡ ok r
      → Executions c cmd w (r ∷ []) (run_rounds c 0 crash cmd w).1
  unfolding run_rounds
  run_rounds_once crash w h = execution (execute_inv w _ h) none_made

  -- `n` runs that show no crash, and then a run with the result `r`.
  abbrev pub CleanRuns : ℕ → CommandResult → W → W → Type 0
  CleanRuns n r w w' =
      (before : List CommandResult) × Executions c cmd w (before ++ r ∷ []) w'
      × (length before ≡ n)
      × (all (λ q. not (has_crashed q)) before ≡ true)

  CleanRuns-step :
      (n : ℕ) (w w' : W) (o : Result GoError CommandResult) {r : CommandResult}
      → c.execute cmd w ≡ (o, w')
      → ((run_rounds c n false cmd w').0 ≡ ok r → CleanRuns n r w' (run_rounds c n false cmd w').1)
      → has_crashed r ≡ false
      → (continue o
          (λ q. if not false && has_crashed q then pure q else run_rounds c n false cmd)
          w').0
        ≡ ok r
      → CleanRuns
          (suc n)
          r
          w
          (continue o
            (λ q. if not false && has_crashed q then pure q else run_rounds c n false cmd)
            w').1
  CleanRuns-step n w w' (err e) ran more clean h = cc
  CleanRuns-step n w w' (ok q) ran more clean h = elim (Bool-cases (has_crashed q)) [
    | inl crashed ↦ absurd (ground arith)
    | inr fine ↦
        let t = more (rw fine at h) in rw fine (q ∷ t.0, execution ran t.1, ap suc t.2, rw fine t.3)
  ]

  -- Where no crash is expected and the last run shows none, every round was made and none showed one.
  run_rounds_clean :
      (n : ℕ) (w : W) {r : CommandResult}
      → (run_rounds c n false cmd w).0 ≡ ok r
      → has_crashed r ≡ false
      → CleanRuns n r w (run_rounds c n false cmd w).1
  unfolding run_rounds
  run_rounds_clean zero w {r} h clean = ([], execution (execute_inv w r h) none_made, refl, refl)
  run_rounds_clean (suc n) w {r} h clean =
      CleanRuns-step n w (c.execute cmd w).1 (c.execute cmd w).0 refl
        (λ k. run_rounds_clean n (c.execute cmd w).1 k clean) clean h

module _ {W : Type 0} (c : AixccEngine W) (params : Params) (trigger_path : String) where
  -- The command of `RunPov`.
  abbrev pub pov_command : String → Bool → Command
  pov_command dir crash_expected = record {
    program = "./run_pov.sh";
    args = pov_args c params dir trigger_path crash_expected;
  }

  pov_exit :
      (r : CommandResult)
      → classify_pov r ≡ ok tt
      → (has_code r.exit_code 0 ≡ true) × (has_crashed r ≡ false)
  unfolding classify_pov
  pov_exit r h = ground arith

  finish_pov_inv :
      (r : CommandResult) (w : W) → (finish_pov c params r w).0 ≡ ok tt → classify_pov r ≡ ok tt
  unfolding finish_pov
  finish_pov_inv r w h =
      let a =
        >>=-eq-ok (report_result c params r)
          (λ _. archive_fuzz_out c params >>= λ _. lift (classify_pov r)) w h in
      (>>=-eq-ok (archive_fuzz_out c params) (λ _. lift (classify_pov r))
        (report_result c params r w).1 a.2).2

  -- The result of the runs in a `RunPov` that succeeded.
  run_pov_inv :
      (crash : Bool) (w : W)
      → (run_pov c params trigger_path crash w).0 ≡ ok tt
      → (dir : String) × (r : CommandResult) × ((get_fuzz_tooling_dir c params w).0 ≡ ok dir)
        × ((pov_rounds c params trigger_path crash dir (get_fuzz_tooling_dir c params w).1).0
            ≡ ok r)
        × (classify_pov r ≡ ok tt)
  unfolding run_pov run_pov_checked
  run_pov_inv crash w h =
      let checked = (guard_inv _ _ (run_pov_checked c params trigger_path crash) w h).1 in
      let a =
        >>=-eq-ok (get_fuzz_tooling_dir c params)
          (λ dir. pov_rounds c params trigger_path crash dir >>= finish_pov c params) w checked in
      let b =
        >>=-eq-ok (pov_rounds c params trigger_path crash a.0) (finish_pov c params)
          (get_fuzz_tooling_dir c params w).1 a.2 in
      (a.0, b.0, a.1, b.1, finish_pov_inv b.0 _ b.2)

  -- If `RunPov` succeeds where no crash is expected, as on a patched repository, the trigger was run
  -- three times, one run after the other; none of the three reported a crash and the last one ended
  -- with exit code 0.
  pub run_pov-CleanRuns :
      (w : W)
      → (run_pov c params trigger_path false w).0 ≡ ok tt
      → (dir : String) × (r : CommandResult) × CleanRuns c
          (pov_command dir false)
          2
          r
          (get_fuzz_tooling_dir c params w).1
          (pov_rounds c params trigger_path false dir (get_fuzz_tooling_dir c params w).1).1
        × (has_code r.exit_code 0 ≡ true)
        × (has_crashed r ≡ false)
  unfolding pov_rounds
  run_pov-CleanRuns w h =
      let (dir, r, found, ran, good) = run_pov_inv false w h in
      let (zero_code, fine) = pov_exit r good in
      (
        dir,
        r,
        run_rounds_clean c (pov_command dir false) 2 (get_fuzz_tooling_dir c params w).1 ran fine,
        zero_code,
        fine,
      )

  -- If `RunPov` succeeds where a crash is expected, the trigger was run once, with exit code 0.
  pub run_pov_crash :
      (w : W)
      → (run_pov c params trigger_path true w).0 ≡ ok tt
      → (dir : String) × (r : CommandResult) × Executions c
          (pov_command dir true)
          (get_fuzz_tooling_dir c params w).1
          (r ∷ [])
          (pov_rounds c params trigger_path true dir (get_fuzz_tooling_dir c params w).1).1
        × (has_code r.exit_code 0 ≡ true)
  unfolding pov_rounds
  run_pov_crash w h =
      let (dir, r, found, ran, good) = run_pov_inv true w h in
      (
        dir,
        r,
        run_rounds_once c (pov_command dir true) true (get_fuzz_tooling_dir c params w).1 ran,
        (pov_exit r good).0,
      )
