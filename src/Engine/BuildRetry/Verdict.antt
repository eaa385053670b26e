-- ===== src/Engine/BuildRetry/Verdict.antt =====
-- The outcome of the retried `Build` against a description of the builds that were made.
use mathlib.Core.List.{append-nil, append_assoc}
use competition_api.Prelude.{
  ℕ, suc, ◌≤◌, ◌≡◌, refl, sym, ◌∙◌, Bool, false, some, List, [], ◌∷◌, ◌++◌, any, length, is_ok,
  Result, ok, err, arith, if◌then◌else◌,
}
use competition_api.WorkerErrors.{GoError, status_error_wrap}
use competition_api.Types.Status.{failed}
use competition_api.Retry.{
  nil, retryable, permanent, Runs, cancelled, succeeded, stopped, exhausted, again, Retry,
}
use competition_api.Engine.{Params, Engine, err_building_failed, err_building_errored}
use competition_api.Engine.BuildRetry.{is_infrastructure_error, conclude, build_attempt, build}

abbrev Outcome : Type 0
Outcome = Result GoError (Unit {0})

-- `Builds e p w rs w'`: builds made one after the other from the world `w` have the outcomes `rs`,
-- and leave the world `w'`.
pub data Builds {W : Type 0} (e : Engine W) (p : Params) : W → List Outcome → W → Type 0 where
  none_made : {w : W} → Builds e p w [] w
  next_build :
      {w w' w'' : W} {r : Outcome} {rs : List Outcome}
      → e.build p w ≡ (r, w')
      → Builds e p w' rs w''
      → Builds e p w (r ∷ rs) w''

-- The errors of the builds that failed.
abbrev pub errors_of : List Outcome → List GoError
errors_of [] = []
errors_of (ok _ ∷ rs) = errors_of rs
errors_of (err e ∷ rs) = e ∷ errors_of rs

-- A build whose failure is not the submission's.
abbrev pub is_infrastructure_outcome : Outcome → Bool
is_infrastructure_outcome (ok _) = false
is_infrastructure_outcome (err e) = is_infrastructure_error e

-- A success outweighs all failures, and a failure of the infrastructure those of the submission.
abbrev pub verdict : List Outcome → Outcome
verdict rs =
    if any is_ok rs
    then ok tt
    else if any is_infrastructure_outcome rs
    then err err_building_errored
    else err (status_error_wrap failed false (some err_building_failed))

module _ {W : Type 0} (inner : Engine W) (params : Params) where
  attempt_succeeded :
      (s s' : W × List GoError)
      → build_attempt inner params s ≡ (nil, s')
      → (inner.build params s.0 ≡ (ok tt, s'.0)) × (s'.1 ≡ s.1)
  unfolding build_attempt
  attempt_succeeded s s' h = ground arith

  attempt_failed :
      (s s' : W × List GoError) (e : GoError)
      → build_attempt inner params s ≡ (retryable e, s')
      → (inner.build params s.0 ≡ (err e, s'.0)) × (s'.1 ≡ s.1 ++ e ∷ [])
  unfolding build_attempt
  attempt_failed s s' e h = ground arith

  attempt-ne-permanent :
      (s s' : W × List GoError) (e : GoError) → ¬ (build_attempt inner params s ≡ (permanent e, s'))
  unfolding build_attempt
  attempt-ne-permanent s s' e h = ground arith

  -- What a run of the loop has done: the builds, the errors collected, and how it ended.
  record Trail (n : ℕ) (s : W × List GoError) (r : Outcome) (s' : W × List GoError) : Type 0 where
    outcomes : List Outcome
    builds : Builds inner params s.0 outcomes s'.0
    bounded : length outcomes ≤ suc n
    collected : s'.1 ≡ s.1 ++ errors_of outcomes
    ended : any is_ok outcomes ≡ is_ok r

  Trail-Runs :
      {n : ℕ} {s : W × List GoError} {r : Outcome} {s' : W × List GoError}
      → Runs (λ e. Unit {0}) (build_attempt inner params) n s r s'
      → Trail n s r s'
  Trail-Runs (cancelled e c) = record {
    outcomes = [];
    builds = none_made;
    bounded = omega arith;
    collected = sym (append-nil _);
    ended = refl;
  }
  Trail-Runs (succeeded {s = s} {s' = s'} e) =
      let a = attempt_succeeded s s' e in
      record {
        outcomes = ok tt ∷ [];
        builds = next_build a.0 none_made;
        bounded = omega arith;
        collected = a.1 ∙ sym (append-nil s.1);
        ended = refl;
      }
  Trail-Runs (stopped {s = s} {s' = s'} {e = e} h) = absurd (attempt-ne-permanent s s' e h)
  Trail-Runs (exhausted {s = s} {s' = s'} {e = e} h) =
      let a = attempt_failed s s' e h in
      record {
        outcomes = err e ∷ [];
        builds = next_build a.0 none_made;
        bounded = omega arith;
        collected = a.1;
        ended = refl;
      }
  Trail-Runs (again {s = s} {s' = s'} {e = e} h more) =
      let a = attempt_failed s s' e h in
      let t = Trail-Runs more in
      record {
        outcomes = err e ∷ t.outcomes;
        builds = next_build a.0 t.builds;
        bounded = omega (arith, t.bounded);
        collected = t.collected ∙ rw a.1 (append_assoc s.1 (e ∷ []) (errors_of t.outcomes));
        ended = t.ended;
      }

  any-errors_of :
      (rs : List Outcome)
      → any is_infrastructure_error (errors_of rs) ≡ any is_infrastructure_outcome rs
  any-errors_of [] = refl
  any-errors_of (ok _ ∷ rs) = any-errors_of rs
  any-errors_of (err e ∷ rs) = rw (any-errors_of rs)

  conclude-eq-verdict :
      (r : Outcome) (rs : List Outcome)
      → any is_ok rs ≡ is_ok r
      → conclude r (errors_of rs) ≡ verdict rs
  unfolding conclude
  conclude-eq-verdict (ok x) rs h = rw h
  conclude-eq-verdict (err e) rs h = rw (h, any-errors_of rs)

  -- `Build` makes at most four builds, one after the other, and returns the verdict on their
  -- outcomes: nil if one of them succeeded; "building errored" if none did and one failed for a
  -- reason that is not the submission's; the status failed otherwise.
  pub build-verdict :
      (retry : Retry (W × List GoError)) (w : W)
      → (rs : List Outcome) × Builds inner params w rs (build retry inner params w).1
        × (length rs ≤ 4)
        × ((build retry inner params w).0 ≡ verdict rs)
  unfolding build
  build-verdict retry w =
      let t = Trail-Runs (retry.runs 3 (build_attempt inner params) (w, [])) in
      (t.outcomes, t.builds, t.bounded, rw t.collected (conclude-eq-verdict _ t.outcomes t.ended))
