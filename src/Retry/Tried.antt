-- ===== src/Retry/Tried.antt =====
-- What is left of a retried call: attempts one after the other, all but the last of which have failed.
use competition_api.Prelude.{ℕ, zero, suc, ◌≡◌, refl, Result, ok, err, Exec}
use competition_api.WorkerErrors.{GoError, message}
use competition_api.Retry.{
  Attempt, nil, permanent, retryable, Runs, cancelled, succeeded, stopped, exhausted, again,
  Backoff,
}

-- `Tried ended stops m n k w r w'`: `k` attempts of `m` from the world `w` end with `r` in `w'`, where `n`
-- retries are allowed. An attempt that succeeds is the last one. One that fails is followed by another,
-- unless there are no retries left, or `stops` tells that its failure is final. The context may end
-- before an attempt, and its error is returned then.
pub data Tried {W A : Type 0} (ended : GoError → Type 0) (stops : W → GoError → W → Type 0)
    (m : Exec W GoError A) : (n k : ℕ) → W → Result GoError A → W → Type 0 where
  given_up : {n : ℕ} {w : W} (e : GoError) → ended e → Tried ended stops m n zero w (err e) w
  succeeding : {n : ℕ} {w w' : W} {a : A} → m w ≡ (ok a, w') → Tried ended stops m n 1 w (ok a) w'
  used_up : {w w' : W} {e : GoError} → m w ≡ (err e, w') → Tried ended stops m zero 1 w (err e) w'
  broken_off :
      {n : ℕ} {w w' : W} {e : GoError}
      → m w ≡ (err e, w')
      → stops w e w'
      → Tried ended stops m n 1 w (err e) w'
  once_more :
      {n k : ℕ} {w w' t : W} {e : GoError} {r : Result GoError A}
      → m w ≡ (err e, w')
      → Tried ended stops m n k w' r t
      → Tried ended stops m (suc n) (suc k) w r t

-- No failure is final.
abbrev pub Never : {W : Type 0} → W → GoError → W → Type 0
Never w e w' = ⊥

module _ {W A : Type 0} where
  -- The closure of a retried call, with the variable that takes its result.
  abbrev attempted : Result GoError A → W → A → Attempt × (W × A)
  attempted (ok a) w old = (nil, (w, a))
  attempted (err e) w old = (retryable e, (w, old))

  abbrev pub attempt : Exec W GoError A → W × A → Attempt × (W × A)
  attempt m (w, old) = let (r, w') = m w in attempted r w' old

  abbrev taken : Result GoError (Unit {0}) → W × A → Result GoError A × W
  taken (ok x) s = (ok s.1, s.0)
  taken (err e) s = (err e, s.0)

  -- `var a A; err := retry.Do(ctx, b, body); if err != nil { return err }; return a`, the body setting `a`.
  abbrev pub retried : Backoff → A → (W × A → Attempt × (W × A)) → Exec W GoError A
  retried b default body w = let (r, s) = b.do_retry body (w, default) in taken r s

  -- Each call of the body is an attempt of `m`, whose failure is retryable unless it is final.
  pub record IsAttempt (stops : W → GoError → W → Type 0) (m : Exec W GoError A)
      (body : W × A → Attempt × (W × A)) : Type 0 where
    pub on_nil : (s s' : W × A) → body s ≡ (nil, s') → m s.0 ≡ (ok s'.1, s'.0)
    pub on_permanent :
        (s s' : W × A) (e : GoError)
        → body s ≡ (permanent e, s')
        → (m s.0 ≡ (err e, s'.0)) × stops s.0 e s'.0
    pub on_retryable :
        (s s' : W × A) (e : GoError) → body s ≡ (retryable e, s') → m s.0 ≡ (err e, s'.0)

  attempted-cases :
      (m : Exec W GoError A) (r : Result GoError A) (w w' : W) (old : A) (s : W × A) (e : GoError)
      → m w ≡ (r, w')
      → (attempted r w' old ≡ (nil, s) → m w ≡ (ok s.1, s.0))
        × (¬ (attempted r w' old ≡ (permanent e, s)))
        × (attempted r w' old ≡ (retryable e, s) → m w ≡ (err e, s.0))
  attempted-cases m (ok a) w w' old s e q = (λ p. cc, λ p. cc, λ p. cc)
  attempted-cases m (err x) w w' old s e q = (λ p. cc, λ p. cc, λ p. cc)

  attempt-ne-permanent :
      (m : Exec W GoError A) (s s' : W × A) (e : GoError) → ¬ (attempt m s ≡ (permanent e, s'))
  attempt-ne-permanent m s s' e = (attempted-cases m (m s.0).0 s.0 (m s.0).1 s.1 s' e refl).1

  pub attempt-IsAttempt :
      (stops : W → GoError → W → Type 0) (m : Exec W GoError A) → IsAttempt stops m (attempt m)
  attempt-IsAttempt stops m = record {
    on_nil = λ s s' q. (attempted-cases m (m s.0).0 s.0 (m s.0).1 s.1 s' (message "") refl).0 q;
    on_permanent = λ s s' e q. absurd (attempt-ne-permanent m s s' e q);
    on_retryable = λ s s' e q. (attempted-cases m (m s.0).0 s.0 (m s.0).1 s.1 s' e refl).2 q;
  }

  Runs-Tried :
      (ended : GoError → Type 0) (stops : W → GoError → W → Type 0) (m : Exec W GoError A)
      (body : W × A → Attempt × (W × A)) (n : ℕ) (s s' : W × A) (r : Result GoError (Unit {0}))
      → IsAttempt stops m body
      → Runs ended body n s r s'
      → (k : ℕ) × Tried ended stops m n k s.0 (taken r s').0 (taken r s').1
  Runs-Tried ended stops m body n s s' r h (cancelled e c) = (0, given_up e c)
  Runs-Tried ended stops m body n s s' r h (succeeded e) = (1, succeeding (h.on_nil s s' e))
  Runs-Tried ended stops m body n s s' r h (stopped e) =
      let (failed, final) = h.on_permanent s s' _ e in (1, broken_off failed final)
  Runs-Tried ended stops m body n s s' r h (exhausted e) = (1, used_up (h.on_retryable s s' _ e))
  Runs-Tried ended stops m body n s s' r h (again e rest) =
      let (k, tried) = Runs-Tried ended stops m body _ _ s' r h rest in
      (suc k, once_more (h.on_retryable s _ _ e) tried)

  -- A retried call is some attempts of it.
  pub retried-Tried :
      (b : Backoff) (stops : W → GoError → W → Type 0) (default : A) (m : Exec W GoError A)
      (body : W × A → Attempt × (W × A)) (w : W)
      → IsAttempt stops m body
      → (k : ℕ) × Tried b.ended stops m b.retries k w
          (retried b default body w).0
          (retried b default body w).1
  retried-Tried b stops default m body w h =
      Runs-Tried b.ended stops m body b.retries (w, default) _ _ h (b.tries body (w, default))
