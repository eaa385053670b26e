-- ===== src/Retry.antt =====
-- What the code relies on in the library go-retry (github.com/sethvargo/go-retry): `retry.Do` over a
-- backoff that allows a number of retries. The library is not part of the repository.
pub mod Tried
use competition_api.Prelude.{ℕ, zero, suc, ◌≡◌, Result, ok, err}
use competition_api.WorkerErrors.{GoError}

-- What the retried function returns: nil, an error, or `retry.RetryableError(err)`.
pub data Attempt : Type 0 where
  nil : Attempt
  permanent retryable : GoError → Attempt

-- `Runs ended body n s r s'`: from the state `s`, with `n` retries left, the loop returns `r` in `s'`.
-- The context is looked at before each attempt, and an error that is not retryable, or is the last
-- one allowed, is returned as it is; `ended` tells the errors with which the context ends.
pub data Runs {S : Type 0} (ended : GoError → Type 0) (body : S → Attempt × S)
    : ℕ → S → Result GoError (Unit {0}) → S → Type 0 where
  cancelled : {n : ℕ} {s : S} (e : GoError) → ended e → Runs ended body n s (err e) s
  succeeded : {n : ℕ} {s s' : S} → body s ≡ (nil, s') → Runs ended body n s (ok tt) s'
  stopped :
      {n : ℕ} {s s' : S} {e : GoError} → body s ≡ (permanent e, s') → Runs ended body n s (err e) s'
  exhausted :
      {s s' : S} {e : GoError} → body s ≡ (retryable e, s') → Runs ended body zero s (err e) s'
  again :
      {n : ℕ} {s s' t : S} {e : GoError} {r : Result GoError (Unit {0})}
      → body s ≡ (retryable e, s')
      → Runs ended body n s' r t
      → Runs ended body (suc n) s r t

-- `retry.Do` with `retry.WithMaxRetries(n, …)`, over a state that the retried function changes.
pub record Retry (S : Type 0) : Type 0 where
  pub do_max : ℕ → (S → Attempt × S) → S → Result GoError (Unit {0}) × S
  pub runs :
      (n : ℕ) (body : S → Attempt × S) (s : S)
      → Runs (λ e. Unit {0}) body n s (do_max n body s).0 (do_max n body s).1

-- `retry.Do` with a backoff that is made for one call and ends after some time: after the retries for
-- which the time is enough.
pub record Backoff : Type 1 where
  pub retries : ℕ
  -- the errors of the context, once that is done
  pub ended : GoError → Type 0
  pub do_retry : {S : Type 0} → (S → Attempt × S) → S → Result GoError (Unit {0}) × S
  pub tries :
      {S : Type 0} (body : S → Attempt × S) (s : S)
      → Runs ended body retries s (do_retry body s).0 (do_retry body s).1
