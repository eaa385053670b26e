-- ===== src/Deliver/Requests.antt =====
-- The requests that a delivery makes.
use competition_api.Prelude.{
  ℕ, zero, suc, ◌+◌, ◌≡◌, refl, sym, ap, ◌∙◌, String, Option, Result, arith,
}
use competition_api.WorkerErrors.{GoError}
use competition_api.Types.ExitCode.{ℤ, pos, negsuc}
use competition_api.Retry.{Backoff}
use competition_api.Retry.Tried.{
  Tried, given_up, succeeding, used_up, broken_off, once_more, Never, attempt, retried,
  attempt-IsAttempt, retried-Tried,
}
use competition_api.Deliver.{
  DeliveryTarget, HttpClient, incremented, send_request, retry_deliver, deliver_one,
}

-- The number of requests as `retryCount` tells it.
abbrev pub retry_count : ℕ → ℤ
retry_count zero = negsuc 0
retry_count (suc k) = pos k

abbrev advanced : ℕ → ℤ → ℤ
advanced zero c = c
advanced (suc k) c = advanced k (incremented c)

advanced-pos : (k n : ℕ) → advanced k (pos n) ≡ pos (n + k)
advanced-pos zero n = ap pos (omega arith)
advanced-pos (suc k) n = advanced-pos k (suc n) ∙ ap pos (omega arith)

advanced-retry_count : (k : ℕ) → advanced k (negsuc 0) ≡ retry_count k
advanced-retry_count zero = refl
advanced-retry_count (suc k) = advanced-pos k 0 ∙ ap pos (omega arith)

module _ {W Url Request : Type 0} (h : HttpClient W Url Request) (method route : String)
    (payload : Option String) (target : DeliveryTarget Url) where
  -- The count goes up by one with each request.
  counted-Tried :
      (ended : GoError → Type 0) (n k : ℕ) (s t : W × ℤ) (r : Result GoError (Unit {0}))
      → Tried ended Never (retry_deliver h method route payload target) n k s r t
      → Tried ended Never (send_request h method route payload target) n k s.0 r t.0
        × (t.1 ≡ advanced k s.1)
  counted-Tried ended n k s t r (given_up e c) = (given_up e c, refl)
  counted-Tried ended n k s t r (succeeding e) =
      (succeeding (ap (λ x. (x.0, x.1.0)) e), sym (ap (λ x. x.1.1) e))
  counted-Tried ended n k s t r (used_up e) =
      (used_up (ap (λ x. (x.0, x.1.0)) e), sym (ap (λ x. x.1.1) e))
  counted-Tried ended n k s t r (broken_off e final) = absurd final
  counted-Tried ended n k s t r (once_more {n = m} {k = j} {w' = s'} e rest) =
      let (sent, count) = counted-Tried ended m j s' t r rest in
      (once_more (ap (λ x. (x.0, x.1.0)) e) sent, count ∙ ap (advanced j) (sym (ap (λ x. x.1.1) e)))

  -- A delivery makes requests one after the other, and returns what the last has come to, or the
  -- context's error if that ended before a request; a request that fails is followed by another while the
  -- backoff allows retries and the context has not ended. Then it calls the finisher once, with what it
  -- returns and the number of requests less one.
  pub deliver_one-Tried :
      (b : Backoff) (finisher : DeliveryTarget Url → ℤ → Result GoError (Unit {0}) → W → W) (w : W)
      → (k : ℕ) × (r : Result GoError (Unit {0})) × (w' : W) × Tried b.ended Never
          (send_request h method route payload target)
          b.retries
          k
          w
          r
          w'
        × (deliver_one h method route payload target b finisher w
            ≡ (r, finisher target (retry_count k) r w'))
  unfolding deliver_one
  deliver_one-Tried b finisher w =
      let s = retried b tt (attempt (retry_deliver h method route payload target)) (w, negsuc 0) in
      let (k, tried) =
        retried-Tried b Never tt (retry_deliver h method route payload target) _ (w, negsuc 0)
          (attempt-IsAttempt Never (retry_deliver h method route payload target)) in
      let (sent, count) = counted-Tried b.ended b.retries k (w, negsuc 0) s.1 s.0 tried in
      (
        k,
        s.0,
        s.1.0,
        sent,
        ap (λ c. (s.0, finisher target c s.0 s.1.0)) (count ∙ advanced-retry_count k),
      )
