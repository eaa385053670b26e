-- ===== src/Queue/Polling.antt =====
-- What the loop for a message leaves as it was.
use competition_api.Prelude.{
  ℕ, zero, suc, ◌≡◌, refl, ◌∙◌, Option, none, some, List, [], ◌∷◌, Result, ok, err,
}
use competition_api.WorkerErrors.{GoError}
use competition_api.Queue.{QueueMessage, QueueClient, Polled, after_wait, after_dequeue, poll}

-- `read` is what is left as it was by asking for a message and by waiting.
module _ {W S : Type 0} (az : QueueClient W) (read : W → S)
    (dequeue_keeps : (w : W) → read (az.dequeue_message w).1 ≡ read w)
    (wait_keeps : (w : W) → read (az.wait w).1 ≡ read w) where
  after_wait_keeps :
      (next : W → Polled × W) (before : S)
      → ((w : W) → read w ≡ before → read (next w).1 ≡ before)
      → (o : Option GoError) (w : W) → read w ≡ before
      → read (after_wait az next (o, w)).1 ≡ before
  after_wait_keeps next before h none w e = h w e
  after_wait_keeps next before h (some x) w e = e

  after_dequeue_keeps :
      (next : W → Polled × W) (before : S)
      → ((w : W) → read w ≡ before → read (next w).1 ≡ before)
      → (r : Result GoError (List QueueMessage)) (w : W) → read w ≡ before
      → read (after_dequeue az next r w).1 ≡ before
  after_dequeue_keeps next before h (err x) w e = e
  after_dequeue_keeps next before h (ok []) w e =
      after_wait_keeps next before h (az.wait w).0 (az.wait w).1 (wait_keeps w ∙ e)
  after_dequeue_keeps next before h (ok (m ∷ [])) w e = e
  after_dequeue_keeps next before h (ok (m ∷ _ ∷ _)) w e = e

  poll_keeps_from :
      (rounds : ℕ) (before : S) (w : W) → read w ≡ before → read (poll az rounds w).1 ≡ before
  unfolding poll
  poll_keeps_from zero before w e = e
  poll_keeps_from (suc rounds) before w e =
      after_dequeue_keeps (poll az rounds) before (poll_keeps_from rounds before)
        (az.dequeue_message w).0 (az.dequeue_message w).1 (dequeue_keeps w ∙ e)

  pub poll_keeps : (rounds : ℕ) (w : W) → read (poll az rounds w).1 ≡ read w
  poll_keeps rounds w = poll_keeps_from rounds (read w) w refl
