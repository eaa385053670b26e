-- ===== src/Queue/Arriving.antt =====
-- When a message arrives, and what `Dequeue` does to it.
use competition_api.Prelude.{
  ℕ, zero, suc, ◌<◌, arith, String, ◌≡◌, refl, Option, none, some, List, [], ◌∷◌, Result, ok, err,
}
use competition_api.WorkerErrors.{GoError}
use competition_api.Queue.{
  HandlerError, poison, transient, panicked, MessageHandler, QueueMessage, QueueClient, Polled,
  still_waiting, got, gave_up, Dequeued, returned, crashed, after_wait, after_dequeue, poll,
  after_handler, receive, dequeue,
}

-- A message is there after some rounds without one, in which the context is not done.
pub data Arrives {W : Type 0} (az : QueueClient W) : ℕ → W → QueueMessage → W → Type 0 where
  now :
      (w w' : W) (m : QueueMessage)
      → az.dequeue_message w ≡ (ok (m ∷ []), w')
      → Arrives az zero w m w'
  later :
      (n : ℕ) (w w₁ w₂ w' : W) (m : QueueMessage)
      → az.dequeue_message w ≡ (ok [], w₁)
      → az.wait w₁ ≡ (none, w₂)
      → Arrives az n w₂ m w'
      → Arrives az (suc n) w m w'

-- What a poll has come to: a message that it has got has arrived.
pub data Came {W : Type 0} (az : QueueClient W) (rounds : ℕ) (w : W) : Polled → W → Type 0 where
  nothing_came : (w' : W) → Came az rounds w still_waiting w'
  ended : (e : GoError) (w' : W) → Came az rounds w (gave_up e) w'
  came :
      (n : ℕ) (m : QueueMessage) (w' : W)
      → n < rounds
      → Arrives az n w m w'
      → Came az rounds w (got m) w'

-- What the handler's answer asks for: a message that is handled or poison is deleted, and what the
-- deletion returns is returned; one whose handling failed is left in the queue.
pub data Treated {W : Type 0} (az : QueueClient W) (m : QueueMessage) (w : W)
    : Result HandlerError (Unit {0}) → Dequeued × W → Type 0 where
  handled_deleted :
      (r : Result GoError (Unit {0})) (w' : W)
      → az.delete_message m.message_id m.pop_receipt w ≡ (r, w')
      → Treated az m w (ok tt) (returned r, w')
  poison_deleted :
      (e : GoError) (r : Result GoError (Unit {0})) (w' : W)
      → az.delete_message m.message_id m.pop_receipt w ≡ (r, w')
      → Treated az m w (err (poison e)) (returned r, w')
  left_in_queue : (e : GoError) → Treated az m w (err (transient e)) (returned (ok tt), w)
  not_returned : (s : String) → Treated az m w (err (panicked s)) (crashed s, w)

module _ {W : Type 0} (az : QueueClient W) (handler : MessageHandler W) where
  poll-Arrives :
      (n rounds : ℕ) {w w' : W} {m : QueueMessage}
      → Arrives az n w m w'
      → n < rounds
      → poll az rounds w ≡ (got m, w')
  unfolding poll
  poll-Arrives n zero a l = ground arith
  poll-Arrives n (suc rounds) (now w w' m e) l = rw e refl
  poll-Arrives n (suc rounds) (later k w w₁ w₂ w' m e f a) l =
      rw (e, f) (poll-Arrives k rounds a (omega (arith, l)))

  receive-Treated :
      (m : QueueMessage) (w : W)
      → Treated az m (handler m.text w).1 (handler m.text w).0 (receive az handler m w)
  unfolding receive
  receive-Treated m w = answered (handler m.text w).0 (handler m.text w).1
    where
      answered :
          (r : Result HandlerError (Unit {0})) (w' : W)
          → Treated az m w' r (after_handler az m r w')
      answered (ok done) w' = handled_deleted _ _ refl
      answered (err (poison e)) w' = poison_deleted e _ _ refl
      answered (err (transient e)) w' = left_in_queue e
      answered (err (panicked s)) w' = not_returned s

  -- If a message arrives after some rounds, then `Dequeue`, with more rounds than those, hands it to the
  -- handler, in the world in which it arrived, and does what the answer asks for: it deletes the message
  -- if it was handled or is poison, leaves it in the queue if handling it failed, and panics if the
  -- handler did.
  pub dequeue-Treated :
      (n rounds : ℕ) {w w' : W} {m : QueueMessage}
      → Arrives az n w m w'
      → n < rounds
      → Treated az m (handler m.text w').1 (handler m.text w').0 (dequeue az rounds handler w)
  unfolding dequeue
  dequeue-Treated n rounds {w' = w'} {m = m} a l =
      rw (poll-Arrives n rounds a l) (receive-Treated m w')

module _ {W : Type 0} (az : QueueClient W) where
  wait-Came :
      (rounds : ℕ) (w w₁ : W) (next : W → Polled × W)
      → ((w : W) → Came az rounds w (next w).0 (next w).1)
      → az.dequeue_message w ≡ (ok [], w₁)
      → (o : Option GoError) (w₂ : W) → az.wait w₁ ≡ (o, w₂)
      → Came az (suc rounds) w (after_wait az next (o, w₂)).0 (after_wait az next (o, w₂)).1
  wait-Came rounds w w₁ next h e (some x) w₂ f = ended x w₂
  wait-Came rounds w w₁ next h e none w₂ f = longer (next w₂).0 (next w₂).1 (h w₂)
    where
      longer : (p : Polled) (w' : W) → Came az rounds w₂ p w' → Came az (suc rounds) w p w'
      longer _ _ (nothing_came w') = nothing_came w'
      longer _ _ (ended x w') = ended x w'
      longer _ _ (came n m w' l a) =
          came (suc n) m w' (omega (arith, l)) (later n w w₁ w₂ w' m e f a)

  dequeue_message-Came :
      (rounds : ℕ) (w : W) (next : W → Polled × W)
      → ((w : W) → Came az rounds w (next w).0 (next w).1)
      → (r : Result GoError (List QueueMessage)) (w₁ : W) → az.dequeue_message w ≡ (r, w₁)
      → Came az (suc rounds) w (after_dequeue az next r w₁).0 (after_dequeue az next r w₁).1
  dequeue_message-Came rounds w next h (err x) w₁ e = ended x w₁
  dequeue_message-Came rounds w next h (ok []) w₁ e =
      wait-Came rounds w w₁ next h e (az.wait w₁).0 (az.wait w₁).1 refl
  dequeue_message-Came rounds w next h (ok (m ∷ [])) w₁ e = came 0 m w₁ (omega arith) (now w w₁ m e)
  dequeue_message-Came rounds w next h (ok (m ∷ _ ∷ _)) w₁ e = ended _ w₁

  pub poll-Came : (rounds : ℕ) (w : W) → Came az rounds w (poll az rounds w).0 (poll az rounds w).1
  unfolding poll
  poll-Came zero w = nothing_came w
  poll-Came (suc rounds) w =
      dequeue_message-Came rounds w (poll az rounds) (poll-Came rounds) (az.dequeue_message w).0
        (az.dequeue_message w).1 refl
