-- ===== src/Queue/Kept.antt =====
-- No message is lost.
use mathlib.Core.List.{Mem}
use competition_api.Prelude.{
  ℕ, ◌<◌, String, ◌≡◌, refl, sym, subst, ◌⊎◌, inl, inr, List, Result, ok, err,
}
use competition_api.WorkerErrors.{GoError}
use competition_api.Queue.Polling.{poll_keeps}
use competition_api.Queue.Arriving.{Arrives, Came, nothing_came, ended, came, poll-Came}
use competition_api.Queue.{
  HandlerError, poison, transient, panicked, MessageHandler, QueueMessage, QueueClient, Polled,
  poll, remove, after_handler, receive, after_poll, dequeue,
}

-- What is documented of a queue, `messages` being those that are not deleted, hidden or not; and that a
-- handler does not touch them.
pub record IsQueue {W : Type 0} (az : QueueClient W) (handler : MessageHandler W)
    (messages : W → List QueueMessage) : Type 0 where
  pub dequeue_keeps : (w : W) → messages (az.dequeue_message w).1 ≡ messages w
  pub wait_keeps : (w : W) → messages (az.wait w).1 ≡ messages w
  pub handler_keeps : (text : String) (w : W) → messages (handler text w).1 ≡ messages w
  pub deletes_one :
      (id receipt : String) (x : QueueMessage) (w : W)
      → Mem x (messages w)
      → (x.message_id ≡ id) ⊎ Mem x (messages (az.delete_message id receipt w).1)

-- The handler's answer settles a message: it is done with, or it is poison.
pub data Settles : Result HandlerError (Unit {0}) → Type 0 where
  handled : Settles (ok tt)
  poisoned : (e : GoError) → Settles (err (poison e))

-- The message that the queue delivered first, from the world `w` on and within some rounds, has this id,
-- and the handler's answer to it, in the world in which it was delivered, settled it.
pub record IsSettled {W : Type 0} (az : QueueClient W) (handler : MessageHandler W) (rounds : ℕ)
    (w : W) (x : QueueMessage) : Type 0 where
  pub waited : ℕ
  pub in_time : waited < rounds
  pub delivered : QueueMessage
  pub before : W
  pub arrived : Arrives az waited w delivered before
  pub same_id : x.message_id ≡ delivered.message_id
  pub settled : Settles (handler delivered.text before).0

module _ {W : Type 0} (az : QueueClient W) (handler : MessageHandler W)
    (messages : W → List QueueMessage) (queue : IsQueue az handler messages) where
  -- What becomes of a message `x` when `m` has been handed to the handler in `before`.
  abbrev Kept : (m x : QueueMessage) (before w : W) → Type 0
  Kept m x before w =
      Mem x (messages w) ⊎ ((x.message_id ≡ m.message_id) × Settles (handler m.text before).0)

  remove-Kept :
      (m x : QueueMessage) (before w : W)
      → Settles (handler m.text before).0
      → Mem x (messages w)
      → Kept m x before (remove az m w).1
  remove-Kept m x before w s i = swapped (queue.deletes_one m.message_id m.pop_receipt x w i)
    where
      swapped :
          (x.message_id ≡ m.message_id)
            ⊎ Mem x (messages (az.delete_message m.message_id m.pop_receipt w).1)
          → Kept m x before (remove az m w).1
      swapped (inl e) = inr (e, s)
      swapped (inr j) = inl j

  receive-Kept :
      (m x : QueueMessage) (w : W) → Mem x (messages w) → Kept m x w (receive az handler m w).1
  unfolding receive
  receive-Kept m x w i =
      answered (handler m.text w).0 refl (subst (Mem x) (sym (queue.handler_keeps m.text w)) i)
    where
      answered :
          (r : Result HandlerError (Unit {0}))
          → (handler m.text w).0 ≡ r
          → Mem x (messages (handler m.text w).1)
          → Kept m x w (after_handler az m r (handler m.text w).1).1
      answered (ok done) e j =
          remove-Kept m x w (handler m.text w).1 (subst Settles (sym e) handled) j
      answered (err (poison g)) e j =
          remove-Kept m x w (handler m.text w).1 (subst Settles (sym e) (poisoned g)) j
      answered (err (transient g)) e j = inl j
      answered (err (panicked s)) e j = inl j

  -- A message that was in the queue before `Dequeue` is in it after, however the queue, the handler and
  -- the context behave, unless it has the id of the message that `Dequeue` was given by the queue, and
  -- the handler, to which that was handed, handled it or found it to be poison; while the queue behaves
  -- as documented and the handler does not touch it.
  pub dequeue-Kept :
      (rounds : ℕ) (x : QueueMessage) (w : W)
      → Mem x (messages w)
      → Mem x (messages (dequeue az rounds handler w).1) ⊎ IsSettled az handler rounds w x
  unfolding dequeue
  dequeue-Kept rounds x w i =
      polled (poll az rounds w).0 (poll az rounds w).1 (poll-Came az rounds w) (
        subst (Mem x) (sym (poll_keeps az messages queue.dequeue_keeps queue.wait_keeps rounds w))
          i)
    where
      given :
          (n : ℕ) (m : QueueMessage) (w' : W)
          → n < rounds
          → Arrives az n w m w'
          → Kept m x w' (receive az handler m w').1
          → Mem x (messages (receive az handler m w').1) ⊎ IsSettled az handler rounds w x
      given n m w' l a (inl j) = inl j
      given n m w' l a (inr (same, settled)) = inr (record {
        waited = n;
        in_time = l;
        delivered = m;
        before = w';
        arrived = a;
        same_id = same;
        settled = settled;
      })

      polled :
          (p : Polled) (w' : W)
          → Came az rounds w p w'
          → Mem x (messages w')
          → Mem x (messages (after_poll az handler p w').1) ⊎ IsSettled az handler rounds w x
      polled _ _ (nothing_came w') j = inl j
      polled _ _ (ended e w') j = inl j
      polled _ _ (came n m w' l a) j = given n m w' l a (receive-Kept m x w' j)
