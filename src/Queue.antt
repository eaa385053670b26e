-- ===== src/Queue.antt =====
-- competition-api/internal/queue: queuer.go and azure.go, a queue in the cloud whose messages stay in
-- it, hidden for a while, until they are deleted.
pub mod Polling
pub mod Arriving
pub mod Kept
use competition_api.Prelude.{
  ℕ, zero, suc, String, Option, none, some, List, [], ◌∷◌, Result, ok, err, Exec, lift, pure, ◌>>=◌,
  ◌>>◌,
}
use competition_api.WorkerErrors.{GoError, message}

-- An error, `transient`, or one wrapped by `WrapPoisonError`, which takes a message off the queue, or a
-- panic.
pub data HandlerError : Type 0 where
  poison : GoError → HandlerError
  transient : GoError → HandlerError
  panicked : String → HandlerError

-- `MessageHandler`
abbrev pub MessageHandler : Type 0 → Type 0
MessageHandler W = String → Exec W HandlerError (Unit {0})

pub record QueueMessage : Type 0 where
  pub message_id : String
  pub pop_receipt : String
  pub text : String

-- What the queuer calls of the cloud's library. `wait` is the select of half a minute: the error of the
-- context, if that is done first.
pub record QueueClient (W : Type 0) : Type 0 where
  pub dequeue_message : Exec W GoError (List QueueMessage)
  pub delete_message : (message_id pop_receipt : String) → Exec W GoError (Unit {0})
  pub enqueue_message : String → Exec W GoError (Unit {0})
  pub wait : W → Option GoError × W

-- Where the loop for a message stands after some rounds.
pub data Polled : Type 0 where
  still_waiting : Polled
  got : QueueMessage → Polled
  gave_up : GoError → Polled

-- What a call of `Dequeue` has come to.
pub data Dequeued : Type 0 where
  waiting : Dequeued
  returned : Result GoError (Unit {0}) → Dequeued
  crashed : String → Dequeued

module _ {W : Type 0} (az : QueueClient W) where
  -- `Enqueue`; `marshal` is `json.Marshal`.
  unfoldable pub enqueue :
      {A : Type 0} → (marshal : A → Result GoError String) → A → Exec W GoError (Unit {0})
  enqueue marshal content = do text ← lift (marshal content); az.enqueue_message text

  abbrev pub after_wait : (W → Polled × W) → Option GoError × W → Polled × W
  after_wait next (none, w) = next w
  after_wait next (some e, w) = (gave_up e, w)

  abbrev pub after_dequeue : (W → Polled × W) → Result GoError (List QueueMessage) → W → Polled × W
  after_dequeue next (err e) w = (gave_up e, w)
  after_dequeue next (ok []) w = after_wait next (az.wait w)
  after_dequeue next (ok (m ∷ [])) w = (got m, w)
  after_dequeue next (ok (m ∷ _ ∷ _)) w = (gave_up (message "unexpected number of messages"), w)

  -- At most so many rounds of the loop.
  unfoldable pub poll : ℕ → W → Polled × W
  poll zero w = (still_waiting, w)
  poll (suc rounds) w = let (r, w') = az.dequeue_message w in after_dequeue (poll rounds) r w'

  abbrev pub remove : QueueMessage → W → Dequeued × W
  remove m w = let (r, w') = az.delete_message m.message_id m.pop_receipt w in (returned r, w')

  -- A message whose handler fails goes back when its time is up.
  abbrev pub after_handler : QueueMessage → Result HandlerError (Unit {0}) → W → Dequeued × W
  after_handler m (ok x) w = remove m w
  after_handler m (err (poison e)) w = remove m w
  after_handler m (err (transient e)) w = (returned (ok tt), w)
  after_handler m (err (panicked s)) w = (crashed s, w)

  unfoldable pub receive : MessageHandler W → QueueMessage → W → Dequeued × W
  receive handler m w = let (r, w') = handler m.text w in after_handler m r w'

  abbrev pub after_poll : MessageHandler W → Polled → W → Dequeued × W
  after_poll handler still_waiting w = (waiting, w)
  after_poll handler (got m) w = receive handler m w
  after_poll handler (gave_up e) w = (returned (err e), w)

  -- `Dequeue`
  unfoldable pub dequeue : ℕ → MessageHandler W → W → Dequeued × W
  unfolding receive poll
  dequeue rounds handler w = let (p, w') = poll rounds w in after_poll handler p w'
