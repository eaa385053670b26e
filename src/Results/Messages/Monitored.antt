-- ===== src/Results/Messages/Monitored.antt =====
-- One submission, seen while the queue of results is monitored.
use competition_api.Prelude.{ℕ, String, ◌≡◌, false, ok, Exec}
use competition_api.Types.Status.{JobType}
use competition_api.Types.Bundle.{Uuid}
use competition_api.Audit.{AuditLine}
use competition_api.Queue.{QueueClient}
use competition_api.Results.{FinalMessage}
use competition_api.Results.Views.{Seen, stays_accepted}
use competition_api.Results.Messages.{Body, MessageServer}

-- A step that the view does not see.
pub record Unseen {W E A : Type 0} (see : W → Seen) (m : Exec W E A) : Type 0 where
  pub at : (w : W) → see (m w).1 ≡ see w

-- The calls outside that have nothing to do with the rows and lines of results, and final messages with
-- the status of an ended evaluation.
pub record IsMonitored {W : Type 0} (az : QueueClient W) (h : MessageServer W) (see : W → Seen)
    : Type 0 where
  pub dequeues : Unseen see az.dequeue_message
  pub waits : (w : W) → see (az.wait w).1 ≡ see w
  pub deletes : (id receipt : String) → Unseen see (az.delete_message id receipt)
  pub fetches : (name : String) → Unseen see (h.fetch name)
  pub reads :
      (name : String) (w : W) (body : Body W)
      → (h.fetch name w).0 ≡ ok body
      → Unseen see body.read_all × ((w' : W) → see (body.close w') ≡ see w')
  pub identifies : Unseen see h.archiver.store_identifier
  pub uploads :
      (text : String) (size : ℕ) (name : String)
      → Unseen see (h.archiver.upload (h.bytes_reader text) size name)
  pub finds : (kind : JobType) (id : Uuid) → Unseen see (h.submission_by_id kind id)
  pub rounds : (task : Uuid) → Unseen see (h.round_id task)
  pub prints : (line : AuditLine) (w : W) → see (h.print_line line w) ≡ see w
  pub appends_artifacts : (id json : String) → Unseen see (h.append_artifacts id json)
  pub appends_results : (id json : String) → Unseen see (h.append_results id json)
  pub ended :
      (text : String) (msg : FinalMessage)
      → h.decode_final text ≡ ok msg
      → stays_accepted msg.status ≡ false
