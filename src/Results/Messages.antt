-- ===== src/Results/Messages.antt =====
-- The messages of workers, as competition-api/cmd/server/internal/jobs/queue_monitor.go handles them.
mod Mild
pub mod Poison
pub mod Monitored
use Prim.Native.String.{len}
use competition_api.Prelude.{
  ℕ, zero, suc, String, Bool, true, false, Option, none, some, List, [], ◌∷◌, Result, ok, err, Exec,
  pure, raise, act, lift, deferring, ◌>>=◌, ◌>>◌,
}
use competition_api.WorkerErrors.{GoError, message}
use competition_api.Types.Status.{JobType, pov, patch, job}
use competition_api.Types.Bundle.{Uuid}
use competition_api.Types.Worker.{MsgType, final, artifact, command_result, JobArtifact, JobResult}
use competition_api.Upload.{ReadSeeker, Uploader}
use competition_api.Audit.{AuditContext, AuditLine, FileArchivedEntity, entity_pov, entity_patch}
use competition_api.Audit.Log.{log_file_archived}
use competition_api.Queue.{
  HandlerError, poison, transient, panicked, MessageHandler, QueueClient, Dequeued, waiting,
  returned, crashed, dequeue,
}
use competition_api.Results.{Row, ResultServer, FinalMessage, as_transient, handle_final_message}

-- Messages as they are decoded: the entity is none if its text is no `JobType`.
pub record ArtifactMessage : Type 0 where
  pub entity : Option JobType
  pub entity_id : String
  pub artifact : JobArtifact

-- The pointer `Result` may be nil.
pub record ResultMessage : Type 0 where
  pub entity : Option JobType
  pub entity_id : String
  pub result : Option JobResult

-- `io.ReadCloser`
pub record Body (W : Type 0) : Type 0 where
  pub read_all : Exec W GoError String
  pub close : W → W

pub record MessageServer (W : Type 0) : Type 0 where
  pub result_server : ResultServer W
  pub open result_server use *
  -- `json.Unmarshal`, at the types of messages; a base message's type is none if its text is no type
  pub decode_base : String → Result GoError (Option MsgType)
  pub decode_artifact : String → Result GoError ArtifactMessage
  pub decode_result : String → Result GoError ResultMessage
  pub decode_final : String → Result GoError FinalMessage
  -- `json.Marshal`
  pub marshal_artifacts : List JobArtifact → Result GoError String
  pub marshal_result : JobResult → Result GoError String
  -- the updates that add to a job's columns, by the job's id
  pub append_artifacts : (entity_id json : String) → Exec W GoError (Unit {0})
  pub append_results : (entity_id json : String) → Exec W GoError (Unit {0})
  pub fetch : String → Exec W GoError (Body W)
  pub archiver : Uploader W
  -- `bytes.NewReader`
  pub bytes_reader : String → ReadSeeker W
  -- `ByID` for a submission
  pub submission_by_id : JobType → Uuid → Exec W GoError Row
  pub id_text : Uuid → String
  pub print_line : AuditLine → W → W

abbrev pub failing : {W A : Type 0} → Exec W GoError A → Exec W HandlerError A
failing m w = let (r, w') = m w in (as_transient r, w')

abbrev or_default : {A : Type 0} → A → Result GoError A → A
or_default default (ok a) = a
or_default default (err e) = default

-- A failed call that is only traced; `default` is what its error comes with.
abbrev pub ignoring : {W A : Type 0} → A → Exec W GoError A → Exec W HandlerError A
ignoring default m w = let (r, w') = m w in (ok (or_default default r), w')

abbrev pub or_poison : {A : Type 0} → Result GoError A → Result HandlerError A
or_poison (ok a) = ok a
or_poison (err e) = err (poison e)

-- `uuid.MustParse`
abbrev pub or_panic : {A : Type 0} → Result GoError A → Result HandlerError A
or_panic (ok a) = ok a
or_panic (err e) = err (panicked "uuid: Parse")

module _ {W : Type 0} (h : MessageServer W) where
  abbrev pub context_of : Row → String → AuditContext
  context_of row round = record {
    team_id = some (h.id_text row.submitter_id);
    task_id = some (h.id_text row.task_id);
    round_id = round;
  }

  -- The artifact of a submission: fetched, stored and logged.
  unfoldable pub archive_artifact :
      JobType → FileArchivedEntity → ArtifactMessage → Exec W HandlerError (Unit {0})
  archive_artifact kind entity msg = do
    body ← failing (h.fetch msg.artifact.blob.object_name)
    deferring body.close (do
      buffer ← failing body.read_all
      store ← ignoring "" h.archiver.store_identifier
      failing (h.archiver.upload (h.bytes_reader buffer) (len buffer) msg.artifact.blob.object_name)
      id ← lift (or_panic (h.parse_id msg.entity_id))
      row ← failing (h.submission_by_id kind id)
      round ← failing (h.round_id row.task_id)
      act (
          h.print_line (
            log_file_archived (context_of row round) store msg.artifact.blob.object_name
              msg.artifact.archived_file entity msg.entity_id)))

  -- `HandleArtifactMessage`, by the message's entity
  unfoldable pub handle_artifact_message :
      Option JobType → ArtifactMessage → Exec W HandlerError (Unit {0})
  unfolding archive_artifact
  handle_artifact_message none msg = pure tt
  handle_artifact_message (some job) msg = do
    meta_json ← failing (lift (h.marshal_artifacts (msg.artifact ∷ [])))
    failing (h.append_artifacts msg.entity_id meta_json)
  handle_artifact_message (some pov) msg = archive_artifact pov entity_pov msg
  handle_artifact_message (some patch) msg = archive_artifact patch entity_patch msg

  abbrev pub store_result : String → Option JobResult → Exec W HandlerError (Unit {0})
  store_result id none = raise (transient (message "empty command result message"))
  store_result id (some result) = do
    cmd_result_json ← failing (lift (h.marshal_result result))
    failing (h.append_results id cmd_result_json)

  -- `HandleCommandResultMessage`, by the message's entity: only jobs keep their results.
  unfoldable pub handle_command_result_message :
      Option JobType → ResultMessage → Exec W HandlerError (Unit {0})
  handle_command_result_message none msg = pure tt
  handle_command_result_message (some pov) msg = pure tt
  handle_command_result_message (some patch) msg = pure tt
  handle_command_result_message (some job) msg = store_result msg.entity_id msg.result

  abbrev pub handle_typed : Option MsgType → MessageHandler W
  handle_typed none text = raise (poison (message "queue message type not found"))
  handle_typed (some artifact) text = do
    msg ← lift (or_poison (h.decode_artifact text))
    handle_artifact_message msg.entity msg
  handle_typed (some command_result) text = do
    msg ← lift (or_poison (h.decode_result text))
    handle_command_result_message msg.entity msg
  handle_typed (some final) text = do
    msg ← lift (or_poison (h.decode_final text))
    handle_final_message h.result_server msg

  -- `Handle`
  unfoldable pub handle : MessageHandler W
  unfolding handle_artifact_message handle_command_result_message
  handle text = do msg_type ← lift (or_poison (h.decode_base text)); handle_typed msg_type text

-- What the loop over a queue has come to after some messages.
pub data Monitoring : Type 0 where
  running cancelled : Monitoring
  dead : String → Monitoring

module _ {W : Type 0} (az : QueueClient W) (h : MessageServer W) (context_done : W → Bool) where
  abbrev pub unless_done : Bool → (W → Monitoring × W) → W → Monitoring × W
  unless_done true next w = (cancelled, w)
  unless_done false next w = next w

  abbrev pub after_message : (W → Monitoring × W) → Dequeued → W → Monitoring × W
  after_message next waiting w = (running, w)
  after_message next (returned r) w = unless_done (context_done w) next w
  after_message next (crashed s) w = (dead s, w)

  -- `MonitorResultsQueue`, for so many messages, each waited for so many rounds.
  unfoldable pub monitor_results_queue : (rounds messages : ℕ) → W → Monitoring × W
  unfolding handle
  monitor_results_queue rounds zero w = (running, w)
  monitor_results_queue rounds (suc messages) w =
      let (d, w') = dequeue az rounds (handle h) w in
      after_message (monitor_results_queue rounds messages) d w'
