-- ===== src/Results/Messages/Mild.antt =====
-- Steps of the handler of messages whose error is never poison.
use Prim.Native.String.{len}
use competition_api.Prelude.{
  String, ◌≡◌, Option, none, some, [], ◌∷◌, Result, ok, err, Exec, pure, lift, act, continue,
  deferring, ◌>>=◌,
}
use competition_api.WorkerErrors.{GoError}
use competition_api.Types.Status.{JobType, pov, patch, job}
use competition_api.Types.Bundle.{Uuid}
use competition_api.Types.Worker.{JobResult}
use competition_api.Audit.{FileArchivedEntity, entity_pov, entity_patch}
use competition_api.Audit.Log.{log_file_archived}
use competition_api.Queue.{HandlerError, poison}
use competition_api.Results.{
  Row, FinalMessage, as_transient, report_row, after_final_update, final_transaction, final_update,
}
use competition_api.Results.Messages.{
  ArtifactMessage, ResultMessage, MessageServer, context_of, failing, ignoring, or_panic,
  store_result, archive_artifact, handle_artifact_message, handle_command_result_message,
}

-- A step whose error is never poison.
pub record Mild {W A : Type 0} (m : Exec W HandlerError A) : Type 0 where
  pub at : (w : W) (e : GoError) → (m w).0 ≡ err (poison e) → ⊥

module _ {W A : Type 0} where
  Mild-failing : (m : Exec W GoError A) → Mild (failing m)
  Mild-failing m = record { at = λ w. from (m w).0 }
    where
      from : (r : Result GoError A) (e : GoError) → as_transient r ≡ err (poison e) → ⊥
      from (ok a) e q = cc
      from (err x) e q = cc

  Mild-ignoring : (a : A) (m : Exec W GoError A) → Mild (ignoring a m)
  Mild-ignoring a m = record { at = λ w e q. cc }

  Mild-pure : (a : A) → Mild {W = W} (pure a)
  Mild-pure a = record { at = λ w e q. cc }

  Mild-panic : (r : Result GoError A) → Mild {W = W} (lift (or_panic r))
  Mild-panic (ok a) = record { at = λ w e q. cc }
  Mild-panic (err x) = record { at = λ w e q. cc }

  Mild-deferring : (f : W → W) (m : Exec W HandlerError A) → Mild m → Mild (deferring f m)
  Mild-deferring f m h = record { at = λ w. h.at w }

Mild-act : {W : Type 0} (f : W → W) → Mild (act f)
Mild-act f = record { at = λ w e q. cc }

module _ {W A B : Type 0} where
  Mild-bind :
      (m : Exec W HandlerError A) (f : A → Exec W HandlerError B)
      → Mild m
      → ((a : A) → Mild (f a))
      → Mild (m >>= f)
  Mild-bind m f hm hf = record { at = λ w. from (m w).0 (m w).1 (hm.at w) }
    where
      from :
          (r : Result HandlerError A) (w : W)
          → ((e : GoError) → r ≡ err (poison e) → ⊥)
          → (e : GoError) → (continue r f w).0 ≡ err (poison e)
          → ⊥
      from (ok a) w k e q = (hf a).at w e q
      from (err x) w k e q = k e cc

module _ {W : Type 0} (h : MessageServer W) where
  archive_artifact-Mild :
      (kind : JobType) (entity : FileArchivedEntity) (msg : ArtifactMessage)
      → Mild (archive_artifact h kind entity msg)
  unfolding archive_artifact
  archive_artifact-Mild kind entity msg =
      Mild-bind (failing (h.fetch msg.artifact.blob.object_name)) _ (Mild-failing _) λ body.
        Mild-deferring body.close _ (
          Mild-bind (failing body.read_all) _ (Mild-failing _) λ buffer.
            Mild-bind (ignoring "" h.archiver.store_identifier) _
              (Mild-ignoring "" h.archiver.store_identifier)
              λ store.
                Mild-bind _ _
                  (Mild-failing (
                    h.archiver.upload (h.bytes_reader buffer) (len buffer)
                      msg.artifact.blob.object_name))
                  λ _. Mild-bind _ _ (Mild-panic (h.parse_id msg.entity_id)) λ id.
                    Mild-bind _ _ (Mild-failing (h.submission_by_id kind id)) λ row.
                      Mild-bind _ _ (Mild-failing (h.round_id row.task_id)) λ round. Mild-act (
                        h.print_line (
                          log_file_archived (context_of h row round) store
                            msg.artifact.blob.object_name msg.artifact.archived_file entity
                            msg.entity_id)))

  pub handle_artifact_message-Mild :
      (entity : Option JobType) (msg : ArtifactMessage)
      → Mild (handle_artifact_message h entity msg)
  unfolding handle_artifact_message
  handle_artifact_message-Mild none msg = Mild-pure tt
  handle_artifact_message-Mild (some job) msg =
      Mild-bind _ _ (Mild-failing (lift (h.marshal_artifacts (msg.artifact ∷ []))))
        λ json. Mild-failing (h.append_artifacts msg.entity_id json)
  handle_artifact_message-Mild (some pov) msg = archive_artifact-Mild pov entity_pov msg
  handle_artifact_message-Mild (some patch) msg = archive_artifact-Mild patch entity_patch msg

  store_result-Mild : (id : String) (result : Option JobResult) → Mild (store_result h id result)
  store_result-Mild id none = record { at = λ w e q. cc }
  store_result-Mild id (some result) =
      Mild-bind _ _ (Mild-failing (lift (h.marshal_result result)))
        λ json. Mild-failing (h.append_results id json)

  pub handle_command_result_message-Mild :
      (entity : Option JobType) (msg : ResultMessage)
      → Mild (handle_command_result_message h entity msg)
  unfolding handle_command_result_message
  handle_command_result_message-Mild none msg = Mild-pure tt
  handle_command_result_message-Mild (some pov) msg = Mild-pure tt
  handle_command_result_message-Mild (some patch) msg = Mild-pure tt
  handle_command_result_message-Mild (some job) msg = store_result-Mild msg.entity_id msg.result

  -- What a decoded final message comes to.
  report_row-Mild : (kind : JobType) (row : Row) → Mild (report_row h.result_server kind row)
  unfolding report_row
  report_row-Mild job row = Mild-pure tt
  report_row-Mild pov row =
      Mild-bind (failing (h.round_id row.task_id)) _ (Mild-failing (h.round_id row.task_id))
        λ round. record { at = λ w e q. cc }
  report_row-Mild patch row =
      Mild-bind (failing (h.round_id row.task_id)) _ (Mild-failing (h.round_id row.task_id))
        λ round. record { at = λ w e q. cc }

  after_final_update-Mild :
      (kind : JobType) (r : Result GoError (Option Row))
      → Mild (after_final_update h.result_server kind r)
  after_final_update-Mild kind (err e) = Mild-pure tt
  after_final_update-Mild kind (ok none) = Mild-pure tt
  after_final_update-Mild kind (ok (some row)) = report_row-Mild kind row

  pub final_transaction-Mild :
      (kind : JobType) (id : Uuid) (msg : FinalMessage)
      → Mild (final_transaction h.result_server (some kind) id msg)
  unfolding final_transaction
  final_transaction-Mild kind id msg = record {
    at = λ w.
        (after_final_update-Mild kind (h.update_accepted kind id (final_update kind msg) w).0).at
          (h.update_accepted kind id (final_update kind msg) w).1;
  }
