-- ===== src/WorkerQueue.antt =====
-- competition-api/cmd/worker/internal/workerqueue/worker_queuer.go: messages in the name of the
-- entity under evaluation.
use competition_api.Prelude.{String, Bool, some, Exec}
use competition_api.WorkerErrors.{GoError}
use competition_api.Types.Status.{SubmissionStatus, JobType}
use competition_api.Types.Worker.{
  JobArtifact, JobResult, Message, artifact_msg, command_result_msg, final_msg,
  new_worker_msg_artifact, new_worker_msg_command_result, new_worker_msg_final,
}

-- `enqueue` is the method of `queue.Queuer`.
pub record WorkerQueuer (W : Type 0) : Type 0 where
  pub enqueue : Message → Exec W GoError (Unit {0})
  pub entity_id : String
  pub entity_type : JobType

module _ {W : Type 0} where
  unfoldable pub send_artifact : WorkerQueuer W → JobArtifact → Exec W GoError (Unit {0})
  unfolding new_worker_msg_artifact
  send_artifact q a = q.enqueue (artifact_msg (new_worker_msg_artifact q.entity_type q.entity_id a))

  unfoldable pub send_command_result : WorkerQueuer W → JobResult → Exec W GoError (Unit {0})
  unfolding new_worker_msg_command_result
  send_command_result q r =
      q.enqueue
        (command_result_msg (new_worker_msg_command_result q.entity_type q.entity_id (some r)))

  unfoldable pub send_final_message :
      WorkerQueuer W → SubmissionStatus → Bool → Exec W GoError (Unit {0})
  unfolding new_worker_msg_final
  send_final_message q status patch_tests_failed =
      q.enqueue (
        final_msg (new_worker_msg_final q.entity_type q.entity_id status (some patch_tests_failed)))
