-- ===== src/Results.antt =====
-- The two ways in which a result reaches a submission: the worker's final message
-- (competition-api/cmd/server/internal/jobs/queue_monitor.go) and the end of the worker's job
-- (competition-api/cmd/server/internal/jobs/controller.go).
pub mod Views
pub mod Once
pub mod Unset
pub mod Rows
pub mod Messages
use competition_api.Prelude.{
  String, Bool, true, false, not, ◌&&◌, Option, none, some, List, [], ◌∷◌, Result, ok, err, Exec,
  pure, raise, act, continue, ◌>>◌, if◌then◌else◌,
}
use competition_api.WorkerErrors.{GoError, message, wrapped}
use competition_api.Types.Status.{StatusText, known, is_failed_text, errored, JobType, pov, job}
use competition_api.Types.Bundle.{Uuid}
use competition_api.Queue.{HandlerError, poison, transient}

-- The columns of `pov_submission`, `patch_submission` and `job` that results change or report.
pub record Row : Type 0 where
  pub id : Uuid
  pub submitter_id : Uuid
  pub task_id : Uuid
  pub status : StatusText
  pub functionality_tests_passing : Option Bool

-- What `Updates` sets: a column is left alone whose value is the zero value, the empty text or none.
pub record Update : Type 0 where
  pub status : StatusText
  pub functionality_tests_passing : Option Bool

-- The audit line of a result: `AuditLogSubmissionResult`.
pub record ResultLine : Type 0 where
  pub kind : JobType
  pub round_id : String
  pub row : Row

pub record ResultServer (W : Type 0) : Type 0 where
  -- `UPDATE … WHERE id = ? AND status = 'accepted' RETURNING *`: the row, or none if none was
  -- affected
  pub update_accepted : JobType → Uuid → Update → Exec W GoError (Option Row)
  -- `GetRoundIDForSubmission`, by the submission's task
  pub round_id : Uuid → Exec W GoError String
  pub log_result : ResultLine → W → W
  -- `db.Transaction`
  pub transaction : Exec W HandlerError (Unit {0}) → Exec W HandlerError (Unit {0})
  -- `uuid.Parse`
  pub parse_id : String → Result GoError Uuid
  -- the deletion of the job in the cluster
  pub delete_job : String → Exec W GoError (Unit {0})

-- A final message as it is decoded: the entity is none if its text is no `JobType`, and the status is
-- empty if the message has none.
pub record FinalMessage : Type 0 where
  pub entity : Option JobType
  pub entity_id : String
  pub status : StatusText
  pub patch_tests_failed : Bool

-- The conditions of a job in the cluster that are true.
pub data Condition : Type 0 where
  job_failed job_complete other_condition : Condition

pub record ClusterJob : Type 0 where
  pub name : String
  pub conditions : List Condition
  -- the labels
  pub object_id : String
  pub job_type : Option JobType

abbrev pub is_job_failed : List Condition → Bool
is_job_failed [] = false
is_job_failed (job_failed ∷ cs) = true
is_job_failed (_ ∷ cs) = is_job_failed cs

abbrev pub is_job_complete : List Condition → Bool
is_job_complete [] = false
is_job_complete (job_complete ∷ cs) = true
is_job_complete (_ ∷ cs) = is_job_complete cs

-- `testsFailed`
abbrev pub tests_failed : FinalMessage → Bool
tests_failed msg = if is_failed_text msg.status then msg.patch_tests_failed else false

abbrev pub final_update : JobType → FinalMessage → Update
final_update pov msg = record { status = msg.status; functionality_tests_passing = none }
final_update _ msg = record {
  status = msg.status;
  functionality_tests_passing = some (not (tests_failed msg));
}

abbrev pub errored_update : Update
errored_update = record { status = known errored; functionality_tests_passing = none }

module _ {A : Type 0} where
  abbrev pub as_transient : Result GoError A → Result HandlerError A
  as_transient (ok a) = ok a
  as_transient (err e) = err (transient e)

module _ {W : Type 0} (h : ResultServer W) where
  -- What follows an update that affected a row: a submission's result is logged, a job's is not.
  unfoldable pub report_row : JobType → Row → Exec W HandlerError (Unit {0})
  report_row job row w = (ok tt, w)
  report_row kind row w =
      let (r, w') = h.round_id row.task_id w in
      continue (as_transient r)
        (λ round. act (h.log_result (record { kind = kind; round_id = round; row = row }))) w'

  abbrev pub report_affected : JobType → Option Row → Exec W HandlerError (Unit {0})
  report_affected kind none = pure tt
  report_affected kind (some row) = report_row kind row

  -- An error of the update in a final message: `return err`, where `err` is that of `uuid.Parse`, nil.
  abbrev pub after_final_update :
      JobType → Result GoError (Option Row) → Exec W HandlerError (Unit {0})
  after_final_update kind (err e) = pure tt
  after_final_update kind (ok affected) = report_affected kind affected

  -- The function that the transaction runs for a final message.
  unfoldable pub final_transaction :
      Option JobType → Uuid → FinalMessage → Exec W HandlerError (Unit {0})
  unfolding report_row
  final_transaction none id msg w = (err (poison (message "unsupported entity")), w)
  final_transaction (some kind) id msg w =
      let (r, w') = h.update_accepted kind id (final_update kind msg) w in
      after_final_update kind r w'

  abbrev pub with_final_id : FinalMessage → Result GoError Uuid → Exec W HandlerError (Unit {0})
  with_final_id msg (err e) = raise (poison (wrapped "failed to parse entity ID as UUID" e))
  with_final_id msg (ok id) = h.transaction (final_transaction msg.entity id msg)

  -- `HandleFinalMessage`
  unfoldable pub handle_final_message : FinalMessage → Exec W HandlerError (Unit {0})
  unfolding final_transaction
  handle_final_message msg = with_final_id msg (h.parse_id msg.entity_id)

  abbrev pub after_errored_update :
      JobType → Result GoError (Option Row) → Exec W HandlerError (Unit {0})
  after_errored_update kind (err e) = raise (transient e)
  after_errored_update kind (ok affected) = report_affected kind affected

  abbrev pub with_job_id : Option JobType → Result GoError Uuid → Exec W HandlerError (Unit {0})
  with_job_id (some kind) (ok id) w =
      let (r, w') = h.update_accepted kind id errored_update w in after_errored_update kind r w'
  with_job_id _ _ w = (ok tt, w)

  -- The function that the transaction runs for a failed job.
  unfoldable pub failed_job : ClusterJob → Exec W HandlerError (Unit {0})
  unfolding report_row
  failed_job j = with_job_id j.job_type (h.parse_id j.object_id)

  abbrev pub finish_job : ClusterJob → Exec W HandlerError (Unit {0})
  finish_job j w = let (r, w') = h.delete_job j.name w in (as_transient r, w')

  -- `handleJobUpdate`
  unfoldable pub handle_job_update : ClusterJob → Exec W HandlerError (Unit {0})
  unfolding failed_job
  handle_job_update j =
      if not (is_job_failed j.conditions) && not (is_job_complete j.conditions)
      then pure tt
      else (do
        if is_job_failed j.conditions then h.transaction (failed_job j) else pure tt
        finish_job j)
