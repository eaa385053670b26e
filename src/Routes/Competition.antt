-- ===== src/Routes/Competition.antt =====
-- competition-api/cmd/server/internal/routes/competition: cancel.go and budget.go.
use competition_api.Prelude.{
  ℕ, String, Option, none, some, List, Result, ok, err, Exec, pure, raise, lift, ◌>>=◌, ◌>>◌,
  str_append,
}
use competition_api.WorkerErrors.{GoError}
use competition_api.Types.Bundle.{Uuid}
use competition_api.Models.Rows.{Auth, Task}
use competition_api.Audit.{AuditLine}
use competition_api.Audit.Log.{log_out_of_budget}
use competition_api.Http.{HttpError, internal_server_error, bad_request, from_context}
use competition_api.Jobs.{JobConfig, Cluster, create_cancel_job}

pub record CompetitionHandler (W Team : Type 0) : Type 0 where
  pub job_config : JobConfig
  pub cluster : Cluster W Team
  pub teams : List Team
  pub round_id : String
  pub id_text : Uuid → String
  pub parse_id : String → Result GoError Uuid
  -- `Order("deadline DESC").First(task, "deadline > CURRENT_TIMESTAMP()")`: none if there is no such task
  pub last_task : Exec W GoError (Option Task)
  pub log : AuditLine → W → W

abbrev http_result : {A : Type 0} → HttpError → Result GoError A → Result HttpError A
http_result e (ok a) = ok a
http_result e (err x) = err e

abbrev or_http : {W A : Type 0} → HttpError → Exec W GoError A → Exec W HttpError A
or_http e m w = let (r, w') = m w in (http_result e r, w')

module _ {W Team : Type 0} (h : CompetitionHandler W Team) where
  -- The job that tells the teams, for both handlers.
  abbrev cancel : String → ℕ → Exec W HttpError (Unit {0})
  cancel route deadline =
      or_http internal_server_error
        (create_cancel_job h.cluster h.job_config route h.teams h.round_id deadline)

  -- `CancelTask`
  unfoldable pub cancel_task : Option Task → Exec W HttpError (Unit {0})
  cancel_task task_in_context = do
    task ← from_context task_in_context
    cancel (str_append "/v1/task/" (str_append (h.id_text task.id) "/")) task.deadline

  abbrev or_no_tasks : Option Task → Exec W HttpError Task
  or_no_tasks none = raise (bad_request "no tasks")
  or_no_tasks (some task) = pure task

  -- `CancelAllTasks`
  unfoldable pub cancel_all_tasks : Exec W HttpError (Unit {0})
  cancel_all_tasks = do
    found ← or_http internal_server_error h.last_task
    task ← or_no_tasks found
    cancel "/v1/task/" task.deadline

  abbrev logged : AuditLine → Exec W HttpError (Unit {0})
  logged line w = (ok tt, h.log line w)

  -- `OutOfBudget`, whose request names a competitor.
  unfoldable pub out_of_budget :
      Option Auth
      → (time_in_context : Option ℕ) → Exec W GoError String
      → (String → Result GoError (Unit {0}))
      → Exec W HttpError (Unit {0})
  out_of_budget auth_in_context time_in_context bind validate = do
    auth ← from_context auth_in_context
    time ← from_context time_in_context
    competitor ← or_http (bad_request "failed to parse request data") bind
    or_http (bad_request "validation error") (lift (validate competitor))
    id ← or_http internal_server_error (lift (h.parse_id competitor))
    logged (
        log_out_of_budget
          (record { round_id = h.round_id; team_id = some (h.id_text id); task_id = none }))
