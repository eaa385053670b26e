-- ===== src/Routes/Context.antt =====
-- What the handlers of competition-api/cmd/server/internal/routes/v1 share: the deadline of a task and
-- the context of their audit lines.
use competition_api.Prelude.{ℕ, String, Bool, some, ltb, if◌then◌else◌}
use competition_api.Types.Status.{SubmissionStatus, accepted, deadline_exceeded}
use competition_api.Types.Bundle.{Uuid}
use competition_api.Models.Rows.{Auth, Task}
use competition_api.Audit.{AuditContext}

-- `requestTime.After(task.Deadline)`
abbrev pub is_late : ℕ → Task → Bool
is_late time task = ltb task.deadline time

-- The status of a new submission.
abbrev pub status_at : ℕ → Task → SubmissionStatus
status_at time task = if is_late time task then deadline_exceeded else accepted

abbrev pub audit_context : (Uuid → String) → Auth → Task → AuditContext
audit_context id_text auth task = record {
  team_id = some (id_text auth.id);
  task_id = some (id_text task.id);
  round_id = task.round_id;
}
