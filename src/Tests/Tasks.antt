-- ===== src/Tests/Tasks.antt =====
-- A request for a task whose round is configured.
use competition_api.Prelude.{String, ◌⊎◌, true, some, Result, ok, Exec, pure}
use competition_api.WorkerErrors.{GoError}
use competition_api.Types.Bundle.{Uuid}
use competition_api.Models.Rows.{Auth, Task}
use competition_api.Http.{HttpError}
use competition_api.Middleware.{DbError, crs_permissions}
use competition_api.Tests.Fixtures.{sample_task}
use competition_api.Middleware.TaskGroup.{LetsThrough, Refused, task_group-cases}

abbrev parse_id : String → Result GoError Uuid
parse_id text = ok 5

abbrev final_task : Task
final_task = sample_task

-- The world is the last id that was looked up.
abbrev task_by_id : Uuid → Exec Uuid DbError Task
task_by_id id w = (ok final_task, id)

abbrev caller : Auth
caller = record {
  id = 3;
  token = "hash";
  note = "team";
  permissions = crs_permissions;
  active = some true;
}

abbrev answer : Task → Exec Uuid HttpError Uuid
answer task = pure task.id

task_group-cases_example :
    LetsThrough parse_id task_by_id "final" "generated" answer (some caller) "5" 0
    ⊎ Refused parse_id task_by_id "final" "generated" answer (some caller) "5" 0
task_group-cases_example =
    task_group-cases parse_id task_by_id "final" "generated" answer (some caller) "5" 0
