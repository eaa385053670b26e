-- ===== src/Models/Sources.antt =====
-- `GetSourceURLs` of competition-api/cmd/server/internal/models/task.go.
use competition_api.Prelude.{ℕ, String, Option, none, some, Exec, pure, raise, ◌>>=◌}
use competition_api.WorkerErrors.{GoError, message}
use competition_api.Upload.{Uploader}
use competition_api.Models.Rows.{Source, TaskType, full, delta, Task}

-- The base repository is "" where there is none.
pub record PresignedSourceUrls : Type 0 where
  pub head_repo : String
  pub fuzz_tooling : String
  pub base_repo : String

module _ {W : Type 0} where
  unfoldable pub base_repo_url : TaskType → Option Source → Uploader W → ℕ → Exec W GoError String
  base_repo_url full source u duration = pure ""
  base_repo_url delta none u duration = raise (message "missing base repo")
  base_repo_url delta (some source) u duration = u.presigned_read_url source.url duration

  unfoldable pub get_source_urls : Task → Uploader W → ℕ → Exec W GoError PresignedSourceUrls
  get_source_urls t u duration = do
    head_repo ← u.presigned_read_url t.unstripped_source.head_repo.url duration
    fuzz_tooling ← u.presigned_read_url t.unstripped_source.fuzz_tooling.url duration
    base_repo ← base_repo_url t.task_type t.unstripped_source.base_repo u duration
    pure (record { head_repo = head_repo; fuzz_tooling = fuzz_tooling; base_repo = base_repo })
