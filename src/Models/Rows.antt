-- ===== src/Models/Rows.antt =====
-- The rows of a team's key and of a task: competition-api/cmd/server/internal/models/auth.go, task.go.
use competition_api.Prelude.{ℕ, String, Bool, Option, List}
use competition_api.Types.Bundle.{Uuid}

pub record Permissions : Type 0 where
  pub crs : Bool
  pub competition_management : Bool
  pub job_runner : Bool

-- `Token` is a hash; a column of `datatypes.Null` is null or a value.
pub record Auth : Type 0 where
  pub id : Uuid
  pub token : String
  pub note : String
  pub permissions : Permissions
  pub active : Option Bool

pub record Source : Type 0 where
  pub kind : String
  pub url : String
  pub sha256 : String

-- The pointer `BaseRepo` may be nil.
pub record UnstrippedSources : Type 0 where
  pub base_repo : Option Source
  pub head_repo : Source
  pub fuzz_tooling : Source

pub data TaskType : Type 0 where
  full delta : TaskType

-- Times are counted in one unit from one start.
pub record Task : Type 0 where
  pub id : Uuid
  pub unstripped_source : UnstrippedSources
  pub deadline : ℕ
  pub task_type : TaskType
  pub round_id : String
  pub project_name : String
  pub focus : String
  pub commit : String
  pub source : List Source
  pub memory_gb : ℕ
  pub cpus : ℕ
  pub harnesses_included : Bool
