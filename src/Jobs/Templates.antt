-- ===== src/Jobs/Templates.antt =====
-- What competition-api/cmd/server/internal/jobs/templates renders as jobs of the cluster.
use competition_api.Prelude.{ℕ, String, Option, none, some, List, [], ◌∷◌, str_eq, if◌then◌else◌}

-- A map from texts to texts: each key once.
abbrev pub Labels : Type 0
Labels = List (String × String)

abbrev pub lookup : String → Labels → String
lookup key [] = ""
lookup key (entry ∷ entries) = if str_eq key entry.0 then entry.1 else lookup key entries

-- `m[key] = value`
abbrev pub insert : String → String → Labels → Labels
insert key value [] = (key, value) ∷ []
insert key value (entry ∷ entries) =
    if str_eq key entry.0 then (key, value) ∷ entries else entry ∷ insert key value entries

-- `if value != nil { m[key] = *value }`
abbrev pub insert_some : String → Option String → Labels → Labels
insert_some key none m = m
insert_some key (some value) m = insert key value m

pub record EnvVar : Type 0 where
  pub name : String
  pub value : String

pub record KeyValue : Type 0 where
  pub key : String
  pub value : String

pub record EvaluateData : Type 0 where
  pub name : String
  pub labels : Labels
  pub annotations : Labels
  pub args : List String
  pub env : List EnvVar
  pub job_image : String
  pub dind_image : String
  pub team_id : Option String
  pub team_id_label : String
  pub affinity : KeyValue
  pub toleration : KeyValue
  pub dind_memory_gb : ℕ
  pub dind_cpus : ℕ

pub record BroadcastData : Type 0 where
  pub name : String
  pub labels : Labels
  pub annotations : Labels
  pub args : List String
  pub env : List EnvVar
  pub job_image : String
  pub affinity : KeyValue
  pub toleration : KeyValue
  pub crs_api_credentials : String
