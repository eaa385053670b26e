-- ===== src/Jobs.antt =====
-- competition-api/cmd/server/internal/jobs/jobs_client.go: the jobs that run a worker.
pub mod Templates
pub mod Labelled
pub mod Failed
use competition_api.Prelude.{
  ℕ, String, Bool, true, false, Option, none, some, List, [], ◌∷◌, ◌++◌, Result, ok, err, Exec,
  pure, lift, or_return, ◌>>=◌, ◌>>◌, str_append,
}
use competition_api.WorkerErrors.{GoError, message}
use competition_api.Types.Status.{JobType, pov, patch, job}
use competition_api.Types.Worker.{job_type_text}
use competition_api.Routes.Submission.{EvalJob}
use competition_api.Jobs.Templates.{
  Labels, insert, insert_some, EnvVar, KeyValue, EvaluateData, BroadcastData,
}

pub record NodeAssignment : Type 0 where
  pub node_affinity_label : KeyValue
  pub toleration : KeyValue

-- The part of `config.Config` that a job is made of.
pub record JobConfig : Type 0 where
  pub containers_url : String
  pub account_name : String
  pub account_key : String
  pub artifacts_container : String
  pub queues_url : String
  pub results_queue : String
  pub generate_round_id : String
  pub use_otlp : Bool
  pub job_image : String
  pub dind_image : String
  pub eval_nodes : NodeAssignment
  pub scoring_nodes : NodeAssignment
  pub broadcast_nodes : NodeAssignment

-- What is called outside: the cluster, the environment, the libraries.
pub record Cluster (W Team : Type 0) : Type 0 where
  pub create_eval : EvaluateData → Exec W GoError (Unit {0})
  pub create_broadcast : BroadcastData → Exec W GoError (Unit {0})
  -- the variables of the trace's context
  pub carrier : List EnvVar
  -- `os.Getenv`
  pub getenv : String → String
  -- `strconv.FormatInt` of a time in seconds
  pub decimal : ℕ → String
  pub encode_base64 : String → String
  pub marshal_teams : List Team → Result GoError String
  pub new_uuid : W → String × W

abbrev env_var : String → String → EnvVar
env_var name value = record { name = name; value = value }

abbrev some_env : String → Option String → List EnvVar
some_env name none = []
some_env name (some value) = env_var name value ∷ []

-- `strconv.FormatBool`
abbrev pub format_bool : Bool → String
format_bool true = "true"
format_bool false = "false"

abbrev pub get_job_name : JobType → String → String
get_job_name kind id = str_append (job_type_text kind) (str_append "-" id)

abbrev id_env : JobType → String → List EnvVar
id_env pov id = env_var "POV_ID" id ∷ []
id_env patch id = env_var "PATCH_ID" id ∷ []
id_env job id = []

abbrev id_annotation : JobType → String → Labels → Labels
id_annotation pov id m = insert "aixcc.tech/pov-id" id m
id_annotation patch id m = insert "aixcc.tech/patch-id" id m
id_annotation job id m = m

abbrev pub eval_annotations : EvalJob → Labels
eval_annotations j = id_annotation j.job_type j.id (
    insert_some "aixcc.tech/team-id" j.team_id (
      insert_some "aixcc.tech/task-id" j.task_id (
        insert_some "aixcc.tech/round-id" j.round_id
          (("aixcc.tech/job-type", job_type_text j.job_type) ∷ []))))

abbrev pub eval_labels : EvalJob → Labels
eval_labels j =
    ("aixcc.tech/job-type", job_type_text j.job_type)
    ∷ ("aixcc.tech/object-id", j.id)
    ∷ ("aixcc.tech/job-kind", "eval")
    ∷ []

-- Scoring jobs have nodes of their own.
abbrev pub nodes_for : JobConfig → JobType → NodeAssignment
nodes_for config job = config.scoring_nodes
nodes_for config _ = config.eval_nodes

module _ {W Team : Type 0} (h : Cluster W Team) (config : JobConfig) where
  abbrev logging_env : List EnvVar
  logging_env =
      env_var "USE_OTLP" (format_bool config.use_otlp)
      ∷ env_var "OTEL_EXPORTER_OTLP_ENDPOINT" (h.getenv "OTEL_EXPORTER_OTLP_ENDPOINT")
      ∷ env_var "OTEL_RESOURCE_ATTRIBUTES" (h.getenv "OTEL_RESOURCE_ATTRIBUTES")
      ∷ env_var "OTEL_SERVICE_NAME" "competitionapi-worker"
      ∷ []

  abbrev pub eval_env : EvalJob → List EnvVar
  eval_env j =
      (env_var "AZURE_STORAGE_ACCOUNT_CONTAINERS_URL" config.containers_url
        ∷ env_var "AZURE_STORAGE_ACCOUNT_NAME" config.account_name
        ∷ env_var "AZURE_STORAGE_ACCOUNT_KEY" config.account_key
        ∷ env_var "AZURE_STORAGE_ACCOUNT_CONTAINER" config.artifacts_container
        ∷ env_var "AZURE_STORAGE_ACCOUNT_QUEUES_URL" config.queues_url
        ∷ env_var "AZURE_STORAGE_ACCOUNT_RESULTS_QUEUE" config.results_queue
        ∷ [])
      ++ some_env "ROUND_ID" j.round_id
      ++ env_var "GENERATE_ROUND_ID" config.generate_round_id ∷ []
      ++ some_env "TASK_ID" j.task_id
      ++ some_env "TEAM_ID" j.team_id
      ++ id_env j.job_type j.id
      ++ h.carrier
      ++ logging_env

  unfoldable pub eval_data : EvalJob → EvaluateData
  eval_data j = record {
    name = get_job_name j.job_type j.id;
    labels = eval_labels j;
    annotations = eval_annotations j;
    args = j.args;
    env = eval_env j;
    job_image = config.job_image;
    dind_image = config.dind_image;
    team_id = j.team_id;
    team_id_label = "aixcc.tech/team-id";
    affinity = (nodes_for config j.job_type).node_affinity_label;
    toleration = (nodes_for config j.job_type).toleration;
    dind_memory_gb = j.memory_gb;
    dind_cpus = j.cpus;
  }

  -- `CreateEvalJob`
  unfoldable pub create_eval_job : EvalJob → Exec W GoError (Unit {0})
  unfolding eval_data
  create_eval_job j = h.create_eval (eval_data j)

  -- The job that sends a payload, or a cancellation, to the teams.
  unfoldable pub broadcast_data :
      (name kind : String) → Labels → (args : List String) → (credentials : String) → BroadcastData
  broadcast_data name kind annotations args credentials = record {
    name = name;
    labels = ("aixcc.tech/job-kind", kind) ∷ [];
    annotations = annotations;
    args = args;
    env = h.carrier ++ logging_env;
    job_image = config.job_image;
    affinity = config.broadcast_nodes.node_affinity_label;
    toleration = config.broadcast_nodes.toleration;
    crs_api_credentials = h.encode_base64 credentials;
  }

  -- `CreateDeliveryJob`
  unfoldable pub create_delivery_job :
      (route : String)
      → List Team
      → (round_id task_id message_id : String) → (deadline : ℕ) → (payload : String)
      → Exec W GoError (Unit {0})
  unfolding broadcast_data
  create_delivery_job route teams round_id task_id message_id deadline payload = do
    credentials ←
        or_return (lift (h.marshal_teams teams)) (message "failed to serialize crs details")
    h.create_broadcast (
        broadcast_data (str_append "broadcast-" message_id) "broadcast"
          (("aixcc.tech/round-id", round_id) ∷ ("aixcc.tech/task-id", task_id) ∷ [])
          ("worker"
            ∷ "broadcast"
            ∷ "-r"
            ∷ route
            ∷ "-p"
            ∷ h.encode_base64 payload
            ∷ "-d"
            ∷ round_id
            ∷ "-t"
            ∷ task_id
            ∷ "-u"
            ∷ h.decimal deadline
            ∷ [])
          credentials)

  -- `CreateCancelJob`
  unfoldable pub create_cancel_job :
      (route : String)
      → List Team
      → (round_id : String) → (deadline : ℕ) → Exec W GoError (Unit {0})
  unfolding broadcast_data
  create_cancel_job route teams round_id deadline = do
    credentials ←
        or_return (lift (h.marshal_teams teams)) (message "failed to serialize crs details")
    λ w.
        let (id, w') = h.new_uuid w in
        h.create_broadcast
          (broadcast_data (str_append "cancel-" id) "cancel"
            (("aixcc.tech/round-id", round_id) ∷ [])
            ("worker" ∷ "cancel" ∷ "-r" ∷ route ∷ "-d" ∷ round_id ∷ "-u" ∷ h.decimal deadline ∷ [])
            credentials)
          w'
