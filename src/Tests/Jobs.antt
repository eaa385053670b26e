-- ===== src/Tests/Jobs.antt =====
-- A job for the PoV 7, as the controller sees it.
use competition_api.Prelude.{
  ℕ, ◌≡◌, refl, true, Option, none, some, List, [], ◌∷◌, Result, ok, err, pure, ◌==◌, if◌then◌else◌,
}
use mathlib.Core.List.{not-mem-nil}
use competition_api.Types.Bundle.{Uuid}
use competition_api.Types.Status.{StatusText, known, accepted, errored, JobType, pov}
use competition_api.Queue.{HandlerError}
use competition_api.Results.{Row, ResultServer, Condition, job_failed, handle_job_update}
use competition_api.Results.Rows.{
  Rows, row_changed, updated_status, Ended, committed, rolled_back, IsRowStore, IsErrored,
}
use competition_api.Routes.Submission.{EvalJob}
use competition_api.Jobs.Templates.{lookup}
use competition_api.Jobs.{
  NodeAssignment, JobConfig, Cluster, get_job_name, eval_data, broadcast_data,
}
use competition_api.Jobs.Labelled.{seen_job, seen_eval, create_eval_job-seen_job}
use competition_api.Jobs.Failed.{handle_job_update-IsErrored}

abbrev cluster : Cluster Rows ℕ
cluster = record {
  create_eval = λ rendered. pure tt;
  create_broadcast = λ rendered. pure tt;
  carrier = [];
  getenv = λ name. name;
  decimal = λ n. "0";
  encode_base64 = λ text. text;
  marshal_teams = λ teams. ok "[]";
  new_uuid = λ w. ("1", w);
}

abbrev node : NodeAssignment
node = record {
  node_affinity_label = record { key = "pool"; value = "eval" };
  toleration = record { key = "pool"; value = "eval" };
}

abbrev config : JobConfig
config = record {
  containers_url = "https://containers";
  account_name = "account";
  account_key = "key";
  artifacts_container = "artifacts";
  queues_url = "https://queues";
  results_queue = "results";
  generate_round_id = "generate";
  use_otlp = true;
  job_image = "job";
  dind_image = "dind";
  eval_nodes = node;
  scoring_nodes = node;
  broadcast_nodes = node;
}

abbrev trial : EvalJob
trial = record {
  job_type = pov;
  id = "7";
  args = [];
  memory_gb = 16;
  cpus = 2;
  round_id = some "final";
  task_id = some "5";
  team_id = none;
}

create_eval_job-seen_job_example :
    (seen_eval cluster config trial (job_failed ∷ []) ≡ record {
      name = get_job_name pov "7";
      conditions = job_failed ∷ [];
      object_id = "7";
      job_type = some pov;
    })
    × (lookup "aixcc.tech/round-id" (eval_data cluster config trial).annotations ≡ "final")
    × (lookup "aixcc.tech/task-id" (eval_data cluster config trial).annotations ≡ "5")
    × (lookup "aixcc.tech/team-id" (eval_data cluster config trial).annotations ≡ "")
create_eval_job-seen_job_example = create_eval_job-seen_job cluster config trial (job_failed ∷ [])

-- A database that is the world, with the accepted PoV 7.
abbrev rows_before : Rows
rows_before pov id = if id == 7 then some (known accepted) else none
rows_before _ id = none

abbrev affected : JobType → Uuid → Option StatusText → Option Row
affected kind id (some (known accepted)) = some (record {
  id = id;
  submitter_id = 3;
  task_id = 5;
  status = known errored;
  functionality_tests_passing = none;
})
affected kind id old = none

abbrev concluded :
    Rows → Result HandlerError (Unit {0}) × Rows → Result HandlerError (Unit {0}) × Rows
concluded before (ok x, inside) = (ok tt, inside)
concluded before (err e, inside) = (err e, before)

abbrev row_server : ResultServer Rows
row_server = record {
  update_accepted = λ kind id u rows.
      (ok (affected kind id (rows kind id)), row_changed (updated_status u.status) kind id rows);
  round_id = λ task. pure "final";
  log_result = λ line rows. rows;
  transaction = λ body rows. concluded rows (body rows);
  parse_id = λ text. ok 7;
  delete_job = λ name. pure tt;
}

concluded-Ended :
    (before : Rows) (r : Result HandlerError (Unit {0})) (inside : Rows)
    → Ended before inside r (concluded before (r, inside)).0 (concluded before (r, inside)).1
concluded-Ended before (ok x) inside = committed refl
concluded-Ended before (err e) inside = rolled_back e

row_server-IsRowStore : IsRowStore row_server (λ rows. rows)
row_server-IsRowStore = record {
  updates = λ kind id u rows o e. refl;
  round_keeps = λ task rows. refl;
  log_keeps = λ line rows. refl;
  delete_keeps = λ name rows. refl;
  transacts = λ body rows. concluded-Ended rows (body rows).0 (body rows).1;
}

handle_job_update-IsErrored_example :
    IsErrored pov 7 rows_before
      (handle_job_update row_server
        (seen_eval cluster config trial (job_failed ∷ []))
        rows_before).1
      (handle_job_update row_server
        (seen_eval cluster config trial (job_failed ∷ []))
        rows_before).0
    × ((handle_job_update row_server (seen_eval cluster config trial []) rows_before).1
        ≡ rows_before)
    × ((any : List Condition)
        → (handle_job_update row_server
            (seen_job
              (broadcast_data cluster config "cancel-1" "cancel" [] [] "[]").name
              (broadcast_data cluster config "cancel-1" "cancel" [] [] "[]").labels
              any)
            rows_before).1
          ≡ rows_before)
handle_job_update-IsErrored_example =
    handle_job_update-IsErrored cluster config row_server (λ rows. rows) row_server-IsRowStore trial
      7 [] [] [] "cancel-1" "cancel" "[]" [] [] rows_before refl not-mem-nil
