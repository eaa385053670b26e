-- ===== src/Jobs/Labelled.antt =====
-- What the controller reads back from the labels of the jobs that the client makes.
use competition_api.Prelude.{ap, arith, String, ◌≡◌, refl, Option, some, List}
use competition_api.Types.Status.{JobType, pov, patch, job}
use competition_api.Types.Worker.{job_type_text, job_type_from_string}
use competition_api.Audit.Log.{or_blank}
use competition_api.Results.{Condition, ClusterJob}
use competition_api.Routes.Submission.{EvalJob}
use competition_api.Jobs.Templates.{Labels, lookup}
use competition_api.Jobs.{Cluster, JobConfig, get_job_name, eval_annotations, eval_data}

-- A job of the cluster as the controller sees it: the name and the labels of what was rendered.
abbrev pub seen_job : (name : String) → Labels → List Condition → ClusterJob
seen_job name labels conditions = record {
  name = name;
  conditions = conditions;
  object_id = lookup "aixcc.tech/object-id" labels;
  job_type = job_type_from_string (lookup "aixcc.tech/job-type" labels);
}

pub read_back : (t : JobType) → job_type_from_string (job_type_text t) ≡ some t
unfolding job_type_from_string
read_back pov = refl
read_back patch = refl
read_back job = refl

module _ {W Team : Type 0} (h : Cluster W Team) (config : JobConfig) (j : EvalJob) where
  -- The job that `CreateEvalJob` makes, as the controller sees it under some conditions.
  abbrev pub seen_eval : List Condition → ClusterJob
  seen_eval = seen_job (eval_data h config j).name (eval_data h config j).labels

  annotated :
      (kind : JobType) (id : String) (round task team : Option String)
      → let m = eval_annotations (record {
        job_type = kind;
        id = id;
        args = j.args;
        memory_gb = j.memory_gb;
        cpus = j.cpus;
        round_id = round;
        task_id = task;
        team_id = team;
      }) in
        (lookup "aixcc.tech/round-id" m ≡ or_blank round)
        × (lookup "aixcc.tech/task-id" m ≡ or_blank task)
        × (lookup "aixcc.tech/team-id" m ≡ or_blank team)
  annotated kind id round task team = ground arith

  -- What the controller and the annotations say of a job that `CreateEvalJob` has made is what it was
  -- made for: the type and the id of the row, and the round, the task and the team, where they are given.
  pub create_eval_job-seen_job :
      (conditions : List Condition)
      → let m = (eval_data h config j).annotations in
        (seen_eval conditions ≡ record {
          name = get_job_name j.job_type j.id;
          conditions = conditions;
          object_id = j.id;
          job_type = some j.job_type;
        })
        × (lookup "aixcc.tech/round-id" m ≡ or_blank j.round_id)
        × (lookup "aixcc.tech/task-id" m ≡ or_blank j.task_id)
        × (lookup "aixcc.tech/team-id" m ≡ or_blank j.team_id)
  unfolding eval_data
  create_eval_job-seen_job conditions = (
    ap
        (λ t. record {
          name = get_job_name j.job_type j.id;
          conditions = conditions;
          object_id = j.id;
          job_type = t;
        })
        (read_back j.job_type),
    (annotated j.job_type j.id j.round_id j.task_id j.team_id).0,
    (annotated j.job_type j.id j.round_id j.task_id j.team_id).1,
    (annotated j.job_type j.id j.round_id j.task_id j.team_id).2,
  )
