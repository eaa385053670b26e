-- ===== src/Jobs/Failed.antt =====
-- What the controller does to the rows of submissions and jobs when a job of the client has ended.
use mathlib.Core.List.{Mem}
use competition_api.Prelude.{String, ◌≡◌, refl, List, ◌∷◌, ◌++◌, Result, ok, err}
use competition_api.WorkerErrors.{GoError}
use competition_api.Types.Worker.{job_type_from_string}
use competition_api.Types.Bundle.{Uuid}
use competition_api.Results.{
  Condition, job_failed, ResultServer, with_job_id, failed_job, handle_job_update,
}
use competition_api.Results.Rows.{
  Rows, row_changed, errored_if_accepted, IsRowStore, IsErrored, job_failed-among, not_failed,
  with_job_id-rows, job_without_type-rows, failed_job-IsErrored, not_failed-rows,
}
use competition_api.Routes.Submission.{EvalJob}
use competition_api.Jobs.Templates.{Labels}
use competition_api.Jobs.{Cluster, JobConfig, eval_data, broadcast_data}
use competition_api.Jobs.Labelled.{seen_job, seen_eval, read_back}

unlabelled :
    {W : Type 0} (server : ResultServer W) (id : Result GoError Uuid) (w : W)
    → with_job_id server (job_type_from_string "") id w ≡ (ok tt, w)
unfolding job_type_from_string
unlabelled server (ok id) w = refl
unlabelled server (err e) w = refl

module _ {W Team : Type 0} (h : Cluster W Team) (config : JobConfig) (server : ResultServer W)
    (rows : W → Rows) (store : IsRowStore server rows) where
  seen_eval-rows :
      (j : EvalJob) (id : Uuid) (conditions : List Condition) (w : W)
      → server.parse_id j.id ≡ ok id
      → let s = failed_job server (seen_eval h config j conditions) w in
        s.0 ≡ ok tt → rows s.1 ≡ row_changed errored_if_accepted j.job_type id (rows w)
  unfolding eval_data failed_job
  seen_eval-rows j id conditions w e =
      rw (read_back j.job_type, e) (with_job_id-rows server rows store j.job_type id w)

  broadcast-rows :
      (name kind credentials : String) (annotations : Labels) (args : List String)
      (conditions : List Condition) (w : W)
      → let sent = broadcast_data h config name kind annotations args credentials in
        rows (failed_job server (seen_job sent.name sent.labels conditions) w).1 ≡ rows w
  unfolding broadcast_data failed_job
  broadcast-rows name kind credentials annotations args conditions w =
      rw (unlabelled server (server.parse_id "") w) refl

  -- When a job that `CreateEvalJob` has made for a row is updated in the cluster: if a condition says that
  -- it failed, the controller sets the row to errored, if it is still accepted, and changes no other status,
  -- or it returns an error and changes none; if no condition says so, it changes none. For a job that
  -- delivers or cancels it never changes any. The id of the row is one that can be read.
  pub handle_job_update-IsErrored :
      (j : EvalJob) (id : Uuid) (before after conditions : List Condition)
      (name kind credentials : String) (annotations : Labels) (args : List String) (w : W)
      → server.parse_id j.id ≡ ok id
      → ¬ Mem job_failed conditions
      → let failed =
          handle_job_update server (seen_eval h config j (before ++ job_failed ∷ after)) w in
        let other = handle_job_update server (seen_eval h config j conditions) w in
        let sent = broadcast_data h config name kind annotations args credentials in
        IsErrored j.job_type id (rows w) (rows failed.1) failed.0
        × (rows other.1 ≡ rows w)
        × ((any : List Condition)
            → rows (handle_job_update server (seen_job sent.name sent.labels any) w).1 ≡ rows w)
  handle_job_update-IsErrored j id before after conditions name kind credentials annotations args w
        e n =
      (
        failed_job-IsErrored server rows store (seen_eval h config j (before ++ job_failed ∷ after))
            j.job_type id w (job_failed-among before after)
            (seen_eval-rows j id (before ++ job_failed ∷ after) w e),
        not_failed-rows server rows store (seen_eval h config j conditions) w
            (not_failed conditions n),
        λ any.
            job_without_type-rows server rows store _ w
              λ w'. broadcast-rows name kind credentials annotations args any w',
      )
