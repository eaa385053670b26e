-- ===== src/Routes/Jobrunner/Work.antt =====
-- The handlers of competition-api/cmd/server/internal/routes/jobrunner: jobrunner.go, job.go, results.go.
use Prim.Native.String.{len}
use competition_api.Prelude.{
  ℕ, String, Bool, true, false, not, ◌&&◌, Option, none, some, List, [], ◌∷◌, ◌++◌, Result, Exec,
  pure, raise, lift, check, ◌>>=◌, ◌>>◌, ltb, length, if◌then◌else◌,
}
use competition_api.WorkerErrors.{GoError}
use competition_api.Types.Status.{job}
use competition_api.Types.Bundle.{Uuid}
use competition_api.Types.Worker.{Blob, JobArtifact, JobResult}
use competition_api.Upload.{hashed}
use competition_api.Validator.{validate_trigger_size, validate_patch_size}
use competition_api.Models.Rows.{Task}
use competition_api.Models.Sources.{PresignedSourceUrls, get_source_urls}
use competition_api.Aixcc.Patches.{language_c, language_java}
use competition_api.Http.{internal_server_error, bad_request}
use competition_api.Routes.Submission.{EvalJob, JobClient, expiration}
use competition_api.Routes.Jobrunner.{
  JobArgs, JobRow, JobResponse, JobFailure, refused, Cached, JobHandler, deref, or_refuse, JobTask,
  no_task, no_sources, job_task, overridden_task, overridden_sources, cache_parts, job_args, Added,
  Prepared, unprocessable,
}

module _ {W : Type 0} (h : JobHandler W) where
  abbrev pub presigned_blob : Blob → Exec W GoError Blob
  presigned_blob b = do
    url ← h.artifacts_uploader.presigned_read_url b.object_name expiration
    pure (record b { presigned_url = some url })

  unfoldable pub presigned_artifacts : List JobArtifact → Exec W GoError (List JobArtifact)
  presigned_artifacts [] = pure []
  presigned_artifacts (a ∷ rest) = do
    blob ← presigned_blob a.blob
    others ← presigned_artifacts rest
    pure (record a { blob = blob } ∷ others)

  unfoldable pub presigned_results : List JobResult → Exec W GoError (List JobResult)
  presigned_results [] = pure []
  presigned_results (r ∷ rest) = do
    stdout ← presigned_blob r.stdout_blob
    stderr ← presigned_blob r.stderr_blob
    others ← presigned_results rest
    pure (record r { stdout_blob = stdout; stderr_blob = stderr } ∷ others)

  -- `presignJob`, and the response that is made of it.
  unfoldable pub job_response : JobRow → Exec W JobFailure JobResponse
  unfolding presigned_artifacts presigned_results
  job_response row = do
    artifacts ← or_refuse internal_server_error (presigned_artifacts row.artifacts)
    results ← or_refuse internal_server_error (presigned_results row.results)
    pure (record {
      job_id = h.id_text row.id;
      status = row.status;
      functionality_tests_passing = row.functionality_tests_passing;
      results = results;
      artifacts = artifacts;
    })

  abbrev pub or_no_task : Option Task → Exec W JobFailure Task
  or_no_task none = raise (refused (bad_request "task_id not found"))
  or_no_task (some task) = pure task

  -- The task that is named, and its sources.
  unfoldable pub load_task : Option String → Exec W JobFailure (JobTask × PresignedSourceUrls)
  load_task none = pure (no_task, no_sources)
  load_task (some text) = do
    id ← or_refuse (bad_request "failed to parse task ID as a UUID") (lift (h.parse_id text))
    found ← or_refuse internal_server_error (h.task_by_id id)
    task ← or_no_task found
    sources ← or_refuse internal_server_error (get_source_urls task h.sources_uploader expiration)
    pure (job_task task, sources)

  -- A blob that is named by its digest has to be there.
  abbrev pub blob_exists : String → Option String → Exec W JobFailure (Unit {0})
  blob_exists missing none = pure tt
  blob_exists missing (some name) = do
    there ← or_refuse internal_server_error (h.submission_uploader.exists name)
    check there (refused (unprocessable missing))

  -- What is sent goes before what is named.
  abbrev pub sent_blob :
      (ℕ → Bool) → Option String → Option String → Exec W JobFailure (Option String)
  sent_blob small named none = pure named
  sent_blob small named (some text) = do
    check (small (len text)) (refused (bad_request "validation error"))
    content ← or_refuse (bad_request "failed to decode base64") (lift (h.decode_base64 text))
    name ←
        or_refuse internal_server_error
          (hashed h.sha256 h.submission_uploader (h.bytes_reader content) (len content))
    pure (some name)

  abbrev pub with_trigger : JobArgs → String → Option String → Exec W JobFailure Added
  with_trigger a architecture none = pure (record { args = []; parts = [] })
  with_trigger a architecture (some name) = do
    trigger_url ←
        or_refuse internal_server_error (h.submission_uploader.presigned_read_url name expiration)
    sanitizer ← deref a.sanitizer
    fuzzer_name ← deref a.fuzzer_name
    engine ← deref a.engine
    pure (record {
      args =
          "--trigger-url" ∷ trigger_url ∷ "--sanitizer" ∷ sanitizer ∷ "--harness-name" ∷ fuzzer_name
          ∷ "--engine" ∷ engine ∷ [];
      parts = "testcase" ∷ name ∷ architecture ∷ sanitizer ∷ fuzzer_name ∷ engine ∷ [];
    })

  abbrev pub with_patch : Option String → Exec W JobFailure Added
  with_patch none = pure (record { args = []; parts = [] })
  with_patch (some name) = do
    patch_url ←
        or_refuse internal_server_error (h.submission_uploader.presigned_read_url name expiration)
    pure (record {
      args =
          "--allowed-languages" ∷ language_c ∷ "--allowed-languages" ∷ language_java ∷ "--patch-url"
          ∷ patch_url ∷ [];
      parts = "patch" ∷ name ∷ [];
    })

  unfoldable pub add_trigger : JobArgs → String → Exec W JobFailure Added
  add_trigger a architecture = do
    blob_exists "missing pov blob" a.testcase_hash
    name ← sent_blob validate_trigger_size a.testcase_hash a.testcase_b64
    with_trigger a architecture name

  unfoldable pub add_patch : JobArgs → Exec W JobFailure Added
  add_patch a = do
    blob_exists "missing patch blob" a.patch_hash
    name ← sent_blob validate_patch_size a.patch_hash a.patch_b64
    with_patch name

  -- A job that runs for a row that is not a submission.
  abbrev pub scoring_job : JobTask → JobRow → List String → EvalJob
  scoring_job t row args = record {
    job_type = job;
    id = h.id_text row.id;
    args = args ++ "--job-id" ∷ h.id_text row.id ∷ [];
    memory_gb = t.memory_gb;
    cpus = t.cpus;
    round_id = none;
    task_id = none;
    team_id = none;
  }

  abbrev find_or_create : Bool → String → Exec W GoError Cached
  find_or_create true key = do row ← h.create_job key; pure (record { row = row; is_new = true })
  find_or_create false key = h.first_or_create key

  -- The function that the transaction runs: only for a new row a job is started.
  unfoldable pub init_job :
      (EvalJob → Exec W GoError (Unit {0}))
      → JobArgs
      → JobTask
      → List String
      → (key : String) → Exec W JobFailure JobRow
  init_job create a t args key = do
    override ← deref a.override_cache
    cached ← or_refuse internal_server_error (find_or_create override key)
    if cached.is_new
        then or_refuse internal_server_error (create (scoring_job t cached.row args))
        else pure tt
    pure cached.row

  abbrev or_no_client : JobClient W → Exec W JobFailure (EvalJob → Exec W GoError (Unit {0}))
  or_no_client none = raise (refused internal_server_error)
  or_no_client (some create) = pure create

  -- What `doJobWork` has made of a request when it comes to the database: the task, the arguments of the
  -- job and the key that the job is looked up under.
  unfoldable pub prepare_job : JobArgs → Exec W JobFailure Prepared
  unfolding load_task add_trigger add_patch cache_parts job_args
  prepare_job a = do
    config_key ← deref h.config_cache_key
    request_key ← deref a.cache_key
    loaded ← load_task a.task_id
    let t = overridden_task a loaded.0
    let s = overridden_sources a loaded.1
    architecture ← deref a.architecture
    trigger ← add_trigger a architecture
    patch ← add_patch a
    pure (record {
      task = t;
      args = job_args a t s architecture ++ trigger.args ++ patch.args;
      key =
          h.sha256 (
            h.join_lines
              (cache_parts config_key request_key a t s ++ trigger.parts ++ patch.parts));
    })

  -- `doJobWork`
  unfoldable pub do_job_work : JobArgs → Exec W JobFailure JobResponse
  unfolding job_response prepare_job init_job
  do_job_work a = do
    prepared ← prepare_job a
    create ← or_no_client h.job_client
    row ← h.transaction (init_job create a prepared.task prepared.args prepared.key)
    job_response row

  -- The jobs of a bulk request, one after the other.
  unfoldable pub do_all_jobs : List JobArgs → Exec W JobFailure (List JobResponse)
  do_all_jobs [] = pure []
  do_all_jobs (a ∷ rest) = do
    response ← do_job_work a
    others ← do_all_jobs rest
    pure (response ∷ others)

  unfoldable pub all_responses : List JobRow → Exec W JobFailure (List JobResponse)
  all_responses [] = pure []
  all_responses (row ∷ rest) = do
    response ← job_response row
    others ← all_responses rest
    pure (response ∷ others)

  -- `len(jobs) > 100 || len(jobs) < 1` does not hold.
  abbrev pub job_count_allowed : {A : Type 0} → List A → Bool
  job_count_allowed jobs = not (ltb 100 (length jobs)) && not (ltb (length jobs) 1)

  -- `RunBulkTests`, once the caller and the time are read from the context; the validator looks at the
  -- list and not at its entries.
  unfoldable pub run_bulk_tests :
      Exec W GoError (List JobArgs)
      → (List JobArgs → Result GoError (Unit {0}))
      → Exec W JobFailure (List JobResponse)
  unfolding do_all_jobs
  run_bulk_tests bind validate = do
    jobs ← or_refuse (bad_request "failed to parse request data") bind
    or_refuse (bad_request "validation error") (lift (validate jobs))
    check (job_count_allowed jobs) (refused (bad_request "validation error"))
    do_all_jobs jobs

  -- `RunTest`, once the caller and the time are read from the context.
  unfoldable pub run_test :
      Exec W GoError JobArgs → (JobArgs → Result GoError (Unit {0})) → Exec W JobFailure JobResponse
  run_test bind validate = do
    a ← or_refuse (bad_request "failed to parse request data") bind
    or_refuse (bad_request "validation error") (lift (validate a))
    do_job_work a

  -- `PostJobResultsBulk`; `jobs_by_ids` is the query for the rows.
  unfoldable pub post_job_results_bulk :
      (jobs_by_ids : List Uuid → Exec W GoError (List JobRow))
      → Exec W GoError (List Uuid)
      → (List Uuid → Result GoError (Unit {0}))
      → Exec W JobFailure (List JobResponse)
  unfolding all_responses
  post_job_results_bulk jobs_by_ids bind validate = do
    ids ← or_refuse (bad_request "failed to parse request data") bind
    or_refuse (bad_request "validation error") (lift (validate ids))
    check (job_count_allowed ids) (refused (bad_request "validation error"))
    rows ← or_refuse internal_server_error (jobs_by_ids ids)
    all_responses rows
