-- ===== src/Routes/Submission/Traced/Rules.antt =====
-- What the parts that the handlers of submissions share write down: the archive and the jobs.
use Prim.Native.String.{len}
use competition_api.Prelude.{
  ℕ, ◌≤◌, ◌<◌, ◌≡◌, refl, Bool, true, false, not, ◌&&◌, String, Option, none, some, List, [], ◌∷◌,
  ◌++◌, ap, ok, Exec, pure, or_return, or_return_inv, act, ◌>>=◌, ◌>>◌, if◌then◌else◌, arith,
}
use competition_api.WorkerErrors.{GoError}
use competition_api.Types.Status.{ArchivedFile}
use competition_api.Upload.{ReadSeeker, Uploader, hash_reader, hashed}
use competition_api.Audit.{AuditContext, FileArchivedEntity}
use competition_api.Audit.Log.{log_file_archived}
use competition_api.Archive.{ArchiveSystem, FileMetadata, archive_content, store_file, archive_file}
use competition_api.Models.Rows.{Task, TaskType, full, delta, Source}
use competition_api.Models.Sources.{PresignedSourceUrls, base_repo_url, get_source_urls}
use competition_api.Http.{HttpError, internal_server_error}
use competition_api.Traces.{
  Emits, Emits-act, Emits-pure, Emits-assoc, Emits-noted_or, Emits-after, Emits-bind, Emits-Quiet,
  Quiet, Quiet-bind, Quiet-unrecorded, Quiet-pure, Quiet-raise, Quiet-if, Quiet-or_return,
}
use competition_api.Routes.Context.{is_late}
use competition_api.Routes.Submission.{
  EvalJob, JobClient, has_client, Handler, expiration, start_with,
}
use competition_api.Routes.Submission.Traced.{
  World, lowered, SubmissionEvent, inserted, printed, Duty, Trace, only_inserted, reported, started,
  recorded_uploader, recorded_system, recorded_client, recorded_handler, Caller, JobsFor, no_client,
  too_late, one_job,
}

abbrev memory_file : String → ArchivedFile → FileArchivedEntity → String → FileMetadata
memory_file text file entity id = record {
  local_file_path = none;
  buffer = some text;
  archived_file = file;
  entity = entity;
  entity_id = id;
}

module _ {W : Type 0} where
  -- Uploading under a digest writes nothing down.
  pub hashed-Quiet :
      (sha256 : String → String) (u : Uploader W) (reader : ReadSeeker (World W)) (length : ℕ)
      → Quiet reader.seek_start
      → Quiet reader.read_all
      → Quiet (hashed sha256 (recorded_uploader u) reader length)
  unfolding hashed hash_reader
  hashed-Quiet sha256 u reader length q₁ q₂ = Quiet-bind reader.seek_start _ q₁ λ _.
      Quiet-bind (hash_reader sha256 reader) _ (Quiet-bind reader.read_all _ q₂ λ _. Quiet-pure _)
        λ name.
          Quiet-bind ((recorded_uploader u).exists name) _ (Quiet-unrecorded (u.exists name))
            λ there. Quiet-if there _ _ (Quiet-pure name) (
              Quiet-bind reader.seek_start _ q₁ λ _.
                Quiet-bind ((recorded_uploader u).upload reader length name) _
                  (Quiet-unrecorded (u.upload (lowered reader) length name)) λ _. Quiet-pure name)

  -- What is in memory is stored without a word.
  store_file-Quiet :
      (h : ArchiveSystem W) (u : Uploader W) (text : String) (file : ArchivedFile)
      (entity : FileArchivedEntity) (id : String)
      → Quiet
          (store_file (recorded_system h) (recorded_uploader u) (memory_file text file entity id))
  unfolding store_file archive_content
  store_file-Quiet h u text file entity id =
      Quiet-bind
        (hashed h.sha256 (recorded_uploader u) ((recorded_system h).bytes_reader text) (len text)) _
        (hashed-Quiet h.sha256 u ((recorded_system h).bytes_reader text) (len text)
          (Quiet-unrecorded (h.bytes_reader text).seek_start)
          (Quiet-unrecorded (h.bytes_reader text).read_all))
        λ object_name.
          Quiet-bind (recorded_uploader u).store_identifier _ (Quiet-unrecorded u.store_identifier)
            λ identifier. Quiet-pure _

  base_repo_url-Quiet :
      (kind : TaskType) (source : Option Source) (u : Uploader W)
      → Quiet (base_repo_url kind source (recorded_uploader u) expiration)
  unfolding base_repo_url
  base_repo_url-Quiet full source u = Quiet-pure ""
  base_repo_url-Quiet delta none u = Quiet-raise _
  base_repo_url-Quiet delta (some source) u =
      Quiet-unrecorded (u.presigned_read_url source.url expiration)

  get_source_urls-Quiet :
      (task : Task) (u : Uploader W) → Quiet (get_source_urls task (recorded_uploader u) expiration)
  unfolding get_source_urls
  get_source_urls-Quiet task u =
      Quiet-bind (url_of task.unstripped_source.head_repo.url) _
        (Quiet-unrecorded (u.presigned_read_url task.unstripped_source.head_repo.url expiration))
        λ head_repo.
          Quiet-bind (url_of task.unstripped_source.fuzz_tooling.url) _
            (Quiet-unrecorded
              (u.presigned_read_url task.unstripped_source.fuzz_tooling.url expiration))
            λ fuzz_tooling.
              Quiet-bind
                (base_repo_url task.task_type task.unstripped_source.base_repo (recorded_uploader u)
                  expiration)
                _ (base_repo_url-Quiet task.task_type task.unstripped_source.base_repo u)
                λ base_repo. Quiet-pure _
    where
      url_of : String → Exec (World W) GoError String
      url_of url = (recorded_uploader u).presigned_read_url url expiration

module _ {W B : Type 0} {P : Bool → List SubmissionEvent → Type 0} where
  -- Archiving a file that is in memory writes down its line, or fails.
  pub Emits-archive :
      (h : ArchiveSystem W) (u : Uploader W) (context : AuditContext) (text : String)
      (file : ArchivedFile) (entity : FileArchivedEntity) (id : String)
      (f : Unit {0} → Exec (World W) HttpError B)
      → P false []
      → ((store name : String)
          → Emits
              (λ b es. P b (printed (log_file_archived context store name file entity id) ∷ es))
              (f tt))
      → Emits P (
          or_return
            (archive_file
              (recorded_system h)
              context
              (recorded_uploader u)
              (memory_file text file entity id))
            internal_server_error
          >>= f)
  unfolding archive_file
  Emits-archive h u context text file entity id f p k =
      Emits-after
        (store_file (recorded_system h) (recorded_uploader u) (memory_file text file entity id))
        (λ stored. printed (log_file_archived context stored.0 stored.1 file entity id))
        (λ stored. h.print_line (log_file_archived context stored.0 stored.1 file entity id))
        internal_server_error f (store_file-Quiet h u text file entity id) p
        λ stored. k stored.0 stored.1

late_inv : (time : ℕ) (task : Task) → is_late time task ≡ true → task.deadline < time
late_inv time task e = ground arith

early_inv : (time : ℕ) (task : Task) → is_late time task ≡ false → time ≤ task.deadline
early_inv time task e = ground arith

module _ {W B : Type 0} {P : Bool → List SubmissionEvent → Type 0} where
  -- With a client, in time: the job is written down, or the request fails.
  Emits-start :
      (h : Handler W) (create : EvalJob → Exec W GoError (Unit {0})) (path : String) (task : Task)
      (job : String → PresignedSourceUrls → EvalJob) (f : Unit {0} → Exec (World W) HttpError B)
      → P false []
      → ((url : String) (sources : PresignedSourceUrls) (w : W)
          → (h.submission_uploader.presigned_read_url path expiration w).0 ≡ ok url
          → Emits (λ b es. P b (started (job url sources) ∷ es)) (f tt))
      → Emits P (
          start_with
            (recorded_client (some create))
            ((recorded_handler h).submission_uploader.presigned_read_url path expiration)
            (get_source_urls task (recorded_handler h).sources_uploader expiration)
            job
          >>= f)
  Emits-start h create path task job f p k =
      Emits-assoc
        (or_return ((recorded_handler h).submission_uploader.presigned_read_url path expiration)
          internal_server_error)
        _ f
        (Emits-bind
          (or_return (h.submission_uploader.presigned_read_url path expiration)
            internal_server_error)
          _ p
          λ w url e.
            Emits-assoc
              (or_return (get_source_urls task (recorded_handler h).sources_uploader expiration)
                internal_server_error)
              _ f
              (Emits-Quiet
                (or_return (get_source_urls task (recorded_handler h).sources_uploader expiration)
                  internal_server_error)
                _
                (Quiet-or_return _ internal_server_error
                  (get_source_urls-Quiet task h.sources_uploader))
                p
                λ s sources _.
                  Emits-noted_or (λ _. started (job url sources)) (create (job url sources))
                    internal_server_error f p
                    λ _ _ _. k url sources w (
                      or_return_inv (h.submission_uploader.presigned_read_url path expiration)
                        internal_server_error w e)))

  Emits-jobs_of :
      (h : Handler W) (who : Caller) (path : String) (job : String → PresignedSourceUrls → EvalJob)
      (f : Unit {0} → Exec (World W) HttpError B)
      → P false []
      → ((jobs : List SubmissionEvent)
          → JobsFor h who path job jobs
          → Emits (λ b es. P b (jobs ++ es)) (f tt))
      → (late : Bool) → is_late who.time who.task ≡ late
      → (client : JobClient W) → h.job_client ≡ client
      → Emits P (
          (if not late && has_client (recorded_client client)
            then start_with
                (recorded_client client)
                ((recorded_handler h).submission_uploader.presigned_read_url path expiration)
                (get_source_urls who.task (recorded_handler h).sources_uploader expiration)
                job
            else pure tt)
          >>= f)
  Emits-jobs_of h who path job f p k true e client c =
      k [] (too_late (late_inv who.time who.task e))
  Emits-jobs_of h who path job f p k false e none c = k [] (no_client (ap has_client c))
  Emits-jobs_of h who path job f p k false e (some create) c =
      Emits-start h create path who.task job f p λ url sources w u.
        k (started (job url sources) ∷ [])
          (one_job url sources w (early_inv who.time who.task e) (ap has_client c) u)

  -- The jobs of a request, as they are due.
  pub Emits-jobs :
      (h : Handler W) (who : Caller) (path : String) (job : String → PresignedSourceUrls → EvalJob)
      (f : Unit {0} → Exec (World W) HttpError B)
      → P false []
      → ((jobs : List SubmissionEvent)
          → JobsFor h who path job jobs
          → Emits (λ b es. P b (jobs ++ es)) (f tt))
      → Emits P (
          (if not (is_late who.time who.task) && has_client (recorded_client h.job_client)
            then start_with
                (recorded_client h.job_client)
                ((recorded_handler h).submission_uploader.presigned_read_url path expiration)
                (get_source_urls who.task (recorded_handler h).sources_uploader expiration)
                job
            else pure tt)
          >>= f)
  Emits-jobs h who path job f p k =
      Emits-jobs_of h who path job f p k (is_late who.time who.task) refl h.job_client refl

module _ {W B Row : Type 0} (d : Duty Row) where
  -- A row with no jobs: its file is archived and it is reported.
  pub Emits-filed :
      (h : Handler W) (who : Caller) (given row : Row) (context : AuditContext) (text : String)
      (file : ArchivedFile) (entity : FileArchivedEntity) (id : String) (b : B)
      → d.Inserts who given row
      → ((store name : String)
          → d.Archives who row (log_file_archived context store name file entity id))
      → d.Jobs who row []
      → Emits
          (λ good es. Trace d good (inserted (d.in_table given) (d.in_table row) ∷ es))
          (or_return
              (archive_file
                (recorded_handler h).archive_system
                context
                (recorded_handler h).archiver
                (memory_file text file entity id))
              internal_server_error
            >> (act ((recorded_handler h).print_line (d.report who given row)) >> pure b))
  Emits-filed h who given row context text file entity id b is_new archived no_jobs =
      Emits-archive h.archive_system h.archiver context text file entity id _
        (only_inserted who given row is_new)
        λ store name.
          Emits-act _ (h.print_line (d.report who given row)) _
            (Emits-pure b (reported who given row _ [] is_new (archived store name) no_jobs))
