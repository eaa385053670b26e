-- ===== src/Routes/Submission/Traced/Patches.antt =====
-- What `SubmitPatch` inserts, archives, starts and prints.
use Prim.Native.String.{len}
use competition_api.Prelude.{◌≡◌, refl, true, String, ok, is_ok, lift, or_return}
use competition_api.Types.Status.{patch_file}
use competition_api.Upload.{hashed}
use competition_api.Validator.{validate_patch_size}
use competition_api.Audit.{entity_patch}
use competition_api.Audit.Log.{log_patch_submission}
use competition_api.Models.Submissions.{PatchSubmission}
use competition_api.Http.{internal_server_error, bad_request}
use competition_api.Traces.{
  Emitted, Emits, Emits-pure, Emits-bind, Emits-noted_or, Emits-Quiet, Emits-from_context,
  Emits-check, Emits-act, Quiet-or_return, Quiet-unrecorded,
}
use competition_api.Routes.Context.{status_at, audit_context}
use competition_api.Routes.Submission.{Handler, SubmissionRequest}
use competition_api.Routes.Submission.Patch.{
  PatchBody, new_patch, patch_job, no_harnesses, start_patch_job, take_patch, submit_patch,
}
use competition_api.Routes.Submission.Traced.{
  World, inserted, patch_row, recorded_handler, recorded_request, Caller, IsCaller, IsArchiveLine,
  JobsFor, Duty, Trace, rejected, only_inserted, only_archived, reported,
}
use competition_api.Routes.Submission.Traced.Rules.{hashed-Quiet, Emits-archive, Emits-jobs}

module _ {W : Type 0} (h : Handler W) (c : SubmissionRequest W PatchBody) where
  -- A row that may be inserted, and the one that the database has made of it.
  pub record IsNewPatch (who : Caller) (given row : PatchSubmission) : Type 0 where
    pub caller : IsCaller c who
    pub harnesses : who.task.harnesses_included ≡ true
    pub submitter : given.submitter_id ≡ who.auth.id
    pub of_task : given.task_id ≡ who.task.id
    pub in_time : given.status ≡ status_at who.time who.task
    pub made : (w : W) × ((h.create_patch given w).0 ≡ ok row)

  unfoldable pub patch_duty : Duty PatchSubmission
  patch_duty = record {
    in_table = patch_row;
    Inserts = IsNewPatch;
    Archives = λ who row.
        IsArchiveLine (audit_context h.id_text who.auth who.task) patch_file entity_patch
          (h.id_text row.id);
    Jobs = λ who row. JobsFor h who row.patch_file_path (patch_job h who.auth who.task row);
    report = λ who given row.
        log_patch_submission (audit_context h.id_text who.auth who.task) (h.id_text row.id)
          row.status given.patch_file_path;
  }

  -- From the row on.
  patch_inserted-Emits :
      (who : Caller) (patch_data blob_name : String)
      → IsCaller c who
      → who.task.harnesses_included ≡ true
      → Emits
          (Trace patch_duty)
          (take_patch (recorded_handler h) who.auth who.task who.time patch_data blob_name)
  unfolding take_patch start_patch_job new_patch patch_duty
  patch_inserted-Emits who patch_data blob_name caller harnesses =
      let given = new_patch who.auth who.task who.time blob_name in
      Emits-noted_or (λ row. inserted (patch_row given) (patch_row row)) (h.create_patch given)
        internal_server_error _ rejected
        λ w row made.
          let is_new : IsNewPatch who given row = record {
            caller = caller;
            harnesses = harnesses;
            submitter = refl;
            of_task = refl;
            in_time = refl;
            made = (w, made);
          } in
          Emits-archive h.archive_system h.archiver (audit_context h.id_text who.auth who.task)
            patch_data patch_file entity_patch (h.id_text row.id) _
            (only_inserted who given row is_new)
            λ store name.
              Emits-jobs h who row.patch_file_path (patch_job h who.auth who.task row) _
                (only_archived who given row _ is_new
                  (record { store = store; object_name = name; is_line = refl }))
                λ jobs due. Emits-act _ (h.print_line _) _ (
                  Emits-pure _ (
                    reported who given row _ jobs is_new
                      (record { store = store; object_name = name; is_line = refl }) due))

  submit_patch-Emits :
      Emits (Trace patch_duty) (submit_patch (recorded_handler h) (recorded_request c))
  unfolding submit_patch start_patch_job new_patch patch_duty
  submit_patch-Emits = Emits-from_context c.auth _ rejected λ auth e_auth.
      Emits-from_context c.task _ rejected λ task e_task.
        Emits-from_context c.time _ rejected λ time e_time.
          Emits-check task.harnesses_included no_harnesses _ rejected λ harnesses.
            Emits-bind (or_return c.bind (bad_request "failed to parse request data")) _ rejected
              λ w₀ rdata _.
                Emits-bind (or_return (lift (c.validate rdata)) (bad_request "validation error")) _
                  rejected
                  λ w₁ _ _.
                    Emits-check (validate_patch_size (len rdata.patch))
                      (bad_request "validation error") _ rejected
                      λ _.
                        Emits-bind
                          (or_return (lift (h.decode_base64 rdata.patch))
                            (bad_request "failed to decode base64"))
                          _ rejected
                          λ w₂ patch_data _.
                            Emits-Quiet
                              (or_return
                                (hashed h.sha256 (recorded_handler h).submission_uploader
                                  ((recorded_handler h).bytes_reader patch_data) (len patch_data))
                                internal_server_error)
                              _
                              (Quiet-or_return _ internal_server_error (
                                hashed-Quiet h.sha256 h.submission_uploader _ (len patch_data)
                                  (Quiet-unrecorded (h.bytes_reader patch_data).seek_start)
                                  (Quiet-unrecorded (h.bytes_reader patch_data).read_all)))
                              rejected
                              λ _ blob_name _.
                                patch_inserted-Emits
                                  (record { auth = auth; task = task; time = time }) patch_data
                                  blob_name
                                  (record {
                                    authenticated = e_auth;
                                    on_task = e_task;
                                    on_time = e_time;
                                  })
                                  harnesses

  -- Whatever the request and however the calls outside answer, `SubmitPatch` does a prefix of this, in
  -- this order, and succeeds exactly if it does it all: it inserts one row, for the team, the task and
  -- the time of the request, on a task with harnesses; it prints the line of the archived patch under
  -- the row's id; if there is a client and the deadline has not passed, and only then, it starts one
  -- job, of the row, for that team and task; and it prints the line of the submission.
  pub submit_patch-Trace :
      (s : World W)
      → let (r, s') = submit_patch (recorded_handler h) (recorded_request c) s in
        Emitted (Trace patch_duty) (is_ok r) s.1 s'
  submit_patch-Trace s = submit_patch-Emits.at s
