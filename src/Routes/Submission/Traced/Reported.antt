-- ===== src/Routes/Submission/Traced/Reported.antt =====
-- What the handlers of reports that no job tries insert, archive and print.
use Prim.Native.String.{len}
use competition_api.Prelude.{
  ◌≡◌, refl, true, String, [], ok, Result, is_ok, lift, or_return, or_return_inv,
}
use competition_api.WorkerErrors.{GoError}
use competition_api.Types.Status.{sarif_submission, freeform_pov}
use competition_api.Validator.{validate_freeform_size}
use competition_api.Audit.{entity_sarif_submission, entity_freeform_pov}
use competition_api.Audit.Log.{log_sarif_submission, log_freeform_submission}
use competition_api.Models.Submissions.{SarifSubmission, FreeformSubmission}
use competition_api.Http.{internal_server_error, bad_request}
use competition_api.Traces.{
  Emitted, Emits, Emits-bind, Emits-noted_or, Emits-from_context, Emits-check,
}
use competition_api.Routes.Context.{status_at, audit_context}
use competition_api.Routes.Submission.{Handler, SubmissionRequest}
use competition_api.Routes.Submission.Reports.{
  new_sarif, new_freeform, take_sarif, submit_sarif, take_freeform, submit_freeform,
}
use competition_api.Routes.Submission.Traced.{
  World, inserted, sarif_row, freeform_row, recorded_handler, recorded_request, Caller, IsCaller,
  IsArchiveLine, Duty, Trace, rejected,
}
use competition_api.Routes.Submission.Traced.Rules.{Emits-filed}

module _ {W Json : Type 0} (h : Handler W) (validate_schema : Json → Result GoError (Unit {0}))
    (marshal : Json → Result GoError String) (c : SubmissionRequest W Json) where
  -- A row that may be inserted: its text is that of a report that the schema allows.
  pub record IsNewSarif (who : Caller) (given row : SarifSubmission) : Type 0 where
    pub caller : IsCaller c who
    pub submitter : given.submitter_id ≡ who.auth.id
    pub of_task : given.task_id ≡ who.task.id
    pub in_time : given.status ≡ status_at who.time who.task
    pub report : Json
    pub allowed : validate_schema report ≡ ok tt
    pub is_text : marshal report ≡ ok given.sarif
    pub made : (w : W) × ((h.create_sarif given w).0 ≡ ok row)

  unfoldable pub sarif_duty : Duty SarifSubmission
  sarif_duty = record {
    in_table = sarif_row;
    Inserts = IsNewSarif;
    Archives = λ who row.
        IsArchiveLine (audit_context h.id_text who.auth who.task) sarif_submission
          entity_sarif_submission (h.id_text row.id);
    Jobs = λ who row jobs. jobs ≡ [];
    report = λ who given row.
        log_sarif_submission (audit_context h.id_text who.auth who.task) (h.id_text row.id)
          row.status;
  }

  sarif_inserted-Emits :
      (who : Caller) (report : Json) (raw_sarif : String)
      → IsCaller c who
      → validate_schema report ≡ ok tt
      → marshal report ≡ ok raw_sarif
      → Emits
          (Trace sarif_duty)
          (take_sarif (recorded_handler h) who.auth who.task who.time raw_sarif)
  unfolding take_sarif new_sarif sarif_duty
  sarif_inserted-Emits who report raw_sarif caller allowed is_text =
      let given = new_sarif who.auth who.task who.time raw_sarif in
      Emits-noted_or (λ row. inserted (sarif_row given) (sarif_row row)) (h.create_sarif given)
        internal_server_error _ rejected
        λ w row made.
          Emits-filed sarif_duty h who given row (audit_context h.id_text who.auth who.task)
            raw_sarif sarif_submission entity_sarif_submission (h.id_text row.id) _
            (record {
              caller = caller;
              submitter = refl;
              of_task = refl;
              in_time = refl;
              report = report;
              allowed = allowed;
              is_text = is_text;
              made = (w, made);
            })
            (λ store name. record { store = store; object_name = name; is_line = refl }) refl

  submit_sarif-Emits :
      Emits
        (Trace sarif_duty)
        (submit_sarif (recorded_handler h) validate_schema marshal (recorded_request c))
  unfolding submit_sarif new_sarif sarif_duty
  submit_sarif-Emits = Emits-from_context c.auth _ rejected λ auth e_auth.
      Emits-from_context c.task _ rejected λ task e_task.
        Emits-from_context c.time _ rejected λ time e_time.
          Emits-bind (or_return c.bind (bad_request "failed to parse request data")) _ rejected
            λ w₀ sarif _.
              Emits-bind (or_return (lift (c.validate sarif)) (bad_request "validation error")) _
                rejected
                λ w₁ _ _.
                  Emits-bind
                    (or_return (lift (validate_schema sarif))
                      (bad_request "sarif failed to validate"))
                    _ rejected
                    λ w₂ _ allowed.
                      Emits-bind (or_return (lift (marshal sarif)) internal_server_error) _ rejected
                        λ w₃ raw_sarif e_text.
                          sarif_inserted-Emits (record { auth = auth; task = task; time = time })
                            sarif raw_sarif
                            (record { authenticated = e_auth; on_task = e_task; on_time = e_time })
                            (or_return_inv (lift {W = W} (validate_schema sarif)) _ w₂ allowed)
                            (or_return_inv (lift {W = W} (marshal sarif)) _ w₃ e_text)

  -- Whatever the request and however the calls outside answer, `SubmitSarif` does a prefix of this, in
  -- this order, and succeeds exactly if it does it all: it inserts one row, for the team, the task and
  -- the time of the request, with the text of a report that the schema allows; it prints the line of
  -- the archived report under the row's id; and it prints the line of the submission.
  pub submit_sarif-Trace :
      (s : World W)
      → let (r, s') =
          submit_sarif (recorded_handler h) validate_schema marshal (recorded_request c) s in
        Emitted (Trace sarif_duty) (is_ok r) s.1 s'
  submit_sarif-Trace s = submit_sarif-Emits.at s

module _ {W : Type 0} (h : Handler W) (c : SubmissionRequest W String) where
  -- A row that may be inserted: it holds what the text that was sent stands for.
  pub record IsNewFreeform (who : Caller) (given row : FreeformSubmission) : Type 0 where
    pub caller : IsCaller c who
    pub submitter : given.submitter_id ≡ who.auth.id
    pub of_task : given.task_id ≡ who.task.id
    pub in_time : given.status ≡ status_at who.time who.task
    pub sent : String
    pub small : validate_freeform_size (len sent) ≡ true
    pub decoded : h.decode_base64 sent ≡ ok given.submission
    pub made : (w : W) × ((h.create_freeform given w).0 ≡ ok row)

  -- The line of the submission has no id: only the context is printed.
  unfoldable pub freeform_duty : Duty FreeformSubmission
  freeform_duty = record {
    in_table = freeform_row;
    Inserts = IsNewFreeform;
    Archives = λ who row.
        IsArchiveLine (audit_context h.id_text who.auth who.task) freeform_pov entity_freeform_pov
          (h.id_text row.id);
    Jobs = λ who row jobs. jobs ≡ [];
    report = λ who given row. log_freeform_submission (audit_context h.id_text who.auth who.task);
  }

  freeform_inserted-Emits :
      (who : Caller) (sent submission : String)
      → IsCaller c who
      → validate_freeform_size (len sent) ≡ true
      → h.decode_base64 sent ≡ ok submission
      → Emits
          (Trace freeform_duty)
          (take_freeform (recorded_handler h) who.auth who.task who.time sent submission)
  unfolding take_freeform new_freeform freeform_duty
  freeform_inserted-Emits who sent submission caller small decoded =
      let given = new_freeform who.auth who.task who.time submission in
      Emits-noted_or (λ row. inserted (freeform_row given) (freeform_row row))
        (h.create_freeform given) internal_server_error _ rejected
        λ w row made.
          Emits-filed freeform_duty h who given row (audit_context h.id_text who.auth who.task) sent
            freeform_pov entity_freeform_pov (h.id_text row.id) _
            (record {
              caller = caller;
              submitter = refl;
              of_task = refl;
              in_time = refl;
              sent = sent;
              small = small;
              decoded = decoded;
              made = (w, made);
            })
            (λ store name. record { store = store; object_name = name; is_line = refl }) refl

  submit_freeform-Emits :
      Emits (Trace freeform_duty) (submit_freeform (recorded_handler h) (recorded_request c))
  unfolding submit_freeform freeform_duty
  submit_freeform-Emits = Emits-from_context c.task _ rejected λ task e_task.
      Emits-from_context c.auth _ rejected λ auth e_auth.
        Emits-from_context c.time _ rejected λ time e_time.
          Emits-bind (or_return c.bind (bad_request "failed to parse request data")) _ rejected
            λ w₀ sent _.
              Emits-bind (or_return (lift (c.validate sent)) (bad_request "validation error")) _
                rejected
                λ w₁ _ _.
                  Emits-check (validate_freeform_size (len sent)) (bad_request "validation error") _
                    rejected
                    λ small.
                      Emits-bind
                        (or_return (lift (h.decode_base64 sent))
                          (bad_request "failed to decode base64"))
                        _ rejected
                        λ w₂ submission e_decoded.
                          freeform_inserted-Emits (record { auth = auth; task = task; time = time })
                            sent submission
                            (record { authenticated = e_auth; on_task = e_task; on_time = e_time })
                            small
                            (or_return_inv (lift {W = W} (h.decode_base64 sent)) _ w₂ e_decoded)

  -- Whatever the request and however the calls outside answer, `SubmitFreeform` does a prefix of this,
  -- in this order, and succeeds exactly if it does it all: it inserts one row, for the team, the task
  -- and the time of the request, with what a text of an allowed length stands for; it prints the line
  -- of the archived text under the row's id; and it prints the line of the submission.
  pub submit_freeform-Trace :
      (s : World W)
      → let (r, s') = submit_freeform (recorded_handler h) (recorded_request c) s in
        Emitted (Trace freeform_duty) (is_ok r) s.1 s'
  submit_freeform-Trace s = submit_freeform-Emits.at s
