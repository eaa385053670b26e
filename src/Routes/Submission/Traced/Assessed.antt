-- ===== src/Routes/Submission/Traced/Assessed.antt =====
-- What `SubmitSarifAssessment` inserts and prints.
use competition_api.Prelude.{
  ◌≡◌, refl, Bool, true, false, Option, some, List, [], ◌∷◌, ok, is_ok, lift, or_return, ◌==◌,
  arith,
}
use competition_api.Audit.Log.{log_sarif_assessment}
use competition_api.Models.Rows.{Task}
use competition_api.Models.Submissions.{SarifBroadcast, SarifAssessment}
use competition_api.Http.{internal_server_error, not_found_error, bad_request}
use competition_api.Traces.{
  Emitted, Emits, Emits-pure, Emits-bind, Emits-noted_or, Emits-from_context, Emits-check,
  Emits-act,
}
use competition_api.Routes.Context.{status_at, audit_context}
use competition_api.Routes.Submission.{Handler, SubmissionRequest}
use competition_api.Routes.Submission.Reports.{
  AssessmentBody, assessment_text, new_assessment, submit_sarif_assessment,
}
use competition_api.Routes.Submission.Traced.{
  World, SubmissionEvent, inserted, printed, assessment_row, recorded_handler, recorded_request,
  Caller, IsCaller,
}

module _ {W : Type 0} (h : Handler W) (sarif_in_context : Option SarifBroadcast)
    (c : SubmissionRequest W AssessmentBody) where
  -- A row that may be inserted: it assesses a broadcast of the task of the request.
  pub record IsNewAssessment (who : Caller) (broadcast : SarifBroadcast)
      (given row : SarifAssessment) : Type 0 where
    pub caller : IsCaller c who
    pub found : sarif_in_context ≡ some broadcast
    pub same_task : broadcast.task_id ≡ who.task.id
    pub submitter : given.submitter_id ≡ who.auth.id
    pub of_broadcast : given.sarif_broadcast_id ≡ broadcast.id
    pub in_time : given.status ≡ status_at who.time who.task
    pub made : (w : W) × ((h.create_assessment given w).0 ≡ ok row)

  -- Nothing, or one row and its line; the request succeeds exactly then.
  pub data AssessmentTrace : Bool → List SubmissionEvent → Type 0 where
    rejected : AssessmentTrace false []
    assessed :
        (who : Caller) (broadcast : SarifBroadcast) (given row : SarifAssessment)
        → IsNewAssessment who broadcast given row
        → AssessmentTrace true (
            inserted (assessment_row given) (assessment_row row)
            ∷ printed (
                log_sarif_assessment
                  (audit_context h.id_text who.auth who.task)
                  (h.id_text row.id)
                  (assessment_text given.assessment)
                  (h.id_text broadcast.id))
            ∷ [])

  same_task_inv :
      (broadcast : SarifBroadcast) (task : Task)
      → (broadcast.task_id == task.id) ≡ true
      → broadcast.task_id ≡ task.id
  same_task_inv broadcast task e = ground arith

  submit_sarif_assessment-Emits :
      Emits AssessmentTrace
        (submit_sarif_assessment (recorded_handler h) sarif_in_context (recorded_request c))
  unfolding submit_sarif_assessment new_assessment
  submit_sarif_assessment-Emits = Emits-from_context c.auth _ rejected λ auth e_auth.
      Emits-from_context c.task _ rejected λ task e_task.
        Emits-from_context sarif_in_context _ rejected λ broadcast e_sarif.
          Emits-from_context c.time _ rejected λ time e_time.
            Emits-bind (or_return c.bind (bad_request "failed to parse request data")) _ rejected
              λ w₀ rdata _.
                Emits-bind (or_return (lift (c.validate rdata)) (bad_request "validation error")) _
                  rejected
                  λ w₁ _ _.
                    Emits-check (broadcast.task_id == task.id) not_found_error _ rejected λ same.
                      let given = new_assessment auth task time broadcast rdata.assessment in
                      Emits-noted_or (λ row. inserted (assessment_row given) (assessment_row row))
                        (h.create_assessment given) internal_server_error _ rejected
                        λ w row made. Emits-act _ (h.print_line _) _ (
                          Emits-pure _ (
                            assessed (record { auth = auth; task = task; time = time }) broadcast
                              given row
                              (record {
                                caller = record {
                                  authenticated = e_auth;
                                  on_task = e_task;
                                  on_time = e_time;
                                };
                                found = e_sarif;
                                same_task = same_task_inv broadcast task same;
                                submitter = refl;
                                of_broadcast = refl;
                                in_time = refl;
                                made = (w, made);
                              })))

  -- Whatever the request and however the database answers, `SubmitSarifAssessment` does nothing and
  -- fails, or it succeeds, and then it has inserted one row, for the team and the time of the request
  -- and the broadcast in its context, which is of the task of the request, and after that has printed
  -- one line with the ids of both and the assessment.
  pub submit_sarif_assessment-Trace :
      (s : World W)
      → let (r, s') =
          submit_sarif_assessment (recorded_handler h) sarif_in_context (recorded_request c) s in
        Emitted AssessmentTrace (is_ok r) s.1 s'
  submit_sarif_assessment-Trace s = submit_sarif_assessment-Emits.at s
