-- ===== src/Tests/Submissions.antt =====
-- Submissions of a team: their rows, jobs and lines.
use competition_api.Prelude.{
  ℕ, ◌≤◌, ◌↔◌, suc, ◌≡◌, refl, true, false, Option, some, List, [], ◌∷◌, ok, is_ok, pure,
}
use competition_api.Upload.{Uploader, hashed}
use competition_api.Validator.{encoded_len, validate_trigger_size, validate_base64_len}
use competition_api.Validator.Sizes.{rounded_up, validate_base64_len-encoded_len}
use competition_api.Archive.{ArchiveSystem, archive_file}
use competition_api.Models.Submissions.{SarifBroadcast, correct}
use competition_api.Models.Sources.{base_repo_url}
use competition_api.Traces.{Emitted}
use competition_api.Routes.Submission.{Handler, SubmissionRequest}
use competition_api.Routes.Submission.Pov.{PovBody, start_pov_job, take_pov, submit_pov}
use competition_api.Routes.Submission.Patch.{PatchBody, submit_patch}
use competition_api.Routes.Submission.Reports.{
  AssessmentBody, submit_sarif, submit_freeform, submit_sarif_assessment,
}
use competition_api.Routes.Submission.Traced.{
  World, SubmissionEvent, Trace, recorded_handler, recorded_request,
}
use competition_api.Routes.Submission.Traced.Triggers.{pov_duty, submit_pov-Trace}
use competition_api.Routes.Submission.Traced.Patches.{patch_duty, submit_patch-Trace}
use competition_api.Routes.Submission.Traced.Reported.{
  sarif_duty, freeform_duty, submit_sarif-Trace, submit_freeform-Trace,
}
use competition_api.Routes.Submission.Traced.Assessed.{
  AssessmentTrace, submit_sarif_assessment-Trace,
}
use competition_api.Tests.Fixtures.{sample_task, sample_team}

-- The world is the id of the next row.
abbrev files : ArchiveSystem ℕ
files = record {
  stat_size = λ path. pure 4;
  open_reader = λ path. pure (record { seek_start = pure tt; read_all = pure "file" });
  bytes_reader = λ text. record { seek_start = pure tt; read_all = pure text };
  sha256 = λ text. text;
  print_line = λ line w. w;
}

abbrev blobs : Uploader ℕ
blobs = record {
  upload = λ reader size name. pure tt;
  exists = λ name. pure false;
  store_identifier = pure "bucket";
  presigned_read_url = λ name duration. pure name;
}

abbrev handler : Handler ℕ
handler = record {
  archive_system = files;
  submission_uploader = blobs;
  sources_uploader = blobs;
  archiver = blobs;
  job_client = some (λ job. pure tt);
  decode_base64 = λ text. ok text;
  id_text = λ id. "id";
  create_pov = λ row w. (ok (record row { id = w }), suc w);
  create_patch = λ row w. (ok (record row { id = w }), suc w);
  create_sarif = λ row w. (ok (record row { id = w }), suc w);
  create_freeform = λ row w. (ok (record row { id = w }), suc w);
  create_assessment = λ row w. (ok (record row { id = w }), suc w);
}

abbrev request : {Body : Type 0} → Body → SubmissionRequest ℕ Body
request body = record {
  auth = some sample_team;
  task = some sample_task;
  time = some 90;
  bind = pure body;
  validate = λ b. ok tt;
}

abbrev start : World ℕ
start = (7, [])

abbrev trigger : SubmissionRequest ℕ PovBody
trigger = request (record {
  testcase = "crash";
  fuzzer_name = "fuzz";
  sanitizer = "address";
  architecture = "x86_64";
  engine = "libfuzzer";
})

-- In time and with a client, one job is started between the two lines.
abbrev kinds : List SubmissionEvent → List ℕ
kinds [] = []
kinds (SubmissionEvent.inserted given row ∷ es) = 0 ∷ kinds es
kinds (SubmissionEvent.printed line ∷ es) = 1 ∷ kinds es
kinds (SubmissionEvent.started job ∷ es) = 2 ∷ kinds es

all_of_it :
    kinds (submit_pov (recorded_handler handler) (recorded_request trigger) start).1.1
    ≡ 0 ∷ 1 ∷ 2 ∷ 1 ∷ []
unfolding submit_pov take_pov start_pov_job validate_trigger_size hashed archive_file base_repo_url
all_of_it = refl

submit_pov-Trace_example :
    Emitted
      (Trace (pov_duty handler trigger))
      (is_ok (submit_pov (recorded_handler handler) (recorded_request trigger) start).0)
      start.1
      (submit_pov (recorded_handler handler) (recorded_request trigger) start).1
submit_pov-Trace_example = submit_pov-Trace handler trigger start

abbrev fix : SubmissionRequest ℕ PatchBody
fix = request (record { patch = "diff" })

submit_patch-Trace_example :
    Emitted
      (Trace (patch_duty handler fix))
      (is_ok (submit_patch (recorded_handler handler) (recorded_request fix) start).0)
      start.1
      (submit_patch (recorded_handler handler) (recorded_request fix) start).1
submit_patch-Trace_example = submit_patch-Trace handler fix start

submit_sarif-Trace_example :
    Emitted
      (Trace (sarif_duty handler (λ json. ok tt) ok (request "report")))
      (is_ok
        (submit_sarif
          (recorded_handler handler)
          (λ json. ok tt)
          ok
          (recorded_request (request "report"))
          start).0)
      start.1
      (submit_sarif
        (recorded_handler handler)
        (λ json. ok tt)
        ok
        (recorded_request (request "report"))
        start).1
submit_sarif-Trace_example = submit_sarif-Trace handler (λ json. ok tt) ok (request "report") start

submit_freeform-Trace_example :
    Emitted
      (Trace (freeform_duty handler (request "text")))
      (is_ok
        (submit_freeform (recorded_handler handler) (recorded_request (request "text")) start).0)
      start.1
      (submit_freeform (recorded_handler handler) (recorded_request (request "text")) start).1
submit_freeform-Trace_example = submit_freeform-Trace handler (request "text") start

abbrev judgement : SubmissionRequest ℕ AssessmentBody
judgement = request (record { assessment = correct; description = "a true positive" })

abbrev broadcast : Option SarifBroadcast
broadcast = some (record { id = 4; sarif = "report"; task_id = 5 })

submit_sarif_assessment-Trace_example :
    Emitted
      (AssessmentTrace handler broadcast judgement)
      (is_ok
        (submit_sarif_assessment
          (recorded_handler handler)
          broadcast
          (recorded_request judgement)
          start).0)
      start.1
      (submit_sarif_assessment
        (recorded_handler handler)
        broadcast
        (recorded_request judgement)
        start).1
submit_sarif_assessment-Trace_example =
    submit_sarif_assessment-Trace handler broadcast judgement start

validate_base64_len-encoded_len_example :
    (validate_base64_len (encoded_len 4) 2 ≡ true) ↔ (4 ≤ rounded_up 2)
validate_base64_len-encoded_len_example = validate_base64_len-encoded_len 4 2
