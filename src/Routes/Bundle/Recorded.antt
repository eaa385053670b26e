-- ===== src/Routes/Bundle/Recorded.antt =====
-- The bundle handlers with their writes recorded, and the writes that a request justifies.
use mathlib.Core.List.{Mem}
use competition_api.Prelude.{ℕ, ◌≤◌, ◌≡◌, true, Option, none, some, List, ok}
use competition_api.Types.Bundle.{BundleSubmission, BundleSubmissionParsed, parse_bundle}
use competition_api.Models.Rows.{Auth, Task}
use competition_api.Models.Bundle.{
  Bundle, Requirement, pov_submission, patch_submission, sarif_broadcast, sarif_submission,
  freeform_submission,
}
use competition_api.Models.Bundle.Relations.{IsColumn}
use competition_api.Models.Bundle.Fields.{count_set}
use competition_api.Writes.{Recorded, unrecorded, recorded}
use competition_api.Routes.Context.{status_at}
use competition_api.Routes.Bundle.{BundleServer, Request}

pub data BundleWrite : Type 0 where
  created saved deleted : Bundle → BundleWrite

module _ {W : Type 0} where
  abbrev pub recorded_server : BundleServer W → BundleServer (Recorded BundleWrite W)
  recorded_server h = record {
    exists_all = λ rows task submitter. unrecorded (h.exists_all rows task submitter);
    create = λ b. recorded (created b) (h.create b);
    save = λ b. recorded (saved b) (h.save b);
    delete = λ b. recorded (deleted b) (h.delete b);
    print_line = λ line s. (h.print_line line s.0, s.1);
    id_text = h.id_text;
    parse_id = h.parse_id;
  }

  abbrev pub recorded_request : Request W → Request (Recorded BundleWrite W)
  recorded_request c = record {
    auth = c.auth;
    task = c.task;
    bundle = c.bundle;
    time = c.time;
    bind = unrecorded c.bind;
    validate = c.validate;
  }

module _ {W : Type 0} (h : BundleServer W) (c : Request W) where
  -- A column of the row that is replaced; null where a row is inserted.
  abbrev pub column : {A : Type 0} → (Bundle → Option A) → Option Bundle → Option A
  column get none = none
  column get (some old) = get old

  -- The columns of the row `b` that is written are those of `old` as the body of the request changes
  -- them, and the rows that the body names were among those that one query found for the task and the
  -- submitter of `b`.
  pub record IsChanged (old : Option Bundle) (b : Bundle) : Type 0 where
    pub sent_in : W
    pub body : BundleSubmission
    pub sent : (c.bind sent_in).0 ≡ ok body
    pub parsed : BundleSubmissionParsed
    pub parsed_from : parse_bundle h.parse_id body ≡ ok parsed
    pub rows : List Requirement
    pub asked_in : W
    pub found : (h.exists_all rows b.task_id b.submitter_id asked_in).0 ≡ ok true
    pub pov :
        IsColumn
          (λ id. Mem (pov_submission id) rows)
          parsed.pov_id
          (column (λ x. x.pov_id) old)
          b.pov_id
    pub patch :
        IsColumn
          (λ id. Mem (patch_submission id) rows)
          parsed.patch_id
          (column (λ x. x.patch_id) old)
          b.patch_id
    pub broadcast :
        IsColumn
          (λ id. Mem (sarif_broadcast id) rows)
          parsed.broadcast_sarif_id
          (column (λ x. x.broadcast_sarif_id) old)
          b.broadcast_sarif_id
    pub sarif :
        IsColumn
          (λ id. Mem (sarif_submission id) rows)
          parsed.submitted_sarif_id
          (column (λ x. x.submitted_sarif_id) old)
          b.submitted_sarif_id
    pub freeform :
        IsColumn
          (λ id. Mem (freeform_submission id) rows)
          parsed.freeform_id
          (column (λ x. x.freeform_id) old)
          b.freeform_id
    pub text :
        IsColumn (λ d. Unit {0}) parsed.description (column (λ x. x.description) old) b.description

  -- A row that may be inserted, or stored in place of `old`, for the team `auth` and the task `task`.
  pub record IsSound (auth : Auth) (task : Task) (old : Option Bundle) (b : Bundle) : Type 0 where
    pub authenticated : c.auth ≡ some auth
    pub on_task : c.task ≡ some task
    pub submitter : b.submitter_id ≡ auth.id
    pub of_task : b.task_id ≡ task.id
    pub two_fields : 2 ≤ count_set b
    pub changed : IsChanged old b

  -- The writes that a request justifies.
  pub data Justified : BundleWrite → Type 0 where
    may_create :
        (auth : Auth) (task : Task) (time : ℕ) (b : Bundle)
        → IsSound auth task none b
        → c.time ≡ some time
        → b.status ≡ status_at time task
        → Justified (created b)
    may_save :
        (auth : Auth) (task : Task) (time : ℕ) (old b : Bundle)
        → IsSound auth task (some old) b
        → c.time ≡ some time
        → time ≤ task.deadline
        → c.bundle ≡ some old
        → (b.id ≡ old.id) × (b.status ≡ old.status)
        → Justified (saved b)
    may_delete :
        (auth : Auth) (task : Task) (time : ℕ) (b : Bundle)
        → c.auth ≡ some auth
        → c.task ≡ some task
        → c.time ≡ some time
        → c.bundle ≡ some b
        → (b.submitter_id ≡ auth.id) × (b.task_id ≡ task.id)
        → time ≤ task.deadline
        → Justified (deleted b)
