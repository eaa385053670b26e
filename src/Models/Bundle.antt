-- ===== src/Models/Bundle.antt =====
-- competition-api/cmd/server/internal/models/bundle.go: the row of a bundle, and how a request
-- changes it.
pub mod Fields
pub mod Relations
use competition_api.Prelude.{
  ℕ, ◌+◌, String, Bool, true, false, not, ◌&&◌, ◌||◌, Option, none, some, List, [], ◌∷◌, ◌++◌,
}
use competition_api.Types.Status.{SubmissionStatus}
use competition_api.Types.Optional.{Optional, is_present, has_value}
use competition_api.Types.Bundle.{Uuid, BundleSubmissionParsed, bump}

-- A column of `datatypes.Null` is null or a value.
pub record Bundle : Type 0 where
  pub id : Uuid
  pub status : SubmissionStatus
  pub description : Option String
  pub pov_id : Option Uuid
  pub patch_id : Option Uuid
  pub broadcast_sarif_id : Option Uuid
  pub submitted_sarif_id : Option Uuid
  pub freeform_id : Option Uuid
  pub submitter_id : Uuid
  pub task_id : Uuid

-- A row that has to be there: one of the bundle's submitter and task, or, for a broadcast, of its
-- task.
pub data Requirement : Type 0 where
  pov_submission patch_submission sarif_broadcast : Uuid → Requirement
  sarif_submission freeform_submission : Uuid → Requirement

abbrev pub updated_if : {A : Type 0} → Bool → Option A → Option A → Option A
updated_if true value old = value
updated_if false value old = old

-- `if o.Defined { s.F = NewNull(o.Value) }`
abbrev pub updated : {A : Type 0} → Optional A → Option A → Option A
updated o old = updated_if o.defined o.value old

abbrev pub required_if : Bool → Option Uuid → (Uuid → Requirement) → List Requirement
required_if true (some id) table = table id ∷ []
required_if _ _ table = []

-- `if o.Defined { if o.Value != nil { exists = append(exists, …) } }`
abbrev pub required : Optional Uuid → (Uuid → Requirement) → List Requirement
required o table = required_if o.defined o.value table

-- `CheckAndSetRelations`: the rows that its query asks for,
unfoldable pub requirements : BundleSubmissionParsed → List Requirement
requirements parsed =
    required parsed.pov_id pov_submission
    ++ (required parsed.patch_id patch_submission
        ++ (required parsed.broadcast_sarif_id sarif_broadcast
            ++ (required parsed.submitted_sarif_id sarif_submission
                ++ required parsed.freeform_id freeform_submission)))

-- and the bundle that it leaves.
unfoldable pub set_relations : Bundle → BundleSubmissionParsed → Bundle
set_relations s parsed = record s {
  pov_id = updated parsed.pov_id s.pov_id;
  patch_id = updated parsed.patch_id s.patch_id;
  broadcast_sarif_id = updated parsed.broadcast_sarif_id s.broadcast_sarif_id;
  submitted_sarif_id = updated parsed.submitted_sarif_id s.submitted_sarif_id;
  description = updated parsed.description s.description;
  freeform_id = updated parsed.freeform_id s.freeform_id;
}

-- `(s.F.Valid && !parsed.F.Defined) || (parsed.F.Defined && parsed.F.Value != nil)`
abbrev pub stays_set : {A : Type 0} → Option A → Optional A → Bool
stays_set column o = (is_present column && not o.defined) || (o.defined && is_present o.value)

-- `CountNotNull`
unfoldable pub count_not_null : Bundle → BundleSubmissionParsed → ℕ
count_not_null s parsed =
    bump (stays_set s.pov_id parsed.pov_id)
    + bump (stays_set s.patch_id parsed.patch_id)
    + bump (stays_set s.broadcast_sarif_id parsed.broadcast_sarif_id)
    + bump (stays_set s.submitted_sarif_id parsed.submitted_sarif_id)
    + bump (stays_set s.description parsed.description)
    + bump (stays_set s.freeform_id parsed.freeform_id)
