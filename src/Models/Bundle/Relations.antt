-- ===== src/Models/Bundle/Relations.antt =====
-- What a request makes of the columns of a bundle, and the rows that have to be there for it.
use mathlib.Core.List.{Mem, mem-cons_self, mem-append_left, mem-append_right}
use competition_api.Prelude.{◌≡◌, refl, Bool, true, false, Option, none, some}
use competition_api.Types.Optional.{Optional}
use competition_api.Types.Bundle.{Uuid, BundleSubmissionParsed}
use competition_api.Models.Bundle.{
  Requirement, pov_submission, patch_submission, sarif_broadcast, sarif_submission,
  freeform_submission, updated_if, updated, required, requirements,
}

-- A column that a request leaves out is left alone, one that it sets to null is null, and one that it sets
-- to a value has the value, of which `Found` holds.
pub data IsColumn {A : Type 0} (Found : A → Type 0) (o : Optional A) (old new : Option A)
    : Type 0 where
  left_alone : o.defined ≡ false → new ≡ old → IsColumn Found o old new
  made_null : o.defined ≡ true → o.value ≡ none → new ≡ none → IsColumn Found o old new
  set_to :
      (a : A)
      → o.defined ≡ true
      → o.value ≡ some a
      → new ≡ some a
      → Found a
      → IsColumn Found o old new

pub updated-IsColumn :
    {A : Type 0} (Found : A → Type 0) (o : Optional A) (old : Option A)
    → ((a : A) → o.defined ≡ true → o.value ≡ some a → Found a)
    → IsColumn Found o old (updated o old)
updated-IsColumn {A} Found o old h = cases o.defined refl o.value refl
  where
    cases :
        (d : Bool)
        → o.defined ≡ d
        → (v : Option A) → o.value ≡ v
        → IsColumn Found o old (updated_if d v old)
    cases false e v f = left_alone e refl
    cases true e none f = made_null e f refl
    cases true e (some a) f = set_to a e f refl (h a e f)

required-Mem :
    (o : Optional Uuid) (table : Uuid → Requirement) (id : Uuid)
    → o.defined ≡ true
    → o.value ≡ some id
    → Mem (table id) (required o table)
required-Mem o table id e f = rw (e, f) mem-cons_self

-- A row that a request names is among those that are asked for.
pub requirements-Mem :
    (parsed : BundleSubmissionParsed) (id : Uuid)
    → let Named = λ (o : Optional Uuid) (table : Uuid → Requirement).
      o.defined ≡ true → o.value ≡ some id → Mem (table id) (requirements parsed) in
      Named parsed.pov_id pov_submission
      × Named parsed.patch_id patch_submission
      × Named parsed.broadcast_sarif_id sarif_broadcast
      × Named parsed.submitted_sarif_id sarif_submission
      × Named parsed.freeform_id freeform_submission
unfolding requirements
requirements-Mem parsed id = (
  λ e f. mem-append_left _ (required-Mem parsed.pov_id pov_submission id e f),
  λ e f.
      mem-append_right (required parsed.pov_id pov_submission)
        (mem-append_left _ (required-Mem parsed.patch_id patch_submission id e f)),
  λ e f. mem-append_right (required parsed.pov_id pov_submission) (
      mem-append_right (required parsed.patch_id patch_submission)
        (mem-append_left _ (required-Mem parsed.broadcast_sarif_id sarif_broadcast id e f))),
  λ e f. mem-append_right (required parsed.pov_id pov_submission) (
      mem-append_right (required parsed.patch_id patch_submission) (
        mem-append_right (required parsed.broadcast_sarif_id sarif_broadcast)
          (mem-append_left _ (required-Mem parsed.submitted_sarif_id sarif_submission id e f)))),
  λ e f. mem-append_right (required parsed.pov_id pov_submission) (
      mem-append_right (required parsed.patch_id patch_submission) (
        mem-append_right (required parsed.broadcast_sarif_id sarif_broadcast) (
          mem-append_right (required parsed.submitted_sarif_id sarif_submission)
            (required-Mem parsed.freeform_id freeform_submission id e f)))),
)
