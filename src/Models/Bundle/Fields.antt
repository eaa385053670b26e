-- ===== src/Models/Bundle/Fields.antt =====
-- The count that guards an update, against the fields that the update leaves set.
use competition_api.Prelude.{ℕ, ◌+◌, ◌≤◌, ◌≡◌, Option, arith}
use competition_api.Types.Optional.{Optional, is_present, has_value}
use competition_api.Types.Bundle.{BundleSubmissionParsed, bump}
use competition_api.Types.Bundle.Parsing.{count_parsed}
use competition_api.Models.Bundle.{Bundle, updated, stays_set, set_relations, count_not_null}

-- The columns of a bundle that hold data.
abbrev pub count_set : Bundle → ℕ
count_set s =
    bump (is_present s.pov_id)
    + bump (is_present s.patch_id)
    + bump (is_present s.broadcast_sarif_id)
    + bump (is_present s.submitted_sarif_id)
    + bump (is_present s.description)
    + bump (is_present s.freeform_id)

stays_set-updated :
    {A : Type 0} (column : Option A) (o : Optional A)
    → bump (stays_set column o) ≡ bump (is_present (updated o column))
stays_set-updated column o = ground arith

-- `CountNotNull` is the number of fields that are set once `CheckAndSetRelations` has run: neither a
-- field that the request clears nor one that it leaves alone is counted wrongly.
pub count_not_null-set_relations :
    (s : Bundle) (parsed : BundleSubmissionParsed)
    → count_not_null s parsed ≡ count_set (set_relations s parsed)
unfolding count_not_null set_relations
count_not_null-set_relations s parsed = simp stays_set-updated

has_value-le-updated :
    {A : Type 0} (o : Optional A) (column : Option A)
    → bump (has_value o) ≤ bump (is_present (updated o column))
has_value-le-updated o column = ground arith

-- Every field that a request gives is set afterwards.
pub count_parsed-le :
    (s : Bundle) (parsed : BundleSubmissionParsed)
    → count_parsed parsed ≤ count_set (set_relations s parsed)
unfolding set_relations
count_parsed-le s parsed = omega (
  arith,
  has_value-le-updated parsed.pov_id s.pov_id,
  has_value-le-updated parsed.patch_id s.patch_id,
  has_value-le-updated parsed.broadcast_sarif_id s.broadcast_sarif_id,
  has_value-le-updated parsed.submitted_sarif_id s.submitted_sarif_id,
  has_value-le-updated parsed.description s.description,
  has_value-le-updated parsed.freeform_id s.freeform_id,
)
