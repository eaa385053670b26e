-- ===== src/Types/Bundle.antt =====
-- competition-api/internal/types/bundle.go: the fields of a bundle, as sent and as parsed.
pub mod Parsing
use competition_api.Prelude.{
  ℕ, suc, ◌+◌, String, Bool, true, false, Option, none, some, Result, ok, err, ltb, if◌then◌else◌,
}
use competition_api.WorkerErrors.{GoError, message, wrapped}
use competition_api.Types.Optional.{Optional, has_value, map_optional}

-- A UUID, as a number of 128 bits.
abbrev pub Uuid : Type 0
Uuid = ℕ

pub record BundleSubmission : Type 0 where
  pub pov_id : Optional String
  pub patch_id : Optional String
  pub submitted_sarif_id : Optional String
  pub broadcast_sarif_id : Optional String
  pub description : Optional String
  pub freeform_id : Optional String

pub record BundleSubmissionParsed : Type 0 where
  pub pov_id : Optional Uuid
  pub patch_id : Optional Uuid
  pub submitted_sarif_id : Optional Uuid
  pub broadcast_sarif_id : Optional Uuid
  pub description : Optional String
  pub freeform_id : Optional Uuid

-- `if b { count++ }`
abbrev pub bump : Bool → ℕ
bump true = 1
bump false = 0

unfoldable pub count_given : BundleSubmission → ℕ
count_given b =
    bump (has_value b.pov_id)
    + bump (has_value b.broadcast_sarif_id)
    + bump (has_value b.description)
    + bump (has_value b.patch_id)
    + bump (has_value b.submitted_sarif_id)
    + bump (has_value b.freeform_id)

-- The method `ValidateFieldCount`.
unfoldable pub validate_field_count : BundleSubmission → Result GoError (Unit {0})
unfolding count_given
validate_field_count b =
    if ltb (count_given b) 2 then err (message "must set at least 2 fields") else ok tt

module _ {A B : Type 0} where
  infixl 5 ◌>>=◌
  abbrev pub ◌>>=◌ : Result GoError A → (A → Result GoError B) → Result GoError B
  ok a >>= f = f a
  err e >>= f = err e

-- `parse` is `uuid.Parse`, of a library.
module _ (parse : String → Result GoError Uuid) where
  abbrev parsed_id : Result GoError Uuid → Result GoError (Option Uuid)
  parsed_id (ok id) = ok (some id)
  parsed_id (err e) = err (wrapped "failed to parse uuid" e)

  abbrev pub parse_uuid : Option String → Result GoError (Option Uuid)
  parse_uuid none = ok none
  parse_uuid (some v) = parsed_id (parse v)

  -- The method `Parse`.
  unfoldable pub parse_bundle : BundleSubmission → Result GoError BundleSubmissionParsed
  parse_bundle b = do
    pov_id ← map_optional b.pov_id parse_uuid
    patch_id ← map_optional b.patch_id parse_uuid
    submitted_sarif_id ← map_optional b.submitted_sarif_id parse_uuid
    broadcast_sarif_id ← map_optional b.broadcast_sarif_id parse_uuid
    freeform_id ← map_optional b.freeform_id parse_uuid
    ok (record {
      pov_id = pov_id;
      patch_id = patch_id;
      submitted_sarif_id = submitted_sarif_id;
      broadcast_sarif_id = broadcast_sarif_id;
      description = b.description;
      freeform_id = freeform_id;
    })
