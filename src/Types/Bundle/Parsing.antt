-- ===== src/Types/Bundle/Parsing.antt =====
-- The fields of a bundle that are given, before and after parsing.
use competition_api.Prelude.{ℕ, ◌+◌, String, ◌≡◌, ap, Result, ok, arith}
use competition_api.WorkerErrors.{GoError}
use competition_api.Types.Optional.{Optional, has_value, map_optional}
use competition_api.Types.Bundle.{
  Uuid, BundleSubmission, BundleSubmissionParsed, bump, count_given, parse_uuid, parse_bundle,
}

-- The fields of a parsed bundle that hold data.
abbrev pub count_parsed : BundleSubmissionParsed → ℕ
count_parsed p =
    bump (has_value p.pov_id)
    + bump (has_value p.broadcast_sarif_id)
    + bump (has_value p.description)
    + bump (has_value p.patch_id)
    + bump (has_value p.submitted_sarif_id)
    + bump (has_value p.freeform_id)

module _ (parse : String → Result GoError Uuid) where
  has_value-map_optional :
      (o : Optional String) (q : Optional Uuid)
      → map_optional o (parse_uuid parse) ≡ ok q
      → has_value q ≡ has_value o
  unfolding map_optional
  has_value-map_optional o q h = ground arith

  parse_bundle_parts :
      (b : BundleSubmission) (p : BundleSubmissionParsed)
      → parse_bundle parse b ≡ ok p
      → (map_optional b.pov_id (parse_uuid parse) ≡ ok p.pov_id)
        × (map_optional b.patch_id (parse_uuid parse) ≡ ok p.patch_id)
        × (map_optional b.submitted_sarif_id (parse_uuid parse) ≡ ok p.submitted_sarif_id)
        × (map_optional b.broadcast_sarif_id (parse_uuid parse) ≡ ok p.broadcast_sarif_id)
        × (map_optional b.freeform_id (parse_uuid parse) ≡ ok p.freeform_id)
        × (p.description ≡ b.description)
  unfolding parse_bundle
  parse_bundle_parts b p h = ground arith

  bump-map_optional :
      (o : Optional String) (q : Optional Uuid)
      → map_optional o (parse_uuid parse) ≡ ok q
      → bump (has_value q) ≡ bump (has_value o)
  bump-map_optional o q h = ap bump (has_value-map_optional o q h)

  -- A parsed bundle has as many fields with data as the one that was sent.
  pub count_parsed-parse_bundle :
      (b : BundleSubmission) (p : BundleSubmissionParsed)
      → parse_bundle parse b ≡ ok p
      → count_parsed p ≡ count_given b
  unfolding count_given
  count_parsed-parse_bundle b p h =
      let q = parse_bundle_parts b p h in
      omega (
        arith,
        bump-map_optional b.pov_id p.pov_id q.0,
        bump-map_optional b.patch_id p.patch_id q.1,
        bump-map_optional b.submitted_sarif_id p.submitted_sarif_id q.2,
        bump-map_optional b.broadcast_sarif_id p.broadcast_sarif_id q.3,
        bump-map_optional b.freeform_id p.freeform_id q.4,
        ap (λ (o : Optional String). bump (has_value o)) q.5,
      )
