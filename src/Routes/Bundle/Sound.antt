-- ===== src/Routes/Bundle/Sound.antt =====
-- The rows that the bundle handlers write are sound.
use competition_api.Prelude.{
  ℕ, ◌≤◌, ◌≡◌, refl, ap, ◌∙◌, Bool, true, not, Option, none, some, ok, lift, or_return,
  or_return_inv, ltb, arith,
}
use competition_api.Types.Bundle.{
  Uuid, BundleSubmission, BundleSubmissionParsed, count_given, validate_field_count, parse_bundle,
}
use competition_api.Types.Bundle.Parsing.{count_parsed-parse_bundle}
use competition_api.Models.Rows.{Auth, Task}
use competition_api.Models.Bundle.{Bundle, requirements, set_relations, count_not_null}
use competition_api.Models.Bundle.Fields.{count_not_null-set_relations, count_parsed-le}
use competition_api.Models.Bundle.Relations.{updated-IsColumn, requirements-Mem}
use competition_api.Http.{internal_server_error, bad_request}
use competition_api.Routes.Context.{is_late, status_at}
use competition_api.Routes.Bundle.{BundleServer, Request, is_own, new_bundle}
use competition_api.Routes.Bundle.Recorded.{column, IsChanged, IsSound}

module _ {W : Type 0} (h : BundleServer W) (c : Request W) where
  pub own_inv :
      (auth : Auth) (task : Task) (b : Bundle)
      → is_own auth task b ≡ true
      → (b.submitter_id ≡ auth.id) × (b.task_id ≡ task.id)
  own_inv auth task b e = ground arith

  pub in_time : (time : ℕ) (task : Task) → not (is_late time task) ≡ true → time ≤ task.deadline
  in_time time task e = ground arith

  pub given_two :
      (r : BundleSubmission) {x : Unit {0}} → validate_field_count r ≡ ok x → 2 ≤ count_given r
  unfolding validate_field_count
  given_two r e = ground arith

  enough_fields : (n : ℕ) → not (ltb n 2) ≡ true → 2 ≤ n
  enough_fields n e = ground arith

  pub found_all :
      (parsed : BundleSubmissionParsed) (task_id submitter_id : Uuid) (w : W) {valid : Bool}
      → (or_return
          (h.exists_all (requirements parsed) task_id submitter_id)
          internal_server_error
          w).0
        ≡ ok valid
      → valid ≡ true
      → (h.exists_all (requirements parsed) task_id submitter_id w).0 ≡ ok true
  found_all parsed task_id submitter_id w e v =
      or_return_inv (h.exists_all (requirements parsed) task_id submitter_id) internal_server_error
        w e
      ∙ ap ok v

  -- What a body makes of the columns of a row.
  pub set_relations-IsChanged :
      (old : Option Bundle) (b : Bundle) (w₀ w : W) (r : BundleSubmission)
      (parsed : BundleSubmissionParsed)
      → (c.bind w₀).0 ≡ ok r
      → parse_bundle h.parse_id r ≡ ok parsed
      → (h.exists_all (requirements parsed) b.task_id b.submitter_id w).0 ≡ ok true
      → (column h c (λ x. x.pov_id) old ≡ b.pov_id)
        × (column h c (λ x. x.patch_id) old ≡ b.patch_id)
        × (column h c (λ x. x.broadcast_sarif_id) old ≡ b.broadcast_sarif_id)
        × (column h c (λ x. x.submitted_sarif_id) old ≡ b.submitted_sarif_id)
        × (column h c (λ x. x.freeform_id) old ≡ b.freeform_id)
        × (column h c (λ x. x.description) old ≡ b.description)
      → IsChanged h c old (set_relations b parsed)
  unfolding set_relations
  set_relations-IsChanged old b w₀ w r parsed sent p found
        (pov, patch, broadcast, sarif, freeform, text) =
      record {
        sent_in = w₀;
        body = r;
        sent = sent;
        parsed = parsed;
        parsed_from = p;
        rows = requirements parsed;
        asked_in = w;
        found = found;
        pov =
            rw pov (updated-IsColumn _ parsed.pov_id b.pov_id λ id. (requirements-Mem parsed id).0);
        patch =
            rw patch
              (updated-IsColumn _ parsed.patch_id b.patch_id λ id. (requirements-Mem parsed id).1);
        broadcast = rw broadcast (
            updated-IsColumn _ parsed.broadcast_sarif_id b.broadcast_sarif_id
              λ id. (requirements-Mem parsed id).2);
        sarif = rw sarif (
            updated-IsColumn _ parsed.submitted_sarif_id b.submitted_sarif_id
              λ id. (requirements-Mem parsed id).3);
        freeform = rw freeform (
            updated-IsColumn _ parsed.freeform_id b.freeform_id
              λ id. (requirements-Mem parsed id).4);
        text = rw text (updated-IsColumn _ parsed.description b.description λ d e f. tt);
      }

  blank_columns :
      (auth : Auth) (task : Task) (time : ℕ)
      → let b = new_bundle auth task time in
        (none ≡ b.pov_id)
        × (none ≡ b.patch_id)
        × (none ≡ b.broadcast_sarif_id)
        × (none ≡ b.submitted_sarif_id)
        × (none ≡ b.freeform_id)
        × (none ≡ b.description)
  unfolding new_bundle
  blank_columns auth task time = (refl, refl, refl, refl, refl, refl)

  -- The row that a POST inserts is sound.
  pub new_bundle-IsSound :
      (auth : Auth) (task : Task) (time : ℕ) (r : BundleSubmission)
      (parsed : BundleSubmissionParsed)
      → c.auth ≡ some auth
      → c.task ≡ some task
      → 2 ≤ count_given r
      → parse_bundle h.parse_id r ≡ ok parsed
      → IsChanged h c none (set_relations (new_bundle auth task time) parsed)
      → IsSound h c auth task none (set_relations (new_bundle auth task time) parsed)
  unfolding set_relations new_bundle
  new_bundle-IsSound auth task time r parsed e_auth e_task two p changed = record {
    authenticated = e_auth;
    on_task = e_task;
    submitter = refl;
    of_task = refl;
    two_fields = omega (
      arith,
      two,
      count_parsed-parse_bundle h.parse_id r parsed p,
      count_parsed-le (new_bundle auth task time) parsed,
    );
    changed = changed;
  }

  -- The row that a PATCH stores is sound.
  pub patched-IsSound :
      (auth : Auth) (task : Task) (b : Bundle) (parsed : BundleSubmissionParsed)
      → c.auth ≡ some auth
      → c.task ≡ some task
      → is_own auth task b ≡ true
      → not (ltb (count_not_null b parsed) 2) ≡ true
      → IsChanged h c (some b) (set_relations b parsed)
      → IsSound h c auth task (some b) (set_relations b parsed)
  unfolding set_relations
  patched-IsSound auth task b parsed e_auth e_task own two changed = record {
    authenticated = e_auth;
    on_task = e_task;
    submitter = (own_inv auth task b own).0;
    of_task = (own_inv auth task b own).1;
    two_fields = rw (← count_not_null-set_relations b parsed) (enough_fields _ two);
    changed = changed;
  }

  pub new_bundle-IsChanged :
      (auth : Auth) (task : Task) (time : ℕ) (r : BundleSubmission)
      (parsed : BundleSubmissionParsed) (w₀ w₁ w₂ : W)
      → (or_return c.bind (bad_request "failed to parse request data") w₀).0 ≡ ok r
      → (or_return
          (lift {W = W} (parse_bundle h.parse_id r))
          (bad_request "failed to parse fields")
          w₁).0
        ≡ ok parsed
      → (h.exists_all (requirements parsed) task.id auth.id w₂).0 ≡ ok true
      → IsChanged h c none (set_relations (new_bundle auth task time) parsed)
  unfolding new_bundle
  new_bundle-IsChanged auth task time r parsed w₀ w₁ w₂ sent p found =
      set_relations-IsChanged none (new_bundle auth task time) w₀ w₂ r parsed
        (or_return_inv c.bind _ w₀ sent)
        (or_return_inv (lift {W = W} (parse_bundle h.parse_id r)) _ w₁ p) found
        (blank_columns auth task time)

  pub new_status :
      (auth : Auth) (task : Task) (time : ℕ) (parsed : BundleSubmissionParsed)
      → (set_relations (new_bundle auth task time) parsed).status ≡ status_at time task
  unfolding set_relations new_bundle
  new_status auth task time parsed = refl

  pub unchanged :
      (b : Bundle) (parsed : BundleSubmissionParsed)
      → ((set_relations b parsed).id ≡ b.id) × ((set_relations b parsed).status ≡ b.status)
  unfolding set_relations
  unchanged b parsed = (refl, refl)
