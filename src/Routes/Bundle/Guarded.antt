-- ===== src/Routes/Bundle/Guarded.antt =====
-- What the bundle handlers write to the database, and under which guards.
use competition_api.Prelude.{
  ◌≡◌, refl, not, ◌⊎◌, some, [], ◌∷◌, ◌++◌, lift, or_return, or_return_inv, ltb,
}
use competition_api.Types.Bundle.{validate_field_count, parse_bundle}
use competition_api.Models.Bundle.{requirements, set_relations, count_not_null}
use competition_api.Http.{internal_server_error, not_found_error, bad_request}
use competition_api.Writes.{
  Recorded, Writes, Writes-bind, Writes-from_context, Writes-check, Writes-recorded,
}
use competition_api.Routes.Context.{is_late}
use competition_api.Routes.Bundle.{
  BundleServer, Request, is_own, deadline_passed, new_bundle, submit_bundle, patch_bundle,
  delete_bundle,
}
use competition_api.Routes.Bundle.Recorded.{
  BundleWrite, created, saved, deleted, recorded_server, recorded_request, Justified, may_create,
  may_save, may_delete,
}
use competition_api.Routes.Bundle.Sound.{
  own_inv, in_time, given_two, found_all, set_relations-IsChanged, new_bundle-IsSound,
  patched-IsSound, new_bundle-IsChanged, new_status, unchanged,
}

module _ {W : Type 0} (h : BundleServer W) (c : Request W) where
  -- A DELETE writes nothing, or deletes the team's own bundle before the task's deadline.
  delete_bundle-Writes :
      Writes (Justified h c) (delete_bundle (recorded_server h) (recorded_request c))
  unfolding delete_bundle
  delete_bundle-Writes = Writes-from_context c.auth _ λ auth e_auth.
      Writes-from_context c.task _ λ task e_task. Writes-from_context c.bundle _ λ b e_bundle.
        Writes-from_context c.time _ λ time e_time.
          Writes-check (is_own auth task b) not_found_error _ λ own.
            Writes-check (not (is_late time task)) deadline_passed _ λ early.
              Writes-recorded (deleted b) (h.delete b) internal_server_error _
                (may_delete auth task time b e_auth e_task e_time e_bundle
                  (own_inv h c auth task b own) (in_time h c time task early))
                λ _. record { at = λ s. refl }

  -- A POST writes nothing, or inserts one sound row.
  submit_bundle-Writes :
      Writes (Justified h c) (submit_bundle (recorded_server h) (recorded_request c))
  unfolding submit_bundle
  submit_bundle-Writes = Writes-from_context c.auth _ λ auth e_auth.
      Writes-from_context c.task _ λ task e_task. Writes-from_context c.time _ λ time e_time.
        Writes-bind (or_return c.bind (bad_request "failed to parse request data")) _ λ w₀ r sent.
          Writes-bind (or_return (lift (c.validate r)) (bad_request "validation error")) _ λ w₁ _ _.
            Writes-bind
              (or_return (lift (validate_field_count r)) (bad_request "must set at least 2 fields"))
              _
              λ w₂ _ two.
                Writes-bind
                  (or_return (lift (parse_bundle h.parse_id r))
                    (bad_request "failed to parse fields"))
                  _
                  λ w₃ parsed p.
                    Writes-bind
                      (or_return (h.exists_all (requirements parsed) task.id auth.id)
                        internal_server_error)
                      _
                      λ w₄ valid found. Writes-check valid not_found_error _ λ ok_valid.
                        Writes-recorded (created (set_relations (new_bundle auth task time) parsed))
                          (h.create (set_relations (new_bundle auth task time) parsed))
                          internal_server_error _
                          (may_create auth task time _
                            (new_bundle-IsSound h c auth task time r parsed e_auth e_task
                              (given_two h c r
                                (or_return_inv (lift {W = W} (validate_field_count r)) _ w₂ two))
                              (or_return_inv (lift {W = W} (parse_bundle h.parse_id r)) _ w₃ p)
                              (new_bundle-IsChanged h c auth task time r parsed w₀ w₃ w₄ sent p
                                (found_all h c parsed task.id auth.id w₄ found ok_valid)))
                            e_time (new_status h c auth task time parsed))
                          λ _. record { at = λ s. refl }

  -- A PATCH writes nothing, or stores one sound row in place of the team's own.
  patch_bundle-Writes :
      Writes (Justified h c) (patch_bundle (recorded_server h) (recorded_request c))
  unfolding patch_bundle
  patch_bundle-Writes = Writes-from_context c.auth _ λ auth e_auth.
      Writes-from_context c.task _ λ task e_task. Writes-from_context c.bundle _ λ b e_bundle.
        Writes-from_context c.time _ λ time e_time.
          Writes-check (is_own auth task b) not_found_error _ λ own.
            Writes-check (not (is_late time task)) deadline_passed _ λ early.
              Writes-bind (or_return c.bind (bad_request "failed to parse request data")) _
                λ w₀ r sent.
                  Writes-bind (or_return (lift (c.validate r)) (bad_request "validation error")) _
                    λ w₁ _ _.
                      Writes-bind
                        (or_return (lift (parse_bundle h.parse_id r))
                          (bad_request "failed to parse fields"))
                        _
                        λ w₂ parsed p.
                          Writes-check (not (ltb (count_not_null b parsed) 2))
                            (bad_request "must have at least 2 fields set after update") _
                            λ two.
                              Writes-bind
                                (or_return
                                  (h.exists_all (requirements parsed) b.task_id b.submitter_id)
                                  internal_server_error)
                                _
                                λ w₃ valid found. Writes-check valid not_found_error _ λ ok_valid.
                                  Writes-recorded (saved (set_relations b parsed))
                                    (h.save (set_relations b parsed)) internal_server_error _
                                    (may_save auth task time b _
                                      (patched-IsSound h c auth task b parsed e_auth e_task own two
                                        (set_relations-IsChanged h c (some b) b w₀ w₃ r parsed
                                          (or_return_inv c.bind _ w₀ sent)
                                          (or_return_inv (lift {W = W} (parse_bundle h.parse_id r))
                                            _ w₂ p)
                                          (found_all h c parsed b.task_id b.submitter_id w₃ found
                                            ok_valid)
                                          (refl, refl, refl, refl, refl, refl)))
                                      e_time (in_time h c time task early) e_bundle
                                      (unchanged h c b parsed))
                                    λ _. record { at = λ s. refl }

  -- The three handlers that write.
  pub data Operation : Type 0 where
    post patch delete : Operation

  abbrev pub state_after : Operation → Recorded BundleWrite W → Recorded BundleWrite W
  state_after post s = (submit_bundle (recorded_server h) (recorded_request c) s).1
  state_after patch s = (patch_bundle (recorded_server h) (recorded_request c) s).1
  state_after delete s = (delete_bundle (recorded_server h) (recorded_request c) s).1

  -- Whatever the request and however the database answers, each handler that changes bundles makes no
  -- write or one justified write. It inserts a row for the authenticated team and the task of the request,
  -- with at least two fields set, and with the status deadline_exceeded exactly if the request came after
  -- the deadline; or it stores such a row, id and status unchanged, in place of the team's own, in time. A
  -- column of the row is then what the body of the request sets it to, or null in a new row and as it was
  -- in an old one, and the rows that the body names were among those of one query, all of which the
  -- database had found for that team and task. Or it deletes the team's own bundle, in time.
  pub bundle_writes :
      (op : Operation) (s : Recorded BundleWrite W)
      → ((state_after op s).1 ≡ s.1)
        ⊎ ((x : BundleWrite) × Justified h c x × ((state_after op s).1 ≡ s.1 ++ x ∷ []))
  bundle_writes post s = (submit_bundle-Writes.at s).written
  bundle_writes patch s = (patch_bundle-Writes.at s).written
  bundle_writes delete s = (delete_bundle-Writes.at s).written
