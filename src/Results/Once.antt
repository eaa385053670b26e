-- ===== src/Results/Once.antt =====
-- What final messages and ended jobs do to one submission, one after the other.
use competition_api.Prelude.{
  String, ◌≡◌, refl, ap, ◌∙◌, Bool, true, false, not, ◌&&◌, Option, none, some, List, [], ◌∷◌, all,
  Result, ok, err, pure, act, continue, ◌>>◌, arith, if◌then◌else◌,
}
use competition_api.WorkerErrors.{GoError}
use competition_api.Types.Status.{JobType, pov, patch, job}
use competition_api.Types.Bundle.{Uuid}
use competition_api.Queue.{HandlerError}
use competition_api.Results.{
  Row, Update, ResultServer, FinalMessage, ClusterJob, final_update, errored_update, as_transient,
  report_row, report_affected, after_final_update, final_transaction, with_final_id,
  handle_final_message, after_errored_update, with_job_id, failed_job, finish_job,
  handle_job_update, is_job_failed, is_job_complete,
}
use competition_api.Results.Views.{
  Seen, stays_accepted, Updated, failed_update, not_affected, other_row, this_row, counted,
  IsResultServer, Evolves, unchanged, resulted, Evolves-trans, Kept, done, undone,
  Transacted-Evolves, Reported, not_logged, one_line,
}

module _ {W : Type 0} (h : ResultServer W) (mine : JobType → Uuid → Bool) (see : W → Seen)
    (server : IsResultServer h mine see) where
  report_round :
      (kind : JobType) (row : Row) (s : Seen) (r : Result GoError String) (w : W)
      → see w ≡ s
      → Reported
          (mine kind row.id)
          s
          (continue
            (as_transient r)
            (λ round. act (h.log_result (record { kind = kind; round_id = round; row = row })))
            w).0
          (see
            (continue
              (as_transient r)
              (λ round. act (h.log_result (record { kind = kind; round_id = round; row = row })))
              w).1)
  report_round kind row s (err e) w same = not_logged _ refl same
  report_round kind row s (ok round) w same =
      one_line refl (server.logs _ w ∙ ap (counted (mine kind row.id)) same)

  report_row-Reported :
      (kind : JobType) (row : Row) (w : W)
      → Reported
          (mine kind row.id)
          (see w)
          (report_row h kind row w).0
          (see (report_row h kind row w).1)
  unfolding report_row
  report_row-Reported job row w = one_line refl (rw (server.is_submission row.id) refl)
  report_row-Reported pov row w =
      report_round pov row (see w) _ _ (server.round_keeps row.task_id w)
  report_row-Reported patch row w =
      report_round patch row (see w) _ _ (server.round_keeps row.task_id w)

  -- A report on another row, and one on this row, whose status has just been set.
  Reported-Kept_other :
      {s t : Seen} {r : Result HandlerError (Unit {0})} {s' : Seen}
      → t ≡ s
      → Reported false t r s'
      → Kept s r s'
  Reported-Kept_other same (not_logged e a b) = undone e a (ap (λ x. x.logged) (b ∙ same))
  Reported-Kept_other same (one_line a b) = done a (unchanged (b ∙ same))

  Reported-Kept_mine :
      {s t : Seen} {r : Result HandlerError (Unit {0})} {s' : Seen}
      → s.accepted ≡ true
      → t ≡ record { accepted = false; logged = s.logged }
      → Reported true t r s'
      → Kept s r s'
  Reported-Kept_mine was set (not_logged e a b) = undone e a (ap (λ x. x.logged) (b ∙ set))
  Reported-Kept_mine was set (one_line a b) =
      done a (resulted was (rw (b, set) refl) (rw (b, set) refl))

  own_row :
      (kind : JobType) (id : Uuid) (row x : Row) {b : Bool} {r : Result GoError (Option Row)}
      → r ≡ ok (some row)
      → r ≡ ok (some x)
      → x.id ≡ id
      → mine kind id ≡ b
      → mine kind row.id ≡ b
  own_row kind id row x this same i m = cc

  -- An update to a status that is not accepted, and its report.
  report_affected-Kept :
      (kind : JobType) (id : Uuid) (u : Update) (s : Seen) (affected : Option Row) (w : W)
      → stays_accepted u.status ≡ false
      → Updated (mine kind id) id u s (ok affected) (see w)
      → Kept s (report_affected h kind affected w).0 (see (report_affected h kind affected w).1)
  report_affected-Kept kind id u s affected w final (failed_update e a b) = cc
  report_affected-Kept kind id u s none w final (not_affected a b) = done refl (unchanged b)
  report_affected-Kept kind id u s (some row) w final (not_affected a b) = cc
  report_affected-Kept kind id u s none w final (other_row x a i m b) = cc
  report_affected-Kept kind id u s (some row) w final (other_row x a i m b) =
      Reported-Kept_other b
        (rw (own_row kind id row x refl a i m) at (report_row-Reported kind row w))
  report_affected-Kept kind id u s none w final (this_row x a i m was b) = cc
  report_affected-Kept kind id u s (some row) w final (this_row x a i m was b) =
      Reported-Kept_mine was (rw final at b)
        (rw (own_row kind id row x refl a i m) at (report_row-Reported kind row w))

  final_update-final :
      (kind : JobType) (msg : FinalMessage)
      → stays_accepted msg.status ≡ false
      → stays_accepted (final_update kind msg).status ≡ false
  final_update-final pov msg e = e
  final_update-final patch msg e = e
  final_update-final job msg e = e

  failed_Kept :
      {b : Bool} {id : Uuid} {u : Update} {s s' : Seen} {e : GoError}
      → Updated b id u s (err e) s'
      → s' ≡ s
  failed_Kept (failed_update x a b) = b
  failed_Kept (not_affected a b) = cc
  failed_Kept (other_row x a i m b) = b
  failed_Kept (this_row x a i m was b) = cc

  after_final_update-Kept :
      (kind : JobType) (id : Uuid) (u : Update) (s : Seen) (r : Result GoError (Option Row)) (w : W)
      → stays_accepted u.status ≡ false
      → Updated (mine kind id) id u s r (see w)
      → Kept s (after_final_update h kind r w).0 (see (after_final_update h kind r w).1)
  after_final_update-Kept kind id u s (err e) w final x = done refl (unchanged (failed_Kept x))
  after_final_update-Kept kind id u s (ok o) w final x =
      report_affected-Kept kind id u s o w final x

  after_errored_update-Kept :
      (kind : JobType) (id : Uuid) (u : Update) (s : Seen) (r : Result GoError (Option Row)) (w : W)
      → stays_accepted u.status ≡ false
      → Updated (mine kind id) id u s r (see w)
      → Kept s (after_errored_update h kind r w).0 (see (after_errored_update h kind r w).1)
  after_errored_update-Kept kind id u s (err e) w final x =
      undone _ refl (ap (λ y. y.logged) (failed_Kept x))
  after_errored_update-Kept kind id u s (ok o) w final x =
      report_affected-Kept kind id u s o w final x

  final_transaction-Kept :
      (entity : Option JobType) (id : Uuid) (msg : FinalMessage) (w : W)
      → stays_accepted msg.status ≡ false
      → Kept
          (see w)
          (final_transaction h entity id msg w).0
          (see (final_transaction h entity id msg w).1)
  unfolding final_transaction
  final_transaction-Kept none id msg w final = undone _ refl refl
  final_transaction-Kept (some kind) id msg w final =
      after_final_update-Kept kind id (final_update kind msg) (see w) _ _
        (final_update-final kind msg final) (server.updates kind id (final_update kind msg) w)

  with_job_id-Kept :
      (kind : Option JobType) (id : Result GoError Uuid) (w : W)
      → Kept (see w) (with_job_id h kind id w).0 (see (with_job_id h kind id w).1)
  with_job_id-Kept (some kind) (ok id) w =
      after_errored_update-Kept kind id errored_update (see w) _ _ refl
        (server.updates kind id errored_update w)
  with_job_id-Kept (some kind) (err e) w = done refl (unchanged refl)
  with_job_id-Kept none id w = done refl (unchanged refl)

  with_final_id-Evolves :
      (msg : FinalMessage) (id : Result GoError Uuid) (w : W)
      → stays_accepted msg.status ≡ false
      → Evolves (see w) (see (with_final_id h msg id w).1)
  with_final_id-Evolves msg (err e) w final = unchanged refl
  with_final_id-Evolves msg (ok id) w final =
      Transacted-Evolves (final_transaction-Kept msg.entity id msg w final)
        (server.transacts (final_transaction h msg.entity id msg) w)

  -- The deletion of the job, after the transaction or without one.
  finish_job-unchanged :
      (j : ClusterJob) (r : Result HandlerError (Unit {0})) (w : W)
      → see (continue r (λ _. finish_job h j) w).1 ≡ see w
  finish_job-unchanged j (ok x) w = server.delete_keeps j.name w
  finish_job-unchanged j (err e) w = refl

  failed_job-Evolves :
      (j : ClusterJob) (b : Bool) (w : W)
      → Evolves (see w) (see ((if b then h.transaction (failed_job h j) else pure tt) w).1)
  unfolding failed_job
  failed_job-Evolves j true w =
      Transacted-Evolves (with_job_id-Kept j.job_type (h.parse_id j.object_id) w)
        (server.transacts (with_job_id h j.job_type (h.parse_id j.object_id)) w)
  failed_job-Evolves j false w = unchanged refl

  ended_job-Evolves :
      (j : ClusterJob) (running b : Bool) (w : W)
      → Evolves (see w) (
          see
            ((if running
                then pure tt
                else (do if b then h.transaction (failed_job h j) else pure tt; finish_job h j))
              w).1)
  ended_job-Evolves j true b w = unchanged refl
  ended_job-Evolves j false b w =
      Evolves-trans (failed_job-Evolves j b w) (unchanged (finish_job-unchanged j _ _))

-- What arrives at the server.
pub data Event : Type 0 where
  final_message : FinalMessage → Event
  job_update : ClusterJob → Event

-- A final message has a status, and one that ends the evaluation.
abbrev pub is_final : Event → Bool
is_final (final_message msg) = not (stays_accepted msg.status)
is_final (job_update j) = true

module _ {W : Type 0} (h : ResultServer W) where
  abbrev pub handle : Event → W → W
  handle (final_message msg) w = (handle_final_message h msg w).1
  handle (job_update j) w = (handle_job_update h j w).1

  abbrev pub handle_all : List Event → W → W
  handle_all [] w = w
  handle_all (event ∷ events) w = handle_all events (handle event w)

module _ {W : Type 0} (h : ResultServer W) (mine : JobType → Uuid → Bool) (see : W → Seen)
    (server : IsResultServer h mine see) where
  pub handle-Evolves :
      (event : Event) (w : W) → is_final event ≡ true → Evolves (see w) (see (handle h event w))
  unfolding handle_final_message handle_job_update
  handle-Evolves (final_message msg) w e =
      with_final_id-Evolves h mine see server msg (h.parse_id msg.entity_id) w (ground arith)
  handle-Evolves (job_update j) w e =
      ended_job-Evolves h mine see server j
        (not (is_job_failed j.conditions) && not (is_job_complete j.conditions))
        (is_job_failed j.conditions) w

  -- Whatever job updates and final messages with a status other than accepted arrive, in whatever order
  -- and however often, a submission is left as it was, or it was accepted, is not any more, and one
  -- result of it has been logged; while no commit of the database fails. A final message without a
  -- status is not among them.
  pub handle_all-Evolves :
      (events : List Event) (w : W)
      → all is_final events ≡ true
      → Evolves (see w) (see (handle_all h events w))
  handle_all-Evolves [] w e = unchanged refl
  handle_all-Evolves (event ∷ events) w e =
      Evolves-trans (handle-Evolves event w (ground arith))
        (handle_all-Evolves events (handle h event w) (ground arith))
