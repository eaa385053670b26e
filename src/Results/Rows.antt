-- ===== src/Results/Rows.antt =====
-- What the end of a job in the cluster does to the rows of submissions and jobs.
use mathlib.Core.List.{Mem, mem-cons_self, mem-cons_of_mem}
use competition_api.Prelude.{
  String, ◌≡◌, refl, ap, ◌∙◌, arith, ◌==◌, Bool, true, false, not, ◌&&◌, Option, none, some, List,
  [], ◌∷◌, ◌++◌, Result, ok, err, Exec, pure, continue, ◌>>◌, if◌then◌else◌,
}
use competition_api.WorkerErrors.{GoError}
use competition_api.Types.Status.{
  StatusText, known, no_status, unknown, accepted, errored, JobType, pov, patch, job,
}
use competition_api.Types.Bundle.{Uuid}
use competition_api.Queue.{HandlerError}
use competition_api.Results.{
  Row, Update, ResultLine, ResultServer, Condition, job_failed, job_complete, other_condition,
  ClusterJob, is_job_failed, is_job_complete, errored_update, as_transient, report_row,
  report_affected, after_errored_update, with_job_id, failed_job, finish_job, handle_job_update,
}

-- The statuses of the rows that are there.
abbrev pub Rows : Type 0
Rows = JobType → Uuid → Option StatusText

abbrev same_kind : JobType → JobType → Bool
same_kind pov pov = true
same_kind patch patch = true
same_kind job job = true
same_kind _ _ = false

-- The row with the id is changed.
abbrev pub row_changed : (Option StatusText → Option StatusText) → JobType → Uuid → Rows → Rows
row_changed f kind id rows k i = if same_kind kind k && i == id then f (rows k i) else rows k i

-- What an update makes of the status of an accepted row.
abbrev pub updated_status : StatusText → Option StatusText → Option StatusText
updated_status no_status old = old
updated_status new (some (known accepted)) = some new
updated_status new old = old

abbrev pub errored_if_accepted : Option StatusText → Option StatusText
errored_if_accepted (some (known accepted)) = some (known errored)
errored_if_accepted old = old

-- How a transaction ends whose function ended with `r` and the rows `inside`.
pub data Ended (before inside : Rows) (r : Result HandlerError (Unit {0}))
    : Result HandlerError (Unit {0}) → Rows → Type 0 where
  committed : r ≡ ok tt → Ended before inside r (ok tt) inside
  rolled_back : (e : HandlerError) → Ended before inside r (err e) before

-- What is documented of the database; the log, the cluster and the query for a round leave it alone.
pub record IsRowStore {W : Type 0} (server : ResultServer W) (rows : W → Rows) : Type 0 where
  pub updates :
      (kind : JobType) (id : Uuid) (u : Update) (w : W) (affected : Option Row)
      → (server.update_accepted kind id u w).0 ≡ ok affected
      → rows (server.update_accepted kind id u w).1
        ≡ row_changed (updated_status u.status) kind id (rows w)
  pub round_keeps : (task : Uuid) (w : W) → rows (server.round_id task w).1 ≡ rows w
  pub log_keeps : (line : ResultLine) (w : W) → rows (server.log_result line w) ≡ rows w
  pub delete_keeps : (name : String) (w : W) → rows (server.delete_job name w).1 ≡ rows w
  pub transacts :
      (body : Exec W HandlerError (Unit {0})) (w : W)
      → Ended
          (rows w)
          (rows (body w).1)
          (body w).0
          (server.transaction body w).0
          (rows (server.transaction body w).1)

-- The row is errored now, if it was accepted, and nothing else has changed; or nothing has, and there is
-- an error.
pub data IsErrored (kind : JobType) (id : Uuid) (before after : Rows)
    (r : Result HandlerError (Unit {0})) : Type 0 where
  stored : after ≡ row_changed errored_if_accepted kind id before → IsErrored kind id before after r
  not_stored : (e : HandlerError) → r ≡ err e → after ≡ before → IsErrored kind id before after r

updated_status-errored :
    (old : Option StatusText) → updated_status (known errored) old ≡ errored_if_accepted old
updated_status-errored none = refl
updated_status-errored (some (known s)) = ground arith
updated_status-errored (some no_status) = refl
updated_status-errored (some (unknown t)) = refl

pub job_failed-among :
    (before after : List Condition) → is_job_failed (before ++ job_failed ∷ after) ≡ true
job_failed-among [] after = refl
job_failed-among (job_failed ∷ before) after = refl
job_failed-among (job_complete ∷ before) after = job_failed-among before after
job_failed-among (other_condition ∷ before) after = job_failed-among before after

pub not_failed :
    (conditions : List Condition) → ¬ Mem job_failed conditions → is_job_failed conditions ≡ false
not_failed [] n = refl
not_failed (job_failed ∷ cs) n = absurd (n mem-cons_self)
not_failed (job_complete ∷ cs) n = not_failed cs λ m. n (mem-cons_of_mem job_complete m)
not_failed (other_condition ∷ cs) n = not_failed cs λ m. n (mem-cons_of_mem other_condition m)

module _ {W : Type 0} (server : ResultServer W) (rows : W → Rows)
    (store : IsRowStore server rows) where
  report_row-rows :
      (kind : JobType) (row : Row) (w : W) → rows (report_row server kind row w).1 ≡ rows w
  unfolding report_row
  report_row-rows job row w = refl
  report_row-rows pov row w =
      printed (server.round_id row.task_id w).0 ∙ store.round_keeps row.task_id w
    where
      printed :
          (r : Result GoError String)
          → rows
              (continue
                (as_transient r)
                (λ round w.
                  (ok tt, server.log_result (record { kind = pov; round_id = round; row = row }) w))
                (server.round_id row.task_id w).1).1
            ≡ rows (server.round_id row.task_id w).1
      printed (ok round) = store.log_keeps _ _
      printed (err e) = refl
  report_row-rows patch row w =
      printed (server.round_id row.task_id w).0 ∙ store.round_keeps row.task_id w
    where
      printed :
          (r : Result GoError String)
          → rows
              (continue
                (as_transient r)
                (λ round w. (
                  ok tt,
                  server.log_result (record { kind = patch; round_id = round; row = row }) w,
                ))
                (server.round_id row.task_id w).1).1
            ≡ rows (server.round_id row.task_id w).1
      printed (ok round) = store.log_keeps _ _
      printed (err e) = refl

  report_affected-rows :
      (kind : JobType) (affected : Option Row) (w : W)
      → rows (report_affected server kind affected w).1 ≡ rows w
  report_affected-rows kind none w = refl
  report_affected-rows kind (some row) w = report_row-rows kind row w

  errored_everywhere :
      (kind : JobType) (id : Uuid) (before : Rows)
      → row_changed (updated_status (known errored)) kind id before
        ≡ row_changed errored_if_accepted kind id before
  errored_everywhere kind id before =
      ap (λ f. row_changed f kind id before) (λ i old. updated_status-errored old i)

  -- The function of the transaction, if it does not fail.
  pub with_job_id-rows :
      (kind : JobType) (id : Uuid) (w : W)
      → let s = with_job_id server (some kind) (ok id) w in
        s.0 ≡ ok tt → rows s.1 ≡ row_changed errored_if_accepted kind id (rows w)
  with_job_id-rows kind id w = from (server.update_accepted kind id errored_update w).0 refl
    where
      from :
          (r : Result GoError (Option Row))
          → (server.update_accepted kind id errored_update w).0 ≡ r
          → let s =
              after_errored_update server kind r
                (server.update_accepted kind id errored_update w).1 in
            s.0 ≡ ok tt → rows s.1 ≡ row_changed errored_if_accepted kind id (rows w)
      from (err e) q p = cc
      from (ok affected) q p =
          report_affected-rows kind affected _
          ∙ store.updates kind id errored_update w affected q
          ∙ errored_everywhere kind id (rows w)

  -- The deletion of the job comes after the transaction, if that does not fail.
  finish_job-IsErrored :
      (j : ClusterJob) (kind : JobType) (id : Uuid) (before inside : Rows)
      (b r : Result HandlerError (Unit {0})) (w : W)
      → (b ≡ ok tt → inside ≡ row_changed errored_if_accepted kind id before)
      → Ended before inside b r (rows w)
      → let s = continue r (λ _. finish_job server j) w in IsErrored kind id before (rows s.1) s.0
  finish_job-IsErrored j kind id before inside b r w h x = go r (rows w) refl x
    where
      go :
          (r : Result HandlerError (Unit {0})) (after : Rows)
          → rows w ≡ after
          → Ended before inside b r after
          → let s = continue r (λ _. finish_job server j) w in
            IsErrored kind id before (rows s.1) s.0
      go _ _ e (committed p) = stored (store.delete_keeps j.name w ∙ e ∙ h p)
      go _ _ e (rolled_back x) = not_stored x refl e

  -- A job whose function changes no row.
  finish_job-rows :
      (j : ClusterJob) (before inside : Rows) (b r : Result HandlerError (Unit {0})) (w : W)
      → inside ≡ before
      → Ended before inside b r (rows w)
      → rows (continue r (λ _. finish_job server j) w).1 ≡ before
  finish_job-rows j before inside b r w h x = go r (rows w) refl x
    where
      go :
          (r : Result HandlerError (Unit {0})) (after : Rows)
          → rows w ≡ after
          → Ended before inside b r after
          → rows (continue r (λ _. finish_job server j) w).1 ≡ before
      go _ _ e (committed p) = store.delete_keeps j.name w ∙ e ∙ h
      go _ _ e (rolled_back x) = e

  pub job_without_type-rows :
      (j : ClusterJob) (w : W)
      → ((w : W) → rows (failed_job server j w).1 ≡ rows w)
      → rows (handle_job_update server j w).1 ≡ rows w
  unfolding handle_job_update
  job_without_type-rows j w h = cases (is_job_failed j.conditions) (is_job_complete j.conditions)
    where
      cases :
          (failed complete : Bool)
          → rows
              ((if not failed && not complete then pure tt else (do
                if failed then server.transaction (failed_job server j) else pure tt
                finish_job server j))
                w).1
            ≡ rows w
      cases false false = refl
      cases false true = store.delete_keeps j.name w
      cases true complete =
          finish_job-rows j (rows w) _ _ (server.transaction (failed_job server j) w).0
            (server.transaction (failed_job server j) w).1 (h w)
            (store.transacts (failed_job server j) w)

  -- Where a condition says that the job failed.
  pub failed_job-IsErrored :
      (j : ClusterJob) (kind : JobType) (id : Uuid) (w : W)
      → is_job_failed j.conditions ≡ true
      → ((failed_job server j w).0 ≡ ok tt
          → rows (failed_job server j w).1 ≡ row_changed errored_if_accepted kind id (rows w))
      → let s = handle_job_update server j w in IsErrored kind id (rows w) (rows s.1) s.0
  unfolding handle_job_update
  failed_job-IsErrored j kind id w e h = rw e (
      finish_job-IsErrored j kind id (rows w) _ _ (server.transaction (failed_job server j) w).0
        (server.transaction (failed_job server j) w).1 h (store.transacts (failed_job server j) w))

  -- Where none does.
  pub not_failed-rows :
      (j : ClusterJob) (w : W)
      → is_job_failed j.conditions ≡ false
      → rows (handle_job_update server j w).1 ≡ rows w
  unfolding handle_job_update
  not_failed-rows j w e = rw e (cases (is_job_complete j.conditions))
    where
      cases :
          (complete : Bool)
          → rows ((if not complete then pure tt else (do pure tt; finish_job server j)) w).1
            ≡ rows w
      cases false = refl
      cases true = store.delete_keeps j.name w
