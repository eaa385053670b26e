-- ===== src/Results/Unset.antt =====
-- Final messages without a status.
use competition_api.Prelude.{
  ℕ, zero, suc, ◌+◌, String, ◌≡◌, refl, sym, ap, ◌∙◌, subst, arith, Bool, true, Option, some,
  Result, ok, err, act, continue,
}
use competition_api.WorkerErrors.{GoError}
use competition_api.Types.Status.{no_status, JobType, pov, patch, job}
use competition_api.Types.Bundle.{Uuid}
use competition_api.Queue.{HandlerError}
use competition_api.Results.{
  Row, Update, ResultServer, FinalMessage, final_update, as_transient, report_row,
  final_transaction, with_final_id, handle_final_message,
}
use competition_api.Results.Views.{
  Seen, Updated, failed_update, not_affected, other_row, this_row, counted, stays_accepted,
  IsResultServer, Transacted, committed, rolled_back,
}

-- The database and its transactions answer without an error, and find the row while it is accepted.
pub record Answers {W : Type 0} (h : ResultServer W) (kind : JobType) (id : Uuid) (see : W → Seen)
    : Type 0 where
  pub finds :
      (u : Update) (w : W)
      → (see w).accepted ≡ true
      → (row : Row) × ((h.update_accepted kind id u w).0 ≡ ok (some row))
  pub finds_round : (task : Uuid) (w : W) → (round : String) × ((h.round_id task w).0 ≡ ok round)

-- A message that is delivered some times, one after the other.
abbrev pub delivered : {W : Type 0} → ResultServer W → FinalMessage → ℕ → W → W
delivered h msg zero w = w
delivered h msg (suc n) w = delivered h msg n (handle_final_message h msg w).1

module _ {W : Type 0} (h : ResultServer W) (mine : JobType → Uuid → Bool) (see : W → Seen)
    (server : IsResultServer h mine see) where
  -- One line is logged.
  abbrev Logged : Seen → Result HandlerError (Unit {0}) × W → Type 0
  Logged s t = (t.0 ≡ ok tt) × (see t.1 ≡ counted true s)

  round-Logged :
      (kind : JobType) (row : Row) (s : Seen) (w : W) (r : Result GoError String) (round : String)
      → mine kind row.id ≡ true
      → see w ≡ s
      → r ≡ ok round
      → Logged s (
          continue
            (as_transient r)
            (λ round. act (h.log_result (record { kind = kind; round_id = round; row = row })))
            w)
  round-Logged kind row s w (err e) round m same q = cc
  round-Logged kind row s w (ok found) round m same q =
      (refl, server.logs _ w ∙ ap (λ b. counted b (see w)) m ∙ ap (counted true) same)

  report_row-Logged :
      (kind : JobType) (row : Row) (w : W) (round : String)
      → mine kind row.id ≡ true
      → (h.round_id row.task_id w).0 ≡ ok round
      → Logged (see w) (report_row h kind row w)
  unfolding report_row
  report_row-Logged job row w round m q = cc (server.is_submission row.id, m)
  report_row-Logged pov row w round m q =
      round-Logged pov row (see w) _ _ round m (server.round_keeps row.task_id w) q
  report_row-Logged patch row w round m q =
      round-Logged patch row (see w) _ _ round m (server.round_keeps row.task_id w) q

  still_accepted :
      {id : Uuid} {u : Update} {s s' : Seen} {r : Result GoError (Option Row)} (row : Row)
      → u.status ≡ no_status
      → r ≡ ok (some row)
      → Updated true id u s r s'
      → (s' ≡ s) × (row.id ≡ id)
  still_accepted row e q (failed_update x a b) = cc
  still_accepted row e q (not_affected a b) = cc
  still_accepted row e q (other_row x a i m b) = cc
  still_accepted {s = s} row e q (this_row x a i m was b) =
      (b ∙ ap (λ t. record { accepted = stays_accepted t; logged = s.logged }) e ∙ kept s was, cc)
    where
      kept : (s : Seen) → s.accepted ≡ true → record { accepted = true; logged = s.logged } ≡ s
      kept s was = ap (λ b. record { accepted = b; logged = s.logged }) (sym was)

  unset_update :
      (kind : JobType) (msg : FinalMessage)
      → msg.status ≡ no_status
      → (final_update kind msg).status ≡ no_status
  unset_update pov msg e = e
  unset_update patch msg e = e
  unset_update job msg e = e

  module _ (kind : JobType) (id : Uuid) (answers : Answers h kind id see) (msg : FinalMessage)
      (own : mine kind id ≡ true) (unset : msg.status ≡ no_status) where
    final_transaction-Logged :
        (w : W)
        → (see w).accepted ≡ true
        → Logged (see w) (final_transaction h (some kind) id msg w)
    unfolding final_transaction
    final_transaction-Logged w was =
        let u = final_update kind msg in
        let (row, found) = answers.finds u w was in
        let w₁ = (h.update_accepted kind id u w).1 in
        let (same, own_id) = still_accepted row (unset_update kind msg unset) found (
          subst (λ b. Updated b id u (see w) (h.update_accepted kind id u w).0 (see w₁)) own
            (server.updates kind id u w)) in
        let (round, asked) = answers.finds_round row.task_id w₁ in
        let (done, line) =
          report_row-Logged kind row w₁ round (ap (mine kind) own_id ∙ own) asked in
        rw found (done, line ∙ ap (counted true) same)

    handle_final_message-logged :
        (w : W)
        → msg.entity ≡ some kind
        → h.parse_id msg.entity_id ≡ ok id
        → (see w).accepted ≡ true
        → see (handle_final_message h msg w).1 ≡ counted true (see w)
    unfolding handle_final_message
    handle_final_message-logged w e p was =
        ap (λ r. see (with_final_id h msg r w).1) p
        ∙ ended
            (subst (λ o. Logged (see w) (final_transaction h o id msg w)) (sym e)
              (final_transaction-Logged w was))
            (server.transacts (final_transaction h msg.entity id msg) w)
      where
        ended :
            {r : Result HandlerError (Unit {0})} {w' t : W}
            → Logged (see w) (r, w')
            → Transacted (see w) r (see w') (see t)
            → see t ≡ counted true (see w)
        ended (a, l) (committed x same) = same ∙ l
        ended (a, l) (rolled_back x q same) = cc

    -- A final message without a status for an accepted submission leaves it accepted and logs a result of
    -- it, each time that it is delivered; where the database finds the row and answers without an error, and
    -- no commit of it fails.
    pub delivered-logged :
        (n : ℕ) (w : W)
        → msg.entity ≡ some kind
        → h.parse_id msg.entity_id ≡ ok id
        → (see w).accepted ≡ true
        → ((see (delivered h msg n w)).accepted ≡ true)
          × ((see (delivered h msg n w)).logged ≡ (see w).logged + n)
    delivered-logged zero w e p was = (was, omega arith)
    delivered-logged (suc n) w e p was =
        let once = handle_final_message-logged w e p was in
        let (kept, count) =
          delivered-logged n (handle_final_message h msg w).1 e p
            (ap (λ s. s.accepted) once ∙ was) in
        (kept, count ∙ ap (λ s. s.logged + n) once ∙ omega arith)
