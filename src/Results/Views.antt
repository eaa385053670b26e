-- ===== src/Results/Views.antt =====
-- The view of one submission, what the database and the log do to it, and how it may change.
use competition_api.Prelude.{
  ℕ, suc, String, ◌≡◌, refl, sym, ap, ◌∙◌, Bool, true, false, Option, none, some, Result, ok, err,
  Exec,
}
use competition_api.WorkerErrors.{GoError}
use competition_api.Types.Status.{StatusText, known, no_status, unknown, is_accepted, JobType, job}
use competition_api.Types.Bundle.{Uuid}
use competition_api.Queue.{HandlerError}
use competition_api.Results.{Row, Update, ResultLine, ResultServer}

-- What can be seen of one submission: whether its row is accepted, and how often a result of it has
-- been logged.
pub record Seen : Type 0 where
  pub accepted : Bool
  pub logged : ℕ

-- Whether an accepted row is still accepted once its status has been updated: the empty text is the zero
-- value, and leaves it as it was.
abbrev pub stays_accepted : StatusText → Bool
stays_accepted (known status) = is_accepted status
stays_accepted no_status = true
stays_accepted (unknown text) = false

-- What an update of the accepted row with the given id does, seen from one submission, `mine` telling
-- whether it is that row: it fails and changes nothing, affects no row, affects another row, or
-- affects this one, which was accepted, and has the status of the update, if there is one, from then on.
pub data Updated (mine : Bool) (id : Uuid) (u : Update) (s : Seen) (r : Result GoError (Option Row))
    (s' : Seen) : Type 0 where
  failed_update : (e : GoError) → r ≡ err e → s' ≡ s → Updated mine id u s r s'
  not_affected : r ≡ ok none → s' ≡ s → Updated mine id u s r s'
  other_row :
      (row : Row)
      → r ≡ ok (some row)
      → row.id ≡ id
      → mine ≡ false
      → s' ≡ s
      → Updated mine id u s r s'
  this_row :
      (row : Row)
      → r ≡ ok (some row)
      → row.id ≡ id
      → mine ≡ true
      → s.accepted ≡ true
      → s' ≡ record { accepted = stays_accepted u.status; logged = s.logged }
      → Updated mine id u s r s'

-- What a transaction does whose function ended with the result `r` in `s'`: it commits, or the rows
-- are as before, and the log keeps its lines.
pub data Transacted (s : Seen) (r : Result HandlerError (Unit {0})) (s' t : Seen) : Type 0 where
  committed : r ≡ ok tt → t ≡ s' → Transacted s r s' t
  rolled_back :
      (e : HandlerError)
      → r ≡ err e
      → t ≡ record { accepted = s.accepted; logged = s'.logged }
      → Transacted s r s' t

abbrev pub counted : Bool → Seen → Seen
counted true s = record { accepted = s.accepted; logged = suc s.logged }
counted false s = s

-- What is documented of the database, the log and the cluster while no commit fails, for a view of
-- one submission, which `mine` tells from the others.
pub record IsResultServer {W : Type 0} (h : ResultServer W) (mine : JobType → Uuid → Bool)
    (see : W → Seen) : Type 0 where
  pub is_submission : (id : Uuid) → mine job id ≡ false
  pub updates :
      (kind : JobType) (id : Uuid) (u : Update) (w : W)
      → Updated
          (mine kind id)
          id
          u
          (see w)
          (h.update_accepted kind id u w).0
          (see (h.update_accepted kind id u w).1)
  pub logs :
      (line : ResultLine) (w : W)
      → see (h.log_result line w) ≡ counted (mine line.kind line.row.id) (see w)
  pub round_keeps : (task : Uuid) (w : W) → see (h.round_id task w).1 ≡ see w
  pub delete_keeps : (name : String) (w : W) → see (h.delete_job name w).1 ≡ see w
  pub transacts :
      (body : Exec W HandlerError (Unit {0})) (w : W)
      → Transacted (see w) (body w).0 (see (body w).1) (see (h.transaction body w).1)

-- Nothing changes, or a result is set and logged once, where none was.
pub data Evolves (s s' : Seen) : Type 0 where
  unchanged : s' ≡ s → Evolves s s'
  resulted : s.accepted ≡ true → s'.accepted ≡ false → s'.logged ≡ suc s.logged → Evolves s s'

pub Evolves-trans : {s t u : Seen} → Evolves s t → Evolves t u → Evolves s u
Evolves-trans (unchanged e) (unchanged f) = unchanged (f ∙ e)
Evolves-trans (unchanged e) (resulted a b c) =
    resulted (ap (λ x. x.accepted) (sym e) ∙ a) b (c ∙ ap (λ x. suc x.logged) e)
Evolves-trans (resulted a b c) (unchanged f) =
    resulted a (ap (λ x. x.accepted) f ∙ b) (ap (λ x. x.logged) f ∙ c)
Evolves-trans (resulted a b c) (resulted d e f) = cc

-- The end of a transaction's function: on success the submission has evolved, and on an error nothing
-- was logged.
pub data Kept (s : Seen) (r : Result HandlerError (Unit {0})) (s' : Seen) : Type 0 where
  done : r ≡ ok tt → Evolves s s' → Kept s r s'
  undone : (e : HandlerError) → r ≡ err e → s'.logged ≡ s.logged → Kept s r s'

pub Transacted-Evolves :
    {s s' t : Seen} {r : Result HandlerError (Unit {0})}
    → Kept s r s'
    → Transacted s r s' t
    → Evolves s t
Transacted-Evolves (done a v) (committed b e) = rw e v
Transacted-Evolves (done a v) (rolled_back x b e) = cc
Transacted-Evolves (undone x a l) (committed b e) = cc
Transacted-Evolves (undone x a l) (rolled_back y b e) = unchanged (rw (e, l) refl)

-- What a report does: it fails and logs nothing, or logs one line.
pub data Reported (mine : Bool) (s : Seen) (r : Result HandlerError (Unit {0})) (s' : Seen)
    : Type 0 where
  not_logged : (e : HandlerError) → r ≡ err e → s' ≡ s → Reported mine s r s'
  one_line : r ≡ ok tt → s' ≡ counted mine s → Reported mine s r s'
