-- ===== src/Tests/Results.antt =====
-- A submission for which three results arrive.
use competition_api.Prelude.{
  ◌≡◌, refl, Bool, true, false, ◌&&◌, Option, none, some, List, [], ◌∷◌, Result, ok, err, pure,
  ◌==◌,
}
use competition_api.WorkerErrors.{GoError}
use competition_api.Types.Status.{known, no_status, passed, failed, JobType, pov}
use competition_api.Types.Bundle.{Uuid}
use competition_api.Queue.{HandlerError}
use competition_api.Results.{Row, Update, ResultServer, FinalMessage, job_failed}
use competition_api.Results.Views.{
  Seen, stays_accepted, Updated, not_affected, this_row, counted, Transacted, committed,
  rolled_back, IsResultServer, Evolves,
}
use competition_api.Results.Unset.{Answers, delivered, delivered-logged}
use competition_api.Results.Once.{Event, final_message, job_update, handle_all, handle_all-Evolves}

-- The PoV 7.
abbrev pub is_it : JobType → Uuid → Bool
is_it pov id = id == 7
is_it _ id = false

abbrev row_of : Uuid → Row
row_of id = record {
  id = id;
  submitter_id = 3;
  task_id = 5;
  status = known passed;
  functionality_tests_passing = none;
}

abbrev found : Bool → Uuid → Update → Seen → Result GoError (Option Row) × Seen
found true id u s =
    (ok (some (row_of id)), record { accepted = stays_accepted u.status; logged = s.logged })
found false id u s = (ok none, s)

abbrev pub ended :
    Seen → Result HandlerError (Unit {0}) × Seen → Result HandlerError (Unit {0}) × Seen
ended s (ok x, t) = (ok x, t)
ended s (err e, t) = (err e, record { accepted = s.accepted; logged = t.logged })

-- A database that holds the one submission and is the world itself.
abbrev pub server : ResultServer Seen
server = record {
  update_accepted = λ kind id u s. found (is_it kind id && s.accepted) id u s;
  round_id = λ task. pure "final";
  log_result = λ line s. counted (is_it line.kind line.row.id) s;
  transaction = λ body s. ended s (body s);
  parse_id = λ text. ok 7;
  delete_job = λ name. pure tt;
}

found-Updated :
    (mine accepts : Bool) (id : Uuid) (u : Update) (s : Seen)
    → s.accepted ≡ accepts
    → Updated mine id u s (found (mine && accepts) id u s).0 (found (mine && accepts) id u s).1
found-Updated true true id u s e = this_row (row_of id) refl refl refl e refl
found-Updated true false id u s e = not_affected refl refl
found-Updated false accepts id u s e = not_affected refl refl

pub ended-Transacted :
    (s : Seen) (r : Result HandlerError (Unit {0})) (t : Seen) → Transacted s r t (ended s (r, t)).1
ended-Transacted s (ok x) t = committed refl refl
ended-Transacted s (err e) t = rolled_back e refl refl

pub server-IsResultServer : IsResultServer server is_it (λ s. s)
server-IsResultServer = record {
  is_submission = λ id. refl;
  updates = λ kind id u s. found-Updated (is_it kind id) s.accepted id u s refl;
  logs = λ line s. refl;
  round_keeps = λ task s. refl;
  delete_keeps = λ name s. refl;
  transacts = λ body s. ended-Transacted s (body s).0 (body s).1;
}

abbrev pub fresh : Seen
fresh = record { accepted = true; logged = 0 }

abbrev pub message_failed : FinalMessage
message_failed = record {
  entity = some pov;
  entity_id = "7";
  status = known failed;
  patch_tests_failed = false;
}

-- The worker's message, the end of its job, and the message again.
abbrev events : List Event
events =
    final_message message_failed
    ∷ job_update (record {
      name = "eval-7";
      conditions = job_failed ∷ [];
      object_id = "7";
      job_type = some pov;
    })
    ∷ final_message message_failed
    ∷ []

handle_all-Evolves_example : Evolves fresh (handle_all server events fresh)
handle_all-Evolves_example =
    handle_all-Evolves server is_it (λ s. s) server-IsResultServer events fresh refl

abbrev without_status : FinalMessage
without_status = record message_failed { status = no_status }

found_pov :
    (u : Update) (s : Seen)
    → s.accepted ≡ true
    → (found (is_it pov 7 && s.accepted) 7 u s).0 ≡ ok (some (row_of 7))
found_pov u s e = rw e refl

server-Answers : Answers server pov 7 (λ s. s)
server-Answers = record {
  finds = λ u s e. (row_of 7, found_pov u s e);
  finds_round = λ task s. ("final", refl);
}

delivered-logged_example :
    ((delivered server without_status 3 fresh).accepted ≡ true)
    × ((delivered server without_status 3 fresh).logged ≡ 3)
delivered-logged_example =
    delivered-logged server is_it (λ s. s) server-IsResultServer pov 7 server-Answers without_status
      refl refl 3 fresh refl refl refl
