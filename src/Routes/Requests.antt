-- ===== src/Routes/Requests.antt =====
-- competition-api/cmd/server/internal/routes/v1/request.go: a team asks for a task of its own.
pub mod Requested
use competition_api.Prelude.{
  ℕ, ◌*◌, ◌%◌, String, Option, none, some, List, [], ◌∷◌, Result, ok, err, Exec, pure, raise, lift,
  ◌>>=◌, ◌>>◌, str_eq, str_append, if◌then◌else◌,
}
use competition_api.WorkerErrors.{GoError}
use competition_api.Types.Bundle.{Uuid}
use competition_api.Models.Rows.{Auth}
use competition_api.Models.Keys.{ConfigTeam}
use competition_api.Http.{internal_server_error, bad_request}
use competition_api.Routes.Jobrunner.{JobFailure, refused, nil_pointer, deref, or_refuse}

-- `config.GenerateRepoConfig` and `config.GenerateChallengeConfig`, whose pointers may be nil.
pub record RepoConfig : Type 0 where
  pub repo_url : Option String
  pub head_ref : Option String
  pub base_ref : Option String

pub record ConfiguredChallenge : Type 0 where
  pub name : Option String
  pub config : RepoConfig

-- `challenges.ChallengeConfig`; the authorization is the token, and the duration is in nanoseconds.
pub record ChallengeConfig : Type 0 where
  pub base_ref : Option String
  pub token : String
  pub name : String
  pub repo_url : String
  pub head_ref : String
  pub task_duration : ℕ

-- The request, whose duration is 3600 where the body does not name one, and nil where it is null.
pub record RequestData : Type 0 where
  pub duration_secs : Option ℕ
  pub challenge_name : String

-- `Scan`: what is called of the client for challenges.
abbrev pub Scan : Type 0 → Type 0
Scan W = ChallengeConfig → List ConfigTeam → (round_id : String) → Exec W GoError (Unit {0})

pub record RequestHandler (W : Type 0) : Type 0 where
  pub teams : List ConfigTeam
  pub generate_round_id : String
  pub challenges : List ConfiguredChallenge
  pub id_text : Uuid → String
  -- `CreateInstallationToken`
  pub create_token : Exec W GoError String
  pub run_full_scan : Scan W
  pub run_delta_scan : Scan W
  -- `Run` of the task runner, which starts a goroutine
  pub run : Exec W JobFailure (Unit {0}) → W → W

-- The first team with the id, in a list.
unfoldable pub own_team : String → List ConfigTeam → List ConfigTeam
own_team id [] = []
own_team id (team ∷ teams) =
    let rest = own_team id teams in if str_eq team.id id then team ∷ [] else rest

abbrev pub or_later : ConfiguredChallenge → Option ConfiguredChallenge → Option ConfiguredChallenge
or_later challenge none = some challenge
or_later challenge (some later) = some later

abbrev pub found :
    String → ConfiguredChallenge → Option ConfiguredChallenge → String → Option ConfiguredChallenge
found name challenge later own = if str_eq own name then or_later challenge later else later

abbrev pub named :
    String
    → ConfiguredChallenge
    → Option String
    → Result JobFailure (Option ConfiguredChallenge)
    → Result JobFailure (Option ConfiguredChallenge)
named name challenge none rest = err nil_pointer
named name challenge (some own) (err e) = err e
named name challenge (some own) (ok later) = ok (found name challenge later own)

-- The last challenge with the name; a name that is nil is followed.
unfoldable pub find_challenge :
    String → List ConfiguredChallenge → Result JobFailure (Option ConfiguredChallenge)
find_challenge name [] = ok none
find_challenge name (challenge ∷ challenges) =
    let rest = find_challenge name challenges in named name challenge challenge.name rest

-- `time.Second * time.Duration(secs)` on 64 bits, a number below 0 being its complement.
abbrev pub nanoseconds : ℕ → ℕ
nanoseconds secs = (secs * 1000000000) % 18446744073709551616

module _ {W : Type 0} (h : RequestHandler W) where
  abbrev pub scan_by : Option String → Scan W
  scan_by none = h.run_full_scan
  scan_by (some base_ref) = h.run_delta_scan

  -- The function that the task runner runs; its errors are only traced.
  unfoldable pub scan_task :
      Auth → Option ℕ → RepoConfig → List ConfigTeam → Exec W JobFailure (Unit {0})
  scan_task auth duration repo teams = do
    token ← or_refuse internal_server_error h.create_token
    head_ref ← deref repo.head_ref
    repo_url ← deref repo.repo_url
    secs ← deref duration
    or_refuse internal_server_error (
        scan_by repo.base_ref
          (record {
            base_ref = repo.base_ref;
            token = token;
            name = str_append auth.note " - testing";
            repo_url = repo_url;
            head_ref = head_ref;
            task_duration = nanoseconds secs;
          })
          teams h.generate_round_id)

  abbrev pub started : Exec W JobFailure (Unit {0}) → Exec W JobFailure (Unit {0})
  started task w = (ok tt, h.run task w)

  abbrev pub with_challenge :
      Auth
      → RequestData
      → List ConfigTeam
      → Option ConfiguredChallenge
      → Exec W JobFailure (Unit {0})
  with_challenge auth request teams none =
      raise (refused (bad_request "specified challenge does not exist"))
  with_challenge auth request teams (some challenge) =
      started (scan_task auth request.duration_secs challenge.config teams)

  abbrev pub with_teams : Auth → RequestData → List ConfigTeam → Exec W JobFailure (Unit {0})
  with_teams auth request [] = raise (refused internal_server_error)
  with_teams auth request (team ∷ teams) = do
    found ← lift (find_challenge request.challenge_name h.challenges)
    with_challenge auth request (team ∷ teams) found

  -- `RequestChallenge`, once the caller is read from the context.
  unfoldable pub request_challenge :
      Auth
      → Exec W GoError RequestData
      → (RequestData → Result GoError (Unit {0}))
      → Exec W JobFailure (Unit {0})
  unfolding own_team find_challenge scan_task
  request_challenge auth bind validate = do
    request ← or_refuse (bad_request "failed to parse request data") bind
    or_refuse (bad_request "validation error") (lift (validate request))
    with_teams auth request (own_team (h.id_text auth.id) h.teams)

abbrev or_nil_pointer :
    Option String → Result JobFailure (List String) → Result JobFailure (List String)
or_nil_pointer none rest = err nil_pointer
or_nil_pointer (some name) (err e) = err e
or_nil_pointer (some name) (ok names) = ok (name ∷ names)

-- `RequestList`
unfoldable pub request_list : List ConfiguredChallenge → Result JobFailure (List String)
request_list [] = ok []
request_list (challenge ∷ challenges) =
    let rest = request_list challenges in or_nil_pointer challenge.name rest
