-- ===== src/Deliver.antt =====
-- competition-api/cmd/worker/internal/behavior/deliver.go: a payload is sent to a team until it is taken.
pub mod Requests
use competition_api.Prelude.{
  ℕ, zero, suc, String, Bool, true, false, ◌&&◌, Option, none, some, List, [], ◌∷◌, Result, ok, err,
  Exec, pure, lift, check, ◌>>=◌, ◌>>◌, leb, ltb,
}
use competition_api.WorkerErrors.{GoError, message, wrapping}
use competition_api.Types.ExitCode.{ℤ, pos, negsuc}
use competition_api.Retry.{Backoff}
use competition_api.Retry.Tried.{attempt, retried}

-- The part of `config.Team` that a delivery is made from; the pointers may be nil.
pub record Crs : Type 0 where
  pub task_me : Option Bool
  pub url : String
  pub api_key_id : String
  pub api_key_token : String

pub record Team : Type 0 where
  pub id : String
  pub crs : Option Crs

pub record DeliveryTarget (Url : Type 0) : Type 0 where
  pub team_id : String
  pub base_url : Url
  pub username : String
  pub password : String

-- What is called of net/http; a response is its status code.
pub record HttpClient (W Url Request : Type 0) : Type 0 where
  -- `url.Parse`
  pub parse_url : String → Result GoError Url
  -- a request as JSON with the credentials of the target
  pub make_request_object :
      DeliveryTarget Url → (method route : String) → Option String → Result GoError Request
  pub do_request : Request → Exec W GoError ℕ

-- `*retryCount++`
abbrev pub incremented : ℤ → ℤ
incremented (pos n) = pos (suc n)
incremented (negsuc zero) = pos zero
incremented (negsuc (suc n)) = negsuc n

module _ {W Url Request : Type 0} (h : HttpClient W Url Request) where
  abbrev with_url :
      Team → Crs → Result GoError Url → List (DeliveryTarget Url) → List (DeliveryTarget Url)
  with_url team crs (err e) rest = rest
  with_url team crs (ok base_url) rest =
      record {
        team_id = team.id;
        base_url = base_url;
        username = crs.api_key_id;
        password = crs.api_key_token;
      }
      ∷ rest

  -- Teams that want no tasks are skipped.
  abbrev with_team : Team → Option Crs → List (DeliveryTarget Url) → List (DeliveryTarget Url)
  with_team team none rest = rest
  with_team team (some crs) rest = with_task_me crs.task_me
    where
      with_task_me : Option Bool → List (DeliveryTarget Url)
      with_task_me (some true) = with_url team crs (h.parse_url crs.url) rest
      with_task_me (some false) = rest
      with_task_me none = rest

  -- `DeliveryTargetsFromTeams`
  unfoldable pub delivery_targets_from_teams : List Team → List (DeliveryTarget Url)
  delivery_targets_from_teams [] = []
  delivery_targets_from_teams (team ∷ teams) =
      with_team team team.crs (delivery_targets_from_teams teams)

  module _ (method route : String) (payload : Option String) (target : DeliveryTarget Url) where
    -- One request: the payload is taken if the status is one of success.
    unfoldable pub send_request : Exec W GoError (Unit {0})
    send_request = do
      req ←
          wrapping "failed to construct request"
            (lift (h.make_request_object target method route payload))
      status ← wrapping "failed to send request" (h.do_request req)
      check (leb 200 status && ltb status 300) (message "got invalid status code")

    -- `retryDeliver`, without marking its errors retryable: it counts itself first.
    abbrev pub retry_deliver : Exec (W × ℤ) GoError (Unit {0})
    retry_deliver s = let (r, w) = send_request s.0 in (r, (w, incremented s.1))

    -- `deliverOne`: the count starts at -1.
    unfoldable pub deliver_one :
        Backoff
        → (finisher : DeliveryTarget Url → ℤ → Result GoError (Unit {0}) → W → W)
        → Exec W GoError (Unit {0})
    unfolding send_request
    deliver_one b finisher w =
        let (r, s) = retried b tt (attempt retry_deliver) (w, negsuc 0) in
        (r, finisher target s.1 r s.0)
