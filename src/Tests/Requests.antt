-- ===== src/Tests/Requests.antt =====
-- One team, one challenge, and a request for it.
use competition_api.Prelude.{ℕ, ◌≡◌, refl, true, none, some, [], ◌∷◌, ok, pure}
use competition_api.Models.Keys.{ConfigTeam}
use competition_api.Routes.Requests.{
  RepoConfig, ConfiguredChallenge, RequestData, Scan, RequestHandler, own_team, find_challenge,
  scan_task, request_challenge, request_list,
}
use competition_api.Routes.Requests.Requested.{Requested, request_challenge-Requested}
use competition_api.Tests.Fixtures.{crs_only, sample_team}

abbrev own : ConfigTeam
own = record { id = "3"; note = "own"; token = "token"; active = some true; permissions = crs_only }

abbrev repo : RepoConfig
repo = record { repo_url = some "https://repo"; head_ref = some "main"; base_ref = none }

abbrev challenge : ConfiguredChallenge
challenge = record { name = some "libpng"; config = repo }

-- A full scan leaves 1 behind, a delta scan 10.
abbrev scan_leaving : ℕ → Scan ℕ
scan_leaving n config teams round w = (ok tt, n)

abbrev handler : RequestHandler ℕ
handler = record {
  teams = own ∷ [];
  generate_round_id = "round";
  challenges = challenge ∷ [];
  id_text = λ id. "3";
  create_token = pure "secret";
  run_full_scan = scan_leaving 1;
  run_delta_scan = scan_leaving 10;
  run = λ task w. (task w).1;
}

abbrev request : RequestData
request = record { duration_secs = some 3600; challenge_name = "libpng" }

ran_full : request_challenge handler sample_team (pure request) (λ r. ok tt) 0 ≡ (ok tt, 1)
unfolding request_challenge own_team find_challenge scan_task
ran_full = refl

listed : request_list (challenge ∷ []) ≡ ok ("libpng" ∷ [])
unfolding request_list
listed = refl

request_challenge-Requested_example :
    Requested handler sample_team
      (pure request)
      0
      (request_challenge handler sample_team (pure request) (λ r. ok tt) 0).0
      (request_challenge handler sample_team (pure request) (λ r. ok tt) 0).1
request_challenge-Requested_example =
    request_challenge-Requested handler sample_team (pure request) 0 (λ r. ok tt)
