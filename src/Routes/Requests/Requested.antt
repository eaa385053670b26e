-- ===== src/Routes/Requests/Requested.antt =====
-- Which scan a request starts.
use mathlib.Core.List.{Mem, mem-cons_self, mem-cons_of_mem}
use text.Mathlib.TextEquality.{eq_iff}
use competition_api.Prelude.{
  String, ◌≡◌, refl, ap, ◌∙◌, Bool, true, false, Option, none, some, List, [], ◌∷◌, Result, ok, err,
  Exec, continue, lift, ◌>>◌, if◌then◌else◌, str_eq,
}
use competition_api.WorkerErrors.{GoError}
use competition_api.Models.Rows.{Auth}
use competition_api.Models.Keys.{ConfigTeam}
use competition_api.Http.{bad_request}
use competition_api.Routes.Jobrunner.{JobFailure, or_refused, or_refuse}
use competition_api.Routes.Requests.{
  ConfiguredChallenge, RequestData, RequestHandler, own_team, or_later, named, find_challenge,
  scan_task, with_challenge, with_teams, request_challenge,
}

-- What `own_team` finds.
pub data IsOwn (id : String) (teams : List ConfigTeam) : List ConfigTeam → Type 0 where
  nobody : IsOwn id teams []
  one_team : (team : ConfigTeam) → Mem team teams → team.id ≡ id → IsOwn id teams (team ∷ [])

own_team-IsOwn : (id : String) (teams : List ConfigTeam) → IsOwn id teams (own_team id teams)
unfolding own_team
own_team-IsOwn id [] = nobody
own_team-IsOwn id (team ∷ teams) =
    let rest = own_team-IsOwn id teams in decided (str_eq team.id id) refl rest
  where
    later : (own : List ConfigTeam) → IsOwn id teams own → IsOwn id (team ∷ teams) own
    later own nobody = nobody
    later own (one_team other i e) = one_team other (mem-cons_of_mem team i) e

    decided :
        (same : Bool)
        → str_eq team.id id ≡ same
        → {own : List ConfigTeam} → IsOwn id teams own
        → IsOwn id (team ∷ teams) (if same then team ∷ [] else own)
    decided true e i = one_team team mem-cons_self ((eq_iff team.id id).0 e)
    decided false e {own} i = later own i

-- What `find_challenge` finds.
pub data IsFound (name : String) (challenges : List ConfiguredChallenge)
    : Result JobFailure (Option ConfiguredChallenge) → Type 0 where
  panicked : (e : JobFailure) → IsFound name challenges (err e)
  missing : IsFound name challenges (ok none)
  found_one :
      (challenge : ConfiguredChallenge)
      → Mem challenge challenges
      → challenge.name ≡ some name
      → IsFound name challenges (ok (some challenge))

-- One more challenge before those that were searched.
named-IsFound :
    (name : String) (challenge : ConfiguredChallenge) (challenges : List ConfiguredChallenge)
    → (own : Option String) → challenge.name ≡ own
    → (r : Result JobFailure (Option ConfiguredChallenge)) → IsFound name challenges r
    → IsFound name (challenge ∷ challenges) (named name challenge own r)
named-IsFound name challenge challenges none e r i = panicked _
named-IsFound name challenge challenges (some own) e (err x) i = panicked x
named-IsFound name challenge challenges (some own) e (ok later) i =
    decided (str_eq own name) refl later i
  where
    kept :
        (other : Option ConfiguredChallenge)
        → IsFound name challenges (ok other)
        → IsFound name (challenge ∷ challenges) (ok other)
    kept none j = missing
    kept (some c) (found_one _ m q) = found_one c (mem-cons_of_mem challenge m) q

    chosen :
        own ≡ name
        → (other : Option ConfiguredChallenge) → IsFound name challenges (ok other)
        → IsFound name (challenge ∷ challenges) (ok (or_later challenge other))
    chosen p none j = found_one challenge mem-cons_self (e ∙ ap (λ o. some o) p)
    chosen p (some c) j = kept (some c) j

    decided :
        (same : Bool)
        → str_eq own name ≡ same
        → (other : Option ConfiguredChallenge) → IsFound name challenges (ok other)
        → IsFound name
            (challenge ∷ challenges)
            (ok (if same then or_later challenge other else other))
    decided true q other j = chosen ((eq_iff own name).0 q) other j
    decided false q other j = kept other j

find_challenge-IsFound :
    (name : String) (challenges : List ConfiguredChallenge)
    → IsFound name challenges (find_challenge name challenges)
unfolding find_challenge
find_challenge-IsFound name [] = missing
find_challenge-IsFound name (challenge ∷ challenges) =
    let rest = find_challenge-IsFound name challenges in
    named-IsFound name challenge challenges challenge.name refl _ rest

module _ {W : Type 0} (h : RequestHandler W) (auth : Auth) (bind : Exec W GoError RequestData)
    (w : W) where
  -- What comes of a request: `w` is the world before it, and `bind` reads it.
  pub data Requested : Result JobFailure (Unit {0}) → W → Type 0 where
    not_started : (e : JobFailure) → Requested (err e) (bind w).1
    scan_started :
        (request : RequestData) (team : ConfigTeam) (challenge : ConfiguredChallenge)
        → (bind w).0 ≡ ok request
        → Mem team h.teams
        → team.id ≡ h.id_text auth.id
        → Mem challenge h.challenges
        → challenge.name ≡ some request.challenge_name
        → Requested
            (ok tt)
            (h.run (scan_task h auth request.duration_secs challenge.config (team ∷ [])) (bind w).1)

  challenge-Requested :
      (request : RequestData) (team : ConfigTeam)
      → (bind w).0 ≡ ok request
      → Mem team h.teams
      → team.id ≡ h.id_text auth.id
      → (r : Result JobFailure (Option ConfiguredChallenge))
      → IsFound request.challenge_name h.challenges r
      → let s = continue r (with_challenge h auth request (team ∷ [])) (bind w).1 in
        Requested s.0 s.1
  challenge-Requested request team e i p _ (panicked x) = not_started x
  challenge-Requested request team e i p _ missing = not_started _
  challenge-Requested request team e i p _ (found_one challenge j q) =
      scan_started request team challenge e i p j q

  teams-Requested :
      (request : RequestData) (own : List ConfigTeam)
      → (bind w).0 ≡ ok request
      → IsOwn (h.id_text auth.id) h.teams own
      → let s = with_teams h auth request own (bind w).1 in Requested s.0 s.1
  teams-Requested request _ e nobody = not_started _
  teams-Requested request _ e (one_team team i p) =
      challenge-Requested request team e i p _
        (find_challenge-IsFound request.challenge_name h.challenges)

  valid-Requested :
      (request : RequestData) (valid : Result GoError (Unit {0}))
      → (bind w).0 ≡ ok request
      → let s =
          continue
            (or_refused (bad_request "validation error") valid)
            (λ done. with_teams h auth request (own_team (h.id_text auth.id) h.teams))
            (bind w).1 in
        Requested s.0 s.1
  valid-Requested request (err x) e = not_started _
  valid-Requested request (ok done) e =
      teams-Requested request _ e (own_team-IsOwn (h.id_text auth.id) h.teams)

  -- RequestChallenge fails and does no more than read the request; or it succeeds, and has handed one
  -- function to the task runner: the scan of a challenge of the configuration that has the name of the
  -- request, for one team, which has the id of the caller.
  pub request_challenge-Requested :
      (validate : RequestData → Result GoError (Unit {0}))
      → let s = request_challenge h auth bind validate w in Requested s.0 s.1
  unfolding request_challenge
  request_challenge-Requested validate = bound (bind w).0 refl
    where
      bound :
          (r : Result GoError RequestData)
          → (bind w).0 ≡ r
          → let s =
              continue
                (or_refused (bad_request "failed to parse request data") r)
                (λ request.
                  (or_refuse (bad_request "validation error") (lift (validate request))
                    >> with_teams h auth request (own_team (h.id_text auth.id) h.teams)))
                (bind w).1 in
            Requested s.0 s.1
      bound (err x) e = not_started _
      bound (ok request) e = valid-Requested request (validate request) e
