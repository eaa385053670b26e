-- ===== src/Middleware.antt =====
-- competition-api/cmd/server/internal/middleware: who makes a request, and on what.
pub mod Credentials
pub mod Permission
pub mod TaskGroup
use competition_api.Prelude.{
  ℕ, String, Bool, true, false, not, ◌&&◌, ◌||◌, Option, none, some, List, [], ◌∷◌, Result, ok, err,
  Exec, pure, raise, lift, try, act, or_return, check, str_eq, ◌>>=◌, ◌>>◌, if◌then◌else◌,
}
use competition_api.WorkerErrors.{GoError}
use competition_api.Types.Bundle.{Uuid}
use competition_api.Models.Rows.{Permissions, Auth, Task}
use competition_api.Http.{
  HttpError, internal_server_error, not_found_error, unauthorized, bad_request, from_context,
}

-- `gorm.ErrRecordNotFound`, or another error of the database.
pub data DbError : Type 0 where
  record_not_found : DbError
  db_failure : GoError → DbError

-- What `argon2id.CheckHash` finds: whether the token matches, and whether the hash was made with
-- the default parameters (`reflect.DeepEqual` with them).
pub record HashCheck : Type 0 where
  pub matches : Bool
  pub is_default : Bool

pub record AuthServer (W : Type 0) : Type 0 where
  -- `uuid.Parse`
  pub parse_id : String → Result GoError Uuid
  -- `uuid.New`
  pub new_id : W → Uuid × W
  -- `models.ByID[models.Auth]`
  pub by_id : Uuid → Exec W DbError Auth
  pub save : Auth → Exec W GoError (Unit {0})
  pub check_hash : String → String → Result GoError HashCheck
  -- `argon2id.CreateHash` with the default parameters, and a random salt
  pub create_hash : String → Exec W GoError String

-- A column that holds true.
abbrev pub is_true : Option Bool → Bool
is_true (some true) = true
is_true _ = false

module _ {W : Type 0} (h : AuthServer W) where
  -- `fakeDBQuery`; the answer is dropped
  unfoldable pub fake_db_query : W → W
  fake_db_query w = let (id, w') = h.new_id w in (h.by_id id w').1

  -- A hash with other parameters is replaced by one of the token that was sent.
  unfoldable pub rehash : String → Auth → HashCheck → Exec W HttpError Auth
  rehash token auth c =
      if not c.is_default
      then (do
        new_hash ← or_return (h.create_hash token) internal_server_error
        or_return (h.save (record auth { token = new_hash })) internal_server_error
        pure (record auth { token = new_hash }))
      else pure auth

  abbrev pub set_auth : Bool → Auth → Option Auth
  set_auth comparison auth = if comparison then some auth else none

  unfoldable pub validate_auth : String → Auth → Exec W HttpError (Option Auth)
  unfolding rehash
  validate_auth token auth = do
    c ← or_return (lift (h.check_hash token auth.token)) internal_server_error
    if not (is_true auth.active)
        then pure none
        else do auth' ← rehash token auth c; pure (set_auth c.matches auth')

  abbrev pub on_row : String → Result DbError Auth → Exec W HttpError (Option Auth)
  on_row token (ok auth) = validate_auth token auth
  on_row token (err record_not_found) = pure none
  on_row token (err (db_failure e)) = raise internal_server_error

  abbrev pub on_id : String → Result GoError Uuid → Exec W HttpError (Option Auth)
  on_id token (err e) = do act fake_db_query; pure none
  on_id token (ok id) = do row ← try (h.by_id id); on_row token row

  -- `BasicAuthValidator`: `some auth` is the answer true, with `auth` set in the context, and `none`
  -- the answer false. The hashes that only take time are left out.
  unfoldable pub basic_auth_validator : String → String → Exec W HttpError (Option Auth)
  unfolding fake_db_query validate_auth
  basic_auth_validator raw_id token = on_id token (h.parse_id raw_id)

-- The fields of `Permissions`, as reflection lists them; all are booleans.
abbrev pub fields_of : Permissions → List Bool
fields_of p = p.crs ∷ p.competition_management ∷ p.job_runner ∷ []

-- The loop of `hasPermission`.
abbrev pub no_field_missing : List Bool → List Bool → Bool
no_field_missing (needed ∷ ns) (has ∷ hs) =
    let rest = no_field_missing ns hs in if needed && not has then false else rest
no_field_missing _ _ = true

unfoldable pub has_permission : Permissions → Permissions → Bool
has_permission needed has = no_field_missing (fields_of needed) (fields_of has)

-- `auth, ok := c.Get(authKey).(*models.Auth); if !ok { return … }`
abbrev or_unauthorized : {W : Type 0} → Option Auth → Exec W HttpError Auth
or_unauthorized none = raise unauthorized
or_unauthorized (some auth) = pure auth

-- A handler, given what is in the context.
module _ {W A : Type 0} where
  -- `HasPermissions`
  unfoldable pub has_permissions :
      Permissions → Option Auth → Exec W HttpError A → Exec W HttpError A
  unfolding has_permission
  has_permissions needed auth_in_context next = do
    auth ← or_unauthorized auth_in_context
    check (has_permission needed auth.permissions) unauthorized
    next

  -- `RoundID`: `valid_rounds` is the map, false for a round that it does not hold.
  unfoldable pub round_id : (String → Bool) → Option Task → Exec W HttpError A → Exec W HttpError A
  round_id valid_rounds task_in_context next = do
    task ← from_context task_in_context
    check (valid_rounds task.round_id) (bad_request "this task is for an invalid round")
    next

abbrev pub or_not_found : {Row : Type 0} → Result DbError Row → Result HttpError Row
or_not_found (ok row) = ok row
or_not_found (err record_not_found) = err not_found_error
or_not_found (err (db_failure e)) = err internal_server_error

module _ {W Row A : Type 0} (parse_id : String → Result GoError Uuid)
    (by_id : Uuid → Exec W DbError Row) where
  -- `PopulateFromIDParam`: the handler is given the row.
  unfoldable pub populate_from_id_param : String → (Row → Exec W HttpError A) → Exec W HttpError A
  populate_from_id_param raw_id next = do
    id ← or_return (lift (parse_id raw_id)) not_found_error
    found ← try (by_id id)
    row ← lift (or_not_found found)
    next row

abbrev pub crs_permissions : Permissions
crs_permissions = record { crs = true; competition_management = false; job_runner = false }

-- The rounds of the configuration, as the map that `RoundID` is given.
abbrev pub configured_rounds : String → String → String → Bool
configured_rounds round generate_round id = str_eq id round || str_eq id generate_round

module _ {W A : Type 0} (parse_id : String → Result GoError Uuid)
    (by_id : Uuid → Exec W DbError Task) where
  -- `taskGroup` of competition-api/cmd/server/internal/routes/v1/v1.go: what stands before a handler
  -- of submissions.
  unfoldable pub task_group :
      (round generate_round : String)
      → Option Auth
      → String
      → (Task → Exec W HttpError A)
      → Exec W HttpError A
  unfolding has_permissions populate_from_id_param round_id
  task_group round generate_round auth raw_id next = has_permissions crs_permissions auth (
      populate_from_id_param parse_id by_id raw_id
        λ task. round_id (configured_rounds round generate_round) (some task) (next task))
