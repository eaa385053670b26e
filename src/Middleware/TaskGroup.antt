-- ===== src/Middleware/TaskGroup.antt =====
-- When the handlers of a task's submissions run.
use competition_api.Prelude.{
  String, ◌≡◌, refl, ◌⊎◌, inl, inr, true, Bool-cases, Option, none, some, Result, ok, err, Exec,
  Result-cases,
}
use competition_api.WorkerErrors.{GoError}
use competition_api.Types.Bundle.{Uuid}
use competition_api.Models.Rows.{Auth, Task}
use competition_api.Http.{
  HttpError, unauthorized, bad_request, internal_server_error, not_found_error,
}
use competition_api.Middleware.{
  DbError, record_not_found, db_failure, has_permission, configured_rounds, crs_permissions,
  task_group,
}
use competition_api.Middleware.Permission.{Covers, has_permission-Covers}

module _ {W A : Type 0} (parse_id : String → Result GoError Uuid)
    (by_id : Uuid → Exec W DbError Task) (round generate_round : String)
    (next : Task → Exec W HttpError A) where
  -- The handler runs, and on the task that the database has: the caller may act for a team, and the
  -- task is of a configured round.
  pub record LetsThrough (auth_in_context : Option Auth) (raw_id : String) (w : W) : Type 0 where
    pub auth : Auth
    pub id : Uuid
    pub task : Task
    pub w₁ : W
    pub authenticated : auth_in_context ≡ some auth
    pub covers : Covers crs_permissions auth.permissions
    pub parsed : parse_id raw_id ≡ ok id
    pub found : by_id id w ≡ (ok task, w₁)
    pub in_round : configured_rounds round generate_round task.round_id ≡ true
    pub runs :
        task_group parse_id by_id round generate_round auth_in_context raw_id next w ≡ next task w₁

  -- The request is refused, with nothing done before or with the task looked up.
  pub data Refused (auth : Option Auth) (raw_id : String) (w : W) : Type 0 where
    refused_at_once :
        (e : HttpError)
        → task_group parse_id by_id round generate_round auth raw_id next w ≡ (err e, w)
        → Refused auth raw_id w
    refused_after_lookup :
        (e : HttpError) (id : Uuid)
        → parse_id raw_id ≡ ok id
        → task_group parse_id by_id round generate_round auth raw_id next w
          ≡ (err e, (by_id id w).1)
        → Refused auth raw_id w

  after_lookup :
      (auth : Auth) (raw_id : String) (w : W) (id : Uuid) (o : Result DbError Task) (w₁ : W)
      → has_permission crs_permissions auth.permissions ≡ true
      → parse_id raw_id ≡ ok id
      → by_id id w ≡ (o, w₁)
      → LetsThrough (some auth) raw_id w ⊎ Refused (some auth) raw_id w
  unfolding task_group
  after_lookup auth raw_id w id (err record_not_found) w₁ has parsed found =
      inr (refused_after_lookup not_found_error id parsed (rw (has, parsed, found) refl))
  after_lookup auth raw_id w id (err (db_failure x)) w₁ has parsed found =
      inr (refused_after_lookup internal_server_error id parsed (rw (has, parsed, found) refl))
  after_lookup auth raw_id w id (ok task) w₁ has parsed found =
      elim (Bool-cases (configured_rounds round generate_round task.round_id)) [
        | inr old ↦ inr (
            refused_after_lookup (bad_request "this task is for an invalid round") id parsed
              (rw (has, parsed, found, old) refl))
        | inl valid ↦ inl (record {
          auth = auth;
          id = id;
          task = task;
          w₁ = w₁;
          authenticated = refl;
          covers = (has_permission-Covers crs_permissions auth.permissions).0 has;
          parsed = parsed;
          found = found;
          in_round = valid;
          runs = rw (has, parsed, found, valid) refl;
        })
      ]

  -- A handler of the task group runs as it is, on the task of the database, for an authenticated caller
  -- with the permission of a team and a task of a configured round, or the request is refused and the
  -- handler does nothing.
  pub task_group-cases :
      (auth : Option Auth) (raw_id : String) (w : W)
      → LetsThrough auth raw_id w ⊎ Refused auth raw_id w
  unfolding task_group
  task_group-cases none raw_id w = inr (refused_at_once unauthorized refl)
  task_group-cases (some auth) raw_id w =
      elim (Bool-cases (has_permission crs_permissions auth.permissions)) [
        | inr lacks ↦ inr (refused_at_once unauthorized (rw lacks refl))
        | inl has ↦ elim (Result-cases (parse_id raw_id)) [
          | inr (x, bad) ↦ inr (refused_at_once not_found_error (rw (has, bad) refl))
          | inl (id, parsed) ↦ after_lookup auth raw_id w id _ _ has parsed refl
        ]
      ]
