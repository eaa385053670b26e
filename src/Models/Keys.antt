-- ===== src/Models/Keys.antt =====
-- `LoadAPIKeysFromConfig` of competition-api/cmd/server/internal/models/auth.go.
pub mod Loaded
use competition_api.Prelude.{
  String, Bool, true, false, Option, none, some, List, [], ◌∷◌, Result, ok, err, Exec, pure, lift,
  ◌>>=◌, ◌>>◌,
}
use competition_api.WorkerErrors.{GoError, wrapping}
use competition_api.Types.Bundle.{Uuid}
use competition_api.Models.Rows.{Permissions, Auth}

-- The part of `config.Team` that a key is made from; the pointer `Active` may be nil.
pub record ConfigTeam : Type 0 where
  pub id : String
  pub note : String
  pub token : String
  pub active : Option Bool
  pub permissions : Permissions

pub record KeyStore (W : Type 0) : Type 0 where
  -- `argon2id.CreateHash`
  pub create_hash : String → Exec W GoError String
  -- `uuid.Parse`
  pub parse_id : String → Result GoError Uuid
  -- `INSERT … ON CONFLICT UPDATE ALL`
  pub upsert : List Auth → Exec W GoError (Unit {0})
  -- `UPDATE … SET active = false WHERE id NOT IN …`
  pub deactivate_all_but : List Uuid → Exec W GoError (Unit {0})
  -- `db.Transaction`
  pub transaction : Exec W GoError (Unit {0}) → Exec W GoError (Unit {0})

abbrev pub key_ids : List Auth → List Uuid
key_ids [] = []
key_ids (key ∷ keys) = key.id ∷ key_ids keys

module _ {W : Type 0} (h : KeyStore W) where
  abbrev pub new_key : ConfigTeam → String → Uuid → Auth
  new_key team hash id = record {
    id = id;
    token = hash;
    note = team.note;
    permissions = team.permissions;
    active = team.active;
  }

  -- The rows of the keys, in the order of the teams.
  unfoldable pub keys_of : List ConfigTeam → Exec W GoError (List Auth)
  keys_of [] = pure []
  keys_of (team ∷ teams) = do
    hash ← h.create_hash team.token
    id ← lift (h.parse_id team.id)
    keys ← keys_of teams
    pure (new_key team hash id ∷ keys)

  abbrev pub upsert_some : List Auth → Exec W GoError (Unit {0})
  upsert_some [] = pure tt
  upsert_some (key ∷ keys) = wrapping "failed to upsert defined auths" (h.upsert (key ∷ keys))

  -- The function that the transaction runs.
  abbrev pub update_keys : List Auth → Exec W GoError (Unit {0})
  update_keys keys = do
    upsert_some keys
    wrapping "failed to set all rows not in defined auth inactive"
        (h.deactivate_all_but (key_ids keys))

  unfoldable pub load_api_keys_from_config : List ConfigTeam → Exec W GoError (Unit {0})
  unfolding keys_of
  load_api_keys_from_config teams = do
    keys ← keys_of teams
    wrapping "failed to update auth" (h.transaction (update_keys keys))
