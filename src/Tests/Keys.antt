-- ===== src/Tests/Keys.antt =====
-- A configuration with one team, loaded over the key of another.
use competition_api.Prelude.{
  ◌≡◌, refl, Bool, true, false, Option, none, some, List, [], ◌∷◌, Result, ok, err, pure, ◌==◌,
  if◌then◌else◌,
}
use competition_api.WorkerErrors.{GoError}
use competition_api.Types.Bundle.{Uuid}
use competition_api.Models.Rows.{Auth}
use competition_api.Models.Keys.{ConfigTeam, KeyStore, key_ids, load_api_keys_from_config}
use competition_api.Models.Keys.Loaded.{
  Table, key_with, or_old, inactive, kept_or_inactive, IsKeyStore, Loaded,
  load_api_keys_from_config-Loaded,
}
use competition_api.Tests.Fixtures.{crs_only, sample_team}

abbrev has_id : Uuid → List Uuid → Bool
has_id id [] = false
has_id id (x ∷ xs) = if x == id then true else has_id id xs

abbrev rows_but : List Uuid → Table → Table
rows_but [] w id = w id
rows_but (x ∷ xs) w id = if has_id id (x ∷ xs) then w id else inactive (w id)

abbrev rolled_back : Table → Result GoError (Unit {0}) × Table → Result GoError (Unit {0}) × Table
rolled_back before (ok x, after) = (ok x, after)
rolled_back before (err e, after) = (err e, before)

-- The world is the table.
abbrev key_store : KeyStore Table
key_store = record {
  create_hash = λ token. pure token;
  parse_id = λ text. ok 4;
  upsert = λ keys w. (ok tt, λ id. or_old (key_with id keys) (w id));
  deactivate_all_but = λ ids w. (ok tt, rows_but ids w);
  transaction = λ body w. rolled_back w (body w);
}

chosen :
    (b : Bool) (key : Auth) (keys : Option Auth) (old : Option Auth) (rest : Bool)
    → (if rest then old else inactive old) ≡ kept_or_inactive keys old
    → (if (if b then true else rest) then old else inactive old)
      ≡ kept_or_inactive (if b then some key else keys) old
chosen true key keys old rest e = refl
chosen false key keys old rest e = e

rows_but-key_ids :
    (keys : List Auth) (id : Uuid) (old : Option Auth)
    → (if has_id id (key_ids keys) then old else inactive old)
      ≡ kept_or_inactive (key_with id keys) old
rows_but-key_ids [] id old = refl
rows_but-key_ids (key ∷ keys) id old =
    chosen (key.id == id) key (key_with id keys) old (has_id id (key_ids keys))
      (rows_but-key_ids keys id old)

commits :
    (before : Table) (r : Result GoError (Unit {0})) (after : Table)
    → (rolled_back before (r, after)).0 ≡ ok tt
    → (r ≡ ok tt) × ((rolled_back before (r, after)).1 ≡ after)
commits before (ok x) after e = (e, refl)
commits before (err x) after e = cc

rolls_back :
    (before : Table) (r : Result GoError (Unit {0})) (after : Table) (e : GoError)
    → (rolled_back before (r, after)).0 ≡ err e
    → (rolled_back before (r, after)).1 ≡ before
rolls_back before (ok x) after e q = cc
rolls_back before (err x) after e q = refl

key_store-IsKeyStore : IsKeyStore key_store (λ w. w)
key_store-IsKeyStore = record {
  hashes = λ token w. refl;
  upserts = λ keys w e id. refl;
  deactivates = λ key keys w e id. rows_but-key_ids (key ∷ keys) id (w id);
  deactivates_none = λ w. refl;
  commits = λ body w. commits w (body w).0 (body w).1;
  rolls_back = λ body w. rolls_back w (body w).0 (body w).1;
}

abbrev only_team : ConfigTeam
only_team = record {
  id = "4";
  note = "new";
  token = "token";
  active = some true;
  permissions = crs_only;
}

abbrev old_keys : Table
old_keys id = if id == 3 then some sample_team else none

load_api_keys_from_config-Loaded_example :
    Loaded key_store
      (only_team ∷ [])
      old_keys
      (load_api_keys_from_config key_store (only_team ∷ []) old_keys).1
      (load_api_keys_from_config key_store (only_team ∷ []) old_keys).0
load_api_keys_from_config-Loaded_example =
    load_api_keys_from_config-Loaded key_store (λ w. w) key_store-IsKeyStore (only_team ∷ [])
      old_keys
