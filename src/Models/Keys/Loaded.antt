-- ===== src/Models/Keys/Loaded.antt =====
-- The table of keys after the configuration is loaded.
use competition_api.Prelude.{
  subst, arith, String, ◌≡◌, refl, ap, ◌∙◌, false, Option, none, some, List, [], ◌∷◌, Result, ok,
  err, Exec, ◌==◌, continue, if◌then◌else◌, lift, ◌>>=◌, >>=-eq-ok,
}
use competition_api.WorkerErrors.{GoError, wrap, wrapping}
use competition_api.Types.Bundle.{Uuid}
use competition_api.Models.Rows.{Auth}
use competition_api.Models.Keys.{
  ConfigTeam, KeyStore, key_ids, keys_of, upsert_some, update_keys, load_api_keys_from_config,
}

-- The table, seen as a function.
abbrev pub Table : Type 0
Table = Uuid → Option Auth

abbrev pub key_with : Uuid → List Auth → Option Auth
key_with id [] = none
key_with id (key ∷ keys) = if key.id == id then some key else key_with id keys

abbrev pub or_old : Option Auth → Option Auth → Option Auth
or_old none old = old
or_old (some key) old = some key

abbrev pub inactive : Option Auth → Option Auth
inactive none = none
inactive (some key) = some (record key { active = some false })

abbrev pub kept_or_inactive : Option Auth → Option Auth → Option Auth
kept_or_inactive none old = inactive old
kept_or_inactive (some key) old = old

-- The key of the configuration, or the old one without its rights.
abbrev configured_row : Option Auth → Option Auth → Option Auth
configured_row none old = inactive old
configured_row (some key) old = some key

abbrev pub configured : List Auth → Table → Table
configured keys old id = configured_row (key_with id keys) (old id)

-- What is documented of the database and gorm, `table` being the rows that are there: an empty list is
-- rendered as (NULL), and nothing is known not to be in that.
pub record IsKeyStore {W : Type 0} (h : KeyStore W) (table : W → Table) : Type 0 where
  pub hashes : (token : String) (w : W) → table (h.create_hash token w).1 ≡ table w
  pub upserts :
      (keys : List Auth) (w : W)
      → (h.upsert keys w).0 ≡ ok tt
      → (id : Uuid) → table (h.upsert keys w).1 id ≡ or_old (key_with id keys) (table w id)
  pub deactivates :
      (key : Auth) (keys : List Auth) (w : W)
      → (h.deactivate_all_but (key_ids (key ∷ keys)) w).0 ≡ ok tt
      → (id : Uuid)
      → table (h.deactivate_all_but (key_ids (key ∷ keys)) w).1 id
        ≡ kept_or_inactive (key_with id (key ∷ keys)) (table w id)
  pub deactivates_none : (w : W) → table (h.deactivate_all_but [] w).1 ≡ table w
  pub commits :
      (body : Exec W GoError (Unit {0})) (w : W)
      → (h.transaction body w).0 ≡ ok tt
      → ((body w).0 ≡ ok tt) × (table (h.transaction body w).1 ≡ table (body w).1)
  pub rolls_back :
      (body : Exec W GoError (Unit {0})) (w : W) (e : GoError)
      → (h.transaction body w).0 ≡ err e
      → table (h.transaction body w).1 ≡ table w

-- The keys are those of the teams, one for each, with a hash of its token.
pub data AreKeysOf {W : Type 0} (h : KeyStore W) : List ConfigTeam → List Auth → Type 0 where
  no_teams : AreKeysOf h [] []
  one_more :
      (team : ConfigTeam) (teams : List ConfigTeam) (hash : String) (id : Uuid) (keys : List Auth)
      → (w : W) × ((h.create_hash team.token w).0 ≡ ok hash)
      → h.parse_id team.id ≡ ok id
      → AreKeysOf h teams keys
      → AreKeysOf h (team ∷ teams) (
          record {
            id = id;
            token = hash;
            note = team.note;
            permissions = team.permissions;
            active = team.active;
          }
          ∷ keys)

-- What a load does to the table.
pub data Loaded {W : Type 0} (h : KeyStore W) (teams : List ConfigTeam) (before after : Table)
    : Result GoError (Unit {0}) → Type 0 where
  refused : (e : GoError) → after ≡ before → Loaded h teams before after (err e)
  none_configured : teams ≡ [] → after ≡ before → Loaded h teams before after (ok tt)
  loaded :
      (key : Auth) (keys : List Auth)
      → AreKeysOf h teams (key ∷ keys)
      → ((id : Uuid) → after id ≡ configured (key ∷ keys) before id)
      → Loaded h teams before after (ok tt)

ok_inv : {a b : List Auth} → ◌≡◌ {A = Result GoError (List Auth)} (ok a) (ok b) → a ≡ b
ok_inv p = cc

no_keys :
    {W : Type 0} {h : KeyStore W} {teams : List ConfigTeam} → AreKeysOf h teams [] → teams ≡ []
no_keys no_teams = refl

wrapping_inv :
    {W A : Type 0} (text : String) (m : Exec W GoError A) (w : W) {a : A}
    → (wrapping text m w).0 ≡ ok a
    → (m w).0 ≡ ok a
wrapping_inv text m w e = ground arith

then_ok :
    {W A B : Type 0} (m : Exec W GoError A) (f : A → Exec W GoError B) (w : W) (a : A)
    → (m w).0 ≡ ok a
    → (m >>= f) w ≡ f a (m w).1
then_ok m f w a e = ap (λ r. continue r f (m w).1) e

both_written : (k old : Option Auth) → kept_or_inactive k (or_old k old) ≡ configured_row k old
both_written none old = refl
both_written (some key) old = refl

module _ {W : Type 0} (h : KeyStore W) (table : W → Table) (store : IsKeyStore h table) where
  bind-table :
      {A B : Type 0} (m : Exec W GoError A) (f : A → Exec W GoError B) (w : W)
      → table (m w).1 ≡ table w
      → ((a : A) (w' : W) → table (f a w').1 ≡ table w')
      → table ((m >>= f) w).1 ≡ table w
  bind-table {A} m f w e k = from (m w).0 ∙ e
    where
      from : (r : Result GoError A) → table (continue r f (m w).1).1 ≡ table (m w).1
      from (ok a) = k a (m w).1
      from (err x) = refl

  keys_of-table : (teams : List ConfigTeam) (w : W) → table (keys_of h teams w).1 ≡ table w
  unfolding keys_of
  keys_of-table [] w = refl
  keys_of-table (team ∷ teams) w =
      let rest = keys_of-table teams in
      bind-table (h.create_hash team.token) _ w (store.hashes team.token w) λ hash w₁.
        bind-table (lift (h.parse_id team.id)) _ w₁ refl
          λ id w₂. bind-table (keys_of h teams) _ w₂ (rest w₂) λ keys w₃. refl

  keys_of-AreKeysOf :
      (teams : List ConfigTeam) (w : W) (keys : List Auth)
      → (keys_of h teams w).0 ≡ ok keys
      → AreKeysOf h teams keys
  unfolding keys_of
  keys_of-AreKeysOf [] w keys e = subst (AreKeysOf h []) (ok_inv e) no_teams
  keys_of-AreKeysOf (team ∷ teams) w keys e =
      let rest = keys_of-AreKeysOf teams in
      let (hash, e_hash, e₁) = >>=-eq-ok (h.create_hash team.token) _ w e in
      let w₁ = (h.create_hash team.token w).1 in
      let (id, e_id, e₂) = >>=-eq-ok (lift (h.parse_id team.id)) _ w₁ e₁ in
      let (others, e_others, e₃) = >>=-eq-ok (keys_of h teams) _ w₁ e₂ in
      subst (AreKeysOf h (team ∷ teams)) (ok_inv e₃)
        (one_more team teams hash id others (w, e_hash) e_id (rest w₁ others e_others))

  update_keys-configured :
      (key : Auth) (keys : List Auth) (w : W)
      → (update_keys h (key ∷ keys) w).0 ≡ ok tt
      → (id : Uuid)
      → table (update_keys h (key ∷ keys) w).1 id ≡ configured (key ∷ keys) (table w) id
  update_keys-configured key keys w e id =
      let up = upsert_some h (key ∷ keys) in
      let (x, e₁, e₂) = >>=-eq-ok up _ w e in
      let w₁ = (up w).1 in
      ap (λ s. table s.1 id) (then_ok up _ w x e₁)
      ∙ store.deactivates key keys w₁
          (wrapping_inv _ (h.deactivate_all_but (key_ids (key ∷ keys))) w₁ e₂) id
      ∙ ap (kept_or_inactive (key_with id (key ∷ keys)))
          (store.upserts (key ∷ keys) w (wrapping_inv _ (h.upsert (key ∷ keys)) w e₁) id)
      ∙ both_written (key_with id (key ∷ keys)) (table w id)

  -- Only deactivation, of nothing.
  update_no_keys : (w : W) → (update_keys h [] w).0 ≡ ok tt → table (update_keys h [] w).1 ≡ table w
  update_no_keys w e = store.deactivates_none w

  stored-Loaded :
      (teams : List ConfigTeam) (keys : List Auth) (w : W) (before : Table)
      → table w ≡ before
      → AreKeysOf h teams keys
      → (r : Result GoError (Unit {0})) → (h.transaction (update_keys h keys) w).0 ≡ r
      → Loaded h teams before
          (table (h.transaction (update_keys h keys) w).1)
          (wrap "failed to update auth" r)
  stored-Loaded teams keys w before same are (err x) e =
      refused _ (store.rolls_back (update_keys h keys) w x e ∙ same)
  stored-Loaded teams [] w before same are (ok done) e =
      let (e_body, e_table) = store.commits (update_keys h []) w e in
      none_configured (no_keys are) (e_table ∙ update_no_keys w e_body ∙ same)
  stored-Loaded teams (key ∷ keys) w before same are (ok done) e =
      let (e_body, e_table) = store.commits (update_keys h (key ∷ keys)) w e in
      loaded key keys are λ id.
        ap (λ t. t id) e_table
        ∙ update_keys-configured key keys w e_body id
        ∙ ap (λ t. configured (key ∷ keys) t id) same

  hashed-Loaded :
      (teams : List ConfigTeam) (before : Table) (w : W)
      → table w ≡ before
      → (r : Result GoError (List Auth))
      → ((keys : List Auth) → r ≡ ok keys → AreKeysOf h teams keys)
      → let next =
          continue r
            (λ keys. wrapping "failed to update auth" (h.transaction (update_keys h keys)))
            w in
        Loaded h teams before (table next.1) next.0
  hashed-Loaded teams before w same (err x) are = refused x same
  hashed-Loaded teams before w same (ok keys) are =
      stored-Loaded teams keys w before same (are keys refl)
        (h.transaction (update_keys h keys) w).0 refl

  -- Loading a configuration fails and changes no key; or the configuration is empty and no key is changed;
  -- or afterwards the keys of its teams are there, each with its team's id, note, permissions and activity
  -- and a hash of its token, and of all other keys those that were there, set inactive.
  pub load_api_keys_from_config-Loaded :
      (teams : List ConfigTeam) (w : W)
      → let (r, w') = load_api_keys_from_config h teams w in Loaded h teams (table w) (table w') r
  unfolding load_api_keys_from_config
  load_api_keys_from_config-Loaded teams w =
      hashed-Loaded teams (table w) (keys_of h teams w).1 (keys_of-table teams w)
        (keys_of h teams w).0 (keys_of-AreKeysOf teams w)
