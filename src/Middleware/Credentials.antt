-- ===== src/Middleware/Credentials.antt =====
-- Who is let in, and what becomes of the stored hash.
use competition_api.Prelude.{
  String, ◌≡◌, refl, ap, Bool, true, false, not, Option, none, some, Result, ok, err, Result-cases,
  inl, inr, arith,
}
use competition_api.Types.Bundle.{Uuid}
use competition_api.Models.Rows.{Auth}
use competition_api.Middleware.{
  DbError, HashCheck, AuthServer, is_true, rehash, validate_auth, on_row, basic_auth_validator,
}

module _ {W : Type 0} (h : AuthServer W) where
  -- The row of the key, as the database has it, is active and its hash is the token's.
  pub record IsLetIn (raw_id token : String) (auth : Auth) (w : W) : Type 0 where
    pub id : Uuid
    pub row : Auth
    pub check : HashCheck
    pub parsed : h.parse_id raw_id ≡ ok id
    pub found : (h.by_id id w).0 ≡ ok row
    pub active : row.active ≡ some true
    pub checked : h.check_hash token row.token ≡ ok check
    pub matches : check.matches ≡ true
    pub same_team : auth.id ≡ row.id
    pub same_permissions : auth.permissions ≡ row.permissions

  rehash_keeps :
      (token : String) (row auth : Auth) (c : HashCheck) (w : W)
      → (rehash h token row c w).0 ≡ ok auth
      → (auth.id ≡ row.id) × (auth.permissions ≡ row.permissions)
  unfolding rehash
  rehash_keeps token row auth c w e = ground arith

  active_inv : (o : Option Bool) → not (is_true o) ≡ false → o ≡ some true
  active_inv o e = ground arith

  validate_auth_inv :
      (token : String) (row auth : Auth) (w : W)
      → (validate_auth h token row w).0 ≡ ok (some auth)
      → (c : HashCheck) × (h.check_hash token row.token ≡ ok c)
        × (row.active ≡ some true)
        × (c.matches ≡ true)
        × (auth.id ≡ row.id)
        × (auth.permissions ≡ row.permissions)
  unfolding validate_auth
  validate_auth_inv token row auth w e = elim (Result-cases (h.check_hash token row.token)) [
    | inl (c, k) ↦ (c, k, ground arith, ground arith, ground arith, ground arith)
    | inr (x, k) ↦ absurd (ground arith)
  ]

  on_row_inv :
      (token : String) (r : Result DbError Auth) (auth : Auth) (w : W)
      → (on_row h token r w).0 ≡ ok (some auth)
      → (row : Auth) × (r ≡ ok row) × ((validate_auth h token row w).0 ≡ ok (some auth))
  on_row_inv token (ok row) auth w e = (row, refl, e)
  on_row_inv token (err DbError.record_not_found) auth w e = cc
  on_row_inv token (err (DbError.db_failure x)) auth w e = cc

  -- `BasicAuthValidator` answers true only if the id was parsed, the key with that id is in the
  -- database and active, and its hash is one of the token that was sent; the key that is put into the
  -- context has the id and the permissions of that row.
  pub basic_auth_validator-IsLetIn :
      (raw_id token : String) (auth : Auth) (w : W)
      → (basic_auth_validator h raw_id token w).0 ≡ ok (some auth)
      → IsLetIn raw_id token auth w
  unfolding basic_auth_validator
  basic_auth_validator-IsLetIn raw_id token auth w e = elim (Result-cases (h.parse_id raw_id)) [
    | inr (x, k) ↦ absurd (ground arith)
    | inl (id, k) ↦
        let (row, found, e') =
          on_row_inv token (h.by_id id w).0 auth (h.by_id id w).1 (rw k at e) in
        let (c, checked, active, matches, team, permissions) =
          validate_auth_inv token row auth _ e' in
        record {
          id = id;
          row = row;
          check = c;
          parsed = k;
          found = found;
          active = active;
          checked = checked;
          matches = matches;
          same_team = team;
          same_permissions = permissions;
        }
  ]

  -- An active key whose hash was made with other parameters than the default ones, a token that does
  -- not match it, and a database and a library for hashes that do what they promise: the new hash can
  -- be made and stored, the stored row is read back, and the new hash is one of the token.
  pub record IsStale (raw_id token : String) (w : W) : Type 0 where
    pub id : Uuid
    pub row : Auth
    pub new_hash : String
    pub w₁ : W
    pub w₂ : W
    pub w₃ : W
    pub w₄ : W
    pub parsed : h.parse_id raw_id ≡ ok id
    pub found : h.by_id id w ≡ (ok row, w₁)
    pub active : row.active ≡ some true
    pub differs : h.check_hash token row.token ≡ ok (record { matches = false; is_default = false })
    pub hashed : h.create_hash token w₁ ≡ (ok new_hash, w₂)
    pub stored : h.save (record row { token = new_hash }) w₂ ≡ (ok tt, w₃)
    pub read_back : h.by_id id w₃ ≡ (ok (record row { token = new_hash }), w₄)
    pub agrees : h.check_hash token new_hash ≡ ok (record { matches = true; is_default = true })

  -- Such a request is answered false, and the same request made again is answered true: the first one
  -- has replaced the team's hash by one of the token that did not match.
  pub wrong_token_twice :
      (raw_id token : String) (w : W) (s : IsStale raw_id token w)
      → (basic_auth_validator h raw_id token w ≡ (ok none, s.w₃))
        × (basic_auth_validator h raw_id token s.w₃
            ≡ (ok (some (record s.row { token = s.new_hash })), s.w₄))
  unfolding basic_auth_validator rehash
  wrong_token_twice raw_id token w s = (
    rw (s.parsed, s.found, s.differs, ap is_true s.active, s.hashed, s.stored) refl,
    rw (s.parsed, s.read_back, s.agrees, ap is_true s.active) refl,
  )
