-- ===== src/Upload/Stored.antt =====
-- What a name that `Hashed` returns stands for.
use competition_api.Prelude.{
  ℕ, String, ◌≡◌, refl, sym, ap, ◌∙◌, subst, Bool, true, false, Result, ok, err, Exec, pure,
  continue, ◌>>=◌, ◌>>◌, >>=-eq-ok, if◌then◌else◌,
}
use competition_api.WorkerErrors.{GoError}
use competition_api.Upload.{ReadSeeker, Uploader, hash_reader, hashed}

module _ {W : Type 0} (sha256 : String → String) (u : Uploader W) (reader : ReadSeeker W)
    (length : ℕ) where
  -- From the world `w`, the store says that it has the blob, or the reader is put back to its start and
  -- the blob is stored from there.
  pub data IsKept (name : String) (w : W) : Type 0 where
    was_there : (u.exists name w).0 ≡ ok true → IsKept name w
    was_stored :
        (w₁ w₂ : W)
        → u.exists name w ≡ (ok false, w₁)
        → reader.seek_start w₁ ≡ (ok tt, w₂)
        → (u.upload reader length name w₂).0 ≡ ok tt
        → IsKept name w

  -- The name is the digest of what the reader holds from its start, and the blob is kept under it.
  pub record IsStored (name : String) (w : W) : Type 0 where
    pub content : String
    pub w₁ : W
    pub w₂ : W
    pub rewound : reader.seek_start w ≡ (ok tt, w₁)
    pub read : reader.read_all w₁ ≡ (ok content, w₂)
    pub is_digest : name ≡ sha256 content
    pub kept : IsKept name w₂

  paired :
      {A : Type 0} (m : Exec W GoError A) (w : W) {a : A} → (m w).0 ≡ ok a → m w ≡ (ok a, (m w).1)
  paired m w e = ap (λ r. (r, (m w).1)) e

  abbrev store : String → Bool → Exec W GoError String
  store digest there =
      if there
      then pure digest
      else do reader.seek_start; u.upload reader length digest; pure digest

  store_inv :
      (digest name : String) (w : W) (there : Bool)
      → (u.exists digest w).0 ≡ ok there
      → (store digest there (u.exists digest w).1).0 ≡ ok name
      → (name ≡ digest) × IsKept digest w
  store_inv digest name w true there e = (cc, was_there there)
  store_inv digest name w false missing e =
      let w₁ = (u.exists digest w).1 in
      let (x, sought, rest) =
        >>=-eq-ok reader.seek_start (λ _. u.upload reader length digest >> pure digest) w₁ e in
      let (y, uploaded, last) =
        >>=-eq-ok (u.upload reader length digest) (λ _. pure digest) (reader.seek_start w₁).1
          rest in
      (
        cc,
        was_stored w₁ (reader.seek_start w₁).1 (paired (u.exists digest) w missing)
            (paired reader.seek_start w₁ sought) uploaded,
      )

  digest_world :
      (r : Result GoError String) (w : W)
      → (continue r (λ c. pure {E = GoError} (sha256 c)) w).1 ≡ w
  digest_world (ok c) w = refl
  digest_world (err e) w = refl

  digest_inv :
      (w : W) {digest : String}
      → (hash_reader sha256 reader w).0 ≡ ok digest
      → (content : String) × (reader.read_all w ≡ (ok content, (hash_reader sha256 reader w).1))
        × (digest ≡ sha256 content)
  unfolding hash_reader
  digest_inv w e =
      let (content, read, last) = >>=-eq-ok reader.read_all (λ c. pure (sha256 c)) w e in
      (
        content,
        paired reader.read_all w read
            ∙ ap (λ v. (ok content, v))
                (sym (digest_world (reader.read_all w).0 (reader.read_all w).1)),
        cc,
      )

  -- If `Hashed` succeeds, the name that it returns is the digest of what the reader holds from its
  -- start, and either the store says that it has a blob of that name, or the reader was put back to
  -- its start and stored under that name.
  pub hashed-IsStored :
      (w : W) (name : String) → (hashed sha256 u reader length w).0 ≡ ok name → IsStored name w
  unfolding hashed
  hashed-IsStored w name e =
      let w₁ = (reader.seek_start w).1 in
      let (x, sought, r₁) =
        >>=-eq-ok reader.seek_start (λ _. hash_reader sha256 reader >>= λ d. u.exists d >>= store d)
          w e in
      let (digest, digested, r₂) =
        >>=-eq-ok (hash_reader sha256 reader) (λ d. u.exists d >>= store d) w₁ r₁ in
      let w₂ = (hash_reader sha256 reader w₁).1 in
      let (there, asked, r₃) = >>=-eq-ok (u.exists digest) (store digest) w₂ r₂ in
      let (content, read, is_digest) = digest_inv w₁ digested in
      let (same, kept) = store_inv digest name w₂ there asked r₃ in
      record {
        content = content;
        w₁ = w₁;
        w₂ = w₂;
        rewound = paired reader.seek_start w sought;
        read = read;
        is_digest = same ∙ is_digest;
        kept = subst (λ n. IsKept n w₂) (sym same) kept;
      }
