-- ===== src/Upload.antt =====
-- competition-api/internal/upload/uploader.go, with competition-api/internal/hash/hash.go.
pub mod Stored
pub mod Retrying
use competition_api.Prelude.{String, ℕ, Bool, Exec, pure, ◌>>=◌, ◌>>◌, if◌then◌else◌}
use competition_api.WorkerErrors.{GoError}

-- `io.ReadSeeker`: a buffer in memory or an open file, read from where it stands.
pub record ReadSeeker (W : Type 0) : Type 0 where
  pub seek_start : Exec W GoError (Unit {0})
  pub read_all : Exec W GoError String

-- The interface `Uploader`. Its implementations talk to a cloud store.
pub record Uploader (W : Type 0) : Type 0 where
  pub upload : ReadSeeker W → ℕ → String → Exec W GoError (Unit {0})
  pub exists : String → Exec W GoError Bool
  pub store_identifier : Exec W GoError String
  pub presigned_read_url : String → ℕ → Exec W GoError String

module _ {W : Type 0} (sha256 : String → String) where
  -- `hash.Reader`: the digest, in hexadecimal, of what the reader holds.
  unfoldable pub hash_reader : ReadSeeker W → Exec W GoError String
  hash_reader reader = do content ← reader.read_all; pure (sha256 content)

  -- `Hashed`: the blob's name is the digest of its content.
  unfoldable pub hashed : Uploader W → ReadSeeker W → ℕ → Exec W GoError String
  unfolding hash_reader
  hashed u reader length = do
    reader.seek_start
    hashed_content ← hash_reader reader
    exists ← u.exists hashed_content
    if exists
        then pure hashed_content
        else do reader.seek_start; u.upload reader length hashed_content; pure hashed_content
