-- ===== src/Archive.antt =====
-- competition-api/internal/archive/archive.go: a file is stored under its digest, and a line of the
-- audit log says so.
use Prim.Native.String.{len}
use competition_api.Prelude.{ℕ, String, Option, none, some, Exec, pure, raise, act, ◌>>=◌}
use competition_api.WorkerErrors.{GoError, message}
use competition_api.Types.Status.{ArchivedFile}
use competition_api.Upload.{ReadSeeker, Uploader, hashed}
use competition_api.Audit.{AuditContext, AuditLine, FileArchivedEntity}
use competition_api.Audit.Log.{log_file_archived}

pub record FileMetadata : Type 0 where
  pub local_file_path : Option String
  pub buffer : Option String
  pub archived_file : ArchivedFile
  pub entity : FileArchivedEntity
  pub entity_id : String

-- What is archived: a reader, with its size.
pub record Content (W : Type 0) : Type 0 where
  pub reader : ReadSeeker W
  pub size : ℕ

-- What `ArchiveFile` calls outside the repository.
pub record ArchiveSystem (W : Type 0) : Type 0 where
  pub stat_size : String → Exec W GoError ℕ
  pub open_reader : String → Exec W GoError (ReadSeeker W)
  -- `bytes.NewReader`
  pub bytes_reader : String → ReadSeeker W
  pub sha256 : String → String
  pub print_line : AuditLine → W → W

module _ {W : Type 0} (h : ArchiveSystem W) where
  -- The file at a path, if there is one, else what is in memory.
  unfoldable pub archive_content : Option String → Option String → Exec W GoError (Content W)
  archive_content none none =
      raise (message "tried to archive a file without a buffer or file path")
  archive_content (some path) buffer = do
    size ← h.stat_size path
    reader ← h.open_reader path
    pure (record { reader = reader; size = size })
  archive_content none (some buffer) =
      pure (record { reader = h.bytes_reader buffer; size = len buffer })

  -- Where a file was stored: the store, and the name in it.
  unfoldable pub store_file : Uploader W → FileMetadata → Exec W GoError (String × String)
  unfolding archive_content
  store_file u metadata = do
    content ← archive_content metadata.local_file_path metadata.buffer
    object_name ← hashed h.sha256 u content.reader content.size
    identifier ← u.store_identifier
    pure (identifier, object_name)

  -- `ArchiveFile`
  unfoldable pub archive_file : AuditContext → Uploader W → FileMetadata → Exec W GoError (Unit {0})
  unfolding store_file
  archive_file audit_context u metadata = do
    stored ← store_file u metadata
    act (
        h.print_line (
          log_file_archived audit_context stored.0 stored.1 metadata.archived_file metadata.entity
            metadata.entity_id))
