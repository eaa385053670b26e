-- ===== src/Models.antt =====
-- competition-api/cmd/server/internal/models: the rows of the database.
pub mod Bundle
pub mod Rows
pub mod Submissions
pub mod Sources
pub mod Keys
