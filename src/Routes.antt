-- ===== src/Routes.antt =====
-- competition-api/cmd/server/internal/routes: the handlers of the server's API.
pub mod Bundle
pub mod Context
pub mod Submission
pub mod Jobrunner
pub mod Requests
pub mod Competition
