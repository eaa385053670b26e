-- ===== src/Types.antt =====
-- competition-api/internal/types: the values that the parts exchange.
pub mod Status
pub mod ExitCode
pub mod Worker
pub mod Optional
pub mod Bundle
