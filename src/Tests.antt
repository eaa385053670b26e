-- ===== src/Tests.antt =====
-- The theorems at concrete inputs.
mod Fixtures
mod Worker
mod Server
mod Results
mod Tasks
mod Submissions
mod Queue
mod Jobs
mod Delivery
mod Keys
mod Jobrunner
mod Requests
mod Languages
