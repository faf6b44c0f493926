-- ===== src/Tests.antt =====
-- Concrete back ends, and the theorems at concrete inputs.
pub mod World
pub mod Labels
pub mod Jobs
pub mod Files
pub mod Runs
pub mod Options
pub mod Buckets
pub mod Volumes
pub mod Logins
pub mod Sessions
pub mod Databases
