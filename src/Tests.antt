-- ===== src/Tests.antt =====
-- A platform, a shop page and the services of a worker, on which the theorems are applied.
pub mod Shop
pub mod Safety
pub mod Reading
pub mod Jobs
pub mod Compilation
pub mod Deliveries
pub mod Pulling
pub mod Posting
pub mod Sessions
pub mod Console
pub mod Streams
pub mod Store
pub mod Pages
