-- ===== src/Tests.antt =====
-- Concrete adapters, jobs and runs, and the theorems at them.
pub mod Data
pub mod Registry
pub mod Control
pub mod Adapters
pub mod Robots
pub mod Motions
pub mod Functions
pub mod Locks
pub mod Writes
pub mod Commands
pub mod Runs
