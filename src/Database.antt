-- ===== src/Database.antt =====
-- The database library (database/): workers and the pool of them.
pub mod Worker
pub mod Pool
pub mod Slots
pub mod Leases
