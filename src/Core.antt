-- ===== src/Core.antt =====
-- The core library (core/): types, containers and the thread pool.
pub mod FileWriter
pub mod Enums
pub mod Types
pub mod Json
pub mod Serial
pub mod Serializable
pub mod Queue
pub mod ThreadPool
pub mod Logger
pub mod Configurator
