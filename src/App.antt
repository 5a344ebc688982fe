-- ===== src/App.antt =====
-- The server (app/): its managers, its services and its handlers.
pub mod World
pub mod Monad
pub mod DbManager
pub mod Redis
pub mod Operations
pub mod Messages
pub mod Token
pub mod Services
pub mod Subscriber
pub mod JudgeTask
pub mod Api
pub mod Polling
pub mod Startup
pub mod Settings
