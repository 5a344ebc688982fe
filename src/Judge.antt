-- ===== src/Judge.antt =====
-- The judge library (judge/): running a program and the verdicts on it.
pub mod Status
pub mod Verdict
pub mod Monitor
pub mod Outcome
pub mod Process
pub mod Commands
pub mod Judger
pub mod Deadline
pub mod Reasons
pub mod Comparison
pub mod Cleanup
pub mod Child
pub mod Cgroup
pub mod Streams
pub mod Output
pub mod Execution
pub mod System
pub mod Report
