-- ===== src/Tests.antt =====
-- Runs of the definitions at concrete inputs, at which the theorems are applied.
mod Values
mod Machine
mod Judge
mod Process
mod Core
mod Database
mod Token
mod Services
mod Rows
mod Accounts
mod Tasks
mod Actuator
mod Execution
mod Server
mod Submission
mod Reporting
