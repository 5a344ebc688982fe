-- ===== src/Exceptions.antt =====
-- The exceptions library (exceptions/) and the result of code that may throw.
pub mod Result
pub mod Texts
pub mod Files
