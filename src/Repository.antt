-- ===== src/Repository.antt =====
-- internal/repository: the three tables and the statements that read and write them.
pub mod Database
pub mod Jobs
pub mod Workers
pub mod DeadLetters
pub mod Operations
