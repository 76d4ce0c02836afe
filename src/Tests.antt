-- ===== src/Tests.antt =====
-- Instances of the interfaces, small tables, and the theorems at concrete inputs.
pub mod Instances
pub mod Tables
mod Repositories
mod Programs
mod Workers
mod Requests
mod Server
mod Schedulers
mod Retries
mod Pipelines
mod EchoJobs
mod Journeys
mod Moments
mod Failures
mod Recoveries
