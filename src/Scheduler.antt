-- ===== src/Scheduler.antt =====
-- internal/scheduler: the dispatcher, the heartbeat monitor, the heartbeat consumer and the election.
pub mod Dispatcher
pub mod Loops
pub mod Monitor
pub mod Heartbeat
pub mod Leader
pub mod Main
