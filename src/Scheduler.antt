-- ===== src/Scheduler.antt =====
-- Absolute-Runtime/src/tasks.cpp: deadlines and cancellation of tasks, the states in which a task
-- is suspended and resumed, and the queues from which workers take tasks.
pub mod Control
pub mod Suspension
pub mod Priority
pub mod Lanes
pub mod Queue
pub mod Pool
pub mod Group
mod Examples
