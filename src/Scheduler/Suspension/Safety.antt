-- ===== src/Scheduler/Suspension/Safety.antt =====
-- No wake-up of a task is lost, and the calls of `std::abort` are not reached.
use absolute.Prelude.{List}
