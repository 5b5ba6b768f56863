-- ===== src/Sync/Mutex.antt =====
-- `MutexImpl` of Absolute-Runtime/src/tasks.cpp.
pub mod Histories
use absolute.Prelude.{Bool, true, false, ℕ, List, [], if◌then◌else◌}
use absolute.Sync.{Caller, Round, returns, waits, queue_up, front, behind}

pub record Mutex : Type 0 where
  pub locked : Bool
  pub waiters : List ℕ

abbrev pub initial : Mutex
initial = record { locked = false; waiters = [] }

-- A round of `absolute_mutex_lock`.
unfoldable pub lock : Caller → Mutex → Round Mutex (Unit {0})
lock caller m =
    if m.locked
    then waits (record m { waiters = queue_up caller m.waiters })
    else returns tt (record m { locked = true }) []

-- `absolute_mutex_unlock`, with the task that it resumes.
unfoldable pub unlock : Mutex → Mutex × List ℕ
unlock m = (record { locked = false; waiters = behind m.waiters }, front m.waiters)

unfoldable pub try_lock : Mutex → Bool × Mutex
try_lock m = if m.locked then (false, m) else (true, record m { locked = true })
