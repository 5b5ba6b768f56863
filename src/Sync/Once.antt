-- ===== src/Sync/Once.antt =====
-- `OnceImpl` of Absolute-Runtime/src/tasks.cpp.
pub mod Histories
use absolute.Prelude.{ℕ, Bool, true, false, List, [], ◌==◌, if◌then◌else◌}
use absolute.Sync.{Caller, Round, returns, waits, queue_up}

-- The state is 0 for idle, 1 for running and 2 for complete.
pub record Once : Type 0 where
  pub waiters : List ℕ
  pub state : ℕ

abbrev pub initial : Once
initial = record { waiters = []; state = 0 }

-- A round of `absolute_once_begin`.
unfoldable pub begin : Caller → Once → Round Once Bool
begin caller o =
    if o.state == 2
    then returns false o []
    else if o.state == 0
    then returns true (record o { state = 1 }) []
    else waits (record o { waiters = queue_up caller o.waiters })

-- `absolute_once_complete` and `absolute_once_reset`, with the tasks that they resume.
unfoldable pub complete : Once → Once × List ℕ
complete o = if o.state == 1 then (record { waiters = []; state = 2 }, o.waiters) else (o, [])

unfoldable pub reset : Once → Once × List ℕ
reset o = if o.state == 1 then (record { waiters = []; state = 0 }, o.waiters) else (o, [])

unfoldable pub is_complete : Once → Bool
is_complete o = o.state == 2
