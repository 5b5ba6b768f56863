-- ===== src/Scheduler/Suspension.antt =====
-- The states of a task in Absolute-Runtime/src/tasks.cpp: how it is suspended and woken. Each
-- function is what the code does under the lock of the task.
pub mod Histories
pub mod Safety
use absolute.Prelude.{ℕ, Bool, true, false, List, [], ◌∷◌, ◌++◌, Option, none, some, if◌then◌else◌}

pub data TaskState : Type 0 where
  pending runnable running suspending suspended done : TaskState

-- A task, as far as its state is concerned; whether its entry has returned is `finished`.
pub record Task : Type 0 where
  pub state : TaskState
  pub suspension_active : Bool
  pub wake_pending : Bool
  pub finished : Bool
  pub is_done : Bool
  pub completion_waiters : List ℕ

-- A new task.
abbrev pub fresh : Task
fresh = record {
  state = pending;
  suspension_active = false;
  wake_pending = false;
  finished = false;
  is_done = false;
  completion_waiters = [];
}

-- What a function does: it goes on with the task, and whether the task was put in a queue, or it
-- calls `std::abort`.
pub data Outcome : Type 0 where
  goes : Task → (enqueued : Bool) → Outcome
  aborts : Outcome

-- `Scheduler::Submit`
unfoldable pub submit : Task → Outcome
submit t = goes (record t { state = runnable }) true

-- `Scheduler::Execute`, up to the switch to the task.
unfoldable pub begin_execute : Task → Outcome
begin_execute t = goes (record t { state = running }) false

-- `Scheduler::PrepareSuspend`, called by the task.
unfoldable pub prepare_suspend_at : TaskState → Task → Outcome
prepare_suspend_at running t = goes (record t { state = suspending }) false
prepare_suspend_at _ t = aborts

unfoldable pub prepare_suspend : Task → Outcome
unfolding prepare_suspend_at
prepare_suspend t = prepare_suspend_at t.state t

-- `Scheduler::WakeLocked`
unfoldable pub wake_at : TaskState → Task → Outcome
wake_at suspending t = goes (record t { wake_pending = true }) false
wake_at suspended t =
    if t.suspension_active
    then goes (record t { suspension_active = false; state = runnable }) true
    else aborts
wake_at _ t = goes t false

unfoldable pub wake : Task → Outcome
unfolding wake_at
wake t = wake_at t.state t

-- `TaskMain`, when the entry has returned.
unfoldable pub finish : Task → Outcome
finish t = goes (record t { finished = true }) false

-- `Scheduler::Execute`, behind the switch back from a task that was suspended.
unfoldable pub suspend_at : TaskState → Task → Outcome
suspend_at suspending t =
    if t.wake_pending
    then goes (record t { wake_pending = false; state = runnable }) true
    else goes (record t { state = suspended; suspension_active = true }) false
suspend_at _ t = aborts

-- The same of either kind. The entry in the queue follows behind the lock; a wake-up between finds a
-- task that is runnable and does nothing; the tasks that wait for the end of a finished one are
-- the second part.
unfoldable pub end_execute : Task → Outcome × List ℕ
unfolding suspend_at
end_execute t =
    if t.finished
    then (
      goes (record t { state = done; is_done = true; completion_waiters = [] }) false,
      t.completion_waiters,
    )
    else (suspend_at t.state t, [])

-- A round of `Wait`, by a task: it is on the list, or the awaited task is done.
unfoldable pub wait_for : ℕ → Task → Option Task
wait_for caller t =
    if t.is_done
    then none
    else some (record t { completion_waiters = t.completion_waiters ++ caller ∷ [] })
