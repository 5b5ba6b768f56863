-- ===== src/Sync/Condition.antt =====
-- `ConditionVariableImpl` of Absolute-Runtime/src/tasks.cpp, with the mutex that a caller of `wait`
-- gives back meanwhile.
pub mod Histories
use absolute.Prelude.{
  ℕ, zero, suc, ◌+◌, ◌-◌, ◌%◌, ◌^◌, Bool, true, false, not, List, [], ◌∷◌, ◌++◌, Option, none, some,
  ltb, ◌==◌, if◌then◌else◌,
}
use absolute.Sync.{Caller}
use absolute.Sync.Mutex.{Mutex, unlock}

pub record Condition : Type 0 where
  pub task_waiters : List ℕ
  pub generation : ℕ
  pub native_waiters : ℕ

abbrev pub initial : Condition
initial = record { task_waiters = []; generation = 0; native_waiters = 0 }

-- A caller is on the list, or counted.
unfoldable pub enlist : Caller → Condition → Condition
enlist none c = record c { native_waiters = c.native_waiters + 1 }
enlist (some task) c = record c { task_waiters = c.task_waiters ++ task ∷ [] }

-- `absolute_condition_wait` up to the point where the caller waits: it is on the list before the
-- mutex is unlocked, all under the lock of the condition. The task that `unlock` resumes is the last
-- part; the caller goes on with `absolute_mutex_lock`.
unfoldable pub begin_wait : Caller → Condition → Mutex → Condition × Mutex × List ℕ
unfolding enlist unlock
begin_wait caller c m = let (m', tasks) = unlock m in (enlist caller c, m', tasks)

-- A thread outside the scheduler wakes up: the test of its wait, with the generation that it
-- observed, and what it does then.
unfoldable pub end_wait : ℕ → Condition → Option Condition
end_wait observed c =
    if c.generation == observed
    then none
    else some (record c { native_waiters = c.native_waiters - 1 })

-- The next generation, in 64 bits.
abbrev pub next_generation : ℕ → ℕ
next_generation g = (g + 1) % 2 ^ 64

-- `absolute_condition_notify_one` and `absolute_condition_notify_all`, with the tasks that they
-- resume.
unfoldable pub notify_one_at : List ℕ → Condition → Condition × List ℕ
notify_one_at (t ∷ ts) c = (record c { task_waiters = ts }, t ∷ [])
notify_one_at [] c =
    if ltb 0 c.native_waiters
    then (record c { generation = next_generation c.generation }, [])
    else (c, [])

unfoldable pub notify_one : Condition → Condition × List ℕ
unfolding notify_one_at
notify_one c = notify_one_at c.task_waiters c

unfoldable pub notify_all : Condition → Condition × List ℕ
notify_all c = (
  record {
    task_waiters = [];
    generation = if ltb 0 c.native_waiters then next_generation c.generation else c.generation;
    native_waiters = c.native_waiters;
  },
  c.task_waiters,
)
