-- ===== src/Scheduler/Examples.antt =====
-- The theorems on deadlines, tasks, priorities, lanes, queues and groups, at concrete values.
use absolute.Prelude.{
  ℕ, ◌≤◌, ◌<◌, ◌≡◌, ◌⊎◌, ◌++◌, refl, true, false, arith, List, [], ◌∷◌, Bool, none, some, length,
}
use absolute.Prelude.Int.{pos, negsuc}
use absolute.Sync.{Reach, here, next}
use absolute.Scheduler.Control.{
  Control, no_control, control_cancelled, set_deadline_after, remaining_milliseconds,
}
use absolute.Scheduler.Control.Deadlines.{set_deadline_after-cancels}
use absolute.Scheduler.Suspension
use absolute.Scheduler.Suspension.Histories as TaskHistories
use absolute.Scheduler.Priority.{priority_weights, choose}
use absolute.Scheduler.Priority.Share.{rounds, zeros, Shares, rounds-Shares}
use absolute.Scheduler.Lanes
use absolute.Scheduler.Lanes.Service.{Serves}
use absolute.Scheduler.Lanes.Histories as LaneHistories
use absolute.Scheduler.Pool
use absolute.Scheduler.Pool.Sizes.{PoolFits}
use absolute.Scheduler.Pool.Finding.{Finds}
use absolute.Scheduler.Pool.Histories as PoolHistories
use absolute.Scheduler.Group
use absolute.Scheduler.Group.Histories as GroupHistories

abbrev parent : Control
parent = record { cancel_requested = false; deadline = 9000000 }

set_deadline_after-cancels_example :
    let (accepted, c') = set_deadline_after 1000000 (pos 2) no_control in
    (accepted ≡ true)
    × ((no_control.deadline ≡ 0) ⊎ (c'.deadline ≤ no_control.deadline))
    × (control_cancelled 3000000 (no_control ∷ c' ∷ parent ∷ []) ≡ true)
set_deadline_after-cancels_example =
    set_deadline_after-cancels 1000000 3000000 2 no_control (no_control ∷ []) (parent ∷ [])
      (omega arith) (omega arith) (omega arith)

-- 1.5 milliseconds remain, rounded up.
remaining_test : remaining_milliseconds 7500000 (no_control ∷ parent ∷ []) ≡ pos 2
unfolding remaining_milliseconds
remaining_test = refl

abbrev submitted : Suspension.Task
submitted = record (Suspension.fresh) { state = Suspension.runnable }

-- The task prepares to be suspended, is woken before its switch back, and is runnable again.
abbrev task_end : TaskHistories.System
task_end = record {
  task = submitted;
  place = TaskHistories.outside;
  queued = 1;
  asleep = true;
  owed = true;
  arrived = [];
  resumed = [];
}

-- The lowest and the highest priority have tasks.
abbrev two_active : List Bool
two_active = true ∷ false ∷ false ∷ false ∷ false ∷ false ∷ true ∷ []

rounds_test :
    (rounds 13 priority_weights two_active (zeros priority_weights)).1
    ≡ 1 ∷ 0 ∷ 0 ∷ 0 ∷ 0 ∷ 0 ∷ 12 ∷ []
unfolding rounds choose
rounds_test = refl

rounds-Shares_example :
    let (cs, ts) = rounds 13 priority_weights two_active (zeros priority_weights) in
    Shares 13 13 91 priority_weights two_active cs ts
rounds-Shares_example = rounds-Shares 13 two_active refl

abbrev work_of : ℕ → ℕ → Lanes.Work
work_of task role = record {
  task = task;
  entry = 1;
  core = negsuc 0;
  priority = pos 0;
  role = role;
}

-- Two tasks of role 5 and one of role 6 are queued.
abbrev lanes_end : LaneHistories.System
lanes_end =
    let (b, n) =
      Lanes.enqueue (work_of 3 6)
        (Lanes.enqueue (work_of 2 5) (Lanes.enqueue (work_of 1 5) (Lanes.no_work, 0))) in
    record {
      bucket = b;
      queued = n;
      entered = work_of 1 5 ∷ work_of 2 5 ∷ work_of 3 6 ∷ [];
      taken = [];
    }

lanes_history : Reach LaneHistories.Step LaneHistories.start lanes_end
lanes_history =
    next
      (next (next here (LaneHistories.enqueues (work_of 1 5) refl))
        (LaneHistories.enqueues (work_of 2 5) refl))
      (LaneHistories.enqueues (work_of 3 6) refl)

Reach-Lanes_example :
    LaneHistories.Inv lanes_end
    × Serves lanes_end.bucket lanes_end.queued (Lanes.take lanes_end.bucket lanes_end.queued)
Reach-Lanes_example = LaneHistories.Reach-Lanes lanes_end lanes_history

-- A child is added to a group, which is closed; a second one is refused.
abbrev group_end : GroupHistories.System
group_end = record {
  group = record { children = []; closed = true };
  handed = 1 ∷ 2 ∷ [];
  cancelled = 1 ∷ 2 ∷ [];
  destroyed = 1 ∷ 2 ∷ [];
}

group_history : Reach GroupHistories.Step GroupHistories.start group_end
unfolding Group.add Group.cancel Group.join Group.cancel_and_join
group_history =
    next (next (next here (GroupHistories.adds 1 _ _ _ refl refl)) (GroupHistories.closes refl))
      (GroupHistories.adds 2 _ _ _ refl refl)

Reach-Group_example :
    GroupHistories.Inv group_end
    × (let (e, g) = Group.cancel_and_join group_end.group in
        (g.children ≡ [])
        × (e.cancelled ≡ group_end.group.children)
        × ((task : ℕ)
            → GroupHistories.occurs task group_end.handed
              ≡ GroupHistories.occurs task (group_end.destroyed ++ e.destroyed)))
Reach-Group_example = GroupHistories.Reach-Group group_end group_history

-- The first of two workers submits a task, which the second one takes.
abbrev pool_end : Pool.Pool
pool_end = Pool.enqueue_locked none (some 0) (work_of 1 5) (Pool.create 2)

pool_history : Reach PoolHistories.Step (Pool.create 2) pool_end
pool_history = next here (
    PoolHistories.enqueues none (some 0) (work_of 1 5) tt (omega arith) (omega arith, omega arith)
      refl)

pool_end_length : 1 < length pool_end.queues
unfolding Pool.enqueue_locked
pool_end_length = omega arith

Reach-Pool_example : PoolFits pool_end × Finds 1 pool_end (Pool.take_locked 1 pool_end)
Reach-Pool_example =
    PoolHistories.Reach-Pool 2 pool_end 1 (omega arith) pool_history pool_end_length

-- The task is there, and with a pinned one in its place there is none.
taken_task : Pool.Taking → ℕ
taken_task (Pool.takes work p) = work.task
taken_task (Pool.nothing p) = 0
taken_task Pool.aborts = 0

stolen_test : taken_task (Pool.take_locked 1 pool_end) ≡ 1
unfolding taken_task Pool.take_locked Pool.enqueue_locked
stolen_test = refl

pinned_test :
    taken_task
      (Pool.take_locked 1 (Pool.enqueue_locked (some 0) none (work_of 1 5) (Pool.create 2)))
    ≡ 0
unfolding taken_task Pool.take_locked Pool.enqueue_locked
pinned_test = refl
