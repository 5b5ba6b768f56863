-- ===== src/Scheduler/Suspension/Histories.antt =====
-- Histories of one task: it runs, is suspended, is woken by anybody at any time, and ends.
use absolute.Prelude.{
  ℕ, suc, ◌+◌, ◌≡◌, ◌≢◌, ◌⊎◌, inl, inr, refl, sym, Bool, true, false, ◌||◌, List, [], ◌∷◌, ◌++◌,
  some, arith, Bool-cases,
}
use absolute.Scheduler.Suspension.{
  TaskState, pending, runnable, running, suspending, suspended, done, Task, Outcome, goes, aborts,
  begin_execute, prepare_suspend, wake_at, wake, finish, suspend_at, end_execute, wait_for,
}

-- Where the control is: with the code of the task, at its switch back to the worker, or elsewhere.
pub data Place : Type 0 where
  in_code yielding outside : Place

-- A task, its entries in the queues, whether it has prepared to be suspended and not run since, and
-- whether it was woken meanwhile; the tasks that waited for it and those that were resumed, in order.
pub record System : Type 0 where
  pub task : Task
  pub place : Place
  pub queued : ℕ
  pub asleep : Bool
  pub owed : Bool
  pub arrived : List ℕ
  pub resumed : List ℕ

abbrev pub entries : Bool → ℕ
entries true = 1
entries false = 0

abbrev pub start : Task → Bool → System
start t enqueued = record {
  task = t;
  place = outside;
  queued = entries enqueued;
  asleep = false;
  owed = false;
  arrived = [];
  resumed = [];
}

pub data Step (s u : System) : Type 0 where
  executes :
      (n : ℕ) (t : Task) (q : Bool)
      → s.queued ≡ suc n
      → begin_execute s.task ≡ goes t q
      → u ≡ record s {
        task = t;
        queued = n + entries q;
        place = in_code;
        asleep = false;
        owed = false;
      }
      → Step s u
  prepares :
      (t : Task) (q : Bool)
      → s.place ≡ in_code
      → prepare_suspend s.task ≡ goes t q
      → u ≡ record s {
        task = t;
        queued = s.queued + entries q;
        place = yielding;
        asleep = true;
        owed = false;
      }
      → Step s u
  finishes :
      (t : Task) (q : Bool)
      → s.place ≡ in_code
      → finish s.task ≡ goes t q
      → u ≡ record s { task = t; queued = s.queued + entries q; place = yielding }
      → Step s u
  ends :
      (t : Task) (q : Bool) (tasks : List ℕ)
      → s.place ≡ yielding
      → end_execute s.task ≡ (goes t q, tasks)
      → u ≡ record s {
        task = t;
        queued = s.queued + entries q;
        place = outside;
        resumed = s.resumed ++ tasks;
      }
      → Step s u
  wakes :
      (t : Task) (q : Bool)
      → wake s.task ≡ goes t q
      → u ≡ record s { task = t; queued = s.queued + entries q; owed = s.owed || s.asleep }
      → Step s u
  is_awaited :
      (caller : ℕ) (t : Task)
      → wait_for caller s.task ≡ some t
      → u ≡ record s { task = t; arrived = s.arrived ++ caller ∷ [] }
      → Step s u

-- What holds in each state.
abbrev pub Fits : TaskState → System → Type 0
Fits pending s = ⊥
Fits runnable s =
    (s.place ≡ outside)
    × (s.queued ≡ 1)
    × (s.owed ≡ s.asleep)
    × (s.task.wake_pending ≡ false)
    × (s.task.suspension_active ≡ false)
    × (s.task.finished ≡ false)
    × (s.task.is_done ≡ false)
Fits running s =
    (((s.place ≡ in_code) × (s.task.finished ≡ false))
      ⊎ ((s.place ≡ yielding) × (s.task.finished ≡ true)))
    × (s.queued ≡ 0)
    × (s.asleep ≡ false)
    × (s.owed ≡ false)
    × (s.task.wake_pending ≡ false)
    × (s.task.suspension_active ≡ false)
    × (s.task.is_done ≡ false)
Fits suspending s =
    (s.place ≡ yielding)
    × (s.queued ≡ 0)
    × (s.asleep ≡ true)
    × (s.owed ≡ s.task.wake_pending)
    × (s.task.suspension_active ≡ false)
    × (s.task.finished ≡ false)
    × (s.task.is_done ≡ false)
Fits suspended s =
    (s.place ≡ outside)
    × (s.queued ≡ 0)
    × (s.asleep ≡ true)
    × (s.owed ≡ false)
    × (s.task.wake_pending ≡ false)
    × (s.task.suspension_active ≡ true)
    × (s.task.finished ≡ false)
    × (s.task.is_done ≡ false)
Fits done s =
    (s.place ≡ outside)
    × (s.queued ≡ 0)
    × (s.asleep ≡ false)
    × (s.owed ≡ false)
    × (s.task.is_done ≡ true)
    × (s.task.completion_waiters ≡ [])

-- The tasks that waited were resumed, in order, or still wait; none is resumed before the task is
-- done, and none waits for a task that is done.
abbrev pub Inv : System → Type 0
Inv s =
    Fits s.task.state s
    × (s.arrived ≡ s.resumed ++ s.task.completion_waiters)
    × (s.task.is_done ≡ false → s.resumed ≡ [])

-- No function that is called in the state calls `std::abort`.
abbrev pub Safe : System → Type 0
Safe s =
    (s.place ≡ in_code → prepare_suspend s.task ≢ aborts)
    × (wake s.task ≢ aborts)
    × (s.place ≡ yielding → (end_execute s.task).0 ≢ aborts)

pub goes-injective :
    {t t' : Task} {q q' : Bool} → ◌≡◌ {A = Outcome} (goes t q) (goes t' q') → (t ≡ t') × (q ≡ q')
goes-injective e = (cc, cc)

-- The place and the ghosts of a system, behind a call.
abbrev pub moved : System → Task → Bool → System
moved s t q = record s { task = t; queued = s.queued + entries q }

wake_at-suspended :
    (t t' : Task) (q : Bool)
    → t.suspension_active ≡ true
    → wake_at suspended t ≡ goes t' q
    → (t' ≡ record t { suspension_active = false; state = runnable }) × (q ≡ true)
unfolding wake_at
wake_at-suspended t t' q h e = ground (arith, h, e)

suspend_at-suspending :
    (t t' : Task) (q : Bool)
    → suspend_at suspending t ≡ goes t' q
    → ((t.wake_pending ≡ true)
        × (t' ≡ record t { wake_pending = false; state = runnable })
        × (q ≡ true))
      ⊎ ((t.wake_pending ≡ false)
          × (t' ≡ record t { state = suspended; suspension_active = true })
          × (q ≡ false))
unfolding suspend_at
suspend_at-suspending t t' q e = elim (Bool-cases t.wake_pending) [
  | inl woken ↦ inl (ground (arith, woken, e))
  | inr quiet ↦ inr (ground (arith, quiet, e))
]

pub wake-Fits :
    (x : TaskState) (s : System) (t : Task) (q : Bool)
    → s.task.state ≡ x
    → wake_at x s.task ≡ goes t q
    → Fits x s
    → Fits t.state (record (moved s t q) { owed = s.owed || s.asleep })
      × (t.completion_waiters ≡ s.task.completion_waiters)
      × (t.is_done ≡ s.task.is_done)
unfolding wake_at
wake-Fits pending s t q e f h = absurd h
wake-Fits runnable s t q e f h =
    let (g, i) = goes-injective f in rw (sym g, sym i, e) (ground (arith, h, e), refl, refl)
wake-Fits running s t q e f h =
    let (g, i) = goes-injective f in rw (sym g, sym i, e) (ground (arith, h, e), refl, refl)
wake-Fits suspending s t q e f h =
    let (g, i) = goes-injective f in rw (sym g, sym i, e) (ground (arith, h, e), refl, refl)
wake-Fits suspended s t q e f h =
    let (g, i) = wake_at-suspended s.task t q h.5 f in rw (g, i) (ground (arith, h), refl, refl)
wake-Fits done s t q e f h =
    let (g, i) = goes-injective f in rw (sym g, sym i, e) (ground (arith, h, e), refl, refl)

pub end-Fits :
    (x : TaskState) (s : System) (t : Task) (q : Bool)
    → s.task.state ≡ x
    → s.place ≡ yielding
    → s.task.finished ≡ false
    → suspend_at x s.task ≡ goes t q
    → Fits x s
    → Fits t.state (record (moved s t q) { place = outside })
      × (t.completion_waiters ≡ s.task.completion_waiters)
      × (t.is_done ≡ s.task.is_done)
unfolding suspend_at
end-Fits suspending s t q e p n f h = elim (suspend_at-suspending s.task t q f) [
  | inl (woken, g, i) ↦ rw (g, i) (ground (arith, h, woken), refl, refl)
  | inr (quiet, g, i) ↦ rw (g, i) (ground (arith, h, quiet), refl, refl)
]
end-Fits pending s t q e p n f h = absurd h
end-Fits runnable s t q e p n f h = ground (arith, f)
end-Fits running s t q e p n f h = ground (arith, f)
end-Fits suspended s t q e p n f h = ground (arith, f)
end-Fits done s t q e p n f h = ground (arith, f)
