-- ===== src/Scheduler/Pool.antt =====
-- The queues of all workers in Absolute-Runtime/src/tasks.cpp, under the lock of the scheduler: how
-- work is put into them, and how a worker takes some, from its own or from another's.
pub mod Rings
pub mod Sizes
pub mod Removal
pub mod Stealing
pub mod Finding
pub mod Histories
use absolute.Prelude.{
  ℕ, zero, suc, ◌+◌, ◌%◌, ◌^◌, Bool, true, false, List, [], ◌∷◌, Option, none, some, ltb, ◌==◌,
  if◌then◌else◌, length,
}
use absolute.Prelude.Int.{ℤ, pos, ◌+ℤ◌, clamp}
use absolute.Scheduler.Lanes.{Work, Bucket, no_work, enqueue}
use absolute.Scheduler.Queue.{WorkerQueue, Took, bucket_at, set_at, take_local, take_stealable}

pub record Pool : Type 0 where
  pub queues : List WorkerQueue
  pub steal_cursors : List ℕ
  pub queued : ℕ
  pub next_submission_queue : ℕ

-- What is at an index; the indices are always in range.
abbrev pub no_queue : WorkerQueue
no_queue = record {
  ready = [];
  pinned = [];
  local_credits = [];
  steal_credits = [];
  take_pinned_next = [];
}

abbrev pub queue_at : ℕ → List WorkerQueue → WorkerQueue
queue_at k [] = no_queue
queue_at zero (q ∷ qs) = q
queue_at (suc k) (q ∷ qs) = queue_at k qs

abbrev pub cursor_at : ℕ → List ℕ → ℕ
cursor_at k [] = 0
cursor_at zero (c ∷ cs) = c
cursor_at (suc k) (c ∷ cs) = cursor_at k cs

pub data Taking : Type 0 where
  nothing : Pool → Taking
  takes : Work → Pool → Taking
  aborts : Taking

abbrev pub with_queue : ℕ → WorkerQueue → Pool → Pool
with_queue k q p = record p { queues = set_at k q p.queues }

abbrev pub with_cursor : ℕ → ℕ → Pool → Pool
with_cursor k cursor p = record p { steal_cursors = set_at k cursor p.steal_cursors }

abbrev pub next_victim : Pool → ℕ → ℕ
next_victim p victim = (victim + 1) % length p.queues

-- The loop over the victims, with the rounds that are left.
unfoldable pub steal : ℕ → (worker victim : ℕ) → Pool → Taking
unfolding take_stealable
steal zero worker victim p = nothing (with_cursor worker victim p)
steal (suc rounds) worker victim p = elim (victim == worker) [
  | true ↦ steal rounds worker (next_victim p victim) p
  | false ↦ elim (take_stealable (queue_at victim p.queues) p.queued) [
    | Took.nothing q ↦ steal rounds worker (next_victim p victim) (with_queue victim q p)
    | Took.takes work q queued ↦ takes work (
        with_cursor worker (next_victim p victim)
          (record (with_queue victim q p) { queued = queued }))
    | Took.aborts ↦ aborts
  ]
]

-- Behind the look in the worker's own queues.
unfoldable pub take_from_others : (worker : ℕ) → Pool → Taking
unfolding steal
take_from_others worker p =
    if ltb (length p.queues) 2
    then nothing p
    else steal (length p.queues) worker (cursor_at worker p.steal_cursors % length p.queues) p

abbrev pub after_local : (worker : ℕ) → Pool → Took → Taking
after_local worker p (Took.nothing q) = take_from_others worker (with_queue worker q p)
after_local worker p (Took.takes work q queued) =
    takes work (record (with_queue worker q p) { queued = queued })
after_local worker p Took.aborts = aborts

-- `TakeLocked`
unfoldable pub take_locked : (worker : ℕ) → Pool → Taking
unfolding take_local take_from_others
take_locked worker p =
    if p.queued == 0
    then nothing p
    else after_local worker p (take_local (queue_at worker p.queues) p.queued)

-- The index of a priority from -3 to 3.
unfoldable pub bucket_index : ℤ → ℕ
unfolding ◌+ℤ◌
bucket_index priority = clamp (priority +ℤ pos 3)

-- `EnqueueLaneLocked` on the set of lanes of a worker that is pinned, and on the other one.
unfoldable pub enqueue_pinned : ℕ → Work → Pool → Pool
unfolding bucket_index enqueue
enqueue_pinned k work p =
    let q = queue_at k p.queues in
    let i = bucket_index work.priority in
    let (b, queued) = enqueue work (bucket_at i q.pinned, p.queued) in
    record (with_queue k (record q { pinned = set_at i b q.pinned }) p) { queued = queued }

-- `EnqueueReadyLocked`
unfoldable pub enqueue_ready : ℕ → Work → Pool → Pool
unfolding bucket_index enqueue
enqueue_ready k work p =
    let q = queue_at k p.queues in
    let i = bucket_index work.priority in
    let (b, queued) = enqueue work (bucket_at i q.ready, p.queued) in
    record (with_queue k (record q { ready = set_at i b q.ready }) p) { queued = queued }

-- The queue of a task that has no owner: that of the worker which submits it, or else the next one.
abbrev pub submission_queue : (current : Option ℕ) → Pool → ℕ
submission_queue none p = p.next_submission_queue % length p.queues
submission_queue (some worker) p = worker

-- `EnqueueLocked`, with the owner of the task and the worker that calls, where there is one.
unfoldable pub enqueue_locked : (owner current : Option ℕ) → Work → Pool → Pool
unfolding enqueue_pinned enqueue_ready
enqueue_locked (some owner) current work p = enqueue_pinned owner work p
enqueue_locked none current work p =
    enqueue_ready (submission_queue current p) work
      (record p { next_submission_queue = (p.next_submission_queue + 1) % 2 ^ 64 })

-- `Scheduler::Scheduler`, with its number of workers.
abbrev pub fresh_queue : WorkerQueue
fresh_queue = record {
  ready = no_work ∷ no_work ∷ no_work ∷ no_work ∷ no_work ∷ no_work ∷ no_work ∷ [];
  pinned = no_work ∷ no_work ∷ no_work ∷ no_work ∷ no_work ∷ no_work ∷ no_work ∷ [];
  local_credits = pos 0 ∷ pos 0 ∷ pos 0 ∷ pos 0 ∷ pos 0 ∷ pos 0 ∷ pos 0 ∷ [];
  steal_credits = pos 0 ∷ pos 0 ∷ pos 0 ∷ pos 0 ∷ pos 0 ∷ pos 0 ∷ pos 0 ∷ [];
  take_pinned_next = false ∷ false ∷ false ∷ false ∷ false ∷ false ∷ false ∷ [];
}

abbrev pub fresh_queues : ℕ → List WorkerQueue
fresh_queues zero = []
fresh_queues (suc count) = fresh_queue ∷ fresh_queues count

abbrev pub first_cursors : (index left count : ℕ) → List ℕ
first_cursors index zero count = []
first_cursors index (suc left) count = (index + 1) % count ∷ first_cursors (suc index) left count

abbrev pub create : ℕ → Pool
create count = record {
  queues = fresh_queues count;
  steal_cursors = first_cursors 0 count count;
  queued = 0;
  next_submission_queue = 0;
}
