-- ===== src/Sync/Examples.antt =====
-- Histories of the objects of Sync, and the theorems applied to them.
use absolute.Prelude.{ℕ, ◌≡◌, refl, true, false, arith, List, [], ◌∷◌, none, some}
use absolute.Prelude.Int.{pos, clamp}
use absolute.Sync.{Reach, here, next, returns}
use absolute.Sync.Mutex
use absolute.Sync.Mutex.Histories as MutexHistories
use absolute.Sync.Semaphore
use absolute.Sync.Semaphore.Histories as SemaphoreHistories
use absolute.Sync.RwLock
use absolute.Sync.RwLock.Histories as RwLockHistories
use absolute.Sync.RwLock.Safety as RwLockSafety
use absolute.Sync.Channel
use absolute.Sync.Channel.Histories as ChannelHistories
use absolute.Sync.Channel.Safety as ChannelSafety
use absolute.Sync.Channel.Closing.{receive_times, close-receive_times}
use absolute.Sync.Once
use absolute.Sync.Once.Histories as OnceHistories
use absolute.Sync.Condition
use absolute.Sync.Condition.Histories as ConditionHistories

-- Task 1 locks, task 2 waits, and 1 unlocks, which resumes 2.
abbrev mutex_end : MutexHistories.System
mutex_end = record {
  mutex = record { locked = false; waiters = [] };
  woken = 1;
  holders = 0;
  queued = 2 ∷ [];
  resumed = 2 ∷ [];
}

mutex_history : Reach MutexHistories.Step MutexHistories.start mutex_end
unfolding Mutex.lock Mutex.unlock
mutex_history =
    next
      (next (next here (MutexHistories.locks (some 1) 0 0 _ (omega arith) refl refl refl))
        (MutexHistories.sleeps (some 2) 0 0 _ (omega arith) refl refl refl))
      (MutexHistories.unlocks 0 refl refl)

Reach-Mutex_example : MutexHistories.Inv mutex_end
Reach-Mutex_example = MutexHistories.Reach-Mutex mutex_end mutex_history

abbrev semaphore_start : Semaphore.Semaphore
semaphore_start = record { permits = 1; maximum = 2; waiters = [] }

abbrev semaphore_end : SemaphoreHistories.System
semaphore_end = record {
  semaphore = record { permits = 1; maximum = 2; waiters = [] };
  woken = 1;
  taken = 1;
  given = 1;
  queued = 2 ∷ [];
  resumed = 2 ∷ [];
}

semaphore_created : Semaphore.create (pos 1) (pos 2) ≡ some semaphore_start
unfolding Semaphore.create
semaphore_created = refl

-- Task 1 takes the permit, task 2 waits, and a release resumes it.
semaphore_history :
    Reach SemaphoreHistories.Step (SemaphoreHistories.start semaphore_start) semaphore_end
unfolding Semaphore.acquire Semaphore.release
semaphore_history =
    next
      (next (next here (SemaphoreHistories.acquires (some 1) 0 0 _ (omega arith) refl refl refl))
        (SemaphoreHistories.sleeps (some 2) 0 0 _ (omega arith) refl refl refl))
      (SemaphoreHistories.releases 1 _ _ refl refl)

Reach-Semaphore_example : SemaphoreHistories.Inv 1 2 semaphore_end
Reach-Semaphore_example =
    SemaphoreHistories.Reach-Semaphore 1 2 semaphore_start semaphore_end semaphore_created
      semaphore_history

-- Task 1 reads, task 2 waits to write, and the reader ends, which resumes it.
abbrev rwlock_end : RwLockHistories.System
rwlock_end = record {
  lock = record {
    reader_waiters = [];
    writer_waiters = [];
    readers = 0;
    waiting_writers = 1;
    writer = false;
  };
  woken_readers = 0;
  woken_writers = 1;
  native_writers = 0;
  reading = 0;
  writing = 0;
}

rwlock_history : Reach RwLockHistories.Step RwLockHistories.start rwlock_end
unfolding RwLock.lock_read RwLock.unlock_read RwLock.lock_write
rwlock_history =
    next
      (next (next here (RwLockHistories.reads (some 1) 0 0 _ (omega arith) refl refl refl))
        (RwLockHistories.writer_sleeps false (some 2) 0 0 0 0 _ refl refl refl refl refl))
      (RwLockHistories.stops_reading 0 refl refl)

Reach-RwLock_example : RwLockHistories.Inv rwlock_end
Reach-RwLock_example = RwLockSafety.Reach-RwLock rwlock_end rwlock_history

-- A receiver waits at a channel of capacity 1; two values are sent, the second behind the first
-- receive; the channel is closed.
abbrev channel_end : ChannelHistories.System ℕ
channel_end = record {
  channel = record {
    queue = 6 ∷ [];
    send_waiters = [];
    receive_waiters = [];
    capacity = 1;
    closed = true;
  };
  woken_senders = 0;
  woken_receivers = 0;
  sent = 5 ∷ 6 ∷ [];
  received = 5 ∷ [];
}

channel_history :
    Reach (ChannelHistories.Step ℕ) (ChannelHistories.start ℕ (Channel.create (pos 1))) channel_end
unfolding Channel.create Channel.send Channel.receive_at Channel.receive Channel.close
channel_history =
    next
      (next
        (next
          (next
            (next here
              (ChannelHistories.receiver_sleeps (some 3) 0 0 _ refl (omega arith) refl refl))
            (ChannelHistories.sends (some 4) 0 0 5 _ _ refl (omega arith) refl refl))
          (ChannelHistories.receives (some 3) 1 0 5 _ _ refl (omega arith) refl refl))
        (ChannelHistories.sends (some 4) 0 0 6 _ _ refl (omega arith) refl refl))
      (ChannelHistories.closes [] [] _ refl refl)

Reach-Channel_example : ChannelSafety.Inv ℕ (clamp (pos 1)) channel_end
Reach-Channel_example = ChannelSafety.Reach-Channel ℕ (pos 1) channel_end channel_history

-- Task 1 runs the body while task 2 waits.
abbrev once_end : OnceHistories.System
once_end = record {
  once = record { state = 2; waiters = [] };
  running = 0;
  completions = 1;
  told = 0;
}

once_history : Reach OnceHistories.Step OnceHistories.start once_end
unfolding Once.begin Once.complete
once_history =
    next
      (next (next here (OnceHistories.runs (some 1) _ refl refl))
        (OnceHistories.sleeps (some 2) _ refl refl))
      (OnceHistories.completes 0 refl refl)

abbrev condition_events : List ConditionHistories.Event
condition_events =
    ConditionHistories.task_waits 1
    ∷ ConditionHistories.task_waits 2
    ∷ ConditionHistories.notifies_one
    ∷ ConditionHistories.task_waits 3
    ∷ ConditionHistories.notifies_all
    ∷ []

abbrev two_outside : Condition.Condition
two_outside = record (Condition.initial) { native_waiters = 2; generation = 7 }

notify_all-native_example :
    (Condition.end_wait 7 two_outside ≡ none)
    × ¬ (Condition.end_wait 7 (Condition.notify_all two_outside).0 ≡ none)
notify_all-native_example = ConditionHistories.notify_all-native two_outside (omega arith)

abbrev two_left : Channel.Channel ℕ
two_left = record {
  queue = 5 ∷ 6 ∷ [];
  send_waiters = 9 ∷ [];
  receive_waiters = [];
  capacity = 2;
  closed = false;
}

close-receive_times_example :
    let c' = (Channel.close two_left).1 in
    (Channel.send (some 4) 7 c' ≡ returns false c' [])
    × (Channel.try_send 7 c' ≡ ((false, []), c'))
    × (receive_times 3 (some 4) c' ≡ some 5 ∷ some 6 ∷ none ∷ [])
close-receive_times_example = close-receive_times ℕ two_left (some 4) 7 1
