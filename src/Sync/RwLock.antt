-- ===== src/Sync/RwLock.antt =====
-- `RwLockImpl` of Absolute-Runtime/src/tasks.cpp. The counters stay below 2 ^ 31.
pub mod Histories
pub mod Safety
use absolute.Prelude.{
  ℕ, zero, suc, ◌^◌, ◌+◌, ◌-◌, Bool, true, false, ◌||◌, ◌&&◌, not, List, [], ◌∷◌, ltb, ◌==◌,
  if◌then◌else◌,
}
use absolute.Sync.{Caller, Round, returns, waits, queue_up, front, behind}

pub record RwLock : Type 0 where
  pub reader_waiters : List ℕ
  pub writer_waiters : List ℕ
  pub readers : ℕ
  pub waiting_writers : ℕ
  pub writer : Bool

abbrev pub initial : RwLock
initial = record {
  reader_waiters = [];
  writer_waiters = [];
  readers = 0;
  waiting_writers = 0;
  writer = false;
}

-- A round of `absolute_rwlock_lock_read`.
unfoldable pub lock_read : Caller → RwLock → Round RwLock (Unit {0})
lock_read caller l =
    if not l.writer && l.waiting_writers == 0
    then returns tt (record l { readers = l.readers + 1 }) []
    else waits (record l { reader_waiters = queue_up caller l.reader_waiters })

unfoldable pub try_lock_read : RwLock → Bool × RwLock
try_lock_read l =
    if l.writer || ltb 0 l.waiting_writers
    then (false, l)
    else (true, record l { readers = l.readers + 1 })

-- `--` on an `int32_t`, as a bit pattern: below 0 is -1.
abbrev pub one_less : ℕ → ℕ
one_less zero = 2 ^ 32 - 1
one_less (suc n) = n

-- `absolute_rwlock_unlock_read`, with the writer that it resumes.
unfoldable pub unlock_read : RwLock → RwLock × List ℕ
unlock_read l =
    if l.readers == 0
    then (l, [])
    else if l.readers == 1
    then (
      record l { readers = 0; writer_waiters = behind l.writer_waiters },
      front l.writer_waiters,
    )
    else (record l { readers = one_less l.readers }, [])

-- `++waitingWriters` in the first round, where the writer is not registered.
abbrev pub registered_writers : Bool → RwLock → ℕ
registered_writers registered l = if registered then l.waiting_writers else l.waiting_writers + 1

-- A round of `absolute_rwlock_lock_write`, with its variable `registered` as it starts.
unfoldable pub lock_write : Bool → Caller → RwLock → Round RwLock (Unit {0})
lock_write registered caller l =
    let count = registered_writers registered l in
    if not l.writer && l.readers == 0
    then returns tt (record l { waiting_writers = count - 1; writer = true }) []
    else waits
        (record l { waiting_writers = count; writer_waiters = queue_up caller l.writer_waiters })

unfoldable pub try_lock_write : RwLock → Bool × RwLock
try_lock_write l =
    if l.writer || not (l.readers == 0) then (false, l) else (true, record l { writer = true })

-- `absolute_rwlock_unlock_write`, with the writer or else the readers that it resumes.
unfoldable pub unlock_write : RwLock → RwLock × (List ℕ × List ℕ)
unlock_write l = if not l.writer then (l, ([], [])) else elim (l.writer_waiters) [
  | [] ↦ (record l { writer = false; reader_waiters = [] }, ([], l.reader_waiters))
  | w ∷ ws ↦ (record l { writer = false; writer_waiters = ws }, (w ∷ [], []))
]
