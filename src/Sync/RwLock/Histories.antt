-- ===== src/Sync/RwLock/Histories.antt =====
-- Histories of a read-write lock: calls of any callers in any order.
use absolute.Prelude.{
  ℕ, suc, ◌+◌, ◌-◌, ◌≤◌, ◌<◌, ◌≡◌, ◌⊎◌, inl, inr, Bool, true, false, [], arith, length, ltb, ◌==◌,
  if◌then◌else◌, Bool-cases, none, some,
}
use absolute.Sync.{Caller, returns, waits, queue_up}
use absolute.Sync.RwLock.{
  RwLock, initial, lock_read, try_lock_read, unlock_read, registered_writers, lock_write,
  try_lock_write, unlock_write,
}

-- A lock, the readers and writers that were resumed and have not run since, the threads outside the
-- scheduler that wait to write, and the callers that read and that write.
pub record System : Type 0 where
  pub lock : RwLock
  pub woken_readers : ℕ
  pub woken_writers : ℕ
  pub native_writers : ℕ
  pub reading : ℕ
  pub writing : ℕ

abbrev pub start : System
start = record {
  lock = initial;
  woken_readers = 0;
  woken_writers = 0;
  native_writers = 0;
  reading = 0;
  writing = 0;
}

-- 1 for a thread outside the scheduler.
abbrev pub native : Caller → ℕ
native none = 1
native (some task) = 0

-- A round of a writer is its first, or that of a resumed task (`woken` is 1) or of a thread that
-- waits (`outside` is 1), which are registered. A caller that unlocks
-- reads or writes, or nobody does.
pub data Step (s u : System) : Type 0 where
  reads :
      (caller : Caller) (again n : ℕ) (m : RwLock)
      → again ≤ 1
      → s.woken_readers ≡ again + n
      → lock_read caller s.lock ≡ returns tt m []
      → u ≡ record s { lock = m; woken_readers = n; reading = suc s.reading }
      → Step s u
  reader_sleeps :
      (caller : Caller) (again n : ℕ) (m : RwLock)
      → again ≤ 1
      → s.woken_readers ≡ again + n
      → lock_read caller s.lock ≡ waits m
      → u ≡ record s { lock = m; woken_readers = n }
      → Step s u
  tries_read :
      (m : RwLock)
      → try_lock_read s.lock ≡ (true, m)
      → u ≡ record s { lock = m; reading = suc s.reading }
      → Step s u
  stops_reading :
      (h : ℕ)
      → s.reading ≡ suc h
      → (let (m, tasks) = unlock_read s.lock in
          u ≡ record s { lock = m; reading = h; woken_writers = s.woken_writers + length tasks })
      → Step s u
  writes :
      (registered : Bool) (caller : Caller) (woken outside n k : ℕ) (m : RwLock)
      → woken + outside ≡ (if registered then 1 else 0)
      → s.woken_writers ≡ woken + n
      → s.native_writers ≡ outside + k
      → lock_write registered caller s.lock ≡ returns tt m []
      → u ≡ record s { lock = m; woken_writers = n; native_writers = k; writing = suc s.writing }
      → Step s u
  writer_sleeps :
      (registered : Bool) (caller : Caller) (woken outside n k : ℕ) (m : RwLock)
      → woken + outside ≡ (if registered then 1 else 0)
      → s.woken_writers ≡ woken + n
      → s.native_writers ≡ outside + k
      → lock_write registered caller s.lock ≡ waits m
      → u ≡ record s { lock = m; woken_writers = n; native_writers = native caller + k }
      → Step s u
  tries_write :
      (m : RwLock)
      → try_lock_write s.lock ≡ (true, m)
      → u ≡ record s { lock = m; writing = suc s.writing }
      → Step s u
  stops_writing :
      (h : ℕ)
      → s.writing ≡ suc h
      → (let (m, (writers, readers)) = unlock_write s.lock in
          u ≡ record s {
            lock = m;
            writing = h;
            woken_writers = s.woken_writers + length writers;
            woken_readers = s.woken_readers + length readers;
          })
      → Step s u
  stray_unlock_read :
      s.reading ≡ 0
      → (let (m, tasks) = unlock_read s.lock in
          u ≡ record s { lock = m; woken_writers = s.woken_writers + length tasks })
      → Step s u
  stray_unlock_write :
      s.writing ≡ 0
      → (let (m, (writers, readers)) = unlock_write s.lock in
          u ≡ record s {
            lock = m;
            woken_writers = s.woken_writers + length writers;
            woken_readers = s.woken_readers + length readers;
          })
      → Step s u

-- One writer or any number of readers.
abbrev pub Excludes : System → Type 0
Excludes s =
    (s.reading ≡ s.lock.readers)
    × (s.writing ≡ (if s.lock.writer then 1 else 0))
    × ((s.lock.writer ≡ false) ⊎ (s.lock.readers ≡ 0))

-- The writers that are registered: queued, resumed, or outside the scheduler.
abbrev pub Counts : System → Type 0
Counts s =
    s.lock.waiting_writers ≡ length s.lock.writer_waiters + s.woken_writers + s.native_writers

-- A reader that waits waits for a writer, a writer for one that holds the lock or will take it.
abbrev pub Awaits : System → Type 0
Awaits s =
    ((s.lock.reader_waiters ≡ []) ⊎ (s.lock.writer ≡ true) ⊎ (0 < s.lock.waiting_writers))
    × ((s.lock.writer_waiters ≡ [])
        ⊎ (s.lock.writer ≡ true)
        ⊎ (0 < s.lock.readers)
        ⊎ (0 < s.woken_writers))

abbrev pub Inv : System → Type 0
Inv s = Excludes s × Counts s × Awaits s

pub lock_read-returns :
    (caller : Caller) (l m : RwLock)
    → lock_read caller l ≡ returns tt m []
    → (l.writer ≡ false) × (l.waiting_writers ≡ 0) × (m ≡ record l { readers = l.readers + 1 })
unfolding lock_read
lock_read-returns caller l m e = elim (Bool-cases l.writer) [
  | inl busy ↦ ground (arith, e, busy)
  | inr free ↦ elim (Bool-cases (l.waiting_writers == 0)) [
    | inl alone ↦ ground (arith, e, free, alone)
    | inr behind_one ↦ ground (arith, e, free, behind_one)
  ]
]

pub lock_read-waits :
    (caller : Caller) (l m : RwLock)
    → lock_read caller l ≡ waits m
    → ((l.writer ≡ true) ⊎ (0 < l.waiting_writers))
      × (m ≡ record l { reader_waiters = queue_up caller l.reader_waiters })
unfolding lock_read
lock_read-waits caller l m e = elim (Bool-cases l.writer) [
  | inl busy ↦ ground (arith, e, busy)
  | inr free ↦ elim (Bool-cases (l.waiting_writers == 0)) [
    | inl alone ↦ ground (arith, e, free, alone)
    | inr behind_one ↦ ground (arith, e, free, behind_one)
  ]
]

pub try_lock_read-true :
    (l m : RwLock)
    → try_lock_read l ≡ (true, m)
    → (l.writer ≡ false) × (l.waiting_writers ≡ 0) × (m ≡ record l { readers = l.readers + 1 })
unfolding try_lock_read
try_lock_read-true l m e = elim (Bool-cases l.writer) [
  | inl busy ↦ ground (arith, e, busy)
  | inr free ↦ elim (Bool-cases (ltb 0 l.waiting_writers)) [
    | inl behind_one ↦ ground (arith, e, free, behind_one)
    | inr alone ↦ ground (arith, e, free, alone)
  ]
]

pub lock_write-returns :
    (registered : Bool) (caller : Caller) (l m : RwLock)
    → lock_write registered caller l ≡ returns tt m []
    → (l.writer ≡ false)
      × (l.readers ≡ 0)
      × (m ≡ record l { waiting_writers = registered_writers registered l - 1; writer = true })
unfolding lock_write
lock_write-returns registered caller l m e = elim (Bool-cases l.writer) [
  | inl busy ↦ ground (arith, e, busy)
  | inr free ↦ elim (Bool-cases (l.readers == 0)) [
    | inl alone ↦ ground (arith, e, free, alone)
    | inr shared ↦ ground (arith, e, free, shared)
  ]
]

pub lock_write-waits :
    (registered : Bool) (caller : Caller) (l m : RwLock)
    → lock_write registered caller l ≡ waits m
    → ((l.writer ≡ true) ⊎ (0 < l.readers))
      × (m ≡ record l {
        waiting_writers = registered_writers registered l;
        writer_waiters = queue_up caller l.writer_waiters;
      })
unfolding lock_write
lock_write-waits registered caller l m e = elim (Bool-cases l.writer) [
  | inl busy ↦ ground (arith, e, busy)
  | inr free ↦ elim (Bool-cases (l.readers == 0)) [
    | inl alone ↦ ground (arith, e, free, alone)
    | inr shared ↦ ground (arith, e, free, shared)
  ]
]

pub try_lock_write-true :
    (l m : RwLock)
    → try_lock_write l ≡ (true, m)
    → (l.writer ≡ false) × (l.readers ≡ 0) × (m ≡ record l { writer = true })
unfolding try_lock_write
try_lock_write-true l m e = elim (Bool-cases l.writer) [
  | inl busy ↦ ground (arith, e, busy)
  | inr free ↦ elim (Bool-cases (l.readers == 0)) [
    | inl alone ↦ ground (arith, e, free, alone)
    | inr shared ↦ ground (arith, e, free, shared)
  ]
]
