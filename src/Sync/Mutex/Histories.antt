-- ===== src/Sync/Mutex/Histories.antt =====
-- Histories of a mutex: calls of any callers in any order, where a task that was resumed goes
-- through the loop of `absolute_mutex_lock` again. `absolute_mutex_unlock` does not ask who calls it.
use absolute.Prelude.{
  ℕ, suc, ◌+◌, ◌-◌, ◌≤◌, ◌<◌, ◌≡◌, ◌⊎◌, inl, inr, refl, ap, ◌∙◌, true, false, List, [], ◌++◌, arith,
  length, if◌then◌else◌, Bool-cases,
}
use absolute.Sync.{
  Caller, returns, waits, queue_up, Reach, Reach-keeps, behind-woken, resumed-front,
  queue_up-append,
}
use absolute.Sync.Mutex.{Mutex, initial, lock, unlock, try_lock}

-- A mutex, how many tasks were resumed and have not run since, how many callers hold it, and the
-- tasks that were queued and resumed so far, in order.
pub record System : Type 0 where
  pub mutex : Mutex
  pub woken : ℕ
  pub holders : ℕ
  pub queued : List ℕ
  pub resumed : List ℕ

abbrev pub start : System
start = record { mutex = initial; woken = 0; holders = 0; queued = []; resumed = [] }

-- The caller of a round of `lock` is new (`again` is 0) or a task that was resumed (1). A caller
-- that unlocks the mutex holds it, or nobody does.
pub data Step (s u : System) : Type 0 where
  locks :
      (caller : Caller) (again n : ℕ) (m : Mutex)
      → again ≤ 1
      → s.woken ≡ again + n
      → lock caller s.mutex ≡ returns tt m []
      → u ≡ record s { mutex = m; woken = n; holders = suc s.holders }
      → Step s u
  sleeps :
      (caller : Caller) (again n : ℕ) (m : Mutex)
      → again ≤ 1
      → s.woken ≡ again + n
      → lock caller s.mutex ≡ waits m
      → u ≡ record s { mutex = m; woken = n; queued = queue_up caller s.queued }
      → Step s u
  tries :
      (m : Mutex)
      → try_lock s.mutex ≡ (true, m)
      → u ≡ record s { mutex = m; holders = suc s.holders }
      → Step s u
  unlocks :
      (h : ℕ)
      → s.holders - 1 ≡ h
      → (let (m, tasks) = unlock s.mutex in
          u ≡ record s {
            mutex = m;
            holders = h;
            woken = s.woken + length tasks;
            resumed = s.resumed ++ tasks;
          })
      → Step s u

abbrev pub Excludes : System → Type 0
Excludes s = s.holders ≡ (if s.mutex.locked then 1 else 0)

-- A task that waits waits for a holder, or for a task that was resumed and will run.
abbrev pub Awaits : System → Type 0
Awaits s = (s.mutex.waiters ≡ []) ⊎ (s.mutex.locked ≡ true) ⊎ (0 < s.woken)

abbrev pub InOrder : System → Type 0
InOrder s = s.queued ≡ s.resumed ++ s.mutex.waiters

abbrev pub Inv : System → Type 0
Inv s = Excludes s × Awaits s × InOrder s

lock-returns :
    (caller : Caller) (m m' : Mutex)
    → lock caller m ≡ returns tt m' []
    → (m.locked ≡ false) × (m' ≡ record m { locked = true })
unfolding lock
lock-returns caller m m' e = elim (Bool-cases m.locked) [
  | inl busy ↦ ground (arith, e, busy)
  | inr free ↦ ground (arith, e, free)
]

lock-waits :
    (caller : Caller) (m m' : Mutex)
    → lock caller m ≡ waits m'
    → (m.locked ≡ true) × (m' ≡ record m { waiters = queue_up caller m.waiters })
unfolding lock
lock-waits caller m m' e = elim (Bool-cases m.locked) [
  | inl busy ↦ ground (arith, e, busy)
  | inr free ↦ ground (arith, e, free)
]

try_lock-true :
    (m m' : Mutex)
    → try_lock m ≡ (true, m')
    → (m.locked ≡ false) × (m' ≡ record m { locked = true })
unfolding try_lock
try_lock-true m m' e = elim (Bool-cases m.locked) [
  | inl busy ↦ ground (arith, e, busy)
  | inr free ↦ ground (arith, e, free)
]

Step-Inv : (s u : System) → Step s u → Inv s → Inv u
unfolding unlock
Step-Inv s u (locks caller again n m k w e f) (x, a, o) =
    let (free, g) = lock-returns caller s.mutex m e in
    rw (f, g) (ground (arith, x, free), inr (inl refl), o)
Step-Inv s u (sleeps caller again n m k w e f) (x, a, o) =
    let (busy, g) = lock-waits caller s.mutex m e in
    rw (f, g)
      (x, inr (inl busy), ap (queue_up caller) o ∙ queue_up-append caller s.resumed s.mutex.waiters)
Step-Inv s u (tries m e f) (x, a, o) =
    let (free, g) = try_lock-true s.mutex m e in
    rw (f, g) (ground (arith, x, free), inr (inl refl), o)
Step-Inv s u (unlocks h held f) (x, a, o) = rw f (
  ground (arith, x, held),
  behind-woken s.mutex.waiters s.woken,
  o ∙ resumed-front s.resumed s.mutex.waiters,
)

-- In every history in which no caller unlocks a mutex that another holds (it may unlock one that
-- nobody holds), at most one caller holds the mutex, and it is locked exactly while one does. A
-- task that waits does so while there is a holder or a resumed task that has not run yet, so no
-- wake-up is lost; tasks are resumed in the order in which they queued, each time once.
pub Reach-Mutex : (u : System) → Reach Step start u → Inv u
Reach-Mutex u = Reach-keeps Step Inv Step-Inv (refl, inl refl, refl)
